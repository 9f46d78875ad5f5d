-- ===== src/Syscall/BQueue/Delete.antt =====
-- `internal_bq_delete`.
use so_oscilloscopio.Base.{
  ◌≡◌, refl, sym, ap, subst, ◌∙◌, ◌≢◌, ◌⊎◌, inl, inr, ℤ, pos, to_int, eqb_ℤ, eqb_ℤ-sound,
  eqb_ℤ-refl, List, [], ◌∷◌, ◌++◌, arith, true, false, ◌==◌, if◌then◌else◌, ◌∈◌, ◌∉◌, mem-head,
  mem-right, mem-append, mem-erase, erase, erase-middle, Distinct, Bool-cases, ==_ne, ==_refl,
}
use so_oscilloscopio.Run.{ok, modify, ◌>>◌}
use so_oscilloscopio.Run.Returns
use so_oscilloscopio.Run.Returns.{Returns, returns}
use so_oscilloscopio.Constants.Error
use so_oscilloscopio.LinkedList.{Ptr, null}
use so_oscilloscopio.PoolAllocator.{PoolAllocator, release_block}
use so_oscilloscopio.PoolAllocator.Live.{Holds, held-ne_null}
use so_oscilloscopio.PoolAllocator.Frees.{
  Frees, Frees-Holds, Frees-subset, Holds-Frees, release_block-Frees,
}
use so_oscilloscopio.Kernel.{Kernel, BlockingQueue, argument, update, set_retvalue}
use so_oscilloscopio.Kernel.Effects.{current_run, set_retvalue_run, update_ne}
use so_oscilloscopio.BQueue.{bq_by_id, bq_free}
use so_oscilloscopio.Scan.{NoneOf, NoneOf-mem, IsFirst, missing, found, bq_by_id-IsFirst}
use so_oscilloscopio.Syscall.BQueue.{queue_by_id, has_waiters, internal_bq_delete}
use so_oscilloscopio.Syscall.BQueue.Create.{replied_with, replied_IsRegistry}
use so_oscilloscopio.Syscall.BQueue.FreeItems.{
  erase_all, pushed, mem-pushed, free_items-Emptied, queue_freed, bq_free_rest,
}
use so_oscilloscopio.Syscall.BQueue.Registry.{
  NoId, UniqueIds, IsRegistry, NoId-frame, UniqueIds-frame, UniqueIds-remove, NoId-both,
  NoId-absent, bq_by_id-null,
}

-- The items of the registered queues are live blocks of their pool, and the blocks of both pools are
-- known without repetition.
pub record HoldsItems (k : Kernel) (reg : IsRegistry k) (live : List Ptr) : Type 0 where
  pub holds : Holds k.bqitem_allocator live
  pub distinct : Distinct live
  pub queues_distinct : Distinct reg.live
  pub items_distinct : (q : Ptr) → q ∈ k.bq_registry → Distinct (k.bqueue_memory q).items
  pub owned : (q : Ptr) → q ∈ k.bq_registry → (p : Ptr) → p ∈ (k.bqueue_memory q).items → p ∈ live

-- The queue `q` with the id is gone, its block and those of all its items are free, and the others are
-- as they were.
pub record Deleted (k : Kernel) (id : ℤ) (queues live : List Ptr) (q : Ptr) (l : Kernel)
    : Type 0 where
  pub registered : q ∈ k.bq_registry
  pub had_id : (k.bqueue_memory q).id ≡ id
  pub no_getters : (k.bqueue_memory q).wait_getters ≡ []
  pub no_putters : (k.bqueue_memory q).wait_putters ≡ []
  pub registry : l.bq_registry ≡ erase q k.bq_registry
  pub gone : queue_by_id l id ≡ null
  pub others : (p : Ptr) → p ≢ q → l.bqueue_memory p ≡ k.bqueue_memory p
  pub block : Frees l.bq_allocator (erase q queues) (q ∷ [])
  pub items :
      Frees l.bqitem_allocator (erase_all (k.bqueue_memory q).items live) (k.bqueue_memory q).items
  pub returned : (l.pcb_memory l.running_pcb).syscall_retvalue ≡ pos 0

-- Why a queue is not deleted, with the result that is returned for it.
pub data NotDeleted (k : Kernel) (id : ℤ) : ℤ → Type 0 where
  no_queue : queue_by_id k id ≡ null → NotDeleted k id Error.resource_no_fd
  in_use :
      (q : Ptr)
      → queue_by_id k id ≡ q
      → q ≢ null
      → has_waiters (k.bqueue_memory q) ≡ true
      → NotDeleted k id Error.resource_in_use

abbrev pub DeleteOutcome : Kernel → (id : ℤ) (queues live : List Ptr) → Kernel → Type 0
DeleteOutcome k id queues live l =
    ((r : ℤ) × NotDeleted k id r × (l ≡ replied_with r k))
    ⊎ ((q : Ptr) × Deleted k id queues live q l)

no_waiters :
    (v : BlockingQueue) → has_waiters v ≡ false → (v.wait_getters ≡ []) × (v.wait_putters ≡ [])
unfolding has_waiters
no_waiters v e = ground arith

NoneOf-NoId :
    (m : Ptr → BlockingQueue) (id : ℤ) (qs : List Ptr)
    → NoneOf (λ q. eqb_ℤ (m q).id id) qs
    → NoId m id qs
NoneOf-NoId m id [] h = tt
NoneOf-NoId m id (q ∷ qs) (miss, h) = (
  λ e. let hit : eqb_ℤ (m q).id id ≡ true = ap (λ i. eqb_ℤ i id) e ∙ eqb_ℤ-refl id in cc,
  NoneOf-NoId m id qs h,
)

-- The queue `q` stands between the parts of the registry, and the others have other ids.
module _ (k : Kernel) (reg : IsRegistry k) (id : ℤ) (q : Ptr) (before after : List Ptr)
    (eq : k.bq_registry ≡ before ++ q ∷ after)
    (none : NoneOf (λ q. eqb_ℤ (k.bqueue_memory q).id id) before)
    (hit : eqb_ℤ (k.bqueue_memory q).id id ≡ true) where
  own_id : (k.bqueue_memory q).id ≡ id
  own_id = eqb_ℤ-sound (k.bqueue_memory q).id id hit

  registered : q ∈ k.bq_registry
  registered = subst (λ l. q ∈ l) (sym eq) (mem-right q before (q ∷ after) (mem-head q after))

  not_before : q ∉ before
  not_before = NoneOf-mem (λ q. eqb_ℤ (k.bqueue_memory q).id id) before q none hit

  split :
      UniqueIds k.bqueue_memory (before ++ after)
      × NoId k.bqueue_memory (k.bqueue_memory q).id after
  split =
      UniqueIds-remove k.bqueue_memory before q after
        (subst (UniqueIds k.bqueue_memory) eq reg.unique)

  not_after : q ∉ after
  not_after = NoId-absent k.bqueue_memory q after split.1

  remaining : erase q k.bq_registry ≡ before ++ after
  remaining = ap (erase q) eq ∙ erase-middle q before after not_before

  remaining_ne : (p : Ptr) → p ∈ before ++ after → p ≢ q
  remaining_ne p i e =
      let out = not_before in
      let out' = not_after in
      let j = subst (λ x. x ∈ before ++ after) e i in ground (arith, mem-append q before after)

  remaining_mem : (p : Ptr) → p ∈ before ++ after → p ∈ k.bq_registry
  remaining_mem p i =
      subst (λ l. p ∈ l) (sym eq)
        (ground (arith, mem-append p before after, mem-append p before (q ∷ after)))

  -- The memory of queues once `q` is freed.
  module _ (m : Ptr → BlockingQueue) (others : (p : Ptr) → p ≢ q → m p ≡ k.bqueue_memory p) where
    abbrev freed : Ptr → BlockingQueue
    freed = update m q (record (m q) { size = 0 })

    freed_others : (p : Ptr) → p ≢ q → freed p ≡ k.bqueue_memory p
    freed_others p ne = update_ne m q _ p ne ∙ others p ne

    freed_same : (p : Ptr) → p ∈ before ++ after → freed p ≡ k.bqueue_memory p
    freed_same p i = freed_others p (remaining_ne p i)

    none_left : NoId freed id (before ++ after)
    none_left = NoId-frame k.bqueue_memory freed id (before ++ after) freed_same (
        NoId-both k.bqueue_memory id before after (NoneOf-NoId k.bqueue_memory id before none)
          (subst (λ i. NoId k.bqueue_memory i after) own_id split.1))

    module _ (live : List Ptr) (c b : PoolAllocator) where
      abbrev deleted : Kernel
      deleted = replied_with (pos 0) (
          queue_freed
            (record k {
              bq_registry = erase q k.bq_registry;
              bqitem_allocator = c;
              bqueue_memory = m;
            })
            q b)

      deleted-Deleted :
          (k.bqueue_memory q).wait_getters ≡ []
          → (k.bqueue_memory q).wait_putters ≡ []
          → Frees b (erase q reg.live) (q ∷ [])
          → Frees c (erase_all (k.bqueue_memory q).items live) (k.bqueue_memory q).items
          → Deleted k id reg.live live q deleted
      deleted-Deleted getters putters block held = record {
        registered = registered;
        had_id = own_id;
        no_getters = getters;
        no_putters = putters;
        registry = refl;
        gone =
            ap (λ l. bq_by_id freed l id) remaining
            ∙ bq_by_id-null freed id (before ++ after) none_left;
        others = freed_others;
        block = block;
        items = held;
        returned = rw (==_refl k.running_pcb);
      }

      deleted-IsRegistry : Distinct reg.live → Holds b (erase q reg.live) → IsRegistry deleted
      deleted-IsRegistry distinct held = record {
        live = erase q reg.live;
        holds = held;
        owned = λ p i.
            let j = subst (λ l. p ∈ l) remaining i in
            let ne = remaining_ne p j in
            let o = reg.owned p (remaining_mem p j) in
            ground (arith, mem-erase p q reg.live distinct);
        unique =
            subst (UniqueIds freed) (sym remaining)
              (UniqueIds-frame k.bqueue_memory freed (before ++ after) freed_same split.0);
      }

module _ (k : Kernel) (on : k.running_pcb ≢ null) where
  abbrev id : ℤ
  id = to_int (argument k 0)

  abbrev unregistered : Ptr → Kernel
  unregistered q = record k { bq_registry = erase q k.bq_registry }

  -- The call, for the queue that the scan has found.
  delete_cases :
      (q : Ptr)
      → queue_by_id k id ≡ q
      → internal_bq_delete k
        ≡ (if q == null
              then set_retvalue Error.resource_no_fd
              else if has_waiters (k.bqueue_memory q)
              then set_retvalue Error.resource_in_use
              else (do
                modify λ k. record k { bq_registry = erase q k.bq_registry }
                bq_free q
                set_retvalue (pos 0)))
            k
  unfolding internal_bq_delete
  delete_cases q e = rw (current_run k on) (
      ap
        (λ q.
          (if q == null
              then set_retvalue Error.resource_no_fd
              else if has_waiters (k.bqueue_memory q)
              then set_retvalue Error.resource_in_use
              else (do
                modify λ k. record k { bq_registry = erase q k.bq_registry }
                bq_free q
                set_retvalue (pos 0)))
            k)
        e)

  refuse_delete :
      (live : List Ptr) (r : ℤ) (reg : IsRegistry k)
      → NotDeleted k id r
      → Returns (λ _ l. DeleteOutcome k id reg.live live l × IsRegistry l) (set_retvalue r k)
  refuse_delete live r reg why =
      rw (set_retvalue_run k r on) (returns (inl (r, why, refl), replied_IsRegistry r k reg))

  module _ (reg : IsRegistry k) (live : List Ptr) (items : HoldsItems k reg live) (q : Ptr)
      (before after : List Ptr) (eq : k.bq_registry ≡ before ++ q ∷ after)
      (none : NoneOf (λ q. eqb_ℤ (k.bqueue_memory q).id id) before)
      (hit : eqb_ℤ (k.bqueue_memory q).id id ≡ true) where
    free_queue :
        (k.bqueue_memory q).wait_getters ≡ []
        → (k.bqueue_memory q).wait_putters ≡ []
        → Returns
            (λ _ l. DeleteOutcome k id reg.live live l × IsRegistry l)
            ((do bq_free q; set_retvalue (pos 0)) (unregistered q))
    free_queue getters putters =
        let here = registered k reg id q before after eq none hit in
        let (u, l, run, e) = Returns.result (
          free_items-Emptied (unregistered q) q (k.bqueue_memory q).items live [] refl
            (Holds-Frees k.bqitem_allocator live items.holds) items.distinct
            (items.items_distinct q here) (items.owned q here)) in
        let (r, b, gave, (_, held)) = Returns.result (
          release_block-Frees k.bq_allocator reg.live []
            (Holds-Frees k.bq_allocator reg.live reg.holds) q (reg.owned q here)
            items.queues_distinct) in
        let freed_items =
          Frees-subset l.bqitem_allocator (erase_all (k.bqueue_memory q).items live)
            (pushed (k.bqueue_memory q).items []) (k.bqueue_memory q).items
            (λ p i. ground (arith, mem-pushed p (k.bqueue_memory q).items [])) e.freed in
        let same : l.bq_allocator ≡ k.bq_allocator = ap (λ (l : Kernel). l.bq_allocator) e.rest in
        let run' =
          bq_free_rest (unregistered q) q l r b run
            (ap (λ (v : BlockingQueue). v.wait_getters) e.queue ∙ getters)
            (ap (λ (v : BlockingQueue). v.wait_putters) e.queue ∙ putters)
            (ap (release_block q) same ∙ gave) in
        let l' = record (unregistered q) {
          bqitem_allocator = l.bqitem_allocator;
          bqueue_memory = l.bqueue_memory;
        } in
        let freed = run' ∙ ap (λ l. ok (pos 0) (queue_freed l q b)) e.rest in
        rw (freed) (
          rw (set_retvalue_run (queue_freed l' q b) (pos 0) on) (
            returns (
              inr (
                q,
                deleted-Deleted k reg id q before after eq none hit l.bqueue_memory e.others live
                    l.bqitem_allocator b getters putters held freed_items,
              ),
              deleted-IsRegistry k reg id q before after eq none hit l.bqueue_memory e.others live
                  l.bqitem_allocator b items.queues_distinct
                  (Frees-Holds b (erase q reg.live) (q ∷ []) held),
            )))

    delete_found :
        (here_is : queue_by_id k id ≡ q)
        → Returns (λ _ l. DeleteOutcome k id reg.live live l × IsRegistry l) (internal_bq_delete k)
    delete_found here_is =
        let here = registered k reg id q before after eq none hit in
        let ne = held-ne_null k.bq_allocator reg.live q reg.holds (reg.owned q here) in
        rw (delete_cases q here_is) (
          rw (==_ne q null ne) (elim (Bool-cases (has_waiters (k.bqueue_memory q))) [
            | inl busy ↦
                rw busy (refuse_delete live Error.resource_in_use reg (in_use q here_is ne busy))
            | inr idle ↦
                let (getters, putters) = no_waiters (k.bqueue_memory q) idle in
                rw idle (free_queue getters putters)
          ]))

  delete_scanned :
      (reg : IsRegistry k) (live : List Ptr) (items : HoldsItems k reg live) (q : Ptr)
      → queue_by_id k id ≡ q
      → IsFirst (λ q. eqb_ℤ (k.bqueue_memory q).id id) k.bq_registry q
      → Returns (λ _ l. DeleteOutcome k id reg.live live l × IsRegistry l) (internal_bq_delete k)
  delete_scanned reg live items _ e (missing none) =
      rw (delete_cases null e) (refuse_delete live Error.resource_no_fd reg (no_queue e))
  delete_scanned reg live items _ e (found before q after eq none hit) =
      delete_found reg live items q before after eq none hit e

  -- `internal_bq_delete` with a process running, the registered queues live blocks with different ids
  -- and their items live blocks, both without repetition: the call returns. It is refused, with a
  -- result for each reason and no other change, if no queue has the id or if a process waits for the
  -- queue; otherwise the queue is found no more, the blocks of all its items are free and the other live
  -- ones stay live, so for the block of the queue itself, the other queues are as they were, and the
  -- result is 0. The registered queues are live blocks with different
  -- ids afterwards too.
  pub internal_bq_delete-IsRegistry :
      (reg : IsRegistry k) (live : List Ptr)
      → HoldsItems k reg live
      → Returns (λ _ l. DeleteOutcome k id reg.live live l × IsRegistry l) (internal_bq_delete k)
  internal_bq_delete-IsRegistry reg live items =
      delete_scanned reg live items (queue_by_id k id) refl
        (bq_by_id-IsFirst k.bqueue_memory id k.bq_registry)
