-- ===== src/Syscall/BQueue/Create.antt =====
-- `internal_bq_create`.
use so_oscilloscopio.Base.{
  ◌≡◌, refl, sym, ap, subst, ◌≢◌, ◌⊎◌, inl, inr, ℤ, pos, ◌≤ℤ◌, leb_ℤ, to_int, [], ◌∷◌, ◌++◌, arith,
  ◌==◌, ◌∈◌, ◌∉◌, mem, mem-append, Bool-cases, ==_ne, ==_refl, ne_of_mem, not-mem_of_subset,
}
use so_oscilloscopio.Run.{ok}
use so_oscilloscopio.Run.Returns.{Returns, returns}
use so_oscilloscopio.Constants.Error
use so_oscilloscopio.LinkedList.{Ptr, null}
use so_oscilloscopio.PoolAllocator.{PoolAllocator, get_block}
use so_oscilloscopio.PoolAllocator.Live.{Holds, get_block-Obtains, held-ne_null}
use so_oscilloscopio.Kernel.{
  Kernel, BlockingQueue, argument, update, set_pcb, set_retvalue, with_retvalue,
}
use so_oscilloscopio.Kernel.Effects.{current_run, set_retvalue_run}
use so_oscilloscopio.BQueue.{bq_alloc, set_bqueue}
use so_oscilloscopio.Syscall.BQueue.{queue_by_id, internal_bq_create}
use so_oscilloscopio.Syscall.BQueue.Registry.{
  NoId, IsRegistry, new_bqueue, bq_by_id-NoId, bq_by_id-last, NoId-frame, UniqueIds-frame,
  UniqueIds-append,
}

-- The caller's system call returns `r`, and nothing else changes.
abbrev pub replied_with : ℤ → Kernel → Kernel
replied_with r k = set_pcb k.running_pcb (with_retvalue r (k.pcb_memory k.running_pcb)) k

-- The queue `q` is new, is found under its id, and the call returns 0.
pub record Created (k : Kernel) (id capacity : ℤ) (q : Ptr) (l : Kernel) : Type 0 where
  pub present : q ≢ null
  pub fresh : q ∉ k.bq_registry
  pub none_before : NoId k.bqueue_memory id k.bq_registry
  pub positive : pos 1 ≤ℤ capacity
  pub registered : l.bq_registry ≡ k.bq_registry ++ q ∷ []
  pub queue : l.bqueue_memory q ≡ new_bqueue id capacity
  pub found : queue_by_id l id ≡ q
  pub returned : (l.pcb_memory l.running_pcb).syscall_retvalue ≡ pos 0

-- Why a queue is not created, with the result that is returned for it.
pub data Refused (k : Kernel) (id capacity : ℤ) : ℤ → Type 0 where
  no_capacity : capacity ≤ℤ pos 0 → Refused k id capacity Error.argument_out_of_bounds
  id_taken : queue_by_id k id ≢ null → Refused k id capacity Error.exists
  exhausted :
      get_block k.bq_allocator ≡ ok null k.bq_allocator
      → Refused k id capacity Error.not_implemented

abbrev queue_created : Kernel → (id capacity : ℤ) (q : Ptr) → PoolAllocator → Kernel
queue_created k id capacity q b = replied_with (pos 0) (record k {
  bq_allocator = b;
  bqueue_memory = update k.bqueue_memory q (new_bqueue id capacity);
  bq_registry = k.bq_registry ++ q ∷ [];
})

module _ (k : Kernel) (reg : IsRegistry k) (id capacity : ℤ) (q : Ptr) (b : PoolAllocator)
    (ne : q ≢ null) (out : q ∉ reg.live) where
  fresh_queue : q ∉ k.bq_registry
  fresh_queue = not-mem_of_subset q k.bq_registry reg.live reg.owned out

  registry_present : null ∉ k.bq_registry
  registry_present = elim (Bool-cases (mem null k.bq_registry)) [
    | inl i ↦ absurd (held-ne_null k.bq_allocator reg.live null reg.holds (reg.owned null i) refl)
    | inr o ↦ o
  ]

  module _ (none : queue_by_id k id ≡ null) where
    no_id : NoId k.bqueue_memory id k.bq_registry
    no_id = bq_by_id-NoId k.bqueue_memory id k.bq_registry registry_present none

    same_queues :
        (p : Ptr)
        → p ∈ k.bq_registry
        → update k.bqueue_memory q (new_bqueue id capacity) p ≡ k.bqueue_memory p
    same_queues p i = rw (==_ne p q λ e. ne_of_mem q p k.bq_registry fresh_queue i (sym e))

    at : update k.bqueue_memory q (new_bqueue id capacity) q ≡ new_bqueue id capacity
    at = rw (==_refl q)

    still_free : NoId (update k.bqueue_memory q (new_bqueue id capacity)) id k.bq_registry
    still_free =
        NoId-frame k.bqueue_memory (update k.bqueue_memory q (new_bqueue id capacity)) id
          k.bq_registry same_queues no_id

    created_IsRegistry : Holds b (q ∷ reg.live) → IsRegistry (queue_created k id capacity q b)
    created_IsRegistry held =
        let n = update k.bqueue_memory q (new_bqueue id capacity) in
        record {
          live = q ∷ reg.live;
          holds = held;
          owned = λ p i. let o = reg.owned p in ground (arith, mem-append p k.bq_registry (q ∷ []));
          unique =
              UniqueIds-append n k.bq_registry q
                (UniqueIds-frame k.bqueue_memory n k.bq_registry same_queues reg.unique)
                (subst (λ (v : BlockingQueue). NoId n v.id k.bq_registry) (sym at) still_free);
        }

    created_lem : pos 1 ≤ℤ capacity → Created k id capacity q (queue_created k id capacity q b)
    created_lem positive = record {
      present = ne;
      fresh = fresh_queue;
      none_before = no_id;
      positive = positive;
      registered = refl;
      queue = at;
      found =
          bq_by_id-last (update k.bqueue_memory q (new_bqueue id capacity)) id k.bq_registry q
            still_free (ap (λ (v : BlockingQueue). v.id) at);
      returned = rw (==_refl k.running_pcb);
    }

-- What `internal_bq_create` may lead to: a refusal that changes only the caller's result, or a queue.
abbrev pub CreateOutcome : Kernel → (id capacity : ℤ) → Kernel → Type 0
CreateOutcome k id capacity l =
    ((r : ℤ) × Refused k id capacity r × (l ≡ replied_with r k))
    ⊎ ((q : Ptr) × Created k id capacity q l)

pub replied_IsRegistry : (r : ℤ) (k : Kernel) → IsRegistry k → IsRegistry (replied_with r k)
replied_IsRegistry r k reg = record {
  live = reg.live;
  holds = reg.holds;
  owned = reg.owned;
  unique = reg.unique;
}

module _ (k : Kernel) (on : k.running_pcb ≢ null) where
  abbrev id : ℤ
  id = to_int (argument k 0)

  abbrev capacity : ℤ
  capacity = to_int (argument k 1)

  refuse :
      (r : ℤ)
      → IsRegistry k
      → Refused k id capacity r
      → Returns (λ _ l. CreateOutcome k id capacity l × IsRegistry l) (set_retvalue r k)
  refuse r reg why =
      rw (set_retvalue_run k r on) (returns (inl (r, why, refl), replied_IsRegistry r k reg))

  -- `internal_bq_create` with a process running and the registered queues live blocks with different
  -- ids: the call returns. A capacity below 1, an id in use and an exhausted pool are refused, each
  -- with its own result and no other change. Otherwise a new empty queue with the id and capacity is
  -- registered behind the others and found under its id, and the call returns 0. In both cases the
  -- registered queues are live blocks with different ids again.
  pub internal_bq_create-IsRegistry :
      IsRegistry k
      → Returns (λ _ l. CreateOutcome k id capacity l × IsRegistry l) (internal_bq_create k)
  unfolding internal_bq_create bq_alloc set_bqueue
  internal_bq_create-IsRegistry reg =
      rw (current_run k on) (elim (Bool-cases (leb_ℤ capacity (pos 0))) [
        | inl small ↦ rw small (refuse _ reg (no_capacity (ground arith)))
        | inr large ↦ rw large (elim (Bool-cases (queue_by_id k id == null)) [
          | inr taken ↦ rw taken (refuse _ reg (id_taken (ground arith)))
          | inl none ↦ rw none (elim (get_block-Obtains k.bq_allocator reg.live reg.holds) [
            | inl empty ↦ rw empty (refuse _ reg (exhausted empty))
            | inr (q, b, got, ne, out, held) ↦
                let found : queue_by_id k id ≡ null = ground arith in
                rw (got, ==_ne q null ne)
                  (rw (==_ne q null ne) (
                    rw
                      (set_retvalue_run
                        (record k {
                          bq_allocator = b;
                          bqueue_memory = update k.bqueue_memory q (new_bqueue id capacity);
                          bq_registry = k.bq_registry ++ q ∷ [];
                        })
                        (pos 0) on)
                      (returns (
                        inr (q, created_lem k reg id capacity q b ne out found (ground arith)),
                        created_IsRegistry k reg id capacity q b ne out found held,
                      ))))
          ])
        ])
      ])
