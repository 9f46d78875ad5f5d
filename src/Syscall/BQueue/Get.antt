-- ===== src/Syscall/BQueue/Get.antt =====
-- `internal_bq_get` against the first-in first-out queue.
use so_oscilloscopio.Base.{
  ◌≡◌, refl, ap, ◌∙◌, ◌≢◌, ◌⊎◌, inl, inr, ℤ, pos, List, [], ◌∷◌, ◌++◌, map, arith, ◌∈◌, length,
  to_ptr, to_int, ==_ne, ==_refl, first_or,
}
use so_oscilloscopio.Run.Returns
use so_oscilloscopio.Run.Returns.{Returns, returns}
use so_oscilloscopio.LinkedList.{Ptr, null}
use so_oscilloscopio.PoolAllocator.{PoolAllocator}
use so_oscilloscopio.Kernel.{Kernel, BlockingQueue}
use so_oscilloscopio.Kernel.Effects.{current_run, run_next_run, switched}
use so_oscilloscopio.Syscall.BQueue.{
  queue_by_id, get_from, take_item, block_getter, internal_bq_get,
}
use so_oscilloscopio.Kernel.{argument}
use so_oscilloscopio.Syscall.BQueue.Effects.{block_getter_run, getter_blocked}
use so_oscilloscopio.Syscall.BQueue.Completion.{Producer}
use so_oscilloscopio.Syscall.BQueue.Fifo.{
  put_value, contents, IsQueue, Owns, IsRunning, Available, switched-contents, switched-bqueues,
  switched-pcb_ptrs, switched-waiting, switched-running, obtained,
}
use so_oscilloscopio.Syscall.BQueue.TakeItem.{Dequeued, take_item-Dequeued}

items_of_contents : (k : Kernel) (v : BlockingQueue) → IsQueue v → contents k v ≢ [] → v.items ≢ []
unfolding contents
items_of_contents k v shape some none = go shape.full
  where
    go : (v.wait_putters ≡ []) ⊎ (pos v.size ≡ v.capacity) → ⊥
    go (inl e) = some (rw (none, e))
    go (inr e) = let n = ap length none in ground (arith, shape.counted, shape.positive)

no_putters_of_items : (v : BlockingQueue) → IsQueue v → v.items ≡ [] → v.wait_putters ≡ []
no_putters_of_items v shape none = go shape.full
  where
    go : (v.wait_putters ≡ []) ⊎ (pos v.size ≡ v.capacity) → v.wait_putters ≡ []
    go (inl e) = e
    go (inr e) = absurd (let n = ap length none in ground (arith, shape.counted, shape.positive))

get_from_items :
    (q outp : Ptr) (v : BlockingQueue) (it : Ptr) (rest : List Ptr)
    → v.items ≡ it ∷ rest
    → get_from q outp v ≡ take_item q outp it rest
unfolding get_from
get_from_items q outp v it rest e = rw (e, get_from)

get_from_nothing :
    (q outp : Ptr) (v : BlockingQueue)
    → v.items ≡ []
    → v.wait_putters ≡ []
    → get_from q outp v ≡ block_getter q
unfolding get_from
get_from_nothing q outp v e f = ground arith

nothing_of_contents :
    (k : Kernel) (v : BlockingQueue) → contents k v ≡ [] → (v.items ≡ []) × (v.wait_putters ≡ [])
unfolding contents
nothing_of_contents k v e = go v.items v.wait_putters e
  where
    go :
        (xs ys : List Ptr)
        → map k.bqitem_memory xs ++ map (put_value k.pcb_memory k.pcb_ptr_memory) ys ≡ []
        → (xs ≡ []) × (ys ≡ [])
    go [] [] e = (refl, refl)
    go [] (y ∷ ys) e = cc
    go (x ∷ xs) ys e = cc

-- The caller waits behind the other getters of `q`, and the first ready process runs.
pub record GetterWaits (k : Kernel) (q : Ptr) (l : Kernel) : Type 0 where
  pub still_empty : contents l (l.bqueue_memory q) ≡ []
  pub shape : IsQueue (l.bqueue_memory q)
  pub item : Ptr
  pub last : (l.bqueue_memory q).wait_getters ≡ (k.bqueue_memory q).wait_getters ++ item ∷ []
  pub caller : l.pcb_ptr_memory item ≡ k.running_pcb
  pub waits : l.waiting_list ≡ k.waiting_list ++ k.running_pcb ∷ []
  pub next_runs : l.running_pcb ≡ first_or null k.ready_list

getter_blocked-GetterWaits :
    (k : Kernel) (q g : Ptr) (b : PoolAllocator)
    → IsQueue (k.bqueue_memory q)
    → (k.bqueue_memory q).items ≡ []
    → (k.bqueue_memory q).wait_putters ≡ []
    → GetterWaits k q (switched (getter_blocked k q g b) k.ready_list)
unfolding contents
getter_blocked-GetterWaits k q g b shape no_items no_putters =
    let k1 = getter_blocked k q g b in
    let l = k.ready_list in
    record {
      still_empty = switched-contents k1 l q ∙ rw (==_refl q, no_items, no_putters);
      shape =
          rw (switched-bqueues k1 l, ==_refl q)
            (record {
              counted = shape.counted;
              room = shape.room;
              positive = shape.positive;
              full = inl no_putters;
              empty = inr (no_items, no_putters);
            });
      item = g;
      last = rw (switched-bqueues k1 l, ==_refl q);
      caller = rw (switched-pcb_ptrs k1 l, ==_refl g);
      waits = switched-waiting k1 l;
      next_runs = switched-running k1 l;
    }

module _ (k : Kernel) (q : Ptr) (run : IsRunning k) (owns : Owns k (k.bqueue_memory q))
    (shape : IsQueue (k.bqueue_memory q)) (ne : q ≢ null)
    (found : queue_by_id k (to_int (argument k 0)) ≡ q) where
  -- `internal_bq_get` on a queue that is not empty: the call returns, its first value is the one that
  -- the caller finds where it asked for it (if it asked), exactly that value is gone from the
  -- first-in first-out queue of buffered values and of values that producers wait to put, the
  -- queue's fields agree with one another as before, and the caller goes on. This holds where a
  -- process runs and is on no list of processes, the ready ones hold no null and the waiting ones are
  -- distinct, the producers that wait for the queue are neither null, ready nor zombies, the queue's
  -- fields agree, and its items and waiters are live blocks of their pools.
  pub internal_bq_get-Dequeued :
      ((pptr : Ptr) → pptr ∈ (k.bqueue_memory q).wait_putters → Producer k (k.pcb_ptr_memory pptr))
      → contents k (k.bqueue_memory q) ≢ []
      → Returns
          (λ _ l. (value : ℤ) × Dequeued k q (to_ptr (argument k 1)) value l)
          (internal_bq_get k)
  unfolding internal_bq_get
  internal_bq_get-Dequeued producers some =
      rw (current_run k run.running, found, ==_ne q null ne) (go (k.bqueue_memory q).items refl)
    where
      outp : Ptr
      outp = to_ptr (argument k 1)

      go :
          (xs : List Ptr)
          → (k.bqueue_memory q).items ≡ xs
          → Returns
              (λ _ l. (value : ℤ) × Dequeued k q (to_ptr (argument k 1)) value l)
              (get_from q outp (k.bqueue_memory q) k)
      go [] e = absurd (items_of_contents k (k.bqueue_memory q) shape some e)
      go (it ∷ rest) e = rw (get_from_items q outp (k.bqueue_memory q) it rest e) (
          Returns.weaken (take_item-Dequeued k q outp it rest run owns shape e producers)
            λ _ l d. (k.bqitem_memory it, d))

  -- `internal_bq_get` on an empty queue: the call returns, the queue is still empty, the caller is
  -- the last of its getters and the last of the waiting processes, and the first ready process runs,
  -- or none if none is ready. This holds where a process runs and is on no list of processes, the
  -- ready ones hold no null and the waiting ones are distinct, the queue's fields agree, its items
  -- and waiters are live blocks of their pools, and the pool of waiters is not exhausted.
  pub internal_bq_get-GetterWaits :
      contents k (k.bqueue_memory q) ≡ []
      → Available k.pcb_ptr_allocator
      → Returns (λ _ l. GetterWaits k q l) (internal_bq_get k)
  unfolding internal_bq_get
  internal_bq_get-GetterWaits none some_left =
      let v = k.bqueue_memory q in
      let (no_items, no_putters) = nothing_of_contents k v none in
      let (g, b, got, gne, out, held) =
        obtained k.pcb_ptr_allocator owns.ptrs owns.ptrs_live some_left in
      let k1 = getter_blocked k q g b in
      rw (current_run k run.running, found, ==_ne q null ne)
        (rw
          (
            get_from_nothing q (to_ptr (argument k 1)) v no_items no_putters,
            block_getter_run k g b got q gne run.running run.unlisted,
            run_next_run k1 run.ready,
          )
          (returns (getter_blocked-GetterWaits k q g b shape no_items no_putters)))
