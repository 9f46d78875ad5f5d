-- ===== src/Syscall/BQueue/Put.antt =====
-- `internal_bq_put` against the first-in first-out queue.
use mathlib.Core.List.{append_assoc, append-nil}
use so_oscilloscopio.Base.{
  ℕ, ◌+◌, ◌≡◌, refl, sym, ap, ◌∙◌, ◌≢◌, ◌⊎◌, inl, inr, ℤ, pos, ◌≤ℤ◌, ltb_ℤ, List, [], ◌∷◌, ◌++◌,
  map, arith, true, false, if◌then◌else◌, ◌∉◌, length, length-append, ==_ne, ==_refl, Bool-cases,
  not-mem_of_subset, mem-right, to_int,
}
use so_oscilloscopio.Run.Returns.{Returns, returns}
use so_oscilloscopio.LinkedList.{Ptr, null}
use so_oscilloscopio.PoolAllocator.{PoolAllocator}
use so_oscilloscopio.Kernel.{Kernel, BlockingQueue, update, with_status, waiting}
use so_oscilloscopio.Kernel.Effects.{switched, run_next_run, current_run}
use so_oscilloscopio.Syscall.BQueue.Effects.{
  buffer_value_run, block_putter_run, putter_blocked, replied, appended, item_taken,
}
use so_oscilloscopio.Syscall.BQueue.{
  put_in, queue_by_id, internal_bq_put, block_putter, buffer_value,
}
use so_oscilloscopio.Kernel.{argument}
use so_oscilloscopio.Syscall.BQueue.Fifo.{
  contents, IsQueue, Owns, IsRunning, Available, SameArguments-update, switched-contents,
  switched-bqueues, obtained, map-update_append, map-put_value_append,
}

-- The state after a value is put in the buffer.
abbrev buffered : Kernel → Ptr → ℤ → Ptr → PoolAllocator → Kernel
buffered k q value it b = replied (appended (item_taken k it b) q it value)

buffered-contents :
    (k : Kernel) (q : Ptr) (value : ℤ) (it : Ptr) (b : PoolAllocator)
    → it ∉ (k.bqueue_memory q).items
    → (k.bqueue_memory q).wait_putters ≡ []
    → contents (buffered k q value it b) ((buffered k q value it b).bqueue_memory q)
      ≡ contents k (k.bqueue_memory q) ++ value ∷ []
unfolding contents
buffered-contents k q value it b out none_wait =
    let xs = (k.bqueue_memory q).items in
    rw (==_refl q, none_wait)
      (append-nil _
        ∙ map-update_append k.bqitem_memory it (pos 0) value xs out
        ∙ sym (ap (λ t. t ++ value ∷ []) (append-nil (map k.bqitem_memory xs))))

blocked-contents :
    (k : Kernel) (q g : Ptr) (b : PoolAllocator)
    → g ∉ (k.bqueue_memory q).wait_putters
    → contents (putter_blocked k q g b) ((putter_blocked k q g b).bqueue_memory q)
      ≡ contents k (k.bqueue_memory q) ++ argument k 1 ∷ []
unfolding contents
blocked-contents k q g b out =
    let v = k.bqueue_memory q in
    let self = k.running_pcb in
    let n = update k.pcb_memory self (with_status waiting (k.pcb_memory self)) in
    let same =
      SameArguments-update k.pcb_memory self (with_status waiting (k.pcb_memory self)) refl in
    rw (==_refl q) (
      ap (◌++◌ (map k.bqitem_memory v.items))
        (map-put_value_append k.pcb_memory n k.pcb_ptr_memory g self v.wait_putters same out)
      ∙ sym (append_assoc (map k.bqitem_memory v.items) _ _))

-- The queue holds what it held and `value` behind it, and its fields agree.
abbrev pub Queued : Kernel → Ptr → ℤ → Kernel → Type 0
Queued k q value l =
    (contents l (l.bqueue_memory q) ≡ contents k (k.bqueue_memory q) ++ value ∷ [])
    × IsQueue (l.bqueue_memory q)

size_room : (s : ℕ) (c : ℤ) → ltb_ℤ (pos s) c ≡ true → pos (s + 1) ≤ℤ c
size_room s c h = ground arith

size_full : (s : ℕ) (c : ℤ) → pos s ≤ℤ c → ltb_ℤ (pos s) c ≡ false → pos s ≡ c
size_full s c le h = ground arith

not_full : (s : ℕ) (c : ℤ) → ltb_ℤ (pos s) c ≡ true → pos s ≢ c
not_full s c h e = ground arith

put_in_no_getters :
    (q : Ptr) (value : ℤ) (v : BlockingQueue)
    → v.wait_getters ≡ []
    → put_in q value v
      ≡ (if ltb_ℤ (pos v.size) v.capacity then buffer_value q value else block_putter q)
unfolding put_in
put_in_no_getters q value v e = ground arith

items_of_full : (v : BlockingQueue) → IsQueue v → pos v.size ≡ v.capacity → v.items ≢ []
items_of_full v shape e none =
    let n = ap length none in ground (arith, shape.counted, shape.positive)

no_putters_of_room :
    (v : BlockingQueue) → IsQueue v → ltb_ℤ (pos v.size) v.capacity ≡ true → v.wait_putters ≡ []
no_putters_of_room v shape room = go shape.full
  where
    go : (v.wait_putters ≡ []) ⊎ (pos v.size ≡ v.capacity) → v.wait_putters ≡ []
    go (inl e) = e
    go (inr e) = absurd (not_full v.size v.capacity room e)

buffered-IsQueue :
    (k : Kernel) (q : Ptr) (value : ℤ) (it : Ptr) (b : PoolAllocator)
    → IsQueue (k.bqueue_memory q)
    → (k.bqueue_memory q).wait_getters ≡ []
    → ltb_ℤ (pos (k.bqueue_memory q).size) (k.bqueue_memory q).capacity ≡ true
    → (k.bqueue_memory q).wait_putters ≡ []
    → IsQueue ((buffered k q value it b).bqueue_memory q)
buffered-IsQueue k q value it b shape no_getters room no_putters =
    let v = k.bqueue_memory q in
    rw (==_refl q) (record {
      counted = omega (arith, length-append v.items (it ∷ []), shape.counted);
      room = size_room v.size v.capacity room;
      positive = shape.positive;
      full = inl no_putters;
      empty = inl no_getters;
    })

blocked-IsQueue :
    (k : Kernel) (q g : Ptr) (b : PoolAllocator) (l : List Ptr)
    → IsQueue (k.bqueue_memory q)
    → (k.bqueue_memory q).wait_getters ≡ []
    → ltb_ℤ (pos (k.bqueue_memory q).size) (k.bqueue_memory q).capacity ≡ false
    → IsQueue ((switched (putter_blocked k q g b) l).bqueue_memory q)
blocked-IsQueue k q g b l shape no_getters room =
    rw (switched-bqueues (putter_blocked k q g b) l, ==_refl q)
      (record {
        counted = shape.counted;
        room = shape.room;
        positive = shape.positive;
        full = inr (size_full _ _ shape.room room);
        empty = inl no_getters;
      })

module _ (k : Kernel) (q : Ptr) (run : IsRunning k) (owns : Owns k (k.bqueue_memory q))
    (shape : IsQueue (k.bqueue_memory q)) (no_getters : (k.bqueue_memory q).wait_getters ≡ []) where
  buffer_value-Queued :
      (value : ℤ)
      → ltb_ℤ (pos (k.bqueue_memory q).size) (k.bqueue_memory q).capacity ≡ true
      → (k.bqueue_memory q).wait_putters ≡ []
      → Available k.bqitem_allocator
      → Returns (λ _ l. Queued k q value l) (buffer_value q value k)
  buffer_value-Queued value room none_wait some_left =
      let (it, b, got, ne, out, held) =
        obtained k.bqitem_allocator owns.items owns.items_live some_left in
      rw (buffer_value_run k it b got q value ne run.running) (
        returns (
          buffered-contents k q value it b (not-mem_of_subset it _ _ owns.items_owned out)
              none_wait,
          buffered-IsQueue k q value it b shape no_getters room none_wait,
        ))

  block_putter-Queued :
      ltb_ℤ (pos (k.bqueue_memory q).size) (k.bqueue_memory q).capacity ≡ false
      → Available k.pcb_ptr_allocator
      → Returns (λ _ l. Queued k q (argument k 1) l) (block_putter q k)
  block_putter-Queued room some_left =
      let (g, b, got, ne, out, held) =
        obtained k.pcb_ptr_allocator owns.ptrs owns.ptrs_live some_left in
      let away =
        not-mem_of_subset g (k.bqueue_memory q).wait_putters owns.ptrs
          (λ c i. owns.ptrs_owned c (mem-right c (k.bqueue_memory q).wait_getters _ i)) out in
      rw
        (
          block_putter_run k g b got q ne run.running run.unlisted,
          run_next_run (putter_blocked k q g b) run.ready,
        )
        (returns (
          switched-contents (putter_blocked k q g b) k.ready_list q ∙ blocked-contents k q g b away,
          blocked-IsQueue k q g b k.ready_list shape no_getters room,
        ))

  put_in-Queued :
      Available k.bqitem_allocator
      → Available k.pcb_ptr_allocator
      → Returns (λ _ l. Queued k q (argument k 1) l) (put_in q (argument k 1) (k.bqueue_memory q) k)
  put_in-Queued item_left ptr_left =
      let v = k.bqueue_memory q in
      rw (put_in_no_getters q (argument k 1) v no_getters)
        (elim (Bool-cases (ltb_ℤ (pos v.size) v.capacity)) [
          | inl room ↦
              rw room (
                buffer_value-Queued (argument k 1) room (no_putters_of_room v shape room) item_left)
          | inr room ↦ rw room (block_putter-Queued room ptr_left)
        ])

  -- `internal_bq_put` on a queue that no getter waits for: the call returns, and the first-in
  -- first-out queue of buffered values and of values that producers wait to put has the new value
  -- behind what it held, whether the value is buffered or the producer waits; the queue's fields
  -- agree with one another as before. This holds where a process runs and is on no list of
  -- processes, the ready ones hold no null and the waiting ones are distinct, the queue's fields
  -- agree, its items and waiters are live blocks of their pools, and neither of these pools is
  -- exhausted.
  pub internal_bq_put-Queued :
      q ≢ null
      → queue_by_id k (to_int (argument k 0)) ≡ q
      → Available k.bqitem_allocator
      → Available k.pcb_ptr_allocator
      → Returns (λ _ l. Queued k q (argument k 1) l) (internal_bq_put k)
  unfolding internal_bq_put
  internal_bq_put-Queued ne found item_left ptr_left =
      rw (current_run k run.running, found, ==_ne q null ne) (put_in-Queued item_left ptr_left)
