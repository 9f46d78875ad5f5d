-- ===== src/Syscall/BQueue/TakeItem.antt =====
-- The branch of `internal_bq_get` that takes an item out of the buffer, against the first-in first-out
-- queue.
use mathlib.Core.List.{append_assoc}
use so_oscilloscopio.Base.{
  ◌+◌, ◌-◌, ◌≡◌, refl, sym, ap, ◌∙◌, ◌≢◌, inl, inr, ℤ, pos, List, [], ◌∷◌, ◌++◌, map, arith, ◌∈◌,
  ◌∉◌, Distinct, length, length-append, mem-right, mem-head, ==_ne, ==_refl, subst,
}
use so_oscilloscopio.Run.{ok}
use so_oscilloscopio.Run.Returns
use so_oscilloscopio.Run.Returns.{Returns, returns}
use so_oscilloscopio.LinkedList.{Ptr, null}
use so_oscilloscopio.PoolAllocator.{PoolAllocator}
use so_oscilloscopio.PoolAllocator.Live.{release_block-Holds, get_block-release_block, held-ne_null}
use so_oscilloscopio.Kernel.{Kernel, update, with_status, with_retvalue, ready}
use so_oscilloscopio.Kernel.Effects.{set_retvalue_run}
use so_oscilloscopio.Syscall.BQueue.{take_item, complete_put}
use so_oscilloscopio.Syscall.BQueue.Effects.{replied}
use so_oscilloscopio.Syscall.BQueue.Completion.{
  Producer, item_given, put_completed, take_item_run, complete_put_run,
}
use so_oscilloscopio.Syscall.BQueue.Fifo.{
  put_value, contents, IsQueue, Owns, IsRunning, SameArguments, map-update_append, map-put_value,
  SameArguments-update, SameArguments-trans,
}

complete_put_nil : (q : Ptr) (l : List Ptr) (k : Kernel) → l ≡ [] → complete_put q l k ≡ ok tt k
unfolding complete_put
complete_put_nil q l k e = rw (e, complete_put)

-- The queue gave `value`, kept what was behind it, and the caller goes on.
pub record Dequeued (k : Kernel) (q outp : Ptr) (value : ℤ) (l : Kernel) : Type 0 where
  pub first : contents k (k.bqueue_memory q) ≡ value ∷ contents l (l.bqueue_memory q)
  pub shape : IsQueue (l.bqueue_memory q)
  pub received : outp ≢ null → l.user_memory outp ≡ value
  pub goes_on : l.running_pcb ≡ k.running_pcb

module _ (k : Kernel) (q outp it : Ptr) (rest : List Ptr) (run : IsRunning k)
    (owns : Owns k (k.bqueue_memory q)) (shape : IsQueue (k.bqueue_memory q))
    (holds : (k.bqueue_memory q).items ≡ it ∷ rest) where
  no_getters : (k.bqueue_memory q).wait_getters ≡ []
  no_getters = ground (arith, shape.empty)

  full_of_waiting :
      {pptr : Ptr} {others : List Ptr}
      → (k.bqueue_memory q).wait_putters ≡ pptr ∷ others
      → pos (k.bqueue_memory q).size ≡ (k.bqueue_memory q).capacity
  full_of_waiting waits = ground (arith, shape.full)

  -- A process that is told of its result, and woken, keeps its arguments, and so does the caller.
  same_after :
      (p : Ptr)
      → (let m1 = update k.pcb_memory p (with_retvalue (pos 0) (k.pcb_memory p)) in
          let m2 = update m1 p (with_status ready (m1 p)) in
          SameArguments k.pcb_memory
            (update m2 k.running_pcb (with_retvalue (pos 0) (m2 k.running_pcb))))
  same_after p =
      let m = k.pcb_memory in
      let m1 = update m p (with_retvalue (pos 0) (m p)) in
      let m2 = update m1 p (with_status ready (m1 p)) in
      let m3 = update m2 k.running_pcb (with_retvalue (pos 0) (m2 k.running_pcb)) in
      SameArguments-trans m m1 m3 (SameArguments-update m p (with_retvalue (pos 0) (m p)) refl) (
        SameArguments-trans m1 m2 m3 (SameArguments-update m1 p (with_status ready (m1 p)) refl)
          (SameArguments-update m2 k.running_pcb (with_retvalue (pos 0) (m2 k.running_pcb)) refl))

  given-Dequeued :
      (b : PoolAllocator)
      → (k.bqueue_memory q).wait_putters ≡ []
      → Dequeued k q outp (k.bqitem_memory it) (replied (item_given k q outp it rest b))
  unfolding contents
  given-Dequeued b none_wait =
      let n = ap length holds in
      record {
        first = rw (==_refl q, holds, none_wait);
        shape = rw (==_refl q) (record {
          counted = omega (arith, shape.counted);
          room = ground (arith, shape.room);
          positive = shape.positive;
          full = inl none_wait;
          empty = inl no_getters;
        });
        received = λ ne. rw (==_ne _ null ne) (rw (==_refl outp));
        goes_on = refl;
      }

  completed-Dequeued :
      (b : PoolAllocator) (pptr : Ptr) (others : List Ptr) (c : PoolAllocator) (it2 : Ptr)
      (d : PoolAllocator)
      → it2 ∉ rest
      → (k.bqueue_memory q).wait_putters ≡ pptr ∷ others
      → Dequeued k q outp
          (k.bqitem_memory it)
          (replied (put_completed (item_given k q outp it rest b) q pptr others c it2 d))
  unfolding contents
  completed-Dequeued b pptr others c it2 d out waits =
      let n = ap length holds in
      let back : (k.bqueue_memory q).size - 1 + 1 ≡ (k.bqueue_memory q).size =
        omega (arith, shape.counted) in
      let p = k.pcb_ptr_memory pptr in
      let m = k.pcb_memory in
      let m1 = update m p (with_retvalue (pos 0) (m p)) in
      let m2 = update m1 p (with_status ready (m1 p)) in
      let m3 = update m2 k.running_pcb (with_retvalue (pos 0) (m2 k.running_pcb)) in
      let v = (m p).syscall_args 1 in
      record {
        first =
            rw (==_refl q, holds, waits)
              (ap (◌∷◌ (k.bqitem_memory it)) (
                sym (
                  ap (λ t. t ++ map (put_value m3 k.pcb_ptr_memory) others)
                    (map-update_append k.bqitem_memory it2 (pos 0) v rest out)
                  ∙ ap (◌++◌ (map k.bqitem_memory rest ++ v ∷ []))
                      (map-put_value m m3 k.pcb_ptr_memory others (same_after p))
                  ∙ append_assoc (map k.bqitem_memory rest) (v ∷ []) _)));
        shape = rw (==_refl q) (record {
          counted = omega (arith, shape.counted, length-append rest (it2 ∷ []));
          room = rw back shape.room;
          positive = shape.positive;
          full = inr (rw back (full_of_waiting waits));
          empty = inl no_getters;
        });
        received = λ ne. rw (==_ne _ null ne) (rw (==_refl outp));
        goes_on = refl;
      }

  pub take_item-Dequeued :
      ((pptr : Ptr) → pptr ∈ (k.bqueue_memory q).wait_putters → Producer k (k.pcb_ptr_memory pptr))
      → Returns (λ _ l. Dequeued k q outp (k.bqitem_memory it) l) (take_item q outp it rest k)
  take_item-Dequeued producers = go (k.bqueue_memory q).wait_putters refl
    where
      held : it ∈ owns.items
      held = owns.items_owned it (rw holds (mem-head it rest))

      go :
          (waiters : List Ptr)
          → (k.bqueue_memory q).wait_putters ≡ waiters
          → Returns (λ _ l. Dequeued k q outp (k.bqitem_memory it) l) (take_item q outp it rest k)
      go [] e =
          let (r, b, gave, _) = Returns.result (
            release_block-Holds k.bqitem_allocator owns.items owns.items_live it held
              owns.items_distinct) in
          let k1 = item_given k q outp it rest b in
          rw
            (
              take_item_run k run.running run.waiting q outp it rest b r gave,
              complete_put_nil q (k.bqueue_memory q).wait_putters k1 e,
            )
            (rw (set_retvalue_run k1 (pos 0) run.running) (returns (given-Dequeued b e)))
      go (pptr ∷ others) e =
          let (r, b, gave, facts) = Returns.result (
            Returns.both
              (release_block-Holds k.bqitem_allocator owns.items owns.items_live it held
                owns.items_distinct)
              (get_block-release_block k.bqitem_allocator owns.items owns.items_live it held
                owns.items_distinct)) in
          let (it2, d, got, same_block) = Returns.result facts.1 in
          let (r2, c, gave2, _) = Returns.result (
            release_block-Holds k.pcb_ptr_allocator owns.ptrs owns.ptrs_live pptr
              (owns.ptrs_owned pptr
                (mem-right pptr (k.bqueue_memory q).wait_getters _ (rw e (mem-head pptr others))))
              owns.ptrs_distinct) in
          let k1 = item_given k q outp it rest b in
          let k2 = put_completed k1 q pptr others c it2 d in
          let producer = producers pptr (rw e (mem-head pptr others)) in
          rw
            (
              take_item_run k run.running run.waiting q outp it rest b r gave,
              ap (λ l. complete_put q l k1) e
                  ∙ complete_put_run k1 run.running run.waiting q pptr others
                      (record {
                        present = producer.present;
                        not_ready = producer.not_ready;
                        not_zombie = producer.not_zombie;
                      })
                      c r2 gave2 it2 d got
                      (λ z.
                        held-ne_null k.bqitem_allocator owns.items it owns.items_live held
                          (sym same_block.0 ∙ z)),
            )
            (rw (set_retvalue_run k2 (pos 0) run.running) (
              returns (
                completed-Dequeued b pptr others c it2 d
                  (rw same_block.0 (subst Distinct holds owns.own_distinct).0) e)))
