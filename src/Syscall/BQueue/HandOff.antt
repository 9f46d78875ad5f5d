-- ===== src/Syscall/BQueue/HandOff.antt =====
-- `internal_bq_put` where a getter waits: the value goes to it directly.
use so_oscilloscopio.Base.{
  ◌≡◌, refl, ◌≢◌, inl, inr, ℤ, List, [], ◌∷◌, ◌++◌, arith, erase, to_ptr, to_int, ==_ne, ==_refl,
  mem-head,
}
use so_oscilloscopio.Run.Returns
use so_oscilloscopio.Run.Returns.{Returns, returns}
use so_oscilloscopio.LinkedList.{Ptr, null}
use so_oscilloscopio.PoolAllocator.Live.{release_block-Holds}
use so_oscilloscopio.Kernel.{Kernel, BlockingQueue}
use so_oscilloscopio.Kernel.Effects.{current_run}
use so_oscilloscopio.Syscall.BQueue.{queue_by_id, put_in, hand_to_getter, internal_bq_put}
use so_oscilloscopio.Kernel.{argument}
use so_oscilloscopio.Syscall.BQueue.Effects.{hand_to_getter_run}
use so_oscilloscopio.Syscall.BQueue.Completion.{Producer}
use so_oscilloscopio.Syscall.BQueue.Fifo.{contents, IsQueue, Owns, IsRunning}

put_in_getter :
    (q : Ptr) (value : ℤ) (v : BlockingQueue) (g : Ptr) (gs : List Ptr)
    → v.wait_getters ≡ g ∷ gs
    → put_in q value v ≡ hand_to_getter q value g gs
unfolding put_in
put_in_getter q value v g gs e = rw (e, put_in)

-- What the getter behind the list item `g` is left with, and the queue `q`.
pub record HandedOver (k : Kernel) (q g : Ptr) (gs : List Ptr) (value : ℤ) (l : Kernel)
    : Type 0 where
  pub nothing_buffered : contents l (l.bqueue_memory q) ≡ []
  pub shape : IsQueue (l.bqueue_memory q)
  pub others_wait : (l.bqueue_memory q).wait_getters ≡ gs
  pub received :
      (let outp = to_ptr ((k.pcb_memory (k.pcb_ptr_memory g)).syscall_args 1) in
        outp ≢ null → l.user_memory outp ≡ value)
  pub awake : l.ready_list ≡ k.ready_list ++ k.pcb_ptr_memory g ∷ []
  pub no_longer_waits : l.waiting_list ≡ erase (k.pcb_ptr_memory g) k.waiting_list
  pub goes_on : l.running_pcb ≡ k.running_pcb

module _ (k : Kernel) (q g : Ptr) (gs : List Ptr) (run : IsRunning k)
    (owns : Owns k (k.bqueue_memory q)) (shape : IsQueue (k.bqueue_memory q))
    (waits : (k.bqueue_memory q).wait_getters ≡ g ∷ gs)
    (getter : Producer k (k.pcb_ptr_memory g)) where
  nothing_queued : ((k.bqueue_memory q).items ≡ []) × ((k.bqueue_memory q).wait_putters ≡ [])
  nothing_queued = ground (arith, shape.empty)

  hand_to_getter-HandedOver :
      (value : ℤ) → Returns (λ _ l. HandedOver k q g gs value l) (hand_to_getter q value g gs k)
  unfolding contents
  hand_to_getter-HandedOver value =
      let held = owns.ptrs_owned g (rw waits (mem-head g _)) in
      let (r, b, gave, _) = Returns.result (
        release_block-Holds k.pcb_ptr_allocator owns.ptrs owns.ptrs_live g held
          owns.ptrs_distinct) in
      rw
        (hand_to_getter_run k run.running q g gs b r gave value getter.present getter.not_ready
          getter.not_zombie run.waiting)
        (returns (record {
          nothing_buffered = rw (==_refl q, nothing_queued.0, nothing_queued.1);
          shape = rw (==_refl q) (record {
            counted = shape.counted;
            room = shape.room;
            positive = shape.positive;
            full = inl nothing_queued.1;
            empty = inr nothing_queued;
          });
          others_wait = rw (==_refl q);
          received = λ ne.
              rw (==_ne _ null ne)
                (rw (==_refl (to_ptr ((k.pcb_memory (k.pcb_ptr_memory g)).syscall_args 1))));
          awake = refl;
          no_longer_waits = refl;
          goes_on = refl;
        }))

  -- `internal_bq_put` on a queue that a getter waits for: the call returns, nothing is buffered, the
  -- value stands where the first of the waiting getters asked for it (if it asked for it), that
  -- getter is ready behind the processes that were, the other getters still wait, and the producer
  -- goes on. This holds where a process runs and is on no list of processes, the ready ones hold
  -- no null and the waiting ones are distinct, the getter behind the first list item is neither null,
  -- ready nor a zombie, the queue's fields agree, and its items and waiters are live blocks of their
  -- pools.
  pub internal_bq_put-HandedOver :
      q ≢ null
      → queue_by_id k (to_int (argument k 0)) ≡ q
      → Returns (λ _ l. HandedOver k q g gs (argument k 1) l) (internal_bq_put k)
  unfolding internal_bq_put
  internal_bq_put-HandedOver ne found =
      rw (current_run k run.running, found, ==_ne q null ne)
        (rw (put_in_getter q (argument k 1) (k.bqueue_memory q) g gs waits)
          (hand_to_getter-HandedOver (argument k 1)))
