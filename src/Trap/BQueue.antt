-- ===== src/Trap/BQueue.antt =====
-- The blocking queues as a process uses them, through `disastrOS_bqPut` and `disastrOS_bqGet`.
use so_oscilloscopio.Base.{
  ℕ, ◌<◌, ◌^◌, ◌≡◌, refl, sym, ap, ◌∙◌, ◌≢◌, ℤ, pos, some, false, List, [], ◌∷◌, ◌++◌, map, arith,
  ◌∈◌, to_int, to_ptr, mem-head, mem-right, ==_ne,
}
use so_oscilloscopio.Run.Returns
use so_oscilloscopio.Run.Returns.{Returns, returns}
use so_oscilloscopio.Constants.Call
use so_oscilloscopio.LinkedList.{Ptr, null}
use so_oscilloscopio.Kernel.{Kernel, Pcb, BlockingQueue, argument, update, set_pcb}
use so_oscilloscopio.Kernel.Effects.{update_ne}
use so_oscilloscopio.Syscall.BQueue.{queue_by_id, internal_bq_put, internal_bq_get}
use so_oscilloscopio.Syscall.BQueue.Completion.{Producer}
use so_oscilloscopio.Syscall.BQueue.Fifo.{put_value, contents, IsQueue, Owns, IsRunning, Available}
use so_oscilloscopio.Syscall.BQueue.Put.{Queued, internal_bq_put-Queued}
use so_oscilloscopio.Syscall.BQueue.Get.{internal_bq_get-Dequeued}
use so_oscilloscopio.Trap.{process_context, handle, passed_args, store_args}
use so_oscilloscopio.Trap.Api.{bq_put, bq_get}
use so_oscilloscopio.Trap.Called.{called, called-argument, next_context, syscall-Returns}

-- Two arguments, stored over what there was.
abbrev two_args : ℤ → ℤ → (ℕ → ℤ) → ℕ → ℤ
two_args a b old = update (update old 0 a) 1 b

called-put_value :
    (k : Kernel) (stored : ℕ → ℤ) (num : ℤ) (xs : List Ptr)
    → ((p : Ptr) → p ∈ xs → k.pcb_ptr_memory p ≢ k.running_pcb)
    → map (put_value (called k stored num).pcb_memory k.pcb_ptr_memory) xs
      ≡ map (put_value k.pcb_memory k.pcb_ptr_memory) xs
called-put_value k stored num [] apart = refl
called-put_value k stored num (x ∷ xs) apart =
    let ne = apart x (mem-head x xs) in
    let rest = called-put_value k stored num xs λ p i. apart p (mem-right p (x ∷ []) xs i) in
    let k1 =
      set_pcb k.running_pcb (record (k.pcb_memory k.running_pcb) { syscall_args = stored }) k in
    let same : (called k stored num).pcb_memory (k.pcb_ptr_memory x)
        ≡ k.pcb_memory (k.pcb_ptr_memory x) =
      update_ne k1.pcb_memory k.running_pcb _ (k.pcb_ptr_memory x) ne
      ∙ update_ne k.pcb_memory k.running_pcb _ (k.pcb_ptr_memory x) ne in
    ap
      (λ (v : Pcb).
        v.syscall_args 1 ∷ map (put_value (called k stored num).pcb_memory k.pcb_ptr_memory) xs)
      same
    ∙ ap (◌∷◌ (put_value k.pcb_memory k.pcb_ptr_memory x)) rest

module _ (k : Kernel) (stored : ℕ → ℤ) (num : ℤ) where
  called-contents :
      (v : BlockingQueue)
      → ((p : Ptr) → p ∈ v.wait_putters → k.pcb_ptr_memory p ≢ k.running_pcb)
      → contents (called k stored num) v ≡ contents k v
  unfolding contents
  called-contents v apart =
      ap (◌++◌ (map k.bqitem_memory v.items)) (called-put_value k stored num v.wait_putters apart)

  called-IsRunning : IsRunning k → IsRunning (called k stored num)
  called-IsRunning run = record {
    running = run.running;
    unlisted = run.unlisted;
    ready = run.ready;
    waiting = run.waiting;
  }

  called-Owns : (v : BlockingQueue) → Owns k v → Owns (called k stored num) v
  called-Owns v owns = record {
    items = owns.items;
    items_live = owns.items_live;
    items_distinct = owns.items_distinct;
    items_owned = owns.items_owned;
    own_distinct = owns.own_distinct;
    ptrs = owns.ptrs;
    ptrs_live = owns.ptrs_live;
    ptrs_distinct = owns.ptrs_distinct;
    ptrs_owned = owns.ptrs_owned;
  }

next_of_running :
    (l : Kernel) → l.running_pcb ≢ null → next_context l ≡ process_context l.running_pcb
next_of_running l ne = rw (==_ne l.running_pcb null ne)

module _ (k : Kernel) (q : Ptr) (run : IsRunning k) (owns : Owns k (k.bqueue_memory q))
    (shape : IsQueue (k.bqueue_memory q)) (ne : q ≢ null)
    (apart : (p : Ptr) → p ∈ (k.bqueue_memory q).wait_putters → k.pcb_ptr_memory p ≢ k.running_pcb)
    (rounds : ℕ) (id : ℤ) (found : queue_by_id k (to_int id) ≡ q) where
  stored : ℤ → ℕ → ℤ
  stored value = two_args id value (k.pcb_memory k.running_pcb).syscall_args

  found_called :
      (value : ℤ) (num : ℤ)
      → queue_by_id
          (called k (stored value) num)
          (to_int (argument (called k (stored value) num) 0))
        ≡ q
  unfolding stored
  found_called value num =
      ap (λ i. queue_by_id k (to_int i)) (called-argument k run.running (stored value) num 0)
      ∙ found

  second_called : (value : ℤ) (num : ℤ) → argument (called k (stored value) num) 1 ≡ value
  unfolding stored
  second_called value num = called-argument k run.running (stored value) num 1

  -- `disastrOS_bqPut(id, value)` without a log, by a process that runs and is on no list of processes,
  -- on the queue with that id, for which no getter waits and the caller does not wait to put: the
  -- call is made, and when the machine goes on, in the process that then runs or in the interrupt
  -- where there is none, the queue holds `value` behind what it held and its fields agree. The
  -- ready processes hold no null, the waiting ones are distinct, the queue's fields agree before, its
  -- items and waiters are live blocks of their pools, and these are not exhausted.
  pub bq_put-Queued :
      (value : ℤ)
      → (k.bqueue_memory q).wait_getters ≡ []
      → Available k.bqitem_allocator
      → Available k.pcb_ptr_allocator
      → Returns
          (λ c l. (c ≡ some (next_context l)) × Queued k q value l)
          (bq_put false rounds id value k)
  unfolding passed_args store_args handle stored
  bq_put-Queued value no_getters item_left ptr_left =
      let num = pos Call.bq_put in
      let k' = called k (stored value) num in
      syscall-Returns k rounds num (id ∷ value ∷ []) (stored value) internal_bq_put run.running refl
        refl refl
        (Returns.weaken
          (internal_bq_put-Queued k' q (called-IsRunning k (stored value) num run)
            (called-Owns k (stored value) num (k.bqueue_memory q) owns) shape no_getters ne
            (found_called value num) item_left ptr_left)
          λ _ l (holds, fields). (
            holds
                ∙ ap (λ c. c ++ argument k' 1 ∷ [])
                    (called-contents k (stored value) num (k.bqueue_memory q) apart)
                ∙ ap (λ v. contents k (k.bqueue_memory q) ++ v ∷ []) (second_called value num),
            fields,
          ))

  to_ptr_lem : (out : Ptr) → out < 2 ^ 64 → to_ptr (pos out) ≡ out
  unfolding to_ptr
  to_ptr_lem out fits = ground arith

  -- `disastrOS_bqGet(id, out)` without a log, by a process that runs and is on no list of processes, on
  -- the queue with that id, which is not empty and for which the caller does not wait to put: the
  -- call is made and the caller goes on, `*out` is the first value that the queue held, the queue
  -- holds what was behind it, and its fields agree. The pointer is a 64-bit one that is not null, the
  -- ready processes hold no null, the waiting ones are distinct, the producers that wait for the
  -- queue are neither null, ready nor zombies, the queue's fields agree before, and its items and
  -- waiters are live blocks of their pools.
  pub bq_get-Dequeued :
      (out : Ptr)
      → out ≢ null
      → out < 2 ^ 64
      → ((p : Ptr) → p ∈ (k.bqueue_memory q).wait_putters → Producer k (k.pcb_ptr_memory p))
      → contents k (k.bqueue_memory q) ≢ []
      → Returns
          (λ c l.
            (c ≡ some (process_context k.running_pcb))
            × (contents k (k.bqueue_memory q) ≡ l.user_memory out ∷ contents l (l.bqueue_memory q))
            × IsQueue (l.bqueue_memory q))
          (bq_get false rounds id out k)
  unfolding passed_args store_args handle stored
  bq_get-Dequeued out out_ne fits producers some_value =
      let num = pos Call.bq_get in
      let args = stored (pos out) in
      let k' = called k args num in
      let same = called-contents k args num (k.bqueue_memory q) apart in
      let target : to_ptr (argument k' 1) ≡ out =
        ap to_ptr (second_called (pos out) num) ∙ to_ptr_lem out fits in
      Returns.weaken
        (syscall-Returns k rounds num (id ∷ pos out ∷ []) args internal_bq_get run.running refl refl
          refl
          (internal_bq_get-Dequeued k' q (called-IsRunning k args num run)
            (called-Owns k args num (k.bqueue_memory q) owns) shape ne (found_called (pos out) num)
            (λ p i. record {
              present = (producers p i).present;
              not_ready = (producers p i).not_ready;
              not_zombie = (producers p i).not_zombie;
            })
            λ e. some_value (sym same ∙ e)))
        λ c l (e, (value, d)). (
          e
              ∙ ap some (next_of_running l (rw d.goes_on run.running))
              ∙ ap (λ p. some (process_context p)) d.goes_on,
          sym same
              ∙ d.first
              ∙ ap (λ v. v ∷ contents l (l.bqueue_memory q))
                  (sym (d.received (λ z. out_ne (sym target ∙ z))) ∙ ap l.user_memory target),
          d.shape,
        )
