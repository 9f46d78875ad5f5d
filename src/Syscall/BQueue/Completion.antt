-- ===== src/Syscall/BQueue/Completion.antt =====
-- What taking an item out of the buffer, and completing the put of a waiting producer, do to the
-- kernel's state, as equations.
use so_oscilloscopio.Base.{◌-◌, ◌≡◌, ◌≢◌, ℤ, pos, List, ◌∷◌, ◌∉◌, Distinct, ==_ne}
use so_oscilloscopio.Run.{ok, ◌>>◌}
use so_oscilloscopio.LinkedList.{Ptr, null}
use so_oscilloscopio.PoolAllocator.{PoolAllocator, PoolAllocatorResult, get_block, release_block}
use so_oscilloscopio.Kernel.{Kernel, set_retvalue, update}
use so_oscilloscopio.BQueue.{set_bqueue, bqitem_free}
use so_oscilloscopio.Syscall.BQueue.{refill, complete_put, take_item}
use so_oscilloscopio.Syscall.BQueue.Effects.{
  appended, item_taken, delivered, putter_detached, resumed, deliver_run, append_item_run,
  bqitem_alloc_run, release_putter_run, detach_putter_run,
}

-- The state after the item `it` leaves the queue `q` and its value is stored through `outp`.
abbrev pub item_given : Kernel → (q outp it : Ptr) → List Ptr → PoolAllocator → Kernel
item_given k q outp it rest b =
    let queue = k.bqueue_memory q in
    record (delivered
      (record k {
        bqueue_memory =
            update k.bqueue_memory q (record queue { items = rest; size = queue.size - 1 });
      })
      outp (k.bqitem_memory it)) { bqitem_allocator = b }

-- The state after the putter behind `pptr` has its value put in the new item `it`, and is woken.
abbrev pub put_completed :
    Kernel → (q pptr : Ptr) → List Ptr → PoolAllocator → (it : Ptr) → PoolAllocator → Kernel
put_completed k q pptr others b it c =
    let prod = k.pcb_ptr_memory pptr in
    resumed
      (appended (item_taken (putter_detached k q others b) it c) q it
        ((k.pcb_memory prod).syscall_args 1))
      prod

refill_run :
    (k : Kernel) (q : Ptr) (v : ℤ) (it : Ptr) (c : PoolAllocator)
    → get_block k.bqitem_allocator ≡ ok it c
    → it ≢ null
    → refill q v k ≡ ok tt (appended (item_taken k it c) q it v)
unfolding refill
refill_run k q v it c got ne =
    rw (bqitem_alloc_run k it c got ne, ==_ne it null ne)
      (append_item_run (item_taken k it c) q it v)

-- The process that a waiting producer's list item points to.
pub record Producer (k : Kernel) (p : Ptr) : Type 0 where
  pub present : p ≢ null
  pub not_ready : p ∉ k.ready_list
  pub not_zombie : p ∉ k.zombie_list

module _ (k : Kernel) (on : k.running_pcb ≢ null) (distinct : Distinct k.waiting_list) where
  pub complete_put_run :
      (q pptr : Ptr) (others : List Ptr)
      → Producer k (k.pcb_ptr_memory pptr)
      → (b : PoolAllocator) (r : PoolAllocatorResult)
      → release_block pptr k.pcb_ptr_allocator ≡ ok r b
      → (it : Ptr) (c : PoolAllocator) → get_block k.bqitem_allocator ≡ ok it c
      → it ≢ null
      → complete_put q (pptr ∷ others) k ≡ ok tt (put_completed k q pptr others b it c)
  unfolding complete_put
  complete_put_run q pptr others p b r gave it c got ne =
      let prod = k.pcb_ptr_memory pptr in
      let k1 = putter_detached k q others b in
      let v = (k.pcb_memory prod).syscall_args 1 in
      let k2 = appended (item_taken k1 it c) q it v in
      rw (detach_putter_run k on q pptr others b r gave p.present) (
        rw (refill_run k1 q v it c got ne)
          (release_putter_run k2 on prod p.present p.not_ready p.not_zombie distinct))

  pub take_item_run :
      (q outp it : Ptr) (rest : List Ptr) (b : PoolAllocator) (r : PoolAllocatorResult)
      → release_block it k.bqitem_allocator ≡ ok r b
      → take_item q outp it rest k
        ≡ (do complete_put q (k.bqueue_memory q).wait_putters; set_retvalue (pos 0))
            (item_given k q outp it rest b)
  unfolding take_item set_bqueue bqitem_free
  take_item_run q outp it rest b r gave =
      let queue = k.bqueue_memory q in
      let k1 = record k {
        bqueue_memory =
            update k.bqueue_memory q (record queue { items = rest; size = queue.size - 1 });
      } in
      rw (deliver_run k1 outp (k.bqitem_memory it)) (rw gave)
