-- ===== src/Syscall/BQueue/Effects.antt =====
-- What each branch of the blocking queues' system calls does to the kernel's state, as equations.
use so_oscilloscopio.Base.{
  ◌+◌, ◌≡◌, refl, ◌≢◌, ℤ, pos, List, [], ◌∷◌, ◌++◌, arith, false, ◌==◌, if◌then◌else◌, ◌∉◌,
  Distinct, erase, mem-erase, to_ptr, ==_ne, Bool-cases, inl, inr,
}
use so_oscilloscopio.Run.{ok}
use so_oscilloscopio.LinkedList.{Ptr, null}
use so_oscilloscopio.PoolAllocator.{PoolAllocator, PoolAllocatorResult, get_block, release_block}
use so_oscilloscopio.Kernel.{Kernel, ready, waiting, set_pcb, with_status, with_retvalue, update}
use so_oscilloscopio.Kernel.Lists.{is_listed, leave_waiting, run_next}
use so_oscilloscopio.Kernel.Effects.{
  change_pcb_run, current_run, set_retvalue_run, insert_ready_run, insert_waiting_run,
}
use so_oscilloscopio.Pcb.{pcb_ptr_alloc, pcb_ptr_free}
use so_oscilloscopio.BQueue.{set_bqueue, bqitem_alloc}
use so_oscilloscopio.Syscall.BQueue.{
  wake_ready, hand_to_getter, append_item, buffer_value, block_putter, block_getter, release_putter,
  detach_putter,
}
use so_oscilloscopio.Kernel.{deliver}

-- The state after the process `p` is moved from the waiting to the ready ones.
abbrev pub woken : Kernel → Ptr → Kernel
woken k p = record k {
  waiting_list = erase p k.waiting_list;
  pcb_memory = update k.pcb_memory p (with_status ready (k.pcb_memory p));
  ready_list = k.ready_list ++ p ∷ [];
}

-- The state after the item `it` with `value` joins the queue `q`.
abbrev pub appended : Kernel → Ptr → Ptr → ℤ → Kernel
appended k q it value =
    let queue = k.bqueue_memory q in
    record k {
      bqitem_memory = update k.bqitem_memory it value;
      bqueue_memory =
          update k.bqueue_memory q
            (record queue { items = queue.items ++ it ∷ []; size = queue.size + 1 });
    }

-- The state after the block `it` of pool `b` is allocated as an item.
abbrev pub item_taken : Kernel → Ptr → PoolAllocator → Kernel
item_taken k it b = record k {
  bqitem_allocator = b;
  bqitem_memory = update k.bqitem_memory it (pos 0);
}

abbrev pub pcb_ptr_taken : Kernel → Ptr → PoolAllocator → Ptr → Kernel
pcb_ptr_taken k g b p = record k {
  pcb_ptr_allocator = b;
  pcb_ptr_memory = update k.pcb_ptr_memory g p;
}

abbrev pub replied : Kernel → Kernel
replied k = set_pcb k.running_pcb (with_retvalue (pos 0) (k.pcb_memory k.running_pcb)) k

-- The state after `value` is stored through `outp`, if that is not null.
abbrev pub delivered : Kernel → Ptr → ℤ → Kernel
delivered k outp value = record k {
  user_memory = if outp == null then k.user_memory else update k.user_memory outp value;
}

-- The state after the waiters of the queue `q` are given anew and the list item of one is released.
abbrev pub getter_detached : Kernel → Ptr → List Ptr → PoolAllocator → Kernel
getter_detached k q rest b = record k {
  bqueue_memory = update k.bqueue_memory q (record (k.bqueue_memory q) { wait_getters = rest });
  pcb_ptr_allocator = b;
}

abbrev pub putter_detached : Kernel → Ptr → List Ptr → PoolAllocator → Kernel
putter_detached k q rest b = record k {
  bqueue_memory = update k.bqueue_memory q (record (k.bqueue_memory q) { wait_putters = rest });
  pcb_ptr_allocator = b;
}

-- The state after the process `p` is told that its system call succeeded, and is woken.
abbrev pub resumed : Kernel → Ptr → Kernel
resumed k p = woken (set_pcb p (with_retvalue (pos 0) (k.pcb_memory p)) k) p

-- The state in which the running process has joined the waiting putters of `q`, or its getters.
abbrev pub putter_blocked : Kernel → Ptr → Ptr → PoolAllocator → Kernel
putter_blocked k q g b =
    let self = k.running_pcb in
    let queue = k.bqueue_memory q in
    record k {
      pcb_memory = update k.pcb_memory self (with_status waiting (k.pcb_memory self));
      pcb_ptr_allocator = b;
      pcb_ptr_memory = update k.pcb_ptr_memory g self;
      bqueue_memory =
          update k.bqueue_memory q (record queue { wait_putters = queue.wait_putters ++ g ∷ [] });
      waiting_list = k.waiting_list ++ self ∷ [];
    }

abbrev pub getter_blocked : Kernel → Ptr → Ptr → PoolAllocator → Kernel
getter_blocked k q g b =
    let self = k.running_pcb in
    let queue = k.bqueue_memory q in
    record k {
      pcb_memory = update k.pcb_memory self (with_status waiting (k.pcb_memory self));
      pcb_ptr_allocator = b;
      pcb_ptr_memory = update k.pcb_ptr_memory g self;
      bqueue_memory =
          update k.bqueue_memory q (record queue { wait_getters = queue.wait_getters ++ g ∷ [] });
      waiting_list = k.waiting_list ++ self ∷ [];
    }

pub deliver_run :
    (k : Kernel) (outp : Ptr) (value : ℤ) → deliver outp value k ≡ ok tt (delivered k outp value)
unfolding deliver
deliver_run k outp value = elim (Bool-cases (outp == null)) [ inl e ↦ rw e | inr e ↦ rw e ]

pub append_item_run :
    (k : Kernel) (q it : Ptr) (value : ℤ) → append_item q it value k ≡ ok tt (appended k q it value)
unfolding append_item set_bqueue
append_item_run k q it value = refl

module _ (k : Kernel) where
  pub wake_ready_run :
      (p : Ptr)
      → p ≢ null
      → p ∉ k.ready_list
      → p ∉ k.zombie_list
      → Distinct k.waiting_list
      → wake_ready p k ≡ ok tt (woken k p)
  unfolding wake_ready leave_waiting
  wake_ready_run p ne r z d =
      let out : is_listed
            (set_pcb p (with_status ready (k.pcb_memory p))
              (record k { waiting_list = erase p k.waiting_list }))
            p
          ≡ false =
        ground (arith, mem-erase p p k.waiting_list d) in
      rw (==_ne p null ne) (
        rw
          (change_pcb_run (record k { waiting_list = erase p k.waiting_list }) p (with_status ready)
            ne)
          (insert_ready_run _ p ne out))

  module _ (it : Ptr) (b : PoolAllocator) (got : get_block k.bqitem_allocator ≡ ok it b) where
    pub bqitem_alloc_run : it ≢ null → bqitem_alloc k ≡ ok it (item_taken k it b)
    unfolding bqitem_alloc
    bqitem_alloc_run ne = rw got (ground arith)

    pub buffer_value_run :
        (q : Ptr) (value : ℤ)
        → it ≢ null
        → k.running_pcb ≢ null
        → buffer_value q value k ≡ ok tt (replied (appended (item_taken k it b) q it value))
    unfolding buffer_value
    buffer_value_run q value ne on =
        rw (bqitem_alloc_run ne, ==_ne it null ne)
          (rw (append_item_run (item_taken k it b) q it value)
            (set_retvalue_run (appended (item_taken k it b) q it value) (pos 0) on))

  module _ (g : Ptr) (b : PoolAllocator) (got : get_block k.pcb_ptr_allocator ≡ ok g b) where
    pub pcb_ptr_alloc_run : (p : Ptr) → g ≢ null → pcb_ptr_alloc p k ≡ ok g (pcb_ptr_taken k g b p)
    unfolding pcb_ptr_alloc
    pcb_ptr_alloc_run p ne = rw got (ground arith)

module _ (k : Kernel) (g : Ptr) (b : PoolAllocator) (got : get_block k.pcb_ptr_allocator ≡ ok g b)
    (q : Ptr) (ne : g ≢ null) (on : k.running_pcb ≢ null)
    (free : is_listed k k.running_pcb ≡ false) where
  pub block_putter_run : block_putter q k ≡ run_next (putter_blocked k q g b)
  unfolding block_putter set_bqueue
  block_putter_run =
      let self = k.running_pcb in
      let k1 = set_pcb self (with_status waiting (k.pcb_memory self)) k in
      let k2 = pcb_ptr_taken k1 g b self in
      let queue = k.bqueue_memory q in
      let k3 = record k2 {
        bqueue_memory =
            update k.bqueue_memory q (record queue { wait_putters = queue.wait_putters ++ g ∷ [] });
      } in
      rw (current_run k on) (
        rw (change_pcb_run k self (with_status waiting) on)
          (rw (pcb_ptr_alloc_run k1 g b got self ne) (rw (insert_waiting_run k3 self on free))))

  pub block_getter_run : block_getter q k ≡ run_next (getter_blocked k q g b)
  unfolding block_getter set_bqueue
  block_getter_run =
      let self = k.running_pcb in
      let k1 = set_pcb self (with_status waiting (k.pcb_memory self)) k in
      let k2 = pcb_ptr_taken k1 g b self in
      let queue = k.bqueue_memory q in
      let k3 = record k2 {
        bqueue_memory =
            update k.bqueue_memory q (record queue { wait_getters = queue.wait_getters ++ g ∷ [] });
      } in
      rw (current_run k on) (
        rw (change_pcb_run k self (with_status waiting) on)
          (rw (pcb_ptr_alloc_run k1 g b got self ne) (rw (insert_waiting_run k3 self on free))))

module _ (k : Kernel) (running_ne : k.running_pcb ≢ null) where
  module _ (p : Ptr) (ne : p ≢ null) (out_ready : p ∉ k.ready_list) (out_zombie : p ∉ k.zombie_list)
      (distinct : Distinct k.waiting_list) where
    pub release_putter_run : release_putter p k ≡ ok tt (resumed k p)
    unfolding release_putter
    release_putter_run = rw (change_pcb_run k p (with_retvalue (pos 0)) ne) (
        wake_ready_run (set_pcb p (with_retvalue (pos 0) (k.pcb_memory p)) k) p ne out_ready
          out_zombie distinct)

  module _ (q gptr : Ptr) (rest : List Ptr) (b : PoolAllocator) (r : PoolAllocatorResult)
      (gave : release_block gptr k.pcb_ptr_allocator ≡ ok r b) where
    pub detach_putter_run :
        k.pcb_ptr_memory gptr ≢ null
        → detach_putter q gptr rest k ≡ ok (k.pcb_ptr_memory gptr) (putter_detached k q rest b)
    unfolding detach_putter set_bqueue pcb_ptr_free
    detach_putter_run ne = rw (gave, ==_ne _ null ne)

    pub hand_to_getter_run :
        (value : ℤ)
        → (let p = k.pcb_ptr_memory gptr in
            p ≢ null
            → p ∉ k.ready_list
            → p ∉ k.zombie_list
            → Distinct k.waiting_list
            → hand_to_getter q value gptr rest k
              ≡ ok tt (
                  replied (
                    resumed
                      (delivered
                        (getter_detached k q rest b)
                        (to_ptr ((k.pcb_memory p).syscall_args 1))
                        value)
                      p)))
    unfolding hand_to_getter set_bqueue pcb_ptr_free
    hand_to_getter_run value ne r z d =
        let p = k.pcb_ptr_memory gptr in
        let outp = to_ptr ((k.pcb_memory p).syscall_args 1) in
        let k1 = getter_detached k q rest b in
        let k2 = delivered k1 outp value in
        let k3 = set_pcb p (with_retvalue (pos 0) (k.pcb_memory p)) k2 in
        rw (gave, ==_ne p null ne, deliver_run k1 outp value)
          (rw (change_pcb_run k2 p (with_retvalue (pos 0)) ne)
            (rw (wake_ready_run k3 p ne r z d) (set_retvalue_run (woken k3 p) (pos 0) running_ne)))
