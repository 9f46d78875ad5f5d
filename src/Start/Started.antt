-- ===== src/Start/Started.antt =====
-- The state in which the first process starts.
use so_oscilloscopio.Base.{
  ℕ, suc, ◌+◌, ◌*◌, ◌^◌, ◌≡◌, refl, sym, ap, subst, ◌∙◌, ◌≢◌, ◌<◌, false, [], ◌∷◌, arith, length,
  ◌∈◌, ◌==◌, if◌then◌else◌, ==_refl, ==_ne,
}
use so_oscilloscopio.Run.{ok, pure}
use so_oscilloscopio.Run.Returns.{Returns, returns}
use so_oscilloscopio.LinkedList.{Ptr, null}
use so_oscilloscopio.PoolAllocator.{PoolAllocator, sizeof_int, get_block}
use so_oscilloscopio.PoolAllocator.Live.{Holds}
use so_oscilloscopio.PoolAllocator.Get.{get_block-taken}
use so_oscilloscopio.PoolAllocator.Init.{range}
use so_oscilloscopio.Kernel.{Kernel, running, with_status, update}
use so_oscilloscopio.Kernel.Effects.{change_pcb_run}
use so_oscilloscopio.Syscall.BQueue.Fifo.{Available, obtained}
use so_oscilloscopio.Syscall.BQueue.Registry.{IsRegistry}
use so_oscilloscopio.Syscall.Schedule.RoundRobin.{IsScheduled}
use so_oscilloscopio.Syscall.Fork.Child.{IsPopulated, pcb_taken, pcb_alloc_run}
use so_oscilloscopio.Pcb.{fresh_pcb}
use so_oscilloscopio.Interrupt.Expire.{IsTimers}
use so_oscilloscopio.Interrupt.Runnable.{IsTicking, IsScheduled-runnable}
use so_oscilloscopio.Start.{Image, init_pools, init_lists, start_first, disastr_os_start}
use so_oscilloscopio.Start.Pools.{
  IsFull, IsFull-Holds, pcb_init_run, timer_init_run, resource_init_run, descriptor_init_run,
  bq_init_run,
}

-- The buffers are not at null, the words are as many as the blocks, and the control blocks' memory is
-- counted by an `int`.
pub record IsImage (i : Image) : Type 0 where
  pub sizeof_pcb : 0 < i.sizeof_pcb
  pub fits : 1024 * (i.sizeof_pcb + sizeof_int) < 2 ^ 31
  pub pcb : (0 < i.pcb_buffer) × (length i.pcb_words ≡ 1024)
  pub pcb_ptr : (0 < i.pcb_ptr_buffer) × (length i.pcb_ptr_words ≡ 1024)
  pub timer_item : (0 < i.timer_item_buffer) × (length i.timer_item_words ≡ 1024)
  pub resources : (0 < i.resources_buffer) × (length i.resources_words ≡ 1024)
  pub descriptor : (0 < i.descriptor_buffer) × (length i.descriptor_words ≡ 1024)
  pub descriptor_ptr : (0 < i.descriptor_ptr_buffer) × (length i.descriptor_ptr_words ≡ 1024)
  pub bq : (0 < i.bq_buffer) × (length i.bq_words ≡ 128)
  pub bqitem : (0 < i.bqitem_buffer) × (length i.bqitem_words ≡ 4096)

-- One process runs, with no other process, no timer, no resource and no queue; all pools are ready.
pub record Started (k : Kernel) (l : Kernel) : Type 0 where
  pub scheduled : IsScheduled l
  pub no_others : (l.ready_list ≡ []) × (l.waiting_list ≡ []) × (l.zombie_list ≡ [])
  pub populated : IsPopulated l (l.running_pcb ∷ [])
  pub first : l.init_pcb ≡ l.running_pcb
  pub pid : (l.pcb_memory l.running_pcb).pid ≡ k.last_pid
  pub status : (l.pcb_memory l.running_pcb).status ≡ running
  pub no_children : (l.pcb_memory l.running_pcb).children ≡ []
  pub timers : (l.timer_list ≡ []) × IsTimers l []
  pub ticking : IsTicking l
  pub resources : (l.resources_list ≡ []) × Holds l.resources_allocator []
  pub descriptors : Holds l.descriptor_allocator [] × Holds l.descriptor_ptr_allocator []
  pub queues : (l.bq_registry ≡ []) × IsRegistry l
  pub items : Holds l.bqitem_allocator [] × Holds l.pcb_ptr_allocator []

-- A full pool with at least one block is not exhausted.
IsFull-Available : (n : ℕ) (a : PoolAllocator) → IsFull (suc n) a → Available a
IsFull-Available n a full e =
    let pool = full.pool in
    let c = sym (get_block-taken a 0 (range 1 n) pool) ∙ e in ground (arith, pool.placed)

-- The first process, made of the block `p`.
module _ (k : Kernel) (p : Ptr) (b : PoolAllocator) (got : get_block k.pcb_allocator ≡ ok p b)
    (ne : p ≢ null) where
  abbrev first_running : Kernel
  first_running =
      let k1 = pcb_taken k p b in
      record k1 {
        running_pcb = p;
        pcb_memory = update k1.pcb_memory p (with_status running (k1.pcb_memory p));
        init_pcb = p;
      }

  start_first_run : start_first k ≡ ok tt first_running
  unfolding start_first
  start_first_run =
      let k1 = record (pcb_taken k p b) { running_pcb = p } in
      rw (pcb_alloc_run k p b got ne) (rw (change_pcb_run k1 p (with_status running) ne))

  first_pid : (first_running.pcb_memory p).pid ≡ k.last_pid
  unfolding fresh_pcb
  first_pid = rw (==_refl p)

  first_status : (first_running.pcb_memory p).status ≡ running
  first_status = rw (==_refl p)

  first_children : (first_running.pcb_memory p).children ≡ []
  unfolding fresh_pcb
  first_children = rw (==_refl p)

-- The pools after `init_pools`, and the state.
abbrev pools_ready : Kernel → (pcb pcb_ptr timer res desc desc_ptr bq item : PoolAllocator) → Kernel
pools_ready k pcb pcb_ptr timer res desc desc_ptr bq item = record (init_lists k) {
  pcb_allocator = pcb;
  pcb_ptr_allocator = pcb_ptr;
  timer_item_allocator = timer;
  resources_allocator = res;
  descriptor_allocator = desc;
  descriptor_ptr_allocator = desc_ptr;
  bq_allocator = bq;
  bqitem_allocator = item;
  bq_registry = [];
  init_pcb = null;
}

none : {A : Type 0} → (q : Ptr) → q ∈ [] → A
none q m = cc

-- The pools a full pool's first block is taken from: the first process, and what holds where it runs.
module _ (k : Kernel) (a b c d e f g h : PoolAllocator) (fa : IsFull 1024 a) (fb : IsFull 1024 b)
    (fc : IsFull 1024 c) (fd : IsFull 1024 d) (fe : IsFull 1024 e) (ff : IsFull 1024 f)
    (fg : IsFull 128 g) (fh : IsFull 4096 h) (p : Ptr) (a' : PoolAllocator)
    (got : get_block a ≡ ok p a') (ne : p ≢ null) (held : Holds a' (p ∷ [])) where
  abbrev ready : Kernel
  ready = pools_ready k a b c d e f g h

  first_running-IsScheduled : IsScheduled (first_running ready p a' got ne)
  unfolding init_lists
  first_running-IsScheduled =
      let n : (null == p) ≡ false = ==_ne null p (λ e. ne (sym e)) in
      record {
        distinct = (refl, tt);
        present = rw n;
        not_waiting = λ q m. refl;
        not_zombie = λ q m. refl;
      }

  first_running-IsPopulated : IsPopulated (first_running ready p a' got ne) (p ∷ [])
  unfolding init_lists
  first_running-IsPopulated = record {
    holds = held;
    running = ground (arith, ==_refl p);
    ready = λ q m. none q m;
    waiting = λ q m. none q m;
    zombie = λ q m. none q m;
  }

  first_running-IsTimers : IsTimers (first_running ready p a' got ne) []
  unfolding init_lists
  first_running-IsTimers = record {
    live = [];
    holds = IsFull-Holds 1024 c fc;
    live_distinct = tt;
    owned = λ t m. none t m;
    distinct = tt;
    sorted = tt;
    sleepers = tt;
    present = λ t m. none t m;
    not_ready = λ t m. refl;
    not_zombie = λ t m. refl;
    waiting = tt;
  }

  first_running-IsTicking : IsTicking (first_running ready p a' got ne)
  unfolding init_lists
  first_running-IsTicking =
      let l = first_running ready p a' got ne in
      record {
        timers = first_running-IsTimers;
        processes = IsScheduled-runnable l first_running-IsScheduled;
        apart = λ t i. none t i;
      }

  first_running-IsRegistry : IsRegistry (first_running ready p a' got ne)
  first_running-IsRegistry = record {
    live = [];
    holds = IsFull-Holds 128 g fg;
    owned = λ q m. m;
    unique = tt;
  }

  first_running-Started : Started k (first_running ready p a' got ne)
  unfolding init_lists
  first_running-Started = record {
    scheduled = first_running-IsScheduled;
    no_others = (refl, refl, refl);
    populated = first_running-IsPopulated;
    first = refl;
    pid = first_pid ready p a' got ne;
    status = first_status ready p a' got ne;
    no_children = first_children ready p a' got ne;
    timers = (refl, first_running-IsTimers);
    ticking = first_running-IsTicking;
    resources = (refl, IsFull-Holds 1024 d fd);
    descriptors = (IsFull-Holds 1024 e fe, IsFull-Holds 1024 f ff);
    queues = (refl, first_running-IsRegistry);
    items = (IsFull-Holds 4096 h fh, IsFull-Holds 1024 b fb);
  }

  first_run :
      k.shutdown_now ≡ false
      → (if ready.shutdown_now then pure tt else start_first) ready
        ≡ ok tt (first_running ready p a' got ne)
  unfolding init_lists
  first_run on =
      ap (λ down. (if down then pure tt else start_first) ready) on
      ∙ start_first_run ready p a' got ne

  ready-Returns :
      k.shutdown_now ≡ false
      → Returns (λ _ l. Started k l) ((if ready.shutdown_now then pure tt else start_first) ready)
  ready-Returns on =
      subst (Returns (λ _ l. Started k l)) (sym (first_run on)) (returns first_running-Started)

-- `disastrOS_start` with buffers that are not at null and hold as many words for indices as blocks,
-- and not called after a shutdown: it comes to the start of the first process with all the pools
-- ready, where one process runs, with the pid that comes next and no children, and there is no other
-- process, no timer, no resource and no queue. In that state what the other theorems suppose of the
-- scheduler's lists, the processes, the timers and the queues holds.
pub disastr_os_start-Started :
    (i : Image) (k : Kernel)
    → IsImage i
    → k.shutdown_now ≡ false
    → Returns (λ _ l. Started k l) (disastr_os_start i k)
unfolding disastr_os_start init_pools init_lists
disastr_os_start-Started i k image on =
    let (a, b, fa, fb, ra) =
      pcb_init_run k i.sizeof_pcb i.pcb_buffer i.pcb_ptr_buffer i.pcb_words i.pcb_ptr_words
        image.sizeof_pcb image.fits image.pcb.0 image.pcb_ptr.0 image.pcb.1 image.pcb_ptr.1 in
    let k1 = record k { pcb_allocator = a; pcb_ptr_allocator = b } in
    let (c, fc, rc) =
      timer_init_run k1 i.timer_item_buffer i.timer_item_words image.timer_item.0
        image.timer_item.1 in
    let k2 = record k1 { timer_item_allocator = c } in
    let (d, fd, rd) =
      resource_init_run k2 i.resources_buffer i.resources_words image.resources.0
        image.resources.1 in
    let k3 = record k2 { resources_allocator = d } in
    let (e, f, fe, ff, re) =
      descriptor_init_run k3 i.descriptor_buffer i.descriptor_ptr_buffer i.descriptor_words
        i.descriptor_ptr_words image.descriptor.0 image.descriptor_ptr.0 image.descriptor.1
        image.descriptor_ptr.1 in
    let k4 = record (init_lists k3) {
      descriptor_allocator = e;
      descriptor_ptr_allocator = f;
      init_pcb = null;
    } in
    let (g, h, fg, fh, rg) =
      bq_init_run k4 i.bq_buffer i.bqitem_buffer i.bq_words i.bqitem_words image.bq.0 image.bqitem.0
        image.bq.1 image.bqitem.1 in
    let (p, a', got, ne, out, held) =
      obtained a [] (IsFull-Holds 1024 a fa) (IsFull-Available 1023 a fa) in
    rw ra (
      rw rc (
        rw rd (
          rw re
            (rw rg (ready-Returns k a b c d e f g h fa fb fc fd fe ff fg fh p a' got ne held on)))))
