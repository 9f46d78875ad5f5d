-- ===== src/Syscall/Fork/Child.antt =====
-- What `internal_fork` does to the kernel's state.
use so_oscilloscopio.Base.{
  ◌+◌, ◌≡◌, refl, sym, ◌≢◌, pos, List, [], ◌∷◌, ◌++◌, arith, false, ◌∈◌, ◌∉◌, ==_ne, ==_refl,
  ne_of_mem, not-mem_of_subset,
}
use so_oscilloscopio.Run.{ok}
use so_oscilloscopio.Run.Returns.{Returns, returns}
use so_oscilloscopio.LinkedList.{Ptr, null}
use so_oscilloscopio.PoolAllocator.{PoolAllocator, get_block}
use so_oscilloscopio.PoolAllocator.Live.{Holds}
use so_oscilloscopio.Kernel.{Kernel, ready, update, set_pcb, with_status, with_retvalue}
use so_oscilloscopio.Kernel.Lists.{is_listed}
use so_oscilloscopio.Kernel.Effects.{
  change_pcb_run, current_run, set_retvalue_run, insert_ready_run,
}
use so_oscilloscopio.Pcb.{fresh_pcb, pcb_alloc}
use so_oscilloscopio.Syscall.BQueue.Effects.{pcb_ptr_alloc_run, pcb_ptr_taken}
use so_oscilloscopio.Syscall.BQueue.Fifo.{Available, obtained}
use so_oscilloscopio.Syscall.Fork.{with_parent, with_child, add_child, internal_fork}

abbrev pub pcb_taken : Kernel → Ptr → PoolAllocator → Kernel
pcb_taken k p b = record k {
  pcb_allocator = b;
  pcb_memory = update k.pcb_memory p (fresh_pcb (k.pcb_memory p) k.last_pid);
  last_pid = k.last_pid + 1;
}

-- The state after the control block `child` joins the children of `self`, through the list item `g`,
-- and the ready processes.
abbrev pub child_added : Kernel → (self child g : Ptr) → PoolAllocator → Kernel
child_added k self child g b =
    let k1 = set_pcb child (with_status ready (k.pcb_memory child)) k in
    let k2 = set_pcb child (with_parent self (k1.pcb_memory child)) k1 in
    let k3 = pcb_ptr_taken k2 g b child in
    let k4 = set_pcb self (with_child g (k3.pcb_memory self)) k3 in
    record k4 { ready_list = k.ready_list ++ child ∷ [] }

abbrev pub reply_pid : Kernel → Ptr → Kernel
reply_pid k child =
    set_pcb k.running_pcb
      (with_retvalue (pos (k.pcb_memory child).pid) (k.pcb_memory k.running_pcb)) k

pub pcb_alloc_run :
    (k : Kernel) (p : Ptr) (b : PoolAllocator)
    → get_block k.pcb_allocator ≡ ok p b
    → p ≢ null
    → pcb_alloc k ≡ ok p (pcb_taken k p b)
unfolding pcb_alloc
pcb_alloc_run k p b got ne = rw (got, ==_ne p null ne)

pub add_child_run :
    (k : Kernel) (self child g : Ptr) (b : PoolAllocator)
    → self ≢ null
    → child ≢ null
    → g ≢ null
    → k.running_pcb ≢ null
    → is_listed k child ≡ false
    → get_block k.pcb_ptr_allocator ≡ ok g b
    → add_child self child k ≡ ok tt (reply_pid (child_added k self child g b) child)
unfolding add_child
add_child_run k self child g b self_ne child_ne g_ne on free got =
    let k1 = set_pcb child (with_status ready (k.pcb_memory child)) k in
    let k2 = set_pcb child (with_parent self (k1.pcb_memory child)) k1 in
    let k3 = pcb_ptr_taken k2 g b child in
    let k4 = set_pcb self (with_child g (k3.pcb_memory self)) k3 in
    let k5 = record k4 { ready_list = k.ready_list ++ child ∷ [] } in
    rw (change_pcb_run k child (with_status ready) child_ne) (
      rw (change_pcb_run k1 child (with_parent self) child_ne) (
        rw (pcb_ptr_alloc_run k2 g b got child g_ne, ==_ne g null g_ne)
          (rw (change_pcb_run k3 self (with_child g) self_ne) (
            rw (insert_ready_run k4 child child_ne free)
              (set_retvalue_run k5 (pos (k5.pcb_memory child).pid) on)))))

-- The process `child`, a new one, is ready behind the others, and is the last child of the caller,
-- which goes on and is told its pid.
pub record Forked (k : Kernel) (live : List Ptr) (l : Kernel) : Type 0 where
  pub child : Ptr
  pub link : Ptr
  pub fresh : child ∉ live
  pub pid : (l.pcb_memory child).pid ≡ k.last_pid
  pub next_pid : l.last_pid ≡ k.last_pid + 1
  pub status : (l.pcb_memory child).status ≡ ready
  pub parent : (l.pcb_memory child).parent ≡ k.running_pcb
  pub no_children : (l.pcb_memory child).children ≡ []
  pub queued : l.ready_list ≡ k.ready_list ++ child ∷ []
  pub linked : l.pcb_ptr_memory link ≡ child
  pub children :
      (l.pcb_memory k.running_pcb).children ≡ (k.pcb_memory k.running_pcb).children ++ link ∷ []
  pub returned : (l.pcb_memory k.running_pcb).syscall_retvalue ≡ pos k.last_pid
  pub goes_on : l.running_pcb ≡ k.running_pcb

-- The processes that are known are live control blocks.
pub record IsPopulated (k : Kernel) (live : List Ptr) : Type 0 where
  pub holds : Holds k.pcb_allocator live
  pub running : k.running_pcb ∈ live
  pub ready : (p : Ptr) → p ∈ k.ready_list → p ∈ live
  pub waiting : (p : Ptr) → p ∈ k.waiting_list → p ∈ live
  pub zombie : (p : Ptr) → p ∈ k.zombie_list → p ∈ live

module _ (k : Kernel) (live : List Ptr) (people : IsPopulated k live) (c : Ptr)
    (out : c ∉ live) where
  pub child_unlisted : is_listed k c ≡ false
  child_unlisted =
      let r = not-mem_of_subset c k.ready_list live people.ready out in
      let w = not-mem_of_subset c k.waiting_list live people.waiting out in
      let z = not-mem_of_subset c k.zombie_list live people.zombie out in ground arith

  pub child_ne : c ≢ k.running_pcb
  child_ne = ne_of_mem c k.running_pcb live out people.running

  pub forked_lem :
      (b : PoolAllocator) (g : Ptr) (d : PoolAllocator)
      → (f : Forked k live (reply_pid (child_added (pcb_taken k c b) k.running_pcb c g d) c))
        × (f.child ≡ c)
  unfolding fresh_pcb
  forked_lem b g d =
      let apart = ==_ne c k.running_pcb child_ne in
      let apart' = ==_ne k.running_pcb c λ e. child_ne (sym e) in
      let f : Forked k live (reply_pid (child_added (pcb_taken k c b) k.running_pcb c g d) c) =
        record {
          child = c;
          link = g;
          fresh = out;
          pid = rw (apart, ==_refl c);
          next_pid = refl;
          status = rw (apart, ==_refl c);
          parent = rw (apart, ==_refl c);
          no_children = rw (apart, ==_refl c);
          queued = refl;
          linked = rw (==_refl g);
          children = rw (==_refl k.running_pcb, apart');
          returned = rw (==_refl k.running_pcb, ==_refl c, apart);
          goes_on = refl;
        } in
      (f, refl)

-- `internal_fork` with a process running, which together with all listed processes are live control
-- blocks, and with neither the pool of control blocks nor that of list items exhausted: the call
-- returns. A control block that was not live is a process with the next pid, no children and the
-- caller as its parent; it is ready behind the others and the last of the caller's children, and the
-- caller goes on with the new pid as its result.
pub internal_fork-Forked :
    (k : Kernel) (live ptrs : List Ptr)
    → k.running_pcb ≢ null
    → IsPopulated k live
    → Holds k.pcb_ptr_allocator ptrs
    → Available k.pcb_allocator
    → Available k.pcb_ptr_allocator
    → Returns (λ _ l. Forked k live l) (internal_fork k)
unfolding internal_fork
internal_fork-Forked k live ptrs on people ptrs_hold some_pcb some_ptr =
    let (c, b, got, ne, out, held) = obtained k.pcb_allocator live people.holds some_pcb in
    let (g, d, got', ne', out', held') = obtained k.pcb_ptr_allocator ptrs ptrs_hold some_ptr in
    rw (current_run k on, pcb_alloc_run k c b got ne, ==_ne c null ne)
      (rw
        (add_child_run (pcb_taken k c b) k.running_pcb c g d on ne ne' on
          (child_unlisted k live people c out) got')
        (returns (forked_lem k live people c out b g d).0))
