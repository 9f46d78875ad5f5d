-- ===== src/Syscall/Fork/Spawn.antt =====
-- What `internal_spawn` does besides the work of `internal_fork`: the context of the new process.
use so_oscilloscopio.Base.{arith, ◌∉◌, ℕ, ◌≡◌, refl, sym, ◌∙◌, ap, ◌≢◌, to_ptr, List, ==_ne}
use so_oscilloscopio.Run.{ok}
use so_oscilloscopio.Run.Returns.{Returns, returns}
use so_oscilloscopio.LinkedList.{Ptr, null}
use so_oscilloscopio.PoolAllocator.{PoolAllocator}
use so_oscilloscopio.PoolAllocator.Live.{Holds}
use so_oscilloscopio.Kernel.{Kernel, Pcb, CpuState, starts, argument, update, set_pcb}
use so_oscilloscopio.Kernel.Effects.{
  change_pcb_run, current_run, update_field, update_self, update_ne,
}
use so_oscilloscopio.Pcb.{fresh_pcb}
use so_oscilloscopio.Syscall.BQueue.Fifo.{Available, obtained}
use so_oscilloscopio.Syscall.Fork.{with_cpu_state, make_context, internal_spawn}
use so_oscilloscopio.Syscall.Fork.Child.{
  pcb_taken, child_added, reply_pid, pcb_alloc_run, add_child_run, child_unlisted, child_ne,
  forked_lem, IsPopulated, Forked,
}

-- The new process is one as `internal_fork` makes, and it is to call the function that the caller
-- passed, with the argument that it passed; the contexts of the other processes are as they were.
pub record Spawned (k : Kernel) (live : List Ptr) (l : Kernel) : Type 0 where
  pub forked : Forked k live l
  pub context :
      (l.pcb_memory forked.child).cpu_state ≡ starts (to_ptr (argument k 0)) (to_ptr (argument k 1))
  pub others :
      (p : Ptr) → p ≢ forked.child → (l.pcb_memory p).cpu_state ≡ (k.pcb_memory p).cpu_state

abbrev with_context : Kernel → Ptr → CpuState → Kernel
with_context k p c = set_pcb p (with_cpu_state c (k.pcb_memory p)) k

make_context_run :
    (k : Kernel) (p : Ptr)
    → p ≢ null
    → make_context p k
      ≡ ok tt (with_context k p (starts (to_ptr (argument k 0)) (to_ptr (argument k 1))))
unfolding make_context
make_context_run k p ne =
    change_pcb_run k p (with_cpu_state (starts (to_ptr (argument k 0)) (to_ptr (argument k 1)))) ne

abbrev arguments_start : Kernel → CpuState
arguments_start k = starts (to_ptr (argument k 0)) (to_ptr (argument k 1))

-- Setting the context of the new process changes nothing else.
module _ (k : Kernel) (live : List Ptr) (l : Kernel) (p : Ptr) (f : Forked k live l)
    (e : f.child ≡ p) where
  abbrev context_made : Pcb
  context_made = with_cpu_state (arguments_start l) (l.pcb_memory p)

  same :
      {A : Type 0} (field : Pcb → A) (q : Ptr)
      → field context_made ≡ field (l.pcb_memory p)
      → field ((with_context l p (arguments_start l)).pcb_memory q) ≡ field (l.pcb_memory q)
  same field q = update_field field l.pcb_memory p context_made q

  Forked-Spawned :
      ((i : ℕ) → argument l i ≡ argument k i)
      → ((q : Ptr) → q ≢ p → (l.pcb_memory q).cpu_state ≡ (k.pcb_memory q).cpu_state)
      → Spawned k live (with_context l p (arguments_start l))
  Forked-Spawned passed old = record {
    forked = record {
      child = f.child;
      link = f.link;
      fresh = f.fresh;
      pid = same (λ (v : Pcb). v.pid) f.child refl ∙ f.pid;
      next_pid = f.next_pid;
      status = same (λ (v : Pcb). v.status) f.child refl ∙ f.status;
      parent = same (λ (v : Pcb). v.parent) f.child refl ∙ f.parent;
      no_children = same (λ (v : Pcb). v.children) f.child refl ∙ f.no_children;
      queued = f.queued;
      linked = f.linked;
      children = same (λ (v : Pcb). v.children) k.running_pcb refl ∙ f.children;
      returned = same (λ (v : Pcb). v.syscall_retvalue) k.running_pcb refl ∙ f.returned;
      goes_on = f.goes_on;
    };
    context =
        ap (λ q. (update l.pcb_memory p context_made q).cpu_state) e
        ∙ ap (λ (v : Pcb). v.cpu_state) (update_self l.pcb_memory p context_made)
        ∙ ap (λ i. starts (to_ptr i) (to_ptr (argument l 1))) (passed 0)
        ∙ ap (λ i. starts (to_ptr (argument k 0)) (to_ptr i)) (passed 1);
    others = λ q ne.
        let ne' : q ≢ p = λ e'. ne (e' ∙ sym e) in
        ap (λ (v : Pcb). v.cpu_state) (update_ne l.pcb_memory p context_made q ne') ∙ old q ne';
  }

module _ (k : Kernel) (live : List Ptr) (people : IsPopulated k live) (c : Ptr) (out : c ∉ live)
    (b : PoolAllocator) (g : Ptr) (d : PoolAllocator) where
  abbrev forked : Kernel
  forked = reply_pid (child_added (pcb_taken k c b) k.running_pcb c g d) c

  argument-forked : (i : ℕ) → argument forked i ≡ argument k i
  unfolding fresh_pcb
  argument-forked i = let ne = child_ne k live people c out in ground arith

  cpu_state-forked :
      (p : Ptr) → p ≢ c → (forked.pcb_memory p).cpu_state ≡ (k.pcb_memory p).cpu_state
  cpu_state-forked p ne = ground arith

  forked-Spawned : Spawned k live (with_context forked c (arguments_start forked))
  forked-Spawned =
      let (f, e) = forked_lem k live people c out b g d in
      Forked-Spawned k live forked c f e argument-forked cpu_state-forked

-- `internal_spawn` with a process running, which together with all listed processes are live control
-- blocks, and with neither the pool of control blocks nor that of list items exhausted: the call
-- returns. A control block that was not live is a process with the next pid, no children and the
-- caller as its parent; it is ready behind the others and the last of the caller's children, it is to
-- start with the function at the first argument of the call, called with the second, and the caller
-- goes on with the new pid as its result. The saved states of the other processes do not change.
pub internal_spawn-Spawned :
    (k : Kernel) (live ptrs : List Ptr)
    → k.running_pcb ≢ null
    → IsPopulated k live
    → Holds k.pcb_ptr_allocator ptrs
    → Available k.pcb_allocator
    → Available k.pcb_ptr_allocator
    → Returns (λ _ l. Spawned k live l) (internal_spawn k)
unfolding internal_spawn
internal_spawn-Spawned k live ptrs on people ptrs_hold some_pcb some_ptr =
    let (c, b, got, ne, out, held) = obtained k.pcb_allocator live people.holds some_pcb in
    let (g, d, got', ne', out', held') = obtained k.pcb_ptr_allocator ptrs ptrs_hold some_ptr in
    rw (current_run k on, pcb_alloc_run k c b got ne, ==_ne c null ne)
      (rw
        (add_child_run (pcb_taken k c b) k.running_pcb c g d on ne ne' on
          (child_unlisted k live people c out) got')
        (rw (make_context_run (forked k live people c out b g d) c ne)
          (returns (forked-Spawned k live people c out b g d))))
