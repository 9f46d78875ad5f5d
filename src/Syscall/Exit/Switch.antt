-- ===== src/Syscall/Exit/Switch.antt =====
-- Steps of `internal_exit`: the parent that wakes, and the scheduler with no process running.
use so_oscilloscopio.Base.{
  ◌≡◌, refl, sym, ◌∙◌, ◌≢◌, Bool, List, [], ◌∷◌, ◌++◌, arith, true, false, if◌then◌else◌, ◌∈◌, ◌∉◌,
  erase, mem-erase, ==_ne, ==_refl, Distinct,
}
use mathlib.Core.List.{append-nil}
use so_oscilloscopio.Run.{ok, ◌>>◌}
use so_oscilloscopio.LinkedList.{Ptr, null}
use so_oscilloscopio.Kernel.{Kernel, ready, running, set_pcb, with_status}
use so_oscilloscopio.Kernel.Lists.{is_listed, insert_zombie, detach_waiting, pop_ready}
use so_oscilloscopio.Kernel.Effects.{switched, change_pcb_run, insert_ready_run}
use so_oscilloscopio.Syscall.Schedule.{internal_schedule, requeue_running, start}
use so_oscilloscopio.Interrupt.Tick.{Dispatched}
use so_oscilloscopio.Syscall.Exit.{is_awaited, wake_parent}

-- With no process running, the scheduler runs the first ready one.
abbrev pub unscheduled : Kernel → Kernel
unscheduled k = record k { running_pcb = null }

pub schedule_idle :
    (k : Kernel) (queue : List Ptr)
    → k.ready_list ≡ queue
    → null ∉ queue
    → internal_schedule (unscheduled k) ≡ ok tt (switched (unscheduled k) queue)
unfolding internal_schedule pop_ready requeue_running start
schedule_idle k [] order out = ground (arith, order)
schedule_idle k (next ∷ others) order out =
    popped
    ∙ rw (
        change_pcb_run (record (unscheduled k) { ready_list = others }) next (with_status running)
          (ground arith))
  where
    popped :
        internal_schedule (unscheduled k)
        ≡ (do requeue_running; start next) (record (unscheduled k) { ready_list = others })
    popped = ground (arith, order)

pub switched-Dispatched :
    (k : Kernel) (queue : List Ptr)
    → k.ready_list ≡ queue
    → Dispatched null queue (switched (unscheduled k) queue)
switched-Dispatched k [] order = (refl, order)
switched-Dispatched k (next ∷ others) order = (refl, rw (==_refl next), sym (append-nil others))

pub insert_zombie_run :
    (k : Kernel) (p : Ptr)
    → p ≢ null
    → is_listed k p ≡ false
    → insert_zombie p k ≡ ok tt (record k { zombie_list = k.zombie_list ++ p ∷ [] })
unfolding insert_zombie
insert_zombie_run k p ne free = ground arith

-- The parent `p` is ready behind the others if `self` is awaited.
abbrev pub woken : Kernel → (awaited : Bool) (p : Ptr) → Kernel
woken k awaited p =
    if awaited
    then record (set_pcb p (with_status ready (k.pcb_memory p)) k) {
      waiting_list = erase p k.waiting_list;
      ready_list = k.ready_list ++ p ∷ [];
    }
    else k

module _ (k : Kernel) (self p : Ptr) (parent : (k.pcb_memory self).parent ≡ p) (ne : p ≢ null) where
  pub wake_parent_asleep : is_awaited k p self ≡ false → wake_parent self k ≡ ok tt k
  unfolding wake_parent
  wake_parent_asleep e = rw (parent) (rw (==_ne p null ne) (rw e))

  pub wake_parent_woken :
      is_awaited k p self ≡ true
      → p ∈ k.waiting_list
      → p ∉ k.ready_list
      → p ∉ k.zombie_list
      → Distinct k.waiting_list
      → wake_parent self k ≡ ok tt (woken k true p)
  unfolding wake_parent detach_waiting
  wake_parent_woken e i not_ready not_zombie d =
      let k1 = record k { waiting_list = erase p k.waiting_list } in
      let k2 = set_pcb p (with_status ready (k.pcb_memory p)) k1 in
      let free : is_listed k2 p ≡ false = ground (arith, mem-erase p p k.waiting_list d) in
      rw (parent) (
        rw (==_ne p null ne) (
          rw (e) (
            rw (i)
              (rw (change_pcb_run k1 p (with_status ready) ne) (insert_ready_run k2 p ne free)))))
