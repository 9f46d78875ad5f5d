-- ===== src/Syscall/Schedule.antt =====
-- disastrOS_schedule.c and disastrOS_preempt.c.
pub mod RoundRobin
use so_oscilloscopio.Base.{[], ◌∷◌, ◌==◌, if◌then◌else◌}
use so_oscilloscopio.Run.{Cmd, pure, get, modify, ◌>>=◌, ◌>>◌}
use so_oscilloscopio.LinkedList.{Ptr, null}
use so_oscilloscopio.Kernel.{Kernel, running, ready, with_status, change_pcb}
use so_oscilloscopio.Kernel.Lists.{insert_ready, pop_ready}

-- `if (running) { running->status = Ready; List_insert(&ready_list, …); }`
unfoldable pub requeue_running : Cmd Kernel (Unit {0})
requeue_running = do
  k ← get
  if k.running_pcb == null
      then pure tt
      else do change_pcb k.running_pcb (with_status ready); insert_ready k.running_pcb

-- `next->status = Running; running = next;`
unfoldable pub start : (next : Ptr) → Cmd Kernel (Unit {0})
start next = do change_pcb next (with_status running); modify λ k. record k { running_pcb = next }

-- Without the line for debugging.
unfoldable pub internal_schedule : Cmd Kernel (Unit {0})
unfolding requeue_running start
internal_schedule k = elim k.ready_list [
  | [] ↦ pure tt k
  | first ∷ others ↦ (do next ← pop_ready; requeue_running; start next) k
]

unfoldable pub internal_preempt : Cmd Kernel (Unit {0})
unfolding internal_schedule
internal_preempt = internal_schedule
