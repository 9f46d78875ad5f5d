-- ===== src/Interrupt.antt =====
-- disastrOS.c: the timer's interrupt, without the log; Interrupt/Handler.antt has the switches of
-- contexts around it.
pub mod Expire
pub mod Handler
pub mod Runnable
pub mod Tick
pub mod Ticks
pub mod Wake
use so_oscilloscopio.Base.{pos, ◌+ℤ◌, to_int, List, [], ◌∷◌, ◌==◌, true, false}
use so_oscilloscopio.Run.{Cmd, pure, get, modify, ◌>>=◌, ◌>>◌}
use so_oscilloscopio.LinkedList.{Ptr, null}
use so_oscilloscopio.Kernel.{Kernel, Pcb, ready, with_status, change_pcb}
use so_oscilloscopio.Kernel.Lists.{insert_ready, leave_waiting, run_next}
use so_oscilloscopio.Timer.{timer_list_current, timer_list_remove_current}
use so_oscilloscopio.Syscall.Schedule.{internal_schedule}

abbrev without_timer : Pcb → Pcb
without_timer v = record v { timer = null }

-- The body of the loop: the timer `t` has expired.
unfoldable pub expire : (t : Ptr) → Cmd Kernel (Unit {0})
expire t = do
  k ← get
  let p = (k.timer_memory t).pcb
  timer_list_remove_current
  change_pcb p without_timer
  leave_waiting p
  change_pcb p (with_status ready)
  insert_ready p

-- The loop; `timers` is the list of timers, of which each round removes the first.
unfoldable pub wake_expired : (timers : List Ptr) → Cmd Kernel (Unit {0})
unfolding expire
wake_expired [] k = pure tt k
wake_expired (x ∷ timers) k = elim (timer_list_current k k.disastr_os_time == null) [
  | true ↦ pure tt k
  | false ↦ (do expire (timer_list_current k k.disastr_os_time); wake_expired timers) k
]

unfoldable pub reschedule : Cmd Kernel (Unit {0})
unfolding internal_schedule
reschedule k = elim k.ready_list [
  | [] ↦ pure tt k
  | first ∷ others ↦ elim (k.running_pcb == null) [
    | true ↦ run_next k
    | false ↦ internal_schedule k
  ]
]

unfoldable pub timer_interrupt : Cmd Kernel (Unit {0})
unfolding wake_expired reschedule
timer_interrupt = do
  modify λ k. record k { disastr_os_time = to_int (k.disastr_os_time +ℤ pos 1) }
  k ← get
  wake_expired k.timer_list
  reschedule
