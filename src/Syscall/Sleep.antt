-- ===== src/Syscall/Sleep.antt =====
-- disastrOS_sleep.c.
pub mod Asleep
pub mod Outcome
pub mod Timers
use so_oscilloscopio.Base.{◌+ℤ◌, to_int, not, [], ◌∷◌, ◌==◌, if◌then◌else◌}
use so_oscilloscopio.Run.{Cmd, pure, get, modify, ◌>>=◌, ◌>>◌}
use so_oscilloscopio.Constants.Error
use so_oscilloscopio.LinkedList.{null}
use so_oscilloscopio.Kernel.{
  Kernel, waiting, with_status, change_pcb, current, set_retvalue, argument,
}
use so_oscilloscopio.Kernel.Lists.{insert_waiting, pop_ready}
use so_oscilloscopio.Timer.{timer_list_add}

-- `if (ready_list.first) running = List_detach(…); else running = 0;`, with no change of status.
unfoldable pub give_up_processor : Cmd Kernel (Unit {0})
give_up_processor k = elim k.ready_list [
  | [] ↦ pure tt (record k { running_pcb = null })
  | first ∷ others ↦ (do next ← pop_ready; modify λ k. record k { running_pcb = next }) k
]

-- Without what is printed.
unfoldable pub internal_sleep : Cmd Kernel (Unit {0})
unfolding give_up_processor
internal_sleep = do
  self ← current
  k ← get
  if not ((k.pcb_memory self).timer == null) then set_retvalue Error.sleep else do
    let cycles_to_sleep = to_int (argument k 0)
    let wake_time = to_int (k.disastr_os_time +ℤ cycles_to_sleep)
    new_timer ← timer_list_add wake_time self
    if new_timer == null
        then set_retvalue Error.sleep
        else do change_pcb self (with_status waiting); insert_waiting self; give_up_processor
