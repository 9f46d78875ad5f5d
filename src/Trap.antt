-- ===== src/Trap.antt =====
-- disastrOS.c: the tables of system calls, the entry of a system call in the process that makes it,
-- and the trap in which the kernel handles it. A switch of contexts is the context that it switches to.
pub mod Api
pub mod BQueue
pub mod Called
pub mod Table
pub mod Unknown
use so_oscilloscopio.Base.{
  ℕ, zero, suc, ◌+◌, ℤ, pos, negsuc, ltb_ℤ, Bool, true, false, ◌||◌, Option, none, some, List, [],
  ◌∷◌, ◌==◌, if◌then◌else◌,
}
use so_oscilloscopio.Run.{Cmd, pure, crash, get, modify, ◌>>=◌, ◌>>◌}
use so_oscilloscopio.Constants.Error
use so_oscilloscopio.Constants.Call
use so_oscilloscopio.LinkedList.{Ptr, null}
use so_oscilloscopio.Kernel.{saved, Kernel, Pcb, change_pcb, current, set_retvalue, update}
use so_oscilloscopio.Syscall.Shutdown.{Jump, returned, to_main}
use so_oscilloscopio.Trap.Table.{entry, syscall_vector, syscall_numarg}

pub data Context : Type 0 where
  process_context : Ptr → Context
  interrupt_context main_context : Context

-- `syscall_num<0||syscall_num>DSOS_MAX_SYSCALLS`
abbrev pub is_out_of_range : ℤ → Bool
is_out_of_range num = ltb_ℤ num (pos 0) || ltb_ℤ (pos Call.max_syscalls) num

-- The body of `disastrOS_trap` up to its label; `rounds` is for the loop of `internal_exit`. The
-- number `DSOS_MAX_SYSCALLS` itself passes the test and reads behind the table.
unfoldable pub handle : (rounds : ℕ) (num : ℤ) → Cmd Kernel Jump
handle rounds num =
    if is_out_of_range num
    then (do set_retvalue Error.out_of_range; pure returned)
    else elim (entry (syscall_vector rounds) num) [
      | none ↦ crash
      | some none ↦ (do set_retvalue Error.not_implemented; pure returned)
      | some (some handler) ↦ handler
    ]

-- From the label on; the log, where there is one, reads the pid of the running process.
unfoldable pub return_to_process : (logging : Bool) → Jump → Cmd Kernel Context
return_to_process logging to_main = pure main_context
return_to_process logging returned = do
  k ← get
  if k.running_pcb == null
      then (if logging then crash else pure interrupt_context)
      else pure (process_context k.running_pcb)

unfoldable pub disastr_os_trap : (logging : Bool) (rounds : ℕ) → Cmd Kernel Context
unfolding handle return_to_process
disastr_os_trap logging rounds = do
  self ← current
  k ← get
  jump ← handle rounds (k.pcb_memory self).syscall_num
  return_to_process logging jump

-- `running->syscall_args[i] = va_arg(ap, long int)` for `n` arguments from index `i` on; an argument
-- that was not passed is undefined.
unfoldable pub store_args : (n i : ℕ) → List ℤ → (ℕ → ℤ) → Option (ℕ → ℤ)
store_args zero i args old = some old
store_args (suc n) i [] old = none
store_args (suc n) i (a ∷ args) old = store_args n (i + 1) args (update old i a)

-- The arguments after the call's are stored, as many as `syscall_numarg` says.
unfoldable pub passed_args : (num : ℤ) → List ℤ → (ℕ → ℤ) → Option (ℕ → ℤ)
unfolding store_args
passed_args num args old = elim (entry syscall_numarg num) [
  | none ↦ none
  | some nargs ↦ store_args nargs 0 args old
]

-- The call's number is stored, and `swapcontext` saves where the caller is.
unfoldable pub enter :
    (logging : Bool) (rounds : ℕ) (num : ℤ) (self : Ptr) (stored : ℕ → ℤ)
    → Cmd Kernel (Option Context)
unfolding disastr_os_trap
enter logging rounds num self stored = do
  change_pcb self λ v. record v { syscall_args = stored }
  change_pcb self λ v. record v { syscall_num = num; cpu_state = saved }
  c ← disastr_os_trap logging rounds
  pure (some c)

-- What follows the test of the number: the arguments and the number are stored, and the trap follows.
unfoldable pub make_syscall :
    (logging : Bool) (rounds : ℕ) (num : ℤ) → List ℤ → Cmd Kernel (Option Context)
unfolding passed_args enter
make_syscall logging rounds num args = do
  self ← current
  k ← get
  elim (passed_args num args (k.pcb_memory self).syscall_args) [
    | none ↦ crash
    | some stored ↦ enter logging rounds num self stored
  ]

-- The context in which the machine goes on, or none if the call returns at once with the error
-- `DSOS_ESYSCALL_OUT_OF_RANGE`. A process that goes on after its call returns `syscall_retvalue`.
unfoldable pub disastr_os_syscall :
    (logging : Bool) (rounds : ℕ) (num : ℤ) → List ℤ → Cmd Kernel (Option Context)
unfolding make_syscall
disastr_os_syscall logging rounds num args = do
  current
  if is_out_of_range num then pure none else make_syscall logging rounds num args

-- `disastrOS_getpid`.
unfoldable pub getpid : Kernel → ℤ
getpid k = if k.running_pcb == null then negsuc 0 else pos (k.pcb_memory k.running_pcb).pid
