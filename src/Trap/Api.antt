-- ===== src/Trap/Api.antt =====
-- disastrOS.c and disastrOS_bqueue.c: the functions that processes call, each of which makes a system
-- call. Pointers are passed as numbers, and an `int` as itself.
use so_oscilloscopio.Base.{ℕ, ℤ, pos, Bool, Option, List, [], ◌∷◌}
use so_oscilloscopio.Run.{Cmd}
use so_oscilloscopio.Constants.Call
use so_oscilloscopio.LinkedList.{Ptr}
use so_oscilloscopio.Kernel.{Kernel}
use so_oscilloscopio.Trap.{Context, disastr_os_syscall}

-- `logging` says whether there is a log, and `rounds` is for the loop of `internal_exit`.
module _ (logging : Bool) (rounds : ℕ) where
  abbrev call : ℕ → List ℤ → Cmd Kernel (Option Context)
  call num args = disastr_os_syscall logging rounds (pos num) args

  abbrev pub fork : Cmd Kernel (Option Context)
  fork = call Call.fork []

  abbrev pub wait : (pid : ℤ) (retval : Ptr) → Cmd Kernel (Option Context)
  wait pid retval = call Call.wait (pid ∷ pos retval ∷ [])

  abbrev pub exit : (exitval : ℤ) → Cmd Kernel (Option Context)
  exit exitval = call Call.exit (exitval ∷ [])

  abbrev pub preempt : Cmd Kernel (Option Context)
  preempt = call Call.preempt []

  abbrev pub spawn : (f args : Ptr) → Cmd Kernel (Option Context)
  spawn f args = call Call.spawn (pos f ∷ pos args ∷ [])

  abbrev pub shutdown : Cmd Kernel (Option Context)
  shutdown = call Call.shutdown []

  abbrev pub sleep : (sleep_time : ℤ) → Cmd Kernel (Option Context)
  sleep sleep_time = call Call.sleep (sleep_time ∷ [])

  abbrev pub open_resource : (resource_id kind mode : ℤ) → Cmd Kernel (Option Context)
  open_resource resource_id kind mode = call Call.open_resource (resource_id ∷ kind ∷ mode ∷ [])

  abbrev pub close_resource : (fd : ℤ) → Cmd Kernel (Option Context)
  close_resource fd = call Call.close_resource (fd ∷ [])

  abbrev pub destroy_resource : (resource_id : ℤ) → Cmd Kernel (Option Context)
  destroy_resource resource_id = call Call.destroy_resource (resource_id ∷ [])

  abbrev pub bq_create : (id capacity : ℤ) → Cmd Kernel (Option Context)
  bq_create id capacity = call Call.bq_create (id ∷ capacity ∷ [])

  abbrev pub bq_put : (id value : ℤ) → Cmd Kernel (Option Context)
  bq_put id value = call Call.bq_put (id ∷ value ∷ [])

  abbrev pub bq_get : (id : ℤ) (out : Ptr) → Cmd Kernel (Option Context)
  bq_get id out = call Call.bq_get (id ∷ pos out ∷ [])

  abbrev pub bq_delete : (id : ℤ) → Cmd Kernel (Option Context)
  bq_delete id = call Call.bq_delete (id ∷ [])

  abbrev pub bq_dump : (id : ℤ) → Cmd Kernel (Option Context)
  bq_dump id = call Call.bq_dump (id ∷ [])
