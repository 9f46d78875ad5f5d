-- ===== src/Trap/Table.antt =====
-- disastrOS_start of disastrOS.c: the table of handlers and the table of their numbers of arguments.
use so_oscilloscopio.Base.{ℕ, zero, suc, ℤ, pos, negsuc, Option, none, some, List, [], ◌∷◌, set}
use so_oscilloscopio.Run.{Cmd, pure, ◌>>◌}
use so_oscilloscopio.Constants.Call
use so_oscilloscopio.Kernel.{Kernel}
use so_oscilloscopio.Syscall.Shutdown.{Jump, returned, internal_shutdown}
use so_oscilloscopio.Syscall.Schedule.{internal_preempt}
use so_oscilloscopio.Syscall.Sleep.{internal_sleep}
use so_oscilloscopio.Syscall.Fork.{internal_fork, internal_spawn}
use so_oscilloscopio.Syscall.Wait.{internal_wait}
use so_oscilloscopio.Syscall.Exit.{internal_exit}
use so_oscilloscopio.Syscall.Resources.{
  internal_open_resource, internal_close_resource, internal_destroy_resource,
}
use so_oscilloscopio.Syscall.BQueue.{
  internal_bq_create, internal_bq_delete, internal_bq_put, internal_bq_get, internal_bq_dump,
}

-- `t[i]`, if `i` is inside the table.
abbrev pub nth {ℓ} : {A : Type ℓ} → List A → ℕ → Option A
nth [] i = none
nth (x ∷ xs) zero = some x
nth (x ∷ xs) (suc i) = nth xs i

abbrev pub entry {ℓ} : {A : Type ℓ} → List A → ℤ → Option A
entry t (pos i) = nth t i
entry t (negsuc i) = none

abbrev pub replicate {ℓ} : {A : Type ℓ} → ℕ → A → List A
replicate zero a = []
replicate (suc n) a = a ∷ replicate n a

-- A handler that returns.
abbrev pub returning : Cmd Kernel (Unit {0}) → Option (Cmd Kernel Jump)
returning handler = some (handler >> pure returned)

abbrev Vector : Type 0
Vector = List (Option (Cmd Kernel Jump))

abbrev install_resources : Vector → Vector
install_resources t =
    set
      (set
        (set (set t Call.open_resource (returning internal_open_resource)) Call.close_resource
          (returning internal_close_resource))
        Call.destroy_resource (returning internal_destroy_resource))
      Call.shutdown (some internal_shutdown)

abbrev install_bqueues : Vector → Vector
install_bqueues t =
    set
      (set
        (set
          (set (set t Call.bq_create (returning internal_bq_create)) Call.bq_delete
            (returning internal_bq_delete))
          Call.bq_put (returning internal_bq_put))
        Call.bq_get (returning internal_bq_get))
      Call.bq_dump (returning internal_bq_dump)

abbrev install_processes : ℕ → Vector → Vector
install_processes rounds t =
    set
      (set
        (set
          (set
            (set (set t Call.preempt (returning internal_preempt)) Call.fork
              (returning internal_fork))
            Call.spawn (returning internal_spawn))
          Call.wait (returning internal_wait))
        Call.exit (returning (internal_exit rounds)))
      Call.sleep (returning internal_sleep)

-- `rounds` is for the loop of `internal_exit`.
abbrev pub syscall_vector : (rounds : ℕ) → Vector
syscall_vector rounds =
    install_bqueues
      (install_resources (install_processes rounds (replicate Call.max_syscalls none)))

-- The array is static, so it holds zeros where nothing is stored.
abbrev pub syscall_numarg : List ℕ
syscall_numarg =
    let t0 = replicate Call.max_syscalls 0 in
    let t1 = set (set (set t0 Call.preempt 0) Call.fork 0) Call.spawn 2 in
    let t2 = set (set (set t1 Call.wait 2) Call.exit 1) Call.sleep 1 in
    let t3 =
      set (set (set t2 Call.open_resource 3) Call.close_resource 1) Call.destroy_resource 1 in
    let t4 = set (set (set t3 Call.bq_create 2) Call.bq_delete 1) Call.bq_put 2 in
    set (set (set t4 Call.bq_get 2) Call.bq_dump 1) Call.shutdown 0
