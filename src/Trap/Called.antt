-- ===== src/Trap/Called.antt =====
-- What making a system call does before its handler runs.
use so_oscilloscopio.Base.{
  ℕ, ◌≡◌, refl, ap, ◌∙◌, ◌≢◌, ℤ, Bool, false, none, some, List, arith, ◌==◌, if◌then◌else◌,
  Bool-cases, inl, inr, subst, sym,
}
use so_oscilloscopio.Run.Returns
use so_oscilloscopio.Run.Returns.{Returns, returns}
use so_oscilloscopio.Run.{Run, ok, Cmd, pure, and_then, ◌>>=◌, ◌>>◌}
use so_oscilloscopio.LinkedList.{null}
use so_oscilloscopio.Kernel.{saved, Kernel, Pcb, set_pcb, argument}
use so_oscilloscopio.Kernel.Effects.{update_self, change_pcb_run, current_run}
use so_oscilloscopio.Syscall.Shutdown.{Jump, returned}
use so_oscilloscopio.Trap.{
  Context, process_context, interrupt_context, is_out_of_range, handle, return_to_process,
  disastr_os_trap, passed_args, enter, make_syscall, disastr_os_syscall,
}

abbrev with_args : (ℕ → ℤ) → Pcb → Pcb
with_args stored v = record v { syscall_args = stored }

abbrev with_num : ℤ → Pcb → Pcb
with_num num v = record v { syscall_num = num; cpu_state = saved }

-- The state in which the running process has stored its call.
abbrev pub called : Kernel → (ℕ → ℤ) → ℤ → Kernel
called k stored num =
    let self = k.running_pcb in
    let k1 = set_pcb self (with_args stored (k.pcb_memory self)) k in
    set_pcb self (with_num num (k1.pcb_memory self)) k1

make_syscall_run :
    (k : Kernel) (logging : Bool) (rounds : ℕ) (num : ℤ) (args : List ℤ) (stored : ℕ → ℤ)
    → k.running_pcb ≢ null
    → passed_args num args (k.pcb_memory k.running_pcb).syscall_args ≡ some stored
    → make_syscall logging rounds num args k ≡ enter logging rounds num k.running_pcb stored k
unfolding make_syscall
make_syscall_run k logging rounds num args stored on fits =
    rw (current_run k on) (ground (arith, fits))

module _ (k : Kernel) (on : k.running_pcb ≢ null) where
  pub called-argument :
      (stored : ℕ → ℤ) (num : ℤ) (i : ℕ) → argument (called k stored num) i ≡ stored i
  called-argument stored num i =
      let self = k.running_pcb in
      let v1 = with_args stored (k.pcb_memory self) in
      let k1 = set_pcb self v1 k in
      ap (λ (v : Pcb). v.syscall_args i)
        (update_self k1.pcb_memory self (with_num num (k1.pcb_memory self)))
      ∙ ap (λ (v : Pcb). v.syscall_args i) (update_self k.pcb_memory self v1)

  called_num :
      (stored : ℕ → ℤ) (num : ℤ)
      → ((called k stored num).pcb_memory k.running_pcb).syscall_num ≡ num
  called_num stored num =
      let self = k.running_pcb in
      let k1 = set_pcb self (with_args stored (k.pcb_memory self)) k in
      ap (λ (v : Pcb). v.syscall_num)
        (update_self k1.pcb_memory self (with_num num (k1.pcb_memory self)))

  trap_run :
      (logging : Bool) (rounds : ℕ) (stored : ℕ → ℤ) (num : ℤ)
      → disastr_os_trap logging rounds (called k stored num)
        ≡ (do jump ← handle rounds num; return_to_process logging jump) (called k stored num)
  unfolding disastr_os_trap
  trap_run logging rounds stored num = rw (current_run (called k stored num) on) (
      ap (λ n. (do jump ← handle rounds n; return_to_process logging jump) (called k stored num))
        (called_num stored num))

  enter_run :
      (logging : Bool) (rounds : ℕ) (num : ℤ) (stored : ℕ → ℤ)
      → enter logging rounds num k.running_pcb stored k
        ≡ (do c ← (do jump ← handle rounds num; return_to_process logging jump); pure (some c))
            (called k stored num)
  unfolding enter
  enter_run logging rounds num stored =
      let self = k.running_pcb in
      let k1 = set_pcb self (with_args stored (k.pcb_memory self)) k in
      rw (change_pcb_run k self (with_args stored) on) (
        rw (change_pcb_run k1 self (with_num num) on)
          (ap (λ r. and_then r (λ c. pure (some c))) (trap_run logging rounds stored num)))

  in_range :
      (logging : Bool) (rounds : ℕ) (num : ℤ) (args : List ℤ)
      → is_out_of_range num ≡ false
      → disastr_os_syscall logging rounds num args k ≡ make_syscall logging rounds num args k
  unfolding disastr_os_syscall
  in_range logging rounds num args range =
      chosen ∙ ap (λ b. (if b then pure none else make_syscall logging rounds num args) k) range
    where
      chosen :
          disastr_os_syscall logging rounds num args k
          ≡ (if is_out_of_range num then pure none else make_syscall logging rounds num args) k
      chosen = rw (current_run k on)

  -- A call with a number in range and enough arguments is the run of its handler, on the state in
  -- which the process has stored the call.
  pub syscall_run :
      (logging : Bool) (rounds : ℕ) (num : ℤ) (args : List ℤ) (stored : ℕ → ℤ)
      → is_out_of_range num ≡ false
      → passed_args num args (k.pcb_memory k.running_pcb).syscall_args ≡ some stored
      → disastr_os_syscall logging rounds num args k
        ≡ (do c ← (do jump ← handle rounds num; return_to_process logging jump); pure (some c))
            (called k stored num)
  syscall_run logging rounds num args stored range fits =
      in_range logging rounds num args range
      ∙ make_syscall_run k logging rounds num args stored on fits
      ∙ enter_run logging rounds num stored

-- Where the machine goes on after a handler has returned.
abbrev pub next_context : Kernel → Context
next_context l = if l.running_pcb == null then interrupt_context else process_context l.running_pcb

return_run : (l : Kernel) → return_to_process false returned l ≡ ok (next_context l) l
unfolding return_to_process
return_run l = elim (Bool-cases (l.running_pcb == null)) [ inl e ↦ rw e | inr e ↦ rw e ]

-- A system call without a log, by what its handler does.
pub syscall-Returns :
    (k : Kernel) (rounds : ℕ) (num : ℤ) (args : List ℤ) (stored : ℕ → ℤ)
    (handler : Cmd Kernel (Unit {0}))
    → k.running_pcb ≢ null
    → is_out_of_range num ≡ false
    → passed_args num args (k.pcb_memory k.running_pcb).syscall_args ≡ some stored
    → handle rounds num (called k stored num) ≡ (handler >> pure returned) (called k stored num)
    → {P : Kernel → Type 0} → Returns (λ _ l. P l) (handler (called k stored num))
    → Returns
        (λ c l. (c ≡ some (next_context l)) × P l)
        (disastr_os_syscall false rounds num args k)
syscall-Returns k rounds num args stored handler on range fits handled {P} run =
    let (u, l, eq, p) = Returns.result run in
    let finish = λ (r : Run Kernel Context). and_then r (λ c s. ok (some c) s) in
    let back = λ (r : Run Kernel Jump). and_then r (return_to_process false) in
    let done = λ (r : Run Kernel (Unit {0})). and_then r (λ _ s. ok returned s) in
    subst (Returns λ c l. (c ≡ some (next_context l)) × P l)
      (sym (
        syscall_run k on false rounds num args stored range fits
        ∙ ap (λ r. finish (back r)) (handled ∙ ap done eq)
        ∙ ap finish (return_run l)))
      (returns (refl, p))
