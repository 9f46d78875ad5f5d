-- ===== src/Trap/Unknown.antt =====
-- System calls that have no handler.
use so_oscilloscopio.Base.{
  ℕ, zero, suc, ◌+◌, ◌-◌, ◌≡◌, refl, sym, subst, ap, ◌∙◌, ◌≢◌, ◌≤◌, ◌<◌, ◌⊎◌, inl, inr, ℤ, pos,
  ◌<ℤ◌, true, false, none, some, List, [], ◌∷◌, ◌++◌, arith, length,
}
use so_oscilloscopio.Run.{ok, fault, pure, ◌>>◌}
use so_oscilloscopio.Run.Returns.{Returns, returns}
use so_oscilloscopio.Constants.Error
use so_oscilloscopio.LinkedList.{null}
use so_oscilloscopio.Kernel.{Kernel, set_pcb, set_retvalue, with_retvalue}
use so_oscilloscopio.Kernel.Effects.{current_run, set_retvalue_run}
use so_oscilloscopio.Syscall.Shutdown.{returned}
use so_oscilloscopio.Trap.{
  is_out_of_range, handle, passed_args, store_args, make_syscall, disastr_os_syscall,
}
use so_oscilloscopio.Trap.Table.{nth, entry, replicate, syscall_vector, syscall_numarg}
use so_oscilloscopio.Trap.Called.{called, next_context, syscall-Returns}

module _ {ℓ} {A : Type ℓ} where
  nth-append : (xs ys : List A) (n m : ℕ) → n ≡ length xs + m → nth (xs ++ ys) n ≡ nth ys m
  nth-append [] ys n m e = ap (nth ys) (omega (arith, e))
  nth-append (x ∷ xs) ys zero m e = absurd (omega arith)
  nth-append (x ∷ xs) ys (suc n) m e = nth-append xs ys n m (omega (arith, e))

  nth-replicate : (n m : ℕ) (a : A) → m < n → nth (replicate n a) m ≡ some a
  nth-replicate zero m a lt = absurd (omega arith)
  nth-replicate (suc n) zero a lt = refl
  nth-replicate (suc n) (suc m) a lt = nth-replicate n m a (omega arith)

  abbrev front : ℕ → List A → List A
  front zero xs = []
  front (suc n) [] = []
  front (suc n) (x ∷ xs) = x ∷ front n xs

-- The numbers that no system call has.
abbrev pub IsUnassigned : ℕ → Type 0
IsUnassigned n = (n ≡ 0) ⊎ ((16 ≤ n) × (n < 32))

vector_unassigned :
    (rounds n : ℕ) → IsUnassigned n → entry (syscall_vector rounds) (pos n) ≡ some none
vector_unassigned rounds n (inl e) = rw e
vector_unassigned rounds n (inr (ge, lt)) =
    nth-append (front 16 (syscall_vector rounds)) (replicate 16 none) n (n - 16) (omega arith)
    ∙ nth-replicate 16 (n - 16) none (omega arith)

numarg_unassigned : (n : ℕ) → IsUnassigned n → entry syscall_numarg (pos n) ≡ some 0
numarg_unassigned n (inl e) = rw e
numarg_unassigned n (inr (ge, lt)) =
    nth-append (front 16 syscall_numarg) (replicate 16 0) n (n - 16) (omega arith)
    ∙ nth-replicate 16 (n - 16) 0 (omega arith)

unassigned_in_range : (n : ℕ) → IsUnassigned n → is_out_of_range (pos n) ≡ false
unassigned_in_range n h = ground arith

handle_unassigned :
    (rounds n : ℕ) (s : Kernel)
    → IsUnassigned n
    → handle rounds (pos n) s ≡ (set_retvalue Error.not_implemented >> pure returned) s
unfolding handle
handle_unassigned rounds n s h = ground (arith, vector_unassigned rounds n h)

passed_unassigned :
    (n : ℕ) (args : List ℤ) (old : ℕ → ℤ) → IsUnassigned n → passed_args (pos n) args old ≡ some old
unfolding passed_args store_args
passed_unassigned n args old h = rw (numarg_unassigned n h)

-- What the call changes: the caller's number of the system call and the result.
abbrev pub NotServed : Kernel → ℤ → Kernel → Type 0
NotServed k num l =
    let self = k.running_pcb in
    let c = called k (k.pcb_memory self).syscall_args num in
    l ≡ set_pcb self (with_retvalue Error.not_implemented (c.pcb_memory self)) c

unassigned_Returns :
    (k : Kernel) (rounds n : ℕ) (args : List ℤ)
    → k.running_pcb ≢ null
    → IsUnassigned n
    → Returns
        (λ c l. (c ≡ some (next_context l)) × NotServed k (pos n) l)
        (disastr_os_syscall false rounds (pos n) args k)
unassigned_Returns k rounds n args on h =
    let old = (k.pcb_memory k.running_pcb).syscall_args in
    let k' = called k old (pos n) in
    syscall-Returns k rounds (pos n) args old (set_retvalue Error.not_implemented) on
      (unassigned_in_range n h) (passed_unassigned n args old h) (handle_unassigned rounds n k' h)
      (rw (set_retvalue_run k' Error.not_implemented on) (returns refl))

-- `disastrOS_syscall` by a running process, with a number that no handler has, whatever the arguments
-- are. A number below 0 or above `DSOS_MAX_SYSCALLS` is refused at once with no change; 0 and the
-- numbers from 16 up to 31 lead to the trap, which only leaves the result "not implemented" beside
-- the number; `DSOS_MAX_SYSCALLS` itself, though, reads behind the tables.
pub disastr_os_syscall-unknown :
    (k : Kernel) (rounds : ℕ) (num : ℤ) (args : List ℤ)
    → k.running_pcb ≢ null
    → ((num <ℤ pos 0) ⊎ (pos 32 <ℤ num) → disastr_os_syscall false rounds num args k ≡ ok none k)
      × ((n : ℕ)
          → num ≡ pos n
          → IsUnassigned n
          → Returns
              (λ c l. (c ≡ some (next_context l)) × NotServed k num l)
              (disastr_os_syscall false rounds num args k))
      × (num ≡ pos 32 → disastr_os_syscall false rounds num args k ≡ fault)
unfolding disastr_os_syscall make_syscall passed_args
disastr_os_syscall-unknown k rounds num args on = (
  λ out. let e : is_out_of_range num ≡ true = ground arith in rw (current_run k on, e),
  λ n e h.
      subst
        (λ z.
          Returns (λ c l. (c ≡ some (next_context l)) × NotServed k z l)
            (disastr_os_syscall false rounds z args k))
        (sym e) (unassigned_Returns k rounds n args on h),
  λ e. rw (e, current_run k on) (rw (current_run k on)),
)
