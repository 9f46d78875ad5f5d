-- ===== src/Syscall/Exit/Same.antt =====
-- Control blocks of the same process in the same state, for the loop of `internal_exit`.
use so_oscilloscopio.Base.{◌≡◌, refl, sym, subst, ◌∙◌, arith, ◌==◌, Bool-cases, inl, inr}
use so_oscilloscopio.LinkedList.{Ptr}
use so_oscilloscopio.Kernel.{Pcb, update}

-- The fields of a control block that the loop leaves as they are.
pub record SameProcess (v w : Pcb) : Type 0 where
  pub pid : w.pid ≡ v.pid
  pub status : w.status ≡ v.status
  pub return_value : w.return_value ≡ v.return_value
  pub syscall_num : w.syscall_num ≡ v.syscall_num
  pub syscall_args : w.syscall_args ≡ v.syscall_args

pub SameProcess-refl : (v : Pcb) → SameProcess v v
SameProcess-refl v = record {
  pid = refl;
  status = refl;
  return_value = refl;
  syscall_num = refl;
  syscall_args = refl;
}

pub SameProcess-trans : (u v w : Pcb) → SameProcess u v → SameProcess v w → SameProcess u w
SameProcess-trans u v w a b = record {
  pid = b.pid ∙ a.pid;
  status = b.status ∙ a.status;
  return_value = b.return_value ∙ a.return_value;
  syscall_num = b.syscall_num ∙ a.syscall_num;
  syscall_args = b.syscall_args ∙ a.syscall_args;
}

pub SameProcess-update :
    (m : Ptr → Pcb) (p : Ptr) (v : Pcb) (q : Ptr)
    → SameProcess (m p) v
    → SameProcess (m q) (update m p v q)
SameProcess-update m p v q same = elim (Bool-cases (q == p)) [
  | inl hit ↦
      rw hit (let at : q ≡ p = ground arith in subst (λ r. SameProcess (m r) v) (sym at) same)
  | inr miss ↦ rw miss (SameProcess-refl (m q))
]
