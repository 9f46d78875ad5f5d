-- ===== src/Run.antt =====
-- Runs of C code over a state: a value and the final state, a fault (a null pointer dereferenced, a
-- failed `assert`), or no answer within the rounds that a loop is given.
pub mod Returns
use so_oscilloscopio.Base.{ℕ, Bool, true, false}

pub data Run (S A : Type 0) : Type 0 where
  ok : A → S → Run S A
  fault : Run S A
  out_of_fuel : Run S A

abbrev pub Cmd : Type 0 → Type 0 → Type 0
Cmd S A = S → Run S A

module _ {S : Type 0} where
  abbrev pub pure : {A : Type 0} → A → Cmd S A
  pure a s = ok a s

  abbrev pub crash : {A : Type 0} → Cmd S A
  crash s = fault

  -- The state, and a change of it.
  abbrev pub get : Cmd S S
  get s = ok s s

  abbrev pub modify : (S → S) → Cmd S (Unit {0})
  modify f s = ok tt (f s)

  -- `assert(b)`.
  abbrev pub check : Bool → Cmd S (Unit {0})
  check true s = ok tt s
  check false s = fault

module _ {S A B : Type 0} where
  abbrev pub and_then : Run S A → (A → Cmd S B) → Run S B
  and_then (ok a s) k = k a s
  and_then fault k = fault
  and_then out_of_fuel k = out_of_fuel

  infixl 5 ◌>>=◌ ◌>>◌
  abbrev pub ◌>>=◌ : Cmd S A → (A → Cmd S B) → Cmd S B
  m >>= k = λ s. and_then (m s) k

  abbrev pub ◌>>◌ : Cmd S A → Cmd S B → Cmd S B
  m >> n = m >>= λ _. n
