-- ===== src/Run/Returns.antt =====
-- Total correctness: a run ends with a value, and a postcondition holds of it and the final state.
use so_oscilloscopio.Base.{◌≡◌, refl}
use so_oscilloscopio.Run.{Run, ok, Cmd, and_then}

pub data Returns {S A : Type 0} (P : A → S → Type 0) : Run S A → Type 0 where
  returns : {a : A} {s : S} → P a s → Returns P (ok a s)

module _ {S A : Type 0} {P : A → S → Type 0} where
  pub bind :
      {B : Type 0} {Q : B → S → Type 0} {r : Run S A} {k : A → Cmd S B}
      → Returns P r
      → ((a : A) (s : S) → P a s → Returns Q (k a s))
      → Returns Q (and_then r k)
  bind (returns p) rest = rest _ _ p

  pub weaken :
      {Q : A → S → Type 0} {r : Run S A}
      → Returns P r
      → ((a : A) (s : S) → P a s → Q a s)
      → Returns Q r
  weaken (returns p) imp = returns (imp _ _ p)

  -- The value and the state of a run that returns.
  pub result : {r : Run S A} → Returns P r → (a : A) × (s : S) × (r ≡ ok a s) × P a s
  result (returns p) = (_, _, refl, p)

pub both :
    {S A : Type 0} {P Q : A → S → Type 0} {r : Run S A}
    → Returns P r
    → Returns Q r
    → Returns (λ a s. P a s × Q a s) r
both (returns p) (returns q) = returns (p, q)
