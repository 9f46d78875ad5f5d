-- ===== src/Timer/Order.antt =====
-- Lists of timers in the order in which they awake.
use so_oscilloscopio.Base.{
  ◌≡◌, sym, subst, ℤ, ◌≤ℤ◌, ◌<ℤ◌, List, [], ◌∷◌, ◌++◌, arith, ◌∈◌, mem-head, mem-right,
}
use so_oscilloscopio.LinkedList.{Ptr}
use so_oscilloscopio.Kernel.{TimerItem}

-- Every timer of the list awakes at `time` or before it, after it, or at it or after it.
abbrev pub AtMost : (Ptr → TimerItem) → ℤ → List Ptr → Type 0
AtMost m time [] = Unit {0}
AtMost m time (x ∷ xs) = ((m x).awakening_time ≤ℤ time) × AtMost m time xs

abbrev pub Above : (Ptr → TimerItem) → ℤ → List Ptr → Type 0
Above m time [] = Unit {0}
Above m time (x ∷ xs) = (time <ℤ (m x).awakening_time) × Above m time xs

abbrev pub AtLeast : (Ptr → TimerItem) → ℤ → List Ptr → Type 0
AtLeast m time [] = Unit {0}
AtLeast m time (x ∷ xs) = (time ≤ℤ (m x).awakening_time) × AtLeast m time xs

-- The timers stand in the order in which they awake.
abbrev pub Sorted : (Ptr → TimerItem) → List Ptr → Type 0
Sorted m [] = Unit {0}
Sorted m (x ∷ xs) = AtLeast m (m x).awakening_time xs × Sorted m xs

module _ (m : Ptr → TimerItem) (time : ℤ) where
  pub Above-of_AtLeast : (t : ℤ) (xs : List Ptr) → time <ℤ t → AtLeast m t xs → Above m time xs
  Above-of_AtLeast t [] lt h = tt
  Above-of_AtLeast t (x ∷ xs) lt (le, h) = (omega (arith, lt, le), Above-of_AtLeast t xs lt h)

  pub AtLeast-of_Above : (xs : List Ptr) → Above m time xs → AtLeast m time xs
  AtLeast-of_Above [] h = tt
  AtLeast-of_Above (x ∷ xs) (lt, h) = (omega (arith, lt), AtLeast-of_Above xs h)

module _ (m : Ptr → TimerItem) (item : Ptr) where
  pub AtLeast-insert :
      (t : ℤ) (xs ys : List Ptr)
      → AtLeast m t (xs ++ ys)
      → t ≤ℤ (m item).awakening_time
      → AtLeast m t (xs ++ item ∷ ys)
  AtLeast-insert t [] ys h le = (le, h)
  AtLeast-insert t (x ∷ xs) ys (l, h) le = (l, AtLeast-insert t xs ys h le)

  pub Sorted-insert :
      (xs ys : List Ptr)
      → Sorted m (xs ++ ys)
      → AtMost m (m item).awakening_time xs
      → AtLeast m (m item).awakening_time ys
      → Sorted m (xs ++ item ∷ ys)
  Sorted-insert [] ys s below above = (above, s)
  Sorted-insert (x ∷ xs) ys (least, s) (le, below) above =
      (AtLeast-insert (m x).awakening_time xs ys least le, Sorted-insert xs ys s below above)

module _ (m n : Ptr → TimerItem) where
  pub AtMost-frame :
      (t : ℤ) (xs : List Ptr) → ((p : Ptr) → p ∈ xs → n p ≡ m p) → AtMost m t xs → AtMost n t xs
  AtMost-frame t [] same h = tt
  AtMost-frame t (x ∷ xs) same (le, h) = (
    subst (λ (v : TimerItem). v.awakening_time ≤ℤ t) (sym (same x (mem-head x xs))) le,
    AtMost-frame t xs (λ p i. same p (mem-right p (x ∷ []) xs i)) h,
  )

  pub Above-frame :
      (t : ℤ) (xs : List Ptr) → ((p : Ptr) → p ∈ xs → n p ≡ m p) → Above m t xs → Above n t xs
  Above-frame t [] same h = tt
  Above-frame t (x ∷ xs) same (le, h) = (
    subst (λ (v : TimerItem). t <ℤ v.awakening_time) (sym (same x (mem-head x xs))) le,
    Above-frame t xs (λ p i. same p (mem-right p (x ∷ []) xs i)) h,
  )

  pub AtLeast-frame :
      (t : ℤ) (xs : List Ptr) → ((p : Ptr) → p ∈ xs → n p ≡ m p) → AtLeast m t xs → AtLeast n t xs
  AtLeast-frame t [] same h = tt
  AtLeast-frame t (x ∷ xs) same (le, h) = (
    subst (λ (v : TimerItem). t ≤ℤ v.awakening_time) (sym (same x (mem-head x xs))) le,
    AtLeast-frame t xs (λ p i. same p (mem-right p (x ∷ []) xs i)) h,
  )

  pub Sorted-frame : (xs : List Ptr) → ((p : Ptr) → p ∈ xs → n p ≡ m p) → Sorted m xs → Sorted n xs
  Sorted-frame [] same h = tt
  Sorted-frame (x ∷ xs) same (least, h) =
      let behind = λ (p : Ptr) (i : p ∈ xs). same p (mem-right p (x ∷ []) xs i) in
      (
        subst (λ (v : TimerItem). AtLeast n v.awakening_time xs) (sym (same x (mem-head x xs)))
            (AtLeast-frame (m x).awakening_time xs behind least),
        Sorted-frame xs behind h,
      )
