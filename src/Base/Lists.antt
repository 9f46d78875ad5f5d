-- ===== src/Base/Lists.antt =====
-- Sequences of pointers: membership, distinctness, removal, and the ends of a sequence.
use Prim.Native.Nat.{ℕ, zero, suc, ◌+◌}
use mathlib.Core.Path.{◌≡◌, refl, ap}
use mathlib.Core.Logic.{◌≢◌, inl, inr}
use mathlib.Core.Bool.{Bool, true, false, ◌||◌}
use mathlib.Core.List.{List, [], ◌∷◌, ◌++◌}
use native.Mathlib.Omega.{arith}
use so_oscilloscopio.Base.Tests.{◌==◌, if◌then◌else◌, Bool-cases}

module _ {ℓ} {A : Type ℓ} where
  abbrev pub length : List A → ℕ
  length [] = 0
  length (x ∷ xs) = suc (length xs)

  pub length-append : (xs ys : List A) → length (xs ++ ys) ≡ length xs + length ys
  length-append [] ys = omega arith
  length-append (x ∷ xs) ys = omega (arith, length-append xs ys)

  abbrev pub get_or : List A → ℕ → A → A
  get_or [] i d = d
  get_or (x ∷ xs) zero d = x
  get_or (x ∷ xs) (suc i) d = get_or xs i d

  abbrev pub set : List A → ℕ → A → List A
  set [] i v = []
  set (x ∷ xs) zero v = v ∷ xs
  set (x ∷ xs) (suc i) v = x ∷ set xs i v

  pub length-set : (xs : List A) (i : ℕ) (v : A) → length (set xs i v) ≡ length xs
  length-set [] i v = refl
  length-set (x ∷ xs) zero v = refl
  length-set (x ∷ xs) (suc i) v = ap suc (length-set xs i v)

  -- The first element of a sequence, and the last, or the default.
  abbrev pub first_or : A → List A → A
  first_or d [] = d
  first_or d (x ∷ xs) = x

  abbrev pub last_or : A → List A → A
  last_or d [] = d
  last_or d (x ∷ xs) = last_or x xs

  pub first_or-append :
      (d : A) (xs ys : List A) → first_or d (xs ++ ys) ≡ first_or (first_or d ys) xs
  first_or-append d [] ys = refl
  first_or-append d (x ∷ xs) ys = refl

  pub last_or-append : (d : A) (xs ys : List A) → last_or d (xs ++ ys) ≡ last_or (last_or d xs) ys
  last_or-append d [] ys = refl
  last_or-append d (x ∷ xs) ys = last_or-append x xs ys

abbrev pub mem : ℕ → List ℕ → Bool
mem a [] = false
mem a (x ∷ xs) = (a == x) || mem a xs

infix 40 ◌∈◌ ◌∉◌
abbrev pub ◌∈◌ : ℕ → List ℕ → Type 0
a ∈ xs = mem a xs ≡ true

abbrev pub ◌∉◌ : ℕ → List ℕ → Type 0
a ∉ xs = mem a xs ≡ false

abbrev pub Distinct : List ℕ → Type 0
Distinct [] = Unit {0}
Distinct (x ∷ xs) = (x ∉ xs) × Distinct xs

pub last_or-mem : (x : ℕ) (xs : List ℕ) → last_or x xs ∈ x ∷ xs
last_or-mem x [] = ground arith
last_or-mem x (y ∷ xs) = ground (arith, last_or-mem y xs)

pub mem-head : (x : ℕ) (xs : List ℕ) → x ∈ x ∷ xs
mem-head x xs = ground arith

pub ne_of_mem : (a b : ℕ) (xs : List ℕ) → a ∉ xs → b ∈ xs → a ≢ b
ne_of_mem a b xs out i e = cc

pub last_or-mem_of_ne : (d : ℕ) (xs : List ℕ) → last_or d xs ≢ d → last_or d xs ∈ xs
last_or-mem_of_ne d [] ne = absurd (ne refl)
last_or-mem_of_ne d (x ∷ xs) ne = last_or-mem x xs

pub first_or-mem_of_ne : (d : ℕ) (xs : List ℕ) → first_or d xs ≢ d → first_or d xs ∈ xs
first_or-mem_of_ne d [] ne = absurd (ne refl)
first_or-mem_of_ne d (x ∷ xs) ne = mem-head x xs

-- Drops the first occurrence.
unfoldable pub erase : ℕ → List ℕ → List ℕ
erase a [] = []
erase a (x ∷ xs) = if a == x then xs else x ∷ erase a xs

pub mem-append : (a : ℕ) (xs ys : List ℕ) → mem a (xs ++ ys) ≡ (mem a xs || mem a ys)
mem-append a [] ys = refl
mem-append a (x ∷ xs) ys = ground (arith, mem-append a xs ys)

pub Distinct-append-left : (xs ys : List ℕ) → Distinct (xs ++ ys) → Distinct xs
Distinct-append-left [] ys d = tt
Distinct-append-left (x ∷ xs) ys d =
    (ground (arith, mem-append x xs ys), Distinct-append-left xs ys d.1)

pub Distinct-append-right : (xs ys : List ℕ) → Distinct (xs ++ ys) → Distinct ys
Distinct-append-right [] ys d = d
Distinct-append-right (x ∷ xs) ys d = Distinct-append-right xs ys d.1

-- Two parts of a distinct sequence share nothing.
pub Distinct-apart : (a : ℕ) (xs ys : List ℕ) → Distinct (xs ++ ys) → a ∈ xs → a ∉ ys
Distinct-apart a [] ys d i = absurd (ground arith)
Distinct-apart a (x ∷ xs) ys d i = ground (arith, mem-append x xs ys, Distinct-apart a xs ys d.1)

pub Distinct-append :
    (xs ys : List ℕ) → Distinct xs → Distinct ys → ((a : ℕ) → a ∈ xs → a ∉ ys) → Distinct (xs ++ ys)
Distinct-append [] ys dx dy apart = dy
Distinct-append (x ∷ xs) ys dx dy apart = (
  rw (mem-append x xs ys) (ground (arith, apart x)),
  Distinct-append xs ys dx.1 dy λ a i. apart a (ground arith),
)

pub Distinct-insert :
    (a : ℕ) (xs ys : List ℕ) → Distinct (xs ++ ys) → a ∉ xs ++ ys → Distinct (xs ++ a ∷ ys)
Distinct-insert a [] ys d out = (out, d)
Distinct-insert a (x ∷ xs) ys d out = (
  rw (mem-append x xs (a ∷ ys)) (ground (arith, mem-append x xs ys)),
  Distinct-insert a xs ys d.1 (ground arith),
)

pub Distinct-remove :
    (a : ℕ) (xs ys : List ℕ) → Distinct (xs ++ a ∷ ys) → Distinct (xs ++ ys) × (a ∉ xs ++ ys)
Distinct-remove a [] ys d = (d.1, d.0)
Distinct-remove a (x ∷ xs) ys d =
    let (rest, out) = Distinct-remove a xs ys d.1 in
    (
      (ground (arith, mem-append x xs ys, mem-append x xs (a ∷ ys)), rest),
      ground (arith, mem-append x xs (a ∷ ys)),
    )

pub erase-middle : (a : ℕ) (xs ys : List ℕ) → a ∉ xs → erase a (xs ++ a ∷ ys) ≡ xs ++ ys
unfolding erase
erase-middle a [] ys out = ground arith
erase-middle a (x ∷ xs) ys out = ground (arith, erase-middle a xs ys)

pub mem-erase :
    (b a : ℕ) (xs : List ℕ)
    → Distinct xs
    → mem b (erase a xs) ≡ (if b == a then false else mem b xs)
unfolding erase
mem-erase b a [] d = ground arith
mem-erase b a (x ∷ xs) d = ground (arith, mem-erase b a xs d.1)

pub Distinct-erase : (a : ℕ) (xs : List ℕ) → Distinct xs → Distinct (erase a xs)
unfolding erase
Distinct-erase a [] d = tt
Distinct-erase a (x ∷ xs) d = ground (arith, mem-erase x a xs d.1, Distinct-erase a xs d.1)

-- An element splits the sequence at its first occurrence.
pub mem-split :
    (a : ℕ) (xs : List ℕ) → a ∈ xs → (ys : List ℕ) × (zs : List ℕ) × (xs ≡ ys ++ a ∷ zs) × (a ∉ ys)
mem-split a [] i = cc
mem-split a (x ∷ xs) i = elim (Bool-cases (a == x)) [
  | inl hit ↦ ([], xs, ground arith, refl)
  | inr miss ↦
      let (ys, zs, eq, out) = mem-split a xs (ground arith) in
      (x ∷ ys, zs, ap (◌∷◌ x) eq, ground arith)
]

pub not-mem_of_subset : (a : ℕ) (xs ys : List ℕ) → ((b : ℕ) → b ∈ xs → b ∈ ys) → a ∉ ys → a ∉ xs
not-mem_of_subset a xs ys sub out = elim (Bool-cases (mem a xs)) [
  | inl i ↦ let j = sub a i in cc
  | inr o ↦ o
]

pub mem-left : (a : ℕ) (xs ys : List ℕ) → a ∈ xs → a ∈ xs ++ ys
mem-left a xs ys i = ground (arith, mem-append a xs ys)

pub mem-right : (a : ℕ) (xs ys : List ℕ) → a ∈ ys → a ∈ xs ++ ys
mem-right a xs ys i = ground (arith, mem-append a xs ys)
