-- ===== src/LinkedList/Chain.antt =====
-- What a list head stands for: the sequence of the items' addresses, linked both ways.
use so_oscilloscopio.Base.{
  ◌≡◌, sym, ap, ◌∙◌, ◌≢◌, pos, Bool-cases, inl, inr, ◌==◌, List, [], ◌∷◌, ◌++◌, arith, ◌∈◌, ◌∉◌,
  Distinct, first_or, last_or, length, last_or-mem, mem-head, ne_of_mem, first_or-append,
}
use so_oscilloscopio.LinkedList.{Ptr, null, Memory, ListHead}

-- The items `xs` are linked in order, between the items `before` and `after`.
abbrev pub Chain : Memory → Ptr → List Ptr → Ptr → Type 0
Chain m before [] after = Unit {0}
Chain m before (x ∷ xs) after =
    (x ≢ null) × ((m x).prev ≡ before) × ((m x).next ≡ first_or after xs) × Chain m x xs after

pub record IsList (m : Memory) (head : ListHead) (xs : List Ptr) : Type 0 where
  pub chain : Chain m null xs null
  pub distinct : Distinct xs
  pub first : head.first ≡ first_or null xs
  pub last : head.last ≡ last_or null xs
  pub size : head.size ≡ pos (length xs)

-- The memories agree except at the items of `xs`.
abbrev pub SameOutside : List Ptr → Memory → Memory → Type 0
SameOutside xs m n = (a : Ptr) → a ∉ xs → n a ≡ m a

module _ (m n : Memory) where
  pub Chain-frame :
      (before : Ptr) (xs : List Ptr) (after : Ptr)
      → Chain m before xs after
      → ((a : Ptr) → a ∈ xs → n a ≡ m a)
      → Chain n before xs after
  Chain-frame before [] after c same = tt
  Chain-frame before (x ∷ xs) after (ne, p, q, c) same = (
    ne,
    ground (arith, same x),
    ground (arith, same x),
    Chain-frame x xs after c λ a i. same a (ground arith),
  )

  -- The chain ends at `after'` once its last item, and no other, has `after'` as its successor.
  pub Chain-relink_last :
      (before : Ptr) (xs : List Ptr) (after after' : Ptr)
      → Chain m before xs after
      → Distinct xs
      → ((a : Ptr) → a ∈ xs → a ≢ last_or before xs → n a ≡ m a)
      → ((a : Ptr)
          → a ∈ xs
          → a ≡ last_or before xs
          → ((n a).prev ≡ (m a).prev) × ((n a).next ≡ after'))
      → Chain n before xs after'
  Chain-relink_last before [] after after' c d same end = tt
  Chain-relink_last before (x ∷ []) after after' (ne, p, q, c) d same end =
      (ne, ground (arith, end x), ground (arith, end x), tt)
  Chain-relink_last before (x ∷ y ∷ xs) after after' (ne, p, q, c) d same end =
      let inner = ne_of_mem x (last_or y xs) (y ∷ xs) d.0 (last_or-mem y xs) in
      let kept : n x ≡ m x = same x (mem-head x (y ∷ xs)) inner in
      (
        ne,
        ap (λ c. c.prev) kept ∙ p,
        ap (λ c. c.next) kept ∙ q,
        Chain-relink_last x (y ∷ xs) after after' c d.1 (λ a i. same a (ground arith))
            (λ a i. end a (ground arith)),
      )

  pub Chain-relink_first :
      (before before' : Ptr) (xs : List Ptr) (after : Ptr)
      → Chain m before xs after
      → Distinct xs
      → ((a : Ptr) → a ∈ xs → a ≢ first_or after xs → n a ≡ m a)
      → ((a : Ptr)
          → a ∈ xs
          → a ≡ first_or after xs
          → ((n a).prev ≡ before') × ((n a).next ≡ (m a).next))
      → Chain n before' xs after
  Chain-relink_first before before' [] after c d same start = tt
  Chain-relink_first before before' (x ∷ xs) after (ne, p, q, c) d same start = (
    ne,
    ground (arith, start x),
    ground (arith, start x),
    Chain-frame x xs after c λ a i. same a (ground arith) (ground arith),
  )

module _ (m : Memory) where
  pub Chain-split :
      (before : Ptr) (xs ys : List Ptr) (after : Ptr)
      → Chain m before (xs ++ ys) after
      → Chain m before xs (first_or after ys) × Chain m (last_or before xs) ys after
  Chain-split before [] ys after c = (tt, c)
  Chain-split before (x ∷ xs) ys after (ne, p, q, c) =
      let (l, r) = Chain-split x xs ys after c in ((ne, p, q ∙ first_or-append after xs ys, l), r)

  pub Chain-join :
      (before : Ptr) (xs ys : List Ptr) (after : Ptr)
      → Chain m before xs (first_or after ys)
      → Chain m (last_or before xs) ys after
      → Chain m before (xs ++ ys) after
  Chain-join before [] ys after c d = d
  Chain-join before (x ∷ xs) ys after (ne, p, q, c) d =
      (ne, p, q ∙ sym (first_or-append after xs ys), Chain-join x xs ys after c d)

  pub Chain-ne_null :
      (before : Ptr) (xs : List Ptr) (after a : Ptr) → Chain m before xs after → a ∈ xs → a ≢ null
  Chain-ne_null before [] after a c i = cc
  Chain-ne_null before (x ∷ xs) after a (ne, p, q, c) i = elim (Bool-cases (a == x)) [
    | inl hit ↦ ground arith
    | inr miss ↦ Chain-ne_null x xs after a c (ground arith)
  ]

  -- The successor of the last item.
  pub Chain-next_last :
      (before : Ptr) (x : Ptr) (xs : List Ptr) (after : Ptr)
      → Chain m before (x ∷ xs) after
      → (m (last_or x xs)).next ≡ after
  Chain-next_last before x [] after (ne, p, q, c) = q
  Chain-next_last before x (y ∷ xs) after (ne, p, q, c) = Chain-next_last x y xs after c
