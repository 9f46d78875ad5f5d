-- ===== src/PoolAllocator/Free.antt =====
-- The free list of a pool: the indices that the links run through.
use so_oscilloscopio.Base.{
  ℕ, zero, suc, ◌*◌, ◌^◌, ◌<◌, ◌≡◌, refl, sym, ap, subst, ◌≢◌, Bool-cases, inl, inr, ◌==◌, ℤ, pos,
  List, [], ◌∷◌, arith, ◌∈◌, ◌∉◌, Distinct, length, length-set, get_or, set,
}
use so_oscilloscopio.PoolAllocator.{PoolAllocator, null_idx, detached_idx}

-- From the index `start` the links run through the blocks `xs` and end.
abbrev pub Linked : List ℤ → ℤ → List ℕ → Type 0
Linked l start [] = start ≡ null_idx
Linked l start (x ∷ xs) = (start ≡ pos x) × (x < length l) × Linked l (get_or l x null_idx) xs

-- The blocks `free` are free, in the order in which they are handed out; all others are detached.
pub record IsPool (a : PoolAllocator) (free : List ℕ) : Type 0 where
  pub links : Linked a.free_list a.first_idx free
  pub distinct : Distinct free
  pub detached : (i : ℕ) → i < a.size_max → i ∉ free → get_or a.free_list i null_idx ≡ detached_idx
  pub cells : length a.free_list ≡ a.size_max
  pub count : a.size ≡ pos (length free)
  pub placed : 0 < a.buffer
  pub nonempty : 0 < a.item_size
  pub fits : a.size_max * a.item_size < 2 ^ 31

-- What no operation on a pool changes.
pub record SameLayout (a b : PoolAllocator) : Type 0 where
  pub buffer : b.buffer ≡ a.buffer
  pub item_size : b.item_size ≡ a.item_size
  pub size_max : b.size_max ≡ a.size_max

module _ {ℓ} {A : Type ℓ} where
  pub get_or-set_self : (l : List A) (i : ℕ) (v d : A) → i < length l → get_or (set l i v) i d ≡ v
  get_or-set_self [] i v d h = absurd (omega arith)
  get_or-set_self (x ∷ l) zero v d h = refl
  get_or-set_self (x ∷ l) (suc i) v d h = get_or-set_self l i v d (omega arith)

  pub get_or-set_ne :
      (l : List A) (i j : ℕ) (v d : A) → i ≢ j → get_or (set l i v) j d ≡ get_or l j d
  get_or-set_ne [] i j v d h = refl
  get_or-set_ne (x ∷ l) zero zero v d h = absurd (h refl)
  get_or-set_ne (x ∷ l) zero (suc j) v d h = refl
  get_or-set_ne (x ∷ l) (suc i) zero v d h = refl
  get_or-set_ne (x ∷ l) (suc i) (suc j) v d h = get_or-set_ne l i j v d λ e. h (ap suc e)

  pub set-set : (l : List A) (i : ℕ) (v w : A) → set (set l i v) i w ≡ set l i w
  set-set [] i v w = refl
  set-set (x ∷ l) zero v w = refl
  set-set (x ∷ l) (suc i) v w = ap (◌∷◌ x) (set-set l i v w)

  pub set-get_or : (l : List A) (i : ℕ) (d : A) → set l i (get_or l i d) ≡ l
  set-get_or [] i d = refl
  set-get_or (x ∷ l) zero d = refl
  set-get_or (x ∷ l) (suc i) d = ap (◌∷◌ x) (set-get_or l i d)

-- A write outside the free blocks leaves their links.
pub Linked-set :
    (l : List ℤ) (i : ℕ) (v start : ℤ) (xs : List ℕ)
    → i ∉ xs
    → Linked l start xs
    → Linked (set l i v) start xs
Linked-set l i v start [] out k = k
Linked-set l i v start (x ∷ xs) out (e, r, k) =
    let inner = Linked-set l i v (get_or l x null_idx) xs (ground arith) k in
    let kept = get_or-set_ne l i x v null_idx (ground arith) in
    (e, omega (arith, length-set l i v), subst (λ s. Linked (set l i v) s xs) (sym kept) inner)

-- The link of a free block is not the mark of a detached one.
pub Linked-attached :
    (l : List ℤ) (start : ℤ) (xs : List ℕ) (i : ℕ)
    → Linked l start xs
    → i ∈ xs
    → (get_or l i null_idx ≢ detached_idx) × (i < length l)
Linked-attached l start [] i k m = cc
Linked-attached l start (x ∷ []) i k m = ground arith
Linked-attached l start (x ∷ y ∷ xs) i (e, lt, k) m = elim (Bool-cases (i == x)) [
  | inl hit ↦ ground arith
  | inr miss ↦ Linked-attached l _ (y ∷ xs) i k (ground arith)
]
