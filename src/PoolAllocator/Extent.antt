-- ===== src/PoolAllocator/Extent.antt =====
-- Where the blocks of a pool lie in its buffer.
use native.Mathlib.Nat.{mul-le-mul_right}
use so_oscilloscopio.Base.{
  ℕ, suc, ◌+◌, ◌*◌, ◌<◌, ◌≤◌, ◌≡◌, sym, subst, ◌≢◌, ◌⊎◌, inl, inr, List, [], ◌∷◌, arith, ◌∈◌,
  Bool-cases, leb,
}
use so_oscilloscopio.Run.{ok}
use so_oscilloscopio.PoolAllocator.{PoolAllocator, address, get_block}
use so_oscilloscopio.PoolAllocator.Free.{IsPool}
use so_oscilloscopio.PoolAllocator.Get.{taken, get_block-taken, first_lt, get_block-nil}
use so_oscilloscopio.PoolAllocator.Live.{IsBlock, Holds}

-- The block at `p` lies inside the pool's buffer, and shares nothing with the one at `q`.
pub record IsInside (a : PoolAllocator) (p : ℕ) : Type 0 where
  pub above : a.buffer ≤ p
  pub below : p + a.item_size ≤ a.buffer + a.size_max * a.item_size

abbrev pub Apart : PoolAllocator → ℕ → ℕ → Type 0
Apart a p q = (p + a.item_size ≤ q) ⊎ (q + a.item_size ≤ p)

module _ (a : PoolAllocator) where
  address-IsInside : (i : ℕ) → i < a.size_max → IsInside a (address a i)
  address-IsInside i lt =
      let fits : suc i * a.item_size ≤ a.size_max * a.item_size = mul-le-mul_right a.item_size lt in
      record { above = omega arith; below = omega (arith, fits) }

  address-Apart : (i j : ℕ) → i ≢ j → Apart a (address a i) (address a j)
  address-Apart i j ne = elim (Bool-cases (leb (suc i) j)) [
    | inl before ↦
        let fits : suc i * a.item_size ≤ j * a.item_size =
          mul-le-mul_right a.item_size (ground arith) in
        inl (omega (arith, fits))
    | inr behind ↦
        let fits : suc j * a.item_size ≤ i * a.item_size =
          mul-le-mul_right a.item_size (ground arith) in
        inr (omega (arith, fits))
  ]

  pub IsBlock-IsInside : (free : List ℕ) (p : ℕ) → IsBlock a free p → IsInside a p
  IsBlock-IsInside free p block =
      subst (IsInside a) (sym block.place) (address-IsInside block.index block.bound)

-- `PoolAllocator_getBlock` on a pool with the live blocks `live` returns null, or the address of a
-- block that lies with all of its bytes inside the pool's buffer and shares none with a live block;
-- the live blocks lie inside the buffer too.
pub get_block-IsInside :
    (a : PoolAllocator) (live : List ℕ)
    → Holds a live
    → ((get_block a ≡ ok 0 a)
        ⊎ ((p : ℕ) × (b : PoolAllocator) × (get_block a ≡ ok p b)
            × IsInside a p
            × ((q : ℕ) → q ∈ live → Apart a p q)))
      × ((q : ℕ) → q ∈ live → IsInside a q)
get_block-IsInside a live h =
    (go h.free h.pool h.blocks, λ q i. IsBlock-IsInside a h.free q (h.blocks q i))
  where
    go :
        (free : List ℕ)
        → IsPool a free
        → ((q : ℕ) → q ∈ live → IsBlock a free q)
        → (get_block a ≡ ok 0 a)
          ⊎ ((p : ℕ) × (b : PoolAllocator) × (get_block a ≡ ok p b)
              × IsInside a p
              × ((q : ℕ) → q ∈ live → Apart a p q))
    go [] pool blocks = inl (get_block-nil a pool)
    go (x ∷ xs) pool blocks = inr (
      address a x,
      taken a x,
      get_block-taken a x xs pool,
      address-IsInside a x (first_lt a x xs pool),
      λ q i.
          let block = blocks q i in
          let used = block.used in
          subst (Apart a (address a x)) (sym block.place)
            (address-Apart a x block.index (ground arith)),
    )
