-- ===== src/PoolAllocator/Release.antt =====
-- `PoolAllocator_releaseBlock`.
use native.Mathlib.Nat.{mul-mod_left, mul-div_cancel}
use so_oscilloscopio.Base.{
  if◌then◌else◌, ◌==◌, Bool-cases, inl, inr, not, leb, mem, ◌/◌, ℕ, ◌+◌, ◌*◌, ◌%◌, ◌^◌, ◌≤◌, ◌<◌,
  ◌≡◌, refl, sym, ap, ◌∙◌, ◌≢◌, pos, ◌-ℤ◌, ◌+ℤ◌, pos_succ, pos_pred, List, ◌∷◌, arith, ◌∈◌, ◌∉◌,
  length, length-set, get_or, set, subst, to_int-of_IsInt,
}
use so_oscilloscopio.Run.{ok}
use so_oscilloscopio.Run.Returns.{Returns, returns}
use so_oscilloscopio.PoolAllocator.{
  PoolAllocator, success, unaligned_free, out_of_range, double_free, null_idx, detached_idx,
  address, get_block, offset, release_index, release_block,
}
use so_oscilloscopio.PoolAllocator.Free.{
  Linked, IsPool, SameLayout, get_or-set_self, get_or-set_ne, Linked-set, Linked-attached, set-set,
  set-get_or,
}
use so_oscilloscopio.PoolAllocator.Get.{taken, get_block-taken, first_lt, taken-IsPool}

offset-address :
    (a : PoolAllocator) (xs : List ℕ) (n : ℕ)
    → IsPool a xs
    → n < 2 ^ 31
    → offset a (a.buffer + n) ≡ pos n
unfolding offset
offset-address a xs n pool lt =
    let e : pos (a.buffer + n) -ℤ pos a.buffer ≡ pos n = ground arith in
    rw e (to_int-of_IsInt (pos n) (omega arith, omega arith))

-- The pool after block `i` is put in front of its free list.
unfoldable pub given : PoolAllocator → ℕ → PoolAllocator
given a i = record a {
  free_list = set a.free_list i a.first_idx;
  first_idx = pos i;
  size = a.size +ℤ pos 1;
}

module _ (a : PoolAllocator) (xs : List ℕ) (pool : IsPool a xs) where
  -- A pointer into the buffer that is no multiple of the block size from its start is refused.
  pub release_block-unaligned :
      (n : ℕ)
      → n < 2 ^ 31
      → n % a.item_size ≢ 0
      → release_block (a.buffer + n) a ≡ ok unaligned_free a
  unfolding release_block
  release_block-unaligned n lt off =
      rw (offset-address a xs n pool lt) (ground (arith, pool.nonempty))

  module _ (i : ℕ) (lt : i < a.size_max) where
    below : i * a.item_size < 2 ^ 31
    below = grind (arith, pool.fits)

    to_index : release_block (address a i) a ≡ release_index (pos i) a
    unfolding release_block
    to_index =
        rw
          (
            offset-address a xs (i * a.item_size) pool below,
            mul-mod_left i a.item_size,
            mul-div_cancel i pool.nonempty,
          )
          (ground (arith, pool.nonempty))

    -- A block that is free already is refused, and nothing changes.
    pub release_block-double : i ∈ xs → release_block (address a i) a ≡ ok double_free a
    unfolding release_index
    release_block-double free =
        let (ne, lt') = Linked-attached a.free_list a.first_idx xs i pool.links free in
        rw to_index (ground arith)

    pub release_block-given : i ∉ xs → release_block (address a i) a ≡ ok success (given a i)
    unfolding release_index given
    release_block-given out =
        let e = pool.detached i lt out in rw to_index (ground (arith, pool.cells))

    pub given-IsPool : i ∉ xs → IsPool (given a i) (i ∷ xs)
    unfolding given
    given-IsPool out =
        let within : i < length a.free_list = omega (arith, pool.cells) in
        let at = get_or-set_self a.free_list i a.first_idx null_idx within in
        record {
          links = (
            refl,
            omega (arith, length-set a.free_list i a.first_idx),
            subst (λ s. Linked (set a.free_list i a.first_idx) s xs) (sym at)
                (Linked-set a.free_list i a.first_idx a.first_idx xs out pool.links),
          );
          distinct = (out, pool.distinct);
          detached = λ j lt' out'.
              get_or-set_ne a.free_list i j a.first_idx null_idx (ground arith)
              ∙ pool.detached j lt' (ground arith);
          cells = length-set a.free_list i a.first_idx ∙ pool.cells;
          count = rw pool.count (pos_succ (length xs));
          placed = pool.placed;
          nonempty = pool.nonempty;
          fits = pool.fits;
        }

  -- An aligned pointer behind the last block is out of range.
  pub release_block-beyond :
      (i : ℕ)
      → a.size_max ≤ i
      → i * a.item_size < 2 ^ 31
      → release_block (address a i) a ≡ ok out_of_range a
  unfolding release_block release_index
  release_block-beyond i ge lt =
      rw
        (
          offset-address a xs (i * a.item_size) pool lt,
          mul-mod_left i a.item_size,
          mul-div_cancel i pool.nonempty,
        )
        (ground (arith, pool.nonempty))

-- A detached block is taken back: it becomes the first free block.
pub release_block-cons :
    (a : PoolAllocator) (xs : List ℕ) (i : ℕ)
    → IsPool a xs
    → i < a.size_max
    → i ∉ xs
    → Returns
        (λ r b. (r ≡ success) × IsPool b (i ∷ xs) × SameLayout a b)
        (release_block (address a i) a)
unfolding given
release_block-cons a xs i pool lt out = rw (release_block-given a xs pool i lt out) (
    returns (
      refl,
      given-IsPool a xs pool i lt out,
      record { buffer = refl; item_size = refl; size_max = refl },
    ))

given-taken :
    (a : PoolAllocator) (x : ℕ) (xs : List ℕ) → IsPool a (x ∷ xs) → given (taken a x) x ≡ a
unfolding given taken
given-taken a x xs pool =
    let cells =
      set-set a.free_list x detached_idx (get_or a.free_list x null_idx)
      ∙ set-get_or a.free_list x null_idx in
    let count : (a.size -ℤ pos 1) +ℤ pos 1 ≡ a.size =
      rw (pool.count, pos_pred (length xs)) (pos_succ (length xs)) in
    λ i. record a { free_list = cells i; first_idx = sym pool.links.0 i; size = count i }

-- In a well-formed pool with a free block, releasing the block that `PoolAllocator_getBlock` returns
-- restores the pool exactly.
pub release_block-get_block :
    (a : PoolAllocator) (x : ℕ) (xs : List ℕ)
    → IsPool a (x ∷ xs)
    → Returns (λ p b. release_block p b ≡ ok success a) (get_block a)
unfolding taken
release_block-get_block a x xs pool = rw (get_block-taken a x xs pool) (
    returns (
      release_block-given (taken a x) xs (taken-IsPool a x xs pool) x (first_lt a x xs pool)
        pool.distinct.0
      ∙ ap (λ b. ok success b) (given-taken a x xs pool)))

release_index_cases :
    (a : PoolAllocator) (xs : List ℕ) (i : ℕ)
    → IsPool a xs
    → release_index (pos i) a ≡ (
        if leb a.size_max i
        then ok out_of_range a
        else if mem i xs
        then ok double_free a
        else ok success (given a i))
unfolding release_index given
release_index_cases a xs i pool =
    let detached = pool.detached i in
    let attached = Linked-attached a.free_list a.first_idx xs i pool.links in
    ground (arith, pool.cells, detached, attached)

-- `PoolAllocator_releaseBlock` at any pointer less than 2^31 bytes behind the start of the buffer of
-- a well-formed pool: a pointer that is not aligned to a block, one behind the last block, and a
-- block that is free already are refused, each with its own result and with no change; any other
-- block becomes the first free one.
pub release_block_cases :
    (a : PoolAllocator) (xs : List ℕ) (n : ℕ)
    → IsPool a xs
    → n < 2 ^ 31
    → release_block (a.buffer + n) a ≡ (
        if not (n % a.item_size == 0)
        then ok unaligned_free a
        else if leb a.size_max (n / a.item_size)
        then ok out_of_range a
        else if mem (n / a.item_size) xs
        then ok double_free a
        else ok success (given a (n / a.item_size)))
unfolding release_block
release_block_cases a xs n pool lt =
    rw (offset-address a xs n pool lt) (elim (Bool-cases (n % a.item_size == 0)) [
      | inl e ↦
          rw e (ground (arith, pool.nonempty, release_index_cases a xs (n / a.item_size) pool))
      | inr e ↦ rw e (ground (arith, pool.nonempty))
    ])
