-- ===== src/PoolAllocator/Get.antt =====
-- `PoolAllocator_getBlock`.
use so_oscilloscopio.Base.{
  ℕ, ◌<◌, ◌≡◌, refl, ◌∙◌, pos, ◌-ℤ◌, pos_pred, List, [], ◌∷◌, arith, ◌==◌, inl, inr, Bool-cases,
  length, length-set, get_or, set,
}
use so_oscilloscopio.Run.{ok}
use so_oscilloscopio.Run.Returns.{Returns, returns}
use so_oscilloscopio.PoolAllocator.{PoolAllocator, null_idx, detached_idx, address, get_block}
use so_oscilloscopio.PoolAllocator.Free.{
  IsPool, SameLayout, get_or-set_self, get_or-set_ne, Linked-set,
}

-- The pool after the block `x` is taken from its free list.
unfoldable pub taken : PoolAllocator → ℕ → PoolAllocator
taken a x = record a {
  first_idx = get_or a.free_list x null_idx;
  size = a.size -ℤ pos 1;
  free_list = set a.free_list x detached_idx;
}

module _ (a : PoolAllocator) (x : ℕ) (xs : List ℕ) (pool : IsPool a (x ∷ xs)) where
  pub get_block-taken : get_block a ≡ ok (address a x) (taken a x)
  unfolding get_block taken
  get_block-taken = ground (arith, pool.links)

  pub taken-IsPool : IsPool (taken a x) xs
  unfolding taken
  taken-IsPool = record {
    links = Linked-set a.free_list x detached_idx _ xs pool.distinct.0 pool.links.2;
    distinct = pool.distinct.1;
    detached = λ i lt out. elim (Bool-cases (i == x)) [
      | inl hit ↦
          let at = get_or-set_self a.free_list x detached_idx null_idx pool.links.1 in ground arith
      | inr miss ↦
          get_or-set_ne a.free_list x i detached_idx null_idx (ground arith)
          ∙ pool.detached i lt (ground arith)
    ];
    cells = length-set a.free_list x detached_idx ∙ pool.cells;
    count = rw pool.count (pos_pred (length xs));
    placed = pool.placed;
    nonempty = pool.nonempty;
    fits = pool.fits;
  }

  pub first_lt : x < a.size_max
  first_lt = omega (arith, pool.links.1, pool.cells)

-- `PoolAllocator_getBlock` on a well-formed pool with a free block returns the address of the first
-- one, takes it and no other off the free list, and leaves the pool well-formed.
pub get_block-cons :
    (a : PoolAllocator) (x : ℕ) (xs : List ℕ)
    → IsPool a (x ∷ xs)
    → Returns (λ p b. (p ≡ address a x) × IsPool b xs × SameLayout a b) (get_block a)
unfolding taken
get_block-cons a x xs pool = rw (get_block-taken a x xs pool) (
    returns
      (refl, taken-IsPool a x xs pool, record { buffer = refl; item_size = refl; size_max = refl }))

-- With none it returns null and changes nothing.
pub get_block-nil : (a : PoolAllocator) → IsPool a [] → get_block a ≡ ok 0 a
unfolding get_block
get_block-nil a pool = ground (arith, pool.links)
