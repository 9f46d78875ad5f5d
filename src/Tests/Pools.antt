-- ===== src/Tests/Pools.antt =====
-- pool_allocator.c on pools of two blocks.
use so_oscilloscopio.Base.{
  ◌⊎◌, ◌∈◌, ℕ, zero, suc, ◌+◌, ◌*◌, ◌^◌, ◌<◌, ◌≡◌, refl, pos, [], ◌∷◌, arith, ◌∉◌, get_or, erase,
}
use so_oscilloscopio.Run.{ok}
use so_oscilloscopio.Run.Returns.{Returns, returns}
use so_oscilloscopio.PoolAllocator.{
  PoolAllocator, success, out_of_range, null_idx, detached_idx, address, init, get_block,
  release_block,
}
use so_oscilloscopio.PoolAllocator.Free.{IsPool, SameLayout}
use so_oscilloscopio.PoolAllocator.Get.{get_block-cons}
use so_oscilloscopio.PoolAllocator.Release.{release_block_cases, given, release_block-get_block}
use so_oscilloscopio.PoolAllocator.Extent.{IsInside, Apart, get_block-IsInside}
use so_oscilloscopio.PoolAllocator.Init.{range, init-IsPool}
use so_oscilloscopio.PoolAllocator.Live.{
  Holds, Obtains, get_block-Obtains, release_block-Holds, get_block-release_block,
}

-- Block 0 of two is in use.
abbrev pub half_used : (buffer item_size : ℕ) → PoolAllocator
half_used buffer item_size = record {
  buffer = buffer;
  free_list = detached_idx ∷ null_idx ∷ [];
  buffer_size = item_size * 2;
  size = pos 1;
  size_max = 2;
  item_size = item_size;
  first_idx = pos 1;
}

half_detached :
    (i : ℕ) → i < 2 → i ∉ 1 ∷ [] → get_or (detached_idx ∷ null_idx ∷ []) i null_idx ≡ detached_idx
half_detached zero lt out = refl
half_detached (suc zero) lt out = cc
half_detached (suc (suc i)) lt out = absurd (omega arith)

pub half_used-IsPool :
    (buffer item_size : ℕ)
    → 0 < buffer
    → 0 < item_size
    → 2 * item_size < 2 ^ 31
    → IsPool (half_used buffer item_size) (1 ∷ [])
half_used-IsPool buffer item_size placed wide fits = record {
  links = (refl, omega arith, refl);
  distinct = (refl, tt);
  detached = half_detached;
  cells = refl;
  count = refl;
  placed = placed;
  nonempty = wide;
  fits = fits;
}

pub half_used-Holds :
    (buffer item_size : ℕ)
    → 0 < buffer
    → 0 < item_size
    → 2 * item_size < 2 ^ 31
    → Holds (half_used buffer item_size) (buffer ∷ [])
half_used-Holds buffer item_size placed wide fits = record {
  free = 1 ∷ [];
  pool = half_used-IsPool buffer item_size placed wide fits;
  blocks = λ p i. record { index = 0; bound = omega arith; place = ground arith; used = refl };
}

abbrev pool : PoolAllocator
pool = half_used 100 8

pool-IsPool : IsPool pool (1 ∷ [])
pool-IsPool = half_used-IsPool 100 8 (omega arith) (omega arith) (omega arith)

pool-Holds : Holds pool (100 ∷ [])
pool-Holds = half_used-Holds 100 8 (omega arith) (omega arith) (omega arith)

-- Three calls on a pool with one block left.
abbrev other : PoolAllocator
other = record pool { free_list = []; size_max = 0 }

get_then_exhausted : Returns (λ p a. (p ≡ 108) × (get_block a ≡ ok 0 a)) (get_block pool)
unfolding get_block
get_then_exhausted = returns (refl, refl)

init-IsPool_example :
    Returns
      (λ r b. (r ≡ success) × (b.size_max ≡ 2) × IsPool b (range 0 2))
      (init 8 2 100 24 (pos 7 ∷ pos 7 ∷ []) other)
init-IsPool_example =
    init-IsPool 8 2 100 24 (pos 7 ∷ pos 7 ∷ []) other (omega arith) (omega arith) (omega arith)
      (omega arith) (omega arith) refl

get_block-cons_example :
    Returns (λ p b. (p ≡ address pool 1) × IsPool b [] × SameLayout pool b) (get_block pool)
get_block-cons_example = get_block-cons pool 1 [] pool-IsPool

get_block-IsInside_example :
    ((get_block pool ≡ ok 0 pool)
      ⊎ ((p : ℕ) × (b : PoolAllocator) × (get_block pool ≡ ok p b)
          × IsInside pool p
          × ((q : ℕ) → q ∈ 100 ∷ [] → Apart pool p q)))
    × ((q : ℕ) → q ∈ 100 ∷ [] → IsInside pool q)
get_block-IsInside_example = get_block-IsInside pool (100 ∷ []) pool-Holds

get_block-Obtains_example : Obtains pool (100 ∷ []) (get_block pool)
get_block-Obtains_example = get_block-Obtains pool (100 ∷ []) pool-Holds

release_block-get_block_example :
    Returns (λ p b. release_block p b ≡ ok success pool) (get_block pool)
release_block-get_block_example = release_block-get_block pool 1 [] pool-IsPool

release_block-Holds_example :
    Returns (λ r b. (r ≡ success) × Holds b (erase 100 (100 ∷ []))) (release_block 100 pool)
release_block-Holds_example = release_block-Holds pool (100 ∷ []) pool-Holds 100 refl (refl, tt)

get_block-release_block_example :
    Returns
      (λ r b. Returns (λ q c. (q ≡ 100) × Holds c (100 ∷ erase 100 (100 ∷ []))) (get_block b))
      (release_block 100 pool)
get_block-release_block_example =
    get_block-release_block pool (100 ∷ []) pool-Holds 100 refl (refl, tt)

release_block_cases_example : release_block (100 + 16) pool ≡ ok out_of_range pool
unfolding given
release_block_cases_example = release_block_cases pool (1 ∷ []) 16 pool-IsPool (omega arith)
