-- ===== src/PoolAllocator/Frees.antt =====
-- The blocks that a client has given back: they are free, while its live ones are not.
use so_oscilloscopio.Base.{
  ℕ, ◌<◌, ◌≡◌, refl, sym, ◌∙◌, subst, ◌≢◌, List, [], ◌∷◌, arith, ◌==◌, ◌∈◌, Distinct, Bool-cases,
  inl, inr, mem-head, mem-right, erase,
}
use so_oscilloscopio.Run.{ok}
use so_oscilloscopio.Run.Returns
use so_oscilloscopio.Run.Returns.{Returns, returns}
use so_oscilloscopio.PoolAllocator.{PoolAllocator, success, address, get_block, release_block}
use so_oscilloscopio.PoolAllocator.Free.{IsPool}
use so_oscilloscopio.PoolAllocator.Get.{get_block-nil}
use so_oscilloscopio.PoolAllocator.Release.{
  given, release_block-given, given-IsPool, release_block-get_block,
}
use so_oscilloscopio.PoolAllocator.Live.{IsBlock, Holds, given-blocks}

-- `p` is the address of a free block.
pub record IsFree (a : PoolAllocator) (free : List ℕ) (p : ℕ) : Type 0 where
  pub index : ℕ
  pub bound : index < a.size_max
  pub place : p ≡ address a index
  pub unused : index ∈ free

-- In a well-formed pool, the blocks `live` are in use and the blocks `dead` are free.
pub record Frees (a : PoolAllocator) (live dead : List ℕ) : Type 0 where
  pub free : List ℕ
  pub pool : IsPool a free
  pub blocks : (p : ℕ) → p ∈ live → IsBlock a free p
  pub freed : (p : ℕ) → p ∈ dead → IsFree a free p

pub Frees-Holds : (a : PoolAllocator) (live dead : List ℕ) → Frees a live dead → Holds a live
Frees-Holds a live dead h = record { free = h.free; pool = h.pool; blocks = h.blocks }

pub Holds-Frees : (a : PoolAllocator) (live : List ℕ) → Holds a live → Frees a live []
Holds-Frees a live h = record { free = h.free; pool = h.pool; blocks = h.blocks; freed = λ p i. cc }

pub Frees-subset :
    (a : PoolAllocator) (live dead dead' : List ℕ)
    → ((p : ℕ) → p ∈ dead' → p ∈ dead)
    → Frees a live dead
    → Frees a live dead'
Frees-subset a live dead dead' sub h = record {
  free = h.free;
  pool = h.pool;
  blocks = h.blocks;
  freed = λ p i. h.freed p (sub p i);
}

module _ (a : PoolAllocator) (live dead : List ℕ) (h : Frees a live dead) (p : ℕ) (held : p ∈ live)
    (distinct : Distinct live) where
  abbrev back : PoolAllocator
  back = given a (h.blocks p held).index

  given-freed : (q : ℕ) → q ∈ p ∷ dead → IsFree back ((h.blocks p held).index ∷ h.free) q
  unfolding given
  given-freed q i =
      let block = h.blocks p held in
      elim (Bool-cases (q == p)) [
        | inl hit ↦
            let place = block.place in
            record {
              index = block.index;
              bound = block.bound;
              place = ground arith;
              unused = mem-head block.index h.free;
            }
        | inr miss ↦
            let old = h.freed q (ground arith) in
            record {
              index = old.index;
              bound = old.bound;
              place = old.place;
              unused = mem-right old.index (block.index ∷ []) h.free old.unused;
            }
      ]

  -- `PoolAllocator_releaseBlock` of a live block succeeds: of the distinct live blocks, this one is
  -- free from then on, together with those that were given back before, and the others stay live.
  pub release_block-Frees :
      Returns (λ r b. (r ≡ success) × Frees b (erase p live) (p ∷ dead)) (release_block p a)
  release_block-Frees =
      let block = h.blocks p held in
      let holds : Holds a live = record { free = h.free; pool = h.pool; blocks = h.blocks } in
      subst
        (λ q.
          Returns (λ r b. (r ≡ success) × Frees b (erase p live) (p ∷ dead)) (release_block q a))
        (sym block.place)
        (rw (release_block-given a h.free h.pool block.index block.bound block.used) (
          returns (
            refl,
            record {
              free = block.index ∷ h.free;
              pool = given-IsPool a h.free h.pool block.index block.bound block.used;
              blocks = given-blocks a live holds p held distinct;
              freed = given-freed;
            },
          )))

-- A block that has just been handed out goes back, and the pool is as it was.
pub release_block-got :
    (a : PoolAllocator) (live : List ℕ) (p : ℕ) (b : PoolAllocator)
    → Holds a live
    → get_block a ≡ ok p b
    → p ≢ 0
    → release_block p b ≡ ok success a
release_block-got a live p b h got ne = go h.free h.pool
  where
    go : (free : List ℕ) → IsPool a free → release_block p b ≡ ok success a
    go [] pool = let none = get_block-nil a pool in absurd (ne cc)
    go (x ∷ xs) pool =
        let (q, c, got', back) = Returns.result (release_block-get_block a x xs pool) in
        let again : ok p b ≡ ok q c = sym got ∙ got' in cc
