-- ===== src/PoolAllocator/Live.antt =====
-- A pool as its clients see it: a set of live blocks. A new block is not among them, a live block
-- can be given back, and a block given back is the next to be handed out.
use native.Mathlib.Nat.{mul-div_cancel}
use so_oscilloscopio.Base.{
  ℕ, ◌+◌, ◌*◌, ◌/◌, ◌<◌, ◌≡◌, refl, sym, ap, ◌∙◌, ◌≢◌, ◌⊎◌, inl, inr, List, [], ◌∷◌, arith, ◌==◌,
  ◌∈◌, ◌∉◌, Distinct, Bool-cases, subst, mem, erase, mem-erase,
}
use so_oscilloscopio.Run.{Run, ok}
use so_oscilloscopio.Run.Returns.{Returns, returns}
use so_oscilloscopio.PoolAllocator.{PoolAllocator, success, address, get_block, release_block}
use so_oscilloscopio.PoolAllocator.Free.{IsPool}
use so_oscilloscopio.PoolAllocator.Get.{
  taken, get_block-taken, taken-IsPool, first_lt, get_block-nil,
}
use so_oscilloscopio.PoolAllocator.Release.{given, release_block-given, given-IsPool}

-- `p` is the address of a block that is not free.
pub record IsBlock (a : PoolAllocator) (free : List ℕ) (p : ℕ) : Type 0 where
  pub index : ℕ
  pub bound : index < a.size_max
  pub place : p ≡ address a index
  pub used : index ∉ free

pub record Holds (a : PoolAllocator) (live : List ℕ) : Type 0 where
  pub free : List ℕ
  pub pool : IsPool a free
  pub blocks : (p : ℕ) → p ∈ live → IsBlock a free p

address_injective : (b s i j : ℕ) → 0 < s → b + i * s ≡ b + j * s → i ≡ j
address_injective b s i j wide e =
    sym (mul-div_cancel i wide) ∙ ap (λ t. t / s) (omega arith) ∙ mul-div_cancel j wide

module _ (a : PoolAllocator) (live : List ℕ) where
  -- What `PoolAllocator_getBlock` promises a client.
  abbrev pub Obtains : Run PoolAllocator ℕ → Type 0
  Obtains r =
      (r ≡ ok 0 a)
      ⊎ ((p : ℕ) × (b : PoolAllocator) × (r ≡ ok p b) × (p ≢ 0) × (p ∉ live) × Holds b (p ∷ live))

  module _ (x : ℕ) (xs : List ℕ) (pool : IsPool a (x ∷ xs))
      (blocks : (p : ℕ) → p ∈ live → IsBlock a (x ∷ xs) p) where
    fresh : address a x ∉ live
    fresh = elim (Bool-cases (mem (address a x) live)) [
      | inl held ↦
          let block = blocks (address a x) held in
          let same =
            address_injective a.buffer a.item_size x block.index pool.nonempty block.place in
          let used = block.used in ground arith
      | inr out ↦ out
    ]

    taken-Holds : Holds (taken a x) (address a x ∷ live)
    unfolding taken
    taken-Holds = record {
      free = xs;
      pool = taken-IsPool a x xs pool;
      blocks = λ q i. elim (Bool-cases (q == address a x)) [
        | inl hit ↦ record {
          index = x;
          bound = first_lt a x xs pool;
          place = ground arith;
          used = pool.distinct.0;
        }
        | inr miss ↦
            let block = blocks q (ground arith) in
            let used = block.used in
            record {
              index = block.index;
              bound = block.bound;
              place = block.place;
              used = ground arith;
            }
      ];
    }

    taken-Obtains : Obtains (get_block a)
    taken-Obtains = inr (
      address a x,
      taken a x,
      get_block-taken a x xs pool,
      omega (arith, pool.placed),
      fresh,
      taken-Holds,
    )

  -- `PoolAllocator_getBlock` on a pool with the live blocks `live` returns null and changes nothing,
  -- or it returns the address of a block that is not null and was not live, and that block is live
  -- together with those that were.
  pub get_block-Obtains : Holds a live → Obtains (get_block a)
  get_block-Obtains h = go h.free h.pool h.blocks
    where
      go :
          (free : List ℕ)
          → IsPool a free
          → ((p : ℕ) → p ∈ live → IsBlock a free p)
          → Obtains (get_block a)
      go [] pool blocks = inl (get_block-nil a pool)
      go (x ∷ xs) pool blocks = taken-Obtains x xs pool blocks

-- A live block is taken back, and the others stay live.
module _ (a : PoolAllocator) (live : List ℕ) (h : Holds a live) (p : ℕ) (held : p ∈ live)
    (distinct : Distinct live) where
  pub given-blocks :
      (q : ℕ)
      → q ∈ erase p live
      → IsBlock (given a (h.blocks p held).index) ((h.blocks p held).index ∷ h.free) q
  unfolding given
  given-blocks q i = elim (Bool-cases (q == p)) [
    | inl hit ↦ absurd (ground (arith, mem-erase q p live distinct))
    | inr miss ↦
        let block = h.blocks p held in
        let other = h.blocks q (ground (arith, mem-erase q p live distinct)) in
        let place = other.place in
        let used = other.used in
        let at = block.place in
        record { index = other.index; bound = other.bound; place = place; used = ground arith }
  ]

  given-Holds : Holds (given a (h.blocks p held).index) (erase p live)
  given-Holds =
      let block = h.blocks p held in
      record {
        free = block.index ∷ h.free;
        pool = given-IsPool a h.free h.pool block.index block.bound block.used;
        blocks = given-blocks;
      }

  given-address :
      address (given a (h.blocks p held).index) (h.blocks p held).index
      ≡ address a (h.blocks p held).index
  unfolding given
  given-address = refl

  -- `PoolAllocator_releaseBlock` of a live block succeeds, and of the distinct live blocks all others
  -- stay live.
  pub release_block-Holds :
      Returns (λ r b. (r ≡ success) × Holds b (erase p live)) (release_block p a)
  release_block-Holds =
      let block = h.blocks p held in
      subst (λ q. Returns (λ r b. (r ≡ success) × Holds b (erase p live)) (release_block q a))
        (sym block.place)
        (rw (release_block-given a h.free h.pool block.index block.bound block.used)
          (returns (refl, given-Holds)))

  -- A live block that is given back is the one that the next `PoolAllocator_getBlock` returns, after
  -- which it is live again together with the others, where the live blocks are distinct.
  pub get_block-release_block :
      Returns
        (λ r b. Returns (λ q c. (q ≡ p) × Holds c (p ∷ erase p live)) (get_block b))
        (release_block p a)
  get_block-release_block =
      let block = h.blocks p held in
      let x = block.index in
      let b = given a x in
      let back = given-IsPool a h.free h.pool x block.bound block.used in
      subst
        (λ q.
          Returns (λ r b. Returns (λ q c. (q ≡ p) × Holds c (p ∷ erase p live)) (get_block b))
            (release_block q a))
        (sym block.place)
        (rw (release_block-given a h.free h.pool x block.bound block.used) (
          returns (
            rw (get_block-taken b x h.free back) (
              returns (
                given-address ∙ sym block.place,
                subst (λ q. Holds (taken b x) (q ∷ erase p live)) (given-address ∙ sym block.place)
                    (taken-Holds b (erase p live) x h.free back given-blocks),
              )))))

-- No live block is at the null pointer.
pub held-ne_null : (a : PoolAllocator) (live : List ℕ) (p : ℕ) → Holds a live → p ∈ live → p ≢ 0
held-ne_null a live p h i = omega (arith, h.pool.placed, (h.blocks p i).place)
