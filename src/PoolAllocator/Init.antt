-- ===== src/PoolAllocator/Init.antt =====
-- `PoolAllocator_init`: after it every block is free, the first one first.
use so_oscilloscopio.Base.{
  ℕ, zero, suc, ◌+◌, ◌-◌, ◌*◌, ◌^◌, ◌≤◌, ◌<◌, ◌≡◌, refl, sym, ap, ◌∙◌, ℤ, pos, List, [], ◌∷◌, arith,
  ◌==◌, lt→ltb, false, ◌∈◌, ◌∉◌, Distinct, length, length-set, get_or, set, subst, Bool-cases, inl,
  inr, to_int-of_IsInt, ltb_ℤ,
}
use so_oscilloscopio.Run.Returns.{Returns, returns}
use so_oscilloscopio.PoolAllocator.{PoolAllocator, success, sizeof_int, null_idx, link_free, init}
use so_oscilloscopio.PoolAllocator.Free.{Linked, IsPool, get_or-set_self, get_or-set_ne}

-- start, start + 1, …, `n` of them.
abbrev pub range : ℕ → ℕ → List ℕ
range start zero = []
range start (suc n) = start ∷ range (start + 1) n

mem-range : (i start n : ℕ) → start ≤ i → i < start + n → i ∈ range start n
mem-range i start zero le lt = absurd (omega arith)
mem-range i start (suc n) le lt = ground (arith, mem-range i (start + 1) n)

not-mem-range : (i start n : ℕ) → i < start → i ∉ range start n
not-mem-range i start zero lt = refl
not-mem-range i start (suc n) lt = ground (arith, not-mem-range i (start + 1) n)

Distinct-range : (start n : ℕ) → Distinct (range start n)
Distinct-range start zero = tt
Distinct-range start (suc n) =
    (not-mem-range start (start + 1) n (omega arith), Distinct-range (start + 1) n)

length-range : (start n : ℕ) → length (range start n) ≡ n
length-range start zero = refl
length-range start (suc n) = ap suc (length-range (start + 1) n)

length-link_free : (k i : ℕ) (l : List ℤ) → length (link_free k i l) ≡ length l
unfolding link_free
length-link_free zero i l = refl
length-link_free (suc k) i l =
    length-link_free k (i + 1) (set l i (pos (i + 1))) ∙ length-set l i (pos (i + 1))

link_free_below :
    (k i j : ℕ) (l : List ℤ) → j < i → get_or (link_free k i l) j null_idx ≡ get_or l j null_idx
unfolding link_free
link_free_below zero i j l lt = refl
link_free_below (suc k) i j l lt =
    link_free_below k (i + 1) j (set l i (pos (i + 1))) (omega arith)
    ∙ get_or-set_ne l i j (pos (i + 1)) null_idx (omega arith)

link_free_at :
    (k i j : ℕ) (l : List ℤ)
    → i ≤ j
    → j < i + k
    → i + k ≤ length l
    → get_or (link_free k i l) j null_idx ≡ pos (j + 1)
unfolding link_free
link_free_at zero i j l le lt len = absurd (omega arith)
link_free_at (suc k) i j l le lt len = elim (Bool-cases (i == j)) [
  | inl hit ↦
      let e : i ≡ j = ground arith in
      link_free_below k (i + 1) j (set l i (pos (i + 1))) (omega arith)
      ∙ subst (λ t. get_or (set l i (pos (i + 1))) t null_idx ≡ pos (t + 1)) e
          (get_or-set_self l i (pos (i + 1)) null_idx (omega arith))
  | inr miss ↦
      link_free_at k (i + 1) j (set l i (pos (i + 1))) (ground arith) (omega arith)
        (omega (arith, length-set l i (pos (i + 1))))
]

-- Cells that each point to the next, and a last one that points nowhere.
Linked-range :
    (l : List ℤ) (start n : ℕ)
    → ((j : ℕ) → start ≤ j → j < start + n → get_or l j null_idx ≡ pos (j + 1))
    → ((j : ℕ) → j ≡ start + n → get_or l j null_idx ≡ null_idx)
    → start + n < length l
    → Linked l (pos start) (range start (suc n))
Linked-range l start zero step end len = (refl, omega arith, end start (omega arith))
Linked-range l start (suc n) step end len = (
  refl,
  omega arith,
  subst (λ s. Linked l s (range (start + 1) (suc n))) (sym (step start (omega arith) (omega arith)))
      (Linked-range l (start + 1) n (λ j a b. step j (omega arith) (omega arith))
        (λ j e. end j (omega arith)) (omega arith)),
)

module _ (n : ℕ) (words : List ℤ) (cells : length words ≡ suc n) where
  links_all : Linked (set (link_free n 0 words) n null_idx) (pos 0) (range 0 (suc n))
  links_all =
      let l = link_free n 0 words in
      let len : length l ≡ suc n = length-link_free n 0 words ∙ cells in
      Linked-range (set l n null_idx) 0 n
        (λ j a b.
          get_or-set_ne l n j null_idx null_idx (omega arith)
          ∙ link_free_at n 0 j words (omega arith) (omega arith) (omega arith))
        (λ j e.
          rw (let f : j ≡ n = omega arith in f)
            (get_or-set_self l n null_idx null_idx (omega arith)))
        (omega (arith, length-set l n null_idx))

-- `PoolAllocator_init` for a positive number of items of positive size, on a memory block that is not
-- null and has at least `num_items * (item_size + sizeof(int))` bytes, a number below 2^31, succeeds
-- and makes every block free, in the order of their addresses.
pub init-IsPool :
    (item_size num_items memory_block memory_size : ℕ) (words : List ℤ) (a : PoolAllocator)
    → 0 < num_items
    → 0 < item_size
    → 0 < memory_block
    → num_items * (item_size + sizeof_int) ≤ memory_size
    → num_items * (item_size + sizeof_int) < 2 ^ 31
    → length words ≡ num_items
    → Returns
        (λ r b. (r ≡ success) × (b.size_max ≡ num_items) × IsPool b (range 0 num_items))
        (init item_size num_items memory_block memory_size words a)
unfolding init
init-IsPool item_size zero memory_block memory_size words a some_items wide placed enough fits
      cells =
    absurd (omega arith)
init-IsPool item_size (suc n) memory_block memory_size words a some_items wide placed enough fits
      cells =
    let small =
      to_int-of_IsInt (pos (suc n * (item_size + sizeof_int))) (omega arith, omega arith) in
    let roomy : ltb_ℤ (pos memory_size) (pos (suc n * (item_size + sizeof_int))) ≡ false =
      ground arith in
    let less : (suc n - 1) ≡ n = omega arith in
    rw (small, roomy, lt→ltb 0 (suc n) (omega arith), less)
      (returns (
        refl,
        refl,
        record {
          links = links_all n words cells;
          distinct = Distinct-range 0 (suc n);
          detached = λ i lt out. let i' = mem-range i 0 (suc n) (omega arith) (omega arith) in cc;
          cells = length-set (link_free n 0 words) n null_idx ∙ length-link_free n 0 words ∙ cells;
          count = ap pos (sym (length-range 0 (suc n)));
          placed = placed;
          nonempty = wide;
          fits = omega arith;
        },
      ))
