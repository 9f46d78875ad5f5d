-- ===== src/LinkedList/Sequence.antt =====
-- The list functions as operations on sequences of pointers: the form in which the kernel's
-- modules use a list. `List_find` scans, `List_detach` erases, and the two ends are pushed and popped.
use so_oscilloscopio.Base.{
  ℕ, zero, suc, ◌<◌, ◌≡◌, refl, sym, ap, ◌∙◌, subst, ◌≢◌, List, [], ◌∷◌, ◌++◌, arith, true, false,
  ◌==◌, if◌then◌else◌, ◌∈◌, ◌∉◌, mem, erase, first_or, length, mem-split, erase-middle,
}
use mathlib.Core.List.{append-nil}
use so_oscilloscopio.Run.{ok}
use so_oscilloscopio.Run.Returns
use so_oscilloscopio.Run.Returns.{Returns, returns}
use so_oscilloscopio.LinkedList.{
  Ptr, null, ListHead, Memory, find_loop, find, insert, detach, pop_front, push_back, push_front,
}
use so_oscilloscopio.LinkedList.Chain.{Chain, IsList, SameOutside}
use so_oscilloscopio.LinkedList.Insert.{insert_lem}
use so_oscilloscopio.LinkedList.Detach.{detach_lem}

abbrev pub rest : List Ptr → List Ptr
rest [] = []
rest (x ∷ xs) = xs

find_loop-mem :
    (m : Memory) (before : Ptr) (xs : List Ptr) (rounds item : Ptr)
    → Chain m before xs null
    → length xs < rounds
    → find_loop rounds (first_or null xs) item m ≡ ok (if mem item xs then item else null) m
unfolding find_loop
find_loop-mem m before xs zero item c fuel = absurd (omega arith)
find_loop-mem m before [] (suc k) item c fuel = refl
find_loop-mem m before (x ∷ xs) (suc k) item (ne, p, q, c) fuel =
    let later : find_loop k (m x).next item m ≡ ok (if mem item xs then item else null) m =
      rw q (find_loop-mem m x xs k item c (omega arith)) in
    ground arith

module _ (m : Memory) (head : ListHead) (xs : List Ptr) (list : IsList m head xs) where
  -- Given more rounds than the list has items, `List_find` ends; it returns the item if the list
  -- holds it and null otherwise, and writes nothing.
  pub find-mem :
      (rounds : ℕ) (item : Ptr)
      → length xs < rounds
      → find rounds head item m ≡ ok (if mem item xs then item else null) m
  unfolding find
  find-mem rounds item fuel = rw list.first (find_loop-mem m null xs rounds item list.chain fuel)

  -- `List_detach` of an item that is in the list returns it, erases it from the sequence, leaves
  -- its pointers null, and writes to no item outside the list.
  pub detach-erase :
      (item : Ptr)
      → item ∈ xs
      → Returns
          (λ (h, r) n.
            (r ≡ item)
            × IsList n h (erase item xs)
            × (n item ≡ record { prev = null; next = null })
            × SameOutside xs m n)
          (detach head item m)
  detach-erase item i =
      let (ys, zs, eq, out) = mem-split item xs i in
      Returns.weaken (detach_lem m head ys zs item (subst (IsList m head) eq list))
        λ (h, r) n (r_eq, is, free, same). (
          r_eq,
          subst (IsList n h) (sym (ap (erase item) eq ∙ erase-middle item ys zs out)) is,
          free,
          subst (λ l. SameOutside l m n) (sym eq) same,
        )

  -- `List_pushBack` of an item that is not in the list, and whose pointers are null, puts it behind
  -- the others and writes to no other item outside the list.
  pub push_back-append :
      (item : Ptr)
      → item ≢ null
      → item ∉ xs
      → m item ≡ record { prev = null; next = null }
      → Returns
          (λ h n. IsList n h (xs ++ item ∷ []) × SameOutside (xs ++ item ∷ []) m n)
          (push_back head item m)
  unfolding push_back
  push_back-append item ne out free =
      Returns.bind
        (subst
          (λ p.
            Returns
              (λ (h, r) n.
                (r ≡ item) × IsList n h (xs ++ item ∷ []) × SameOutside (xs ++ item ∷ []) m n)
              (insert head p item m))
          (sym list.last)
          (insert_lem m head xs [] item (subst (IsList m head) (sym (append-nil xs)) list) ne
            (rw (append-nil xs) out) free))
        λ (h, r) n (e, is, same). returns (is, same)

  -- `List_pushFront` of an item that is not in the list, and whose pointers are null, puts it before
  -- the others and writes to no other item outside the list.
  pub push_front-cons :
      (item : Ptr)
      → item ≢ null
      → item ∉ xs
      → m item ≡ record { prev = null; next = null }
      → Returns
          (λ h n. IsList n h (item ∷ xs) × SameOutside (item ∷ xs) m n)
          (push_front head item m)
  unfolding push_front
  push_front-cons item ne out free =
      Returns.bind (insert_lem m head [] xs item list ne out free)
        λ (h, r) n (e, is, same). returns (is, same)

-- `List_popFront` returns the first item of a list, or null if there is none, leaves the others in
-- the list, and writes to no item outside it.
pub pop_front-first :
    (m : Memory) (head : ListHead) (xs : List Ptr)
    → IsList m head xs
    → Returns
        (λ (h, r) n. (r ≡ first_or null xs) × IsList n h (rest xs) × SameOutside xs m n)
        (pop_front head m)
unfolding pop_front
pop_front-first m head [] list =
    let e : (head.first == null) ≡ true = ground (arith, list.first) in
    rw e (returns (refl, list, λ a o. refl))
pop_front-first m head (x ∷ xs) list =
    let e : (head.first == null) ≡ false = ground (arith, list.first, list.chain.0) in
    rw e (
      subst
        (λ p.
          Returns (λ (h, r) n. (r ≡ x) × IsList n h xs × SameOutside (x ∷ xs) m n)
            (detach head p m))
        (sym list.first)
        (Returns.weaken (detach_lem m head [] xs x list)
          λ (h, r) n (e, is, free, same). (e, is, same)))
