-- ===== src/LinkedList/Insert.antt =====
-- `List_insert`: what it writes, and the list that results.
use so_oscilloscopio.Base.{
  ◌≡◌, refl, sym, ap, ◌∙◌, ◌≢◌, inl, inr, pos, ◌+ℤ◌, Bool-cases, List, [], ◌∷◌, ◌++◌, arith, ◌==◌,
  if◌then◌else◌, ◌∈◌, ◌∉◌, first_or, last_or, length, last_or-mem, mem-head, pos_succ, suc, ==_ne,
  last_or-mem_of_ne, first_or-mem_of_ne, mem-append, Distinct-apart, Distinct-append-left,
  Distinct-append-right, Distinct-insert, ne_of_mem, length-append, last_or-append,
}
use so_oscilloscopio.Run.{ok}
use so_oscilloscopio.Run.Returns.{Returns, returns}
use so_oscilloscopio.LinkedList.{Ptr, null, ListHead, Memory, write, insert}
use so_oscilloscopio.LinkedList.Chain.{
  Chain, IsList, SameOutside, Chain-split, Chain-join, Chain-ne_null, Chain-next_last,
  Chain-relink_last, Chain-relink_first,
}

-- `n` is `m` with `item` linked between `prev` and `next`, where these are not null.
pub record IsLinked (m n : Memory) (prev item next : Ptr) : Type 0 where
  pub links : n item ≡ record { prev = prev; next = next }
  pub before : prev ≢ null → n prev ≡ record { prev = (m prev).prev; next = item }
  pub after : next ≢ null → n next ≡ record { prev = item; next = (m next).next }
  pub others :
      (a : Ptr) → a ≢ item → (prev ≢ null → a ≢ prev) → (next ≢ null → a ≢ next) → n a ≡ m a

module _ (m : Memory) (head : ListHead) (prev item next : Ptr) where
  linked : Memory
  unfolding write
  linked =
      let m' =
        if prev == null
        then m
        else write (write m item (record (m item) { prev = prev })) prev
            (record (write m item (record (m item) { prev = prev }) prev) { next = item }) in
      if next == null
      then m'
      else write (write m' item (record (m' item) { next = next })) next
          (record (write m' item (record (m' item) { next = next }) next) { prev = item })

  insert-linked :
      item ≢ null
      → m item ≡ record { prev = null; next = null }
      → next ≡ (if prev == null then head.first else (m prev).next)
      → insert head prev item m
        ≡ ok
            (
              record {
                first = if prev == null then item else head.first;
                last = if next == null then item else head.last;
                size = head.size +ℤ pos 1;
              },
              item,
            )
            linked
  unfolding insert linked
  insert-linked ne free at = ground arith

  linked-IsLinked :
      item ≢ null
      → prev ≢ item
      → next ≢ item
      → (prev ≢ null → prev ≢ next)
      → m item ≡ record { prev = null; next = null }
      → IsLinked m linked prev item next
  unfolding linked
  linked-IsLinked ne p q r free = record {
    links = ground arith;
    before = λ h. ground (arith, r h);
    after = λ h. ground arith;
    others = λ a x y z. ground arith;
  }

-- The ends of a sequence with an item put in the middle.
first_of_insert :
    (ys zs : List Ptr) (item : Ptr)
    → ((a : Ptr) → a ∈ ys → a ≢ null)
    → first_or null (ys ++ item ∷ zs)
      ≡ (if last_or null ys == null then item else first_or null (ys ++ zs))
first_of_insert [] zs item ne = refl
first_of_insert (y ∷ ys) zs item ne = rw (==_ne _ null (ne (last_or y ys) (last_or-mem y ys)))

last_of_insert :
    (ys zs : List Ptr) (item : Ptr)
    → ((a : Ptr) → a ∈ zs → a ≢ null)
    → last_or null (ys ++ item ∷ zs)
      ≡ (if first_or null zs == null then item else last_or null (ys ++ zs))
last_of_insert ys [] item ne = rw (last_or-append null ys (item ∷ []))
last_of_insert ys (z ∷ zs) item ne = rw (
  ==_ne z null (ne z (mem-head z zs)),
  last_or-append null ys (item ∷ z ∷ zs),
  last_or-append null ys (z ∷ zs),
)

length-insert : (ys zs : List Ptr) (item : Ptr) → length (ys ++ item ∷ zs) ≡ suc (length (ys ++ zs))
length-insert ys zs item = omega (arith, length-append ys (item ∷ zs), length-append ys zs)

-- Where `prev` is the last item of `ys`, or null with `ys` empty, and `next` the first of `zs`.
module _ (m : Memory) (head : ListHead) (ys zs : List Ptr) (item : Ptr)
    (list : IsList m head (ys ++ zs)) where
  successor_lem :
      first_or null zs
      ≡ (if last_or null ys == null then head.first else (m (last_or null ys)).next)
  successor_lem = go ys list
    where
      go :
          (ys : List Ptr)
          → IsList m head (ys ++ zs)
          → first_or null zs
            ≡ (if last_or null ys == null then head.first else (m (last_or null ys)).next)
      go [] is = sym is.first
      go (y ∷ ys) is =
          let (l, r) = Chain-split m null (y ∷ ys) zs null is.chain in
          rw (==_ne _ null (Chain-ne_null m null (y ∷ ys) _ _ l (last_or-mem y ys)))
            (sym (Chain-next_last m null y ys _ l))

  module _ (ne : item ≢ null) (out : item ∉ ys ++ zs) where
    apart_prev : last_or null ys ≢ item
    apart_prev e = elim (Bool-cases (last_or null ys == null)) [
      | inl z ↦ ground arith
      | inr z ↦
          let i = last_or-mem_of_ne null ys (ground arith) in ground (arith, mem-append item ys zs)
    ]

    apart_next : first_or null zs ≢ item
    apart_next e = elim (Bool-cases (first_or null zs == null)) [
      | inl z ↦ ground arith
      | inr z ↦
          let i = first_or-mem_of_ne null zs (ground arith) in ground (arith, mem-append item ys zs)
    ]

    apart_ends : last_or null ys ≢ null → last_or null ys ≢ first_or null zs
    apart_ends nz e =
        let i = last_or-mem_of_ne null ys nz in
        let j = first_or-mem_of_ne null zs (λ z. nz (e ∙ z)) in
        let k = Distinct-apart (last_or null ys) ys zs list.distinct i in cc

    ne_item : (a : Ptr) → a ∈ ys ++ zs → a ≢ item
    ne_item a i e = ne_of_mem item a (ys ++ zs) out i (sym e)

    ne_across : (a b : Ptr) → a ∈ ys → b ∈ zs → a ≢ b
    ne_across a b i j = ne_of_mem a b zs (Distinct-apart a ys zs list.distinct i) j

    mem_left : (a : Ptr) → a ∈ ys → a ∈ ys ++ zs
    mem_left a i = ground (arith, mem-append a ys zs)

    mem_right : (a : Ptr) → a ∈ zs → a ∈ ys ++ zs
    mem_right a i = ground (arith, mem-append a ys zs)

    module _ (n : Memory) (l : IsLinked m n (last_or null ys) item (first_or null zs)) where
      Chain-front : Chain n null ys item
      Chain-front =
          let (c, d) = Chain-split m null ys zs null list.chain in
          Chain-relink_last m n null ys _ item c (Distinct-append-left ys zs list.distinct)
            (λ a i x.
              l.others a (ne_item a (mem_left a i)) (λ _. x)
                λ nz. ne_across a _ i (first_or-mem_of_ne null zs nz))
            λ a i e.
              let written = l.before λ z. Chain-ne_null m null ys _ a c i (e ∙ z) in
              (rw e (ap (λ c. c.prev) written), rw e (ap (λ c. c.next) written))

      Chain-back : Chain n item zs null
      Chain-back =
          let (c, d) = Chain-split m null ys zs null list.chain in
          Chain-relink_first m n _ item zs null d (Distinct-append-right ys zs list.distinct)
            (λ a i x.
              l.others a (ne_item a (mem_right a i))
                (λ nz e. ne_across _ a (last_or-mem_of_ne null ys nz) i (sym e)) λ _. x)
            λ a i e.
              let written = l.after λ z. Chain-ne_null m _ zs null a d i (e ∙ z) in
              (rw e (ap (λ c. c.prev) written), rw e (ap (λ c. c.next) written))

      IsLinked-IsList :
          (h : ListHead)
          → h.first ≡ (if last_or null ys == null then item else head.first)
          → h.last ≡ (if first_or null zs == null then item else head.last)
          → h.size ≡ head.size +ℤ pos 1
          → IsList n h (ys ++ item ∷ zs)
      IsLinked-IsList h f b s = record {
        chain =
            Chain-join n null ys (item ∷ zs) null Chain-front
              (ne, ap (λ c. c.prev) l.links, ap (λ c. c.next) l.links, Chain-back);
        distinct = Distinct-insert item ys zs list.distinct out;
        first = rw (
          f,
          first_of_insert ys zs item
              λ a i. Chain-ne_null m null (ys ++ zs) null a list.chain (mem_left a i),
          list.first,
        );
        last = rw (
          b,
          last_of_insert ys zs item
              λ a i. Chain-ne_null m null (ys ++ zs) null a list.chain (mem_right a i),
          list.last,
        );
        size = s ∙ rw (list.size, length-insert ys zs item) (pos_succ (length (ys ++ zs)));
      }

      IsLinked-SameOutside : SameOutside (ys ++ item ∷ zs) m n
      IsLinked-SameOutside a away =
          let here = mem-append a ys (item ∷ zs) in
          l.others a (ground arith) (λ nz e. let i = last_or-mem_of_ne null ys nz in ground arith)
            (λ nz e. let i = first_or-mem_of_ne null zs nz in ground arith)

    -- `List_insert` into the list `ys ++ zs`, after the last item of `ys` (after null if there is
    -- none), of an item that is not null, not in the list, and whose pointers are null, links it
    -- between `ys` and `zs`, returns it, counts it, and writes to no other item outside the list.
    pub insert_lem :
        m item ≡ record { prev = null; next = null }
        → Returns
            (λ (h, r) n.
              (r ≡ item) × IsList n h (ys ++ item ∷ zs) × SameOutside (ys ++ item ∷ zs) m n)
            (insert head (last_or null ys) item m)
    insert_lem free =
        let linked =
          linked-IsLinked m head (last_or null ys) item (first_or null zs) ne apart_prev apart_next
            apart_ends free in
        rw (insert-linked m head (last_or null ys) item (first_or null zs) ne free successor_lem)
          (returns (refl, IsLinked-IsList _ linked _ refl refl refl, IsLinked-SameOutside _ linked))
