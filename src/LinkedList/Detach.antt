-- ===== src/LinkedList/Detach.antt =====
-- `List_detach` and `List_popFront`: what they write, and the list that results.
use so_oscilloscopio.Base.{
  suc, ◌≡◌, refl, sym, ap, ◌∙◌, ◌≢◌, pos, ◌-ℤ◌, pos_pred, List, [], ◌∷◌, ◌++◌, arith, ◌==◌,
  if◌then◌else◌, ◌∈◌, ◌∉◌, Distinct, first_or, last_or, length, last_or-mem, ==_ne, ==_refl,
  last_or-mem_of_ne, first_or-mem_of_ne, mem-append, Distinct-apart, Distinct-append-left,
  Distinct-append-right, Distinct-remove, ne_of_mem, length-append, last_or-append,
}
use so_oscilloscopio.Run.{ok}
use so_oscilloscopio.Run.Returns.{Returns, returns}
use so_oscilloscopio.LinkedList.{Ptr, null, ListHead, Memory, write, detach}
use so_oscilloscopio.LinkedList.Chain.{
  Chain, IsList, SameOutside, Chain-split, Chain-join, Chain-ne_null, Chain-relink_last,
  Chain-relink_first,
}

-- `n` is `m` with `prev` and `next`, where they are not null, linked to one another, and `item` free.
pub record IsUnlinked (m n : Memory) (prev item next : Ptr) : Type 0 where
  pub free : n item ≡ record { prev = null; next = null }
  pub before : prev ≢ null → n prev ≡ record { prev = (m prev).prev; next = next }
  pub after : next ≢ null → n next ≡ record { prev = prev; next = (m next).next }
  pub others :
      (a : Ptr) → a ≢ item → (prev ≢ null → a ≢ prev) → (next ≢ null → a ≢ next) → n a ≡ m a

module _ (m : Memory) (head : ListHead) (prev item next : Ptr) where
  unlinked : Memory
  unfolding write
  unlinked =
      let m' = if prev == null then m else write m prev (record (m prev) { next = next }) in
      let m'' = if next == null then m' else write m' next (record (m' next) { prev = prev }) in
      write (write m'' item (record (m'' item) { prev = null })) item
        (record (write m'' item (record (m'' item) { prev = null }) item) { next = null })

  detach-unlinked :
      item ≢ null
      → m item ≡ record { prev = prev; next = next }
      → detach head item m
        ≡ ok
            (
              record {
                first = if item == head.first then next else head.first;
                last = if item == head.last then prev else head.last;
                size = head.size -ℤ pos 1;
              },
              item,
            )
            unlinked
  unfolding detach unlinked
  detach-unlinked ne links = ground arith

  unlinked-IsUnlinked :
      item ≢ null
      → prev ≢ item
      → next ≢ item
      → (prev ≢ null → prev ≢ next)
      → IsUnlinked m unlinked prev item next
  unfolding unlinked
  unlinked-IsUnlinked ne p q r = record {
    free = ground arith;
    before = λ h. ground (arith, r h);
    after = λ h. ground arith;
    others = λ a x y z. ground arith;
  }

-- The ends of a sequence that an item is taken out of.
first_of_remove :
    (ys zs : List Ptr) (item : Ptr)
    → item ∉ ys
    → first_or null (ys ++ zs) ≡ (
        if item == first_or null (ys ++ item ∷ zs)
        then first_or null zs
        else first_or null (ys ++ item ∷ zs))
first_of_remove [] zs item out = rw (==_refl item)
first_of_remove (y ∷ ys) zs item out = ground arith

last_of_remove :
    (ys zs : List Ptr) (item : Ptr)
    → item ∉ zs
    → last_or null (ys ++ zs) ≡ (
        if item == last_or null (ys ++ item ∷ zs)
        then last_or null ys
        else last_or null (ys ++ item ∷ zs))
last_of_remove ys [] item out =
    rw (last_or-append null ys (item ∷ []), ==_refl item, last_or-append null ys [])
last_of_remove ys (z ∷ zs) item out = rw (
  last_or-append null ys (item ∷ z ∷ zs),
  last_or-append null ys (z ∷ zs),
  ==_ne item (last_or z zs) (ne_of_mem item _ (z ∷ zs) out (last_or-mem z zs)),
)

module _ (m : Memory) (head : ListHead) (ys zs : List Ptr) (item : Ptr)
    (list : IsList m head (ys ++ item ∷ zs)) where
  ends :
      (item ≢ null)
      × (m item ≡ record { prev = last_or null ys; next = first_or null zs })
      × Chain m null ys item
      × Chain m item zs null
  ends =
      let (c, d) = Chain-split m null ys (item ∷ zs) null list.chain in
      (d.0, λ i. record { prev = d.1 i; next = d.2 i }, c, d.3)

  fresh : Distinct (ys ++ zs) × (item ∉ ys ++ zs)
  fresh = Distinct-remove item ys zs list.distinct

  ne_item : (a : Ptr) → a ∈ ys ++ zs → a ≢ item
  ne_item a i e = ne_of_mem item a (ys ++ zs) fresh.1 i (sym e)

  ne_across : (a b : Ptr) → a ∈ ys → b ∈ zs → a ≢ b
  ne_across a b i j = ne_of_mem a b zs (Distinct-apart a ys zs fresh.0 i) j

  mem_left : (a : Ptr) → a ∈ ys → a ∈ ys ++ zs
  mem_left a i = ground (arith, mem-append a ys zs)

  mem_right : (a : Ptr) → a ∈ zs → a ∈ ys ++ zs
  mem_right a i = ground (arith, mem-append a ys zs)

  apart_prev : last_or null ys ≢ item
  apart_prev e =
      ne_item (last_or null ys) (mem_left _ (last_or-mem_of_ne null ys λ z. ends.0 (sym e ∙ z))) e

  apart_next : first_or null zs ≢ item
  apart_next e =
      ne_item (first_or null zs) (mem_right _ (first_or-mem_of_ne null zs λ z. ends.0 (sym e ∙ z)))
        e

  apart_ends : last_or null ys ≢ null → last_or null ys ≢ first_or null zs
  apart_ends nz e =
      ne_across _ _ (last_or-mem_of_ne null ys nz) (first_or-mem_of_ne null zs (λ z. nz (e ∙ z))) e

  module _ (n : Memory) (l : IsUnlinked m n (last_or null ys) item (first_or null zs)) where
    Chain-front : Chain n null ys (first_or null zs)
    Chain-front =
        Chain-relink_last m n null ys item _ ends.2 (Distinct-append-left ys zs fresh.0)
          (λ a i x.
            l.others a (ne_item a (mem_left a i)) (λ _. x)
              λ nz. ne_across a _ i (first_or-mem_of_ne null zs nz))
          λ a i e.
            let written = l.before λ z. Chain-ne_null m null ys _ a ends.2 i (e ∙ z) in
            (rw e (ap (λ c. c.prev) written), rw e (ap (λ c. c.next) written))

    Chain-back : Chain n (last_or null ys) zs null
    Chain-back =
        Chain-relink_first m n item _ zs null ends.3 (Distinct-append-right ys zs fresh.0)
          (λ a i x.
            l.others a (ne_item a (mem_right a i))
              (λ nz e. ne_across _ a (last_or-mem_of_ne null ys nz) i (sym e)) λ _. x)
          λ a i e.
            let written = l.after λ z. Chain-ne_null m _ zs null a ends.3 i (e ∙ z) in
            (rw e (ap (λ c. c.prev) written), rw e (ap (λ c. c.next) written))

    IsUnlinked-IsList :
        (h : ListHead)
        → h.first ≡ (if item == head.first then first_or null zs else head.first)
        → h.last ≡ (if item == head.last then last_or null ys else head.last)
        → h.size ≡ head.size -ℤ pos 1
        → IsList n h (ys ++ zs)
    IsUnlinked-IsList h f b s = record {
      chain = Chain-join n null ys zs null Chain-front Chain-back;
      distinct = fresh.0;
      first =
          rw (f, list.first)
            (sym (first_of_remove ys zs item (ground (arith, fresh.1, mem-append item ys zs))));
      last =
          rw (b, list.last)
            (sym (last_of_remove ys zs item (ground (arith, fresh.1, mem-append item ys zs))));
      size = s ∙ rw (list.size, length_lem) (pos_pred (length (ys ++ zs)));
    }
      where
        length_lem : length (ys ++ item ∷ zs) ≡ suc (length (ys ++ zs))
        length_lem = omega (arith, length-append ys (item ∷ zs), length-append ys zs)

    IsUnlinked-SameOutside : SameOutside (ys ++ item ∷ zs) m n
    IsUnlinked-SameOutside a away =
        let here = mem-append a ys (item ∷ zs) in
        l.others a (ground arith) (λ nz e. let i = last_or-mem_of_ne null ys nz in ground arith)
          (λ nz e. let i = first_or-mem_of_ne null zs nz in ground arith)

  -- `List_detach` of an item of the list takes out that item and no other, leaves it free to be
  -- inserted again, and writes to no item outside the list.
  pub detach_lem :
      Returns
        (λ (h, r) n.
          (r ≡ item)
          × IsList n h (ys ++ zs)
          × (n item ≡ record { prev = null; next = null })
          × SameOutside (ys ++ item ∷ zs) m n)
        (detach head item m)
  detach_lem =
      let gone =
        unlinked-IsUnlinked m head (last_or null ys) item (first_or null zs) ends.0 apart_prev
          apart_next apart_ends in
      rw (detach-unlinked m head (last_or null ys) item (first_or null zs) ends.0 ends.1) (
        returns (
          refl,
          IsUnlinked-IsList _ gone _ refl refl refl,
          gone.free,
          IsUnlinked-SameOutside _ gone,
        ))
