-- ===== src/Syscall/BQueue/Registry.antt =====
-- The registry of queues that disastrOS_bqueue.c keeps: live blocks with different ids.
use so_oscilloscopio.Base.{
  ◌≡◌, refl, sym, ap, subst, ◌∙◌, ◌≢◌, inl, inr, ℤ, eqb_ℤ, eqb_ℤ-refl, eqb_ℤ-sound, List, [], ◌∷◌,
  ◌++◌, arith, false, ◌∈◌, ◌∉◌, mem-head, mem-right, Bool-cases, ◌==◌,
}
use so_oscilloscopio.LinkedList.{Ptr, null}
use so_oscilloscopio.PoolAllocator.Live.{Holds}
use so_oscilloscopio.Kernel.{Kernel, BlockingQueue}
use so_oscilloscopio.BQueue.{bq_by_id}

-- No queue of the list has the id.
abbrev pub NoId : (Ptr → BlockingQueue) → ℤ → List Ptr → Type 0
NoId m id [] = Unit {0}
NoId m id (q ∷ qs) = ((m q).id ≢ id) × NoId m id qs

abbrev pub UniqueIds : (Ptr → BlockingQueue) → List Ptr → Type 0
UniqueIds m [] = Unit {0}
UniqueIds m (q ∷ qs) = NoId m (m q).id qs × UniqueIds m qs

-- The registered queues are live blocks of their pool with different ids.
pub record IsRegistry (k : Kernel) : Type 0 where
  pub live : List Ptr
  pub holds : Holds k.bq_allocator live
  pub owned : (q : Ptr) → q ∈ k.bq_registry → q ∈ live
  pub unique : UniqueIds k.bqueue_memory k.bq_registry

abbrev pub new_bqueue : (id capacity : ℤ) → BlockingQueue
new_bqueue id capacity = record {
  id = id;
  capacity = capacity;
  size = 0;
  items = [];
  wait_getters = [];
  wait_putters = [];
}

pub bq_by_id-NoId :
    (m : Ptr → BlockingQueue) (id : ℤ) (qs : List Ptr)
    → null ∉ qs
    → bq_by_id m qs id ≡ null
    → NoId m id qs
unfolding bq_by_id
bq_by_id-NoId m id [] n e = tt
bq_by_id-NoId m id (q ∷ qs) n e = elim (Bool-cases (eqb_ℤ (m q).id id)) [
  | inl hit ↦ absurd (ground arith)
  | inr miss ↦ (
    λ same.
        let h = eqb_ℤ-refl id in
        absurd
          (let f : eqb_ℤ id id ≡ false = subst (λ i. eqb_ℤ i id ≡ false) same miss in ground arith),
    bq_by_id-NoId m id qs (ground arith) (ground arith),
  )
]

pub bq_by_id-last :
    (m : Ptr → BlockingQueue) (id : ℤ) (qs : List Ptr) (q : Ptr)
    → NoId m id qs
    → (m q).id ≡ id
    → bq_by_id m (qs ++ q ∷ []) id ≡ q
unfolding bq_by_id
bq_by_id-last m id [] q none e = rw (ap (λ i. eqb_ℤ i id) e ∙ eqb_ℤ-refl id)
bq_by_id-last m id (x ∷ qs) q (ne, none) e = elim (Bool-cases (eqb_ℤ (m x).id id)) [
  | inl hit ↦ absurd (ne (eqb_ℤ-sound (m x).id id hit))
  | inr miss ↦ rw miss (bq_by_id-last m id qs q none e)
]

module _ (m n : Ptr → BlockingQueue) where
  pub NoId-frame :
      (id : ℤ) (qs : List Ptr) → ((q : Ptr) → q ∈ qs → n q ≡ m q) → NoId m id qs → NoId n id qs
  NoId-frame id [] same h = tt
  NoId-frame id (q ∷ qs) same (ne, h) = (
    λ e. ne (sym (ap (λ (v : BlockingQueue). v.id) (same q (mem-head q qs))) ∙ e),
    NoId-frame id qs (λ p i. same p (mem-right p (q ∷ []) qs i)) h,
  )

  pub UniqueIds-frame :
      (qs : List Ptr) → ((q : Ptr) → q ∈ qs → n q ≡ m q) → UniqueIds m qs → UniqueIds n qs
  UniqueIds-frame [] same h = tt
  UniqueIds-frame (q ∷ qs) same (none, h) =
      let behind = λ (p : Ptr) (i : p ∈ qs). same p (mem-right p (q ∷ []) qs i) in
      (
        subst (λ (v : BlockingQueue). NoId n v.id qs) (sym (same q (mem-head q qs)))
            (NoId-frame (m q).id qs behind none),
        UniqueIds-frame qs behind h,
      )

NoId-append :
    (m : Ptr → BlockingQueue) (id : ℤ) (qs : List Ptr) (q : Ptr)
    → NoId m id qs
    → (m q).id ≢ id
    → NoId m id (qs ++ q ∷ [])
NoId-append m id [] q h ne = (ne, tt)
NoId-append m id (x ∷ qs) q (nx, h) ne = (nx, NoId-append m id qs q h ne)

pub UniqueIds-append :
    (m : Ptr → BlockingQueue) (qs : List Ptr) (q : Ptr)
    → UniqueIds m qs
    → NoId m (m q).id qs
    → UniqueIds m (qs ++ q ∷ [])
UniqueIds-append m [] q h none = (tt, tt)
UniqueIds-append m (x ∷ qs) q (nx, h) (ne, none) =
    (NoId-append m (m x).id qs q nx (λ e. ne (sym e)), UniqueIds-append m qs q h none)

-- A queue leaves the registry.
module _ (m : Ptr → BlockingQueue) where
  NoId-remove :
      (id : ℤ) (xs : List Ptr) (q : Ptr) (ys : List Ptr)
      → NoId m id (xs ++ q ∷ ys)
      → NoId m id (xs ++ ys)
  NoId-remove id [] q ys h = h.1
  NoId-remove id (x ∷ xs) q ys (ne, h) = (ne, NoId-remove id xs q ys h)

  pub UniqueIds-remove :
      (xs : List Ptr) (q : Ptr) (ys : List Ptr)
      → UniqueIds m (xs ++ q ∷ ys)
      → UniqueIds m (xs ++ ys) × NoId m (m q).id ys
  UniqueIds-remove [] q ys (none, h) = (h, none)
  UniqueIds-remove (x ∷ xs) q ys (none, h) =
      let (rest, out) = UniqueIds-remove xs q ys h in
      ((NoId-remove (m x).id xs q ys none, rest), out)

  pub NoId-both : (id : ℤ) (xs ys : List Ptr) → NoId m id xs → NoId m id ys → NoId m id (xs ++ ys)
  NoId-both id [] ys h i = i
  NoId-both id (x ∷ xs) ys (ne, h) i = (ne, NoId-both id xs ys h i)

  pub NoId-absent : (q : Ptr) (xs : List Ptr) → NoId m (m q).id xs → q ∉ xs
  NoId-absent q [] h = refl
  NoId-absent q (x ∷ xs) (ne, h) =
      let rest = NoId-absent q xs h in
      elim (Bool-cases (q == x)) [
        | inl hit ↦ let same : q ≡ x = ground arith in absurd (ne (ap (λ p. (m p).id) (sym same)))
        | inr miss ↦ ground arith
      ]

  pub bq_by_id-null : (id : ℤ) (xs : List Ptr) → NoId m id xs → bq_by_id m xs id ≡ null
  unfolding bq_by_id
  bq_by_id-null id [] h = refl
  bq_by_id-null id (x ∷ xs) (ne, h) = elim (Bool-cases (eqb_ℤ (m x).id id)) [
    | inl hit ↦ absurd (ne (eqb_ℤ-sound (m x).id id hit))
    | inr miss ↦ rw miss (bq_by_id-null id xs h)
  ]
