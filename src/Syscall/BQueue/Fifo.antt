-- ===== src/Syscall/BQueue/Fifo.antt =====
-- A blocking queue as an unbounded first-in first-out queue: the values in its buffer, and behind
-- them those of the producers that wait, in the order in which they came.
use so_oscilloscopio.Base.{
  ℕ, ◌≡◌, refl, ap, ◌∙◌, ◌≢◌, ◌⊎◌, inl, inr, ℤ, pos, ◌≤ℤ◌, List, [], ◌∷◌, ◌++◌, map, arith, false,
  ◌==◌, ◌∈◌, ◌∉◌, Distinct, length, ==_refl, Bool-cases, first_or,
}
use so_oscilloscopio.Run.{ok}
use so_oscilloscopio.LinkedList.{Ptr, null}
use so_oscilloscopio.PoolAllocator.{PoolAllocator, get_block}
use so_oscilloscopio.PoolAllocator.Live.{Holds, get_block-Obtains}
use so_oscilloscopio.Kernel.{Kernel, Pcb, BlockingQueue, update}
use so_oscilloscopio.Kernel.Lists.{is_listed}
use so_oscilloscopio.Kernel.Effects.{switched}

-- The value that the process behind a list item of `wait_putters` waits to put.
abbrev pub put_value : (Ptr → Pcb) → (Ptr → Ptr) → Ptr → ℤ
put_value pcbs ptrs item = (pcbs (ptrs item)).syscall_args 1

unfoldable pub contents : Kernel → BlockingQueue → List ℤ
contents k v =
    map k.bqitem_memory v.items ++ map (put_value k.pcb_memory k.pcb_ptr_memory) v.wait_putters

-- The fields of a queue agree with one another.
pub record IsQueue (v : BlockingQueue) : Type 0 where
  pub counted : v.size ≡ length v.items
  pub room : pos v.size ≤ℤ v.capacity
  pub positive : pos 1 ≤ℤ v.capacity
  pub full : (v.wait_putters ≡ []) ⊎ (pos v.size ≡ v.capacity)
  pub empty : (v.wait_getters ≡ []) ⊎ ((v.items ≡ []) × (v.wait_putters ≡ []))

-- The items and the waiters' list items of the queue are live blocks of their pools.
pub record Owns (k : Kernel) (v : BlockingQueue) : Type 0 where
  pub items : List Ptr
  pub items_live : Holds k.bqitem_allocator items
  pub items_distinct : Distinct items
  pub items_owned : (p : Ptr) → p ∈ v.items → p ∈ items
  pub own_distinct : Distinct v.items
  pub ptrs : List Ptr
  pub ptrs_live : Holds k.pcb_ptr_allocator ptrs
  pub ptrs_distinct : Distinct ptrs
  pub ptrs_owned : (p : Ptr) → p ∈ v.wait_getters ++ v.wait_putters → p ∈ ptrs

-- A process runs and is on no list, and the lists of processes are in order.
pub record IsRunning (k : Kernel) : Type 0 where
  pub running : k.running_pcb ≢ null
  pub unlisted : is_listed k k.running_pcb ≡ false
  pub ready : null ∉ k.ready_list
  pub waiting : Distinct k.waiting_list

-- The pool has a block left.
abbrev pub Available : PoolAllocator → Type 0
Available a = get_block a ≢ ok 0 a

abbrev pub SameArguments : (Ptr → Pcb) → (Ptr → Pcb) → Type 0
SameArguments m n = (p : Ptr) → (n p).syscall_args ≡ (m p).syscall_args

pub map-update_fresh {ℓ} :
    {A : Type ℓ} (m : Ptr → A) (it : Ptr) (v : A) (xs : List Ptr)
    → it ∉ xs
    → map (update m it v) xs ≡ map m xs
map-update_fresh m it v [] out = refl
map-update_fresh m it v (x ∷ xs) out = ground (arith, map-update_fresh m it v xs)

pub map-put_value :
    (m n : Ptr → Pcb) (ptrs : Ptr → Ptr) (xs : List Ptr)
    → SameArguments m n
    → map (put_value n ptrs) xs ≡ map (put_value m ptrs) xs
map-put_value m n ptrs [] same = refl
map-put_value m n ptrs (x ∷ xs) same =
    ap (λ (f : ℕ → ℤ). f 1 ∷ map (put_value n ptrs) xs) (same (ptrs x))
    ∙ ap (◌∷◌ (put_value m ptrs x)) (map-put_value m n ptrs xs same)

pub map-put_value_fresh :
    (m : Ptr → Pcb) (ptrs : Ptr → Ptr) (g self : Ptr) (xs : List Ptr)
    → g ∉ xs
    → map (put_value m (update ptrs g self)) xs ≡ map (put_value m ptrs) xs
map-put_value_fresh m ptrs g self [] out = refl
map-put_value_fresh m ptrs g self (x ∷ xs) out =
    ground (arith, map-put_value_fresh m ptrs g self xs)

-- A change of other fields of one control block.
pub SameArguments-update :
    (m : Ptr → Pcb) (p : Ptr) (v : Pcb)
    → v.syscall_args ≡ (m p).syscall_args
    → SameArguments m (update m p v)
SameArguments-update m p v e q = elim (Bool-cases (q == p)) [
  | inl hit ↦ rw hit (let at : q ≡ p = ground arith in rw at e)
  | inr miss ↦ rw miss
]

pub SameArguments-trans :
    (m n o : Ptr → Pcb) → SameArguments m n → SameArguments n o → SameArguments m o
SameArguments-trans m n o f g p = g p ∙ f p

pub SameArguments-switched :
    (k : Kernel) (l : List Ptr) → SameArguments k.pcb_memory (switched k l).pcb_memory
SameArguments-switched k [] p = refl
SameArguments-switched k (next ∷ others) p = SameArguments-update k.pcb_memory next _ refl p

-- What the switch to another process leaves as it is.
pub switched-contents :
    (k : Kernel) (l : List Ptr) (q : Ptr)
    → contents (switched k l) ((switched k l).bqueue_memory q) ≡ contents k (k.bqueue_memory q)
unfolding contents
switched-contents k [] q = refl
switched-contents k (next ∷ others) q = ap (◌++◌ (map k.bqitem_memory (k.bqueue_memory q).items)) (
    map-put_value k.pcb_memory (switched k (next ∷ others)).pcb_memory k.pcb_ptr_memory
      (k.bqueue_memory q).wait_putters (SameArguments-switched k (next ∷ others)))

-- The buffer after an item joins it, and the waiting values after a putter does.
pub map-update_append :
    (m : Ptr → ℤ) (it : Ptr) (w v : ℤ) (xs : List Ptr)
    → it ∉ xs
    → map (update (update m it w) it v) (xs ++ it ∷ []) ≡ map m xs ++ v ∷ []
map-update_append m it w v [] out = rw (==_refl it)
map-update_append m it w v (x ∷ xs) out =
    let rest = map-update_append m it w v xs (ground arith) in
    let miss : (x == it) ≡ false = ground arith in rw (miss, rest)

pub map-put_value_append :
    (m n : Ptr → Pcb) (ptrs : Ptr → Ptr) (g self : Ptr) (xs : List Ptr)
    → SameArguments m n
    → g ∉ xs
    → map (put_value n (update ptrs g self)) (xs ++ g ∷ [])
      ≡ map (put_value m ptrs) xs ++ (m self).syscall_args 1 ∷ []
map-put_value_append m n ptrs g self [] same out =
    rw (put_value, ==_refl g) (ap (λ (f : ℕ → ℤ). f 1 ∷ []) (same self))
map-put_value_append m n ptrs g self (x ∷ xs) same out =
    let rest = map-put_value_append m n ptrs g self xs same (ground arith) in
    let miss : (x == g) ≡ false = ground arith in
    let head : put_value n (update ptrs g self) x ≡ put_value m ptrs x =
      rw (put_value, miss) (ap (λ (f : ℕ → ℤ). f 1) (same (ptrs x))) in
    rw (head, rest)

pub switched-bqueues : (k : Kernel) (l : List Ptr) → (switched k l).bqueue_memory ≡ k.bqueue_memory
switched-bqueues k [] = refl
switched-bqueues k (next ∷ others) = refl

-- A block from a pool that is not exhausted.
pub obtained :
    (a : PoolAllocator) (live : List Ptr)
    → Holds a live
    → Available a
    → (p : Ptr) × (b : PoolAllocator) × (get_block a ≡ ok p b)
      × (p ≢ null)
      × (p ∉ live)
      × Holds b (p ∷ live)
obtained a live h some_left = go (get_block-Obtains a live h)
  where
    go :
        ((get_block a ≡ ok 0 a)
          ⊎ ((p : Ptr) × (b : PoolAllocator) × (get_block a ≡ ok p b)
              × (p ≢ 0)
              × (p ∉ live)
              × Holds b (p ∷ live)))
        → (p : Ptr) × (b : PoolAllocator) × (get_block a ≡ ok p b)
          × (p ≢ null)
          × (p ∉ live)
          × Holds b (p ∷ live)
    go (inl e) = absurd (some_left e)
    go (inr found) = found

pub switched-pcb_ptrs :
    (k : Kernel) (l : List Ptr) → (switched k l).pcb_ptr_memory ≡ k.pcb_ptr_memory
switched-pcb_ptrs k [] = refl
switched-pcb_ptrs k (next ∷ others) = refl

pub switched-waiting : (k : Kernel) (l : List Ptr) → (switched k l).waiting_list ≡ k.waiting_list
switched-waiting k [] = refl
switched-waiting k (next ∷ others) = refl

pub switched-running : (k : Kernel) (l : List Ptr) → (switched k l).running_pcb ≡ first_or null l
switched-running k [] = refl
switched-running k (next ∷ others) = refl
