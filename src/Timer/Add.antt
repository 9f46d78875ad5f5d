-- ===== src/Timer/Add.antt =====
-- Where `TimerList_add` puts a timer.
use so_oscilloscopio.Base.{
  ◌≡◌, refl, sym, subst, ap, ◌≢◌, ◌⊎◌, inl, inr, ℤ, ◌<ℤ◌, ltb_ℤ, List, [], ◌∷◌, ◌++◌, arith, true,
  false, ◌∈◌, ◌∉◌, Distinct, Bool-cases, ==_ne, ==_refl, if◌then◌else◌, ne_of_mem, mem-left,
  mem-right, not-mem_of_subset,
}
use so_oscilloscopio.Run.{ok}
use so_oscilloscopio.Run.Returns.{Returns, returns}
use so_oscilloscopio.LinkedList.{Ptr, null}
use so_oscilloscopio.PoolAllocator.{PoolAllocator, get_block}
use so_oscilloscopio.PoolAllocator.Live.{Holds, get_block-Obtains}
use so_oscilloscopio.Kernel.{Kernel, TimerItem, update}
use so_oscilloscopio.Timer.{previous_timer, insert_behind, timer_list_add, timer_item_alloc}
use so_oscilloscopio.Timer.Order.{
  AtMost, Above, AtLeast, Sorted, Above-of_AtLeast, AtLeast-of_Above, Sorted-insert, AtMost-frame,
  Above-frame, Sorted-frame,
}

-- The timers that awake at `time` or before it, as long as there are such, and the rest.
unfoldable earlier : (Ptr → TimerItem) → ℤ → List Ptr → List Ptr
earlier m time [] = []
earlier m time (x ∷ xs) = if ltb_ℤ time (m x).awakening_time then [] else x ∷ earlier m time xs

unfoldable later : (Ptr → TimerItem) → ℤ → List Ptr → List Ptr
later m time [] = []
later m time (x ∷ xs) = if ltb_ℤ time (m x).awakening_time then x ∷ xs else later m time xs

module _ (m : Ptr → TimerItem) (time : ℤ) where
  previous_timer-mem : (x : Ptr) (xs : List Ptr) → previous_timer m xs time x ∈ x ∷ xs
  unfolding previous_timer
  previous_timer-mem x [] = ground (arith, ==_refl x)
  previous_timer-mem x (y ∷ ys) = let rest = previous_timer-mem y ys in ground (arith, ==_refl x)

  earlier-append-later : (xs : List Ptr) → xs ≡ earlier m time xs ++ later m time xs
  unfolding earlier later
  earlier-append-later [] = refl
  earlier-append-later (x ∷ xs) = elim (Bool-cases (ltb_ℤ time (m x).awakening_time)) [
    | inl e ↦ rw e
    | inr e ↦ rw e (ap (◌∷◌ x) (earlier-append-later xs))
  ]

  module _ (x y : Ptr) (ys : List Ptr) where
    previous_timer-stop :
        ltb_ℤ time (m y).awakening_time ≡ true → previous_timer m (y ∷ ys) time x ≡ x
    unfolding previous_timer
    previous_timer-stop e = rw e

    previous_timer-step :
        ltb_ℤ time (m y).awakening_time ≡ false
        → previous_timer m (y ∷ ys) time x ≡ previous_timer m ys time y
    unfolding previous_timer
    previous_timer-step e = rw e

  insert_behind-further :
      (p item x : Ptr) (xs : List Ptr)
      → p ∈ xs
      → x ∉ xs
      → null ∉ xs
      → insert_behind p item (x ∷ xs) ≡ x ∷ insert_behind p item xs
  unfolding insert_behind
  insert_behind-further p item x xs i d n =
      let present = ne_of_mem null p xs n i in
      let further = ne_of_mem x p xs d i in
      rw (==_ne p null λ e. present (sym e), ==_ne x p further)

  previous_timer-nil : (x : Ptr) → previous_timer m [] time x ≡ x
  unfolding previous_timer
  previous_timer-nil x = refl

  insert_behind-front : (item : Ptr) (xs : List Ptr) → insert_behind null item xs ≡ item ∷ xs
  unfolding insert_behind
  insert_behind-front item [] = refl
  insert_behind-front item (x ∷ xs) = refl

  insert_behind-here :
      (item x : Ptr) (xs : List Ptr) → x ≢ null → insert_behind x item (x ∷ xs) ≡ x ∷ item ∷ xs
  unfolding insert_behind
  insert_behind-here item x xs ne = rw (==_ne x null ne, ==_refl x)

  insert_behind-previous :
      (item x : Ptr) (xs : List Ptr)
      → Distinct (x ∷ xs)
      → null ∉ x ∷ xs
      → insert_behind (previous_timer m xs time x) item (x ∷ xs)
        ≡ x ∷ (earlier m time xs ++ item ∷ later m time xs)
  unfolding earlier later
  insert_behind-previous item x [] d n =
      rw (previous_timer-nil x) (insert_behind-here item x [] (ground arith))
  insert_behind-previous item x (y ∷ ys) d n = elim (Bool-cases (ltb_ℤ time (m y).awakening_time)) [
    | inl e ↦
        rw (previous_timer-stop x y ys e, e) (insert_behind-here item x (y ∷ ys) (ground arith))
    | inr e ↦
        rw
          (
            previous_timer-step x y ys e,
            e,
            insert_behind-further (previous_timer m ys time y) item x (y ∷ ys)
                (previous_timer-mem y ys) d.0 (ground arith),
          )
          (ap (◌∷◌ x) (insert_behind-previous item y ys d.1 (ground arith)))
  ]

  insert_behind-split :
      (item : Ptr) (xs : List Ptr)
      → Distinct xs
      → null ∉ xs
      → insert_behind (previous_timer m xs time null) item xs
        ≡ earlier m time xs ++ item ∷ later m time xs
  unfolding earlier later
  insert_behind-split item [] d n = rw (previous_timer-nil null) (insert_behind-front item [])
  insert_behind-split item (x ∷ xs) d n = elim (Bool-cases (ltb_ℤ time (m x).awakening_time)) [
    | inl e ↦ rw (previous_timer-stop null x xs e, e) (insert_behind-front item (x ∷ xs))
    | inr e ↦ rw (previous_timer-step null x xs e, e) (insert_behind-previous item x xs d n)
  ]

  earlier-AtMost : (xs : List Ptr) → AtMost m time (earlier m time xs)
  unfolding earlier
  earlier-AtMost [] = tt
  earlier-AtMost (x ∷ xs) = elim (Bool-cases (ltb_ℤ time (m x).awakening_time)) [
    | inl e ↦ rw e tt
    | inr e ↦ rw e (ground arith, earlier-AtMost xs)
  ]

  later-Above : (xs : List Ptr) → Sorted m xs → Above m time (later m time xs)
  unfolding later
  later-Above [] s = tt
  later-Above (x ∷ xs) (least, s) = elim (Bool-cases (ltb_ℤ time (m x).awakening_time)) [
    | inl e ↦
        let lt : time <ℤ (m x).awakening_time = ground arith in
        rw e (lt, Above-of_AtLeast m time (m x).awakening_time xs lt least)
    | inr e ↦ rw e (later-Above xs s)
  ]

-- What adding a timer for `pcb` at `time` leads to: the new timer `item` stands behind all that awake
-- at `time` or before it, and before all that awake later.
pub record Added (k : Kernel) (time : ℤ) (pcb item : Ptr) (l : Kernel) : Type 0 where
  pub before : List Ptr
  pub after : List Ptr
  pub was : k.timer_list ≡ before ++ after
  pub now : l.timer_list ≡ before ++ item ∷ after
  pub awakens : (l.timer_memory item).awakening_time ≡ time
  pub wakes : (l.timer_memory item).pcb ≡ pcb
  pub below : AtMost l.timer_memory time before
  pub above : Above l.timer_memory time after
  pub sorted : Sorted l.timer_memory l.timer_list

-- The state after the block `item` of pool `b` becomes the timer of `pcb` at `time`.
abbrev pub timer_added : Kernel → ℤ → (pcb item : Ptr) → PoolAllocator → Kernel
timer_added k time pcb item b = record k {
  timer_item_allocator = b;
  timer_memory = update k.timer_memory item (record { awakening_time = time; pcb = pcb });
  timer_list =
      insert_behind (previous_timer k.timer_memory k.timer_list time null) item k.timer_list;
}

module _ (k : Kernel) (time : ℤ) (pcb item : Ptr) (b : PoolAllocator) where
  pub timer_list_add_run :
      get_block k.timer_item_allocator ≡ ok item b
      → item ≢ null
      → timer_list_add time pcb k ≡ ok item (timer_added k time pcb item b)
  unfolding timer_list_add timer_item_alloc
  timer_list_add_run got ne = rw (got, ==_ne item null ne) (rw (==_ne item null ne))

  pub timer_added-Added :
      item ∉ k.timer_list
      → null ∉ k.timer_list
      → Distinct k.timer_list
      → Sorted k.timer_memory k.timer_list
      → Added k time pcb item (timer_added k time pcb item b)
  timer_added-Added fresh n d s =
      let m = k.timer_memory in
      let xs = k.timer_list in
      let l = timer_added k time pcb item b in
      let before = earlier m time xs in
      let after = later m time xs in
      let split = earlier-append-later m time xs in
      let now = insert_behind-split m time item xs d n in
      let same : (p : Ptr) → p ∈ xs → l.timer_memory p ≡ m p =
        λ p i. rw (==_ne p item λ e. ne_of_mem item p xs fresh i (sym e)) in
      let same_before = λ (p : Ptr) (i : p ∈ before).
        same p (subst (λ l. p ∈ l) (sym split) (mem-left p before after i)) in
      let same_after = λ (p : Ptr) (i : p ∈ after).
        same p (subst (λ l. p ∈ l) (sym split) (mem-right p before after i)) in
      let at : l.timer_memory item ≡ record { awakening_time = time; pcb = pcb } =
        rw (==_refl item) in
      let below =
        AtMost-frame m l.timer_memory time before same_before (earlier-AtMost m time xs) in
      let above = Above-frame m l.timer_memory time after same_after (later-Above m time xs s) in
      let kept = subst (Sorted l.timer_memory) split (Sorted-frame m l.timer_memory xs same s) in
      record {
        before = before;
        after = after;
        was = split;
        now = now;
        awakens = ap (λ (v : TimerItem). v.awakening_time) at;
        wakes = ap (λ (v : TimerItem). v.pcb) at;
        below = below;
        above = above;
        sorted = subst (Sorted l.timer_memory) (sym now) (
            Sorted-insert l.timer_memory item before after kept
              (subst (λ (v : TimerItem). AtMost l.timer_memory v.awakening_time before) (sym at)
                below)
              (subst (λ (v : TimerItem). AtLeast l.timer_memory v.awakening_time after) (sym at)
                (AtLeast-of_Above l.timer_memory time after above)));
      }

-- Where the list of timers is in the order of their awakening times and its items are distinct live
-- blocks of the pool of timers, `TimerList_add` returns null and changes nothing, and that only if
-- the pool has no block left, or it returns a new timer of the given process and time. That one
-- stands behind every timer of the same or an earlier time and before every later one, the others
-- stay where they are, and the list is in order again.
pub timer_list_add-Added :
    (k : Kernel) (time : ℤ) (pcb : Ptr) (live : List Ptr)
    → Holds k.timer_item_allocator live
    → ((p : Ptr) → p ∈ k.timer_list → p ∈ live)
    → null ∉ k.timer_list
    → Distinct k.timer_list
    → Sorted k.timer_memory k.timer_list
    → ((timer_list_add time pcb k ≡ ok null k)
        × (get_block k.timer_item_allocator ≡ ok null k.timer_item_allocator))
      ⊎ Returns (λ item l. (item ≢ null) × Added k time pcb item l) (timer_list_add time pcb k)
unfolding timer_list_add timer_item_alloc
timer_list_add-Added k time pcb live h owned n d s =
    elim (get_block-Obtains k.timer_item_allocator live h) [
      | inl none ↦ inl (rw none, none)
      | inr (item, b, got, ne, fresh, held) ↦ inr (
          subst (Returns λ item l. (item ≢ null) × Added k time pcb item l)
            (sym (timer_list_add_run k time pcb item b got ne))
            (returns (
              ne,
              timer_added-Added k time pcb item b (not-mem_of_subset item _ live owned fresh) n d s,
            )))
    ]
