-- ===== src/Syscall/Sleep/Timers.antt =====
-- The timers and the processes after `internal_sleep`, and its result.
use mathlib.Core.List.{map-append}
use so_oscilloscopio.Base.{
  ◌≡◌, refl, sym, ap, subst, ◌∙◌, ◌≢◌, ◌⊎◌, inl, inr, List, [], ◌∷◌, ◌++◌, map, arith, ◌==◌, ◌∈◌,
  ◌∉◌, mem, mem-head, mem-right, mem-append, first_or, Bool-cases, Distinct, Distinct-insert,
  Distinct-append, not-mem_of_subset, ne_of_mem,
}
use so_oscilloscopio.LinkedList.{Ptr, null}
use so_oscilloscopio.PoolAllocator.{PoolAllocator}
use so_oscilloscopio.PoolAllocator.Live.{Holds, held-ne_null}
use so_oscilloscopio.Kernel.{Kernel, TimerItem}
use so_oscilloscopio.Kernel.Effects.{update_self, update_ne}
use so_oscilloscopio.Timer.Add.{Added, timer_added, timer_added-Added}
use so_oscilloscopio.Interrupt.Expire.{IsTimers, sleeper}
use so_oscilloscopio.Interrupt.Runnable.{
  IsTicking, IsRunnable, requeued, requeued_self, runnable, runnable-IsScheduled,
}
use so_oscilloscopio.Syscall.Schedule.RoundRobin.{IsScheduled}
use so_oscilloscopio.Syscall.Sleep.Asleep.{others, wake_time, slept}

module _ (f g : Ptr → Ptr) where
  map_frame : (xs : List Ptr) → ((q : Ptr) → q ∈ xs → g q ≡ f q) → map g xs ≡ map f xs
  map_frame [] same = refl
  map_frame (x ∷ xs) same =
      let rest = map_frame xs λ q i. same q (mem-right q (x ∷ []) xs i) in
      ap (λ y. y ∷ map g xs) (same x (mem-head x xs)) ∙ ap (◌∷◌ (f x)) rest

not-mem-map :
    (f : Ptr → Ptr) (a : Ptr) (xs : List Ptr) → ((q : Ptr) → q ∈ xs → f q ≢ a) → a ∉ map f xs
not-mem-map f a [] apart = refl
not-mem-map f a (x ∷ xs) apart =
    let ne = apart x (mem-head x xs) in
    let rest = not-mem-map f a xs λ q i. apart q (mem-right q (x ∷ []) xs i) in ground arith

-- The ready processes, of which the first gets the processor.
module _ (ready : List Ptr) (present : null ∉ ready) where
  first-others : requeued (first_or null ready) ++ others ready ≡ ready
  first-others = go ready present
    where
      go : (xs : List Ptr) → null ∉ xs → requeued (first_or null xs) ++ others xs ≡ xs
      go [] out = refl
      go (x ∷ xs) out = ap (λ l. l ++ xs) (requeued_self x (ground arith))

  others-mem : (q : Ptr) → q ∈ others ready → q ∈ ready
  others-mem q i =
      subst (λ l. q ∈ l) first-others
        (mem-right q (requeued (first_or null ready)) (others ready) i)

module _ (k : Kernel) (item : Ptr) (b : PoolAllocator) (h : IsTicking k) (on : k.running_pcb ≢ null)
    (fresh : item ∉ h.timers.live) (held : Holds b (item ∷ h.timers.live)) where
  abbrev self : Ptr
  self = k.running_pcb

  new_timer : item ∉ k.timer_list
  new_timer = not-mem_of_subset item k.timer_list h.timers.live h.timers.owned fresh

  null_timer : null ∉ k.timer_list
  null_timer = elim (Bool-cases (mem null k.timer_list)) [
    | inl i ↦ absurd (
        held-ne_null k.timer_item_allocator h.timers.live null h.timers.holds
          (h.timers.owned null i) refl)
    | inr out ↦ out
  ]

  pub added : Added k (wake_time k) self item (timer_added k (wake_time k) self item b)
  added =
      timer_added-Added k (wake_time k) self item b new_timer null_timer h.timers.distinct
        h.timers.sorted

  abbrev memory : Ptr → TimerItem
  memory = (slept k item b).timer_memory

  same : (t : Ptr) → t ∈ k.timer_list → memory t ≡ k.timer_memory t
  same t i =
      update_ne k.timer_memory item _ t λ e. ne_of_mem item t k.timer_list new_timer i (sym e)

  same_sleeper : (t : Ptr) → t ∈ k.timer_list → sleeper (slept k item b) t ≡ sleeper k t
  same_sleeper t i = ap (λ (v : TimerItem). v.pcb) (same t i)

  own_sleeper : sleeper (slept k item b) item ≡ self
  own_sleeper = ap (λ (v : TimerItem). v.pcb) (update_self k.timer_memory item _)

  -- A timer is the new one or an earlier one.
  timer_cases : (t : Ptr) → t ∈ (slept k item b).timer_list → (t ≡ item) ⊎ (t ∈ k.timer_list)
  timer_cases t i =
      let i' = subst (λ l. t ∈ l) added.now i in
      elim (Bool-cases (t == item)) [
        | inl hit ↦ inl (ground arith)
        | inr miss ↦ inr (
            subst (λ l. t ∈ l) (sym added.was)
              (ground (
                arith,
                mem-append t added.before (item ∷ added.after),
                mem-append t added.before added.after,
              )))
      ]

  pub scheduled : IsScheduled k
  scheduled = runnable-IsScheduled k on h.processes

  -- The new timer's process is the one that ran, and the others' are as before.
  slept_sleepers : Distinct (map (sleeper (slept k item b)) (slept k item b).timer_list)
  slept_sleepers =
      let f = sleeper (slept k item b) in
      let old : map f added.before ++ map f added.after ≡ map (sleeper k) k.timer_list =
        sym (map-append f added.before added.after)
        ∙ ap (map f) (sym added.was)
        ∙ map_frame (sleeper k) f k.timer_list same_sleeper in
      let distinct = subst Distinct (sym old) h.timers.sleepers in
      let out =
        subst (λ l. self ∉ l) (sym old) (not-mem-map (sleeper k) self k.timer_list h.apart) in
      let put = Distinct-insert self (map f added.before) (map f added.after) distinct out in
      subst (λ l. Distinct (map f l)) (sym added.now)
        (subst Distinct (sym (map-append f added.before (item ∷ added.after))) (
          subst (λ p. Distinct (map f added.before ++ p ∷ map f added.after)) (sym own_sleeper)
            put))

  behind_ne : (q : Ptr) → q ∈ k.ready_list → q ≢ self
  behind_ne q i e = ne_of_mem self q k.ready_list scheduled.distinct.0 i (sym e)

  ready_present : null ∉ k.ready_list
  ready_present = let n = scheduled.present in ground arith

  slept-IsTimers : IsTimers (slept k item b) (slept k item b).timer_list
  slept-IsTimers =
      let l = slept k item b in
      let s = scheduled in
      let here = mem-head self k.ready_list in
      let present : (t : Ptr) → t ∈ l.timer_list → sleeper l t ≢ null = λ t i.
        elim (timer_cases t i) [
          | inl e ↦ rw (ap (sleeper l) e ∙ own_sleeper) on
          | inr j ↦ rw (same_sleeper t j) (h.timers.present t j)
        ] in
      record {
        live = item ∷ h.timers.live;
        holds = held;
        live_distinct = (fresh, h.timers.live_distinct);
        owned = λ t i. elim (timer_cases t i) [
          | inl e ↦ subst (λ q. q ∈ item ∷ h.timers.live) (sym e) (mem-head item h.timers.live)
          | inr j ↦ mem-right t (item ∷ []) h.timers.live (h.timers.owned t j)
        ];
        distinct = subst Distinct (sym added.now) (
            Distinct-insert item added.before added.after
              (subst Distinct added.was h.timers.distinct)
              (subst (λ l. item ∉ l) added.was new_timer));
        sorted = added.sorted;
        sleepers = slept_sleepers;
        present = present;
        not_ready = λ t i. elim (timer_cases t i) [
          | inl e ↦
              subst (λ p. p ∉ others k.ready_list) (sym (ap (sleeper l) e ∙ own_sleeper))
                (not-mem_of_subset self (others k.ready_list) k.ready_list
                  (others-mem k.ready_list ready_present) s.distinct.0)
          | inr j ↦
              subst (λ p. p ∉ others k.ready_list) (sym (same_sleeper t j))
                (not-mem_of_subset (sleeper k t) (others k.ready_list) k.ready_list
                  (others-mem k.ready_list ready_present) (h.timers.not_ready t j))
        ];
        not_zombie = λ t i. elim (timer_cases t i) [
          | inl e ↦
              subst (λ p. p ∉ k.zombie_list) (sym (ap (sleeper l) e ∙ own_sleeper))
                (s.not_zombie self here)
          | inr j ↦
              subst (λ p. p ∉ k.zombie_list) (sym (same_sleeper t j)) (h.timers.not_zombie t j)
        ];
        waiting =
            Distinct-append k.waiting_list (self ∷ []) h.timers.waiting (refl, tt)
              λ q i. let w = s.not_waiting self here in ground arith;
      }

  slept-IsRunnable : IsRunnable (slept k item b) (runnable (slept k item b))
  slept-IsRunnable =
      let s = scheduled in
      subst (IsRunnable (slept k item b)) (sym (first-others k.ready_list ready_present)) (record {
        distinct = s.distinct.1;
        present = ready_present;
        not_waiting = λ q i.
            let w = s.not_waiting q (mem-right q (self ∷ []) k.ready_list i) in
            let ne = behind_ne q i in ground (arith, mem-append q k.waiting_list (self ∷ []));
        not_zombie = λ q i. s.not_zombie q (mem-right q (self ∷ []) k.ready_list i);
      })

  first_apart : (p : Ptr) → p ≢ null → p ∉ k.ready_list → p ≢ first_or null k.ready_list
  first_apart p ne out = go k.ready_list out
    where
      go : (xs : List Ptr) → p ∉ xs → p ≢ first_or null xs
      go [] o e = ne e
      go (x ∷ xs) o e = ground arith

  pub slept-IsTicking : IsTicking (slept k item b)
  slept-IsTicking = record {
    timers = slept-IsTimers;
    processes = slept-IsRunnable;
    apart = λ t i. elim (timer_cases t i) [
      | inl e ↦
          subst (λ p. p ≢ first_or null k.ready_list)
            (sym (ap (sleeper (slept k item b)) e ∙ own_sleeper))
            (first_apart self on scheduled.distinct.0)
      | inr j ↦
          subst (λ p. p ≢ first_or null k.ready_list) (sym (same_sleeper t j))
            (first_apart (sleeper k t) (h.timers.present t j) (h.timers.not_ready t j))
    ];
  }
