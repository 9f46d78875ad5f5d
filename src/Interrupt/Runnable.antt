-- ===== src/Interrupt/Runnable.antt =====
-- What keeps the interrupts of the timer possible: the running and the ready processes, and the
-- timers of others.
use mathlib.Core.List.{append_assoc}
use so_oscilloscopio.Base.{
  ◌≡◌, refl, sym, subst, ◌≢◌, ◌⊎◌, inl, inr, leb_ℤ, List, [], ◌∷◌, ◌++◌, arith, ◌==◌, if◌then◌else◌,
  ◌∈◌, ◌∉◌, mem-head, mem-right, mem-append, mem-erase, erase, Bool-cases, ==_ne, Distinct,
  Distinct-append,
}
use so_oscilloscopio.Run.Returns
use so_oscilloscopio.Run.Returns.{Returns, returns}
use so_oscilloscopio.LinkedList.{Ptr, null}
use so_oscilloscopio.PoolAllocator.{PoolAllocator}
use so_oscilloscopio.PoolAllocator.Live.{Holds, release_block-Holds, held-ne_null}
use so_oscilloscopio.Kernel.{Kernel}
use so_oscilloscopio.Syscall.Schedule.RoundRobin.{IsScheduled}
use so_oscilloscopio.Interrupt.{wake_expired}
use so_oscilloscopio.Interrupt.Expire.{sleeper, IsTimers, expired, expire_run, expired-IsTimers}
use so_oscilloscopio.Interrupt.Wake.{wake_expired-nil, wake_expired_stop, wake_expired_step}

-- The process that runs, if there is one.
abbrev pub requeued : Ptr → List Ptr
requeued p = if p == null then [] else p ∷ []

-- The processes that have the processor or are ready for it.
abbrev pub runnable : Kernel → List Ptr
runnable k = requeued k.running_pcb ++ k.ready_list

-- The processes `ps` are distinct and on no list of waiting or ended processes.
pub record IsRunnable (k : Kernel) (ps : List Ptr) : Type 0 where
  pub distinct : Distinct ps
  pub present : null ∉ ps
  pub not_waiting : (p : Ptr) → p ∈ ps → p ∉ k.waiting_list
  pub not_zombie : (p : Ptr) → p ∈ ps → p ∉ k.zombie_list

-- The runnable processes are on no other list, and no timer wakes one of them.
pub record IsTicking (k : Kernel) : Type 0 where
  pub timers : IsTimers k k.timer_list
  pub processes : IsRunnable k (runnable k)
  pub apart : (t : Ptr) → t ∈ k.timer_list → sleeper k t ≢ k.running_pcb

pub requeued_self : (p : Ptr) → p ≢ null → requeued p ≡ p ∷ []
requeued_self p ne = rw (==_ne p null ne)

pub runnable-sleeper :
    (k : Kernel) → IsTicking k → (t : Ptr) → t ∈ k.timer_list → sleeper k t ∉ runnable k
runnable-sleeper k h t i =
    let s = sleeper k t in
    let ne = h.apart t i in
    let out = h.timers.not_ready t i in
    let front : s ∉ requeued k.running_pcb = ground arith in
    ground (arith, mem-append s (requeued k.running_pcb) k.ready_list)

-- The scheduler's condition, and this one, with a process that runs.
pub runnable-IsScheduled :
    (k : Kernel) → k.running_pcb ≢ null → IsRunnable k (runnable k) → IsScheduled k
runnable-IsScheduled k ne h =
    let h' = subst (λ l. IsRunnable k (l ++ k.ready_list)) (requeued_self k.running_pcb ne) h in
    record {
      distinct = h'.distinct;
      present = h'.present;
      not_waiting = h'.not_waiting;
      not_zombie = h'.not_zombie;
    }

pub IsScheduled-runnable : (k : Kernel) → IsScheduled k → IsRunnable k (runnable k)
IsScheduled-runnable k s =
    let ne : k.running_pcb ≢ null = let p = s.present in ground arith in
    subst (λ l. IsRunnable k (l ++ k.ready_list)) (sym (requeued_self k.running_pcb ne))
      (record {
        distinct = s.distinct;
        present = s.present;
        not_waiting = s.not_waiting;
        not_zombie = s.not_zombie;
      })

-- The process `p` becomes the last of the runnable ones, and waits no more.
module _ (k : Kernel) (ps : List Ptr) (p : Ptr) (b : PoolAllocator) (h : IsRunnable k ps)
    (waiting : Distinct k.waiting_list) where
  added-mem : (q : Ptr) → q ∈ ps ++ p ∷ [] → (q ≡ p) ⊎ (q ∈ ps)
  added-mem q i = ground (arith, mem-append q ps (p ∷ []))

  added-IsRunnable :
      (ne : p ≢ null) (out : p ∉ ps) (alive : p ∉ k.zombie_list) (x : Ptr) (rest : List Ptr)
      → sleeper k x ≡ p
      → IsRunnable (expired k x rest b) (ps ++ p ∷ [])
  added-IsRunnable ne out alive x rest same = record {
    distinct = Distinct-append ps (p ∷ []) h.distinct (refl, tt) λ q i. ground arith;
    present = let n = h.present in ground (arith, mem-append null ps (p ∷ []));
    not_waiting = λ q i. elim (added-mem q i) [
      | inl e ↦ ground (arith, same, mem-erase q (sleeper k x) k.waiting_list waiting)
      | inr j ↦
          let w = h.not_waiting q j in
          ground (arith, mem-erase q (sleeper k x) k.waiting_list waiting)
    ];
    not_zombie = λ q i. elim (added-mem q i) [
      | inl e ↦ subst (λ p. p ∉ k.zombie_list) (sym e) alive
      | inr j ↦ h.not_zombie q j
    ];
  }

expired-IsTicking :
    (k : Kernel) (x : Ptr) (rest : List Ptr) (b : PoolAllocator)
    → k.timer_list ≡ x ∷ rest
    → (h : IsTicking k) (timers : IsTimers k (x ∷ rest)) → Holds b (erase x timers.live)
    → IsTicking (expired k x rest b)
expired-IsTicking k x rest b order h timers held =
    let here = mem-head x rest in
    let there : x ∈ k.timer_list = rw order here in
    record {
      timers = expired-IsTimers k x rest timers b held;
      processes =
          subst (IsRunnable (expired k x rest b))
            (append_assoc (requeued k.running_pcb) k.ready_list (sleeper k x ∷ []))
            (added-IsRunnable k (runnable k) (sleeper k x) b h.processes timers.waiting
              (timers.present x here) (runnable-sleeper k h x there) (timers.not_zombie x here) x
              rest refl);
      apart = λ t i. h.apart t (rw order (mem-right t (x ∷ []) rest i));
    }

pub wake_expired-IsTicking :
    (k : Kernel) (timers : List Ptr)
    → k.timer_list ≡ timers
    → IsTicking k
    → Returns (λ _ l. IsTicking l) (wake_expired timers k)
wake_expired-IsTicking k [] order h = rw (wake_expired-nil k) (returns h)
wake_expired-IsTicking k (x ∷ rest) order h =
    elim (Bool-cases (leb_ℤ (k.timer_memory x).awakening_time k.disastr_os_time)) [
      | inl due ↦
          let timers = subst (IsTimers k) order h.timers in
          let held = timers.owned x (mem-head x rest) in
          let ne = held-ne_null k.timer_item_allocator timers.live x timers.holds held in
          let (r, b, gave, (_, holds)) = Returns.result (
            release_block-Holds k.timer_item_allocator timers.live timers.holds x held
              timers.live_distinct) in
          rw (wake_expired_step k x rest order due ne, expire_run k x rest order timers r b gave)
            (wake_expired-IsTicking (expired k x rest b) rest refl
              (expired-IsTicking k x rest b order h timers holds))
      | inr not_yet ↦ rw (wake_expired_stop k x rest order not_yet) (returns h)
    ]
