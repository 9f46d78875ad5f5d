-- ===== src/Interrupt/Tick.antt =====
-- The whole of `timerInterrupt`: the clock, the timers and the choice of the next process.
use mathlib.Core.List.{append-nil}
use so_oscilloscopio.Base.{
  ◌≡◌, refl, sym, ap, subst, ◌∙◌, ◌≢◌, inl, inr, pos, ◌+ℤ◌, to_int, List, [], ◌∷◌, ◌++◌, map, arith,
  true, false, ◌==◌, if◌then◌else◌, ◌∈◌, ◌∉◌, mem-head, mem-left, mem-right, mem-append,
  not-mem_of_subset, Bool-cases, ==_refl, Distinct,
}
use so_oscilloscopio.Run.{ok}
use so_oscilloscopio.Run.Returns
use so_oscilloscopio.Run.Returns.{Returns, returns}
use so_oscilloscopio.LinkedList.{Ptr, null}
use so_oscilloscopio.Kernel.{Kernel, Pcb, running}
use so_oscilloscopio.Kernel.Lists.{run_next}
use so_oscilloscopio.Kernel.Effects.{switched, run_next_run}
use so_oscilloscopio.Syscall.Schedule.{internal_schedule}
use so_oscilloscopio.Syscall.Schedule.RoundRobin.{
  rotated, rotated-IsScheduled, internal_schedule_run,
}
use so_oscilloscopio.Timer.Order.{AtMost, Above}
use so_oscilloscopio.Interrupt.{reschedule, timer_interrupt}
use so_oscilloscopio.Interrupt.Expire.{sleeper}
use so_oscilloscopio.Interrupt.Runnable.{
  IsTicking, requeued, runnable, requeued_self, runnable-sleeper, runnable-IsScheduled,
  IsScheduled-runnable, wake_expired-IsTicking,
}
use so_oscilloscopio.Interrupt.Wake.{wake_expired-Woken}

-- With the processes of `queue` ready while `ran` ran, or none if that is null, the first of the
-- queue runs now and `ran` is behind the others; on an empty queue nothing changes.
abbrev pub Dispatched : (ran : Ptr) (queue : List Ptr) → Kernel → Type 0
Dispatched ran [] l = (l.running_pcb ≡ ran) × (l.ready_list ≡ [])
Dispatched ran (next ∷ others) l =
    (l.running_pcb ≡ next)
    × ((l.pcb_memory next).status ≡ running)
    × (l.ready_list ≡ others ++ requeued ran)

-- What the choice of the next process leaves as it is.
abbrev SameTimers : Kernel → Kernel → Type 0
SameTimers k l =
    (l.timer_list ≡ k.timer_list)
    × (l.disastr_os_time ≡ k.disastr_os_time)
    × (l.timer_memory ≡ k.timer_memory)

module _ (k : Kernel) (next : Ptr) (others : List Ptr) (order : k.ready_list ≡ next ∷ others) where
  reschedule_idle :
      (k.running_pcb == null) ≡ true
      → null ∉ next ∷ others
      → reschedule k ≡ ok tt (switched k (next ∷ others))
  unfolding reschedule
  reschedule_idle idle out =
      chosen
      ∙ run_next_run k (subst (λ l. null ∉ l) (sym order) out)
      ∙ ap (λ l. ok tt (switched k l)) order
    where
      chosen : reschedule k ≡ run_next k
      chosen = ground (arith, order, idle)

  reschedule_busy : (k.running_pcb == null) ≡ false → reschedule k ≡ internal_schedule k
  unfolding reschedule
  reschedule_busy busy = ground (arith, order, busy)

reschedule-nil : (k : Kernel) → k.ready_list ≡ [] → reschedule k ≡ ok tt k
unfolding reschedule
reschedule-nil k order = ground (arith, order)

-- The state differs from `k` in who runs and in who is ready, among the same processes.
pub switched-IsTicking :
    (k : Kernel) (m : Ptr → Pcb) (p : Ptr) (ready : List Ptr)
    → IsTicking k
    → Distinct (requeued p ++ ready)
    → ((q : Ptr) → q ∈ requeued p ++ ready → q ∈ runnable k)
    → IsTicking (record k { pcb_memory = m; running_pcb = p; ready_list = ready })
switched-IsTicking k m p ready h distinct same = record {
  timers = record {
    live = h.timers.live;
    holds = h.timers.holds;
    live_distinct = h.timers.live_distinct;
    owned = h.timers.owned;
    distinct = h.timers.distinct;
    sorted = h.timers.sorted;
    sleepers = h.timers.sleepers;
    present = h.timers.present;
    not_ready = λ t i.
        not-mem_of_subset (sleeper k t) ready (runnable k)
          (λ q j. same q (mem-right q (requeued p) ready j)) (runnable-sleeper k h t i);
    not_zombie = h.timers.not_zombie;
    waiting = h.timers.waiting;
  };
  processes = record {
    distinct = distinct;
    present = not-mem_of_subset null (requeued p ++ ready) (runnable k) same h.processes.present;
    not_waiting = λ q i. h.processes.not_waiting q (same q i);
    not_zombie = λ q i. h.processes.not_zombie q (same q i);
  };
  apart = λ t i e.
      let out = runnable-sleeper k h t i in
      let ne = h.timers.present t i in
      let there : p ∈ requeued p ++ ready =
        mem-left p (requeued p) ready
          (subst (λ l. p ∈ l) (sym (requeued_self p λ z. ne (e ∙ z))) (mem-head p [])) in
      let inside = same p there in let inside' = subst (λ q. q ∈ runnable k) (sym e) inside in cc;
}

module _ (k : Kernel) (h : IsTicking k) (next : Ptr) (others : List Ptr)
    (order : k.ready_list ≡ next ∷ others) where
  next_ne : next ≢ null
  next_ne =
      let n = h.processes.present in
      ground (arith, order, mem-append null (requeued k.running_pcb) k.ready_list)

  idle_IsTicking : (k.running_pcb == null) ≡ true → IsTicking (switched k (next ∷ others))
  idle_IsTicking idle =
      let front : runnable k ≡ next ∷ others =
        ap (λ b. (if b then [] else k.running_pcb ∷ []) ++ k.ready_list) idle ∙ order in
      let back : requeued next ++ others ≡ next ∷ others =
        ap (λ l. l ++ others) (requeued_self next next_ne) in
      let same : requeued next ++ others ≡ runnable k = back ∙ sym front in
      switched-IsTicking k (switched k (next ∷ others)).pcb_memory next others h
        (subst Distinct (sym same) h.processes.distinct) λ q i. subst (λ l. q ∈ l) same i

  busy_IsTicking : k.running_pcb ≢ null → IsTicking (rotated k next others)
  busy_IsTicking on =
      let s = runnable-IsScheduled k on h.processes in
      let after =
        IsScheduled-runnable (rotated k next others) (rotated-IsScheduled k next others order s) in
      switched-IsTicking k (rotated k next others).pcb_memory next (others ++ k.running_pcb ∷ []) h
        after.distinct
        λ q i.
          let j : q ∈ next ∷ (others ++ k.running_pcb ∷ []) =
            subst (λ l. q ∈ l ++ (others ++ k.running_pcb ∷ [])) (requeued_self next next_ne) i in
          subst (λ l. q ∈ l ++ k.ready_list) (sym (requeued_self k.running_pcb on))
            (ground (arith, order, mem-append q others (k.running_pcb ∷ [])))

reschedule-Dispatched :
    (k : Kernel) (ran : Ptr) (queue : List Ptr)
    → k.running_pcb ≡ ran
    → k.ready_list ≡ queue
    → IsTicking k
    → Returns (λ _ l. Dispatched ran queue l × SameTimers k l × IsTicking l) (reschedule k)
reschedule-Dispatched k ran [] e order h =
    rw (reschedule-nil k order) (returns ((e, order), (refl, refl, refl), h))
reschedule-Dispatched k ran (next ∷ others) e order h = elim (Bool-cases (k.running_pcb == null)) [
  | inl idle ↦
      let none : ran ≡ null = ground arith in
      let n = h.processes.present in
      rw
        (reschedule_idle k next others order idle
          (ground (arith, order, mem-append null (requeued k.running_pcb) k.ready_list)))
        (returns (
          (
            refl,
            rw (==_refl next),
            sym (append-nil others) ∙ ap (λ p. others ++ requeued p) (sym none),
          ),
          (refl, refl, refl),
          idle_IsTicking k h next others order idle,
        ))
  | inr on ↦
      let on_ne : k.running_pcb ≢ null = ground arith in
      let s = runnable-IsScheduled k on_ne h.processes in
      rw (reschedule_busy k next others order on) (
        rw (internal_schedule_run k next others order s) (
          returns (
            (
              refl,
              rw (==_refl next),
              ap (λ p. others ++ p ∷ []) e
                  ∙ ap (λ l. others ++ l) (sym (requeued_self ran (subst (λ p. p ≢ null) e on_ne))),
            ),
            (refl, refl, refl),
            busy_IsTicking k h next others order on_ne,
          )))
]

-- What a tick does: the timers that the new time has reached are gone and their processes are behind
-- the ready ones, in the order of the timers, before the next process is chosen.
pub record Ticked (k : Kernel) (l : Kernel) : Type 0 where
  pub fired : List Ptr
  pub left : List Ptr
  pub was : k.timer_list ≡ fired ++ left
  pub now : l.timer_list ≡ left
  pub clock : l.disastr_os_time ≡ to_int (k.disastr_os_time +ℤ pos 1)
  pub due : AtMost k.timer_memory l.disastr_os_time fired
  pub not_due : Above k.timer_memory l.disastr_os_time left
  pub memory : l.timer_memory ≡ k.timer_memory
  pub dispatched : Dispatched k.running_pcb (k.ready_list ++ map (sleeper k) fired) l

abbrev advanced : Kernel → Kernel
advanced k = record k { disastr_os_time = to_int (k.disastr_os_time +ℤ pos 1) }

advanced-IsTicking : (k : Kernel) → IsTicking k → IsTicking (advanced k)
advanced-IsTicking k h = record {
  timers = record {
    live = h.timers.live;
    holds = h.timers.holds;
    live_distinct = h.timers.live_distinct;
    owned = h.timers.owned;
    distinct = h.timers.distinct;
    sorted = h.timers.sorted;
    sleepers = h.timers.sleepers;
    present = h.timers.present;
    not_ready = h.timers.not_ready;
    not_zombie = h.timers.not_zombie;
    waiting = h.timers.waiting;
  };
  processes = record {
    distinct = h.processes.distinct;
    present = h.processes.present;
    not_waiting = h.processes.not_waiting;
    not_zombie = h.processes.not_zombie;
  };
  apart = h.apart;
}

-- `timerInterrupt` advances the clock by one tick, wrapped to an `int`; exactly the timers that this
-- time has reached are taken off their list, and their processes are ready behind those that were, in
-- the order of their timers; then the first of the ready processes runs and the process that ran is
-- behind the others, and where none is ready all goes on as before. What is supposed holds afterwards
-- too: the timers are in order and distinct live blocks of their pool, and each wakes another process
-- that is not null, does not run, is not ready and not a zombie; the process that runs, if there is
-- one, and the ready ones are distinct, not null and on no other list.
pub timer_interrupt-Ticked :
    (k : Kernel) → IsTicking k → Returns (λ _ l. Ticked k l × IsTicking l) (timer_interrupt k)
unfolding timer_interrupt
timer_interrupt-Ticked k h =
    let h' = advanced-IsTicking k h in
    Returns.bind
      (Returns.both (wake_expired-Woken (advanced k) k.timer_list refl h'.timers)
        (wake_expired-IsTicking (advanced k) k.timer_list refl h'))
      λ _ l ((woken, _), ticking).
        Returns.weaken
          (reschedule-Dispatched l k.running_pcb (k.ready_list ++ map (sleeper k) woken.fired)
            woken.goes_on woken.awake ticking)
          λ _ m (next, (list, clock, memory), ticking').
            let now = clock ∙ woken.clock in
            (
              record {
                fired = woken.fired;
                left = woken.left;
                was = woken.was;
                now = list ∙ woken.now;
                clock = now;
                due = subst (λ t. AtMost k.timer_memory t woken.fired) (sym now) woken.due;
                not_due = subst (λ t. Above k.timer_memory t woken.left) (sym now) woken.not_due;
                memory = memory ∙ woken.memory;
                dispatched = next;
              },
              ticking',
            )
