-- ===== src/Syscall/Sleep/Outcome.antt =====
-- What `internal_sleep` leads to, and when the process that sleeps is woken.
use so_oscilloscopio.Base.{
  ℕ, suc, ◌+◌, ◌<◌, ◌^◌, ◌≡◌, refl, sym, ap, subst, ◌∙◌, ◌≢◌, ◌⊎◌, inl, inr, pos, ◌≤ℤ◌, ◌<ℤ◌, [],
  ◌∷◌, ◌++◌, arith, true, ◌==◌, ◌∈◌, ◌∉◌, mem, mem-head, mem-right, leb_ℤ, first_or, ==_ne, ==_refl,
  Bool-cases,
}
use so_oscilloscopio.Run.{ok, ◌>>◌}
use so_oscilloscopio.Run.Returns
use so_oscilloscopio.Run.Returns.{Returns, returns}
use so_oscilloscopio.Constants.Error
use so_oscilloscopio.LinkedList.{Ptr, null}
use so_oscilloscopio.PoolAllocator.{PoolAllocator, get_block}
use so_oscilloscopio.PoolAllocator.Live.{Holds, get_block-Obtains}
use so_oscilloscopio.Kernel.{Kernel, TimerItem, waiting, set_retvalue}
use so_oscilloscopio.Timer.{timer_list_add, timer_item_alloc}
use so_oscilloscopio.Timer.Add.{Added, timer_added, timer_list_add_run}
use so_oscilloscopio.Interrupt.Expire.{sleeper}
use so_oscilloscopio.Interrupt.Runnable.{
  IsTicking, runnable, runnable-sleeper, runnable-IsScheduled,
}
use so_oscilloscopio.Interrupt.Ticks.{Elapsed, ticks, ticks-Elapsed}
use so_oscilloscopio.Syscall.Sleep.{internal_sleep}
use so_oscilloscopio.Syscall.Sleep.Asleep.{
  others, wake_time, slept, leave_run, Refused, set_retvalue-Refused, sleep_busy, sleep_timer,
}
use so_oscilloscopio.Syscall.Sleep.Timers.{added, slept-IsTicking}
use so_oscilloscopio.Syscall.Schedule.RoundRobin.{IsScheduled}
use so_oscilloscopio.Syscall.BQueue.Fifo.{Available}

-- The caller had no timer, one was left in the pool, and the caller sleeps: a new timer, the block
-- that the pool handed out, is to wake it, it is the last of the waiting processes, and the first
-- of the ready ones has the processor.
pub record Slept (k : Kernel) (l : Kernel) : Type 0 where
  pub had_no_timer : (k.pcb_memory k.running_pcb).timer ≡ null
  pub left : Available k.timer_item_allocator
  pub timer : Ptr
  pub got : get_block k.timer_item_allocator ≡ ok timer l.timer_item_allocator
  pub added : Added k (wake_time k) k.running_pcb timer l
  pub status : (l.pcb_memory k.running_pcb).status ≡ waiting
  pub waits : l.waiting_list ≡ k.waiting_list ++ k.running_pcb ∷ []
  pub next : l.running_pcb ≡ first_or null k.ready_list
  pub ready : l.ready_list ≡ others k.ready_list
  pub clock : l.disastr_os_time ≡ k.disastr_os_time

-- The caller has a timer already, or the pool of timers is exhausted.
abbrev pub CannotSleep : Kernel → Type 0
CannotSleep k =
    ((k.pcb_memory k.running_pcb).timer ≢ null)
    ⊎ (get_block k.timer_item_allocator ≡ ok null k.timer_item_allocator)

module _ (k : Kernel) (h : IsTicking k) (on : k.running_pcb ≢ null) where
  add_refused :
      get_block k.timer_item_allocator ≡ ok null k.timer_item_allocator
      → timer_list_add (wake_time k) k.running_pcb k ≡ ok null k
  unfolding timer_list_add timer_item_alloc
  add_refused none = rw none

  slept-Slept :
      (item : Ptr) (b : PoolAllocator) (fresh : item ∉ h.timers.live)
      → (k.pcb_memory k.running_pcb).timer ≡ null
      → get_block k.timer_item_allocator ≡ ok item b
      → item ≢ null
      → Holds b (item ∷ h.timers.live)
      → Slept k (slept k item b)
  slept-Slept item b fresh free got ne held =
      let a = added k item b h on fresh held in
      record {
        had_no_timer = free;
        left = λ e. ne (let same : ok item b ≡ ok null k.timer_item_allocator = sym got ∙ e in cc);
        timer = item;
        got = got;
        added = record {
          before = a.before;
          after = a.after;
          was = a.was;
          now = a.now;
          awakens = a.awakens;
          wakes = a.wakes;
          below = a.below;
          above = a.above;
          sorted = a.sorted;
        };
        status = rw (==_refl k.running_pcb);
        waits = refl;
        next = refl;
        ready = refl;
        clock = refl;
      }

  sleep_timer-Slept :
      (item : Ptr) (b : PoolAllocator)
      → ((k.pcb_memory k.running_pcb).timer == null) ≡ true
      → get_block k.timer_item_allocator ≡ ok item b
      → item ≢ null
      → item ∉ h.timers.live
      → Holds b (item ∷ h.timers.live)
      → Returns (λ _ l. Slept k l × IsTicking l) (internal_sleep k)
  sleep_timer-Slept item b free got ne fresh held =
      let s = runnable-IsScheduled k on h.processes in
      let l = timer_added k (wake_time k) k.running_pcb item b in
      let s' : IsScheduled l = record {
        distinct = s.distinct;
        present = s.present;
        not_waiting = s.not_waiting;
        not_zombie = s.not_zombie;
      } in
      rw
        (sleep_timer k s item l free
          (timer_list_add_run k (wake_time k) k.running_pcb item b got ne))
        (rw (==_ne item null ne) (
          rw (leave_run l s') (
            returns (
              slept-Slept item b fresh (ground arith) got ne held,
              slept-IsTicking k item b h on fresh held,
            ))))

  Refused-IsTicking : (l : Kernel) → Refused k l → IsTicking l
  Refused-IsTicking l e = subst IsTicking (sym e) (record {
    timers = record {
      live = h.timers.live;
      holds = h.timers.holds;
      live_distinct = h.timers.live_distinct;
      owned = h.timers.owned;
      distinct = h.timers.distinct;
      sorted = h.timers.sorted;
      sleepers = h.timers.sleepers;
      present = h.timers.present;
      not_ready = h.timers.not_ready;
      not_zombie = h.timers.not_zombie;
      waiting = h.timers.waiting;
    };
    processes = record {
      distinct = h.processes.distinct;
      present = h.processes.present;
      not_waiting = h.processes.not_waiting;
      not_zombie = h.processes.not_zombie;
    };
    apart = h.apart;
  })

  sleep_refuses :
      CannotSleep k
      → internal_sleep k ≡ set_retvalue Error.sleep k
      → Returns
          (λ _ l. ((CannotSleep k × Refused k l) ⊎ Slept k l) × IsTicking l)
          (internal_sleep k)
  sleep_refuses cannot e =
      let s = runnable-IsScheduled k on h.processes in
      rw e (
        Returns.weaken (set_retvalue-Refused k s) λ _ l r. (inl (cannot, r), Refused-IsTicking l r))

-- `internal_sleep` by the running process: it is refused with the error `DSOS_ESLEEP` exactly
-- if the process has a timer already or no timer is left; otherwise a new timer with the present time and the number
-- of cycles asked for, wrapped to an `int`, stands at its place among the others, the process is the
-- last of the waiting ones, and the first ready process has the processor, or none where none is
-- ready. What is supposed holds afterwards too: the timers are in order and distinct live blocks of
-- their pool, and each wakes another process that is not null, does not run, is not ready and not a
-- zombie; the process that runs and the ready ones are distinct, not null and on no other list.
pub internal_sleep-Slept :
    (k : Kernel)
    → IsTicking k
    → k.running_pcb ≢ null
    → Returns (λ _ l. ((CannotSleep k × Refused k l) ⊎ Slept k l) × IsTicking l) (internal_sleep k)
internal_sleep-Slept k h on =
    let s = runnable-IsScheduled k on h.processes in
    elim (Bool-cases ((k.pcb_memory k.running_pcb).timer == null)) [
      | inl free ↦ elim (get_block-Obtains k.timer_item_allocator h.timers.live h.timers.holds) [
        | inl none ↦
            sleep_refuses k h on (inr none) (sleep_timer k s null k free (add_refused k h on none))
        | inr (item, b, got, ne, fresh, held) ↦
            Returns.weaken (sleep_timer-Slept k h on item b free got ne fresh held)
              λ _ l (slept, ticking). (inr slept, ticking)
      ]
      | inr busy ↦ sleep_refuses k h on (inl (ground arith)) (sleep_busy k s busy)
    ]

-- A sleeper can run after some ticks exactly if they reach its time.
Slept-runnable :
    (n : ℕ) (k l m : Kernel) (now : ℕ)
    → Slept k l
    → IsTicking l
    → IsTicking m
    → Elapsed l m
    → m.disastr_os_time ≡ pos now
    → mem k.running_pcb (runnable m) ≡ leb_ℤ (wake_time k) (pos now)
Slept-runnable n k l m now slept before after passed clock =
    let t = slept.timer in
    let i : t ∈ l.timer_list =
      subst (λ l. t ∈ l) (sym slept.added.now)
        (mem-right t slept.added.before (t ∷ slept.added.after) (mem-head t slept.added.after)) in
    elim (Bool-cases (leb_ℤ (wake_time k) (pos now))) [
      | inl due ↦
          let le : (l.timer_memory t).awakening_time ≤ℤ m.disastr_os_time =
            ground (arith, slept.added.awakens, clock) in
          subst (λ p. mem p (runnable m) ≡ leb_ℤ (wake_time k) (pos now)) slept.added.wakes
            ((passed.woken t i le).1 ∙ sym due)
      | inr not_due ↦
          let lt : m.disastr_os_time <ℤ (l.timer_memory t).awakening_time =
            ground (arith, slept.added.awakens, clock) in
          let out = runnable-sleeper m after t (passed.asleep t i lt) in
          let who : sleeper m t ≡ k.running_pcb =
            ap (λ (f : Ptr → TimerItem). (f t).pcb) passed.memory ∙ slept.added.wakes in
          subst (λ p. mem p (runnable m) ≡ leb_ℤ (wake_time k) (pos now)) who (out ∙ sym not_due)
    ]

-- A process that has no timer and calls `internal_sleep`, with a timer left in the pool, at the time
-- `now`: after one more than `n` interrupts of the timer in a row, without an overflow of the clock,
-- it runs or is ready if the time at which it asked to be woken, wrapped to an `int`, is reached, and
-- otherwise it neither runs nor is ready. The timers are in order and distinct live blocks of their
-- pool, and each wakes another process that is not null, does not run, is not ready and not a zombie;
-- the process that runs and the ready ones are distinct, not null and on no other list.
pub internal_sleep-ticks :
    (n : ℕ) (k : Kernel) (now : ℕ)
    → IsTicking k
    → k.running_pcb ≢ null
    → (k.pcb_memory k.running_pcb).timer ≡ null
    → Available k.timer_item_allocator
    → k.disastr_os_time ≡ pos now
    → now + suc n < 2 ^ 31
    → Returns
        (λ _ l. mem k.running_pcb (runnable l) ≡ leb_ℤ (wake_time k) (pos (now + suc n)))
        ((do internal_sleep; ticks (suc n)) k)
internal_sleep-ticks n k now h on free left time fits =
    Returns.bind (internal_sleep-Slept k h on) λ _ l (outcome, ticking). elim outcome [
      | inl (inl busy, _) ↦ absurd (busy free)
      | inl (inr none, _) ↦ absurd (left none)
      | inr slept ↦
          Returns.weaken (ticks-Elapsed n l now ticking (slept.clock ∙ time) fits)
            λ _ m (clock, passed, after).
              Slept-runnable n k l m (now + suc n) slept ticking after passed clock
    ]
