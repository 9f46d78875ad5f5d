-- ===== src/Interrupt/Ticks.antt =====
-- Several interrupts of the timer in a row: every sleeper is woken on time.
use so_oscilloscopio.Base.{
  ℕ, zero, suc, ◌+◌, ◌<◌, ◌^◌, ◌≡◌, sym, ap, subst, ◌∙◌, ◌≢◌, inl, inr, ℤ, pos, ◌+ℤ◌, ◌≤ℤ◌, ◌<ℤ◌,
  to_int, ltb_ℤ, not-mem_of_subset, List, [], ◌∷◌, ◌++◌, map, arith, ◌==◌, ◌∈◌, ◌∉◌, mem, mem-left,
  mem-right, mem-append, Bool-cases,
}
use so_oscilloscopio.Run.{Cmd, pure, ◌>>◌}
use so_oscilloscopio.Run.Returns
use so_oscilloscopio.Run.Returns.{Returns, returns}
use so_oscilloscopio.LinkedList.{Ptr, null}
use so_oscilloscopio.Kernel.{Kernel, TimerItem}
use so_oscilloscopio.Timer.Order.{AtMost, Above}
use so_oscilloscopio.Interrupt.{timer_interrupt}
use so_oscilloscopio.Interrupt.Expire.{sleeper, mem-map}
use so_oscilloscopio.Interrupt.Runnable.{IsTicking, requeued, runnable, requeued_self}
use so_oscilloscopio.Interrupt.Tick.{Dispatched, Ticked, timer_interrupt-Ticked}

-- `timerInterrupt` a number of times.
unfoldable pub ticks : ℕ → Cmd Kernel (Unit {0})
ticks zero = pure tt
ticks (suc n) = do timer_interrupt; ticks n

AtMost-mem :
    (m : Ptr → TimerItem) (time : ℤ) (x : Ptr) (xs : List Ptr)
    → AtMost m time xs
    → x ∈ xs
    → (m x).awakening_time ≤ℤ time
AtMost-mem m time x [] h i = cc
AtMost-mem m time x (y ∷ ys) (le, h) i = elim (Bool-cases (x == y)) [
  | inl hit ↦
      let same : x ≡ y = ground arith in subst (λ z. (m z).awakening_time ≤ℤ time) (sym same) le
  | inr miss ↦ AtMost-mem m time x ys h (ground arith)
]

Above-mem :
    (m : Ptr → TimerItem) (time : ℤ) (x : Ptr) (xs : List Ptr)
    → Above m time xs
    → x ∈ xs
    → time <ℤ (m x).awakening_time
Above-mem m time x [] h i = cc
Above-mem m time x (y ∷ ys) (lt, h) i = elim (Bool-cases (x == y)) [
  | inl hit ↦
      let same : x ≡ y = ground arith in subst (λ z. time <ℤ (m z).awakening_time) (sym same) lt
  | inr miss ↦ Above-mem m time x ys h (ground arith)
]

-- Who could run before the choice of the next process can run afterwards.
Dispatched-runnable :
    (ran : Ptr) (queue : List Ptr) (l : Kernel)
    → Dispatched ran queue l
    → (q : Ptr) → q ≢ null
    → q ∈ requeued ran ++ queue
    → q ∈ runnable l
Dispatched-runnable ran [] l (run, ready) q ne i =
    subst (λ p. q ∈ requeued p ++ l.ready_list) (sym run)
      (subst (λ r. q ∈ requeued ran ++ r) (sym ready) i)
Dispatched-runnable ran (next ∷ others) l (run, status, ready) q ne i =
    subst (λ p. q ∈ requeued p ++ l.ready_list) (sym run)
      (subst (λ r. q ∈ requeued next ++ r) (sym ready)
        (elim (Bool-cases (q == next)) [
          | inl hit ↦
              let same : q ≡ next = ground arith in
              let on = λ (e : next ≡ null). ne (same ∙ e) in
              mem-left q (requeued next) (others ++ requeued ran)
                (subst (λ l. q ∈ l) (sym (requeued_self next on)) (ground arith))
          | inr miss ↦ mem-right q (requeued next) (others ++ requeued ran) (
              ground (
                arith,
                mem-append q others (requeued ran),
                mem-append q (requeued ran) (next ∷ others),
              ))
        ]))

-- From `k` to a later state `l`, a timer is off the list if its time has come, and then its process
-- can run, and it is still on the list if not; and who could run can run.
pub record Elapsed (k l : Kernel) : Type 0 where
  pub memory : l.timer_memory ≡ k.timer_memory
  pub kept : (q : Ptr) → q ≢ null → q ∈ runnable k → q ∈ runnable l
  pub fewer : (t : Ptr) → t ∈ l.timer_list → t ∈ k.timer_list
  pub woken :
      (t : Ptr)
      → t ∈ k.timer_list
      → (k.timer_memory t).awakening_time ≤ℤ l.disastr_os_time
      → (t ∉ l.timer_list) × (sleeper k t ∈ runnable l)
  pub asleep :
      (t : Ptr)
      → t ∈ k.timer_list
      → l.disastr_os_time <ℤ (k.timer_memory t).awakening_time
      → t ∈ l.timer_list

Ticked-Elapsed : (k l : Kernel) → IsTicking k → Ticked k l → Elapsed k l
Ticked-Elapsed k l h tick =
    let q' = k.ready_list ++ map (sleeper k) tick.fired in
    let moves = Dispatched-runnable k.running_pcb q' l tick.dispatched in
    record {
      memory = tick.memory;
      kept = λ q ne i. moves q ne (
          ground (
            arith,
            mem-append q (requeued k.running_pcb) k.ready_list,
            mem-append q (requeued k.running_pcb) q',
            mem-append q k.ready_list (map (sleeper k) tick.fired),
          ));
      fewer = λ t i.
          subst (λ l. t ∈ l) (sym tick.was)
            (mem-right t tick.fired tick.left (subst (λ l. t ∈ l) tick.now i));
      woken = λ t i due.
          let split = subst (λ l. t ∈ l) tick.was i in
          elim (Bool-cases (mem t tick.left)) [
            | inl late ↦
                let lt = Above-mem k.timer_memory l.disastr_os_time t tick.left tick.not_due late in
                absurd (omega (arith, lt, due))
            | inr out ↦
                let fired : t ∈ tick.fired = ground (arith, mem-append t tick.fired tick.left) in
                (
                  subst (λ l. t ∉ l) (sym tick.now) out,
                  moves (sleeper k t) (h.timers.present t i) (
                      mem-right (sleeper k t) (requeued k.running_pcb) q' (
                        mem-right (sleeper k t) k.ready_list (map (sleeper k) tick.fired)
                          (mem-map (sleeper k) t tick.fired fired))),
                )
          ];
      asleep = λ t i not_due.
          let split = subst (λ l. t ∈ l) tick.was i in
          subst (λ l. t ∈ l) (sym tick.now)
            (elim (Bool-cases (mem t tick.left)) [
              | inl late ↦ late
              | inr out ↦
                  let fired : t ∈ tick.fired = ground (arith, mem-append t tick.fired tick.left) in
                  let le =
                    AtMost-mem k.timer_memory l.disastr_os_time t tick.fired tick.due fired in
                  absurd (omega (arith, le, not_due))
            ]);
    }

-- Time passes from `k` over `l` to `m`.
Elapsed-trans :
    (k l m : Kernel)
    → IsTicking k
    → l.disastr_os_time ≤ℤ m.disastr_os_time
    → Elapsed k l
    → Elapsed l m
    → Elapsed k m
Elapsed-trans k l m h later first second =
    let time = λ (t : Ptr) (c : ℤ) (P : ℤ → ℤ → Type 0) (p : P (k.timer_memory t).awakening_time c).
      subst (λ (f : Ptr → TimerItem). P (f t).awakening_time c) (sym first.memory) p in
    let same = λ (t : Ptr). ap (λ (f : Ptr → TimerItem). (f t).pcb) first.memory in
    record {
      memory = second.memory ∙ first.memory;
      kept = λ q ne i. second.kept q ne (first.kept q ne i);
      fewer = λ t i. first.fewer t (second.fewer t i);
      woken = λ t i due. elim (Bool-cases (mem t l.timer_list)) [
        | inl still ↦
            let (gone, can) = second.woken t still (time t m.disastr_os_time (λ a c. a ≤ℤ c) due) in
            (gone, subst (λ p. p ∈ runnable m) (same t) can)
        | inr gone ↦
            let sooner : (k.timer_memory t).awakening_time ≤ℤ l.disastr_os_time =
              elim (Bool-cases (ltb_ℤ l.disastr_os_time (k.timer_memory t).awakening_time)) [
                | inl lt ↦ let i' = first.asleep t i (ground arith) in absurd (ground arith)
                | inr ge ↦ ground arith
              ] in
            (
              not-mem_of_subset t m.timer_list l.timer_list second.fewer gone,
              second.kept (sleeper k t) (h.timers.present t i) (first.woken t i sooner).1,
            )
      ];
      asleep = λ t i not_due.
          second.asleep t (first.asleep t i (omega (arith, later, not_due)))
            (time t m.disastr_os_time (λ a c. c <ℤ a) not_due);
    }

to_int_next : (now : ℕ) → now + 1 < 2 ^ 31 → to_int (pos now +ℤ pos 1) ≡ pos (now + 1)
unfolding to_int
to_int_next now fits = ground arith

-- One more than `n` interrupts of the timer in a row, from the time `now`, where the clock does not
-- overflow: the clock is that many ticks further, every process whose timer is due by then can run,
-- and its timer is gone, whereas a timer that is not due yet is still set; a process that could run
-- still can. What is supposed of timers and processes holds afterwards too: the timers are in order
-- and distinct live blocks of their pool, and each wakes another process that is not null, does not
-- run, is not ready and not a zombie; the process that runs, if there is one, and the ready ones are
-- distinct, not null and on no other list.
pub ticks-Elapsed :
    (n : ℕ) (k : Kernel) (now : ℕ)
    → IsTicking k
    → k.disastr_os_time ≡ pos now
    → now + suc n < 2 ^ 31
    → Returns
        (λ _ l. (l.disastr_os_time ≡ pos (now + suc n)) × Elapsed k l × IsTicking l)
        (ticks (suc n) k)
unfolding ticks
ticks-Elapsed zero k now h time fits =
    Returns.bind (timer_interrupt-Ticked k h) λ _ l (tick, ticking). returns (
      tick.clock ∙ ap (λ c. to_int (c +ℤ pos 1)) time ∙ to_int_next now fits,
      Ticked-Elapsed k l h tick,
      ticking,
    )
ticks-Elapsed (suc n) k now h time fits =
    Returns.bind (timer_interrupt-Ticked k h) λ _ l (tick, ticking).
      let first = Ticked-Elapsed k l h tick in
      let clock : l.disastr_os_time ≡ pos (now + 1) =
        tick.clock ∙ ap (λ c. to_int (c +ℤ pos 1)) time ∙ to_int_next now (omega (arith, fits)) in
      Returns.weaken (ticks-Elapsed n l (now + 1) ticking clock (omega (arith, fits)))
        λ _ o (clock', second, ticking'). (
          clock' ∙ ap pos (omega arith),
          Elapsed-trans k l o h
              (subst (λ c. c ≤ℤ o.disastr_os_time) (sym clock)
                (subst (λ c. pos (now + 1) ≤ℤ c) (sym clock') (omega arith)))
              first second,
          ticking',
        )
