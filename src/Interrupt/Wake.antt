-- ===== src/Interrupt/Wake.antt =====
-- The loop of `timerInterrupt` that wakes the processes whose timers have expired.
use mathlib.Core.List.{append_assoc, append-nil}
use so_oscilloscopio.Base.{
  ◌≡◌, refl, sym, ap, subst, ◌∙◌, ◌≢◌, inl, inr, leb_ℤ, List, [], ◌∷◌, ◌++◌, map, arith, true,
  false, ◌==◌, ◌∈◌, mem-head, Bool-cases, ==_ne, ==_refl,
}
use so_oscilloscopio.Run.{ok, ◌>>◌}
use so_oscilloscopio.Run.Returns
use so_oscilloscopio.Run.Returns.{Returns, returns}
use so_oscilloscopio.LinkedList.{Ptr, null}
use so_oscilloscopio.PoolAllocator.{PoolAllocator}
use so_oscilloscopio.PoolAllocator.Live.{release_block-Holds, held-ne_null}
use so_oscilloscopio.Kernel.{Kernel, ready}
use so_oscilloscopio.Timer.{timer_list_current}
use so_oscilloscopio.Timer.Order.{AtMost, Above, Above-of_AtLeast}
use so_oscilloscopio.Interrupt.{expire, wake_expired}
use so_oscilloscopio.Interrupt.Expire.{
  sleeper, IsTimers, expired, current_lem, expire_run, expired-IsTimers,
}

-- The timers `timers` are those that have expired, in front, and the rest. The former are gone and
-- their processes are ready, in the same order, behind those that were.
pub record Woken (k : Kernel) (timers : List Ptr) (l : Kernel) : Type 0 where
  pub fired : List Ptr
  pub left : List Ptr
  pub was : timers ≡ fired ++ left
  pub now : l.timer_list ≡ left
  pub due : AtMost k.timer_memory k.disastr_os_time fired
  pub not_due : Above k.timer_memory k.disastr_os_time left
  pub awake : l.ready_list ≡ k.ready_list ++ map (sleeper k) fired
  pub ready_status : (t : Ptr) → t ∈ fired → (l.pcb_memory (sleeper k t)).status ≡ ready
  pub kept : (p : Ptr) → (k.pcb_memory p).status ≡ ready → (l.pcb_memory p).status ≡ ready
  pub goes_on : l.running_pcb ≡ k.running_pcb
  pub clock : l.disastr_os_time ≡ k.disastr_os_time
  pub memory : l.timer_memory ≡ k.timer_memory

expired_awake :
    (k : Kernel) (x : Ptr) (rest : List Ptr) (b : PoolAllocator)
    → ((expired k x rest b).pcb_memory (sleeper k x)).status ≡ ready
expired_awake k x rest b = rw (==_refl (sleeper k x))

expired_kept :
    (k : Kernel) (x : Ptr) (rest : List Ptr) (b : PoolAllocator) (p : Ptr)
    → (k.pcb_memory p).status ≡ ready
    → ((expired k x rest b).pcb_memory p).status ≡ ready
expired_kept k x rest b p e = elim (Bool-cases (p == sleeper k x)) [
  | inl hit ↦ rw hit
  | inr miss ↦ rw miss e
]

pub wake_expired-nil : (k : Kernel) → wake_expired [] k ≡ ok tt k
unfolding wake_expired
wake_expired-nil k = refl

module _ (k : Kernel) (x : Ptr) (rest : List Ptr) (order : k.timer_list ≡ x ∷ rest) where
  pub wake_expired_stop :
      leb_ℤ (k.timer_memory x).awakening_time k.disastr_os_time ≡ false
      → wake_expired (x ∷ rest) k ≡ ok tt k
  unfolding wake_expired
  wake_expired_stop e = ground (arith, current_lem k x rest order)

  wake_expired_more :
      (timer_list_current k k.disastr_os_time == null) ≡ false
      → wake_expired (x ∷ rest) k
        ≡ (do expire (timer_list_current k k.disastr_os_time); wake_expired rest) k
  unfolding wake_expired
  wake_expired_more e = ground (arith, e)

  pub wake_expired_step :
      leb_ℤ (k.timer_memory x).awakening_time k.disastr_os_time ≡ true
      → x ≢ null
      → wake_expired (x ∷ rest) k ≡ (do expire x; wake_expired rest) k
  wake_expired_step e ne =
      let here : timer_list_current k k.disastr_os_time ≡ x = current_lem k x rest order ∙ rw e in
      wake_expired_more (subst (λ t. (t == null) ≡ false) (sym here) (==_ne x null ne))
      ∙ ap (λ t. (do expire t; wake_expired rest) k) here

-- The loop of `timerInterrupt`, started on the whole list of timers, ends with exactly the timers
-- that have expired gone from it, and with their processes ready behind those that were, in the
-- order of their timers; the running process stays. This holds where the timers are in order and
-- distinct live blocks of their pool, and each wakes another process, which is not null, not ready
-- and not a zombie.
pub wake_expired-Woken :
    (k : Kernel) (timers : List Ptr)
    → k.timer_list ≡ timers
    → IsTimers k timers
    → Returns (λ _ l. Woken k timers l × IsTimers l l.timer_list) (wake_expired timers k)
wake_expired-Woken k [] order timers = rw (wake_expired-nil k) (
    returns (
      record {
        fired = [];
        left = [];
        was = refl;
        now = order;
        due = tt;
        not_due = tt;
        awake = sym (append-nil k.ready_list);
        ready_status = λ t i. cc;
        kept = λ p e. e;
        goes_on = refl;
        clock = refl;
        memory = refl;
      },
      subst (IsTimers k) (sym order) timers,
    ))
wake_expired-Woken k (x ∷ rest) order timers =
    elim (Bool-cases (leb_ℤ (k.timer_memory x).awakening_time k.disastr_os_time)) [
      | inl due ↦
          let held = timers.owned x (mem-head x rest) in
          let ne = held-ne_null k.timer_item_allocator timers.live x timers.holds held in
          let (r, b, gave, (_, holds)) = Returns.result (
            release_block-Holds k.timer_item_allocator timers.live timers.holds x held
              timers.live_distinct) in
          let l = expired k x rest b in
          let run = wake_expired-Woken l rest refl (expired-IsTimers k x rest timers b holds) in
          rw (wake_expired_step k x rest order due ne, expire_run k x rest order timers r b gave)
            (Returns.weaken run λ _ m (woken, after). (
              record {
                fired = x ∷ woken.fired;
                left = woken.left;
                was = ap (◌∷◌ x) woken.was;
                now = woken.now;
                due = (ground arith, woken.due);
                not_due = woken.not_due;
                awake =
                    woken.awake
                    ∙ append_assoc k.ready_list (sleeper k x ∷ []) (map (sleeper k) woken.fired);
                ready_status = λ t i. elim (Bool-cases (t == x)) [
                  | inl hit ↦
                      let same : t ≡ x = ground arith in
                      rw same (woken.kept (sleeper k x) (expired_awake k x rest b))
                  | inr miss ↦ woken.ready_status t (ground arith)
                ];
                kept = λ p e. woken.kept p (expired_kept k x rest b p e);
                goes_on = woken.goes_on;
                clock = woken.clock;
                memory = woken.memory;
              },
              after,
            ))
      | inr not_yet ↦ rw (wake_expired_stop k x rest order not_yet) (
          returns (
            record {
              fired = [];
              left = x ∷ rest;
              was = refl;
              now = order;
              due = tt;
              not_due = (
                ground arith,
                Above-of_AtLeast k.timer_memory k.disastr_os_time (k.timer_memory x).awakening_time
                    rest (ground arith) timers.sorted.0,
              );
              awake = sym (append-nil k.ready_list);
              ready_status = λ t i. cc;
              kept = λ p e. e;
              goes_on = refl;
              clock = refl;
              memory = refl;
            },
            subst (IsTimers k) (sym order) timers,
          ))
    ]
