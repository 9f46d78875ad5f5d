-- ===== src/Tests/Ticks.antt =====
-- Sleeping and the interrupts of the timer: process 30 runs, 32 is ready, and 31 waits.
use so_oscilloscopio.Base.{◌≡◌, refl, ◌⊎◌, pos, [], ◌∷◌, arith, mem, leb_ℤ}
use so_oscilloscopio.Run.{◌>>◌}
use so_oscilloscopio.Run.Returns.{Returns}
use so_oscilloscopio.PoolAllocator.{get_block}
use so_oscilloscopio.Kernel.{Kernel}
use so_oscilloscopio.Interrupt.{timer_interrupt}
use so_oscilloscopio.Interrupt.Runnable.{IsTicking, runnable}
use so_oscilloscopio.Interrupt.Tick.{Ticked, timer_interrupt-Ticked}
use so_oscilloscopio.Interrupt.Ticks.{Elapsed, ticks, ticks-Elapsed}
use so_oscilloscopio.Syscall.BQueue.Fifo.{Available}
use so_oscilloscopio.Syscall.Sleep.{internal_sleep}
use so_oscilloscopio.Syscall.Sleep.Asleep.{Refused, wake_time}
use so_oscilloscopio.Syscall.Sleep.Outcome.{
  CannotSleep, Slept, internal_sleep-Slept, internal_sleep-ticks,
}
use so_oscilloscopio.Tests.Pools.{half_used, half_used-Holds}
use so_oscilloscopio.Tests.Queues.{kernel}
use so_oscilloscopio.Tests.Processes.{queue, due, due-IsTimers}

due-IsTicking : IsTicking due
due-IsTicking = record {
  timers = due-IsTimers;
  processes = record {
    distinct = (refl, (refl, tt));
    present = refl;
    not_waiting = λ p i. ground arith;
    not_zombie = λ p i. refl;
  };
  apart = λ t i. ground arith;
}

timer_interrupt-Ticked_example : Returns (λ _ l. Ticked due l × IsTicking l) (timer_interrupt due)
timer_interrupt-Ticked_example = timer_interrupt-Ticked due due-IsTicking

ticks-Elapsed_example :
    Returns (λ _ l. (l.disastr_os_time ≡ pos 3) × Elapsed due l × IsTicking l) (ticks 3 due)
ticks-Elapsed_example = ticks-Elapsed 2 due 0 due-IsTicking refl (omega arith)

-- No timer is set.
abbrev awake : Kernel
awake = kernel queue

awake-IsTicking : IsTicking awake
awake-IsTicking = record {
  timers = record {
    live = 300 ∷ [];
    holds = half_used-Holds 300 8 (omega arith) (omega arith) (omega arith);
    live_distinct = (refl, tt);
    owned = λ t i. cc;
    distinct = tt;
    sorted = tt;
    sleepers = tt;
    present = λ t i. cc;
    not_ready = λ t i. refl;
    not_zombie = λ t i. refl;
    waiting = (refl, tt);
  };
  processes = record {
    distinct = (refl, (refl, tt));
    present = refl;
    not_waiting = λ p i. ground arith;
    not_zombie = λ p i. refl;
  };
  apart = λ t i. cc;
}

timer_left : Available (half_used 300 8)
unfolding get_block
timer_left e = ground arith

internal_sleep-Slept_example :
    Returns
      (λ _ l. ((CannotSleep awake × Refused awake l) ⊎ Slept awake l) × IsTicking l)
      (internal_sleep awake)
internal_sleep-Slept_example = internal_sleep-Slept awake awake-IsTicking (ground arith)

internal_sleep-ticks_example :
    Returns
      (λ _ l. mem 30 (runnable l) ≡ leb_ℤ (wake_time awake) (pos 7))
      ((do internal_sleep; ticks 7) awake)
internal_sleep-ticks_example =
    internal_sleep-ticks 6 awake 0 awake-IsTicking (ground arith) refl timer_left refl (omega arith)
