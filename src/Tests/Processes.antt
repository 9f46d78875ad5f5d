-- ===== src/Tests/Processes.antt =====
-- The scheduler, the list of timers and the end of a process on a kernel with three processes.
use so_oscilloscopio.Base.{◌≡◌, refl, ◌≢◌, ◌⊎◌, pos, [], ◌∷◌, ◌++◌, arith, ◌==◌, if◌then◌else◌}
use so_oscilloscopio.Run.{ok}
use so_oscilloscopio.Run.Returns.{Returns}
use so_oscilloscopio.LinkedList.{null}
use so_oscilloscopio.PoolAllocator.{get_block}
use so_oscilloscopio.PoolAllocator.Live.{Holds}
use so_oscilloscopio.Kernel.{Kernel, BlockingQueue, running}
use so_oscilloscopio.Timer.{timer_list_add}
use so_oscilloscopio.Timer.Add.{Added, timer_list_add-Added}
use so_oscilloscopio.Syscall.Schedule.RoundRobin.{
  IsScheduled, schedule_times, schedule_times-running,
}
use so_oscilloscopio.Interrupt.{wake_expired}
use so_oscilloscopio.Interrupt.Expire.{IsTimers}
use so_oscilloscopio.Interrupt.Wake.{Woken, wake_expired-Woken}
use so_oscilloscopio.Syscall.Fork.{internal_fork, internal_spawn}
use so_oscilloscopio.Syscall.Fork.Child.{IsPopulated, Forked, internal_fork-Forked}
use so_oscilloscopio.Syscall.Fork.Spawn.{Spawned, internal_spawn-Spawned}
use so_oscilloscopio.Syscall.BQueue.Fifo.{Available}
use so_oscilloscopio.Syscall.Exit.{adopt_children}
use so_oscilloscopio.Syscall.Exit.Adopt.{Adopted, adopt_children-Adopted}
use so_oscilloscopio.Tests.Pools.{half_used, half_used-Holds}
use so_oscilloscopio.Tests.Queues.{kernel, process}

abbrev pub queue : BlockingQueue
queue = record {
  id = pos 7;
  capacity = pos 1;
  size = 0;
  items = [];
  wait_getters = [];
  wait_putters = [];
}

-- Process 30 runs, 33 and 32 are ready.
abbrev three : Kernel
three = record (kernel queue) { ready_list = 33 ∷ 32 ∷ [] }

three-IsScheduled : IsScheduled three
three-IsScheduled = record {
  distinct = (refl, (refl, (refl, tt)));
  present = refl;
  not_waiting = λ p i. ground arith;
  not_zombie = λ p i. refl;
}

schedule_times-running_example :
    Returns
      (λ _ l.
        (l.running_pcb ≡ 32)
        × (l.ready_list ≡ [] ++ three.running_pcb ∷ 33 ∷ [])
        × ((l.pcb_memory 32).status ≡ running)
        × IsScheduled l)
      (schedule_times 2 three)
schedule_times-running_example = schedule_times-running three (33 ∷ []) 32 [] three-IsScheduled refl

-- One timer is set.
abbrev sleeping : Kernel
sleeping = record (kernel queue) { timer_list = 300 ∷ [] }

timers-Holds : Holds (half_used 300 8) (300 ∷ [])
timers-Holds = half_used-Holds 300 8 (omega arith) (omega arith) (omega arith)

timer_list_add-Added_example :
    ((timer_list_add (pos 5) 30 sleeping ≡ ok null sleeping)
      × (get_block sleeping.timer_item_allocator ≡ ok null sleeping.timer_item_allocator))
    ⊎ Returns
        (λ item l. (item ≢ null) × Added sleeping (pos 5) 30 item l)
        (timer_list_add (pos 5) 30 sleeping)
timer_list_add-Added_example =
    timer_list_add-Added sleeping (pos 5) 30 (300 ∷ []) timers-Holds (λ p i. i) refl (refl, tt)
      (tt, tt)

-- Process 30 has a child, and 40 is the first process.
abbrev parent : Kernel
parent = record (kernel queue) {
  init_pcb = 40;
  pcb_memory = λ p. if p == 30 then record process { children = 200 ∷ [] } else process;
}

adopt_children-Adopted_example :
    Returns (λ _ l. Adopted parent 30 (200 ∷ []) l) (adopt_children 2 30 parent)
adopt_children-Adopted_example =
    adopt_children-Adopted parent 30 (200 ∷ []) (ground arith) (ground arith) (ground arith) refl
      (λ item i. ground arith)

-- The timer of process 31, which waits, has expired.
abbrev pub due : Kernel
due = record (kernel queue) {
  timer_list = 300 ∷ [];
  timer_memory = λ p. record { awakening_time = pos 0; pcb = 31 };
}

pub due-IsTimers : IsTimers due (300 ∷ [])
due-IsTimers = record {
  live = 300 ∷ [];
  holds = timers-Holds;
  live_distinct = (refl, tt);
  owned = λ t i. i;
  distinct = (refl, tt);
  sorted = (tt, tt);
  sleepers = (refl, tt);
  present = λ t i. ground arith;
  not_ready = λ t i. refl;
  not_zombie = λ t i. refl;
  waiting = (refl, tt);
}

wake_expired-Woken_example :
    Returns (λ _ l. Woken due (300 ∷ []) l × IsTimers l l.timer_list) (wake_expired (300 ∷ []) due)
wake_expired-Woken_example = wake_expired-Woken due (300 ∷ []) refl due-IsTimers

-- Process 30 is alone.
abbrev alone : Kernel
alone = record (kernel queue) { pcb_allocator = half_used 30 8; ready_list = []; waiting_list = [] }

alone-IsPopulated : IsPopulated alone (30 ∷ [])
alone-IsPopulated = record {
  holds = half_used-Holds 30 8 (omega arith) (omega arith) (omega arith);
  running = refl;
  ready = λ p i. cc;
  waiting = λ p i. cc;
  zombie = λ p i. cc;
}

pcb_left : Available (half_used 30 8)
unfolding get_block
pcb_left e = ground arith

link_left : Available (half_used 200 24)
unfolding get_block
link_left e = ground arith

internal_fork-Forked_example : Returns (λ _ l. Forked alone (30 ∷ []) l) (internal_fork alone)
internal_fork-Forked_example =
    internal_fork-Forked alone (30 ∷ []) (200 ∷ []) (ground arith) alone-IsPopulated
      (half_used-Holds 200 24 (omega arith) (omega arith) (omega arith)) pcb_left link_left

internal_spawn-Spawned_example : Returns (λ _ l. Spawned alone (30 ∷ []) l) (internal_spawn alone)
internal_spawn-Spawned_example =
    internal_spawn-Spawned alone (30 ∷ []) (200 ∷ []) (ground arith) alone-IsPopulated
      (half_used-Holds 200 24 (omega arith) (omega arith) (omega arith)) pcb_left link_left
