-- ===== src/Tests/Families.antt =====
-- The end of a process and the wait for it: process 30 runs.
use so_oscilloscopio.Base.{eqb_ℤ, refl, pos, [], ◌∷◌, arith, ◌==◌, if◌then◌else◌, to_int}
use so_oscilloscopio.Run.Returns.{Returns}
use so_oscilloscopio.Kernel.{Kernel, waiting, zombie}
use so_oscilloscopio.Pcb.{pcb_by_pid, pcb_ptr_by_pid}
use so_oscilloscopio.Resource.{resource_by_id}
use so_oscilloscopio.Descriptor.{descriptor_by_fd}
use so_oscilloscopio.BQueue.{bq_by_id}
use so_oscilloscopio.Scan.{IsFirst, is_awaited_zombie, scans-IsFirst}
use so_oscilloscopio.Syscall.Schedule.RoundRobin.{IsScheduled}
use so_oscilloscopio.Syscall.Wait.{find_zombie, internal_wait}
use so_oscilloscopio.Syscall.Wait.Reap.{HasZombie, Reaped, internal_wait-Reaped}
use so_oscilloscopio.Syscall.Exit.{internal_exit}
use so_oscilloscopio.Syscall.Exit.Tail.{IsParent}
use so_oscilloscopio.Syscall.Exit.Ended.{Exited, internal_exit-Exited}
use so_oscilloscopio.Tests.Pools.{half_used, half_used-Holds}
use so_oscilloscopio.Tests.Queues.{kernel, process}
use so_oscilloscopio.Tests.Processes.{queue}

-- The process 31 waits for any child, 30 is its child and has the child 35, and 40 is the first one.
abbrev exiting : Kernel
exiting = record (kernel queue) {
  init_pcb = 40;
  pcb_ptr_memory = λ p. 35;
  pcb_memory = λ p.
      if p == 30
      then record process { parent = 31; children = 200 ∷ [] }
      else if p == 31
      then record process { status = waiting; syscall_num = pos 3; syscall_args = λ i. pos 0 }
      else process;
}

exiting-IsScheduled : IsScheduled exiting
exiting-IsScheduled = record {
  distinct = (refl, (refl, tt));
  present = refl;
  not_waiting = λ p i. ground arith;
  not_zombie = λ p i. refl;
}

exiting-IsParent : IsParent exiting 31
exiting-IsParent = record {
  parent = refl;
  present = ground arith;
  apart = ground arith;
  distinct = (refl, tt);
  waits = λ e. refl;
  alive = refl;
}

internal_exit-Exited_example :
    Returns (λ _ l. Exited exiting (200 ∷ []) 31 l) (internal_exit 2 exiting)
internal_exit-Exited_example =
    internal_exit-Exited exiting (200 ∷ []) 31 exiting-IsScheduled exiting-IsParent (ground arith)
      (ground arith) refl (λ item i. ground arith) (λ item i. ground arith)

-- The child 34 of process 30 has ended.
abbrev waits : Kernel
waits = record (kernel queue) {
  zombie_list = 34 ∷ [];
  pcb_allocator = half_used 34 8;
  pcb_ptr_memory = λ p. 34;
  pcb_memory = λ p.
      if p == 30
      then record process {
        children = 200 ∷ [];
        syscall_args = λ i. if i == 0 then pos 0 else pos 600;
      }
      else record process { pid = 5; parent = 30; status = zombie; return_value = pos 9 };
}

waits-HasZombie : HasZombie waits
unfolding to_int
waits-HasZombie = record {
  child = 34;
  zombies_before = [];
  zombies_after = [];
  zombies = refl;
  none_sooner = tt;
  awaited = refl;
  link = 200;
  links_before = [];
  links_after = [];
  children = refl;
  other_pids = tt;
  leads_to = refl;
  blocks = 34 ∷ [];
  holds = half_used-Holds 34 8 (omega arith) (omega arith) (omega arith);
  blocks_distinct = (refl, tt);
  held = refl;
  links = 200 ∷ [];
  links_held = half_used-Holds 200 24 (omega arith) (omega arith) (omega arith);
  links_distinct = (refl, tt);
  link_held = refl;
}

internal_wait-Reaped_example : Returns (λ _ l. Reaped waits waits-HasZombie l) (internal_wait waits)
internal_wait-Reaped_example = internal_wait-Reaped waits (ground arith) waits-HasZombie

scans-IsFirst_example :
    IsFirst
      (λ p. (waits.pcb_memory p).pid == 5)
      (30 ∷ 34 ∷ [])
      (pcb_by_pid waits.pcb_memory (30 ∷ 34 ∷ []) 5)
    × IsFirst
        (λ p. (waits.pcb_memory (waits.pcb_ptr_memory p)).pid == 5)
        (30 ∷ 34 ∷ [])
        (pcb_ptr_by_pid waits.pcb_memory waits.pcb_ptr_memory (30 ∷ 34 ∷ []) 5)
    × IsFirst
        (λ r. eqb_ℤ (waits.resource_memory r).id (pos 7))
        (30 ∷ 34 ∷ [])
        (resource_by_id waits.resource_memory (30 ∷ 34 ∷ []) (pos 7))
    × IsFirst
        (λ d. eqb_ℤ (pos (waits.descriptor_memory d).fd) (pos 7))
        (30 ∷ 34 ∷ [])
        (descriptor_by_fd waits.descriptor_memory (30 ∷ 34 ∷ []) (pos 7))
    × IsFirst
        (λ q. eqb_ℤ (waits.bqueue_memory q).id (pos 7))
        (30 ∷ 34 ∷ [])
        (bq_by_id waits.bqueue_memory (30 ∷ 34 ∷ []) (pos 7))
    × IsFirst
        (is_awaited_zombie waits.pcb_memory 30 (pos 7))
        (30 ∷ 34 ∷ [])
        (find_zombie waits.pcb_memory 30 (pos 7) (30 ∷ 34 ∷ []))
scans-IsFirst_example = scans-IsFirst waits (30 ∷ 34 ∷ []) 5 (pos 7) 30
