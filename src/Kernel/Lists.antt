-- ===== src/Kernel/Lists.antt =====
-- The process lists. A control block is linked through its own two pointers, so it can be on one of
-- the three lists only: an insertion of one that is null or on a list already, and the removal of
-- one that is not on the list, is outside what linked_list.c supports and is a fault here.
use so_oscilloscopio.Base.{Bool, ◌||◌, [], ◌∷◌, ◌++◌, ◌==◌, if◌then◌else◌, mem, erase}
use so_oscilloscopio.Run.{ok, fault, Cmd}
use so_oscilloscopio.LinkedList.{Ptr, null}
use so_oscilloscopio.Kernel.{Kernel, running, with_status, change_pcb}

abbrev pub is_listed : Kernel → Ptr → Bool
is_listed k p = mem p k.ready_list || mem p k.waiting_list || mem p k.zombie_list

-- `List_insert(&ready_list, ready_list.last, p)`, and so for the other lists.
unfoldable pub insert_ready : Ptr → Cmd Kernel (Unit {0})
insert_ready p k =
    if p == null || is_listed k p
    then fault
    else ok tt (record k { ready_list = k.ready_list ++ p ∷ [] })

unfoldable pub insert_waiting : Ptr → Cmd Kernel (Unit {0})
insert_waiting p k =
    if p == null || is_listed k p
    then fault
    else ok tt (record k { waiting_list = k.waiting_list ++ p ∷ [] })

unfoldable pub insert_zombie : Ptr → Cmd Kernel (Unit {0})
insert_zombie p k =
    if p == null || is_listed k p
    then fault
    else ok tt (record k { zombie_list = k.zombie_list ++ p ∷ [] })

-- `List_detach(&waiting_list, p)`.
unfoldable pub detach_waiting : Ptr → Cmd Kernel (Unit {0})
detach_waiting p k =
    if mem p k.waiting_list
    then ok tt (record k { waiting_list = erase p k.waiting_list })
    else fault

unfoldable pub detach_zombie : Ptr → Cmd Kernel (Unit {0})
detach_zombie p k =
    if mem p k.zombie_list then ok tt (record k { zombie_list = erase p k.zombie_list }) else fault

-- `if (List_find(&waiting_list, p)) List_detach(&waiting_list, p);`
unfoldable pub leave_waiting : Ptr → Cmd Kernel (Unit {0})
leave_waiting p k = ok tt (record k { waiting_list = erase p k.waiting_list })

-- `if (ready_list.first) { next = List_detach(…); next->status = Running; running = next; }
-- else running = 0;`
unfoldable pub run_next : Cmd Kernel (Unit {0})
run_next k = elim k.ready_list [
  | [] ↦ ok tt (record k { running_pcb = null })
  | next ∷ others ↦
      change_pcb next (with_status running) (record k { ready_list = others; running_pcb = next })
]

-- `List_detach(&ready_list, ready_list.first)`, which faults on an empty list.
unfoldable pub pop_ready : Cmd Kernel Ptr
pop_ready k = elim k.ready_list [
  | [] ↦ fault
  | next ∷ others ↦ ok next (record k { ready_list = others })
]
