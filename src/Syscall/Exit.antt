-- ===== src/Syscall/Exit.antt =====
-- disastrOS_exit.c.
pub mod Adopt
pub mod Ended
pub mod Same
pub mod Switch
pub mod Tail
use so_oscilloscopio.Base.{
  ℕ, zero, suc, ℤ, pos, to_int, eqb_ℤ, Bool, true, false, ◌&&◌, ◌||◌, List, [], ◌∷◌, ◌++◌, ◌==◌,
  if◌then◌else◌,
}
use so_oscilloscopio.Run.{Cmd, pure, out_of_fuel, get, modify, ◌>>=◌, ◌>>◌}
use so_oscilloscopio.LinkedList.{Ptr, null}
use so_oscilloscopio.Kernel.{
  Kernel, Pcb, ProcessStatus, waiting, ready, zombie, with_status, change_pcb, current, argument,
}
use so_oscilloscopio.Kernel.Lists.{insert_ready, insert_zombie, detach_waiting}
use so_oscilloscopio.Syscall.Schedule.{internal_schedule}

abbrev with_return_value : ℤ → Pcb → Pcb
with_return_value r v = record v { return_value = r }

abbrev with_children : List Ptr → Pcb → Pcb
with_children l v = record v { children = l }

-- One round of the loop: the first child's list item moves to the children of `init_pcb`.
unfoldable pub adopt : (self item : Ptr) (rest : List Ptr) → Cmd Kernel (Unit {0})
adopt self item rest = do
  change_pcb self (with_children rest)
  k ← get
  change_pcb k.init_pcb λ v. record v { children = v.children ++ item ∷ [] }
  change_pcb (k.pcb_ptr_memory item) λ v. record v { parent = k.init_pcb }

-- `while (running->children.first)`, with the rounds that are left.
unfoldable pub adopt_children : ℕ → (self : Ptr) → Cmd Kernel (Unit {0})
unfolding adopt
adopt_children zero self k = out_of_fuel
adopt_children (suc rounds) self k = elim (k.pcb_memory self).children [
  | [] ↦ pure tt k
  | item ∷ rest ↦ (do adopt self item rest; adopt_children rounds self) k
]

abbrev is_waiting : ProcessStatus → Bool
is_waiting waiting = true
is_waiting _ = false

abbrev pub call_wait : ℤ
call_wait = pos 3

-- The parent is blocked in a wait for the process `self`, or for any.
unfoldable pub is_awaited : Kernel → (parent self : Ptr) → Bool
is_awaited k parent self =
    let v = k.pcb_memory parent in
    let pid_to_wait = to_int (v.syscall_args 0) in
    is_waiting v.status
    && eqb_ℤ v.syscall_num call_wait
    && (eqb_ℤ pid_to_wait (pos 0) || eqb_ℤ pid_to_wait (pos (k.pcb_memory self).pid))

unfoldable pub wake_parent : (self : Ptr) → Cmd Kernel (Unit {0})
wake_parent self = do
  k ← get
  let parent = (k.pcb_memory self).parent
  if parent == null
      then pure tt
      else if is_awaited k parent self
      then (do detach_waiting parent; change_pcb parent (with_status ready); insert_ready parent)
      else pure tt

unfoldable pub internal_exit : (rounds : ℕ) → Cmd Kernel (Unit {0})
unfolding adopt_children wake_parent internal_schedule
internal_exit rounds = do
  self ← current
  k ← get
  change_pcb self (with_return_value (to_int (argument k 0)))
  adopt_children rounds self
  change_pcb self (with_status zombie)
  insert_zombie self
  wake_parent self
  modify λ k. record k { running_pcb = null }
  internal_schedule
