-- ===== src/Syscall/Fork.antt =====
-- disastrOS_fork.c and disastrOS_spawn.c.
pub mod Child
pub mod Spawn
use so_oscilloscopio.Base.{pos, to_ptr, [], ◌∷◌, ◌++◌, ◌==◌, if◌then◌else◌}
use so_oscilloscopio.Run.{Cmd, crash, get, ◌>>=◌, ◌>>◌}
use so_oscilloscopio.Constants.Error
use so_oscilloscopio.LinkedList.{Ptr, null}
use so_oscilloscopio.Kernel.{
  CpuState, starts, argument, Kernel, Pcb, ready, with_status, change_pcb, current, set_retvalue,
}
use so_oscilloscopio.Kernel.Lists.{insert_ready}
use so_oscilloscopio.Pcb.{pcb_alloc, pcb_ptr_alloc}

abbrev pub with_parent : Ptr → Pcb → Pcb
with_parent p v = record v { parent = p }

abbrev pub with_child : Ptr → Pcb → Pcb
with_child item v = record v { children = v.children ++ item ∷ [] }

abbrev pub with_cpu_state : CpuState → Pcb → Pcb
with_cpu_state c v = record v { cpu_state = c }

-- The new process joins the children of `parent` and the ready processes.
unfoldable pub add_child : (parent new_pcb : Ptr) → Cmd Kernel (Unit {0})
add_child parent new_pcb = do
  change_pcb new_pcb (with_status ready)
  change_pcb new_pcb (with_parent parent)
  new_pcb_ptr ← pcb_ptr_alloc new_pcb
  if new_pcb_ptr == null then crash else do
    change_pcb parent (with_child new_pcb_ptr)
    insert_ready new_pcb
    k ← get
    set_retvalue (pos (k.pcb_memory new_pcb).pid)

unfoldable pub internal_fork : Cmd Kernel (Unit {0})
unfolding add_child
internal_fork = do
  self ← current
  new_pcb ← pcb_alloc
  if new_pcb == null then set_retvalue Error.spawn else add_child self new_pcb

-- The context that `makecontext` makes of a new process, from the caller's arguments.
unfoldable pub make_context : (new_pcb : Ptr) → Cmd Kernel (Unit {0})
make_context new_pcb = do
  k ← get
  change_pcb new_pcb (with_cpu_state (starts (to_ptr (argument k 0)) (to_ptr (argument k 1))))

unfoldable pub internal_spawn : Cmd Kernel (Unit {0})
unfolding add_child make_context
internal_spawn = do
  self ← current
  new_pcb ← pcb_alloc
  if new_pcb == null
      then set_retvalue Error.spawn
      else do add_child self new_pcb; make_context new_pcb
