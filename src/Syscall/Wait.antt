-- ===== src/Syscall/Wait.antt =====
-- disastrOS_wait.c.
pub mod Reap
pub mod Steps
use so_oscilloscopio.Base.{
  ℕ, ℤ, pos, to_int, to_ptr, eqb_ℤ, ◌&&◌, ◌||◌, mem, erase, List, [], ◌∷◌, ◌==◌, if◌then◌else◌,
}
use so_oscilloscopio.Run.{Cmd, pure, get, modify, ◌>>=◌, ◌>>◌}
use so_oscilloscopio.Constants.Error
use so_oscilloscopio.LinkedList.{Ptr, null}
use so_oscilloscopio.Kernel.{
  Kernel, Pcb, waiting, with_status, change_pcb, current, set_retvalue, argument, deliver,
}
use so_oscilloscopio.Kernel.Lists.{insert_waiting, pop_ready, detach_zombie}
use so_oscilloscopio.Pcb.{pcb_free, pcb_ptr_free, pcb_ptr_by_pid}

abbrev without_child : Ptr → Pcb → Pcb
without_child item v = record v { children = erase item v.children }

-- `if (link) { List_detach(&parent->children, link); PCBPtr_free(link); }`
unfoldable pub unlink_child : (parent link : Ptr) → Cmd Kernel (Unit {0})
unlink_child parent link =
    if link == null
    then pure tt
    else do change_pcb parent (without_child link); pcb_ptr_free link; pure tt

unfoldable pub leave_zombies : (child : Ptr) → Cmd Kernel (Unit {0})
leave_zombies child k = if mem child k.zombie_list then detach_zombie child k else pure tt k

-- `parent`, the running process, is not null. The memory of user programs is one of words here, and
-- the exit code is stored in one.
unfoldable pub reap_child : (parent child result_out : Ptr) → Cmd Kernel ℕ
unfolding unlink_child leave_zombies
reap_child parent child result_out = do
  leave_zombies child
  k ← get
  unlink_child parent (
      pcb_ptr_by_pid k.pcb_memory k.pcb_ptr_memory (k.pcb_memory parent).children
        (k.pcb_memory child).pid)
  k ← get
  deliver result_out (k.pcb_memory child).return_value
  k ← get
  let reaped_pid = (k.pcb_memory child).pid
  pcb_free child
  pure reaped_pid

-- The scan of the zombies for a child of `parent` with the given pid, or with any if that is 0.
unfoldable pub find_zombie : (Ptr → Pcb) → (parent : Ptr) (pid_to_wait : ℤ) → List Ptr → Ptr
find_zombie memory parent pid_to_wait [] = null
find_zombie memory parent pid_to_wait (z ∷ rest) =
    if (memory z).parent == parent
      && (eqb_ℤ pid_to_wait (pos 0) || eqb_ℤ (pos (memory z).pid) pid_to_wait)
    then z
    else find_zombie memory parent pid_to_wait rest

-- The parent waits, and the first ready process runs; with none, `List_detach` faults.
unfoldable pub block_parent : (parent : Ptr) → Cmd Kernel (Unit {0})
block_parent parent = do
  change_pcb parent (with_status waiting)
  insert_waiting parent
  next ← pop_ready
  modify λ k. record k { running_pcb = next }

unfoldable pub reap_and_reply : (parent awaited result : Ptr) → Cmd Kernel (Unit {0})
unfolding reap_child
reap_and_reply parent awaited result = do
  reaped_pid ← reap_child parent awaited result
  set_retvalue (pos reaped_pid)

unfoldable pub internal_wait : Cmd Kernel (Unit {0})
unfolding find_zombie block_parent reap_and_reply
internal_wait = do
  self ← current
  k ← get
  let pid_to_wait = to_int (argument k 0)
  let result = to_ptr (argument k 1)
  let awaited = find_zombie k.pcb_memory self pid_to_wait k.zombie_list
  elim (k.pcb_memory self).children [
    | [] ↦ set_retvalue Error.wait
    | child ∷ others ↦
        if awaited == null then block_parent self else reap_and_reply self awaited result
  ]
