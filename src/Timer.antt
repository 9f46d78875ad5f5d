-- ===== src/Timer.antt =====
-- disastr_os_timer.c: the timers' items, their pool, and the list of timers by awakening time.
pub mod Add
pub mod Order
use so_oscilloscopio.Base.{
  ℕ, ◌+◌, ◌*◌, ℤ, pos, negsuc, ltb_ℤ, leb_ℤ, List, [], ◌∷◌, ◌==◌, if◌then◌else◌,
}
use so_oscilloscopio.Run.{ok, fault, Cmd, pure, get, modify, ◌>>=◌, ◌>>◌}
use so_oscilloscopio.LinkedList.{Ptr, null}
use so_oscilloscopio.PoolAllocator.{PoolAllocator, code, get_block, release_block, init, sizeof_int}
use so_oscilloscopio.Kernel.{Kernel, TimerItem, update, on_pool}
use so_oscilloscopio.Pcb.{max_num_processes, assert_zero}

-- `sizeof(TimerItem)` on a 64-bit machine.
abbrev pub sizeof_timer_item : ℕ
sizeof_timer_item = 32

abbrev pub with_timer_item_allocator : Kernel → PoolAllocator → Kernel
with_timer_item_allocator k a = record k { timer_item_allocator = a }

unfoldable pub timer_init : (timer_item_buffer : ℕ) (words : List ℤ) → Cmd Kernel (Unit {0})
timer_init timer_item_buffer words = do
  k ← get
  result ← on_pool with_timer_item_allocator (
      init sizeof_timer_item max_num_processes timer_item_buffer
        (max_num_processes * (sizeof_timer_item + sizeof_int)) words k.timer_item_allocator)
  assert_zero result

unfoldable pub timer_item_alloc : (awakening_time : ℤ) (pcb : Ptr) → Cmd Kernel Ptr
timer_item_alloc awakening_time pcb = do
  k ← get
  item ← on_pool with_timer_item_allocator (get_block k.timer_item_allocator)
  if item == null then pure null else do
    modify λ k. record k {
      timer_memory =
          update k.timer_memory item (record { awakening_time = awakening_time; pcb = pcb });
    }
    pure item

unfoldable pub timer_item_free : (item : Ptr) → Cmd Kernel ℤ
timer_item_free item = do
  k ← get
  result ← on_pool with_timer_item_allocator (release_block item k.timer_item_allocator)
  pure (code result)

-- The scan of `TimerList_add`: the last item before the first one that awakes later than `time`.
unfoldable pub previous_timer : (Ptr → TimerItem) → List Ptr → (time : ℤ) (previous : Ptr) → Ptr
previous_timer memory [] time previous = previous
previous_timer memory (x ∷ rest) time previous =
    if ltb_ℤ time (memory x).awakening_time then previous else previous_timer memory rest time x

-- `List_insert` of a new item behind `previous`, which is null or on the list.
unfoldable pub insert_behind : (previous item : Ptr) → List Ptr → List Ptr
insert_behind previous item [] = item ∷ []
insert_behind previous item (x ∷ rest) =
    if previous == null
    then item ∷ x ∷ rest
    else if x == previous
    then x ∷ item ∷ rest
    else x ∷ insert_behind previous item rest

unfoldable pub timer_list_add : (awakening_time : ℤ) (pcb : Ptr) → Cmd Kernel Ptr
unfolding previous_timer insert_behind
timer_list_add awakening_time pcb = do
  k ← get
  let previous = previous_timer k.timer_memory k.timer_list awakening_time null
  item ← timer_item_alloc awakening_time pcb
  if item == null then pure null else do
    modify λ k. record k { timer_list = insert_behind previous item k.timer_list }
    pure item

unfoldable pub timer_list_current : Kernel → (current_time : ℤ) → Ptr
timer_list_current k current_time = elim k.timer_list [
  | [] ↦ null
  | item ∷ rest ↦ if leb_ℤ (k.timer_memory item).awakening_time current_time then item else null
]

-- `List_detach` of the null pointer is a fault, so the -1 is never returned.
unfoldable pub timer_list_remove_current : Cmd Kernel ℤ
timer_list_remove_current k = elim k.timer_list [
  | [] ↦ fault
  | item ∷ rest ↦ (do timer_item_free item; pure (pos 0)) (record k { timer_list = rest })
]
