-- ===== src/Pcb.antt =====
-- disastrOS_pcb.c: the control blocks, the list items that point to them, and their pools.
use so_oscilloscopio.Base.{ℕ, ◌+◌, ◌*◌, ℤ, pos, negsuc, List, [], ◌∷◌, ◌==◌, if◌then◌else◌}
use so_oscilloscopio.Run.{ok, fault, Cmd, pure, get, modify, ◌>>=◌, ◌>>◌}
use so_oscilloscopio.LinkedList.{Ptr, null}
use so_oscilloscopio.PoolAllocator.{
  PoolAllocator, PoolAllocatorResult, success, code, get_block, release_block, init, sizeof_int,
}
use so_oscilloscopio.Kernel.{Kernel, Pcb, invalid, update, on_pool, deref}

abbrev pub max_num_processes : ℕ
max_num_processes = 1024

-- `sizeof(PCBPtr)` on a 64-bit machine.
abbrev pub sizeof_pcb_ptr : ℕ
sizeof_pcb_ptr = 24

abbrev pub with_pcb_allocator : Kernel → PoolAllocator → Kernel
with_pcb_allocator k a = record k { pcb_allocator = a }

abbrev pub with_pcb_ptr_allocator : Kernel → PoolAllocator → Kernel
with_pcb_ptr_allocator k a = record k { pcb_ptr_allocator = a }

-- `assert(!result)`.
unfoldable pub assert_zero : PoolAllocatorResult → Cmd Kernel (Unit {0})
assert_zero success k = ok tt k
assert_zero _ k = fault

-- `sizeof(PCB)` depends on the system's `ucontext_t`, so it is an argument, as are the addresses of
-- the static buffers and the words that they hold.
unfoldable pub pcb_init :
    (sizeof_pcb pcb_buffer pcb_ptr_buffer : ℕ)
    → (pcb_words pcb_ptr_words : List ℤ) → Cmd Kernel (Unit {0})
unfolding assert_zero
pcb_init sizeof_pcb pcb_buffer pcb_ptr_buffer pcb_words pcb_ptr_words = do
  k ← get
  result ← on_pool with_pcb_allocator (
      init sizeof_pcb max_num_processes pcb_buffer (max_num_processes * (sizeof_pcb + sizeof_int))
        pcb_words k.pcb_allocator)
  assert_zero result
  k ← get
  result ← on_pool with_pcb_ptr_allocator (
      init sizeof_pcb_ptr max_num_processes pcb_ptr_buffer
        (max_num_processes * (sizeof_pcb_ptr + sizeof_int)) pcb_ptr_words k.pcb_ptr_allocator)
  assert_zero result

-- The fields that `PCB_alloc` sets; `last_fd`, the processor state and the arguments of system calls
-- keep the content of the block. The mask 0xFFFFFFFF is -1 as an `int`.
unfoldable pub fresh_pcb : Pcb → ℕ → Pcb
fresh_pcb old pid = record old {
  pid = pid;
  return_value = pos 0;
  signals = pos 0;
  signals_mask = negsuc 0;
  status = invalid;
  descriptors = [];
  parent = null;
  timer = null;
  children = [];
}

-- With no free block the first write goes through the null pointer.
unfoldable pub pcb_alloc : Cmd Kernel Ptr
unfolding fresh_pcb
pcb_alloc = do
  k ← get
  p ← on_pool with_pcb_allocator (get_block k.pcb_allocator)
  deref p
  modify λ k. record k {
    pcb_memory = update k.pcb_memory p (fresh_pcb (k.pcb_memory p) k.last_pid);
    last_pid = k.last_pid + 1;
  }
  pure p

unfoldable pub pcb_free : Ptr → Cmd Kernel ℤ
pcb_free p = do
  k ← get
  result ← on_pool with_pcb_allocator (release_block p k.pcb_allocator)
  pure (code result)

unfoldable pub pcb_ptr_alloc : Ptr → Cmd Kernel Ptr
pcb_ptr_alloc pcb = do
  k ← get
  item ← on_pool with_pcb_ptr_allocator (get_block k.pcb_ptr_allocator)
  deref item
  modify λ k. record k { pcb_ptr_memory = update k.pcb_ptr_memory item pcb }
  pure item

unfoldable pub pcb_ptr_free : Ptr → Cmd Kernel ℤ
pcb_ptr_free item = do
  k ← get
  result ← on_pool with_pcb_ptr_allocator (release_block item k.pcb_ptr_allocator)
  pure (code result)

-- `PCB_byPID` and `PCBPtr_byPID`: the scan of a list of control blocks, and of one of pointers.
unfoldable pub pcb_by_pid : (Ptr → Pcb) → List Ptr → ℕ → Ptr
pcb_by_pid memory [] pid = null
pcb_by_pid memory (p ∷ rest) pid = if (memory p).pid == pid then p else pcb_by_pid memory rest pid

-- A pointer in the list is not null: the C code would read through it.
unfoldable pub pcb_ptr_by_pid : (Ptr → Pcb) → (Ptr → Ptr) → List Ptr → ℕ → Ptr
pcb_ptr_by_pid memory ptrs [] pid = null
pcb_ptr_by_pid memory ptrs (item ∷ rest) pid =
    if (memory (ptrs item)).pid == pid then item else pcb_ptr_by_pid memory ptrs rest pid
