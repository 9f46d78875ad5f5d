-- ===== src/Descriptor.antt =====
-- disastrOS_descriptor.c: the descriptors, the list items that point to them, and their pools.
use so_oscilloscopio.Base.{ℕ, ◌+◌, ◌*◌, ℤ, pos, eqb_ℤ, List, [], ◌∷◌, ◌==◌, if◌then◌else◌}
use so_oscilloscopio.Run.{Cmd, pure, get, modify, ◌>>=◌, ◌>>◌}
use so_oscilloscopio.LinkedList.{Ptr, null}
use so_oscilloscopio.PoolAllocator.{PoolAllocator, code, get_block, release_block, init, sizeof_int}
use so_oscilloscopio.Kernel.{Kernel, Descriptor, update, on_pool}
use so_oscilloscopio.Pcb.{max_num_processes, assert_zero}

abbrev pub max_num_descriptors : ℕ
max_num_descriptors = 32 * 1024

-- `sizeof(Descriptor)` and `sizeof(DescriptorPtr)` on a 64-bit machine.
abbrev pub sizeof_descriptor : ℕ
sizeof_descriptor = 48

abbrev pub sizeof_descriptor_ptr : ℕ
sizeof_descriptor_ptr = 24

abbrev pub with_descriptor_allocator : Kernel → PoolAllocator → Kernel
with_descriptor_allocator k a = record k { descriptor_allocator = a }

abbrev pub with_descriptor_ptr_allocator : Kernel → PoolAllocator → Kernel
with_descriptor_ptr_allocator k a = record k { descriptor_ptr_allocator = a }

-- Both pools are given `max_num_processes` items, in buffers of `max_num_descriptors`.
unfoldable pub descriptor_init :
    (descriptor_buffer descriptor_ptr_buffer : ℕ)
    → (words ptr_words : List ℤ) → Cmd Kernel (Unit {0})
descriptor_init descriptor_buffer descriptor_ptr_buffer words ptr_words = do
  k ← get
  result ← on_pool with_descriptor_allocator (
      init sizeof_descriptor max_num_processes descriptor_buffer
        (max_num_descriptors * (sizeof_descriptor + sizeof_int)) words k.descriptor_allocator)
  assert_zero result
  k ← get
  result ← on_pool with_descriptor_ptr_allocator (
      init sizeof_descriptor_ptr max_num_processes descriptor_ptr_buffer
        (max_num_descriptors * (sizeof_descriptor_ptr + sizeof_int)) ptr_words
        k.descriptor_ptr_allocator)
  assert_zero result

-- The field `ptr` keeps the content of the block.
unfoldable pub descriptor_alloc : (fd : ℕ) (res pcb : Ptr) → Cmd Kernel Ptr
descriptor_alloc fd res pcb = do
  k ← get
  d ← on_pool with_descriptor_allocator (get_block k.descriptor_allocator)
  if d == null then pure null else do
    modify λ k. record k {
      descriptor_memory =
          update k.descriptor_memory d
            (record (k.descriptor_memory d) { fd = fd; resource = res; pcb = pcb });
    }
    pure d

unfoldable pub descriptor_free : (d : Ptr) → Cmd Kernel ℤ
descriptor_free d = do
  k ← get
  result ← on_pool with_descriptor_allocator (release_block d k.descriptor_allocator)
  pure (code result)

unfoldable pub descriptor_by_fd : (Ptr → Descriptor) → List Ptr → (fd : ℤ) → Ptr
descriptor_by_fd memory [] fd = null
descriptor_by_fd memory (d ∷ rest) fd =
    if eqb_ℤ (pos (memory d).fd) fd then d else descriptor_by_fd memory rest fd

unfoldable pub descriptor_ptr_alloc : (descriptor : Ptr) → Cmd Kernel Ptr
descriptor_ptr_alloc descriptor = do
  k ← get
  d ← on_pool with_descriptor_ptr_allocator (get_block k.descriptor_ptr_allocator)
  if d == null then pure null else do
    modify λ k. record k { descriptor_ptr_memory = update k.descriptor_ptr_memory d descriptor }
    pure d

unfoldable pub descriptor_ptr_free : (d : Ptr) → Cmd Kernel ℤ
descriptor_ptr_free d = do
  k ← get
  result ← on_pool with_descriptor_ptr_allocator (release_block d k.descriptor_ptr_allocator)
  pure (code result)
