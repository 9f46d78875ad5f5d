-- ===== src/Resource.antt =====
-- disastrOS_resource.c: the resources and their pool.
use so_oscilloscopio.Base.{ℕ, ◌+◌, ◌*◌, ℤ, eqb_ℤ, List, [], ◌∷◌, ◌==◌, if◌then◌else◌}
use so_oscilloscopio.Run.{Cmd, pure, get, modify, ◌>>=◌, ◌>>◌}
use so_oscilloscopio.LinkedList.{Ptr, null}
use so_oscilloscopio.PoolAllocator.{PoolAllocator, code, get_block, release_block, init, sizeof_int}
use so_oscilloscopio.Kernel.{Kernel, Resource, update, on_pool}
use so_oscilloscopio.Pcb.{assert_zero}
use so_oscilloscopio.BQueue.{assert_empty}

abbrev pub max_num_resources : ℕ
max_num_resources = 1024

-- `sizeof(Resource)` on a 64-bit machine.
abbrev pub sizeof_resource : ℕ
sizeof_resource = 48

abbrev pub with_resources_allocator : Kernel → PoolAllocator → Kernel
with_resources_allocator k a = record k { resources_allocator = a }

unfoldable pub resource_init : (resources_buffer : ℕ) (words : List ℤ) → Cmd Kernel (Unit {0})
resource_init resources_buffer words = do
  k ← get
  result ← on_pool with_resources_allocator (
      init sizeof_resource max_num_resources resources_buffer
        (max_num_resources * (sizeof_resource + sizeof_int)) words k.resources_allocator)
  assert_zero result

unfoldable pub resource_alloc : (id kind : ℤ) → Cmd Kernel Ptr
resource_alloc id kind = do
  k ← get
  r ← on_pool with_resources_allocator (get_block k.resources_allocator)
  if r == null then pure null else do
    modify λ k. record k {
      resource_memory =
          update k.resource_memory r (record { id = id; kind = kind; descriptors_ptrs = [] });
    }
    pure r

unfoldable pub resource_free : (r : Ptr) → Cmd Kernel ℤ
resource_free r = do
  k ← get
  assert_empty (k.resource_memory r).descriptors_ptrs
  result ← on_pool with_resources_allocator (release_block r k.resources_allocator)
  pure (code result)

unfoldable pub resource_by_id : (Ptr → Resource) → List Ptr → (id : ℤ) → Ptr
resource_by_id memory [] id = null
resource_by_id memory (r ∷ rest) id =
    if eqb_ℤ (memory r).id id then r else resource_by_id memory rest id
