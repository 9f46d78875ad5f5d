-- ===== src/BQueue.antt =====
-- bqueue.c: the blocking queues' objects, their pools and their registry.
use so_oscilloscopio.Base.{ℕ, ◌+◌, ◌*◌, ℤ, pos, eqb_ℤ, List, [], ◌∷◌, ◌==◌, if◌then◌else◌}
use so_oscilloscopio.Run.{ok, fault, Cmd, pure, get, modify, ◌>>=◌, ◌>>◌}
use so_oscilloscopio.LinkedList.{Ptr, null}
use so_oscilloscopio.PoolAllocator.{
  PoolAllocator, PoolAllocatorResult, success, get_block, release_block, init, sizeof_int,
}
use so_oscilloscopio.Kernel.{Kernel, BlockingQueue, update, on_pool}

abbrev pub max_num_bqueues : ℕ
max_num_bqueues = 128

abbrev pub max_num_bqitems : ℕ
max_num_bqitems = 4096

-- `sizeof(BlockingQueue)` and `sizeof(BQItem)` on a 64-bit machine.
abbrev pub sizeof_bqueue : ℕ
sizeof_bqueue = 104

abbrev pub sizeof_bqitem : ℕ
sizeof_bqitem = 24

abbrev pub with_bq_allocator : Kernel → PoolAllocator → Kernel
with_bq_allocator k a = record k { bq_allocator = a }

abbrev pub with_bqitem_allocator : Kernel → PoolAllocator → Kernel
with_bqitem_allocator k a = record k { bqitem_allocator = a }

-- `assert(r == Success)`.
unfoldable pub assert_success : PoolAllocatorResult → Cmd Kernel (Unit {0})
assert_success success k = ok tt k
assert_success _ k = fault

-- The two static buffers stand at the given addresses and hold the given words.
unfoldable pub bq_init :
    (bq_buffer bqitem_buffer : ℕ) (bq_words bqitem_words : List ℤ) → Cmd Kernel (Unit {0})
unfolding assert_success
bq_init bq_buffer bqitem_buffer bq_words bqitem_words = do
  k ← get
  r ← on_pool with_bq_allocator (
      init sizeof_bqueue max_num_bqueues bq_buffer (max_num_bqueues * (sizeof_bqueue + sizeof_int))
        bq_words k.bq_allocator)
  assert_success r
  k ← get
  r ← on_pool with_bqitem_allocator (
      init sizeof_bqitem max_num_bqitems bqitem_buffer
        (max_num_bqitems * (sizeof_bqitem + sizeof_int)) bqitem_words k.bqitem_allocator)
  assert_success r
  modify λ k. record k { bq_registry = [] }

unfoldable pub set_bqueue : Ptr → BlockingQueue → Cmd Kernel (Unit {0})
set_bqueue q v k = ok tt (record k { bqueue_memory = update k.bqueue_memory q v })

unfoldable pub bq_alloc : (id capacity : ℤ) → Cmd Kernel Ptr
unfolding set_bqueue
bq_alloc id capacity = do
  k ← get
  q ← on_pool with_bq_allocator (get_block k.bq_allocator)
  if q == null then pure null else do
    set_bqueue q (record {
      id = id;
      capacity = capacity;
      size = 0;
      items = [];
      wait_getters = [];
      wait_putters = [];
    })
    pure q

unfoldable pub bqitem_alloc : Cmd Kernel Ptr
bqitem_alloc = do
  k ← get
  it ← on_pool with_bqitem_allocator (get_block k.bqitem_allocator)
  if it == null
      then pure null
      else do modify λ k. record k { bqitem_memory = update k.bqitem_memory it (pos 0) }; pure it

unfoldable pub bqitem_free : Ptr → Cmd Kernel ℤ
bqitem_free it = do
  k ← get
  _ ← on_pool with_bqitem_allocator (release_block it k.bqitem_allocator)
  pure (pos 0)

-- `while (q->items.first) { … List_detach …; PoolAllocator_releaseBlock … }`.
unfoldable pub free_items : Ptr → List Ptr → Cmd Kernel (Unit {0})
unfolding set_bqueue
free_items q [] = pure tt
free_items q (it ∷ rest) = do
  k ← get
  set_bqueue q (record (k.bqueue_memory q) { items = rest })
  k ← get
  _ ← on_pool with_bqitem_allocator (release_block it k.bqitem_allocator)
  free_items q rest

-- `assert(l.size == 0)`.
unfoldable pub assert_empty : List Ptr → Cmd Kernel (Unit {0})
assert_empty [] k = ok tt k
assert_empty (x ∷ xs) k = fault

unfoldable pub bq_free : Ptr → Cmd Kernel ℤ
unfolding free_items assert_empty set_bqueue
bq_free q = do
  k ← get
  free_items q (k.bqueue_memory q).items
  k ← get
  set_bqueue q (record (k.bqueue_memory q) { size = 0 })
  k ← get
  assert_empty (k.bqueue_memory q).wait_getters
  assert_empty (k.bqueue_memory q).wait_putters
  _ ← on_pool with_bq_allocator (release_block q k.bq_allocator)
  pure (pos 0)

-- The scan of the registry.
unfoldable pub bq_by_id : (Ptr → BlockingQueue) → List Ptr → ℤ → Ptr
bq_by_id memory [] id = null
bq_by_id memory (q ∷ rest) id = if eqb_ℤ (memory q).id id then q else bq_by_id memory rest id
