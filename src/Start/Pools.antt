-- ===== src/Start/Pools.antt =====
-- The initialization of the pools, with the sizes of the program.
use so_oscilloscopio.Base.{ℕ, ◌+◌, ◌*◌, ◌^◌, ◌≡◌, ap, ◌∙◌, ◌≤◌, ◌<◌, ℤ, List, [], arith, length}
use so_oscilloscopio.Run.{ok}
use so_oscilloscopio.Run.Returns
use so_oscilloscopio.Run.Returns.{Returns, returns}
use so_oscilloscopio.PoolAllocator.{PoolAllocator, success, init, sizeof_int}
use so_oscilloscopio.PoolAllocator.Free.{IsPool}
use so_oscilloscopio.PoolAllocator.Init.{range, init-IsPool}
use so_oscilloscopio.PoolAllocator.Live.{Holds}
use so_oscilloscopio.Kernel.{Kernel}
use so_oscilloscopio.Pcb.{assert_zero, pcb_init}
use so_oscilloscopio.Timer.{timer_init}
use so_oscilloscopio.Resource.{resource_init}
use so_oscilloscopio.Descriptor.{max_num_descriptors, descriptor_init}
use so_oscilloscopio.BQueue.{assert_success, bq_init}

-- A pool with no live block, and every one of its `n` blocks free.
pub record IsFull (n : ℕ) (a : PoolAllocator) : Type 0 where
  pub blocks : a.size_max ≡ n
  pub pool : IsPool a (range 0 n)

pub IsFull-Holds : (n : ℕ) (a : PoolAllocator) → IsFull n a → Holds a []
IsFull-Holds n a full = record { free = range 0 n; pool = full.pool; blocks = λ p i. cc }

init_run :
    (item_size num_items buffer memory_size : ℕ) (words : List ℤ) (a : PoolAllocator)
    → 0 < num_items
    → 0 < item_size
    → 0 < buffer
    → num_items * (item_size + sizeof_int) ≤ memory_size
    → num_items * (item_size + sizeof_int) < 2 ^ 31
    → length words ≡ num_items
    → (b : PoolAllocator) × IsFull num_items b
      × (init item_size num_items buffer memory_size words a ≡ ok success b)
init_run item_size num_items buffer memory_size words a some wide placed enough fits cells =
    let (r, b, eq, (won, blocks, pool)) = Returns.result (
      init-IsPool item_size num_items buffer memory_size words a some wide placed enough fits
        cells) in
    (b, record { blocks = blocks; pool = pool }, eq ∙ ap (λ r. ok r b) won)

module _ (k : Kernel) where
  pub pcb_init_run :
      (sizeof_pcb pcb_buffer pcb_ptr_buffer : ℕ) (words ptr_words : List ℤ)
      → 0 < sizeof_pcb
      → 1024 * (sizeof_pcb + sizeof_int) < 2 ^ 31
      → 0 < pcb_buffer
      → 0 < pcb_ptr_buffer
      → length words ≡ 1024
      → length ptr_words ≡ 1024
      → (a b : PoolAllocator) × IsFull 1024 a
        × IsFull 1024 b
        × (pcb_init sizeof_pcb pcb_buffer pcb_ptr_buffer words ptr_words k
            ≡ ok tt (record k { pcb_allocator = a; pcb_ptr_allocator = b }))
  unfolding pcb_init assert_zero
  pcb_init_run sizeof_pcb pcb_buffer pcb_ptr_buffer words ptr_words wide fits placed placed' cells
        cells' =
      let (a, full, run) =
        init_run sizeof_pcb 1024 pcb_buffer (1024 * (sizeof_pcb + sizeof_int)) words k.pcb_allocator
          (omega arith) wide placed (omega arith) fits cells in
      let (b, full', run') =
        init_run 24 1024 pcb_ptr_buffer (1024 * (24 + sizeof_int)) ptr_words k.pcb_ptr_allocator
          (omega arith) (omega arith) placed' (omega arith) (omega arith) cells' in
      (a, b, full, full', rw (run, run'))

  pub timer_init_run :
      (buffer : ℕ) (words : List ℤ)
      → 0 < buffer
      → length words ≡ 1024
      → (a : PoolAllocator) × IsFull 1024 a
        × (timer_init buffer words k ≡ ok tt (record k { timer_item_allocator = a }))
  unfolding timer_init assert_zero
  timer_init_run buffer words placed cells =
      let (a, full, run) =
        init_run 32 1024 buffer (1024 * (32 + sizeof_int)) words k.timer_item_allocator
          (omega arith) (omega arith) placed (omega arith) (omega arith) cells in
      (a, full, rw run)

  pub resource_init_run :
      (buffer : ℕ) (words : List ℤ)
      → 0 < buffer
      → length words ≡ 1024
      → (a : PoolAllocator) × IsFull 1024 a
        × (resource_init buffer words k ≡ ok tt (record k { resources_allocator = a }))
  unfolding resource_init assert_zero
  resource_init_run buffer words placed cells =
      let (a, full, run) =
        init_run 48 1024 buffer (1024 * (48 + sizeof_int)) words k.resources_allocator (omega arith)
          (omega arith) placed (omega arith) (omega arith) cells in
      (a, full, rw run)

  pub descriptor_init_run :
      (buffer ptr_buffer : ℕ) (words ptr_words : List ℤ)
      → 0 < buffer
      → 0 < ptr_buffer
      → length words ≡ 1024
      → length ptr_words ≡ 1024
      → (a b : PoolAllocator) × IsFull 1024 a
        × IsFull 1024 b
        × (descriptor_init buffer ptr_buffer words ptr_words k
            ≡ ok tt (record k { descriptor_allocator = a; descriptor_ptr_allocator = b }))
  unfolding descriptor_init assert_zero
  descriptor_init_run buffer ptr_buffer words ptr_words placed placed' cells cells' =
      let (a, full, run) =
        init_run 48 1024 buffer (max_num_descriptors * (48 + sizeof_int)) words
          k.descriptor_allocator (omega arith) (omega arith) placed (omega arith) (omega arith)
          cells in
      let (b, full', run') =
        init_run 24 1024 ptr_buffer (max_num_descriptors * (24 + sizeof_int)) ptr_words
          k.descriptor_ptr_allocator (omega arith) (omega arith) placed' (omega arith) (omega arith)
          cells' in
      (a, b, full, full', rw (run, run'))

  pub bq_init_run :
      (buffer item_buffer : ℕ) (words item_words : List ℤ)
      → 0 < buffer
      → 0 < item_buffer
      → length words ≡ 128
      → length item_words ≡ 4096
      → (a b : PoolAllocator) × IsFull 128 a
        × IsFull 4096 b
        × (bq_init buffer item_buffer words item_words k
            ≡ ok tt (record k { bq_allocator = a; bqitem_allocator = b; bq_registry = [] }))
  unfolding bq_init assert_success
  bq_init_run buffer item_buffer words item_words placed placed' cells cells' =
      let (a, full, run) =
        init_run 104 128 buffer (128 * (104 + sizeof_int)) words k.bq_allocator (omega arith)
          (omega arith) placed (omega arith) (omega arith) cells in
      let (b, full', run') =
        init_run 24 4096 item_buffer (4096 * (24 + sizeof_int)) item_words k.bqitem_allocator
          (omega arith) (omega arith) placed' (omega arith) (omega arith) cells' in
      (a, b, full, full', rw (run, run'))
