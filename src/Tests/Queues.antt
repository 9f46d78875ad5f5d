-- ===== src/Tests/Queues.antt =====
-- The system calls on blocking queues in small kernels: one process runs, another is ready, and a
-- third waits where the test says so.
use so_oscilloscopio.Base.{
  ◌≡◌, refl, ◌≢◌, ℤ, pos, negsuc, [], ◌∷◌, arith, ◌==◌, if◌then◌else◌, inl, inr, to_int, to_ptr,
  false,
}
use so_oscilloscopio.Run.{ok}
use so_oscilloscopio.Run.Returns.{Returns}
use so_oscilloscopio.LinkedList.{null}
use so_oscilloscopio.PoolAllocator.{get_block}
use so_oscilloscopio.PoolAllocator.Live.{Holds}
use so_oscilloscopio.Kernel.{saved, Kernel, Pcb, BlockingQueue, running}
use so_oscilloscopio.BQueue.{bq_by_id}
use so_oscilloscopio.Syscall.BQueue.{
  internal_bq_put, internal_bq_get, internal_bq_create, internal_bq_delete, queue_by_id,
}
use so_oscilloscopio.Kernel.{argument}
use so_oscilloscopio.Syscall.BQueue.Completion.{Producer}
use so_oscilloscopio.Syscall.BQueue.Registry.{IsRegistry}
use so_oscilloscopio.Syscall.BQueue.Create.{CreateOutcome, internal_bq_create-IsRegistry}
use so_oscilloscopio.Syscall.BQueue.Delete.{
  HoldsItems, DeleteOutcome, internal_bq_delete-IsRegistry,
}
use so_oscilloscopio.Syscall.BQueue.Fifo.{contents, IsQueue, Owns, IsRunning}
use so_oscilloscopio.Syscall.BQueue.Put.{Queued, internal_bq_put-Queued}
use so_oscilloscopio.Syscall.BQueue.HandOff.{HandedOver, internal_bq_put-HandedOver}
use so_oscilloscopio.Syscall.BQueue.TakeItem.{Dequeued}
use so_oscilloscopio.Syscall.BQueue.Get.{
  GetterWaits, internal_bq_get-Dequeued, internal_bq_get-GetterWaits,
}
use so_oscilloscopio.Tests.Pools.{half_used, half_used-Holds}

abbrev pub process : Pcb
process = record {
  pid = 1;
  return_value = pos 0;
  status = running;
  signals = pos 0;
  signals_mask = negsuc 0;
  parent = null;
  children = [];
  timer = null;
  last_fd = 0;
  descriptors = [];
  syscall_num = pos 13;
  syscall_args = λ i. if i == 0 then pos 7 else pos 600;
  syscall_retvalue = pos 0;
  cpu_state = saved;
}

abbrev pub kernel : BlockingQueue → Kernel
kernel queue = record {
  pcb_memory = λ p. process;
  pcb_ptr_memory = λ p. 31;
  timer_memory = λ p. record { awakening_time = pos 0; pcb = null };
  resource_memory = λ p. record { id = pos 0; kind = pos 0; descriptors_ptrs = [] };
  descriptor_memory = λ p. record { pcb = null; resource = null; fd = 0; ptr = null };
  descriptor_ptr_memory = λ p. null;
  bqueue_memory = λ p. queue;
  bqitem_memory = λ p. pos 500;
  user_memory = λ p. pos 0;
  pcb_allocator = half_used 10 8;
  pcb_ptr_allocator = half_used 200 24;
  timer_item_allocator = half_used 300 8;
  resources_allocator = half_used 400 8;
  descriptor_allocator = half_used 500 8;
  descriptor_ptr_allocator = half_used 600 8;
  bq_allocator = half_used 9 104;
  bqitem_allocator = half_used 100 24;
  init_pcb = 30;
  running_pcb = 30;
  last_pid = 3;
  ready_list = 32 ∷ [];
  waiting_list = 31 ∷ [];
  zombie_list = [];
  resources_list = [];
  timer_list = [];
  bq_registry = 9 ∷ [];
  disastr_os_time = pos 0;
  shutdown_now = false;
}

-- A full queue with a producer that waits, an empty one, and one that a getter waits for.
abbrev pub full : BlockingQueue
full = record {
  id = pos 7;
  capacity = pos 1;
  size = 1;
  items = 100 ∷ [];
  wait_getters = [];
  wait_putters = 200 ∷ [];
}

abbrev pub empty : BlockingQueue
empty = record full { size = 0; items = []; wait_putters = [] }

abbrev wanted : BlockingQueue
wanted = record empty { wait_getters = 200 ∷ [] }

pub kernel-IsRunning : (v : BlockingQueue) → IsRunning (kernel v)
kernel-IsRunning v = record {
  running = ground arith;
  unlisted = refl;
  ready = refl;
  waiting = (refl, tt);
}

items-Holds : Holds (half_used 100 24) (100 ∷ [])
items-Holds = half_used-Holds 100 24 (omega arith) (omega arith) (omega arith)

ptrs-Holds : Holds (half_used 200 24) (200 ∷ [])
ptrs-Holds = half_used-Holds 200 24 (omega arith) (omega arith) (omega arith)

pub full-Owns : Owns (kernel full) full
full-Owns = record {
  items = 100 ∷ [];
  items_live = items-Holds;
  items_distinct = (refl, tt);
  items_owned = λ p i. i;
  own_distinct = (refl, tt);
  ptrs = 200 ∷ [];
  ptrs_live = ptrs-Holds;
  ptrs_distinct = (refl, tt);
  ptrs_owned = λ p i. i;
}

empty-Owns : Owns (kernel empty) empty
empty-Owns = record {
  items = 100 ∷ [];
  items_live = items-Holds;
  items_distinct = (refl, tt);
  items_owned = λ p i. cc;
  own_distinct = tt;
  ptrs = 200 ∷ [];
  ptrs_live = ptrs-Holds;
  ptrs_distinct = (refl, tt);
  ptrs_owned = λ p i. cc;
}

wanted-Owns : Owns (kernel wanted) wanted
wanted-Owns = record {
  items = 100 ∷ [];
  items_live = items-Holds;
  items_distinct = (refl, tt);
  items_owned = λ p i. cc;
  own_distinct = tt;
  ptrs = 200 ∷ [];
  ptrs_live = ptrs-Holds;
  ptrs_distinct = (refl, tt);
  ptrs_owned = λ p i. i;
}

pub full-IsQueue : IsQueue full
full-IsQueue = record {
  counted = refl;
  room = omega arith;
  positive = omega arith;
  full = inr refl;
  empty = inl refl;
}

empty-IsQueue : IsQueue empty
empty-IsQueue = record {
  counted = refl;
  room = omega arith;
  positive = omega arith;
  full = inl refl;
  empty = inl refl;
}

wanted-IsQueue : IsQueue wanted
wanted-IsQueue = record {
  counted = refl;
  room = omega arith;
  positive = omega arith;
  full = inl refl;
  empty = inr (refl, refl);
}

found :
    (v : BlockingQueue) → v.id ≡ pos 7 → queue_by_id (kernel v) (to_int (argument (kernel v) 0)) ≡ 9
unfolding bq_by_id to_int
found v e = rw e

pub item_left : get_block (half_used 100 24) ≢ ok 0 (half_used 100 24)
unfolding get_block
item_left e = ground arith

pub ptr_left : get_block (half_used 200 24) ≢ ok 0 (half_used 200 24)
unfolding get_block
ptr_left e = ground arith

pub waiter : (v : BlockingQueue) → Producer (kernel v) 31
waiter v = record { present = ground arith; not_ready = refl; not_zombie = refl }

internal_bq_put-Queued_example :
    Returns (λ _ l. Queued (kernel full) 9 (pos 600) l) (internal_bq_put (kernel full))
internal_bq_put-Queued_example =
    internal_bq_put-Queued (kernel full) 9 (kernel-IsRunning full) full-Owns full-IsQueue refl
      (ground arith) (found full refl) item_left ptr_left

internal_bq_put-HandedOver_example :
    Returns
      (λ _ l. HandedOver (kernel wanted) 9 200 [] (pos 600) l)
      (internal_bq_put (kernel wanted))
internal_bq_put-HandedOver_example =
    internal_bq_put-HandedOver (kernel wanted) 9 200 [] (kernel-IsRunning wanted) wanted-Owns
      wanted-IsQueue refl (waiter wanted) (ground arith) (found wanted refl)

internal_bq_get-Dequeued_example :
    Returns
      (λ _ l. (value : ℤ) × Dequeued (kernel full) 9 (to_ptr (pos 600)) value l)
      (internal_bq_get (kernel full))
unfolding contents
internal_bq_get-Dequeued_example =
    internal_bq_get-Dequeued (kernel full) 9 (kernel-IsRunning full) full-Owns full-IsQueue
      (ground arith) (found full refl) (λ p i. waiter full) (λ e. cc)

internal_bq_get-GetterWaits_example :
    Returns (λ _ l. GetterWaits (kernel empty) 9 l) (internal_bq_get (kernel empty))
unfolding contents
internal_bq_get-GetterWaits_example =
    internal_bq_get-GetterWaits (kernel empty) 9 (kernel-IsRunning empty) empty-Owns empty-IsQueue
      (ground arith) (found empty refl) refl ptr_left

-- The registered queue has the id 8, and one with the id 7 is asked for.
abbrev unrelated : BlockingQueue
unrelated = record empty { id = pos 8 }

unrelated-IsRegistry : IsRegistry (kernel unrelated)
unrelated-IsRegistry = record {
  live = 9 ∷ [];
  holds = half_used-Holds 9 104 (omega arith) (omega arith) (omega arith);
  owned = λ q i. i;
  unique = (tt, tt);
}

internal_bq_create-IsRegistry_example :
    Returns
      (λ _ l.
        CreateOutcome
          (kernel unrelated)
          (to_int (argument (kernel unrelated) 0))
          (to_int (argument (kernel unrelated) 1))
          l
        × IsRegistry l)
      (internal_bq_create (kernel unrelated))
internal_bq_create-IsRegistry_example =
    internal_bq_create-IsRegistry (kernel unrelated) (ground arith) unrelated-IsRegistry

-- The queue with the id 7 has one item, and nobody waits.
abbrev unused : BlockingQueue
unused = record full { wait_putters = [] }

abbrev unused_registry : IsRegistry (kernel unused)
unused_registry = record {
  live = 9 ∷ [];
  holds = half_used-Holds 9 104 (omega arith) (omega arith) (omega arith);
  owned = λ q i. i;
  unique = (tt, tt);
}

unused-HoldsItems : HoldsItems (kernel unused) unused_registry (100 ∷ [])
unused-HoldsItems = record {
  holds = items-Holds;
  distinct = (refl, tt);
  queues_distinct = (refl, tt);
  items_distinct = λ q i. (refl, tt);
  owned = λ q i p j. j;
}

internal_bq_delete-IsRegistry_example :
    Returns
      (λ _ l.
        DeleteOutcome
          (kernel unused)
          (to_int (argument (kernel unused) 0))
          unused_registry.live
          (100 ∷ [])
          l
        × IsRegistry l)
      (internal_bq_delete (kernel unused))
internal_bq_delete-IsRegistry_example =
    internal_bq_delete-IsRegistry (kernel unused) (ground arith) unused_registry (100 ∷ [])
      unused-HoldsItems
