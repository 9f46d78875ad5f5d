-- ===== src/Syscall/BQueue.antt =====
-- disastrOS_bqueue.c: the system calls on blocking queues.
pub mod Completion
pub mod Create
pub mod Delete
pub mod FreeItems
pub mod Effects
pub mod Fifo
pub mod Get
pub mod HandOff
pub mod Put
pub mod Registry
pub mod TakeItem
use so_oscilloscopio.Base.{
  ℕ, zero, suc, ◌+◌, ◌-◌, ℤ, pos, to_int, to_ptr, ltb_ℤ, leb_ℤ, Bool, true, false, not, List, [],
  ◌∷◌, ◌++◌, ◌==◌, if◌then◌else◌, erase,
}
use so_oscilloscopio.Run.{Run, ok, fault, out_of_fuel, Cmd, pure, get, modify, ◌>>=◌, ◌>>◌}
use so_oscilloscopio.Constants.Error
use so_oscilloscopio.LinkedList.{Ptr, null}
use so_oscilloscopio.Kernel.{
  Kernel, Pcb, BlockingQueue, ready, waiting, update, deref, change_pcb, current, set_retvalue,
  with_status, with_retvalue, argument, deliver,
}
use so_oscilloscopio.Kernel.Lists.{insert_ready, insert_waiting, leave_waiting, run_next}
use so_oscilloscopio.Pcb.{pcb_ptr_alloc, pcb_ptr_free}
use so_oscilloscopio.BQueue.{set_bqueue, bq_alloc, bq_free, bqitem_alloc, bqitem_free, bq_by_id}

-- `BQ_byId(BQ_registry(), id)`.
abbrev pub queue_by_id : Kernel → ℤ → Ptr
queue_by_id k id = bq_by_id k.bqueue_memory k.bq_registry id

unfoldable pub wake_ready : Ptr → Cmd Kernel (Unit {0})
wake_ready p =
    if p == null
    then pure tt
    else do leave_waiting p; change_pcb p (with_status ready); insert_ready p

unfoldable pub internal_bq_create : Cmd Kernel (Unit {0})
internal_bq_create = do
  current
  k ← get
  let id = to_int (argument k 0)
  let cap = to_int (argument k 1)
  if leb_ℤ cap (pos 0)
      then set_retvalue Error.argument_out_of_bounds
      else if not (queue_by_id k id == null)
      then set_retvalue Error.exists
      else do
        q ← bq_alloc id cap
        if q == null then set_retvalue Error.not_implemented else do
          modify λ k. record k { bq_registry = k.bq_registry ++ q ∷ [] }
          set_retvalue (pos 0)

-- `wait_getters.size || wait_putters.size`.
unfoldable pub has_waiters : BlockingQueue → Bool
has_waiters q = elim q.wait_getters [
  | [] ↦ elim q.wait_putters [ [] ↦ false | p ∷ ps ↦ true ]
  | g ∷ gs ↦ true
]

unfoldable pub internal_bq_delete : Cmd Kernel (Unit {0})
unfolding has_waiters
internal_bq_delete = do
  current
  k ← get
  let q = queue_by_id k (to_int (argument k 0))
  if q == null
      then set_retvalue Error.resource_no_fd
      else if has_waiters (k.bqueue_memory q)
      then set_retvalue Error.resource_in_use
      else do
        modify λ k. record k { bq_registry = erase q k.bq_registry }
        bq_free q
        set_retvalue (pos 0)

-- The hand-off of `internal_bq_put` to the first waiting getter.
unfoldable pub hand_to_getter :
    (q : Ptr) (value : ℤ) (gptr : Ptr) (rest : List Ptr) → Cmd Kernel (Unit {0})
hand_to_getter q value gptr rest = do
  k ← get
  set_bqueue q (record (k.bqueue_memory q) { wait_getters = rest })
  let getter = k.pcb_ptr_memory gptr
  pcb_ptr_free gptr
  deref getter
  deliver (to_ptr ((k.pcb_memory getter).syscall_args 1)) value
  change_pcb getter (with_retvalue (pos 0))
  wake_ready getter
  set_retvalue (pos 0)

-- `List_insert(&q->items, q->items.last, it); ++q->size;` with `it->value = value` before.
unfoldable pub append_item : (q it : Ptr) (value : ℤ) → Cmd Kernel (Unit {0})
append_item q it value = do
  modify λ k. record k { bqitem_memory = update k.bqitem_memory it value }
  k ← get
  let queue = k.bqueue_memory q
  set_bqueue q (record queue { items = queue.items ++ it ∷ []; size = queue.size + 1 })

unfoldable pub buffer_value : (q : Ptr) (value : ℤ) → Cmd Kernel (Unit {0})
buffer_value q value = do
  it ← bqitem_alloc
  if it == null
      then set_retvalue Error.not_implemented
      else do append_item q it value; set_retvalue (pos 0)

-- The producer waits: `running->status = Waiting`, and it joins the queue's waiters.
unfoldable pub block_putter : (q : Ptr) → Cmd Kernel (Unit {0})
block_putter q = do
  self ← current
  change_pcb self (with_status waiting)
  pptr ← pcb_ptr_alloc self
  k ← get
  let queue = k.bqueue_memory q
  set_bqueue q (record queue { wait_putters = queue.wait_putters ++ pptr ∷ [] })
  insert_waiting self
  run_next

unfoldable pub block_getter : (q : Ptr) → Cmd Kernel (Unit {0})
block_getter q = do
  self ← current
  change_pcb self (with_status waiting)
  gptr ← pcb_ptr_alloc self
  k ← get
  let queue = k.bqueue_memory q
  set_bqueue q (record queue { wait_getters = queue.wait_getters ++ gptr ∷ [] })
  insert_waiting self
  run_next

unfoldable pub put_in : (q : Ptr) (value : ℤ) → BlockingQueue → Cmd Kernel (Unit {0})
put_in q value queue = elim queue.wait_getters [
  | gptr ∷ rest ↦ hand_to_getter q value gptr rest
  | [] ↦ if ltb_ℤ (pos queue.size) queue.capacity then buffer_value q value else block_putter q
]

unfoldable pub internal_bq_put : Cmd Kernel (Unit {0})
internal_bq_put = do
  current
  k ← get
  let value = argument k 1
  let q = queue_by_id k (to_int (argument k 0))
  if q == null then set_retvalue Error.resource_no_fd else put_in q value (k.bqueue_memory q)

-- `List_detach(&q->wait_putters, q->wait_putters.first)`, and the producer that it points to.
unfoldable pub detach_putter : (q pptr : Ptr) (rest : List Ptr) → Cmd Kernel Ptr
detach_putter q pptr rest = do
  k ← get
  set_bqueue q (record (k.bqueue_memory q) { wait_putters = rest })
  let prod = k.pcb_ptr_memory pptr
  pcb_ptr_free pptr
  deref prod

unfoldable pub release_putter : (prod : Ptr) → Cmd Kernel (Unit {0})
release_putter prod = do change_pcb prod (with_retvalue (pos 0)); wake_ready prod

-- The item that a waiting producer's value fills in, if one can be allocated.
unfoldable pub refill : (q : Ptr) (v : ℤ) → Cmd Kernel (Unit {0})
refill q v = do it ← bqitem_alloc; if it == null then pure tt else append_item q it v

unfoldable pub complete_put : (q : Ptr) → List Ptr → Cmd Kernel (Unit {0})
complete_put q [] = pure tt
complete_put q (pptr ∷ rest) = do
  prod ← detach_putter q pptr rest
  k ← get
  refill q ((k.pcb_memory prod).syscall_args 1)
  release_putter prod

unfoldable pub take_item : (q outp it : Ptr) (rest : List Ptr) → Cmd Kernel (Unit {0})
take_item q outp it rest = do
  k ← get
  let queue = k.bqueue_memory q
  set_bqueue q (record queue { items = rest; size = queue.size - 1 })
  deliver outp (k.bqitem_memory it)
  bqitem_free it
  complete_put q queue.wait_putters
  set_retvalue (pos 0)

unfoldable pub take_from_putter : (q outp pptr : Ptr) (rest : List Ptr) → Cmd Kernel (Unit {0})
take_from_putter q outp pptr rest = do
  prod ← detach_putter q pptr rest
  k ← get
  deliver outp ((k.pcb_memory prod).syscall_args 1)
  release_putter prod
  set_retvalue (pos 0)

unfoldable pub get_from : (q outp : Ptr) → BlockingQueue → Cmd Kernel (Unit {0})
get_from q outp queue = elim queue.items [
  | it ∷ rest ↦ take_item q outp it rest
  | [] ↦ elim queue.wait_putters [
    | pptr ∷ others ↦ take_from_putter q outp pptr others
    | [] ↦ block_getter q
  ]
]

unfoldable pub internal_bq_get : Cmd Kernel (Unit {0})
internal_bq_get = do
  current
  k ← get
  let outp = to_ptr (argument k 1)
  let q = queue_by_id k (to_int (argument k 0))
  if q == null then set_retvalue Error.resource_no_fd else get_from q outp (k.bqueue_memory q)

-- Without the line that is printed.
unfoldable pub internal_bq_dump : Cmd Kernel (Unit {0})
internal_bq_dump = do
  current
  k ← get
  if queue_by_id k (to_int (argument k 0)) == null
      then set_retvalue Error.resource_no_fd
      else set_retvalue (pos 0)
