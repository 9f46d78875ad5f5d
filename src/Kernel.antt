-- ===== src/Kernel.antt =====
-- The kernel's state: the globals of disastrOS_globals.h and disastrOS.c, the objects of
-- disastrOS_pcb.h, disastr_os_timer.h, disastrOS_resource.h, disastrOS_descriptor.h and bqueue.h, and
-- the static pools that they are allocated from. An object lives at the address of its block; its
-- memory has some content also before it is allocated and after it is released. A `ListHead` is the
-- sequence of its items' addresses, as LinkedList/Sequence.antt relates them.
pub mod Effects
pub mod Lists
use so_oscilloscopio.Base.{ℕ, zero, ◌+◌, ℤ, pos, Bool, List, [], ◌∷◌, ◌==◌, if◌then◌else◌}
use so_oscilloscopio.Run.{Run, ok, fault, out_of_fuel, Cmd, ◌>>=◌}
use so_oscilloscopio.LinkedList.{Ptr, null}
use so_oscilloscopio.PoolAllocator.{PoolAllocator}

pub data ProcessStatus : Type 0 where
  invalid created running ready waiting suspended zombie : ProcessStatus

-- The state in which a process goes on: what the machine has saved, or that of a context made to call
-- a function with one argument, on the stack of its control block, with no signal blocked, after which
-- `main_context` is entered.
pub data CpuState : Type 0 where
  saved : CpuState
  starts : (function argument : Ptr) → CpuState

-- Without the stack.
pub record Pcb : Type 0 where
  pub pid : ℕ
  pub return_value : ℤ
  pub status : ProcessStatus
  pub signals : ℤ
  pub signals_mask : ℤ
  pub parent : Ptr
  pub children : List Ptr
  pub timer : Ptr
  pub last_fd : ℕ
  pub descriptors : List Ptr
  pub syscall_num : ℤ
  pub syscall_args : ℕ → ℤ
  pub syscall_retvalue : ℤ
  pub cpu_state : CpuState

pub record TimerItem : Type 0 where
  pub awakening_time : ℤ
  pub pcb : Ptr

pub record Resource : Type 0 where
  pub id : ℤ
  pub kind : ℤ
  pub descriptors_ptrs : List Ptr

pub record Descriptor : Type 0 where
  pub pcb : Ptr
  pub resource : Ptr
  pub fd : ℕ
  pub ptr : Ptr

-- `size` counts the items; it is lowered only where there is one.
pub record BlockingQueue : Type 0 where
  pub id : ℤ
  pub capacity : ℤ
  pub size : ℕ
  pub items : List Ptr
  pub wait_getters : List Ptr
  pub wait_putters : List Ptr

pub record Kernel : Type 0 where
  pub pcb_memory : Ptr → Pcb
  pub pcb_ptr_memory : Ptr → Ptr
  pub timer_memory : Ptr → TimerItem
  pub resource_memory : Ptr → Resource
  pub descriptor_memory : Ptr → Descriptor
  pub descriptor_ptr_memory : Ptr → Ptr
  pub bqueue_memory : Ptr → BlockingQueue
  pub bqitem_memory : Ptr → ℤ
  pub user_memory : Ptr → ℤ
  pub pcb_allocator : PoolAllocator
  pub pcb_ptr_allocator : PoolAllocator
  pub timer_item_allocator : PoolAllocator
  pub resources_allocator : PoolAllocator
  pub descriptor_allocator : PoolAllocator
  pub descriptor_ptr_allocator : PoolAllocator
  pub bq_allocator : PoolAllocator
  pub bqitem_allocator : PoolAllocator
  pub init_pcb : Ptr
  pub running_pcb : Ptr
  pub last_pid : ℕ
  pub ready_list : List Ptr
  pub waiting_list : List Ptr
  pub zombie_list : List Ptr
  pub resources_list : List Ptr
  pub timer_list : List Ptr
  pub bq_registry : List Ptr
  pub disastr_os_time : ℤ
  pub shutdown_now : Bool

abbrev pub update {ℓ} : {A : Type ℓ} → (Ptr → A) → Ptr → A → Ptr → A
update f p v q = if q == p then v else f q

-- A call on one of the pools.
abbrev pub on_pool :
    {A : Type 0} → (Kernel → PoolAllocator → Kernel) → Run PoolAllocator A → Cmd Kernel A
on_pool put (ok r a) k = ok r (put k a)
on_pool put fault k = fault
on_pool put out_of_fuel k = out_of_fuel

-- `*p` of an object: its address, or a fault at null.
abbrev pub deref : Ptr → Cmd Kernel Ptr
deref p k = if p == null then fault else ok p k

-- A change of the control block at `p`.
abbrev pub set_pcb : Ptr → Pcb → Kernel → Kernel
set_pcb p v k = record k { pcb_memory = update k.pcb_memory p v }

abbrev pub with_status : ProcessStatus → Pcb → Pcb
with_status s v = record v { status = s }

abbrev pub with_retvalue : ℤ → Pcb → Pcb
with_retvalue r v = record v { syscall_retvalue = r }

unfoldable pub change_pcb : Ptr → (Pcb → Pcb) → Cmd Kernel (Unit {0})
change_pcb p f k = if p == null then fault else ok tt (set_pcb p (f (k.pcb_memory p)) k)

-- `running`, which is about to be dereferenced.
unfoldable pub current : Cmd Kernel Ptr
current k = if k.running_pcb == null then fault else ok k.running_pcb k

-- `running->syscall_retvalue = r`.
unfoldable pub set_retvalue : ℤ → Cmd Kernel (Unit {0})
unfolding change_pcb
set_retvalue r k = change_pcb k.running_pcb (with_retvalue r) k

-- `running->syscall_args[i]`, with `running` not null.
abbrev pub argument : Kernel → ℕ → ℤ
argument k i = (k.pcb_memory k.running_pcb).syscall_args i

-- `if (outp) *outp = value;`
unfoldable pub deliver : Ptr → ℤ → Cmd Kernel (Unit {0})
deliver outp value k =
    if outp == null
    then ok tt k
    else ok tt (record k { user_memory = update k.user_memory outp value })
