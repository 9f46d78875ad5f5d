-- ===== src/Start.antt =====
-- disastrOS_start of disastrOS.c: the initialization of the system's structures and the first process.
-- The table of handlers is in Trap/Table.antt. Signals, contexts and the log are left out.
pub mod Pools
pub mod Started
use so_oscilloscopio.Base.{ℕ, ℤ, List, [], ◌==◌, if◌then◌else◌}
use so_oscilloscopio.Run.{Cmd, pure, crash, get, modify, ◌>>=◌, ◌>>◌}
use so_oscilloscopio.LinkedList.{Ptr, null}
use so_oscilloscopio.Kernel.{Kernel, running, with_status, change_pcb}
use so_oscilloscopio.Pcb.{pcb_init, pcb_alloc}
use so_oscilloscopio.Timer.{timer_init}
use so_oscilloscopio.Resource.{resource_init}
use so_oscilloscopio.Descriptor.{descriptor_init}
use so_oscilloscopio.BQueue.{bq_init}

-- The addresses of the static buffers, and the words that stand where each pool keeps its indices.
pub record Image : Type 0 where
  pub sizeof_pcb : ℕ
  pub pcb_buffer : ℕ
  pub pcb_ptr_buffer : ℕ
  pub timer_item_buffer : ℕ
  pub resources_buffer : ℕ
  pub descriptor_buffer : ℕ
  pub descriptor_ptr_buffer : ℕ
  pub bq_buffer : ℕ
  pub bqitem_buffer : ℕ
  pub pcb_words : List ℤ
  pub pcb_ptr_words : List ℤ
  pub timer_item_words : List ℤ
  pub resources_words : List ℤ
  pub descriptor_words : List ℤ
  pub descriptor_ptr_words : List ℤ
  pub bq_words : List ℤ
  pub bqitem_words : List ℤ

unfoldable pub init_pools : Image → Cmd Kernel (Unit {0})
init_pools i = do
  pcb_init i.sizeof_pcb i.pcb_buffer i.pcb_ptr_buffer i.pcb_words i.pcb_ptr_words
  timer_init i.timer_item_buffer i.timer_item_words
  resource_init i.resources_buffer i.resources_words
  descriptor_init i.descriptor_buffer i.descriptor_ptr_buffer i.descriptor_words
      i.descriptor_ptr_words

unfoldable pub init_lists : Kernel → Kernel
init_lists k = record k {
  running_pcb = null;
  ready_list = [];
  waiting_list = [];
  zombie_list = [];
  resources_list = [];
  timer_list = [];
}

-- `running=PCB_alloc(); running->status=Running; init_pcb=running;`
unfoldable pub start_first : Cmd Kernel (Unit {0})
start_first = do
  p ← pcb_alloc
  modify λ k. record k { running_pcb = p }
  change_pcb p (with_status running)
  modify λ k. record k { init_pcb = k.running_pcb }

-- `main_context` is entered here again on shutdown, where the program exits: then nothing follows.
unfoldable pub disastr_os_start : Image → Cmd Kernel (Unit {0})
unfolding init_pools init_lists start_first
disastr_os_start i = do
  init_pools i
  modify λ k. record k { init_pcb = null }
  modify init_lists
  bq_init i.bq_buffer i.bqitem_buffer i.bq_words i.bqitem_words
  k ← get
  if k.shutdown_now then pure tt else start_first
