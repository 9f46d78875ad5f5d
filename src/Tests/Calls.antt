-- ===== src/Tests/Calls.antt =====
-- System calls as processes make them, and the start of the system.
use so_oscilloscopio.Base.{
  ℕ, zero, suc, ◌≡◌, refl, pos, some, none, [], ◌∷◌, arith, ◌⊎◌, ◌<ℤ◌, to_int, false, length,
}
use so_oscilloscopio.Run.{ok, fault}
use so_oscilloscopio.Run.Returns.{Returns}
use so_oscilloscopio.BQueue.{bq_by_id}
use so_oscilloscopio.Syscall.BQueue.{queue_by_id}
use so_oscilloscopio.Syscall.BQueue.Fifo.{contents, IsQueue}
use so_oscilloscopio.Syscall.BQueue.Put.{Queued}
use so_oscilloscopio.Trap.{process_context, disastr_os_syscall}
use so_oscilloscopio.Trap.Table.{replicate}
use so_oscilloscopio.Trap.Called.{next_context}
use so_oscilloscopio.Trap.Api.{bq_put, bq_get}
use so_oscilloscopio.Trap.BQueue.{bq_put-Queued, bq_get-Dequeued}
use so_oscilloscopio.Trap.Unknown.{IsUnassigned, NotServed, disastr_os_syscall-unknown}
use so_oscilloscopio.Start.{Image, disastr_os_start}
use so_oscilloscopio.Start.Started.{IsImage, Started, disastr_os_start-Started}
use so_oscilloscopio.Tests.Queues.{
  kernel, full, empty, full-Owns, full-IsQueue, kernel-IsRunning, item_left, ptr_left, waiter,
}

full_id : queue_by_id (kernel full) (to_int (pos 7)) ≡ 9
unfolding bq_by_id to_int
full_id = refl

bq_put-Queued_example :
    Returns
      (λ c l. (c ≡ some (next_context l)) × Queued (kernel full) 9 (pos 800) l)
      (bq_put false 0 (pos 7) (pos 800) (kernel full))
bq_put-Queued_example =
    bq_put-Queued (kernel full) 9 (kernel-IsRunning full) full-Owns full-IsQueue (ground arith)
      (λ p i. ground arith) 0 (pos 7) full_id (pos 800) refl item_left ptr_left

bq_get-Dequeued_example :
    Returns
      (λ c l.
        (c ≡ some (process_context 30))
        × (contents (kernel full) full ≡ l.user_memory 900 ∷ contents l (l.bqueue_memory 9))
        × IsQueue (l.bqueue_memory 9))
      (bq_get false 0 (pos 7) 900 (kernel full))
unfolding contents
bq_get-Dequeued_example =
    bq_get-Dequeued (kernel full) 9 (kernel-IsRunning full) full-Owns full-IsQueue (ground arith)
      (λ p i. ground arith) 0 (pos 7) full_id 900 (ground arith) (omega arith) (λ p i. waiter full)
      (λ e. cc)

disastr_os_syscall-unknown_example :
    ((pos 40 <ℤ pos 0) ⊎ (pos 32 <ℤ pos 40)
      → disastr_os_syscall false 0 (pos 40) [] (kernel full) ≡ ok none (kernel full))
    × ((n : ℕ)
        → pos 40 ≡ pos n
        → IsUnassigned n
        → Returns
            (λ c l. (c ≡ some (next_context l)) × NotServed (kernel full) (pos 40) l)
            (disastr_os_syscall false 0 (pos 40) [] (kernel full)))
    × (pos 40 ≡ pos 32 → disastr_os_syscall false 0 (pos 40) [] (kernel full) ≡ fault)
disastr_os_syscall-unknown_example =
    disastr_os_syscall-unknown (kernel full) 0 (pos 40) [] (ground arith)

abbrev image : Image
image = record {
  sizeof_pcb = 18000;
  pcb_buffer = 1048576;
  pcb_ptr_buffer = 33554432;
  timer_item_buffer = 34603008;
  resources_buffer = 35651584;
  descriptor_buffer = 36700160;
  descriptor_ptr_buffer = 37748736;
  bq_buffer = 38797312;
  bqitem_buffer = 39845888;
  pcb_words = replicate 1024 (pos 0);
  pcb_ptr_words = replicate 1024 (pos 0);
  timer_item_words = replicate 1024 (pos 0);
  resources_words = replicate 1024 (pos 0);
  descriptor_words = replicate 1024 (pos 0);
  descriptor_ptr_words = replicate 1024 (pos 0);
  bq_words = replicate 128 (pos 0);
  bqitem_words = replicate 4096 (pos 0);
}

length-replicate : (n : ℕ) → length (replicate n (pos 0)) ≡ n
length-replicate zero = refl
length-replicate (suc n) = let e = length-replicate n in omega (arith, e)

image-IsImage : IsImage image
image-IsImage = record {
  sizeof_pcb = omega arith;
  fits = omega arith;
  pcb = (omega arith, length-replicate 1024);
  pcb_ptr = (omega arith, length-replicate 1024);
  timer_item = (omega arith, length-replicate 1024);
  resources = (omega arith, length-replicate 1024);
  descriptor = (omega arith, length-replicate 1024);
  descriptor_ptr = (omega arith, length-replicate 1024);
  bq = (omega arith, length-replicate 128);
  bqitem = (omega arith, length-replicate 4096);
}

disastr_os_start-Started_example :
    Returns (λ _ l. Started (kernel empty) l) (disastr_os_start image (kernel empty))
disastr_os_start-Started_example = disastr_os_start-Started image (kernel empty) image-IsImage refl
