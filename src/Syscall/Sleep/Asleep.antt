-- ===== src/Syscall/Sleep/Asleep.antt =====
-- The run of `internal_sleep`.
use so_oscilloscopio.Base.{
  ◌≡◌, refl, ap, ◌∙◌, ◌≢◌, ℤ, ◌+ℤ◌, to_int, List, [], ◌∷◌, ◌++◌, arith, true, false, ◌==◌,
  if◌then◌else◌, mem-head, first_or,
}
use so_oscilloscopio.Run.{ok, ◌>>◌}
use so_oscilloscopio.Run.Returns.{Returns, returns}
use so_oscilloscopio.Constants.Error
use so_oscilloscopio.LinkedList.{Ptr, null}
use so_oscilloscopio.PoolAllocator.{PoolAllocator}
use so_oscilloscopio.Kernel.{
  Kernel, waiting, set_pcb, with_status, with_retvalue, argument, set_retvalue, change_pcb,
}
use so_oscilloscopio.Kernel.Lists.{is_listed, insert_waiting, pop_ready}
use so_oscilloscopio.Kernel.Effects.{
  change_pcb_run, current_run, insert_waiting_run, set_retvalue_run,
}
use so_oscilloscopio.Timer.{timer_list_add}
use so_oscilloscopio.Timer.Add.{timer_added}
use so_oscilloscopio.Syscall.Schedule.RoundRobin.{IsScheduled}
use so_oscilloscopio.Syscall.Sleep.{give_up_processor, internal_sleep}

-- The processes behind the first.
abbrev pub others : List Ptr → List Ptr
others [] = []
others (x ∷ xs) = xs

-- `(int) (time + cycles)`, with the cycles that the call asks for.
abbrev pub wake_time : Kernel → ℤ
wake_time k = to_int (k.disastr_os_time +ℤ to_int (argument k 0))

-- The caller waits, and the first ready process has the processor.
abbrev pub left_processor : Kernel → Kernel
left_processor k =
    let self = k.running_pcb in
    let k1 = set_pcb self (with_status waiting (k.pcb_memory self)) k in
    record k1 {
      waiting_list = k.waiting_list ++ self ∷ [];
      running_pcb = first_or null k.ready_list;
      ready_list = others k.ready_list;
    }

-- The state in which the caller sleeps, with the timer `item` of pool `b`.
abbrev pub slept : Kernel → (item : Ptr) → PoolAllocator → Kernel
slept k item b = left_processor (timer_added k (wake_time k) k.running_pcb item b)

give_up_processor_run :
    (k : Kernel) (ready : List Ptr)
    → k.ready_list ≡ ready
    → give_up_processor k
      ≡ ok tt (record k { running_pcb = first_or null ready; ready_list = others ready })
unfolding give_up_processor pop_ready
give_up_processor_run k [] order =
    chosen ∙ ap (λ l. ok tt (record k { running_pcb = null; ready_list = l })) order
  where
    chosen : give_up_processor k ≡ ok tt (record k { running_pcb = null })
    chosen = ground (arith, order)
give_up_processor_run k (next ∷ rest) order = chosen
  where
    chosen : give_up_processor k ≡ ok tt (record k { running_pcb = next; ready_list = rest })
    chosen = ground (arith, order)

module _ (k : Kernel) (s : IsScheduled k) where
  pub running_ne : k.running_pcb ≢ null
  running_ne = let p = s.present in ground arith

  running_unlisted : is_listed k k.running_pcb ≡ false
  running_unlisted =
      let d = s.distinct in
      let here = mem-head k.running_pcb k.ready_list in
      let w = s.not_waiting k.running_pcb here in
      let z = s.not_zombie k.running_pcb here in ground arith

  pub leave_run :
      (do
        change_pcb k.running_pcb (with_status waiting)
        insert_waiting k.running_pcb
        give_up_processor)
        k
      ≡ ok tt (left_processor k)
  leave_run =
      let self = k.running_pcb in
      let k1 = set_pcb self (with_status waiting (k.pcb_memory self)) k in
      let k2 = record k1 { waiting_list = k.waiting_list ++ self ∷ [] } in
      rw (change_pcb_run k self (with_status waiting) running_ne) (
        rw (insert_waiting_run k1 self running_ne running_unlisted)
          (give_up_processor_run k2 k.ready_list refl))

-- The call is refused: only its result is set.
abbrev pub Refused : Kernel → Kernel → Type 0
Refused k l = l ≡ set_pcb k.running_pcb (with_retvalue Error.sleep (k.pcb_memory k.running_pcb)) k

module _ (k : Kernel) (s : IsScheduled k) where
  pub set_retvalue-Refused : Returns (λ _ l. Refused k l) (set_retvalue Error.sleep k)
  set_retvalue-Refused = rw (set_retvalue_run k Error.sleep (running_ne k s)) (returns refl)

  pub sleep_busy :
      (((k.pcb_memory k.running_pcb).timer == null) ≡ false)
      → internal_sleep k ≡ set_retvalue Error.sleep k
  unfolding internal_sleep
  sleep_busy e = rw (current_run k (running_ne k s)) (rw e)

  pub sleep_timer :
      (item : Ptr) (l : Kernel)
      → ((k.pcb_memory k.running_pcb).timer == null) ≡ true
      → timer_list_add (wake_time k) k.running_pcb k ≡ ok item l
      → internal_sleep k
        ≡ (if item == null then set_retvalue Error.sleep else (do
          change_pcb k.running_pcb (with_status waiting)
          insert_waiting k.running_pcb
          give_up_processor))
            l
  unfolding internal_sleep
  sleep_timer item l e added = rw (current_run k (running_ne k s)) (rw (e) (rw added))
