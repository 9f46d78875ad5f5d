-- ===== src/Interrupt/Handler.antt =====
-- disastrOS.c: the handler of the timer's signal, with the switches of contexts that timerInterrupt is
-- between.
use so_oscilloscopio.Base.{◌≡◌, refl, inl, inr, arith, Bool-cases, ◌==◌, if◌then◌else◌}
use so_oscilloscopio.Run.Returns
use so_oscilloscopio.Run.Returns.{Returns, returns}
use so_oscilloscopio.Run.{ok, Cmd, pure, get, ◌>>=◌, ◌>>◌}
use so_oscilloscopio.LinkedList.{null}
use so_oscilloscopio.Kernel.{saved, Kernel, Pcb, set_pcb, update, change_pcb}
use so_oscilloscopio.Kernel.Effects.{change_pcb_run}
use so_oscilloscopio.Interrupt.Runnable.{IsTicking}
use so_oscilloscopio.Interrupt.Tick.{Ticked, switched-IsTicking, timer_interrupt-Ticked}
use so_oscilloscopio.Trap.{Context, process_context, main_context}
use so_oscilloscopio.Interrupt.{timer_interrupt}

-- `timerHandler`: `swapcontext` saves the running process, if there is one, or else the point of the
-- signal in `main_context`.
unfoldable pub save_interrupted : Cmd Kernel (Unit {0})
save_interrupted = do
  k ← get
  if k.running_pcb == null
      then pure tt
      else change_pcb k.running_pcb λ v. record v { cpu_state = saved }

-- The end of `timerInterrupt`: with no process running it returns, into the context that follows it.
unfoldable pub resume : Cmd Kernel Context
resume = do
  k ← get
  pure (if k.running_pcb == null then main_context else process_context k.running_pcb)

unfoldable pub timer_handler : Cmd Kernel Context
unfolding save_interrupted resume
timer_handler = do save_interrupted; timer_interrupt; resume

abbrev with_saved : Pcb → Pcb
with_saved v = record v { cpu_state = saved }

-- The state in which the running process has been saved.
abbrev pub interrupted : Kernel → Kernel
interrupted k =
    if k.running_pcb == null
    then k
    else set_pcb k.running_pcb (with_saved (k.pcb_memory k.running_pcb)) k

-- Where the machine goes on.
abbrev pub resumed : Kernel → Context
resumed l = if l.running_pcb == null then main_context else process_context l.running_pcb

save_interrupted_run : (k : Kernel) → save_interrupted k ≡ ok tt (interrupted k)
unfolding save_interrupted
save_interrupted_run k = elim (Bool-cases (k.running_pcb == null)) [
  | inl idle ↦ rw idle
  | inr on ↦ rw on (change_pcb_run k k.running_pcb with_saved (ground arith))
]

interrupted-IsTicking : (k : Kernel) → IsTicking k → IsTicking (interrupted k)
interrupted-IsTicking k h = elim (Bool-cases (k.running_pcb == null)) [
  | inl idle ↦ rw idle h
  | inr on ↦
      let m = update k.pcb_memory k.running_pcb (with_saved (k.pcb_memory k.running_pcb)) in
      rw on (switched-IsTicking k m k.running_pcb k.ready_list h h.processes.distinct λ q i. i)
]

resume_run : (l : Kernel) → resume l ≡ ok (resumed l) l
unfolding resume
resume_run l = refl

-- The signal's handler, under the conditions of the interrupt, saves the process that runs, does what
-- the interrupt does, and the machine goes on in the process that runs then, or in the main context
-- where none does.
pub timer_handler-Ticked :
    (k : Kernel)
    → IsTicking k
    → Returns (λ c l. (c ≡ resumed l) × Ticked (interrupted k) l × IsTicking l) (timer_handler k)
unfolding timer_handler
timer_handler-Ticked k h = rw (save_interrupted_run k) (
    Returns.bind (timer_interrupt-Ticked (interrupted k) (interrupted-IsTicking k h))
      λ _ l p. rw (resume_run l) (returns (refl, p.0, p.1)))
