-- ===== src/Syscall/Schedule/RoundRobin.antt =====
-- `internal_schedule` gives the processor to the ready processes in turn.
use mathlib.Core.List.{append_assoc}
use so_oscilloscopio.Base.{
  ℕ, zero, suc, ◌≡◌, refl, ◌∙◌, ◌≢◌, List, [], ◌∷◌, ◌++◌, arith, false, ◌∈◌, ◌∉◌, Distinct, length,
  Bool-cases, inl, inr, mem, mem-append, ==_ne, ==_refl, Distinct-append,
}
use so_oscilloscopio.Run.{ok, Cmd, pure, ◌>>◌}
use so_oscilloscopio.Run.Returns
use so_oscilloscopio.Run.Returns.{Returns, returns}
use so_oscilloscopio.LinkedList.{Ptr, null}
use so_oscilloscopio.Kernel.{Kernel, running, ready, with_status, set_pcb}
use so_oscilloscopio.Kernel.Lists.{is_listed, pop_ready}
use so_oscilloscopio.Kernel.Effects.{change_pcb_run, insert_ready_run}
use so_oscilloscopio.Syscall.Schedule.{internal_schedule, requeue_running, start}

-- A process runs, and neither it nor any ready process is on another list of processes, or twice on
-- theirs.
pub record IsScheduled (k : Kernel) : Type 0 where
  pub distinct : Distinct (k.running_pcb ∷ k.ready_list)
  pub present : null ∉ k.running_pcb ∷ k.ready_list
  pub not_waiting : (p : Ptr) → p ∈ k.running_pcb ∷ k.ready_list → p ∉ k.waiting_list
  pub not_zombie : (p : Ptr) → p ∈ k.running_pcb ∷ k.ready_list → p ∉ k.zombie_list

-- The running process becomes the last of the ready ones, and `next` runs.
abbrev pub rotated : Kernel → (next : Ptr) → List Ptr → Kernel
rotated k next others =
    let k1 = record (set_pcb k.running_pcb (with_status ready (k.pcb_memory k.running_pcb)) k) {
      ready_list = others ++ k.running_pcb ∷ [];
    } in
    record (set_pcb next (with_status running (k1.pcb_memory next)) k1) { running_pcb = next }

module _ (k : Kernel) (next : Ptr) (others : List Ptr) (order : k.ready_list ≡ next ∷ others)
    (s : IsScheduled k) where
  next_ne : next ≢ null
  next_ne = let p = s.present in ground (arith, order)

  running_ne : k.running_pcb ≢ null
  running_ne = let p = s.present in ground (arith, order)

  unlisted :
      is_listed
        (set_pcb k.running_pcb
          (with_status ready (k.pcb_memory k.running_pcb))
          (record k { ready_list = others }))
        k.running_pcb
      ≡ false
  unlisted =
      let d = s.distinct in
      let w = s.not_waiting k.running_pcb (ground (arith, ==_refl k.running_pcb)) in
      let z = s.not_zombie k.running_pcb (ground (arith, ==_refl k.running_pcb)) in
      ground (arith, order)

  popped : internal_schedule k ≡ (do requeue_running; start next) (record k { ready_list = others })
  unfolding internal_schedule pop_ready
  popped = ground (arith, order)

  pub internal_schedule_run : internal_schedule k ≡ ok tt (rotated k next others)
  unfolding requeue_running start
  internal_schedule_run =
      let k1 = record k { ready_list = others } in
      let k2 = set_pcb k.running_pcb (with_status ready (k.pcb_memory k.running_pcb)) k1 in
      let k3 = record k2 { ready_list = others ++ k.running_pcb ∷ [] } in
      popped
      ∙ rw (==_ne k.running_pcb null running_ne) (
          rw (change_pcb_run k1 k.running_pcb (with_status ready) running_ne) (
            rw (insert_ready_run k2 k.running_pcb running_ne unlisted)
              (rw (change_pcb_run k3 next (with_status running) next_ne))))

  same_members :
      (p : Ptr) → p ∈ next ∷ (others ++ k.running_pcb ∷ []) → p ∈ k.running_pcb ∷ k.ready_list
  same_members p i = ground (arith, order, mem-append p others (k.running_pcb ∷ []))

  pub rotated-IsScheduled : IsScheduled (rotated k next others)
  rotated-IsScheduled = record {
    distinct =
        let d = s.distinct in
        (
          ground (arith, order, mem-append next others (k.running_pcb ∷ [])),
          Distinct-append others (k.running_pcb ∷ []) (ground (arith, order)) (refl, tt)
              (λ p i. ground (arith, order)),
        );
    present = elim (Bool-cases (mem null (next ∷ (others ++ k.running_pcb ∷ [])))) [
      | inl i ↦ let j = same_members null i in let n = s.present in ground arith
      | inr o ↦ o
    ];
    not_waiting = λ p i. s.not_waiting p (same_members p i);
    not_zombie = λ p i. s.not_zombie p (same_members p i);
  }

-- `internal_schedule` a number of times.
unfoldable pub schedule_times : ℕ → Cmd Kernel (Unit {0})
schedule_times zero = pure tt
schedule_times (suc n) = do internal_schedule; schedule_times n

-- A process that is ready behind `ahead` runs after one call of `internal_schedule` for each process
-- of `ahead` and one more; the others keep their order, and those that ran are behind them. This
-- holds where a process runs, and it and the ready ones are distinct and on no other list.
pub schedule_times-running :
    (k : Kernel) (ahead : List Ptr) (p : Ptr) (behind : List Ptr)
    → IsScheduled k
    → k.ready_list ≡ ahead ++ p ∷ behind
    → Returns
        (λ _ l.
          (l.running_pcb ≡ p)
          × (l.ready_list ≡ behind ++ k.running_pcb ∷ ahead)
          × ((l.pcb_memory p).status ≡ running)
          × IsScheduled l)
        (schedule_times (suc (length ahead)) k)
unfolding schedule_times
schedule_times-running k [] p behind s order =
    rw (internal_schedule_run k p behind order s)
      (returns (refl, refl, rw (==_refl p), rotated-IsScheduled k p behind order s))
schedule_times-running k (next ∷ ahead) p behind s order =
    let others = ahead ++ p ∷ behind in
    let l = rotated k next others in
    let rest =
      schedule_times-running l ahead p (behind ++ k.running_pcb ∷ [])
        (rotated-IsScheduled k next others order s) (append_assoc ahead (p ∷ behind) _) in
    rw (internal_schedule_run k next others order s) (
      Returns.weaken rest λ _ m (run, ready', status, inv).
        (run, ready' ∙ append_assoc behind (k.running_pcb ∷ []) (next ∷ ahead), status, inv))
