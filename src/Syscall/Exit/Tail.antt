-- ===== src/Syscall/Exit/Tail.antt =====
-- The end of `internal_exit`, once the children are given away.
use so_oscilloscopio.Base.{
  ℕ, ◌≡◌, refl, ap, ◌∙◌, ◌≢◌, inl, inr, ℤ, pos, to_int, Bool, List, [], ◌∷◌, ◌++◌, arith, true,
  false, ◌&&◌, ◌||◌, eqb_ℤ, if◌then◌else◌, ◌∈◌, ◌∉◌, mem, mem-head, mem-right, mem-append, erase,
  Bool-cases, Distinct,
}
use so_oscilloscopio.Run.{ok, modify, ◌>>◌}
use so_oscilloscopio.LinkedList.{Ptr, null}
use so_oscilloscopio.Kernel.{
  Kernel, Pcb, ProcessStatus, zombie, ready, set_pcb, with_status, update, change_pcb,
}
use so_oscilloscopio.Kernel.Lists.{is_listed, insert_zombie}
use so_oscilloscopio.Kernel.Effects.{switched, change_pcb_run, update_field, update_ne}
use so_oscilloscopio.Syscall.Schedule.{internal_schedule}
use so_oscilloscopio.Syscall.Schedule.RoundRobin.{IsScheduled}
use so_oscilloscopio.Syscall.Exit.{is_awaited, is_waiting, call_wait, wake_parent}
use so_oscilloscopio.Syscall.Exit.Same.{SameProcess}
use so_oscilloscopio.Syscall.Exit.Switch.{
  unscheduled, schedule_idle, insert_zombie_run, woken, wake_parent_asleep, wake_parent_woken,
}

-- What is left once the children are given away, with the control blocks `m`: `self` is a zombie, its
-- parent `p` wakes if it waits for it, and the scheduler runs the next process.
module _ (k : Kernel) (m : Ptr → Pcb) (p : Ptr) (aw : Bool) where
  abbrev pub self : Ptr
  self = k.running_pcb

  abbrev pub given_away : Kernel
  given_away = record k { pcb_memory = m }

  abbrev pub dead : Kernel
  dead = record (set_pcb self (with_status zombie (m self)) given_away) {
    zombie_list = k.zombie_list ++ self ∷ [];
  }

  abbrev pub queue : List Ptr
  queue = if aw then k.ready_list ++ p ∷ [] else k.ready_list

  -- The state that the scheduler starts from, and the one that it leaves.
  abbrev pub prepared : Kernel
  prepared = record (unscheduled dead) {
    pcb_memory =
        if aw
        then update dead.pcb_memory p (with_status ready (dead.pcb_memory p))
        else dead.pcb_memory;
    waiting_list = if aw then erase p k.waiting_list else k.waiting_list;
    ready_list = queue;
  }

  abbrev pub ended : Kernel
  ended = switched prepared queue

module _ (k : Kernel) (s : IsScheduled k) where
  pub running_ne : k.running_pcb ≢ null
  running_ne = let p = s.present in ground arith

  pub running_unlisted : is_listed k k.running_pcb ≡ false
  running_unlisted =
      let d = s.distinct in
      let here = mem-head k.running_pcb k.ready_list in
      let w = s.not_waiting k.running_pcb here in
      let z = s.not_zombie k.running_pcb here in ground arith

-- The parent, which waits if the process is awaited.
pub record IsParent (k : Kernel) (p : Ptr) : Type 0 where
  pub parent : (k.pcb_memory k.running_pcb).parent ≡ p
  pub present : p ≢ null
  pub apart : p ≢ k.running_pcb
  pub distinct : Distinct k.waiting_list
  pub waits : is_awaited k p k.running_pcb ≡ true → p ∈ k.waiting_list
  pub alive : p ∉ k.zombie_list

module _ (k : Kernel) (m : Ptr → Pcb) (p : Ptr) (s : IsScheduled k) (h : IsParent k p)
    (same : (q : Ptr)
      → SameProcess
          (k.pcb_memory q)
          (record (m q) { return_value = (k.pcb_memory q).return_value }))
    (parent : (m k.running_pcb).parent ≡ p) where
  dead_parent : ((dead k m p true).pcb_memory k.running_pcb).parent ≡ p
  dead_parent = update_field (λ (v : Pcb). v.parent) m k.running_pcb _ k.running_pcb refl ∙ parent

  dead_awaited : is_awaited (dead k m p true) p k.running_pcb ≡ is_awaited k p k.running_pcb
  unfolding is_awaited
  dead_awaited =
      let self = k.running_pcb in
      let test = λ (status : ProcessStatus) (num : ℤ) (args : ℕ → ℤ) (pid : ℕ).
        is_waiting status
        && eqb_ℤ num call_wait
        && (eqb_ℤ (to_int (args 0)) (pos 0) || eqb_ℤ (to_int (args 0)) (pos pid)) in
      let pid : ((dead k m p true).pcb_memory self).pid ≡ (k.pcb_memory self).pid =
        update_field (λ (v : Pcb). v.pid) m self _ self refl ∙ (same self).pid in
      let at = same p in
      ap
        (λ (v : Pcb).
          test v.status v.syscall_num v.syscall_args ((dead k m p true).pcb_memory self).pid)
        (update_ne m self _ p h.apart)
      ∙ ap (test (m p).status (m p).syscall_num (m p).syscall_args) pid
      ∙ ap (λ x. test x (m p).syscall_num (m p).syscall_args (k.pcb_memory self).pid) at.status
      ∙ ap (λ x. test (k.pcb_memory p).status x (m p).syscall_args (k.pcb_memory self).pid)
          at.syscall_num
      ∙ ap
          (λ x. test (k.pcb_memory p).status (k.pcb_memory p).syscall_num x (k.pcb_memory self).pid)
          at.syscall_args

  parent_not_ready : is_awaited k p k.running_pcb ≡ true → p ∉ k.ready_list
  parent_not_ready aw = elim (Bool-cases (mem p k.ready_list)) [
    | inl i ↦
        let w = s.not_waiting p (mem-right p (k.running_pcb ∷ []) k.ready_list i) in
        let v = h.waits aw in cc
    | inr o ↦ o
  ]

  wake_run :
      (aw : Bool)
      → is_awaited k p k.running_pcb ≡ aw
      → wake_parent k.running_pcb (dead k m p aw) ≡ ok tt (woken (dead k m p aw) aw p)
  wake_run true e =
      let self = k.running_pcb in
      let not_zombie : p ∉ k.zombie_list ++ self ∷ [] =
        let a = h.alive in
        let ne = h.apart in ground (arith, mem-append p k.zombie_list (self ∷ [])) in
      wake_parent_woken (dead k m p true) self p dead_parent h.present (dead_awaited ∙ e)
        (h.waits e) (parent_not_ready e) not_zombie h.distinct
  wake_run false e =
      wake_parent_asleep (dead k m p true) k.running_pcb p dead_parent h.present (dead_awaited ∙ e)

  queue_present : (aw : Bool) → null ∉ queue k m p aw
  queue_present true =
      let n = s.present in
      let ne = h.present in ground (arith, mem-append null k.ready_list (p ∷ []))
  queue_present false = let n = s.present in ground arith

  schedule_run :
      (aw : Bool)
      → (do modify (λ k. record k { running_pcb = null }); internal_schedule)
          (woken (dead k m p aw) aw p)
        ≡ ok tt (ended k m p aw)
  schedule_run true =
      schedule_idle (woken (dead k m p true) true p) (queue k m p true) refl (queue_present true)
  schedule_run false =
      schedule_idle (dead k m p false) (queue k m p false) refl (queue_present false)

  pub tail_run :
      (aw : Bool)
      → is_awaited k p k.running_pcb ≡ aw
      → (do
        change_pcb k.running_pcb (with_status zombie)
        insert_zombie k.running_pcb
        wake_parent k.running_pcb
        modify λ k. record k { running_pcb = null }
        internal_schedule)
          (given_away k m p aw)
        ≡ ok tt (ended k m p aw)
  tail_run aw e =
      let self = k.running_pcb in
      let k1 = given_away k m p aw in
      let k2 = set_pcb self (with_status zombie (m self)) k1 in
      let on = running_ne k s in
      rw (change_pcb_run k1 self (with_status zombie) on) (
        rw (insert_zombie_run k2 self on (running_unlisted k s))
          (rw (wake_run aw e) (schedule_run aw)))
