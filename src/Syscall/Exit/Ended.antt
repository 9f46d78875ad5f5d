-- ===== src/Syscall/Exit/Ended.antt =====
-- `internal_exit` of a process other than the first one.
use so_oscilloscopio.Base.{
  suc, ◌≡◌, refl, sym, ap, subst, ◌∙◌, ◌≢◌, to_int, Bool, List, [], ◌∷◌, ◌++◌, arith, true, false,
  if◌then◌else◌, ◌∈◌, ◌∉◌, mem-append, erase, length,
}
use so_oscilloscopio.Run.{modify, ◌>>◌}
use so_oscilloscopio.Run.Returns
use so_oscilloscopio.Run.Returns.{Returns, returns}
use so_oscilloscopio.LinkedList.{Ptr, null}
use so_oscilloscopio.Kernel.{
  Kernel, Pcb, ProcessStatus, zombie, ready, running, set_pcb, with_status, argument, change_pcb,
}
use so_oscilloscopio.Kernel.Lists.{insert_zombie}
use so_oscilloscopio.Kernel.Effects.{
  switched, change_pcb_run, current_run, update_field, update_self, update_ne,
}
use so_oscilloscopio.Syscall.Schedule.{internal_schedule}
use so_oscilloscopio.Syscall.Schedule.RoundRobin.{IsScheduled}
use so_oscilloscopio.Interrupt.Tick.{Dispatched}
use so_oscilloscopio.Syscall.Exit.{with_return_value, is_awaited, wake_parent, internal_exit}
use so_oscilloscopio.Syscall.Exit.Same.{SameProcess}
use so_oscilloscopio.Syscall.Exit.Adopt.{Adopted, adopt_children-Adopted}
use so_oscilloscopio.Syscall.Exit.Switch.{switched-Dispatched}
use so_oscilloscopio.Syscall.Exit.Tail.{
  IsParent, dead, queue, prepared, ended, running_ne, tail_run,
}

-- A control block outside the queue, and a field in any, that the choice of the next process leaves.
switched_other :
    (k : Kernel) (q : List Ptr) (x : Ptr) → x ∉ q → (switched k q).pcb_memory x ≡ k.pcb_memory x
switched_other k [] x out = refl
switched_other k (next ∷ others) x out = update_ne k.pcb_memory next _ x (ground arith)

switched_field :
    {B : Type 0} (field : Pcb → B)
    → ((v : Pcb) (t : ProcessStatus) → field (with_status t v) ≡ field v)
    → (k : Kernel) (q : List Ptr) (x : Ptr)
    → field ((switched k q).pcb_memory x) ≡ field (k.pcb_memory x)
switched_field field ignores k [] x = refl
switched_field field ignores k (next ∷ others) x =
    update_field field k.pcb_memory next _ x (ignores (k.pcb_memory next) running)

module _ (k : Kernel) (m : Ptr → Pcb) (p : Ptr) where
  ended_field :
      {B : Type 0} (field : Pcb → B)
      → ((v : Pcb) (t : ProcessStatus) → field (with_status t v) ≡ field v)
      → (aw : Bool) (x : Ptr) → field ((ended k m p aw).pcb_memory x) ≡ field (m x)
  ended_field field ignores true x =
      switched_field field ignores (prepared k m p true) (queue k m p true) x
      ∙ update_field field (dead k m p true).pcb_memory p _ x
          (ignores ((dead k m p true).pcb_memory p) ready)
      ∙ update_field field m k.running_pcb _ x (ignores (m k.running_pcb) zombie)
  ended_field field ignores false x =
      switched_field field ignores (prepared k m p false) (queue k m p false) x
      ∙ update_field field m k.running_pcb _ x (ignores (m k.running_pcb) zombie)

  ended_status :
      k.running_pcb ∉ k.ready_list
      → p ≢ k.running_pcb
      → (aw : Bool) → ((ended k m p aw).pcb_memory k.running_pcb).status ≡ zombie
  ended_status out apart true =
      let self = k.running_pcb in
      ap (λ (v : Pcb). v.status)
        (switched_other (prepared k m p true) (queue k m p true) self
          (ground (arith, mem-append self k.ready_list (p ∷ []))))
      ∙ ap (λ (v : Pcb). v.status)
          (update_ne (dead k m p true).pcb_memory p _ self λ e. apart (sym e))
      ∙ ap (λ (v : Pcb). v.status) (update_self m self (with_status zombie (m self)))
  ended_status out apart false =
      let self = k.running_pcb in
      ap (λ (v : Pcb). v.status)
        (switched_other (prepared k m p false) (queue k m p false) self out)
      ∙ ap (λ (v : Pcb). v.status) (update_self m self (with_status zombie (m self)))

  ended-Dispatched : (aw : Bool) → Dispatched null (queue k m p aw) (ended k m p aw)
  ended-Dispatched aw = switched-Dispatched (prepared k m p aw) (queue k m p aw) refl

  ended_zombies : (aw : Bool) → (ended k m p aw).zombie_list ≡ k.zombie_list ++ k.running_pcb ∷ []
  ended_zombies aw = go (queue k m p aw)
    where
      go :
          (q : List Ptr)
          → (switched (prepared k m p aw) q).zombie_list ≡ k.zombie_list ++ k.running_pcb ∷ []
      go [] = refl
      go (x ∷ xs) = refl

  ended_waiting :
      (aw : Bool)
      → (ended k m p aw).waiting_list ≡ (if aw then erase p k.waiting_list else k.waiting_list)
  ended_waiting aw = go (queue k m p aw)
    where
      go :
          (q : List Ptr)
          → (switched (prepared k m p aw) q).waiting_list
            ≡ (if aw then erase p k.waiting_list else k.waiting_list)
      go [] = refl
      go (x ∷ xs) = refl

-- The caller, with the links `items` to its children and the parent `p`, has ended.
pub record Exited (k : Kernel) (items : List Ptr) (p : Ptr) (l : Kernel) : Type 0 where
  pub status : (l.pcb_memory k.running_pcb).status ≡ zombie
  pub return_value : (l.pcb_memory k.running_pcb).return_value ≡ to_int (argument k 0)
  pub zombies : l.zombie_list ≡ k.zombie_list ++ k.running_pcb ∷ []
  pub no_children : (l.pcb_memory k.running_pcb).children ≡ []
  pub received : (l.pcb_memory k.init_pcb).children ≡ (k.pcb_memory k.init_pcb).children ++ items
  pub parents :
      (item : Ptr) → item ∈ items → (l.pcb_memory (k.pcb_ptr_memory item)).parent ≡ k.init_pcb
  pub waiting :
      l.waiting_list
      ≡ (if is_awaited k p k.running_pcb then erase p k.waiting_list else k.waiting_list)
  pub next :
      Dispatched null
        (if is_awaited k p k.running_pcb then k.ready_list ++ p ∷ [] else k.ready_list)
        l

module _ (k : Kernel) (items : List Ptr) (p : Ptr) (s : IsScheduled k) where
  abbrev valued : Kernel
  valued =
      set_pcb k.running_pcb (with_return_value (to_int (argument k 0)) (k.pcb_memory k.running_pcb))
        k

  ended-Exited :
      (m : Ptr → Pcb)
      → p ≢ k.running_pcb
      → Adopted valued k.running_pcb items (record k { pcb_memory = m })
      → Exited k items p (ended k m p (is_awaited k p k.running_pcb))
  ended-Exited m apart done =
      let self = k.running_pcb in
      let aw = is_awaited k p self in
      let value = with_return_value (to_int (argument k 0)) (k.pcb_memory self) in
      record {
        status = ended_status k m p (s.distinct.0) apart aw;
        return_value =
            ended_field k m p (λ (v : Pcb). v.return_value) (λ v t. refl) aw self
            ∙ (done.same self).return_value
            ∙ ap (λ (v : Pcb). v.return_value) (update_self k.pcb_memory self value);
        zombies = ended_zombies k m p aw;
        no_children =
            ended_field k m p (λ (v : Pcb). v.children) (λ v t. refl) aw self ∙ done.none_left;
        received =
            ended_field k m p (λ (v : Pcb). v.children) (λ v t. refl) aw k.init_pcb
            ∙ done.received
            ∙ ap (λ c. c ++ items)
                (update_field (λ (v : Pcb). v.children) k.pcb_memory self value k.init_pcb refl);
        parents = λ item i.
            ended_field k m p (λ (v : Pcb). v.parent) (λ v t. refl) aw (k.pcb_ptr_memory item)
            ∙ done.parents item i;
        waiting = ended_waiting k m p aw;
        next = ended-Dispatched k m p aw;
      }

  valued_same :
      (m : Ptr → Pcb) (q : Ptr)
      → SameProcess (valued.pcb_memory q) (m q)
      → SameProcess (k.pcb_memory q) (record (m q) { return_value = (k.pcb_memory q).return_value })
  valued_same m q same =
      let self = k.running_pcb in
      let value = with_return_value (to_int (argument k 0)) (k.pcb_memory self) in
      record {
        pid = same.pid ∙ update_field (λ (v : Pcb). v.pid) k.pcb_memory self value q refl;
        status = same.status ∙ update_field (λ (v : Pcb). v.status) k.pcb_memory self value q refl;
        return_value = refl;
        syscall_num =
            same.syscall_num
            ∙ update_field (λ (v : Pcb). v.syscall_num) k.pcb_memory self value q refl;
        syscall_args =
            same.syscall_args
            ∙ update_field (λ (v : Pcb). v.syscall_args) k.pcb_memory self value q refl;
      }

  after_adoption :
      (h : IsParent k p) (l : Kernel)
      → ((item : Ptr) → item ∈ items → k.pcb_ptr_memory item ≢ k.running_pcb)
      → Adopted valued k.running_pcb items l
      → Returns
          (λ _ l. Exited k items p l)
          ((do
            change_pcb k.running_pcb (with_status zombie)
            insert_zombie k.running_pcb
            wake_parent k.running_pcb
            modify λ k. record k { running_pcb = null }
            internal_schedule)
            l)
  after_adoption h l others done =
      let self = k.running_pcb in
      let aw = is_awaited k p self in
      let m = l.pcb_memory in
      let value = with_return_value (to_int (argument k 0)) (k.pcb_memory self) in
      let parent =
        done.other_parents self others
        ∙ update_field (λ (v : Pcb). v.parent) k.pcb_memory self value self refl
        ∙ h.parent in
      let done' = subst (Adopted valued self items) done.rest done in
      subst
        (λ l.
          Returns (λ _ l. Exited k items p l)
            ((do
              change_pcb self (with_status zombie)
              insert_zombie self
              wake_parent self
              modify λ k. record k { running_pcb = null }
              internal_schedule)
              l))
        (sym done.rest)
        (rw (tail_run k m p s h (λ q. valued_same m q (done.same q)) parent aw refl)
          (returns (ended-Exited m h.apart done')))

-- `internal_exit` by a process other than the first, with one round for each of its children and one
-- more: it is a zombie, the last one, with the return value that it was called with; its children,
-- in their order, are the last ones of the first process, which is their parent; and the first ready
-- process runs, if there is one. If the parent waits for this process, or for any, the parent waits
-- no more and is the last of the ready ones before that. The running and the ready processes are
-- distinct, not null and on no other list; the caller's parent, another process, is no zombie, and is
-- on the list of waiting processes, which are distinct, if it waits for the caller.
pub internal_exit-Exited :
    (k : Kernel) (items : List Ptr) (p : Ptr)
    → IsScheduled k
    → IsParent k p
    → k.init_pcb ≢ null
    → k.running_pcb ≢ k.init_pcb
    → (k.pcb_memory k.running_pcb).children ≡ items
    → ((item : Ptr) → item ∈ items → k.pcb_ptr_memory item ≢ null)
    → ((item : Ptr) → item ∈ items → k.pcb_ptr_memory item ≢ k.running_pcb)
    → Returns (λ _ l. Exited k items p l) (internal_exit (suc (length items)) k)
unfolding internal_exit
internal_exit-Exited k items p s h init_ne apart children present others =
    let self = k.running_pcb in
    let on = running_ne k s in
    let value = with_return_value (to_int (argument k 0)) (k.pcb_memory self) in
    rw (current_run k on) (
      rw (change_pcb_run k self (with_return_value (to_int (argument k 0))) on) (
        Returns.bind
          (adopt_children-Adopted (valued k items p s) self items on init_ne apart
            (ap (λ (v : Pcb). v.children) (update_self k.pcb_memory self value) ∙ children) present)
          λ _ l done. after_adoption k items p s h l others done))
