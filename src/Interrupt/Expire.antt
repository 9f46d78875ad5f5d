-- ===== src/Interrupt/Expire.antt =====
-- One round of the loop of `timerInterrupt`: the first timer has expired.
use so_oscilloscopio.Base.{
  ◌≡◌, sym, subst, ◌∙◌, ◌≢◌, inl, inr, pos, leb_ℤ, List, [], ◌∷◌, ◌++◌, map, arith, false, ◌==◌,
  if◌then◌else◌, ◌∈◌, ◌∉◌, Distinct, erase, mem-erase, mem-head, mem-right, Bool-cases,
  Distinct-erase, mem-append, ne_of_mem,
}
use so_oscilloscopio.Run.{ok, ◌>>◌}
use so_oscilloscopio.LinkedList.{Ptr, null}
use so_oscilloscopio.PoolAllocator.{PoolAllocator, PoolAllocatorResult, release_block}
use so_oscilloscopio.PoolAllocator.Live.{Holds}
use so_oscilloscopio.Kernel.{Kernel, ready, set_pcb, with_status}
use so_oscilloscopio.Kernel.Lists.{is_listed, leave_waiting}
use so_oscilloscopio.Kernel.Effects.{change_pcb_run, insert_ready_run}
use so_oscilloscopio.Timer.{timer_list_current, timer_list_remove_current, timer_item_free}
use so_oscilloscopio.Timer.Order.{Sorted}
use so_oscilloscopio.Interrupt.{without_timer, expire}

abbrev pub sleeper : Kernel → Ptr → Ptr
sleeper k t = (k.timer_memory t).pcb

-- The timers are in order and live blocks of their pool, and each wakes another process, which is
-- neither ready nor a zombie.
pub record IsTimers (k : Kernel) (timers : List Ptr) : Type 0 where
  pub live : List Ptr
  pub holds : Holds k.timer_item_allocator live
  pub live_distinct : Distinct live
  pub owned : (t : Ptr) → t ∈ timers → t ∈ live
  pub distinct : Distinct timers
  pub sorted : Sorted k.timer_memory timers
  pub sleepers : Distinct (map (sleeper k) timers)
  pub present : (t : Ptr) → t ∈ timers → sleeper k t ≢ null
  pub not_ready : (t : Ptr) → t ∈ timers → sleeper k t ∉ k.ready_list
  pub not_zombie : (t : Ptr) → t ∈ timers → sleeper k t ∉ k.zombie_list
  pub waiting : Distinct k.waiting_list

-- The state after the timer `x`, the first one, has expired.
abbrev pub expired : Kernel → Ptr → List Ptr → PoolAllocator → Kernel
expired k x rest b =
    let p = sleeper k x in
    let k1 = record k { timer_list = rest; timer_item_allocator = b } in
    let k2 = set_pcb p (without_timer (k1.pcb_memory p)) k1 in
    let k3 = record k2 { waiting_list = erase p k2.waiting_list } in
    let k4 = set_pcb p (with_status ready (k3.pcb_memory p)) k3 in
    record k4 { ready_list = k.ready_list ++ p ∷ [] }

module _ (k : Kernel) (x : Ptr) (rest : List Ptr) (order : k.timer_list ≡ x ∷ rest) where
  pub current_lem :
      timer_list_current k k.disastr_os_time
      ≡ (if leb_ℤ (k.timer_memory x).awakening_time k.disastr_os_time then x else null)
  unfolding timer_list_current
  current_lem = ground (arith, order)

  removed :
      timer_list_remove_current k
      ≡ (do timer_item_free x; λ s. ok (pos 0) s) (record k { timer_list = rest })
  unfolding timer_list_remove_current
  removed = ground (arith, order)

  remove_run :
      (r : PoolAllocatorResult) (b : PoolAllocator)
      → release_block x k.timer_item_allocator ≡ ok r b
      → timer_list_remove_current k
        ≡ ok (pos 0) (record k { timer_list = rest; timer_item_allocator = b })
  unfolding timer_item_free
  remove_run r b gave = removed ∙ rw gave

  module _ (timers : IsTimers k (x ∷ rest)) where
    pub expire_run :
        (r : PoolAllocatorResult) (b : PoolAllocator)
        → release_block x k.timer_item_allocator ≡ ok r b
        → expire x k ≡ ok tt (expired k x rest b)
    unfolding expire leave_waiting
    expire_run r b gave =
        let p = sleeper k x in
        let ne = timers.present x (mem-head x rest) in
        let k1 = record k { timer_list = rest; timer_item_allocator = b } in
        let k2 = set_pcb p (without_timer (k1.pcb_memory p)) k1 in
        let k3 = record k2 { waiting_list = erase p k2.waiting_list } in
        let k4 = set_pcb p (with_status ready (k3.pcb_memory p)) k3 in
        let out_ready = timers.not_ready x (mem-head x rest) in
        let out_zombie = timers.not_zombie x (mem-head x rest) in
        let free : is_listed k4 p ≡ false =
          ground (arith, mem-erase p p k.waiting_list timers.waiting) in
        rw (remove_run r b gave) (
          rw (change_pcb_run k1 p without_timer ne)
            (rw (change_pcb_run k3 p (with_status ready) ne) (rw (insert_ready_run k4 p ne free))))

pub mem-map : (f : Ptr → Ptr) (x : Ptr) (xs : List Ptr) → x ∈ xs → f x ∈ map f xs
mem-map f x [] i = cc
mem-map f x (y ∷ ys) i = elim (Bool-cases (x == y)) [
  | inl hit ↦
      let same : x ≡ y = ground arith in
      subst (λ z. f x ∈ f z ∷ map f ys) same (mem-head (f x) (map f ys))
  | inr miss ↦ mem-right (f x) (f y ∷ []) (map f ys) (mem-map f x ys (ground arith))
]

module _ (k : Kernel) (x : Ptr) (rest : List Ptr) (timers : IsTimers k (x ∷ rest)) where
  other_sleeper : (t : Ptr) → t ∈ rest → sleeper k t ≢ sleeper k x
  other_sleeper t i e =
      ne_of_mem (sleeper k x) (sleeper k t) (map (sleeper k) rest) timers.sleepers.0
        (mem-map (sleeper k) t rest i) (sym e)

  behind : (t : Ptr) → t ∈ rest → t ∈ x ∷ rest
  behind t i = mem-right t (x ∷ []) rest i

  pub expired-IsTimers :
      (b : PoolAllocator) → Holds b (erase x timers.live) → IsTimers (expired k x rest b) rest
  expired-IsTimers b held = record {
    live = erase x timers.live;
    holds = held;
    live_distinct = Distinct-erase x timers.live timers.live_distinct;
    owned = λ t i.
        let o = timers.owned t (behind t i) in
        let ne = ne_of_mem x t rest timers.distinct.0 i in
        ground (arith, mem-erase t x timers.live timers.live_distinct);
    distinct = timers.distinct.1;
    sorted = timers.sorted.1;
    sleepers = timers.sleepers.1;
    present = λ t i. timers.present t (behind t i);
    not_ready = λ t i.
        let o = timers.not_ready t (behind t i) in
        let ne = other_sleeper t i in
        ground (arith, mem-append (sleeper k t) k.ready_list (sleeper k x ∷ []));
    not_zombie = λ t i. timers.not_zombie t (behind t i);
    waiting = Distinct-erase (sleeper k x) k.waiting_list timers.waiting;
  }
