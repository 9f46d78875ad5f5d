-- ===== src/Syscall/Wait/Steps.antt =====
-- The run of `reap_child`.
use so_oscilloscopio.Base.{
  ◌≡◌, ◌≢◌, inl, inr, ℤ, ◌==◌, if◌then◌else◌, ◌∈◌, erase, ==_ne, Bool-cases,
}
use so_oscilloscopio.Run.{ok}
use so_oscilloscopio.LinkedList.{Ptr, null}
use so_oscilloscopio.PoolAllocator.{PoolAllocator, PoolAllocatorResult, release_block}
use so_oscilloscopio.Kernel.{Kernel, set_pcb, update, deliver}
use so_oscilloscopio.Kernel.Lists.{detach_zombie}
use so_oscilloscopio.Kernel.Effects.{change_pcb_run}
use so_oscilloscopio.Pcb.{pcb_free, pcb_ptr_free, pcb_ptr_by_pid}
use so_oscilloscopio.Syscall.Wait.{without_child, unlink_child, leave_zombies, reap_child}

-- The state after the zombie `z` leaves the zombies and, through its list item `g`, the children of
-- `self`, with `a` and `b` the pools of list items and of control blocks.
abbrev pub delivered : Kernel → (out : Ptr) → ℤ → Kernel
delivered k out value = record k {
  user_memory = if out == null then k.user_memory else update k.user_memory out value;
}

abbrev pub unlinked : Kernel → (self z g : Ptr) → PoolAllocator → Kernel
unlinked k self z g a = record (set_pcb self (without_child g (k.pcb_memory self)) k) {
  zombie_list = erase z k.zombie_list;
  pcb_ptr_allocator = a;
}

abbrev pub reaped : Kernel → (self z g out : Ptr) → (a b : PoolAllocator) → Kernel
reaped k self z g out a b =
    let k1 = unlinked k self z g a in
    record (delivered k1 out (k1.pcb_memory z).return_value) { pcb_allocator = b }

deliver_run :
    (k : Kernel) (out : Ptr) (value : ℤ) → deliver out value k ≡ ok tt (delivered k out value)
unfolding deliver
deliver_run k out value = elim (Bool-cases (out == null)) [ inl e ↦ rw e | inr e ↦ rw e ]

module _ (k : Kernel) (z : Ptr) (i : z ∈ k.zombie_list) where
  leave_zombies_run : leave_zombies z k ≡ ok tt (record k { zombie_list = erase z k.zombie_list })
  unfolding leave_zombies detach_zombie
  leave_zombies_run = rw i

unlink_child_run :
    (k : Kernel) (self g : Ptr) (r : PoolAllocatorResult) (a : PoolAllocator)
    → self ≢ null
    → g ≢ null
    → release_block g k.pcb_ptr_allocator ≡ ok r a
    → unlink_child self g k
      ≡ ok tt
          (record (set_pcb self (without_child g (k.pcb_memory self)) k) { pcb_ptr_allocator = a })
unfolding unlink_child pcb_ptr_free
unlink_child_run k self g r a self_ne ne gave =
    rw (==_ne g null ne) (rw (change_pcb_run k self (without_child g) self_ne) (rw gave))

module _ (k : Kernel) (self z g out : Ptr) (r r' : PoolAllocatorResult) (a b : PoolAllocator) where
  pub reap_child_run :
      self ≢ null
      → z ∈ k.zombie_list
      → pcb_ptr_by_pid k.pcb_memory k.pcb_ptr_memory
          (k.pcb_memory self).children
          (k.pcb_memory z).pid
        ≡ g
      → g ≢ null
      → release_block g k.pcb_ptr_allocator ≡ ok r a
      → release_block z k.pcb_allocator ≡ ok r' b
      → reap_child self z out k
        ≡ ok ((unlinked k self z g a).pcb_memory z).pid (reaped k self z g out a b)
  unfolding reap_child pcb_free
  reap_child_run self_ne i link ne gave gave' =
      let k1 = record k { zombie_list = erase z k.zombie_list } in
      let k2 = unlinked k self z g a in
      rw (leave_zombies_run k z i) (
        rw (link) (
          rw (unlink_child_run k1 self g r a self_ne ne gave)
            (rw (deliver_run k2 out (k2.pcb_memory z).return_value) (rw gave'))))
