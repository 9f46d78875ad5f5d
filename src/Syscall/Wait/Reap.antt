-- ===== src/Syscall/Wait/Reap.antt =====
-- `internal_wait` where a zombie child is there to be reaped.
use so_oscilloscopio.Base.{
  ◌≡◌, refl, sym, ap, subst, ◌∙◌, ◌≢◌, pos, to_int, to_ptr, List, [], ◌∷◌, ◌++◌, true, ◌==◌,
  if◌then◌else◌, ◌∈◌, mem-head, mem-right, erase, erase-middle, ==_ne, ==_refl, Distinct,
}
use so_oscilloscopio.Run.Returns
use so_oscilloscopio.Run.Returns.{Returns, returns}
use so_oscilloscopio.LinkedList.{Ptr, null}
use so_oscilloscopio.PoolAllocator.{PoolAllocator}
use so_oscilloscopio.PoolAllocator.Live.{Holds, held-ne_null}
use so_oscilloscopio.PoolAllocator.Frees.{Frees, Holds-Frees, release_block-Frees}
use so_oscilloscopio.Kernel.{Kernel, Pcb, set_pcb, with_retvalue, argument, update}
use so_oscilloscopio.Kernel.Effects.{current_run, set_retvalue_run, update_field, update_self}
use so_oscilloscopio.Pcb.{pcb_ptr_by_pid}
use so_oscilloscopio.Scan.{
  NoneOf, NoneOf-mem, is_awaited_zombie, find_zombie_found, pcb_ptr_by_pid_found,
}
use so_oscilloscopio.Syscall.Wait.Steps.{unlinked, reaped, reap_child_run}
use so_oscilloscopio.Syscall.Wait.{
  without_child, find_zombie, block_parent, reap_and_reply, internal_wait,
}

-- The parts of the lists that the call looks for: the first zombie that it waits for, and the link of
-- the caller to it. Both are live blocks of their pools.
pub record HasZombie (k : Kernel) : Type 0 where
  pub child : Ptr
  pub zombies_before : List Ptr
  pub zombies_after : List Ptr
  pub zombies : k.zombie_list ≡ zombies_before ++ child ∷ zombies_after
  pub none_sooner :
      NoneOf (is_awaited_zombie k.pcb_memory k.running_pcb (to_int (argument k 0))) zombies_before
  pub awaited : is_awaited_zombie k.pcb_memory k.running_pcb (to_int (argument k 0)) child ≡ true
  pub link : Ptr
  pub links_before : List Ptr
  pub links_after : List Ptr
  pub children : (k.pcb_memory k.running_pcb).children ≡ links_before ++ link ∷ links_after
  pub other_pids :
      NoneOf (λ p. (k.pcb_memory (k.pcb_ptr_memory p)).pid == (k.pcb_memory child).pid) links_before
  pub leads_to : k.pcb_ptr_memory link ≡ child
  pub blocks : List Ptr
  pub holds : Holds k.pcb_allocator blocks
  pub blocks_distinct : Distinct blocks
  pub held : child ∈ blocks
  pub links : List Ptr
  pub links_held : Holds k.pcb_ptr_allocator links
  pub links_distinct : Distinct links
  pub link_held : link ∈ links

-- The child is gone from the zombies and from the caller's children, its block and its link's are
-- free, and the caller has its pid and return value.
pub record Reaped (k : Kernel) (h : HasZombie k) (l : Kernel) : Type 0 where
  pub zombies : l.zombie_list ≡ h.zombies_before ++ h.zombies_after
  pub children : (l.pcb_memory k.running_pcb).children ≡ h.links_before ++ h.links_after
  pub returned : (l.pcb_memory k.running_pcb).syscall_retvalue ≡ pos (k.pcb_memory h.child).pid
  pub result : l.user_memory ≡ (
      let out = to_ptr (argument k 1) in
      if out == null
      then k.user_memory
      else update k.user_memory out (k.pcb_memory h.child).return_value)
  pub freed : Frees l.pcb_allocator (erase h.child h.blocks) (h.child ∷ [])
  pub link_freed : Frees l.pcb_ptr_allocator (erase h.link h.links) (h.link ∷ [])
  pub goes_on : l.running_pcb ≡ k.running_pcb

module _ (k : Kernel) (on : k.running_pcb ≢ null) (h : HasZombie k) where
  abbrev self : Ptr
  self = k.running_pcb

  zombie_found : find_zombie k.pcb_memory self (to_int (argument k 0)) k.zombie_list ≡ h.child
  zombie_found =
      ap (find_zombie k.pcb_memory self (to_int (argument k 0))) h.zombies
      ∙ find_zombie_found k.pcb_memory self (to_int (argument k 0)) h.zombies_before h.child
          h.zombies_after h.none_sooner h.awaited

  link_pid : ((k.pcb_memory (k.pcb_ptr_memory h.link)).pid == (k.pcb_memory h.child).pid) ≡ true
  link_pid = rw h.leads_to (==_refl (k.pcb_memory h.child).pid)

  link_found :
      pcb_ptr_by_pid k.pcb_memory k.pcb_ptr_memory
        (k.pcb_memory self).children
        (k.pcb_memory h.child).pid
      ≡ h.link
  link_found =
      ap (λ l. pcb_ptr_by_pid k.pcb_memory k.pcb_ptr_memory l (k.pcb_memory h.child).pid) h.children
      ∙ pcb_ptr_by_pid_found k.pcb_memory k.pcb_ptr_memory (k.pcb_memory h.child).pid h.links_before
          h.link h.links_after h.other_pids link_pid

  child_ne : h.child ≢ null
  child_ne = held-ne_null k.pcb_allocator h.blocks h.child h.holds h.held

  link_ne : h.link ≢ null
  link_ne = held-ne_null k.pcb_ptr_allocator h.links h.link h.links_held h.link_held

  zombie_listed : h.child ∈ k.zombie_list
  zombie_listed =
      subst (λ l. h.child ∈ l) (sym h.zombies)
        (mem-right h.child h.zombies_before (h.child ∷ h.zombies_after)
          (mem-head h.child h.zombies_after))

  wait_run :
      (c : Ptr) (cs : List Ptr)
      → (k.pcb_memory self).children ≡ c ∷ cs
      → internal_wait k ≡ reap_and_reply self h.child (to_ptr (argument k 1)) k
  unfolding internal_wait
  wait_run c cs e =
      chosen
      ∙ ap
          (λ z.
            (if z == null then block_parent self else reap_and_reply self z (to_ptr (argument k 1)))
              k)
          zombie_found
      ∙ rw (==_ne h.child null child_ne)
    where
      chosen : internal_wait k ≡ (
          let z = find_zombie k.pcb_memory self (to_int (argument k 0)) k.zombie_list in
          (if z == null then block_parent self else reap_and_reply self z (to_ptr (argument k 1)))
            k)
      chosen = rw (current_run k on) (rw e)

append-cons :
    (xs : List Ptr) (y : Ptr) (ys : List Ptr)
    → (c : Ptr) × (cs : List Ptr) × (xs ++ y ∷ ys ≡ c ∷ cs)
append-cons [] y ys = (y, ys, refl)
append-cons (x ∷ xs) y ys = (x, xs ++ y ∷ ys, refl)

-- The state at the end of the call, with the pools `a` of links and `b` of control blocks.
module _ (k : Kernel) (on : k.running_pcb ≢ null) (h : HasZombie k) (a b : PoolAllocator) where
  abbrev shrunk : Pcb
  shrunk = without_child h.link (k.pcb_memory k.running_pcb)

  abbrev finished : Kernel
  finished =
      let l = reaped k k.running_pcb h.child h.link (to_ptr (argument k 1)) a b in
      set_pcb k.running_pcb
        (with_retvalue (pos ((unlinked k k.running_pcb h.child h.link a).pcb_memory h.child).pid)
          (l.pcb_memory k.running_pcb))
        l

  finished-Reaped :
      Frees a (erase h.link h.links) (h.link ∷ [])
      → Frees b (erase h.child h.blocks) (h.child ∷ [])
      → Reaped k h finished
  finished-Reaped links blocks =
      let self = k.running_pcb in
      let m = update k.pcb_memory self shrunk in
      let last = with_retvalue (pos (m h.child).pid) (m self) in
      record {
        zombies =
            ap (erase h.child) h.zombies
            ∙ erase-middle h.child h.zombies_before h.zombies_after (
                NoneOf-mem (is_awaited_zombie k.pcb_memory self (to_int (argument k 0)))
                  h.zombies_before h.child h.none_sooner h.awaited);
        children =
            ap (λ (v : Pcb). v.children) (update_self m self last)
            ∙ ap (λ (v : Pcb). v.children) (update_self k.pcb_memory self shrunk)
            ∙ ap (erase h.link) h.children
            ∙ erase-middle h.link h.links_before h.links_after (
                NoneOf-mem
                  (λ p. (k.pcb_memory (k.pcb_ptr_memory p)).pid == (k.pcb_memory h.child).pid)
                  h.links_before h.link h.other_pids (link_pid k on h));
        returned =
            ap (λ (v : Pcb). v.syscall_retvalue) (update_self m self last)
            ∙ ap pos (update_field (λ (v : Pcb). v.pid) k.pcb_memory self shrunk h.child refl);
        result =
            ap
              (λ r.
                let out = to_ptr (argument k 1) in
                if out == null then k.user_memory else update k.user_memory out r)
              (update_field (λ (v : Pcb). v.return_value) k.pcb_memory self shrunk h.child refl);
        freed = blocks;
        link_freed = links;
        goes_on = refl;
      }

-- `internal_wait` by a process with a zombie child that it waits for, any or the one with the given
-- pid: the first such zombie is reaped. It leaves the zombies, its link leaves the caller's children,
-- both blocks are free blocks of their pools and the others stay live, its return value is stored at the pointer that
-- the caller passed, unless that is null, and the caller goes on with the zombie's pid as the result.
-- The caller's first link to a process of that pid leads to the zombie.
pub internal_wait-Reaped :
    (k : Kernel)
    → k.running_pcb ≢ null
    → (h : HasZombie k) → Returns (λ _ l. Reaped k h l) (internal_wait k)
unfolding reap_and_reply
internal_wait-Reaped k on h =
    let self = k.running_pcb in
    let (c, cs, some) = append-cons h.links_before h.link h.links_after in
    let (r, a, gave, (_, links)) = Returns.result (
      release_block-Frees k.pcb_ptr_allocator h.links []
        (Holds-Frees k.pcb_ptr_allocator h.links h.links_held) h.link h.link_held
        h.links_distinct) in
    let (r', b, gave', (_, blocks)) = Returns.result (
      release_block-Frees k.pcb_allocator h.blocks [] (Holds-Frees k.pcb_allocator h.blocks h.holds)
        h.child h.held h.blocks_distinct) in
    let l = reaped k self h.child h.link (to_ptr (argument k 1)) a b in
    rw (wait_run k on h c cs (h.children ∙ some)) (
      rw
        (reap_child_run k self h.child h.link (to_ptr (argument k 1)) r r' a b on
          (zombie_listed k on h) (link_found k on h) (link_ne k on h) gave gave')
        (rw
          (set_retvalue_run l (pos ((unlinked k self h.child h.link a).pcb_memory h.child).pid) on)
          (returns (finished-Reaped k on h a b links blocks))))
