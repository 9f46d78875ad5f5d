-- ===== src/Syscall/Resources/Close.antt =====
-- `internal_closeResource`.
use so_oscilloscopio.Base.{
  ◌≡◌, sym, ap, subst, ◌∙◌, ◌≢◌, pos, to_int, eqb_ℤ, true, List, [], ◌∷◌, ◌++◌, ◌∈◌, ◌∉◌, mem,
  mem-head, mem-right, erase, erase-middle, Distinct, ==_ne, ==_refl,
}
use so_oscilloscopio.Run.{ok}
use so_oscilloscopio.Run.Returns
use so_oscilloscopio.Run.Returns.{Returns, returns}
use so_oscilloscopio.LinkedList.{Ptr, null}
use so_oscilloscopio.PoolAllocator.{PoolAllocator, PoolAllocatorResult, success, release_block}
use so_oscilloscopio.PoolAllocator.Live.{Holds, held-ne_null}
use so_oscilloscopio.PoolAllocator.Frees.{Frees, Holds-Frees, release_block-Frees}
use so_oscilloscopio.Kernel.{Kernel, set_pcb, with_retvalue, argument, update}
use so_oscilloscopio.Kernel.Effects.{change_pcb_run, current_run, set_retvalue_run, update_ne}
use so_oscilloscopio.Descriptor.{descriptor_by_fd, descriptor_free, descriptor_ptr_free}
use so_oscilloscopio.Scan.{NoneOf, NoneOf-mem, descriptor_by_fd_found}
use so_oscilloscopio.Syscall.Resources.{with_ptrs, change_resource, internal_close_resource}

-- The descriptor that the call is for, in the caller's list, and its link in the resource's. Both are
-- live blocks of their pools.
pub record HasDescriptor (k : Kernel) : Type 0 where
  pub descriptor : Ptr
  pub before : List Ptr
  pub after : List Ptr
  pub descriptors : (k.pcb_memory k.running_pcb).descriptors ≡ before ++ descriptor ∷ after
  pub none_sooner :
      NoneOf (λ d. eqb_ℤ (pos (k.descriptor_memory d).fd) (to_int (argument k 0))) before
  pub has_fd : eqb_ℤ (pos (k.descriptor_memory descriptor).fd) (to_int (argument k 0)) ≡ true
  pub links_before : List Ptr
  pub links_after : List Ptr
  pub joined_to :
      (k.resource_memory (k.descriptor_memory descriptor).resource).descriptors_ptrs
      ≡ links_before ++ (k.descriptor_memory descriptor).ptr ∷ links_after
  pub once : (k.descriptor_memory descriptor).ptr ∉ links_before
  pub live : List Ptr
  pub holds : Holds k.descriptor_allocator live
  pub live_distinct : Distinct live
  pub held : descriptor ∈ live
  pub links : List Ptr
  pub links_held : Holds k.descriptor_ptr_allocator links
  pub links_distinct : Distinct links
  pub link_held : (k.descriptor_memory descriptor).ptr ∈ links

-- The descriptor and its link are gone from the lists, and their blocks are free: each pool is the
-- result of releasing its block.
pub record Closed (k : Kernel) (h : HasDescriptor k) (l : Kernel) : Type 0 where
  pub descriptors : (l.pcb_memory k.running_pcb).descriptors ≡ h.before ++ h.after
  pub links :
      (l.resource_memory (k.descriptor_memory h.descriptor).resource).descriptors_ptrs
      ≡ h.links_before ++ h.links_after
  pub others :
      (r : Ptr)
      → r ≢ (k.descriptor_memory h.descriptor).resource
      → l.resource_memory r ≡ k.resource_memory r
  pub returned : (l.pcb_memory k.running_pcb).syscall_retvalue ≡ pos 0
  pub released :
      release_block h.descriptor k.descriptor_allocator ≡ ok success l.descriptor_allocator
  pub link_released :
      release_block (k.descriptor_memory h.descriptor).ptr k.descriptor_ptr_allocator
      ≡ ok success l.descriptor_ptr_allocator
  pub freed : Frees l.descriptor_allocator (erase h.descriptor h.live) (h.descriptor ∷ [])
  pub link_freed :
      Frees l.descriptor_ptr_allocator
        (erase (k.descriptor_memory h.descriptor).ptr h.links)
        ((k.descriptor_memory h.descriptor).ptr ∷ [])

module _ (k : Kernel) (on : k.running_pcb ≢ null) (h : HasDescriptor k) (b c : PoolAllocator) where
  abbrev d : Ptr
  d = h.descriptor

  abbrev link : Ptr
  link = (k.descriptor_memory d).ptr

  abbrev res : Ptr
  res = (k.descriptor_memory d).resource

  abbrev unlisted : Kernel
  unlisted =
      let v = k.pcb_memory k.running_pcb in
      set_pcb k.running_pcb (record v { descriptors = erase d v.descriptors }) k

  abbrev released : Kernel
  released = record unlisted {
    resource_memory =
        update k.resource_memory res
          (with_ptrs (erase link (k.resource_memory res).descriptors_ptrs) (k.resource_memory res));
    descriptor_allocator = b;
    descriptor_ptr_allocator = c;
  }

  abbrev closed : Kernel
  closed =
      set_pcb k.running_pcb (with_retvalue (pos 0) (released.pcb_memory k.running_pcb)) released

  descriptor_found :
      descriptor_by_fd k.descriptor_memory
        (k.pcb_memory k.running_pcb).descriptors
        (to_int (argument k 0))
      ≡ d
  descriptor_found =
      ap (λ l. descriptor_by_fd k.descriptor_memory l (to_int (argument k 0))) h.descriptors
      ∙ descriptor_by_fd_found k.descriptor_memory (to_int (argument k 0)) h.before d h.after
          h.none_sooner h.has_fd

  link_listed : mem link (k.resource_memory res).descriptors_ptrs ≡ true
  link_listed =
      subst (λ l. link ∈ l) (sym h.joined_to)
        (mem-right link h.links_before (link ∷ h.links_after) (mem-head link h.links_after))

  close_run :
      (r r' : PoolAllocatorResult)
      → release_block d k.descriptor_allocator ≡ ok r b
      → release_block link k.descriptor_ptr_allocator ≡ ok r' c
      → internal_close_resource k ≡ ok tt closed
  unfolding internal_close_resource change_resource descriptor_free descriptor_ptr_free
  close_run r r' gave gave' =
      let d_ne = held-ne_null k.descriptor_allocator h.live d h.holds h.held in
      rw (current_run k on) (
        rw (descriptor_found) (
          rw (==_ne d null d_ne) (
            rw (change_pcb_run k k.running_pcb _ on)
              (rw (link_listed) (rw (gave) (rw (gave') (set_retvalue_run released (pos 0) on)))))))

  closed-Closed :
      release_block d k.descriptor_allocator ≡ ok success b
      → release_block link k.descriptor_ptr_allocator ≡ ok success c
      → Frees b (erase d h.live) (d ∷ [])
      → Frees c (erase link h.links) (link ∷ [])
      → Closed k h closed
  closed-Closed gave gave' held links = record {
    released = gave;
    link_released = gave';
    descriptors = rw (==_refl k.running_pcb) (
        ap (erase d) h.descriptors
        ∙ erase-middle d h.before h.after (
            NoneOf-mem (λ d. eqb_ℤ (pos (k.descriptor_memory d).fd) (to_int (argument k 0)))
              h.before d h.none_sooner h.has_fd));
    links =
        rw (==_refl res)
          (ap (erase link) h.joined_to ∙ erase-middle link h.links_before h.links_after h.once);
    others = λ r ne. update_ne k.resource_memory res _ r ne;
    returned = rw (==_refl k.running_pcb);
    freed = held;
    link_freed = links;
  }

-- `internal_closeResource` by a running process that has a descriptor with the given number: the first
-- such descriptor leaves the caller's list, its link leaves the list of the resource that it is for,
-- both blocks are released, so that they are free while the others stay live, the other resources are
-- as they were, and the result is 0.
pub internal_close_resource-Closed :
    (k : Kernel)
    → k.running_pcb ≢ null
    → (h : HasDescriptor k) → Returns (λ _ l. Closed k h l) (internal_close_resource k)
internal_close_resource-Closed k on h =
    let (r, b, gave, (good, held)) = Returns.result (
      release_block-Frees k.descriptor_allocator h.live []
        (Holds-Frees k.descriptor_allocator h.live h.holds) h.descriptor h.held h.live_distinct) in
    let (r', c, gave', (good', links)) = Returns.result (
      release_block-Frees k.descriptor_ptr_allocator h.links []
        (Holds-Frees k.descriptor_ptr_allocator h.links h.links_held)
        (k.descriptor_memory h.descriptor).ptr h.link_held h.links_distinct) in
    let done = gave ∙ ap (λ r. ok r b) good in
    let done' = gave' ∙ ap (λ r. ok r c) good' in
    rw (close_run k on h b c r r' gave gave')
      (returns (closed-Closed k on h b c done done' held links))
