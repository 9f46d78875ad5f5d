-- ===== src/Syscall/Resources/RoundTrip.antt =====
-- `internal_closeResource` undoes `internal_openResource`.
use mathlib.Core.List.{append-nil}
use so_oscilloscopio.Base.{
  ℕ, ◌<◌, ◌^◌, ◌≡◌, sym, ap, subst, ◌∙◌, ◌≢◌, inl, inr, ℤ, pos, to_int, eqb_ℤ, eqb_ℤ-refl, true,
  false, List, [], ◌∷◌, ◌++◌, arith, ◌∈◌, ◌∉◌, mem-head, mem-right, Distinct, ne_of_mem,
  not-mem_of_subset,
}
use so_oscilloscopio.Run.{Run, ok, Cmd, modify, ◌>>◌}
use so_oscilloscopio.Run.Returns
use so_oscilloscopio.Run.Returns.{Returns, returns}
use so_oscilloscopio.LinkedList.{Ptr, null}
use so_oscilloscopio.PoolAllocator.{PoolAllocator, PoolAllocatorResult, success, release_block}
use so_oscilloscopio.PoolAllocator.Live.{Holds, held-ne_null}
use so_oscilloscopio.PoolAllocator.Frees.{release_block-got}
use so_oscilloscopio.Kernel.{Kernel, Pcb, Descriptor, set_pcb, argument}
use so_oscilloscopio.Kernel.Effects.{update_self}
use so_oscilloscopio.Resource.{resource_by_id}
use so_oscilloscopio.Scan.{NoneOf}
use so_oscilloscopio.Syscall.BQueue.Fifo.{Available}
use so_oscilloscopio.Syscall.Resources.{
  has_create, has_excl, internal_open_resource, internal_close_resource,
}
use so_oscilloscopio.Syscall.Resources.Open.{
  Opened, NotOpened, taken, mismatch, exclusive, internal_open_resource-Opened,
}
use so_oscilloscopio.Syscall.Resources.Close.{HasDescriptor, Closed, internal_close_resource-Closed}

-- The process passes the result of its last call as the argument of the next one.
abbrev passing : Pcb → Pcb
passing v = record v { syscall_args = λ i. v.syscall_retvalue }

abbrev pub pass_result : Cmd Kernel (Unit {0})
pass_result = modify λ k. set_pcb k.running_pcb (passing (k.pcb_memory k.running_pcb)) k

-- The caller has its descriptors, the resource its links, and both pools their state, as before.
pub record Restored (k : Kernel) (res : Ptr) (l : Kernel) : Type 0 where
  pub descriptors :
      (l.pcb_memory k.running_pcb).descriptors ≡ (k.pcb_memory k.running_pcb).descriptors
  pub joined_to :
      (l.resource_memory res).descriptors_ptrs ≡ (k.resource_memory res).descriptors_ptrs
  pub pool : l.descriptor_allocator ≡ k.descriptor_allocator
  pub links_pool : l.descriptor_ptr_allocator ≡ k.descriptor_ptr_allocator

-- The caller's descriptors and the resource's links are live, and the former have numbers that were
-- handed out.
pub record IsOpen (k : Kernel) (res : Ptr) (live links : List Ptr) : Type 0 where
  pub holds : Holds k.descriptor_allocator live
  pub distinct : Distinct live
  pub owned : (d : Ptr) → d ∈ (k.pcb_memory k.running_pcb).descriptors → d ∈ live
  pub numbered :
      (d : Ptr)
      → d ∈ (k.pcb_memory k.running_pcb).descriptors
      → (k.descriptor_memory d).fd < (k.pcb_memory k.running_pcb).last_fd
  pub links_held : Holds k.descriptor_ptr_allocator links
  pub links_distinct : Distinct links
  pub links_owned : (g : Ptr) → g ∈ (k.resource_memory res).descriptors_ptrs → g ∈ links
  pub last_fd : (k.pcb_memory k.running_pcb).last_fd < 2 ^ 31

to_int_small : (n : ℕ) → n < 2 ^ 31 → to_int (pos n) ≡ pos n
unfolding to_int
to_int_small n lt = ground arith

fd_unused :
    (m : Ptr → Descriptor) (n : ℕ) (ds : List Ptr)
    → ((d : Ptr) → d ∈ ds → (m d).fd < n)
    → NoneOf (λ d. eqb_ℤ (pos (m d).fd) (pos n)) ds
fd_unused m n [] lower = tt
fd_unused m n (d ∷ ds) lower =
    let lt = lower d (mem-head d ds) in
    (ground arith, fd_unused m n ds λ x i. lower x (mem-right x (d ∷ []) ds i))

state_of :
    {a b : PoolAllocator}
    → ◌≡◌ {A = Run PoolAllocator PoolAllocatorResult} (ok success a) (ok success b)
    → a ≡ b
state_of e = cc

module _ (k : Kernel) (res : Ptr) (live links : List Ptr) (h : IsOpen k res live links) (l : Kernel)
    (kind mode : ℤ) (o : Opened k res kind mode live links l) where
  abbrev passed : Kernel
  passed = set_pcb l.running_pcb (passing (l.pcb_memory l.running_pcb)) l

  abbrev fd : ℕ
  fd = (k.pcb_memory k.running_pcb).last_fd

  passed_at : passed.pcb_memory passed.running_pcb ≡ passing (l.pcb_memory k.running_pcb)
  passed_at =
      update_self l.pcb_memory l.running_pcb (passing (l.pcb_memory l.running_pcb))
      ∙ ap (λ p. passing (l.pcb_memory p)) o.goes_on

  number_passed : to_int (argument passed 0) ≡ pos fd
  number_passed =
      ap (λ (v : Pcb). to_int (v.syscall_args 0)) passed_at
      ∙ ap to_int o.returned
      ∙ to_int_small fd h.last_fd

  old_fd :
      (d : Ptr) → d ∈ (k.pcb_memory k.running_pcb).descriptors → (l.descriptor_memory d).fd < fd
  old_fd d i =
      let ne : d ≢ o.descriptor =
        λ e. ne_of_mem o.descriptor d live o.fresh (h.owned d i) (sym e) in
      subst (λ (v : Descriptor). v.fd < fd) (sym (o.same_descriptors d ne)) (h.numbered d i)

  abbrev passed_descriptor : HasDescriptor passed
  passed_descriptor =
      let old = (k.pcb_memory k.running_pcb).descriptors in
      let ptrs = (k.resource_memory res).descriptors_ptrs in
      record {
        descriptor = o.descriptor;
        before = old;
        after = [];
        descriptors = ap (λ (v : Pcb). v.descriptors) passed_at ∙ o.descriptors;
        none_sooner =
            subst (λ a. NoneOf (λ d. eqb_ℤ (pos (l.descriptor_memory d).fd) a) old)
              (sym number_passed) (fd_unused l.descriptor_memory fd old old_fd);
        has_fd =
            ap (λ a. eqb_ℤ (pos (l.descriptor_memory o.descriptor).fd) a) number_passed
            ∙ ap (λ n. eqb_ℤ (pos n) (pos fd)) o.fd
            ∙ eqb_ℤ-refl (pos fd);
        links_before = ptrs;
        links_after = [];
        joined_to =
            ap (λ r. (l.resource_memory r).descriptors_ptrs) o.resource
            ∙ o.joined_to
            ∙ ap (λ g. ptrs ++ g ∷ []) (sym o.ptr);
        once =
            subst (λ g. g ∉ ptrs) (sym o.ptr)
              (not-mem_of_subset o.link ptrs links h.links_owned o.fresh_link);
        live = o.descriptor ∷ live;
        holds = o.holds;
        live_distinct = (o.fresh, h.distinct);
        held = mem-head o.descriptor live;
        links = o.link ∷ links;
        links_held = o.links_held;
        links_distinct = (o.fresh_link, h.links_distinct);
        link_held = subst (λ g. g ∈ o.link ∷ links) (sym o.ptr) (mem-head o.link links);
      }

  Closed-Restored : (m : Kernel) → Closed passed passed_descriptor m → Restored k res m
  Closed-Restored m c =
      let old = (k.pcb_memory k.running_pcb).descriptors in
      let ptrs = (k.resource_memory res).descriptors_ptrs in
      record {
        descriptors =
            ap (λ p. (m.pcb_memory p).descriptors) (sym o.goes_on) ∙ c.descriptors ∙ append-nil old;
        joined_to =
            ap (λ r. (m.resource_memory r).descriptors_ptrs) (sym o.resource)
            ∙ c.links
            ∙ append-nil ptrs;
        pool = state_of (
            sym c.released
            ∙ release_block-got k.descriptor_allocator live o.descriptor l.descriptor_allocator
                h.holds o.got
                (held-ne_null l.descriptor_allocator (o.descriptor ∷ live) o.descriptor o.holds
                  (mem-head o.descriptor live)));
        links_pool = state_of (
            sym c.link_released
            ∙ ap (λ g. release_block g l.descriptor_ptr_allocator) o.ptr
            ∙ release_block-got k.descriptor_ptr_allocator links o.link l.descriptor_ptr_allocator
                h.links_held o.got_link
                (held-ne_null l.descriptor_ptr_allocator (o.link ∷ links) o.link o.links_held
                  (mem-head o.link links)));
      }

-- `internal_openResource` of a resource that is there, of the type asked for, neither to be created
-- nor to be opened alone, and then `internal_closeResource` of the number that this has returned:
-- both return, the caller's list of descriptors and the resource's list of links are as they were,
-- and so is the whole state of both pools, of which neither is exhausted before. The descriptors of
-- the caller and the links of the resource are live blocks, without repetition, and the descriptors'
-- numbers are below the next one, which is an `int`.
pub internal_close_resource-Restored :
    (k : Kernel) (res : Ptr) (live links : List Ptr)
    → k.running_pcb ≢ null
    → resource_by_id k.resource_memory k.resources_list (to_int (argument k 0)) ≡ res
    → res ≢ null
    → eqb_ℤ (k.resource_memory res).kind (to_int (argument k 1)) ≡ true
    → has_create (to_int (argument k 2)) ≡ false
    → has_excl (to_int (argument k 2)) ≡ false
    → IsOpen k res live links
    → Available k.descriptor_allocator
    → Available k.descriptor_ptr_allocator
    → Returns
        (λ _ l. Restored k res l)
        ((do internal_open_resource; pass_result; internal_close_resource) k)
internal_close_resource-Restored k res live links on at ne same keep shared h some some' =
    Returns.bind
      (internal_open_resource-Opened k res live links on at (inl keep) h.holds h.links_held some
        some')
      λ _ l outcome. elim outcome [
        | inl (r, why, _) ↦ absurd (granted why)
        | inr o ↦
            Returns.weaken
              (internal_close_resource-Closed
                (passed k res live links h l (to_int (argument k 1)) (to_int (argument k 2)) o)
                (λ e. on (sym o.goes_on ∙ e))
                (passed_descriptor k res live links h l (to_int (argument k 1))
                  (to_int (argument k 2)) o))
              λ _ m c.
                Closed-Restored k res live links h l (to_int (argument k 1)) (to_int (argument k 2))
                  o m c
      ]
  where
    granted : {r : ℤ} → NotOpened k res (to_int (argument k 1)) (to_int (argument k 2)) r → ⊥
    granted (taken create there) = cc
    granted (mismatch not_created (inl none)) = ne none
    granted (mismatch not_created (inr other)) = cc
    granted (exclusive not_created there kind alone some) = cc
