-- ===== src/Syscall/Resources/Open.antt =====
-- `internal_openResource` of a resource that is there.
use so_oscilloscopio.Base.{
  ◌+◌, ◌≡◌, refl, sym, ap, ◌∙◌, ◌≢◌, ◌⊎◌, inl, inr, ℤ, pos, to_int, eqb_ℤ, true, false, not, ◌&&◌,
  ◌||◌, List, [], ◌∷◌, ◌++◌, arith, ◌==◌, ◌∉◌, ==_ne, ==_refl, Bool-cases,
}
use so_oscilloscopio.Run.{ok}
use so_oscilloscopio.Run.Returns.{Returns, returns}
use so_oscilloscopio.Constants.Error
use so_oscilloscopio.LinkedList.{Ptr, null}
use so_oscilloscopio.PoolAllocator.{PoolAllocator, get_block}
use so_oscilloscopio.PoolAllocator.Live.{Holds}
use so_oscilloscopio.Kernel.{Kernel, set_pcb, with_retvalue, argument, update, set_retvalue}
use so_oscilloscopio.Kernel.Effects.{change_pcb_run, current_run, set_retvalue_run, update_ne}
use so_oscilloscopio.Resource.{resource_by_id}
use so_oscilloscopio.Descriptor.{descriptor_alloc, descriptor_ptr_alloc}
use so_oscilloscopio.Syscall.BQueue.Fifo.{Available, obtained}
use so_oscilloscopio.Syscall.Resources.{
  has_create, has_excl, is_nonempty, with_ptrs, change_resource, attach_descriptor, open_existing,
  internal_open_resource,
}

-- The state after the new descriptor `d`, with the list item `g`, joins its process and its resource.
module _ (k : Kernel) (res d g : Ptr) (b c : PoolAllocator) where
  abbrev self : Ptr
  self = k.running_pcb

  abbrev descriptor_set : Kernel
  descriptor_set = record k {
    descriptor_allocator = b;
    descriptor_memory = update k.descriptor_memory d (record (k.descriptor_memory d) {
      fd = (k.pcb_memory self).last_fd;
      resource = res;
      pcb = self;
    });
  }

  abbrev counted : Kernel
  counted =
      let v = k.pcb_memory self in
      set_pcb self (record v { last_fd = v.last_fd + 1 }) descriptor_set

  abbrev with_item : Kernel
  with_item = record counted {
    descriptor_ptr_allocator = c;
    descriptor_ptr_memory = update k.descriptor_ptr_memory g d;
  }

  abbrev listed : Kernel
  listed =
      let v = with_item.pcb_memory self in
      set_pcb self (record v { descriptors = v.descriptors ++ d ∷ [] }) with_item

  abbrev joined : Kernel
  joined = record listed {
    descriptor_memory =
        update listed.descriptor_memory d (record (listed.descriptor_memory d) { ptr = g });
    resource_memory =
        update k.resource_memory res
          (with_ptrs ((k.resource_memory res).descriptors_ptrs ++ g ∷ []) (k.resource_memory res));
  }

  abbrev pub opened : Kernel
  opened =
      set_pcb self (with_retvalue (pos (joined.descriptor_memory d).fd) (joined.pcb_memory self))
        joined

  module _ (on : k.running_pcb ≢ null) (d_ne : d ≢ null) (g_ne : g ≢ null) where
    alloc_run :
        get_block k.descriptor_allocator ≡ ok d b
        → descriptor_alloc (k.pcb_memory self).last_fd res self k ≡ ok d descriptor_set
    unfolding descriptor_alloc
    alloc_run got = rw got (rw (==_ne d null d_ne))

    attach_run :
        get_block k.descriptor_ptr_allocator ≡ ok g c
        → attach_descriptor self res d descriptor_set ≡ ok tt opened
    unfolding attach_descriptor descriptor_ptr_alloc change_resource
    attach_run got = rw (change_pcb_run descriptor_set self _ on) (
        rw (got) (
          rw (==_ne g null g_ne) (
            rw (change_pcb_run with_item self _ on) (
              rw (==_ne g null g_ne)
                (set_retvalue_run joined (pos (joined.descriptor_memory d).fd) on)))))

-- The caller has a new descriptor of the resource, with the number that it counted up to: no reason
-- to refuse it held.
pub record Opened (k : Kernel) (res : Ptr) (kind mode : ℤ) (live links : List Ptr) (l : Kernel)
    : Type 0 where
  pub not_created : has_create mode ≡ false
  pub present : res ≢ null
  pub same_kind : eqb_ℤ (k.resource_memory res).kind kind ≡ true
  pub shared : (has_excl mode ≡ false) ⊎ ((k.resource_memory res).descriptors_ptrs ≡ [])
  pub descriptor : Ptr
  pub link : Ptr
  pub fresh : descriptor ∉ live
  pub fresh_link : link ∉ links
  pub fd : (l.descriptor_memory descriptor).fd ≡ (k.pcb_memory k.running_pcb).last_fd
  pub resource : (l.descriptor_memory descriptor).resource ≡ res
  pub owner : (l.descriptor_memory descriptor).pcb ≡ k.running_pcb
  pub ptr : (l.descriptor_memory descriptor).ptr ≡ link
  pub leads_to : l.descriptor_ptr_memory link ≡ descriptor
  pub descriptors :
      (l.pcb_memory k.running_pcb).descriptors
      ≡ (k.pcb_memory k.running_pcb).descriptors ++ descriptor ∷ []
  pub next_fd : (l.pcb_memory k.running_pcb).last_fd ≡ (k.pcb_memory k.running_pcb).last_fd + 1
  pub joined_to :
      (l.resource_memory res).descriptors_ptrs
      ≡ (k.resource_memory res).descriptors_ptrs ++ link ∷ []
  pub others : (r : Ptr) → r ≢ res → l.resource_memory r ≡ k.resource_memory r
  pub returned :
      (l.pcb_memory k.running_pcb).syscall_retvalue ≡ pos (k.pcb_memory k.running_pcb).last_fd
  pub got : get_block k.descriptor_allocator ≡ ok descriptor l.descriptor_allocator
  pub got_link : get_block k.descriptor_ptr_allocator ≡ ok link l.descriptor_ptr_allocator
  pub holds : Holds l.descriptor_allocator (descriptor ∷ live)
  pub links_held : Holds l.descriptor_ptr_allocator (link ∷ links)
  pub same_descriptors : (p : Ptr) → p ≢ descriptor → l.descriptor_memory p ≡ k.descriptor_memory p
  pub goes_on : l.running_pcb ≡ k.running_pcb

opened-Opened :
    (k : Kernel) (res d g : Ptr) (kind mode : ℤ) (b c : PoolAllocator) (live links : List Ptr)
    → has_create mode ≡ false
    → res ≢ null
    → eqb_ℤ (k.resource_memory res).kind kind ≡ true
    → (has_excl mode ≡ false) ⊎ ((k.resource_memory res).descriptors_ptrs ≡ [])
    → get_block k.descriptor_allocator ≡ ok d b
    → get_block k.descriptor_ptr_allocator ≡ ok g c
    → d ∉ live
    → g ∉ links
    → Holds b (d ∷ live)
    → Holds c (g ∷ links)
    → Opened k res kind mode live links (opened k res d g b c)
opened-Opened k res d g kind mode b c live links keep ne same shared got got' fresh fresh_link held
      links_held =
    record {
      not_created = keep;
      present = ne;
      same_kind = same;
      shared = shared;
      got = got;
      got_link = got';
      descriptor = d;
      link = g;
      fresh = fresh;
      fresh_link = fresh_link;
      fd = rw (==_refl d);
      resource = rw (==_refl d);
      owner = rw (==_refl d);
      ptr = rw (==_refl d);
      leads_to = rw (==_refl g);
      descriptors = rw (==_refl k.running_pcb);
      next_fd = rw (==_refl k.running_pcb);
      joined_to = rw (==_refl res);
      others = λ r ne. update_ne k.resource_memory res _ r ne;
      returned = rw (==_refl k.running_pcb, ==_refl d);
      holds = held;
      links_held = links_held;
      same_descriptors = λ p ne. rw (==_ne p d ne);
      goes_on = refl;
    }

-- Why a resource is not opened, with the result for it. The reasons exclude each other.
pub data NotOpened (k : Kernel) (res : Ptr) (kind mode : ℤ) : ℤ → Type 0 where
  taken : has_create mode ≡ true → res ≢ null → NotOpened k res kind mode Error.resource_create
  mismatch :
      has_create mode ≡ false
      → (res ≡ null) ⊎ (eqb_ℤ (k.resource_memory res).kind kind ≡ false)
      → NotOpened k res kind mode Error.resource_open
  exclusive :
      has_create mode ≡ false
      → res ≢ null
      → eqb_ℤ (k.resource_memory res).kind kind ≡ true
      → has_excl mode ≡ true
      → (k.resource_memory res).descriptors_ptrs ≢ []
      → NotOpened k res kind mode Error.resource_no_excl

abbrev pub OpenOutcome :
    (k : Kernel) (res : Ptr) (kind mode : ℤ) (live links : List Ptr) → Kernel → Type 0
OpenOutcome k res kind mode live links l =
    ((r : ℤ) × NotOpened k res kind mode r
      × (l ≡ set_pcb k.running_pcb (with_retvalue r (k.pcb_memory k.running_pcb)) k))
    ⊎ Opened k res kind mode live links l

nonempty_ne : (xs : List Ptr) → is_nonempty xs ≡ true → xs ≢ []
nonempty_ne xs some e = let h : false ≡ true = ap is_nonempty (sym e) ∙ some in cc

module _ (k : Kernel) (on : k.running_pcb ≢ null) (res : Ptr) (kind mode : ℤ)
    (live links : List Ptr) where
  refuse_open :
      (r : ℤ)
      → NotOpened k res kind mode r
      → Returns (λ _ l. OpenOutcome k res kind mode live links l) (set_retvalue r k)
  refuse_open r why = rw (set_retvalue_run k r on) (returns (inl (r, why, refl)))

  not_alone :
      (xs : List Ptr)
      → (has_excl mode && is_nonempty xs) ≡ false
      → (has_excl mode ≡ false) ⊎ (xs ≡ [])
  not_alone [] e = inr refl
  not_alone (x ∷ xs) e = inl (ground arith)

  open_existing_cases :
      has_create mode ≡ false
      → Holds k.descriptor_allocator live
      → Holds k.descriptor_ptr_allocator links
      → Available k.descriptor_allocator
      → Available k.descriptor_ptr_allocator
      → Returns
          (λ _ l. OpenOutcome k res kind mode live links l)
          (open_existing k.running_pcb res kind mode k)
  unfolding open_existing
  open_existing_cases keep held held' some some' =
      elim (Bool-cases (res == null || not (eqb_ℤ (k.resource_memory res).kind kind))) [
        | inl bad ↦ rw bad (refuse_open Error.resource_open (mismatch keep (ground arith)))
        | inr good ↦
            rw good
              (elim (Bool-cases
                (has_excl mode && is_nonempty (k.resource_memory res).descriptors_ptrs)) [
                  | inl used ↦ rw used (
                      refuse_open Error.resource_no_excl (
                        exclusive keep (ground arith) (ground arith) (ground arith)
                          (nonempty_ne (k.resource_memory res).descriptors_ptrs (ground arith))))
                  | inr free ↦
                      let (d, b, got, d_ne, out, held_d) =
                        obtained k.descriptor_allocator live held some in
                      let (g, c, got', g_ne, out', held_g) =
                        obtained k.descriptor_ptr_allocator links held' some' in
                      rw (free) (
                        rw (alloc_run k res d g b c on d_ne g_ne got) (
                          rw (==_ne d null d_ne) (
                            rw (attach_run k res d g b c on d_ne g_ne got') (
                              returns (
                                inr (
                                  opened-Opened k res d g kind mode b c live links keep
                                    (ground arith) (ground arith)
                                    (not_alone (k.resource_memory res).descriptors_ptrs free) got
                                    got' out out' held_d held_g))))))
                ])
      ]

-- `internal_openResource` by a running process, where the resource with the given id, which the scan
-- finds, is there or need not be created: it is refused, with a result for each reason and no other
-- change, exactly if it was to be created, if there is none or it has another type, or if it is to be
-- opened alone and is open already; otherwise, where none of this holds, the caller has a new descriptor, the last in its list, with
-- the next number, which is the result, and a new link to the descriptor is the last of the
-- resource's. The live descriptors and links are known, and neither pool is exhausted.
pub internal_open_resource-Opened :
    (k : Kernel) (res : Ptr) (live links : List Ptr)
    → k.running_pcb ≢ null
    → resource_by_id k.resource_memory k.resources_list (to_int (argument k 0)) ≡ res
    → (has_create (to_int (argument k 2)) ≡ false) ⊎ (res ≢ null)
    → Holds k.descriptor_allocator live
    → Holds k.descriptor_ptr_allocator links
    → Available k.descriptor_allocator
    → Available k.descriptor_ptr_allocator
    → Returns
        (λ _ l. OpenOutcome k res (to_int (argument k 1)) (to_int (argument k 2)) live links l)
        (internal_open_resource k)
unfolding internal_open_resource
internal_open_resource-Opened k res live links on at there held held' some some' =
    let kind = to_int (argument k 1) in
    let mode = to_int (argument k 2) in
    rw (current_run k on) (
      rw at (elim (Bool-cases (has_create mode)) [
        | inl create ↦ elim there [
          | inl keep ↦ absurd (ground arith)
          | inr ne ↦ rw (create) (
              rw (==_ne res null ne)
                (refuse_open k on res kind mode live links Error.resource_create (taken create ne)))
        ]
        | inr keep ↦
            rw keep (open_existing_cases k on res kind mode live links keep held held' some some')
      ]))
