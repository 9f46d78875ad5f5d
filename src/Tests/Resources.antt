-- ===== src/Tests/Resources.antt =====
-- Opening and closing a resource: process 30 runs, and the resource 400 has the id 7.
use so_oscilloscopio.Base.{
  ◌≡◌, refl, pos, [], ◌∷◌, arith, ◌==◌, if◌then◌else◌, to_int, to_ptr, inl, eqb_ℤ, true,
}
use so_oscilloscopio.Run.{◌>>◌}
use so_oscilloscopio.Run.Returns.{Returns}
use so_oscilloscopio.PoolAllocator.{get_block}
use so_oscilloscopio.PoolAllocator.Live.{Holds}
use so_oscilloscopio.Kernel.{Kernel, argument}
use so_oscilloscopio.Resource.{resource_by_id}
use so_oscilloscopio.Syscall.BQueue.Fifo.{Available}
use so_oscilloscopio.Syscall.Resources.{internal_open_resource, internal_close_resource}
use so_oscilloscopio.Syscall.Resources.Open.{OpenOutcome, internal_open_resource-Opened}
use so_oscilloscopio.Syscall.Resources.Close.{HasDescriptor, Closed, internal_close_resource-Closed}
use so_oscilloscopio.Syscall.Resources.RoundTrip.{
  pass_result, IsOpen, Restored, internal_close_resource-Restored,
}
use so_oscilloscopio.Tests.Pools.{half_used, half_used-Holds}
use so_oscilloscopio.Tests.Queues.{kernel, process}
use so_oscilloscopio.Tests.Processes.{queue}

abbrev shared : Kernel
shared = record (kernel queue) {
  resources_list = 400 ∷ [];
  resource_memory = λ r. record { id = pos 7; kind = pos 0; descriptors_ptrs = 600 ∷ [] };
  descriptor_memory = λ d. record { pcb = 30; resource = 400; fd = 7; ptr = 600 };
  descriptor_ptr_memory = λ g. 500;
  pcb_memory = λ p. record process {
    descriptors = 500 ∷ [];
    last_fd = 8;
    syscall_args = λ i. if i == 0 then pos 7 else pos 0;
  };
}

descriptors-Holds : Holds (half_used 500 8) (500 ∷ [])
descriptors-Holds = half_used-Holds 500 8 (omega arith) (omega arith) (omega arith)

links-Holds : Holds (half_used 600 8) (600 ∷ [])
links-Holds = half_used-Holds 600 8 (omega arith) (omega arith) (omega arith)

descriptor_left : Available (half_used 500 8)
unfolding get_block
descriptor_left e = ground arith

link_left : Available (half_used 600 8)
unfolding get_block
link_left e = ground arith

shared_found :
    resource_by_id shared.resource_memory shared.resources_list (to_int (argument shared 0)) ≡ 400
unfolding resource_by_id to_int
shared_found = refl

internal_open_resource-Opened_example :
    Returns
      (λ _ l.
        OpenOutcome shared 400
          (to_int (argument shared 1))
          (to_int (argument shared 2))
          (500 ∷ [])
          (600 ∷ [])
          l)
      (internal_open_resource shared)
unfolding to_int to_ptr
internal_open_resource-Opened_example =
    internal_open_resource-Opened shared 400 (500 ∷ []) (600 ∷ []) (ground arith) shared_found
      (inl refl) descriptors-Holds links-Holds descriptor_left link_left

shared_fd : eqb_ℤ (pos 7) (to_int (argument shared 0)) ≡ true
unfolding to_int
shared_fd = refl

abbrev shared_descriptor : HasDescriptor shared
shared_descriptor = record {
  descriptor = 500;
  before = [];
  after = [];
  descriptors = refl;
  none_sooner = tt;
  has_fd = shared_fd;
  links_before = [];
  links_after = [];
  joined_to = refl;
  once = refl;
  live = 500 ∷ [];
  holds = descriptors-Holds;
  live_distinct = (refl, tt);
  held = refl;
  links = 600 ∷ [];
  links_held = links-Holds;
  links_distinct = (refl, tt);
  link_held = refl;
}

internal_close_resource-Closed_example :
    Returns (λ _ l. Closed shared shared_descriptor l) (internal_close_resource shared)
internal_close_resource-Closed_example =
    internal_close_resource-Closed shared (ground arith) shared_descriptor

shared-IsOpen : IsOpen shared 400 (500 ∷ []) (600 ∷ [])
shared-IsOpen = record {
  holds = descriptors-Holds;
  distinct = (refl, tt);
  owned = λ d i. i;
  numbered = λ d i. omega arith;
  links_held = links-Holds;
  links_distinct = (refl, tt);
  links_owned = λ g i. i;
  last_fd = omega arith;
}

internal_close_resource-Restored_example :
    Returns
      (λ _ l. Restored shared 400 l)
      ((do internal_open_resource; pass_result; internal_close_resource) shared)
unfolding to_int to_ptr
internal_close_resource-Restored_example =
    internal_close_resource-Restored shared 400 (500 ∷ []) (600 ∷ []) (ground arith) shared_found
      (ground arith) refl refl refl shared-IsOpen descriptor_left link_left
