-- ===== src/Syscall/Resources.antt =====
-- disastrOS_open_resource.c, disastrOS_close_resource.c and disastrOS_destroy_resource.c.
pub mod Close
pub mod Open
pub mod RoundTrip
use so_oscilloscopio.Base.{
  ◌+◌, ◌/◌, ◌%◌, ℤ, pos, to_int, to_ptr, eqb_ℤ, Bool, true, false, not, ◌&&◌, ◌||◌, mem, erase,
  List, [], ◌∷◌, ◌++◌, ◌==◌, if◌then◌else◌,
}
use so_oscilloscopio.Run.{Cmd, pure, crash, get, modify, check, ◌>>=◌, ◌>>◌}
use so_oscilloscopio.Constants.Error
use so_oscilloscopio.LinkedList.{Ptr, null}
use so_oscilloscopio.Kernel.{Kernel, Resource, update, change_pcb, current, set_retvalue, argument}
use so_oscilloscopio.Resource.{resource_alloc, resource_free, resource_by_id}
use so_oscilloscopio.Descriptor.{
  descriptor_alloc, descriptor_free, descriptor_by_fd, descriptor_ptr_alloc, descriptor_ptr_free,
}

-- `open_mode & DSOS_CREATE` and `open_mode & DSOS_EXCL`: bits 0 and 2.
abbrev pub has_create : ℤ → Bool
has_create open_mode = to_ptr open_mode % 2 == 1

abbrev pub has_excl : ℤ → Bool
has_excl open_mode = to_ptr open_mode / 4 % 2 == 1

unfoldable pub change_resource : Ptr → (Resource → Resource) → Cmd Kernel (Unit {0})
change_resource r f =
    modify λ k. record k { resource_memory = update k.resource_memory r (f (k.resource_memory r)) }

abbrev pub with_ptrs : List Ptr → Resource → Resource
with_ptrs l v = record v { descriptors_ptrs = l }

-- What is left once the descriptor is there: its list item, and the two lists that are joined.
-- `List_insert` of the null pointer is a fault.
unfoldable pub attach_descriptor : (self res des : Ptr) → Cmd Kernel (Unit {0})
unfolding change_resource
attach_descriptor self res des = do
  change_pcb self λ v. record v { last_fd = v.last_fd + 1 }
  desptr ← descriptor_ptr_alloc des
  change_pcb self λ v. record v { descriptors = v.descriptors ++ des ∷ [] }
  modify λ k. record k {
    descriptor_memory =
        update k.descriptor_memory des (record (k.descriptor_memory des) { ptr = desptr });
  }
  if desptr == null then crash else do
    change_resource res λ v. with_ptrs (v.descriptors_ptrs ++ desptr ∷ []) v
    k ← get
    set_retvalue (pos (k.descriptor_memory des).fd)

abbrev pub is_nonempty : List Ptr → Bool
is_nonempty [] = false
is_nonempty (x ∷ xs) = true

-- From the point at which "we should have the resource".
unfoldable pub open_existing : (self res : Ptr) (kind open_mode : ℤ) → Cmd Kernel (Unit {0})
unfolding attach_descriptor
open_existing self res kind open_mode = do
  k ← get
  if res == null || not (eqb_ℤ (k.resource_memory res).kind kind)
      then set_retvalue Error.resource_open
      else if has_excl open_mode && is_nonempty (k.resource_memory res).descriptors_ptrs
      then set_retvalue Error.resource_no_excl
      else do
        des ← descriptor_alloc (k.pcb_memory self).last_fd res self
        if des == null then set_retvalue Error.resource_no_fd else attach_descriptor self res des

-- The new resource joins the list; inserting the null pointer is a fault.
unfoldable pub create_resource : (id kind : ℤ) → Cmd Kernel Ptr
create_resource id kind = do
  res ← resource_alloc id kind
  if res == null
      then crash
      else do modify λ k. record k { resources_list = k.resources_list ++ res ∷ [] }; pure res

unfoldable pub internal_open_resource : Cmd Kernel (Unit {0})
unfolding open_existing create_resource
internal_open_resource = do
  self ← current
  k ← get
  let id = to_int (argument k 0)
  let kind = to_int (argument k 1)
  let open_mode = to_int (argument k 2)
  let res = resource_by_id k.resource_memory k.resources_list id
  if not (has_create open_mode)
      then open_existing self res kind open_mode
      else if not (res == null)
      then set_retvalue Error.resource_create
      else do res' ← create_resource id kind; open_existing self res' kind open_mode

unfoldable pub internal_close_resource : Cmd Kernel (Unit {0})
unfolding change_resource
internal_close_resource = do
  self ← current
  k ← get
  let des =
      descriptor_by_fd k.descriptor_memory (k.pcb_memory self).descriptors (to_int (argument k 0))
  if des == null then set_retvalue Error.resource_close else do
    change_pcb self λ v. record v { descriptors = erase des v.descriptors }
    let res = (k.descriptor_memory des).resource
    let desptr = (k.descriptor_memory des).ptr
    check (mem desptr (k.resource_memory res).descriptors_ptrs)
    change_resource res λ v. with_ptrs (erase desptr v.descriptors_ptrs) v
    descriptor_free des
    descriptor_ptr_free desptr
    set_retvalue (pos 0)

unfoldable pub internal_destroy_resource : Cmd Kernel (Unit {0})
internal_destroy_resource = do
  current
  k ← get
  let res = resource_by_id k.resource_memory k.resources_list (to_int (argument k 0))
  if res == null
      then set_retvalue Error.resource_close
      else if is_nonempty (k.resource_memory res).descriptors_ptrs
      then set_retvalue Error.resource_in_use
      else do
        modify λ k. record k { resources_list = erase res k.resources_list }
        resource_free res
        set_retvalue (pos 0)
