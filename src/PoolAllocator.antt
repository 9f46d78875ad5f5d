-- ===== src/PoolAllocator.antt =====
-- pool_allocator.c: a pool of blocks of one size, whose free blocks are linked by an array of
-- indices behind the blocks. Here the pool's memory is the address of its buffer and the content of
-- that array; an access outside the array is a fault, as is a division by a block size of 0.
pub mod Free
pub mod Extent
pub mod Get
pub mod Release
pub mod Init
pub mod Live
pub mod Frees
use so_oscilloscopio.Base.{
  ℕ, zero, suc, ◌+◌, ◌-◌, ◌*◌, ◌/◌, ◌%◌, ℤ, pos, negsuc, ◌+ℤ◌, ◌-ℤ◌, sub_ℕ, ltb_ℤ, leb_ℤ, eqb_ℤ,
  to_int, Bool, true, false, not, ◌||◌, Option, none, some, List, [], ◌∷◌, ◌==◌, ltb, if◌then◌else◌,
  length, get_or, set,
}
use so_oscilloscopio.Run.{Run, ok, fault, Cmd}

pub data PoolAllocatorResult : Type 0 where
  success not_enough_memory unaligned_free out_of_range double_free : PoolAllocatorResult

-- The numbers of the C enumeration.
abbrev pub code : PoolAllocatorResult → ℤ
code success = pos 0
code not_enough_memory = negsuc 0
code unaligned_free = negsuc 1
code out_of_range = negsuc 2
code double_free = negsuc 3

pub record PoolAllocator : Type 0 where
  pub buffer : ℕ
  pub free_list : List ℤ
  pub buffer_size : ℕ
  pub size : ℤ
  pub size_max : ℕ
  pub item_size : ℕ
  pub first_idx : ℤ

abbrev pub null_idx : ℤ
null_idx = negsuc 0

abbrev pub detached_idx : ℤ
detached_idx = negsuc 1

abbrev pub sizeof_int : ℕ
sizeof_int = 4

-- `for (; i < size - 1; ++i) free_list[i] = i + 1;` with the rounds that are left.
unfoldable pub link_free : ℕ → ℕ → List ℤ → List ℤ
link_free zero i l = l
link_free (suc k) i l = link_free k (i + 1) (set l i (pos (i + 1)))

-- `words` is what the array of indices held before, `num_items` of them.
unfoldable pub init :
    (item_size num_items memory_block memory_size : ℕ)
    → (words : List ℤ) → Cmd PoolAllocator PoolAllocatorResult
unfolding link_free
init item_size num_items memory_block memory_size words a =
    if ltb_ℤ (pos memory_size) (to_int (pos (num_items * (item_size + sizeof_int))))
    then ok not_enough_memory a
    else if ltb 0 num_items
    then ok success (record {
      buffer = memory_block;
      free_list = set (link_free (num_items - 1) 0 words) (num_items - 1) null_idx;
      buffer_size = item_size * num_items;
      size = pos num_items;
      size_max = num_items;
      item_size = item_size;
      first_idx = pos 0;
    })
    else fault

-- `l[i]` and `l[i] = v` at an index of type `int`.
abbrev pub read : List ℤ → ℤ → Option ℤ
read l (pos i) = if ltb i (length l) then some (get_or l i null_idx) else none
read l (negsuc i) = none

abbrev pub store : List ℤ → ℤ → ℤ → List ℤ
store l (pos i) v = set l i v
store l (negsuc i) v = l

-- The address of block `i`.
abbrev pub address : PoolAllocator → ℕ → ℕ
address a i = a.buffer + i * a.item_size

abbrev pub address_of : PoolAllocator → ℤ → ℕ
address_of a (pos i) = address a i
address_of a (negsuc i) = a.buffer - suc i * a.item_size

unfoldable pub get_block : Cmd PoolAllocator ℕ
get_block a = if eqb_ℤ a.first_idx null_idx then ok 0 a else elim (read a.free_list a.first_idx) [
  | none ↦ fault
  | some next ↦ ok (address_of a a.first_idx) (record a {
    first_idx = next;
    size = a.size -ℤ pos 1;
    free_list = store a.free_list a.first_idx detached_idx;
  })
]

-- C's `/` and the test of its `%` on an `int` and a positive divisor: both truncate towards 0.
abbrev pub quotient : ℤ → ℕ → ℤ
quotient (pos n) d = pos (n / d)
quotient (negsuc n) d = sub_ℕ 0 (suc n / d)

abbrev pub leaves_rest : ℤ → ℕ → Bool
leaves_rest (pos n) d = not (n % d == 0)
leaves_rest (negsuc n) d = not (suc n % d == 0)

-- `int offset = block - a->buffer`.
unfoldable pub offset : PoolAllocator → ℕ → ℤ
offset a block = to_int (pos block -ℤ pos a.buffer)

-- What remains of `PoolAllocator_releaseBlock` once the index is known.
unfoldable pub release_index : ℤ → Cmd PoolAllocator PoolAllocatorResult
release_index idx a =
    if ltb_ℤ idx (pos 0) || leb_ℤ (pos a.size_max) idx
    then ok out_of_range a
    else elim (read a.free_list idx) [
      | none ↦ fault
      | some link ↦
          if eqb_ℤ link detached_idx
          then ok success (record a {
            free_list = store a.free_list idx a.first_idx;
            first_idx = idx;
            size = a.size +ℤ pos 1;
          })
          else ok double_free a
    ]

unfoldable pub release_block : ℕ → Cmd PoolAllocator PoolAllocatorResult
unfolding offset
release_block block a =
    if a.item_size == 0
    then fault
    else if leaves_rest (offset a block) a.item_size
    then ok unaligned_free a
    else release_index (quotient (offset a block) a.item_size) a
