-- ===== src/LinkedList.antt =====
-- linked_list.c: intrusive doubly linked lists. A `ListItem` lives at an address of the memory; a
-- `ListHead` is passed in and returned. Reading or writing through the null pointer is a fault.
pub mod Chain
pub mod Detach
pub mod Insert
pub mod Sequence
use so_oscilloscopio.Base.{
  ℕ, zero, suc, ℤ, pos, ◌+ℤ◌, ◌-ℤ◌, Bool, true, false, not, ◌||◌, ◌==◌, if◌then◌else◌,
}
use so_oscilloscopio.Run.{Run, ok, fault, out_of_fuel, Cmd, pure, ◌>>=◌, ◌>>◌}

abbrev pub Ptr : Type 0
Ptr = ℕ

abbrev pub null : Ptr
null = 0

pub record ListItem : Type 0 where
  pub prev : Ptr
  pub next : Ptr

pub record ListHead : Type 0 where
  pub first : Ptr
  pub last : Ptr
  pub size : ℤ

abbrev pub Memory : Type 0
Memory = Ptr → ListItem

unfoldable pub write : Memory → Ptr → ListItem → Memory
write m p c a = if a == p then c else m a

-- `*p`.
unfoldable pub load : Ptr → Cmd Memory ListItem
load p m = if p == null then fault else ok (m p) m

-- `p->prev = q` and `p->next = q`.
unfoldable pub set_prev : Ptr → Ptr → Cmd Memory (Unit {0})
unfolding load
set_prev p q m = if p == null then fault else ok tt (write m p (record (m p) { prev = q }))

unfoldable pub set_next : Ptr → Ptr → Cmd Memory (Unit {0})
set_next p q m = if p == null then fault else ok tt (write m p (record (m p) { next = q }))

unfoldable pub init : ListHead
init = record { first = null; last = null; size = pos 0 }

-- The scan of `List_find` and the rounds that it is given.
unfoldable pub find_loop : ℕ → (aux item : Ptr) → Cmd Memory Ptr
find_loop zero aux item m = out_of_fuel
find_loop (suc k) aux item m = elim (aux == null) [
  | true ↦ ok null m
  | false ↦ elim (aux == item) [ true ↦ ok item m | false ↦ find_loop k (m aux).next item m ]
]

unfoldable pub find : ℕ → ListHead → (item : Ptr) → Cmd Memory Ptr
unfolding find_loop
find rounds head item = find_loop rounds head.first item

-- `if (prev) { item->prev = prev; prev->next = item; }`
unfoldable pub link_prev : (prev item : Ptr) → Cmd Memory (Unit {0})
unfolding set_prev set_next
link_prev prev item = if prev == null then pure tt else do set_prev item prev; set_next prev item

-- `if (next) { item->next = next; next->prev = item; }`
unfoldable pub link_next : (next item : Ptr) → Cmd Memory (Unit {0})
unfolding set_prev set_next
link_next next item = if next == null then pure tt else do set_next item next; set_prev next item

-- `prev ? prev->next : head->first`
unfoldable pub successor : ListHead → (prev : Ptr) → Cmd Memory Ptr
unfolding load
successor head prev =
    if prev == null then pure head.first else do before ← load prev; pure before.next

unfoldable pub insert : ListHead → (prev item : Ptr) → Cmd Memory (ListHead × Ptr)
unfolding load successor link_prev link_next
insert head prev item = do
  self ← load item
  if not (self.next == null) || not (self.prev == null) then pure (head, null) else do
    next ← successor head prev
    link_prev prev item
    link_next next item
    pure (
      record {
        first = if prev == null then item else head.first;
        last = if next == null then item else head.last;
        size = head.size +ℤ pos 1;
      },
      item,
    )

-- `if (prev) prev->next = next;` and `if (next) next->prev = prev;`
unfoldable pub skip_prev : (prev next : Ptr) → Cmd Memory (Unit {0})
unfolding set_next
skip_prev prev next = if prev == null then pure tt else set_next prev next

unfoldable pub skip_next : (prev next : Ptr) → Cmd Memory (Unit {0})
unfolding set_prev
skip_next prev next = if next == null then pure tt else set_prev next prev

unfoldable pub detach : ListHead → (item : Ptr) → Cmd Memory (ListHead × Ptr)
unfolding load set_prev set_next skip_prev skip_next
detach head item = do
  self ← load item
  skip_prev self.prev self.next
  skip_next self.prev self.next
  set_prev item null
  set_next item null
  pure (
    record {
      first = if item == head.first then self.next else head.first;
      last = if item == head.last then self.prev else head.last;
      size = head.size -ℤ pos 1;
    },
    item,
  )

unfoldable pub pop_front : ListHead → Cmd Memory (ListHead × Ptr)
pop_front head = if head.first == null then pure (head, null) else detach head head.first

unfoldable pub push_back : ListHead → (item : Ptr) → Cmd Memory ListHead
push_back head item = do (head', _) ← insert head head.last item; pure head'

unfoldable pub push_front : ListHead → (item : Ptr) → Cmd Memory ListHead
push_front head item = do (head', _) ← insert head null item; pure head'
