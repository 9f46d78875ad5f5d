-- ===== src/Tests/Lists.antt =====
-- linked_list.c on a list of two items.
use so_oscilloscopio.Base.{◌≡◌, refl, pos, List, [], ◌∷◌, ◌++◌, arith, ◌==◌, if◌then◌else◌, erase}
use so_oscilloscopio.Run.{ok}
use so_oscilloscopio.Run.Returns.{Returns, returns}
use so_oscilloscopio.LinkedList.{
  Ptr, null, ListItem, ListHead, Memory, write, insert, detach, find, pop_front, push_back,
  push_front,
}
use so_oscilloscopio.LinkedList.Chain.{IsList, SameOutside}
use so_oscilloscopio.LinkedList.Insert.{insert_lem}
use so_oscilloscopio.LinkedList.Sequence.{
  find-mem, detach-erase, push_back-append, push_front-cons, pop_front-first,
}

abbrev item : Ptr → Ptr → ListItem
item p n = record { prev = p; next = n }

abbrev memory : Memory
memory a = if a == 10 then item null 20 else if a == 20 then item 10 null else item null null

abbrev head : ListHead
head = record { first = 10; last = 20; size = pos 2 }

abbrev both : List Ptr
both = 10 ∷ 20 ∷ []

both-IsList : IsList memory head both
both-IsList = record {
  chain = (ground arith, refl, refl, (ground arith, refl, refl, tt));
  distinct = (refl, (refl, tt));
  first = refl;
  last = refl;
  size = refl;
}

-- An item put between the two.
insert_middle :
    Returns
      (λ (h, r) m. (h.size ≡ pos 3) × ((m 10).next ≡ 15) × ((m 20).prev ≡ 15))
      (insert head 10 15 memory)
unfolding insert write
insert_middle = returns (refl, refl, refl)

insert_lem_example :
    Returns
      (λ (h, r) n.
        (r ≡ 15) × IsList n h (10 ∷ 15 ∷ 20 ∷ []) × SameOutside (10 ∷ 15 ∷ 20 ∷ []) memory n)
      (insert head 10 15 memory)
insert_lem_example =
    insert_lem memory head (10 ∷ []) (20 ∷ []) 15 both-IsList (ground arith) refl refl

find-mem_example : find 3 head 20 memory ≡ ok 20 memory
find-mem_example = find-mem memory head both both-IsList 3 20 (omega arith)

detach-erase_example :
    Returns
      (λ (h, r) n.
        (r ≡ 10) × IsList n h (erase 10 both) × (n 10 ≡ item null null) × SameOutside both memory n)
      (detach head 10 memory)
detach-erase_example = detach-erase memory head both both-IsList 10 refl

push_back-append_example :
    Returns
      (λ h n. IsList n h (both ++ 30 ∷ []) × SameOutside (both ++ 30 ∷ []) memory n)
      (push_back head 30 memory)
push_back-append_example = push_back-append memory head both both-IsList 30 (ground arith) refl refl

push_front-cons_example :
    Returns
      (λ h n. IsList n h (30 ∷ both) × SameOutside (30 ∷ both) memory n)
      (push_front head 30 memory)
push_front-cons_example = push_front-cons memory head both both-IsList 30 (ground arith) refl refl

pop_front-first_example :
    Returns
      (λ (h, r) n. (r ≡ 10) × IsList n h (20 ∷ []) × SameOutside both memory n)
      (pop_front head memory)
pop_front-first_example = pop_front-first memory head both both-IsList
