-- ===== src/Syscall/BQueue/FreeItems.antt =====
-- `BQ_free`: every item of the queue, and the queue itself, goes back to its pool.
use so_oscilloscopio.Base.{
  ◌≡◌, refl, ap, ◌∙◌, ◌≢◌, pos, List, [], ◌∷◌, arith, ◌∈◌, mem, ◌||◌, mem-head, mem-right, erase,
  mem-erase, Distinct, Distinct-erase, ne_of_mem,
}
use so_oscilloscopio.Run.{ok}
use so_oscilloscopio.Run.Returns
use so_oscilloscopio.Run.Returns.{Returns, returns}
use so_oscilloscopio.LinkedList.{Ptr}
use so_oscilloscopio.PoolAllocator.{PoolAllocator, PoolAllocatorResult, release_block}
use so_oscilloscopio.PoolAllocator.Frees.{Frees, release_block-Frees}
use so_oscilloscopio.Kernel.{Kernel, BlockingQueue, update}
use so_oscilloscopio.Kernel.Effects.{update_self, update_ne}
use so_oscilloscopio.BQueue.{free_items, assert_empty, bq_free}

-- The blocks that are left once those of a list are given back.
abbrev pub erase_all : List Ptr → List Ptr → List Ptr
erase_all [] live = live
erase_all (x ∷ xs) live = erase_all xs (erase x live)

-- The blocks that are free once those of a list are given back, the last of them first.
abbrev pub pushed : List Ptr → List Ptr → List Ptr
pushed [] dead = dead
pushed (x ∷ xs) dead = pushed xs (x ∷ dead)

pub mem-pushed : (p : Ptr) (xs dead : List Ptr) → mem p (pushed xs dead) ≡ (mem p xs || mem p dead)
mem-pushed p [] dead = refl
mem-pushed p (x ∷ xs) dead = ground (arith, mem-pushed p xs (x ∷ dead))

-- From `k` to `l` the queue `q` has lost its items, whose blocks are free then.
pub record Emptied (k : Kernel) (q : Ptr) (items live dead : List Ptr) (l : Kernel) : Type 0 where
  pub rest : l ≡ record k { bqitem_allocator = l.bqitem_allocator; bqueue_memory = l.bqueue_memory }
  pub queue : l.bqueue_memory q ≡ record (k.bqueue_memory q) { items = [] }
  pub others : (p : Ptr) → p ≢ q → l.bqueue_memory p ≡ k.bqueue_memory p
  pub freed : Frees l.bqitem_allocator (erase_all items live) (pushed items dead)

abbrev item_freed : Kernel → (q : Ptr) → List Ptr → PoolAllocator → Kernel
item_freed k q rest b = record k {
  bqueue_memory = update k.bqueue_memory q (record (k.bqueue_memory q) { items = rest });
  bqitem_allocator = b;
}

free_items_step :
    (k : Kernel) (q it : Ptr) (rest : List Ptr) (r : PoolAllocatorResult) (b : PoolAllocator)
    → release_block it k.bqitem_allocator ≡ ok r b
    → free_items q (it ∷ rest) k ≡ free_items q rest (item_freed k q rest b)
unfolding free_items
free_items_step k q it rest r b gave = rw gave

free_items-nil : (k : Kernel) (q : Ptr) → free_items q [] k ≡ ok tt k
unfolding free_items
free_items-nil k q = refl

pub free_items-Emptied :
    (k : Kernel) (q : Ptr) (items live dead : List Ptr)
    → (k.bqueue_memory q).items ≡ items
    → Frees k.bqitem_allocator live dead
    → Distinct live
    → Distinct items
    → ((p : Ptr) → p ∈ items → p ∈ live)
    → Returns (λ _ l. Emptied k q items live dead l) (free_items q items k)
free_items-Emptied k q [] live dead e frees d d' owned = rw (free_items-nil k q) (
    returns (record {
      rest = refl;
      queue = ap (λ l. record (k.bqueue_memory q) { items = l }) e;
      others = λ p ne. refl;
      freed = frees;
    }))
free_items-Emptied k q (it ∷ rest) live dead e frees d d' owned =
    let (r, b, gave, (_, held)) =
      Returns.result (
        release_block-Frees k.bqitem_allocator live dead frees it (owned it (mem-head it rest))
          d) in
    let k1 = item_freed k q rest b in
    let v = record (k.bqueue_memory q) { items = rest } in
    rw (free_items_step k q it rest r b gave) (
      Returns.weaken
        (free_items-Emptied k1 q rest (erase it live) (it ∷ dead)
          (ap (λ (v : BlockingQueue). v.items) (update_self k.bqueue_memory q v)) held
          (Distinct-erase it live d) d'.1
          (λ p i.
            let o = owned p (mem-right p (it ∷ []) rest i) in
            let ne = ne_of_mem it p rest d'.0 i in ground (arith, mem-erase p it live d)))
        λ _ l after. record {
          rest = after.rest;
          queue =
              after.queue
              ∙ ap (λ (v : BlockingQueue). record v { items = [] })
                  (update_self k.bqueue_memory q v);
          others = λ p ne. after.others p ne ∙ update_ne k.bqueue_memory q v p ne;
          freed = after.freed;
        })

-- The state after the emptied queue's block goes back, with the pool `b`.
abbrev pub queue_freed : Kernel → (q : Ptr) → PoolAllocator → Kernel
queue_freed k q b = record k {
  bqueue_memory = update k.bqueue_memory q (record (k.bqueue_memory q) { size = 0 });
  bq_allocator = b;
}

pub bq_free_rest :
    (k : Kernel) (q : Ptr) (l : Kernel) (r : PoolAllocatorResult) (b : PoolAllocator)
    → free_items q (k.bqueue_memory q).items k ≡ ok tt l
    → (l.bqueue_memory q).wait_getters ≡ []
    → (l.bqueue_memory q).wait_putters ≡ []
    → release_block q l.bq_allocator ≡ ok r b
    → bq_free q k ≡ ok (pos 0) (queue_freed l q b)
unfolding bq_free assert_empty
bq_free_rest k q l r b run getters putters gave =
    let v = record (l.bqueue_memory q) { size = 0 } in
    let at = update_self l.bqueue_memory q v in
    let getters' = ap (λ (v : BlockingQueue). v.wait_getters) at ∙ getters in
    let putters' = ap (λ (v : BlockingQueue). v.wait_putters) at ∙ putters in
    rw (run) (rw (getters') (rw (putters') (rw gave)))
