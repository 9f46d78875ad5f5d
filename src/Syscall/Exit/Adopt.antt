-- ===== src/Syscall/Exit/Adopt.antt =====
-- The loop of `internal_exit` that gives the children of the process to the first one.
use mathlib.Core.List.{append_assoc, append-nil}
use so_oscilloscopio.Base.{
  ℕ, suc, ◌≡◌, refl, sym, ap, ◌∙◌, ◌≢◌, List, [], ◌∷◌, ◌++◌, arith, ◌==◌, ◌∈◌, length, Bool-cases,
  inl, inr, mem-head, mem-right,
}
use so_oscilloscopio.Run.{ok, ◌>>◌}
use so_oscilloscopio.Run.Returns
use so_oscilloscopio.Run.Returns.{Returns, returns}
use so_oscilloscopio.LinkedList.{Ptr, null}
use so_oscilloscopio.Kernel.{Kernel, Pcb, set_pcb, update}
use so_oscilloscopio.Kernel.Effects.{change_pcb_run, update_self, update_ne, update_field}
use so_oscilloscopio.Syscall.Exit.Same.{
  SameProcess, SameProcess-refl, SameProcess-trans, SameProcess-update,
}
use so_oscilloscopio.Syscall.Exit.{adopt, adopt_children}

-- The state after `item` moves from the children of `self` to those of `init_pcb`.
abbrev moved : Kernel → (self item : Ptr) → List Ptr → Kernel
moved k self item rest =
    let k1 = set_pcb self (record (k.pcb_memory self) { children = rest }) k in
    let v = k1.pcb_memory k.init_pcb in
    let k2 = set_pcb k.init_pcb (record v { children = v.children ++ item ∷ [] }) k1 in
    let child = k.pcb_ptr_memory item in
    set_pcb child (record (k2.pcb_memory child) { parent = k.init_pcb }) k2

module _ (k : Kernel) (self item : Ptr) (rest : List Ptr) (self_ne : self ≢ null)
    (init_ne : k.init_pcb ≢ null) (child_ne : k.pcb_ptr_memory item ≢ null) where
  adopt_run : adopt self item rest k ≡ ok tt (moved k self item rest)
  unfolding adopt
  adopt_run =
      let k1 = set_pcb self (record (k.pcb_memory self) { children = rest }) k in
      let v = k1.pcb_memory k.init_pcb in
      let k2 = set_pcb k.init_pcb (record v { children = v.children ++ item ∷ [] }) k1 in
      rw (change_pcb_run k self _ self_ne) (
        rw (change_pcb_run k1 k.init_pcb _ init_ne)
          (rw (change_pcb_run k2 (k.pcb_ptr_memory item) _ child_ne)))

-- What the loop has done once `items` are moved from `self` to `init_pcb`.
pub record Adopted (k : Kernel) (self : Ptr) (items : List Ptr) (l : Kernel) : Type 0 where
  pub none_left : (l.pcb_memory self).children ≡ []
  pub received : (l.pcb_memory k.init_pcb).children ≡ (k.pcb_memory k.init_pcb).children ++ items
  pub parents :
      (item : Ptr) → item ∈ items → (l.pcb_memory (k.pcb_ptr_memory item)).parent ≡ k.init_pcb
  pub kept : (p : Ptr) → (k.pcb_memory p).parent ≡ k.init_pcb → (l.pcb_memory p).parent ≡ k.init_pcb
  pub same : (p : Ptr) → SameProcess (k.pcb_memory p) (l.pcb_memory p)
  pub other_parents :
      (p : Ptr)
      → ((item : Ptr) → item ∈ items → k.pcb_ptr_memory item ≢ p)
      → (l.pcb_memory p).parent ≡ (k.pcb_memory p).parent
  pub rest : l ≡ record k { pcb_memory = l.pcb_memory }

module _ (k : Kernel) (self item : Ptr) (rest : List Ptr) where
  abbrev without : Pcb
  without = record (k.pcb_memory self) { children = rest }

  abbrev memory1 : Ptr → Pcb
  memory1 = update k.pcb_memory self without

  abbrev with_item : Pcb
  with_item = record (memory1 k.init_pcb) { children = (memory1 k.init_pcb).children ++ item ∷ [] }

  abbrev memory2 : Ptr → Pcb
  memory2 = update memory1 k.init_pcb with_item

  abbrev adopted : Pcb
  adopted = record (memory2 (k.pcb_ptr_memory item)) { parent = k.init_pcb }

  module _ (apart : self ≢ k.init_pcb) where
    moved_caller : ((moved k self item rest).pcb_memory self).children ≡ rest
    moved_caller =
        update_field (λ (v : Pcb). v.children) memory2 (k.pcb_ptr_memory item) adopted self refl
        ∙ ap (λ (v : Pcb). v.children) (update_ne memory1 k.init_pcb with_item self apart)
        ∙ ap (λ (v : Pcb). v.children) (update_self k.pcb_memory self without)

    moved_init :
        ((moved k self item rest).pcb_memory k.init_pcb).children
        ≡ (k.pcb_memory k.init_pcb).children ++ item ∷ []
    moved_init =
        update_field (λ (v : Pcb). v.children) memory2 (k.pcb_ptr_memory item) adopted k.init_pcb
          refl
        ∙ ap (λ (v : Pcb). v.children) (update_self memory1 k.init_pcb with_item)
        ∙ ap (λ (v : Pcb). v.children ++ item ∷ [])
            (update_ne k.pcb_memory self without k.init_pcb λ e. apart (sym e))

  moved_parent : ((moved k self item rest).pcb_memory (k.pcb_ptr_memory item)).parent ≡ k.init_pcb
  moved_parent = ap (λ (v : Pcb). v.parent) (update_self memory2 (k.pcb_ptr_memory item) adopted)

  -- A parent that is `init_pcb` remains so.
  moved_kept :
      (p : Ptr)
      → (k.pcb_memory p).parent ≡ k.init_pcb
      → ((moved k self item rest).pcb_memory p).parent ≡ k.init_pcb
  moved_kept p e = elim (Bool-cases (p == k.pcb_ptr_memory item)) [
    | inl hit ↦ let same : p ≡ k.pcb_ptr_memory item = ground arith in rw same moved_parent
    | inr miss ↦
        ap (λ (v : Pcb). v.parent)
          (update_ne memory2 (k.pcb_ptr_memory item) adopted p (ground arith))
        ∙ update_field (λ (v : Pcb). v.parent) memory1 k.init_pcb with_item p refl
        ∙ update_field (λ (v : Pcb). v.parent) k.pcb_memory self without p refl
        ∙ e
  ]

module _ (k : Kernel) (self item : Ptr) (rest : List Ptr) (p : Ptr) where
  abbrev moved1 : Ptr → Pcb
  moved1 = update k.pcb_memory self (record (k.pcb_memory self) { children = rest })

  abbrev moved2 : Ptr → Pcb
  moved2 =
      update moved1 k.init_pcb
        (record (moved1 k.init_pcb) { children = (moved1 k.init_pcb).children ++ item ∷ [] })

  moved_same : SameProcess (k.pcb_memory p) ((moved k self item rest).pcb_memory p)
  moved_same =
      let child = k.pcb_ptr_memory item in
      SameProcess-trans (k.pcb_memory p) (moved1 p) ((moved k self item rest).pcb_memory p)
        (SameProcess-update k.pcb_memory self _ p (record {
          pid = refl;
          status = refl;
          return_value = refl;
          syscall_num = refl;
          syscall_args = refl;
        }))
        (SameProcess-trans (moved1 p) (moved2 p) ((moved k self item rest).pcb_memory p)
          (SameProcess-update moved1 k.init_pcb _ p (record {
            pid = refl;
            status = refl;
            return_value = refl;
            syscall_num = refl;
            syscall_args = refl;
          }))
          (SameProcess-update moved2 child _ p (record {
            pid = refl;
            status = refl;
            return_value = refl;
            syscall_num = refl;
            syscall_args = refl;
          })))

  moved_other :
      p ≢ k.pcb_ptr_memory item
      → ((moved k self item rest).pcb_memory p).parent ≡ (k.pcb_memory p).parent
  moved_other ne =
      ap (λ (v : Pcb). v.parent) (update_ne moved2 (k.pcb_ptr_memory item) _ p ne)
      ∙ update_field (λ (v : Pcb). v.parent) moved1 k.init_pcb _ p refl
      ∙ update_field (λ (v : Pcb). v.parent) k.pcb_memory self _ p refl

adopt_children-zero :
    (k : Kernel) (self : Ptr) (rounds : ℕ)
    → (k.pcb_memory self).children ≡ []
    → adopt_children (suc rounds) self k ≡ ok tt k
unfolding adopt_children
adopt_children-zero k self rounds e = ground (arith, e)

adopt_children-suc :
    (k : Kernel) (self : Ptr) (rounds : ℕ) (item : Ptr) (rest : List Ptr)
    → (k.pcb_memory self).children ≡ item ∷ rest
    → adopt_children (suc rounds) self k ≡ (do adopt self item rest; adopt_children rounds self) k
unfolding adopt_children
adopt_children-suc k self rounds item rest e = ground (arith, e)

-- A process other than `init_pcb` that leaves the loop over its children within one round more than
-- it has children, has given them all to `init_pcb`: they stand in their order behind the children
-- that `init_pcb` had, and it is their parent.
pub adopt_children-Adopted :
    (k : Kernel) (self : Ptr) (items : List Ptr)
    → self ≢ null
    → k.init_pcb ≢ null
    → self ≢ k.init_pcb
    → (k.pcb_memory self).children ≡ items
    → ((item : Ptr) → item ∈ items → k.pcb_ptr_memory item ≢ null)
    → Returns (λ _ l. Adopted k self items l) (adopt_children (suc (length items)) self k)
adopt_children-Adopted k self [] self_ne init_ne apart e children_ne =
    rw (adopt_children-zero k self 0 e) (
      returns (record {
        none_left = e;
        received = sym (append-nil _);
        parents = λ item i. cc;
        kept = λ p e. e;
        same = λ p. SameProcess-refl (k.pcb_memory p);
        other_parents = λ p out. refl;
        rest = refl;
      }))
adopt_children-Adopted k self (item ∷ rest) self_ne init_ne apart e children_ne =
    let l = moved k self item rest in
    let first_ne = children_ne item (mem-head item rest) in
    let run =
      adopt_children-Adopted l self rest self_ne init_ne apart (moved_caller k self item rest apart)
        (λ p i. children_ne p (mem-right p (item ∷ []) rest i)) in
    rw
      (
        adopt_children-suc k self (suc (length rest)) item rest e,
        adopt_run k self item rest self_ne init_ne first_ne,
      )
      (Returns.weaken run λ _ m after. record {
        none_left = after.none_left;
        received =
            after.received
            ∙ ap (λ c. c ++ rest) (moved_init k self item rest apart)
            ∙ append_assoc (k.pcb_memory k.init_pcb).children (item ∷ []) rest;
        parents = λ p i. elim (Bool-cases (p == item)) [
          | inl hit ↦
              let same : p ≡ item = ground arith in
              rw same (after.kept (k.pcb_ptr_memory item) (moved_parent k self item rest))
          | inr miss ↦ after.parents p (ground arith)
        ];
        kept = λ p e. after.kept p (moved_kept k self item rest p e);
        same = λ p.
            SameProcess-trans (k.pcb_memory p) (l.pcb_memory p) (m.pcb_memory p)
              (moved_same k self item rest p) (after.same p);
        other_parents = λ p out.
            after.other_parents p (λ i j. out i (mem-right i (item ∷ []) rest j))
            ∙ moved_other k self item rest p (λ e. out item (mem-head item rest) (sym e));
        rest = after.rest;
      })
