-- ===== src/Kernel/Effects.antt =====
-- What the operations on process lists do to the kernel's state, as equations.
use so_oscilloscopio.Base.{
  Bool-cases, inl, inr, ◌==◌, ==_refl, ==_ne, ◌≡◌, ◌≢◌, List, [], ◌∷◌, ◌++◌, arith, false, ◌∉◌, ℤ,
}
use so_oscilloscopio.Run.{ok}
use so_oscilloscopio.LinkedList.{Ptr, null}
use so_oscilloscopio.Kernel.{
  Kernel, Pcb, running, update, set_pcb, with_status, with_retvalue, change_pcb, set_retvalue,
  current,
}
use so_oscilloscopio.Kernel.Lists.{is_listed, insert_ready, insert_waiting, run_next}

-- The state in which `next`, the first of the ready processes, runs.
abbrev pub switched : Kernel → List Ptr → Kernel
switched k [] = record k { running_pcb = null }
switched k (next ∷ others) =
    set_pcb next (with_status running (k.pcb_memory next))
      (record k { ready_list = others; running_pcb = next })

module _ {A : Type 0} (f : Ptr → A) (p : Ptr) (v : A) where
  pub update_self : update f p v p ≡ v
  update_self = rw (==_refl p)

  pub update_ne : (q : Ptr) → q ≢ p → update f p v q ≡ f q
  update_ne q ne = rw (==_ne q p ne)

-- A field that the new value leaves as it is.
pub update_field :
    {A B : Type 0} (field : A → B) (f : Ptr → A) (p : Ptr) (v : A) (q : Ptr)
    → field v ≡ field (f p)
    → field (update f p v q) ≡ field (f q)
update_field field f p v q e = elim (Bool-cases (q == p)) [
  | inl hit ↦ rw hit (let same : q ≡ p = ground arith in rw same e)
  | inr miss ↦ rw miss
]

module _ (k : Kernel) where
  pub change_pcb_run :
      (p : Ptr) (f : Pcb → Pcb)
      → p ≢ null
      → change_pcb p f k ≡ ok tt (set_pcb p (f (k.pcb_memory p)) k)
  unfolding change_pcb
  change_pcb_run p f ne = ground arith

  pub current_run : k.running_pcb ≢ null → current k ≡ ok k.running_pcb k
  unfolding current
  current_run ne = ground arith

  pub set_retvalue_run :
      (r : ℤ)
      → k.running_pcb ≢ null
      → set_retvalue r k
        ≡ ok tt (set_pcb k.running_pcb (with_retvalue r (k.pcb_memory k.running_pcb)) k)
  unfolding set_retvalue
  set_retvalue_run r ne = ground arith

  pub insert_ready_run :
      (p : Ptr)
      → p ≢ null
      → is_listed k p ≡ false
      → insert_ready p k ≡ ok tt (record k { ready_list = k.ready_list ++ p ∷ [] })
  unfolding insert_ready
  insert_ready_run p ne free = ground arith

  pub insert_waiting_run :
      (p : Ptr)
      → p ≢ null
      → is_listed k p ≡ false
      → insert_waiting p k ≡ ok tt (record k { waiting_list = k.waiting_list ++ p ∷ [] })
  unfolding insert_waiting
  insert_waiting_run p ne free = ground arith

  pub run_next_run : null ∉ k.ready_list → run_next k ≡ ok tt (switched k k.ready_list)
  unfolding run_next change_pcb
  run_next_run ne = ground arith
