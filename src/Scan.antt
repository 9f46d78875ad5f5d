-- ===== src/Scan.antt =====
-- The scans of lists by a key, `PCB_byPID`, `PCBPtr_byPID`, `ResourceList_byId`,
-- `DescriptorList_byFd`, `BQ_byId` and the one of `internal_wait`, against one description.
use so_oscilloscopio.Base.{
  ℕ, ℤ, pos, eqb_ℤ, Bool, true, false, ◌&&◌, ◌||◌, ◌≡◌, refl, sym, ap, subst, ◌∙◌, inl, inr, List,
  [], ◌∷◌, ◌++◌, arith, ◌==◌, if◌then◌else◌, Bool-cases, ◌∉◌,
}
use so_oscilloscopio.LinkedList.{Ptr, null}
use so_oscilloscopio.Kernel.{Kernel, Pcb, BlockingQueue, Descriptor}
use so_oscilloscopio.Pcb.{pcb_by_pid, pcb_ptr_by_pid}
use so_oscilloscopio.Resource.{resource_by_id}
use so_oscilloscopio.Descriptor.{descriptor_by_fd}
use so_oscilloscopio.BQueue.{bq_by_id}
use so_oscilloscopio.Syscall.Wait.{find_zombie}

-- No item passes the test.
abbrev pub NoneOf : (Ptr → Bool) → List Ptr → Type 0
NoneOf test [] = Unit {0}
NoneOf test (x ∷ xs) = (test x ≡ false) × NoneOf test xs

-- The result is the first item that passes the test, or null if there is none.
pub data IsFirst (test : Ptr → Bool) (xs : List Ptr) : Ptr → Type 0 where
  missing : NoneOf test xs → IsFirst test xs null
  found :
      (before : List Ptr) (r : Ptr) (after : List Ptr)
      → xs ≡ before ++ r ∷ after
      → NoneOf test before
      → test r ≡ true
      → IsFirst test xs r

first : (Ptr → Bool) → List Ptr → Ptr
first test [] = null
first test (x ∷ xs) = if test x then x else first test xs

module _ (test : Ptr → Bool) where
  IsFirst-cons :
      (x : Ptr) (xs : List Ptr) (r : Ptr)
      → test x ≡ false
      → IsFirst test xs r
      → IsFirst test (x ∷ xs) r
  IsFirst-cons x xs _ e (missing none) = missing (e, none)
  IsFirst-cons x xs _ e (found before r after eq none hit) =
      found (x ∷ before) r after (ap (◌∷◌ x) eq) (e, none) hit

  first-IsFirst : (xs : List Ptr) → IsFirst test xs (first test xs)
  unfolding first
  first-IsFirst [] = missing tt
  first-IsFirst (x ∷ xs) = elim (Bool-cases (test x)) [
    | inl hit ↦ rw hit (found [] x xs refl tt hit)
    | inr miss ↦ rw miss (IsFirst-cons x xs (first test xs) miss (first-IsFirst xs))
  ]

  first_found :
      (before : List Ptr) (x : Ptr) (after : List Ptr)
      → NoneOf test before
      → test x ≡ true
      → first test (before ++ x ∷ after) ≡ x
  unfolding first
  first_found [] x after none hit = rw hit
  first_found (y ∷ before) x after (miss, none) hit = rw miss (first_found before x after none hit)

  pub NoneOf-mem : (before : List Ptr) (x : Ptr) → NoneOf test before → test x ≡ true → x ∉ before
  NoneOf-mem [] x none hit = refl
  NoneOf-mem (y ∷ before) x (miss, none) hit =
      let rest = NoneOf-mem before x none hit in
      elim (Bool-cases (x == y)) [
        | inl same ↦
            let e : x ≡ y = ground arith in
            let miss' = subst (λ z. test z ≡ false) (sym e) miss in cc
        | inr other ↦ ground arith
      ]

  -- A scan that goes on step by step as `first` does.
  module _ (scan : List Ptr → Ptr) (nil : scan [] ≡ null)
      (cons : (x : Ptr) (xs : List Ptr) → scan (x ∷ xs) ≡ (if test x then x else scan xs)) where
    scan-first : (xs : List Ptr) → scan xs ≡ first test xs
    unfolding first
    scan-first [] = nil
    scan-first (x ∷ xs) = cons x xs ∙ ap (λ r. if test x then x else r) (scan-first xs)

    scan-IsFirst : (xs : List Ptr) → IsFirst test xs (scan xs)
    scan-IsFirst xs = subst (IsFirst test xs) (sym (scan-first xs)) (first-IsFirst xs)

    scan_found :
        (before : List Ptr) (x : Ptr) (after : List Ptr)
        → NoneOf test before
        → test x ≡ true
        → scan (before ++ x ∷ after) ≡ x
    scan_found before x after none hit =
        scan-first (before ++ x ∷ after) ∙ first_found before x after none hit

-- The zombie that a process waits for: its child, with the given pid if that is not 0.
abbrev pub is_awaited_zombie : (Ptr → Pcb) → (parent : Ptr) (pid : ℤ) → Ptr → Bool
is_awaited_zombie memory parent pid z =
    (memory z).parent == parent && (eqb_ℤ pid (pos 0) || eqb_ℤ (pos (memory z).pid) pid)

pub find_zombie-IsFirst :
    (memory : Ptr → Pcb) (parent : Ptr) (pid : ℤ) (zombies : List Ptr)
    → IsFirst (is_awaited_zombie memory parent pid) zombies (find_zombie memory parent pid zombies)
unfolding find_zombie
find_zombie-IsFirst memory parent pid =
    scan-IsFirst (is_awaited_zombie memory parent pid) (find_zombie memory parent pid) refl
      λ x xs. refl

pub find_zombie_found :
    (memory : Ptr → Pcb) (parent : Ptr) (pid : ℤ) (before : List Ptr) (z : Ptr) (after : List Ptr)
    → NoneOf (is_awaited_zombie memory parent pid) before
    → is_awaited_zombie memory parent pid z ≡ true
    → find_zombie memory parent pid (before ++ z ∷ after) ≡ z
unfolding find_zombie
find_zombie_found memory parent pid =
    scan_found (is_awaited_zombie memory parent pid) (find_zombie memory parent pid) refl
      λ x xs. refl

pub pcb_ptr_by_pid_found :
    (memory : Ptr → Pcb) (ptrs : Ptr → Ptr) (pid : ℕ) (before : List Ptr) (p : Ptr)
    (after : List Ptr)
    → NoneOf (λ p. (memory (ptrs p)).pid == pid) before
    → ((memory (ptrs p)).pid == pid) ≡ true
    → pcb_ptr_by_pid memory ptrs (before ++ p ∷ after) pid ≡ p
unfolding pcb_ptr_by_pid
pcb_ptr_by_pid_found memory ptrs pid =
    scan_found (λ p. (memory (ptrs p)).pid == pid) (λ l. pcb_ptr_by_pid memory ptrs l pid) refl
      λ x xs. refl

pub pcb_ptr_by_pid-IsFirst :
    (memory : Ptr → Pcb) (ptrs : Ptr → Ptr) (pid : ℕ) (items : List Ptr)
    → IsFirst (λ p. (memory (ptrs p)).pid == pid) items (pcb_ptr_by_pid memory ptrs items pid)
unfolding pcb_ptr_by_pid
pcb_ptr_by_pid-IsFirst memory ptrs pid =
    scan-IsFirst (λ p. (memory (ptrs p)).pid == pid) (λ l. pcb_ptr_by_pid memory ptrs l pid) refl
      λ x xs. refl

pub bq_by_id-IsFirst :
    (memory : Ptr → BlockingQueue) (id : ℤ) (queues : List Ptr)
    → IsFirst (λ q. eqb_ℤ (memory q).id id) queues (bq_by_id memory queues id)
unfolding bq_by_id
bq_by_id-IsFirst memory id =
    scan-IsFirst (λ q. eqb_ℤ (memory q).id id) (λ l. bq_by_id memory l id) refl λ x xs. refl

pub descriptor_by_fd_found :
    (memory : Ptr → Descriptor) (fd : ℤ) (before : List Ptr) (d : Ptr) (after : List Ptr)
    → NoneOf (λ d. eqb_ℤ (pos (memory d).fd) fd) before
    → eqb_ℤ (pos (memory d).fd) fd ≡ true
    → descriptor_by_fd memory (before ++ d ∷ after) fd ≡ d
unfolding descriptor_by_fd
descriptor_by_fd_found memory fd =
    scan_found (λ d. eqb_ℤ (pos (memory d).fd) fd) (λ l. descriptor_by_fd memory l fd) refl
      λ x xs. refl

-- Each of the scans of a list by a key returns the first item with that key, or null if there is
-- none: of control blocks by their pid, of links to them by the pid that they lead to, of resources by
-- id, of descriptors by number, of queues by id, and of zombies by their parent and, unless 0 is asked
-- for, by their pid.
pub scans-IsFirst :
    (k : Kernel) (xs : List Ptr) (pid : ℕ) (key : ℤ) (parent : Ptr)
    → IsFirst (λ p. (k.pcb_memory p).pid == pid) xs (pcb_by_pid k.pcb_memory xs pid)
      × IsFirst
          (λ p. (k.pcb_memory (k.pcb_ptr_memory p)).pid == pid)
          xs
          (pcb_ptr_by_pid k.pcb_memory k.pcb_ptr_memory xs pid)
      × IsFirst
          (λ r. eqb_ℤ (k.resource_memory r).id key)
          xs
          (resource_by_id k.resource_memory xs key)
      × IsFirst
          (λ d. eqb_ℤ (pos (k.descriptor_memory d).fd) key)
          xs
          (descriptor_by_fd k.descriptor_memory xs key)
      × IsFirst (λ q. eqb_ℤ (k.bqueue_memory q).id key) xs (bq_by_id k.bqueue_memory xs key)
      × IsFirst
          (is_awaited_zombie k.pcb_memory parent key)
          xs
          (find_zombie k.pcb_memory parent key xs)
unfolding pcb_by_pid resource_by_id descriptor_by_fd
scans-IsFirst k xs pid key parent = (
  scan-IsFirst (λ p. (k.pcb_memory p).pid == pid) (λ l. pcb_by_pid k.pcb_memory l pid) refl
      (λ x xs. refl) xs,
  pcb_ptr_by_pid-IsFirst k.pcb_memory k.pcb_ptr_memory pid xs,
  scan-IsFirst (λ r. eqb_ℤ (k.resource_memory r).id key)
      (λ l. resource_by_id k.resource_memory l key) refl (λ x xs. refl) xs,
  scan-IsFirst (λ d. eqb_ℤ (pos (k.descriptor_memory d).fd) key)
      (λ l. descriptor_by_fd k.descriptor_memory l key) refl (λ x xs. refl) xs,
  bq_by_id-IsFirst k.bqueue_memory key xs,
  find_zombie-IsFirst k.pcb_memory parent key xs,
)
