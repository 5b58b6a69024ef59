-- ===== src/Vm/Copies.antt =====
-- kernel/vm.c: `uvmcopy` puts copies of pages into a page table that nobody else has.
use os_assignment.Prelude.{
  ℕ, zero, suc, ◌+◌, ◌*◌, ◌/◌, ◌%◌, ◌<◌, ◌≤◌, ◌≡◌, inl, inr, refl, Bool, true, false, Option, none,
  some, List, [], ◌∷◌, ltb, arith, ltb→lt, Bool-cases,
}
use os_assignment.Prelude.Outcome.{Outcome, ok, Sure, bind-Sure}
use os_assignment.Pages.{pgsize, kalloc}
use os_assignment.Vm.{pte_pa, flags, is_valid, Memory, set_free, Slot, load_pte, walk}
use os_assignment.Vm.Space.{copy_page, uvmunmap, undo_copy, map_copy, copy_slot, copy_from, uvmcopy}
use os_assignment.Vm.Tables.{user_pages, Purpose, IsSound, take_lem}
use os_assignment.Vm.Changes.{overwrite-IsSound}
use os_assignment.Vm.Walks.{Walked, set_free-IsSound}
use os_assignment.Vm.Calls.{Goes, IsRoot, walk-Sure, Walked-Goes}
use os_assignment.Vm.Frees.{IsRoot-kept, uvmunmap-Sure}
use os_assignment.Vm.Grows.{Leaves, bind-Leaves, map_or-Sure}

module _ (kernel_end : ℕ) (pagetable va : ℕ) (aligned : va % pgsize ≡ 0)
    (lt : va / pgsize < user_pages) where
  undo_copy-Sure :
      (place : ℕ → Purpose)
      → IsRoot place pagetable
      → (n : Memory) → Goes place n
      → Sure (Leaves place) (undo_copy kernel_end pagetable va n)
  undo_copy-Sure place root n g = bind-Leaves place n g (undo_copy kernel_end pagetable va n) (
      bind-Sure (Goes g.place') (Leaves g.place')
        (uvmunmap kernel_end pagetable 0 (va / pgsize) true n) (λ n. ok (false, n))
        (uvmunmap-Sure kernel_end pagetable 0 (va / pgsize) g.place' n (omega arith)
          (IsRoot-kept kernel_end place n g pagetable root) g.sound)
        (λ r g. g))

  map_copy-Sure :
      (pte : ℕ) (place : ℕ → Purpose) (m : Memory)
      → IsRoot place pagetable
      → IsSound place m
      → (go : Memory → Outcome (Bool × Memory))
      → ((n : Memory) → Goes place n → Sure (Leaves place) (go n))
      → (free : List ℕ) → m.free ≡ free
      → Sure (Leaves place) (map_copy kernel_end pte pagetable va go (kalloc free) m)
  unfolding kalloc
  map_copy-Sure pte place m root h go goes [] e =
      undo_copy-Sure place root (set_free [] m)
        (record { place' = place; sound = set_free-IsSound place m [] e h; tables = λ p e. e })
  map_copy-Sure pte place m root h go goes (c ∷ free) e =
      let (taken, held) = take_lem place m c free e h in
      let copied =
        overwrite-IsSound place (set_free free m) taken c (m.words (pte_pa pte)) _ held.unused in
      map_or-Sure kernel_end pagetable va aligned lt c (flags pte) place
        (copy_page c (pte_pa pte) (set_free free m)) go (undo_copy kernel_end pagetable va)
        (omega arith) root copied held goes (undo_copy-Sure place root)

  copy_slot-Sure :
      (old : ℕ) (place : ℕ → Purpose) (m : Memory)
      → IsRoot place old
      → IsRoot place pagetable
      → IsSound place m
      → (go : Memory → Outcome (Bool × Memory))
      → ((place' : ℕ → Purpose) (n : Memory)
          → IsRoot place' old
          → IsRoot place' pagetable
          → IsSound place' n
          → Sure (Leaves place') (go n))
      → (r : Option Slot × Memory) → Walked place m.free va r
      → Sure (Leaves place) (copy_slot kernel_end pagetable va go r)
  copy_slot-Sure old place m from root h go goes (none, n) w = tt
  copy_slot-Sure old place m from root h go goes (some s, n) w =
      let g = Walked-Goes place m va (some s, n) h w in
      elim (Bool-cases (is_valid (load_pte n s))) [
        | inl valid ↦ rw valid (
            bind-Leaves place n g
              (map_copy kernel_end (load_pte n s) pagetable va go (kalloc n.free) n)
              (map_copy-Sure (load_pte n s) g.place' n
                (IsRoot-kept kernel_end place n g pagetable root) g.sound go
                (λ k g'. bind-Leaves g.place' k g' (go k) (
                  goes g'.place' k
                    (IsRoot-kept kernel_end g.place' k g' old
                      (IsRoot-kept kernel_end place n g old from))
                    (IsRoot-kept kernel_end g.place' k g' pagetable
                      (IsRoot-kept kernel_end place n g pagetable root))
                    g'.sound))
                n.free refl))
        | inr invalid ↦ rw invalid tt
      ]

module _ (kernel_end : ℕ) where
  copy_from-Sure :
      (old new left i sz : ℕ) (place : ℕ → Purpose) (m : Memory)
      → i % pgsize ≡ 0
      → sz ≤ user_pages * pgsize
      → IsRoot place old
      → IsRoot place new
      → IsSound place m
      → Sure (Leaves place) (copy_from kernel_end old new left i sz m)
  unfolding copy_from
  copy_from-Sure old new zero i sz place m aligned le from to h = record {
    place' = place;
    sound = h;
    tables = λ p e. e;
  }
  copy_from-Sure old new (suc left) i sz place m aligned le from to h =
      elim (Bool-cases (ltb i sz)) [
        | inl more ↦
            let lt = ltb→lt i sz more in
            rw more (
              bind-Sure (Walked place m.free i) (Leaves place) (walk false old i m) _
                (walk-Sure false old i place m from h)
                (copy_slot-Sure kernel_end new i aligned (omega arith) old place m from to h _
                  (λ place' n from' to' h'.
                    copy_from-Sure old new left (i + pgsize) sz place' n (omega arith) le from' to'
                      h')))
        | inr done ↦ rw done (record { place' = place; sound = h; tables = λ p e. e })
      ]

  pub uvmcopy-Sure :
      (old new sz : ℕ) (place : ℕ → Purpose) (m : Memory)
      → sz ≤ user_pages * pgsize
      → IsRoot place old
      → IsRoot place new
      → IsSound place m
      → Sure (Leaves place) (uvmcopy kernel_end old new sz m)
  unfolding uvmcopy
  uvmcopy-Sure old new sz place m le from to h =
      copy_from-Sure old new (sz / pgsize + 1) 0 sz place m refl le from to h
