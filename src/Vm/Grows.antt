-- ===== src/Vm/Grows.antt =====
-- kernel/vm.c: `uvmalloc` puts pages into a page table that nobody else has.
use os_assignment.Prelude.{
  ℕ, zero, suc, ◌+◌, ◌-◌, ◌*◌, ◌/◌, ◌%◌, ◌<◌, ◌≤◌, ◌≡◌, inl, inr, refl, List, [], ◌∷◌, ltb, arith,
  if◌then◌else◌, ltb→lt, Bool-cases,
}
use os_assignment.Prelude.Outcome.{Outcome, ok, panic, ◌>>=◌, Sure, bind-Sure}
use os_assignment.Pages.{pgsize, page_round_up, kalloc}
use os_assignment.Vm.{Memory, set_free, fill_page, mappages}
use os_assignment.Vm.Space.{user_perm, release, uvmdealloc, undo, alloc_page, alloc_from, uvmalloc}
use os_assignment.Vm.Tables.{user_pages, Purpose, IsSound, IsHeld, take_lem}
use os_assignment.Vm.Changes.{overwrite-IsSound}
use os_assignment.Vm.Walks.{set_free-IsSound}
use os_assignment.Vm.Calls.{Goes, IsRoot, then-Goes, Mapped, mappages-Sure, Mapped-Goes}
use os_assignment.Vm.Frees.{IsRoot-kept, uvmdealloc-Sure, release_held-Sure}

-- The result of a call, and the memory it leaves.
abbrev pub Leaves {ℓ} : {A : Type ℓ} → (ℕ → Purpose) → A × Memory → Type 0
Leaves place r = Goes place r.1

pub bind-Leaves {ℓ} :
    {A : Type ℓ} (place : ℕ → Purpose) (m : Memory) (g : Goes place m) (r : Outcome (A × Memory))
    → Sure (Leaves g.place') r
    → Sure (Leaves place) r
bind-Leaves place m g (ok n) g' = then-Goes place m n.1 g g'
bind-Leaves place m g panic g' = tt

module _ (kernel_end : ℕ) (pagetable va : ℕ) (aligned : va % pgsize ≡ 0)
    (lt : va / pgsize < user_pages) where
  -- `mappages` of a new page, and what its callers do when it fails.
  pub map_or-Sure {ℓ} :
      {A : Type ℓ} (c perm : ℕ) (place : ℕ → Purpose) (m : Memory)
      (go back : Memory → Outcome (A × Memory))
      → perm < 1024
      → IsRoot place pagetable
      → IsSound place m
      → IsHeld place m.free c
      → ((n : Memory) → Goes place n → Sure (Leaves place) (go n))
      → ((n : Memory) → Goes place n → Sure (Leaves place) (back n))
      → Sure (Leaves place) (
          mappages pagetable va pgsize c perm m >>= λ r.
          if r.0 then go r.1 else release kernel_end c r.1 >>= back)
  map_or-Sure c perm place m go back small root h held goes fails =
      bind-Sure (Mapped place c) (Leaves place) (mappages pagetable va pgsize c perm m) _
        (mappages-Sure pagetable va c perm place m aligned lt small root h held)
        (λ r mapped. elim (Bool-cases r.0) [
          | inl done ↦ rw done (goes r.1 (Mapped-Goes place c r mapped))
          | inr failed ↦ rw failed (
              bind-Sure (IsSound mapped.place') (Leaves place) (release kernel_end c r.1) back
                (release_held-Sure kernel_end c mapped.place' r.1 mapped.sound (mapped.back failed))
                (λ n sound.
                  fails n
                    (record { place' = mapped.place'; sound = sound; tables = mapped.tables })))
        ])

  undo-Sure :
      (oldsz : ℕ) (place : ℕ → Purpose)
      → IsRoot place pagetable
      → (n : Memory) → Goes place n
      → Sure (Leaves place) (undo kernel_end pagetable va oldsz n)
  undo-Sure oldsz place root n g = bind-Leaves place n g (undo kernel_end pagetable va oldsz n) (
      bind-Sure (Leaves g.place') (Leaves g.place') (uvmdealloc kernel_end pagetable va oldsz n)
        (λ r. ok (0, r.1))
        (uvmdealloc-Sure kernel_end pagetable va oldsz g.place' n (omega arith)
          (IsRoot-kept kernel_end place n g pagetable root) g.sound)
        (λ r g. g))

  alloc_page-Sure :
      (oldsz : ℕ) (place : ℕ → Purpose) (m : Memory)
      → IsRoot place pagetable
      → IsSound place m
      → (go : Memory → Outcome (ℕ × Memory))
      → ((n : Memory) → Goes place n → Sure (Leaves place) (go n))
      → (free : List ℕ) → m.free ≡ free
      → Sure (Leaves place) (alloc_page kernel_end pagetable va oldsz go (kalloc free) m)
  unfolding kalloc
  alloc_page-Sure oldsz place m root h go goes [] e =
      undo-Sure oldsz place root (set_free [] m)
        (record { place' = place; sound = set_free-IsSound place m [] e h; tables = λ p e. e })
  alloc_page-Sure oldsz place m root h go goes (c ∷ free) e =
      let (taken, held) = take_lem place m c free e h in
      let cleared = overwrite-IsSound place (set_free free m) taken c (λ _. 0) _ held.unused in
      map_or-Sure c user_perm place (fill_page c 0 0 (set_free free m)) go
        (undo kernel_end pagetable va oldsz) (omega arith) root cleared held goes
        (undo-Sure oldsz place root)

module _ (kernel_end : ℕ) where
  alloc_from-Sure :
      (pagetable left a oldsz newsz : ℕ) (place : ℕ → Purpose) (m : Memory)
      → a % pgsize ≡ 0
      → newsz ≤ user_pages * pgsize
      → IsRoot place pagetable
      → IsSound place m
      → Sure (Leaves place) (alloc_from kernel_end pagetable left a oldsz newsz m)
  unfolding alloc_from
  alloc_from-Sure pagetable zero a oldsz newsz place m aligned le root h = record {
    place' = place;
    sound = h;
    tables = λ p e. e;
  }
  alloc_from-Sure pagetable (suc left) a oldsz newsz place m aligned le root h =
      elim (Bool-cases (ltb a newsz)) [
        | inl more ↦
            let lt = ltb→lt a newsz more in
            rw more (
              alloc_page-Sure kernel_end pagetable a aligned (omega arith) oldsz place m root h _
                (λ n g. bind-Leaves place n g _ (
                  alloc_from-Sure pagetable left (a + pgsize) oldsz newsz g.place' n (omega arith)
                    le (IsRoot-kept kernel_end place n g pagetable root) g.sound))
                m.free refl)
        | inr done ↦ rw done (record { place' = place; sound = h; tables = λ p e. e })
      ]

  pub uvmalloc-Sure :
      (pagetable oldsz newsz : ℕ) (place : ℕ → Purpose) (m : Memory)
      → newsz ≤ user_pages * pgsize
      → IsRoot place pagetable
      → IsSound place m
      → Sure (Leaves place) (uvmalloc kernel_end pagetable oldsz newsz m)
  unfolding uvmalloc
  uvmalloc-Sure pagetable oldsz newsz place m le root h = elim (Bool-cases (ltb newsz oldsz)) [
    | inl shrinks ↦ rw shrinks (record { place' = place; sound = h; tables = λ p e. e })
    | inr grows ↦
        let from = page_round_up oldsz in
        rw grows (
          alloc_from-Sure pagetable ((newsz - from) / pgsize + 1) from from newsz place m
            (omega arith) le root h)
  ]
