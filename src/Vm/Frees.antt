-- ===== src/Vm/Frees.antt =====
-- kernel/vm.c: `uvmunmap` and `uvmdealloc` give user pages back.
use os_assignment.Prelude.{
  ℕ, zero, suc, ◌+◌, ◌-◌, ◌*◌, ◌/◌, ◌%◌, ◌<◌, ◌≤◌, ◌≡◌, ◌∙◌, inl, inr, sym, ap, true, false, Option,
  none, some, List, ◌∷◌, ◌==◌, ltb, leb, arith, update, ltb→lt, Bool-cases,
}
use mathlib.Core.Path.{subst}
use os_assignment.Prelude.Outcome.{Outcome, ok, Sure, bind-Sure}
use os_assignment.Pages.{pgsize, page_round_up, kfree}
use os_assignment.Vm.{pte_pa, flags, is_valid, Memory, set_free, fill_page, Slot, load_pte, walk}
use os_assignment.Vm.Space.{release, unmap_slot, unmap_from, uvmunmap, uvmdealloc}
use os_assignment.Vm.Tables.{user_pages, Purpose, user, other, IsSound, IsHeld, update_ne, Agrees}
use os_assignment.Vm.Changes.{unmap-IsSound, give_back-IsSound}
use os_assignment.Vm.Walks.{prefix_of, Walked}
use os_assignment.Vm.Calls.{Goes, IsRoot, bind-Goes, Walked-tables, walk-Sure, slot-page}

module _ (kernel_end : ℕ) where
  kfree-Sure : (pa : ℕ) (free : List ℕ) → Sure (λ f. f ≡ pa ∷ free) (kfree kernel_end pa free)
  unfolding kfree
  kfree-Sure pa free = ground arith

  pub release-Sure :
      (pa : ℕ) (m : Memory)
      → Sure
          (λ n. n ≡ fill_page pa 72340172838076673 1 (set_free (pa ∷ m.free) m))
          (release kernel_end pa m)
  release-Sure pa m =
      bind-Sure (λ f. f ≡ pa ∷ m.free) _ (kfree kernel_end pa m.free) _ (kfree-Sure pa m.free)
        (λ f e. ap (λ f. fill_page pa 72340172838076673 1 (set_free f m)) e)

  -- `kfree` of a page that is not in use.
  pub release_held-Sure :
      (pa : ℕ) (place : ℕ → Purpose) (m : Memory)
      → IsSound place m
      → IsHeld place m.free pa
      → Sure (IsSound place) (release kernel_end pa m)
  release_held-Sure pa place m h held =
      bind-Sure (λ f. f ≡ pa ∷ m.free) (IsSound place) (kfree kernel_end pa m.free) _
        (kfree-Sure pa m.free)
        (λ f e.
          subst (λ g. IsSound place (fill_page pa 72340172838076673 1 (set_free g m))) (sym e)
            (give_back-IsSound place m h pa 72340172838076673 1 held))

  -- A round of `uvmunmap`, and what follows.
  unmap_slot-Sure :
      (va : ℕ) (place : ℕ → Purpose) (m : Memory)
      → va / pgsize < user_pages
      → IsSound place m
      → (go : Memory → Outcome Memory) → ((n : Memory) → Goes place n → Sure (Goes place) (go n))
      → (r : Option Slot × Memory) → Walked place m.free va r
      → Sure (Goes place) (unmap_slot kernel_end true go r)
  unmap_slot-Sure va place m lt h go ih (none, n) w = tt
  unmap_slot-Sure va place m lt h go ih (some s, n) w =
      let pte = load_pte n s in
      let c = pte_pa pte in
      let at = w.at.2 in
      let in_range : prefix_of 0 va * 512 + s.1 < user_pages =
        omega (arith, slot-page w.place' va s w.at) in
      elim (Bool-cases (is_valid pte)) [
        | inl valid ↦ elim (Bool-cases (flags pte == 1)) [
          | inl no_leaf ↦ rw (valid, no_leaf) tt
          | inr leaf ↦
              let says =
                (subst (λ u. Agrees w.place' u s.0 s.1 pte) at (w.sound.agrees s.0 s.1)) valid in
              let mine : w.place' c ≡ user s.0 s.1 = says.0 in_range in
              let aligned : c % pgsize ≡ 0 = omega arith in
              let sound =
                unmap-IsSound w.place' n w.sound c s.0 s.1 72340172838076673 1 at mine aligned in
              let goes : Goes place _ = record {
                place' = update w.place' c other;
                sound = sound;
                tables = λ p e.
                    let kept = Walked-tables place m va (some s, n) h w p e in
                    update_ne w.place' c other p
                      (λ is_c. absurd (cc (kept, mine, ap w.place' is_c)))
                    ∙ kept;
              } in
              rw (valid, leaf)
                (bind-Sure _ (Goes place) (release kernel_end c n) _ (release-Sure c n)
                  (λ k e. rw e (ih _ goes)))
        ]
        | inr invalid ↦ rw invalid tt
      ]

  pub IsRoot-kept :
      (place : ℕ → Purpose) (m : Memory) (g : Goes place m) (r : ℕ)
      → IsRoot place r
      → IsRoot g.place' r
  IsRoot-kept place m g r (q, i, e) = (q, i, g.tables r e)

  unmap_from-Sure :
      (pagetable left a : ℕ) (place : ℕ → Purpose) (m : Memory)
      → a / pgsize + left ≤ user_pages
      → IsRoot place pagetable
      → IsSound place m
      → Sure (Goes place) (unmap_from kernel_end pagetable left a true m)
  unfolding unmap_from
  unmap_from-Sure pagetable zero a place m le root h = record {
    place' = place;
    sound = h;
    tables = λ p e. e;
  }
  unmap_from-Sure pagetable (suc left) a place m le root h =
      bind-Sure (Walked place m.free a) (Goes place) (walk false pagetable a m) _
        (walk-Sure false pagetable a place m root h)
        (unmap_slot-Sure a place m (omega arith) h _ (λ n g.
          bind-Goes place n g (unmap_from kernel_end pagetable left (a + pgsize) true n) (
            unmap_from-Sure pagetable left (a + pgsize) g.place' n (omega arith)
              (IsRoot-kept place n g pagetable root) g.sound)))

  pub uvmunmap-Sure :
      (pagetable va npages : ℕ) (place : ℕ → Purpose) (m : Memory)
      → va / pgsize + npages ≤ user_pages
      → IsRoot place pagetable
      → IsSound place m
      → Sure (Goes place) (uvmunmap kernel_end pagetable va npages true m)
  unfolding uvmunmap
  uvmunmap-Sure pagetable va npages place m le root h = elim (Bool-cases (va % pgsize == 0)) [
    | inl aligned ↦ rw aligned (unmap_from-Sure pagetable npages va place m le root h)
    | inr not_aligned ↦ rw not_aligned tt
  ]

  -- The memory of a process is below TRAPFRAME.
  pub uvmdealloc-Sure :
      (pagetable oldsz newsz : ℕ) (place : ℕ → Purpose) (m : Memory)
      → oldsz ≤ user_pages * pgsize
      → IsRoot place pagetable
      → IsSound place m
      → Sure (λ r. Goes place r.1) (uvmdealloc kernel_end pagetable oldsz newsz m)
  unfolding uvmdealloc
  uvmdealloc-Sure pagetable oldsz newsz place m le root h =
      let stays : Goes place m = record { place' = place; sound = h; tables = λ p e. e } in
      elim (Bool-cases (leb oldsz newsz)) [
        | inl grows ↦ rw grows stays
        | inr shrinks ↦ elim (Bool-cases (ltb (page_round_up newsz) (page_round_up oldsz))) [
          | inl pages ↦
              let to = page_round_up newsz in
              let npages = (page_round_up oldsz - to) / pgsize in
              let below_old = ltb→lt to (page_round_up oldsz) pages in
              rw (shrinks, pages)
                (bind-Sure (Goes place) (λ (r : ℕ × Memory). Goes place r.1)
                  (uvmunmap kernel_end pagetable to npages true m) (λ n. ok (newsz, n))
                  (uvmunmap-Sure pagetable to npages place m (omega arith) root h) (λ n g. g))
          | inr same ↦ rw (shrinks, same) stays
        ]
      ]
