-- ===== src/Pages/Partition.antt =====
-- kernel/kalloc.c: who has which page.
use os_assignment.Prelude.{
  ℕ, zero, suc, ◌+◌, ◌-◌, ◌*◌, ◌/◌, ◌%◌, ◌<◌, ◌≤◌, ◌≡◌, inl, inr, refl, ◌∙◌, Bool, true, ◌&&◌, some,
  List, [], ◌∷◌, ◌==◌, leb, arith, get_elem?, if◌then◌else◌, Bool-cases, Option-cases,
}
use os_assignment.Prelude.Outcome.{Outcome, ok}
use os_assignment.Pages.{
  pgsize, phystop, page_round_up, kalloc, remove_at, kfree, freerange_from, kinit, System, Event,
  alloc, give_back, after_alloc, step, run, boot,
}

-- How often a page is in a list.
abbrev pub occurs : ℕ → List ℕ → ℕ
occurs k [] = 0
occurs k (p ∷ ps) = (if p == k then 1 else 0) + occurs k ps

pub occurs-remove_at :
    (k : ℕ) (ps : List ℕ) (j : ℕ) {p : ℕ}
    → get_elem? ps j ≡ some p
    → occurs k (remove_at j ps) + (if p == k then 1 else 0) ≡ occurs k ps
occurs-remove_at k [] j e = absurd (cc)
occurs-remove_at k (q ∷ ps) zero e = ground (arith, e)
occurs-remove_at k (q ∷ ps) (suc j) e = omega (arith, occurs-remove_at k ps j e)

-- The whole pages from `a` to `b`.
abbrev pub is_page : (a b k : ℕ) → Bool
is_page a b k = (k % pgsize == 0) && (leb a k && leb (k + pgsize) b)

module _ (kernel_end : ℕ) where
  kfree_lem :
      (pa : ℕ) (free : List ℕ)
      → is_page kernel_end phystop pa ≡ true
      → kfree kernel_end pa free ≡ ok (pa ∷ free)
  unfolding kfree
  kfree_lem pa free h = ground (arith, h)

  freerange_from_lem :
      (left p : ℕ) (free : List ℕ)
      → p % pgsize ≡ 0
      → kernel_end ≤ p
      → phystop < p + (left + 1) * pgsize
      → (free' : List ℕ) × (freerange_from kernel_end left p phystop free ≡ ok free')
        × ((k : ℕ) → occurs k free' ≡ (if is_page p phystop k then 1 else 0) + occurs k free)
  unfolding freerange_from
  freerange_from_lem zero p free a b c = (free, refl, λ k. ground (arith, a, b, c))
  freerange_from_lem (suc left) p free a b c = elim (Bool-cases (leb (p + pgsize) phystop)) [
    | inl more ↦
        let freed : kfree kernel_end p free ≡ ok (p ∷ free) =
          kfree_lem p free (ground (arith, a, b, more)) in
        let (free', e, o) =
          freerange_from_lem left (p + pgsize) (p ∷ free) (omega arith) (omega arith)
            (omega arith) in
        rw (more, freed) (free', e, λ k. o k ∙ ground (arith, a, more))
    | inr no_more ↦ rw no_more (free, refl, λ k. ground (arith, a, no_more))
  ]

  -- Every page of memory behind the kernel is free or owned, once.
  pub record IsPartition (s : System) : Type 0 where
    pub once :
        (k : ℕ)
        → occurs k s.free + occurs k s.owned ≡ (if is_page kernel_end phystop k then 1 else 0)

  abbrev pub GoesOn : Outcome (System) → Type 0
  GoesOn r = (s : System) × (r ≡ ok s) × IsPartition s

  alloc-IsPartition :
      (free owned : List ℕ)
      → IsPartition (record { free = free; owned = owned })
      → IsPartition (after_alloc (kalloc free) (record { free = free; owned = owned }))
  unfolding after_alloc kalloc
  alloc-IsPartition [] owned h = h
  alloc-IsPartition (r ∷ free) owned h = record { once = λ k. omega (arith, h.once k) }

  owned-is_page :
      (s : System) (j : ℕ) {pa : ℕ}
      → IsPartition s
      → get_elem? s.owned j ≡ some pa
      → is_page kernel_end phystop pa ≡ true
  owned-is_page s j {pa} h e = ground (arith, h.once pa, occurs-remove_at pa s.owned j e)

  step-GoesOn : (e : Event) (s : System) → IsPartition s → GoesOn (step kernel_end e s)
  unfolding step
  step-GoesOn alloc s h = (_, refl, alloc-IsPartition s.free s.owned h)
  step-GoesOn (give_back j) s h = elim (Option-cases (get_elem? s.owned j)) [
    | inl e ↦ rw (e, step) (s, refl, h)
    | inr (pa, e) ↦
        rw (e, kfree_lem pa s.free (owned-is_page s j h e), step)
          (_, refl, record { once = λ k. omega (arith, h.once k, occurs-remove_at k s.owned j e) })
  ]

  run-IsPartition : (es : List Event) (s : System) → IsPartition s → GoesOn (run kernel_end es s)
  unfolding run
  run-IsPartition [] s h = (s, refl, h)
  run-IsPartition (e ∷ es) s h =
      let (t, e', h') = step-GoesOn e s h in rw e' (run-IsPartition es t h')

  pub kinit_lem :
      (free : List ℕ) × (kinit kernel_end ≡ ok free)
      × ((k : ℕ) → occurs k free ≡ (if is_page (page_round_up kernel_end) phystop k then 1 else 0))
  unfolding kinit
  kinit_lem =
      let p : ℕ = page_round_up kernel_end in
      let (free, e, o) =
        freerange_from_lem ((phystop - p) / pgsize) p [] (omega arith) (omega arith)
          (omega arith) in
      (free, e, λ k. omega (arith, o k))

  -- From `kinit` on, and whatever is allocated and given back by its owners in any order, nothing
  -- panics, and each whole page between the end of the kernel and PHYSTOP is either free or owned,
  -- exactly once, so that no page is ever handed out twice or lost; and no other page is.
  pub boot-GoesOn : (es : List Event) → GoesOn (boot kernel_end es)
  unfolding boot
  boot-GoesOn es =
      let (free, e, o) = kinit_lem in
      rw e (
        run-IsPartition es (record { free = free; owned = [] })
          (record { once = λ k. ground (arith, o k) }))
