-- ===== src/Pages.antt =====
-- kernel/kalloc.c: the allocator of physical pages.
pub mod Partition
mod Tests
use os_assignment.Prelude.{
  ℕ, zero, suc, ◌+◌, ◌-◌, ◌*◌, ◌/◌, ◌%◌, Bool, true, false, not, ◌||◌, Option, none, some, List, [],
  ◌∷◌, ◌==◌, ltb, leb, get_elem?, if◌then◌else◌,
}
use os_assignment.Prelude.Outcome.{Outcome, ok, panic, ◌>>=◌}

-- PGSIZE
abbrev pub pgsize : ℕ
pgsize = 4096

-- PHYSTOP
abbrev pub phystop : ℕ
phystop = 2281701376

-- PGROUNDUP
abbrev pub page_round_up : ℕ → ℕ
page_round_up a = (a + (pgsize - 1)) / pgsize * pgsize

-- `kalloc`: the page, `none` for 0, and the free list by the addresses of its pages.
unfoldable pub kalloc : List ℕ → Option ℕ × List ℕ
kalloc [] = (none, [])
kalloc (r ∷ free) = (some r, free)

abbrev pub remove_at : ℕ → List ℕ → List ℕ
remove_at j [] = []
remove_at zero (p ∷ ps) = ps
remove_at (suc j) (p ∷ ps) = p ∷ remove_at j ps

-- The allocator, and the pages that its callers have.
pub record System : Type 0 where
  pub free : List ℕ
  pub owned : List ℕ

pub data Event : Type 0 where
  alloc : Event
  give_back : (j : ℕ) → Event  -- the owner of page `j` calls `kfree`

unfoldable pub after_alloc : Option ℕ × List ℕ → System → System
after_alloc (none, free) s = record s { free = free }
after_alloc (some r, free) s = record { free = free; owned = r ∷ s.owned }

-- `kernel_end` is the address `end`, which the linker sets.
module _ (kernel_end : ℕ) where
  -- `kfree`
  unfoldable pub kfree : (pa : ℕ) → List ℕ → Outcome (List ℕ)
  kfree pa free =
      if not (pa % pgsize == 0) || (ltb pa kernel_end || leb phystop pa)
      then panic
      else ok (pa ∷ free)

  -- The loop of `freerange`, for at most `left` rounds.
  unfoldable pub freerange_from : (left p pa_end : ℕ) → List ℕ → Outcome (List ℕ)
  unfolding kfree
  freerange_from zero p pa_end free = ok free
  freerange_from (suc left) p pa_end free =
      if leb (p + pgsize) pa_end
      then (kfree p free >>= freerange_from left (p + pgsize) pa_end)
      else ok free

  -- `kinit`; there are no more pages than the rounds that it is given.
  unfoldable pub kinit : Outcome (List ℕ)
  unfolding freerange_from
  kinit = let p = page_round_up kernel_end in freerange_from ((phystop - p) / pgsize) p phystop []

  unfoldable pub step : Event → System → Outcome System
  unfolding kfree after_alloc
  step alloc s = ok (after_alloc (kalloc s.free) s)
  step (give_back j) s = elim (get_elem? s.owned j) [
    | none ↦ ok s
    | some pa ↦ kfree pa s.free >>= λ free. ok (record { free = free; owned = remove_at j s.owned })
  ]

  unfoldable pub run : List Event → System → Outcome System
  unfolding step
  run [] s = ok s
  run (e ∷ es) s = step e s >>= run es

  -- `kinit` and what follows.
  unfoldable pub boot : List Event → Outcome System
  unfolding kinit run
  boot es = kinit >>= λ free. run es (record { free = free; owned = [] })
