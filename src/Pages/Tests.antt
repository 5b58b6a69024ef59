-- ===== src/Pages/Tests.antt =====
-- Runs of the model of kernel/kalloc.c, and its theorem at concrete inputs.
use os_assignment.Prelude.{ℕ, ◌≡◌, refl, List, [], ◌∷◌}
use os_assignment.Prelude.Outcome.{Outcome, ok, panic}
use os_assignment.Pages.{
  System, Event, alloc, give_back, kalloc, kfree, freerange_from, kinit, step, run, boot,
  after_alloc,
}
use os_assignment.Pages.Partition.{GoesOn, boot-GoesOn}

-- The kernel ends in the last page but two.
abbrev kernel_end : ℕ
kernel_end = 2281690000

abbrev events : List Event
events = alloc ∷ alloc ∷ alloc ∷ give_back 1 ∷ []

abbrev pages : Outcome System → List ℕ × List ℕ
pages (ok s) = (s.free, s.owned)
pages panic = ([], [])

two_pages : pages (boot kernel_end events) ≡ (2281697280 ∷ [], 2281693184 ∷ [])
unfolding boot kinit freerange_from kfree run step after_alloc kalloc
two_pages = refl

kfree_misaligned : kfree kernel_end 2281693185 [] ≡ panic
unfolding kfree
kfree_misaligned = refl

boot-GoesOn_example : GoesOn kernel_end (boot kernel_end events)
boot-GoesOn_example = boot-GoesOn kernel_end events
