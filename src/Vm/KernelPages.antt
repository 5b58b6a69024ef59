-- ===== src/Vm/KernelPages.antt =====
-- kernel/vm.c: TRAMPOLINE and TRAPFRAME are mapped and unmapped, and no process gets at them.
use os_assignment.Prelude.{
  ℕ, zero, ◌/◌, ◌%◌, ◌<◌, ◌≤◌, ◌≡◌, inl, inr, Bool, true, false, Option, none, some, ◌==◌, arith,
  Bool-cases,
}
use os_assignment.Prelude.Outcome.{ok, Sure, bind-Sure}
use os_assignment.Pages.{pgsize}
use os_assignment.Vm.{
  maxva, flags, is_valid, is_user, leaf_pte, Memory, Slot, load_pte, store_pte, walk, map_slot,
  mappages,
}
use os_assignment.Vm.Space.{unmap_slot, unmap_from, uvmunmap}
use os_assignment.Vm.Tables.{user_pages, Purpose, IsSound}
use os_assignment.Vm.Changes.{store_pte-IsSound}
use os_assignment.Vm.Walks.{Walked}
use os_assignment.Vm.Calls.{Goes, IsRoot, Walked-tables, walk-Sure, slot-page, mappages_page}

-- A word of level 0 that is not for the memory of a process is written.
store_pte-Goes :
    (va v : ℕ) (place : ℕ → Purpose) (m : Memory) (s : Slot) (n : Memory)
    → IsSound place m
    → Walked place m.free va (some s, n)
    → (is_valid v ≡ true → (user_pages ≤ va / pgsize) × (is_user v ≡ false))
    → Goes place (store_pte s v n)
store_pte-Goes va v place m s n h w new =
    let at = w.at.2 in
    record {
      place' = w.place';
      sound = store_pte-IsSound w.place' n w.sound 0 s.0 s.1 v at (λ valid.
          let (above, not_user) = new valid in
          let at_page = slot-page w.place' va s w.at in
          (λ lt. absurd (omega arith), λ le. not_user));
      tables = Walked-tables place m va (some s, n) h w;
    }

map_kernel_slot-Sure :
    (va pa perm : ℕ) (place : ℕ → Purpose) (m : Memory)
    → user_pages ≤ va / pgsize
    → is_user (leaf_pte pa perm) ≡ false
    → IsSound place m
    → (r : Option Slot × Memory) → Walked place m.free va r
    → Sure (λ r. Goes place r.1) (map_slot pa perm (λ n. ok (true, n)) r)
map_kernel_slot-Sure va pa perm place m above not_user h (none, n) w = record {
  place' = w.place';
  sound = w.sound;
  tables = Walked-tables place m va (none, n) h w;
}
map_kernel_slot-Sure va pa perm place m above not_user h (some s, n) w =
    elim (Bool-cases (is_valid (load_pte n s))) [
      | inl remap ↦ rw remap tt
      | inr fresh ↦
          rw fresh (store_pte-Goes va (leaf_pte pa perm) place m s n h w (λ _. (above, not_user)))
    ]

-- TRAMPOLINE and TRAPFRAME are mapped, without PTE_U.
pub map_kernel-Sure :
    (pagetable va pa perm : ℕ) (place : ℕ → Purpose) (m : Memory)
    → va % pgsize ≡ 0
    → va < maxva
    → user_pages ≤ va / pgsize
    → is_user (leaf_pte pa perm) ≡ false
    → IsRoot place pagetable
    → IsSound place m
    → Sure (λ r. Goes place r.1) (mappages pagetable va pgsize pa perm m)
map_kernel-Sure pagetable va pa perm place m aligned lt above not_user root h =
    rw (mappages_page pagetable va pa perm m aligned lt) (
      bind-Sure (Walked place m.free va) (λ (r : Bool × Memory). Goes place r.1)
        (walk true pagetable va m) (map_slot pa perm (λ n. ok (true, n)))
        (walk-Sure true pagetable va place m root h)
        (map_kernel_slot-Sure va pa perm place m above not_user h))

module _ (kernel_end : ℕ) where
  unmap_kernel_slot-Sure :
      (va : ℕ) (place : ℕ → Purpose) (m : Memory)
      → IsSound place m
      → (r : Option Slot × Memory) → Walked place m.free va r
      → Sure (Goes place) (unmap_slot kernel_end false (unmap_from kernel_end 0 zero 0 false) r)
  unfolding unmap_from
  unmap_kernel_slot-Sure va place m h (none, n) w = tt
  unmap_kernel_slot-Sure va place m h (some s, n) w = elim (Bool-cases (is_valid (load_pte n s))) [
    | inl valid ↦ elim (Bool-cases (flags (load_pte n s) == 1)) [
      | inl no_leaf ↦ rw (valid, no_leaf) tt
      | inr leaf ↦ rw (valid, leaf) (store_pte-Goes va 0 place m s n h w (λ e. absurd (cc)))
    ]
    | inr invalid ↦ rw invalid tt
  ]

  -- `uvmunmap` of one page, which is kept.
  pub unmap_kernel-Sure :
      (pagetable va : ℕ) (place : ℕ → Purpose) (m : Memory)
      → IsRoot place pagetable
      → IsSound place m
      → Sure (Goes place) (uvmunmap kernel_end pagetable va 1 false m)
  unfolding uvmunmap unmap_from
  unmap_kernel-Sure pagetable va place m root h = elim (Bool-cases (va % pgsize == 0)) [
    | inl aligned ↦ rw aligned (
        bind-Sure (Walked place m.free va) (Goes place) (walk false pagetable va m) _
          (walk-Sure false pagetable va place m root h) (unmap_kernel_slot-Sure va place m h))
    | inr not_aligned ↦ rw not_aligned tt
  ]
