-- ===== src/Vm/Roots.antt =====
-- kernel/vm.c and kernel/proc.c: page tables are made, with the two pages of the kernel that each has,
-- and freed.
use os_assignment.Prelude.{
  ℕ, zero, suc, ◌+◌, ◌-◌, ◌/◌, Bool, true, false, Option, none, some, ltb, if◌then◌else◌,
}
use os_assignment.Prelude.Outcome.{Outcome, ok, panic, ◌>>=◌}
use os_assignment.Pages.{pgsize, page_round_up}
use os_assignment.Vm.{maxva, pte_pa, is_valid, is_leaf, Memory, store_pte, mappages}
use os_assignment.Vm.Space.{uvmcreate, release, uvmunmap}

-- TRAMPOLINE and TRAPFRAME
abbrev pub trampoline_va : ℕ
trampoline_va = maxva - pgsize

abbrev pub trapframe_va : ℕ
trapframe_va = trampoline_va - pgsize

-- The loop of `freewalk` from word `i` on, with `go` for the call of itself.
unfoldable pub free_entries :
    (ℕ → Memory → Outcome Memory) → (left page i : ℕ) → Memory → Outcome Memory
free_entries go zero page i m = ok m
free_entries go (suc left) page i m =
    let pte = m.words page i in
    let rest = free_entries go left page (i + 1) in
    let freed = go (pte_pa pte) m >>= λ n. rest (store_pte (page, i) 0 n) in
    let stays = rest m in if is_valid pte then (if is_leaf pte then panic else freed) else stays

-- `kernel_end` is the address `end`, which the linker sets.
module _ (kernel_end : ℕ) where
  -- `freewalk`, at most `depth` calls deep.
  unfoldable pub freewalk : (depth pagetable : ℕ) → Memory → Outcome Memory
  unfolding free_entries
  freewalk zero pagetable m = panic
  freewalk (suc depth) pagetable m =
      free_entries (freewalk depth) 512 pagetable 0 m >>= release kernel_end pagetable

  unfoldable pub uvmfree : (pagetable sz : ℕ) → Memory → Outcome Memory
  uvmfree pagetable sz m =
      let pages = uvmunmap kernel_end pagetable 0 (page_round_up sz / pgsize) true m in
      (if ltb 0 sz then pages else ok m) >>= freewalk 3 pagetable

  -- What `proc_pagetable` does once TRAPFRAME is mapped, or not.
  abbrev pub trapframe_done : (pagetable : ℕ) → Bool × Memory → Outcome (Option ℕ × Memory)
  trapframe_done pagetable (true, m) = ok (some pagetable, m)
  trapframe_done pagetable (false, m) =
      uvmunmap kernel_end pagetable trampoline_va 1 false m >>= uvmfree pagetable 0 >>= λ n.
      ok (none, n)

  -- The same of TRAMPOLINE. PTE_R|PTE_W is 6.
  abbrev pub trampoline_done :
      (pagetable trapframe : ℕ) → Bool × Memory → Outcome (Option ℕ × Memory)
  trampoline_done pagetable trapframe (true, m) =
      mappages pagetable trapframe_va pgsize trapframe 6 m >>= trapframe_done pagetable
  trampoline_done pagetable trapframe (false, m) = uvmfree pagetable 0 m >>= λ n. ok (none, n)

  -- PTE_R|PTE_X is 10.
  abbrev pub map_kernel_pages :
      (trampoline trapframe : ℕ) → Option ℕ × Memory → Outcome (Option ℕ × Memory)
  map_kernel_pages trampoline trapframe (none, m) = ok (none, m)
  map_kernel_pages trampoline trapframe (some pagetable, m) =
      mappages pagetable trampoline_va pgsize trampoline 10 m
      >>= trampoline_done pagetable trapframe

  -- `proc_pagetable`, `none` for 0, by the address of the trampoline code and of the trapframe.
  unfoldable pub proc_pagetable : (trampoline trapframe : ℕ) → Memory → Outcome (Option ℕ × Memory)
  proc_pagetable trampoline trapframe m = map_kernel_pages trampoline trapframe (uvmcreate m)

  unfoldable pub proc_freepagetable : (pagetable sz : ℕ) → Memory → Outcome Memory
  proc_freepagetable pagetable sz m =
      uvmunmap kernel_end pagetable trampoline_va 1 false m
      >>= uvmunmap kernel_end pagetable trapframe_va 1 false
      >>= uvmfree pagetable sz
