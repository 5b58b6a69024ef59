-- ===== src/Vm/Space.antt =====
-- kernel/vm.c: what grows, shrinks, copies and frees the memory of a process.
use os_assignment.Prelude.{
  ℕ, zero, suc, ◌+◌, ◌-◌, ◌*◌, ◌/◌, ◌%◌, Bool, true, false, not, Option, none, some, List, ◌==◌,
  ltb, leb, if◌then◌else◌,
}
use os_assignment.Prelude.Outcome.{Outcome, ok, panic, ◌>>=◌}
use os_assignment.Pages.{pgsize, page_round_up, kalloc, kfree}
use os_assignment.Vm.{
  pte_pa, flags, is_valid, Memory, put_page, set_free, fill_page, Slot, load_pte, store_pte, walk,
  mappages,
}

-- PTE_W|PTE_X|PTE_R|PTE_U
abbrev pub user_perm : ℕ
user_perm = 30

abbrev pub created : Option ℕ × List ℕ → Memory → Option ℕ × Memory
created (none, free) m = (none, set_free free m)
created (some pagetable, free) m = (some pagetable, fill_page pagetable 0 0 (set_free free m))

-- `uvmcreate`, `none` for 0.
unfoldable pub uvmcreate : Memory → Option ℕ × Memory
uvmcreate m = created (kalloc m.free) m

-- `memmove(mem, (char*)pa, PGSIZE)`
abbrev pub copy_page : (mem pa : ℕ) → Memory → Memory
copy_page mem pa m = record m {
  words = put_page mem (m.words pa) m.words;
  byte = put_page mem (m.byte pa) m.byte;
}

-- `*pte &= ~PTE_U` in `uvmclear`
abbrev pub clear_user : Option Slot × Memory → Outcome Memory
clear_user (none, m) = panic
clear_user (some s, m) = let pte = load_pte m s in ok (store_pte s (pte - pte / 16 % 2 * 16) m)

unfoldable pub uvmclear : (pagetable va : ℕ) → Memory → Outcome Memory
uvmclear pagetable va m = walk false pagetable va m >>= clear_user

-- `kernel_end` is the address `end`, which the linker sets.
module _ (kernel_end : ℕ) where
  -- `kfree`, which fills the page with bytes 1. The link that it keeps there is in `free`.
  abbrev pub release : (pa : ℕ) → Memory → Outcome Memory
  release pa m =
      kfree kernel_end pa m.free >>= λ free. ok (fill_page pa 72340172838076673 1 (set_free free m))

  -- A round of `uvmunmap` on what `walk` returns, with `go` for the rounds that follow.
  abbrev pub unmap_slot :
      (do_free : Bool) → (Memory → Outcome Memory) → Option Slot × Memory → Outcome Memory
  unmap_slot do_free go (none, m) = panic
  unmap_slot do_free go (some s, m) =
      let pte = load_pte m s in
      if not (is_valid pte)
      then panic
      else (if flags pte == 1
          then panic
          else (if do_free then release (pte_pa pte) m else ok m) >>= λ n. go (store_pte s 0 n))

  -- The loop of `uvmunmap`, for `left` pages.
  unfoldable pub unmap_from : (pagetable left a : ℕ) → (do_free : Bool) → Memory → Outcome Memory
  unmap_from pagetable zero a do_free m = ok m
  unmap_from pagetable (suc left) a do_free m =
      let more = unmap_from pagetable left (a + pgsize) do_free in
      walk false pagetable a m >>= unmap_slot do_free more

  unfoldable pub uvmunmap : (pagetable va npages : ℕ) → (do_free : Bool) → Memory → Outcome Memory
  unfolding unmap_from
  uvmunmap pagetable va npages do_free m =
      if not (va % pgsize == 0) then panic else unmap_from pagetable npages va do_free m

  -- `uvmdealloc`, with the size that it returns.
  unfoldable pub uvmdealloc : (pagetable oldsz newsz : ℕ) → Memory → Outcome (ℕ × Memory)
  unfolding uvmunmap
  uvmdealloc pagetable oldsz newsz m =
      let to = page_round_up newsz in
      let npages = (page_round_up oldsz - to) / pgsize in
      if leb oldsz newsz
      then ok (oldsz, m)
      else (if ltb to (page_round_up oldsz)
          then (uvmunmap pagetable to npages true m >>= λ n. ok (newsz, n))
          else ok (newsz, m))

  -- `uvmdealloc(pagetable, a, oldsz); return 0;`
  abbrev pub undo : (pagetable a oldsz : ℕ) → Memory → Outcome (ℕ × Memory)
  undo pagetable a oldsz m = uvmdealloc pagetable a oldsz m >>= λ r. ok (0, r.1)

  -- A round of `uvmalloc` on what `kalloc` returns, with `go` for the rounds that follow.
  abbrev pub alloc_page :
      (pagetable a oldsz : ℕ)
      → (Memory → Outcome (ℕ × Memory))
      → Option ℕ × List ℕ
      → Memory
      → Outcome (ℕ × Memory)
  alloc_page pagetable a oldsz go (none, free) m = undo pagetable a oldsz (set_free free m)
  alloc_page pagetable a oldsz go (some mem, free) m =
      mappages pagetable a pgsize mem user_perm (fill_page mem 0 0 (set_free free m)) >>= λ r.
      if r.0 then go r.1 else release mem r.1 >>= undo pagetable a oldsz

  -- The loop of `uvmalloc`, for at most `left` rounds.
  unfoldable pub alloc_from : (pagetable left a oldsz newsz : ℕ) → Memory → Outcome (ℕ × Memory)
  unfolding uvmdealloc kalloc
  alloc_from pagetable zero a oldsz newsz m = ok (newsz, m)
  alloc_from pagetable (suc left) a oldsz newsz m =
      let more = alloc_from pagetable left (a + pgsize) oldsz newsz in
      if ltb a newsz then alloc_page pagetable a oldsz more (kalloc m.free) m else ok (newsz, m)

  unfoldable pub uvmalloc : (pagetable oldsz newsz : ℕ) → Memory → Outcome (ℕ × Memory)
  unfolding alloc_from
  uvmalloc pagetable oldsz newsz m =
      let from = page_round_up oldsz in
      if ltb newsz oldsz
      then ok (oldsz, m)
      else alloc_from pagetable ((newsz - from) / pgsize + 1) from from newsz m

  -- `err:` in `uvmcopy`
  abbrev pub undo_copy : (new i : ℕ) → Memory → Outcome (Bool × Memory)
  undo_copy new i m = uvmunmap new 0 (i / pgsize) true m >>= λ n. ok (false, n)

  -- A round of `uvmcopy` behind its tests: `pte` is the word of the old page table.
  abbrev pub map_copy :
      (pte new i : ℕ)
      → (Memory → Outcome (Bool × Memory))
      → Option ℕ × List ℕ
      → Memory
      → Outcome (Bool × Memory)
  map_copy pte new i go (none, free) m = undo_copy new i (set_free free m)
  map_copy pte new i go (some mem, free) m =
      mappages new i pgsize mem (flags pte) (copy_page mem (pte_pa pte) (set_free free m)) >>= λ r.
      if r.0 then go r.1 else release mem r.1 >>= undo_copy new i

  abbrev pub copy_slot :
      (new i : ℕ)
      → (Memory → Outcome (Bool × Memory))
      → Option Slot × Memory
      → Outcome (Bool × Memory)
  copy_slot new i go (none, m) = panic
  copy_slot new i go (some s, m) =
      let pte = load_pte m s in
      if not (is_valid pte) then panic else map_copy pte new i go (kalloc m.free) m

  -- The loop of `uvmcopy`, for at most `left` rounds; whether 0 is returned, or -1.
  unfoldable pub copy_from : (old new left i sz : ℕ) → Memory → Outcome (Bool × Memory)
  unfolding uvmunmap kalloc
  copy_from old new zero i sz m = ok (true, m)
  copy_from old new (suc left) i sz m =
      let more = copy_from old new left (i + pgsize) sz in
      if ltb i sz then walk false old i m >>= copy_slot new i more else ok (true, m)

  unfoldable pub uvmcopy : (old new sz : ℕ) → Memory → Outcome (Bool × Memory)
  unfolding copy_from
  uvmcopy old new sz m = copy_from old new (sz / pgsize + 1) 0 sz m
