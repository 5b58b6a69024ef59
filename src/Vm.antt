-- ===== src/Vm.antt =====
-- kernel/vm.c: page tables in physical memory, by the address of a page and the index of a word in it.
-- Physical addresses are taken not to overflow.
pub mod Copies
pub mod KernelPages
pub mod Guards
pub mod Roots
pub mod Teardown
pub mod Freewalk
pub mod Lives
pub mod Births
pub mod Processes
pub mod Bytes
pub mod Reads
pub mod CStrings
pub mod Writes
pub mod Privacy
pub mod Entries
pub mod Looks
pub mod Maps
pub mod Translations
pub mod Unmaps
pub mod Isolation
pub mod Safety
pub mod Grows
pub mod Frees
pub mod Calls
pub mod Walks
pub mod Changes
pub mod Tables
pub mod Growth
mod Tests
pub mod User
pub mod Space
use os_assignment.Prelude.{
  ℕ, zero, suc, ◌+◌, ◌-◌, ◌*◌, ◌/◌, ◌%◌, ◌^◌, Bool, true, false, not, ◌&&◌, Option, none, some,
  List, ◌==◌, leb, if◌then◌else◌,
}
use os_assignment.Prelude.Outcome.{Outcome, ok, panic, ◌>>=◌}
use os_assignment.Pages.{pgsize, kalloc}

-- MAXVA
abbrev pub maxva : ℕ
maxva = 2 ^ 38

-- PGROUNDDOWN
abbrev pub page_round_down : ℕ → ℕ
page_round_down a = a / pgsize * pgsize

-- PX
abbrev pub px : (level : ℕ) → (va : ℕ) → ℕ
px level va = va / 2 ^ (12 + 9 * level) % 512

-- PA2PTE and PTE2PA
abbrev pub pa_pte : ℕ → ℕ
pa_pte pa = pa / 2 ^ 12 * 2 ^ 10

abbrev pub pte_pa : ℕ → ℕ
pte_pa pte = pte / 2 ^ 10 * 2 ^ 12

-- PTE_FLAGS, and the tests of PTE_V, PTE_U and of PTE_R|PTE_W|PTE_X
abbrev pub flags : ℕ → ℕ
flags pte = pte % 2 ^ 10

abbrev pub is_valid : ℕ → Bool
is_valid pte = pte % 2 == 1

abbrev pub is_user : ℕ → Bool
is_user pte = pte / 16 % 2 == 1

abbrev pub is_leaf : ℕ → Bool
is_leaf pte = not (pte / 2 % 8 == 0)

-- `PA2PTE(pa) | perm | PTE_V`, for flags `perm` of ten bits
abbrev pub leaf_pte : (pa perm : ℕ) → ℕ
leaf_pte pa perm = pa_pte pa + perm / 2 * 2 + 1

-- Memory, by the address of a page and the index of a word or of a byte in it, and the free pages of
-- `kalloc`. Only the words of a page of a page table are read, and only the bytes of any other page.
pub record Memory : Type 0 where
  pub free : List ℕ
  pub words : ℕ → ℕ → ℕ
  pub byte : ℕ → ℕ → ℕ

abbrev pub put_cell : (page i v : ℕ) → (ℕ → ℕ → ℕ) → ℕ → ℕ → ℕ
put_cell page i v f p j = if (p == page) && (j == i) then v else f p j

abbrev pub put_page : (page : ℕ) → (ℕ → ℕ) → (ℕ → ℕ → ℕ) → ℕ → ℕ → ℕ
put_page page g f p j = if p == page then g j else f p j

abbrev pub set_free : List ℕ → Memory → Memory
set_free free m = record m { free = free }

-- `memset` of a page, to `w` at each word and `b` at each byte
abbrev pub fill_page : (page w b : ℕ) → Memory → Memory
fill_page page w b m = record m {
  words = put_page page (λ j. w) m.words;
  byte = put_page page (λ j. b) m.byte;
}

-- A new page of the page table, below word `i` of `page`. What `kalloc` fills it with is gone.
abbrev pub add_table : (page i child : ℕ) → Memory → Memory
add_table page i child m = record m {
  words = put_cell page i (pa_pte child + 1) (put_page child (λ j. 0) m.words);
  byte = put_page child (λ j. 0) m.byte;
}

-- Where a word of a page table is: its page and its index.
abbrev pub Slot : Type 0
Slot = ℕ × ℕ

-- What the loop of `walk` does at an invalid word; `go` is the rest of the loop.
unfoldable pub link :
    (page i : ℕ)
    → (ℕ → Memory → Option Slot × Memory)
    → Option ℕ × List ℕ
    → Memory
    → Option Slot × Memory
link page i go (none, free) m = (none, set_free free m)
link page i go (some child, free) m = go child (add_table page i child (set_free free m))

-- The loop of `walk`, from `level` down; the slot, `none` for 0.
unfoldable pub walk_from : (alloc : Bool) → (level page va : ℕ) → Memory → Option Slot × Memory
unfolding link kalloc
walk_from alloc zero page va m = (some (page, px 0 va), m)
walk_from alloc (suc l) page va m =
    let pte = m.words page (px (suc l) va) in
    let down = walk_from alloc l (pte_pa pte) va m in
    let more = link page (px (suc l) va) (λ child. walk_from alloc l child va) (kalloc m.free) m in
    if is_valid pte then down else (if alloc then more else (none, m))

unfoldable pub walk : (alloc : Bool) → (pagetable va : ℕ) → Memory → Outcome (Option Slot × Memory)
unfolding walk_from
walk alloc pagetable va m = if leb maxva va then panic else ok (walk_from alloc 2 pagetable va m)

abbrev pub load_pte : Memory → Slot → ℕ
load_pte m s = m.words s.0 s.1

abbrev pub store_pte : Slot → ℕ → Memory → Memory
store_pte s v m = record m { words = put_cell s.0 s.1 v m.words }

-- The tests of `walkaddr` on the word that `walk` finds, and its caller's on the address 0.
abbrev pub user_pa : ℕ → Option ℕ
user_pa pte =
    if is_valid pte && (is_user pte && not (pte_pa pte == 0)) then some (pte_pa pte) else none

abbrev pub at_slot : Option Slot → Memory → Option ℕ
at_slot none m = none
at_slot (some s) m = user_pa (load_pte m s)

-- `walkaddr`, `none` for 0.
unfoldable pub walkaddr : (pagetable va : ℕ) → Memory → Option ℕ
unfolding walk_from
walkaddr pagetable va m =
    if leb maxva va then none else at_slot (walk_from false 2 pagetable va m).0 m

-- A round of `mappages` on what `walk` returns, with `go` for the rounds that follow: whether 0 is
-- returned, or -1.
abbrev pub map_slot :
    (pa perm : ℕ)
    → (Memory → Outcome (Bool × Memory))
    → Option Slot × Memory
    → Outcome (Bool × Memory)
map_slot pa perm go (none, m) = ok (false, m)
map_slot pa perm go (some s, m) =
    if is_valid (load_pte m s) then panic else go (store_pte s (leaf_pte pa perm) m)

-- The loop of `mappages`. The rounds end at `last`, or at MAXVA, where `walk` panics.
unfoldable pub map_from : (pagetable left a last pa perm : ℕ) → Memory → Outcome (Bool × Memory)
unfolding walk
map_from pagetable zero a last pa perm m = panic
map_from pagetable (suc left) a last pa perm m =
    let more = map_from pagetable left (a + pgsize) last (pa + pgsize) perm in
    walk true pagetable a m >>= map_slot pa perm (λ n. if a == last then ok (true, n) else more n)

unfoldable pub mappages : (pagetable va size pa perm : ℕ) → Memory → Outcome (Bool × Memory)
unfolding map_from
mappages pagetable va size pa perm m =
    let a = page_round_down va in
    map_from pagetable ((maxva - a) / pgsize + 1) a
      (page_round_down ((va + size + 2 ^ 64 - 1) % 2 ^ 64)) pa perm m
