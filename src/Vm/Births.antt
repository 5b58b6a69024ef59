-- ===== src/Vm/Births.antt =====
-- kernel/proc.c: `proc_pagetable` makes a page table, or leaves nothing of it.
use os_assignment.Prelude.{
  ℕ, ◌%◌, ◌≡◌, ◌≢◌, ◌∙◌, refl, ap, Bool, true, false, Option, none, some, List, [], ◌∷◌, arith,
  update,
}
use os_assignment.Prelude.Outcome.{Outcome, ok, ◌>>=◌, Sure, bind-Sure}
use os_assignment.Pages.{pgsize, kalloc}
use os_assignment.Vm.{Memory, set_free, fill_page, mappages}
use os_assignment.Vm.Space.{created, uvmcreate, uvmunmap}
use os_assignment.Vm.Roots.{
  trampoline_va, trapframe_va, uvmfree, trapframe_done, trampoline_done, map_kernel_pages,
  proc_pagetable,
}
use os_assignment.Vm.Tables.{Purpose, table, other, IsSound, take_lem, update_ne, update_self}
use os_assignment.Vm.Changes.{root-IsSound}
use os_assignment.Vm.Walks.{set_free-IsSound}
use os_assignment.Vm.Calls.{Goes, IsRoot, then-Goes}
use os_assignment.Vm.KernelPages.{map_kernel-Sure}
use os_assignment.Vm.Lives.{Lives, after-Goes, undone, uvmfree-Lives, unmapped-Lives}

abbrev pub IsNew : (place place' : ℕ → Purpose) → Option ℕ → Type 0
IsNew place place' none = Unit
IsNew place place' (some r) = (place r ≡ other) × (r % pgsize ≡ 0) × IsRoot place' r

-- A page that was not in use is a root, or there is no new root.
pub record Made (place : ℕ → Purpose) (r : Option ℕ × Memory) : Type 0 where
  pub place' : ℕ → Purpose
  pub sound : IsSound place' r.1
  pub roots : (p : ℕ) → IsRoot place p → IsRoot place' p
  pub fresh : IsNew place place' r.0

none-Made : (place : ℕ → Purpose) (m : Memory) → Lives place m → Made place (none, m)
none-Made place m l = record { place' = l.place'; sound = l.sound; roots = l.roots; fresh = tt }

module _ (kernel_end : ℕ) (place : ℕ → Purpose) (r : ℕ) (v : Purpose) (unused : place r ≡ other)
    (aligned : r % pgsize ≡ 0) (is_v : v ≡ table 2 0 0 0) where
  is_root : (m : Memory) (g : Goes (update place r v) m) → IsRoot g.place' r
  is_root m g = (0, 0, g.tables r (update_self place r v ∙ is_v))

  some-Made : (m : Memory) → Goes (update place r v) m → Made place (some r, m)
  some-Made m g = record {
    place' = g.place';
    sound = g.sound;
    roots = λ p (q, i, e).
        let ne : p ≢ r = λ same. absurd (cc (ap place same, unused, e)) in
        (q, i, g.tables p (update_ne place r v p ne ∙ e));
    fresh = (unused, aligned, is_root m g);
  }

  -- What has been made goes.
  failed-Made :
      (m : Memory) (g : Goes (update place r v) m) (gone : Outcome Memory)
      → Sure (Lives (update g.place' r other)) gone
      → Sure (Made place) (gone >>= λ n. ok (none, n))
  failed-Made m g gone h =
      bind-Sure (Lives (update g.place' r other)) (Made place) gone (λ n. ok (none, n)) h
        (λ n l.
          none-Made place n (undone place r v n unused (after-Goes (update place r v) r m n g l)))

  trapframe_done-Made :
      (b : Bool) (m : Memory)
      → Goes (update place r v) m
      → Sure (Made place) (trapframe_done kernel_end r (b, m))
  trapframe_done-Made true m g = some-Made m g
  trapframe_done-Made false m g =
      failed-Made m g (uvmunmap kernel_end r trampoline_va 1 false m >>= uvmfree kernel_end r 0) (
        unmapped-Lives kernel_end r trampoline_va g.place' m (uvmfree kernel_end r 0) (is_root m g)
          g.sound
          (λ place' n root h. uvmfree-Lives kernel_end r 0 place' n (omega arith) aligned root h))

  trampoline_done-Made :
      (trapframe : ℕ) (b : Bool) (m : Memory)
      → Goes (update place r v) m
      → Sure (Made place) (trampoline_done kernel_end r trapframe (b, m))
  trampoline_done-Made trapframe true m g =
      bind-Sure (λ (s : Bool × Memory). Goes g.place' s.1) (Made place)
        (mappages r trapframe_va pgsize trapframe 6 m) (trapframe_done kernel_end r)
        (map_kernel-Sure r trapframe_va trapframe 6 g.place' m refl (omega arith) (omega arith)
          (ground arith) (is_root m g) g.sound)
        (λ (b, n) g'. trapframe_done-Made b n (then-Goes (update place r v) m n g g'))
  trampoline_done-Made trapframe false m g =
      failed-Made m g (uvmfree kernel_end r 0 m)
        (uvmfree-Lives kernel_end r 0 g.place' m (omega arith) aligned (is_root m g) g.sound)

  new_page-Made :
      (trampoline trapframe : ℕ) (m : Memory)
      → IsSound (update place r v) m
      → Sure (Made place) (map_kernel_pages kernel_end trampoline trapframe (some r, m))
  new_page-Made trampoline trapframe m h =
      let g : Goes (update place r v) m = record {
        place' = update place r v;
        sound = h;
        tables = λ p e. e;
      } in
      bind-Sure (λ (s : Bool × Memory). Goes (update place r v) s.1) (Made place)
        (mappages r trampoline_va pgsize trampoline 10 m) (trampoline_done kernel_end r trapframe)
        (map_kernel-Sure r trampoline_va trampoline 10 (update place r v) m refl (omega arith)
          (omega arith) (ground arith) (is_root m g) h)
        (λ (b, n) g'. trampoline_done-Made trapframe b n g')

created-Made :
    (kernel_end trampoline trapframe : ℕ) (place : ℕ → Purpose) (m : Memory) (free : List ℕ)
    → m.free ≡ free
    → IsSound place m
    → Sure (Made place) (map_kernel_pages kernel_end trampoline trapframe (created (kalloc free) m))
unfolding kalloc
created-Made kernel_end trampoline trapframe place m [] e h =
    none-Made place (set_free [] m)
      (record { place' = place; sound = set_free-IsSound place m [] e h; roots = λ p root. root })
created-Made kernel_end trampoline trapframe place m (c ∷ free) e h =
    let (taken, held) = take_lem place m c free e h in
    new_page-Made kernel_end place c (table 2 0 0 0) held.unused held.aligned refl trampoline
      trapframe (fill_page c 0 0 (set_free free m))
      (root-IsSound place (set_free free m) taken c held (table 2 0 0 0) refl)

pub proc_pagetable-Made :
    (kernel_end trampoline trapframe : ℕ) (place : ℕ → Purpose) (m : Memory)
    → IsSound place m
    → Sure (Made place) (proc_pagetable kernel_end trampoline trapframe m)
unfolding proc_pagetable uvmcreate
proc_pagetable-Made kernel_end trampoline trapframe place m h =
    created-Made kernel_end trampoline trapframe place m m.free refl h
