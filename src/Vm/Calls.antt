-- ===== src/Vm/Calls.antt =====
-- kernel/vm.c: the calls on a page table, one at a time.
use os_assignment.Prelude.{
  ℕ, suc, ◌+◌, ◌-◌, ◌*◌, ◌/◌, ◌%◌, ◌^◌, ◌<◌, ◌≡◌, ◌∙◌, inl, inr, refl, ap, Bool, true, false,
  Option, none, some, List, ◌==◌, leb, arith, update, Bool-cases,
}
use os_assignment.Prelude.Outcome.{Outcome, ok, panic, ◌>>=◌, Sure, bind-Sure}
use os_assignment.Pages.{pgsize}
use os_assignment.Pages.Partition.{occurs}
use os_assignment.Vm.{
  maxva, px, is_valid, Memory, Slot, load_pte, walk, map_slot, map_from, mappages,
}
use os_assignment.Vm.Tables.{user_pages, Purpose, table, user, IsSound, IsHeld, update_ne, apart}
use os_assignment.Vm.Changes.{map-IsSound}
use os_assignment.Vm.Walks.{prefix_of, IsSlot, Walked, walk_from-Walked}

-- Page tables stay where they are, and what there is agrees with them.
pub record Goes (place : ℕ → Purpose) (m : Memory) : Type 0 where
  pub place' : ℕ → Purpose
  pub sound : IsSound place' m
  pub tables : (p : ℕ) {l a q i : ℕ} → place p ≡ table l a q i → place' p ≡ table l a q i

-- A page table that `uvmcreate` has made.
abbrev pub IsRoot : (ℕ → Purpose) → ℕ → Type 0
IsRoot place r = (q i : ℕ) × (place r ≡ table 2 0 q i)

pub then-Goes :
    (place : ℕ → Purpose) (m m' : Memory) (g : Goes place m) → Goes g.place' m' → Goes place m'
then-Goes place m m' g g' = record {
  place' = g'.place';
  sound = g'.sound;
  tables = λ p e. g'.tables p (g.tables p e);
}

-- What goes on from there goes on from the start.
pub bind-Goes :
    (place : ℕ → Purpose) (m : Memory) (g : Goes place m) (r : Outcome Memory)
    → Sure (Goes g.place') r
    → Sure (Goes place) r
bind-Goes place m g (ok n) g' = then-Goes place m n g g'
bind-Goes place m g panic g' = tt

pub table-gone :
    (place : ℕ → Purpose) (m : Memory) (p : ℕ) {l a q i : ℕ}
    → IsSound place m
    → place p ≡ table l a q i
    → occurs p m.free ≡ 0
table-gone place m p h e = elim (Bool-cases (occurs p m.free == 0)) [
  | inl gone ↦ ground (arith, gone)
  | inr there ↦ absurd (cc ((h.spare p (ground (arith, there))).0, e))
]

-- `walk` keeps all page tables.
pub Walked-tables :
    (place : ℕ → Purpose) (m : Memory) (va : ℕ) (r : Option Slot × Memory)
    → IsSound place m
    → (w : Walked place m.free va r) → (p : ℕ) {l a q i : ℕ} → place p ≡ table l a q i
    → w.place' p ≡ table l a q i
Walked-tables place m va r h w p e = (w.keeps p (table-gone place m p h e)).0 ∙ e

pub walk-Sure :
    (alloc : Bool) (pagetable va : ℕ) (place : ℕ → Purpose) (m : Memory)
    → IsRoot place pagetable
    → IsSound place m
    → Sure (Walked place m.free va) (walk alloc pagetable va m)
unfolding walk
walk-Sure alloc pagetable va place m (q, i, e) h = elim (Bool-cases (leb maxva va)) [
  | inl out ↦ rw out tt
  | inr fits ↦
      let starts : 0 ≡ prefix_of 2 va = ground (arith, fits) in
      rw fits (
        walk_from-Walked alloc 2 pagetable va place m (omega arith)
          (e ∙ ap (λ a. table 2 a q i) starts) h)
]

page_of : (va : ℕ) → prefix_of 0 va * 512 + px 0 va ≡ va / pgsize
page_of va = omega arith

-- `mappages` of one page, which is all that it is called for once the kernel runs.
pub mappages_page :
    (pagetable va pa perm : ℕ) (m : Memory)
    → va % pgsize ≡ 0
    → va < maxva
    → mappages pagetable va pgsize pa perm m
      ≡ (walk true pagetable va m >>= map_slot pa perm (λ n. ok (true, n)))
unfolding mappages map_from
mappages_page pagetable va pa perm m aligned lt =
    let fuel : (maxva - va / pgsize * pgsize) / pgsize + 1 ≡ suc ((maxva - va) / pgsize) =
      omega arith in
    let first : va / pgsize * pgsize ≡ va = omega arith in
    let last : (va + pgsize + 2 ^ 64 - 1) % 2 ^ 64 / pgsize * pgsize ≡ va = omega arith in
    let ends : (va == va) ≡ true = ground arith in rw (fuel, first, last, ends) refl

-- What `mappages` leaves, when it is given a page that is not in use.
pub record Mapped (place : ℕ → Purpose) (c : ℕ) (r : Bool × Memory) : Type 0 where
  pub place' : ℕ → Purpose
  pub sound : IsSound place' r.1
  pub tables : (p : ℕ) {l a q i : ℕ} → place p ≡ table l a q i → place' p ≡ table l a q i
  pub back : r.0 ≡ false → IsHeld place' r.1.free c

Walked-IsHeld :
    (place : ℕ → Purpose) (free : List ℕ) (c va : ℕ) (r : Option Slot × Memory)
    → IsHeld place free c
    → (w : Walked place free va r) → IsHeld w.place' r.1.free c
Walked-IsHeld place free c va r held w = record {
  unused = (w.keeps c held.gone).0 ∙ held.unused;
  gone = (w.keeps c held.gone).1;
  aligned = held.aligned;
}

-- A page of a process is at the word that `walk` finds.
pub slot-page :
    (place : ℕ → Purpose) (va : ℕ) (s : Slot)
    → (at : IsSlot place va (some s)) → prefix_of 0 va * 512 + s.1 ≡ va / pgsize
slot-page place va s at = ap (λ j. prefix_of 0 va * 512 + j) at.3 ∙ page_of va

map_slot-Sure :
    (va c perm : ℕ) (place : ℕ → Purpose) (m : Memory)
    → va / pgsize < user_pages
    → perm < 1024
    → IsSound place m
    → IsHeld place m.free c
    → (r : Option Slot × Memory) → Walked place m.free va r
    → Sure (Mapped place c) (map_slot c perm (λ n. ok (true, n)) r)
map_slot-Sure va c perm place m lt small h held (none, n) w = record {
  place' = w.place';
  sound = w.sound;
  tables = Walked-tables place m va (none, n) h w;
  back = λ e. Walked-IsHeld place m.free c va (none, n) held w;
}
map_slot-Sure va c perm place m lt small h held (some s, n) w =
    let held' = Walked-IsHeld place m.free c va (some s, n) held w in
    let at = w.at.2 in
    let in_range : prefix_of 0 va * 512 + s.1 < user_pages =
      omega (arith, slot-page w.place' va s w.at) in
    let mapped =
      map-IsSound w.place' n w.sound c held' (user s.0 s.1) s.0 s.1 perm at in_range small refl in
    elim (Bool-cases (is_valid (load_pte n s))) [
      | inl remap ↦ rw remap tt
      | inr fresh ↦ rw fresh (record {
        place' = update w.place' c (user s.0 s.1);
        sound = mapped;
        tables = λ p e.
            let kept = Walked-tables place m va (some s, n) h w p e in
            update_ne w.place' c (user s.0 s.1) p
              (apart w.place' kept (λ k. absurd (cc)) held'.unused)
            ∙ kept;
        back = λ e. absurd (cc);
      })
    ]

pub mappages-Sure :
    (pagetable va c perm : ℕ) (place : ℕ → Purpose) (m : Memory)
    → va % pgsize ≡ 0
    → va / pgsize < user_pages
    → perm < 1024
    → IsRoot place pagetable
    → IsSound place m
    → IsHeld place m.free c
    → Sure (Mapped place c) (mappages pagetable va pgsize c perm m)
mappages-Sure pagetable va c perm place m aligned lt small root h held =
    rw (mappages_page pagetable va c perm m aligned (omega arith)) (
      bind-Sure (Walked place m.free va) (Mapped place c) (walk true pagetable va m)
        (map_slot c perm (λ n. ok (true, n))) (walk-Sure true pagetable va place m root h)
        (λ r w. map_slot-Sure va c perm place m lt small h held r w))

pub Mapped-Goes :
    (place : ℕ → Purpose) (c : ℕ) (r : Bool × Memory) → Mapped place c r → Goes place r.1
Mapped-Goes place c r h = record { place' = h.place'; sound = h.sound; tables = h.tables }

pub Walked-Goes :
    (place : ℕ → Purpose) (m : Memory) (va : ℕ) (r : Option Slot × Memory)
    → IsSound place m
    → Walked place m.free va r
    → Goes place r.1
Walked-Goes place m va r h w = record {
  place' = w.place';
  sound = w.sound;
  tables = Walked-tables place m va r h w;
}
