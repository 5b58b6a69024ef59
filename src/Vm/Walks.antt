-- ===== src/Vm/Walks.antt =====
-- kernel/vm.c: `walk` finds the word of an address, and links page tables that nobody else has.
use os_assignment.Prelude.{
  ℕ, zero, suc, ◌+◌, ◌*◌, ◌/◌, ◌^◌, ◌≤◌, ◌≡◌, ◌∙◌, inl, inr, refl, sym, ap, Bool, true, false,
  Option, none, some, List, [], ◌∷◌, arith, update, Bool-cases,
}
use mathlib.Core.Path.{subst}
use os_assignment.Pages.{kalloc}
use os_assignment.Pages.Partition.{occurs}
use os_assignment.Vm.{px, pte_pa, is_valid, Memory, set_free, Slot, link, walk_from}
use os_assignment.Vm.Tables.{Purpose, table, IsSound, take_lem, update_ne, update_self, Agrees}
use os_assignment.Vm.Changes.{link-IsSound}

-- What an address begins with, at a level of the page table.
abbrev pub prefix_of : (level va : ℕ) → ℕ
prefix_of level va = va / 2 ^ (21 + 9 * level)

pub prefix_of-px : (l va : ℕ) → l ≤ 1 → prefix_of (suc l) va * 512 + px (suc l) va ≡ prefix_of l va
prefix_of-px zero va h = omega arith
prefix_of-px (suc zero) va h = omega arith
prefix_of-px (suc (suc l)) va h = absurd (omega arith)

-- Pages that are not free stay what they are.
abbrev pub Keeps : (place : ℕ → Purpose) → List ℕ → (place' : ℕ → Purpose) → List ℕ → Type 0
Keeps place free place' free' =
    (p : ℕ) → occurs p free ≡ 0 → (place' p ≡ place p) × (occurs p free' ≡ 0)

-- The word of an address is in a page table of level 0 for that address.
abbrev pub IsSlot : (ℕ → Purpose) → (va : ℕ) → Option Slot → Type 0
IsSlot place va none = Unit
IsSlot place va (some s) = (q i : ℕ) × (place s.0 ≡ table 0 (prefix_of 0 va) q i) × (s.1 ≡ px 0 va)

pub record Walked (place : ℕ → Purpose) (free : List ℕ) (va : ℕ) (r : Option Slot × Memory)
    : Type 0 where
  pub place' : ℕ → Purpose
  pub sound : IsSound place' r.1
  pub keeps : Keeps place free place' r.1.free
  pub at : IsSlot place' va r.0

pub set_free-IsSound :
    (place : ℕ → Purpose) (m : Memory) (free : List ℕ)
    → m.free ≡ free
    → IsSound place m
    → IsSound place (set_free free m)
set_free-IsSound place m free e h = subst (λ f. IsSound place (set_free f m)) e h

pub held-Keeps :
    (place : ℕ → Purpose) (c : ℕ) (v : Purpose) (free : List ℕ)
    → occurs c free ≡ 0
    → Keeps place (c ∷ free) (update place c v) free
held-Keeps place c v free gone p e =
    (update_ne place c v p (λ same. absurd (ground (arith, e, same))), ground (arith, e))

link-Walked :
    (page j va : ℕ) (place : ℕ → Purpose) (m : Memory) {l a q i : ℕ} (n : ℕ)
    → a * 512 + j ≡ n
    → (go : ℕ → Memory → Option Slot × Memory) → (free : List ℕ) → m.free ≡ free
    → place page ≡ table (suc l) a q i
    → IsSound place m
    → ((child : ℕ) (place' : ℕ → Purpose) (m' : Memory)
        → place' child ≡ table l n page j
        → IsSound place' m'
        → Walked place' m'.free va (go child m'))
    → Walked place free va (link page j go (kalloc free) m)
unfolding link kalloc
link-Walked page j va place m n step go [] f e h ih = record {
  place' = place;
  sound = set_free-IsSound place m [] f h;
  keeps = λ p o. (refl, o);
  at = tt;
}
link-Walked page j va place m {l} n step go (c ∷ free) f e h ih =
    let (taken, held) = take_lem place m c free f h in
    let v = table l n page j in
    let linked =
      link-IsSound place (set_free free m) taken c held v page j e
        (ap (λ k. table l k page j) (sym step)) in
    let w = ih c (update place c v) _ (update_self place c v) linked in
    record {
      place' = w.place';
      sound = w.sound;
      keeps = λ p o.
          let (same, still) = held-Keeps place c v free held.gone p o in
          let (same', still') = w.keeps p still in (same' ∙ same, still');
      at = w.at;
    }

-- A valid word leads to the page table of the next level.
pub below :
    (l page va : ℕ) (place : ℕ → Purpose) (m : Memory) {q i : ℕ}
    → l ≤ 1
    → place page ≡ table (suc l) (prefix_of (suc l) va) q i
    → IsSound place m
    → is_valid (m.words page (px (suc l) va)) ≡ true
    → place (pte_pa (m.words page (px (suc l) va))) ≡ table l (prefix_of l va) page (px (suc l) va)
below l page va place m le e h valid =
    let j = px (suc l) va in
    (subst (λ u. Agrees place u page j (m.words page j)) e (h.agrees page j)) valid
    ∙ ap (λ n. table l n page j) (prefix_of-px l va le)

pub walk_from-Walked :
    (alloc : Bool) (l page va : ℕ) (place : ℕ → Purpose) (m : Memory) {q i : ℕ}
    → l ≤ 2
    → place page ≡ table l (prefix_of l va) q i
    → IsSound place m
    → Walked place m.free va (walk_from alloc l page va m)
unfolding walk_from link
walk_from-Walked alloc zero page va place m {q} {i} le e h = record {
  place' = place;
  sound = h;
  keeps = λ p o. (refl, o);
  at = (q, i, e, refl);
}
walk_from-Walked false (suc l) page va place m le e h =
    elim (Bool-cases (is_valid (m.words page (px (suc l) va)))) [
      | inl valid ↦ rw valid (
          walk_from-Walked false l _ va place m (omega arith)
            (below l page va place m (omega arith) e h valid) h)
      | inr invalid ↦
          rw invalid (record { place' = place; sound = h; keeps = λ p o. (refl, o); at = tt })
    ]
walk_from-Walked true (suc l) page va place m le e h =
    elim (Bool-cases (is_valid (m.words page (px (suc l) va)))) [
      | inl valid ↦ rw valid (
          walk_from-Walked true l _ va place m (omega arith)
            (below l page va place m (omega arith) e h valid) h)
      | inr invalid ↦ rw invalid (
          link-Walked page (px (suc l) va) va place m _ (prefix_of-px l va (omega arith))
            (λ child. walk_from true l child va) m.free refl e h
            (λ child place' n c s. walk_from-Walked true l child va place' n (omega arith) c s))
    ]
