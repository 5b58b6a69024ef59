-- ===== src/Vm/Translations.antt =====
-- kernel/vm.c: `mappages` of a page, as a change of one page in the maps of all processes.
use os_assignment.Prelude.{
  ℕ, zero, suc, ◌/◌, ◌%◌, ◌<◌, ◌≤◌, ◌≡◌, ◌≢◌, ◌∙◌, inl, inr, refl, sym, ap, Bool, true, false, ◌&&◌,
  Option, none, some, ◌==◌, leb, arith, if◌then◌else◌, Bool-cases,
}
use mathlib.Core.Path.{subst}
use os_assignment.Prelude.Outcome.{ok, Sure}
use os_assignment.Pages.{pgsize}
use os_assignment.Pages.Partition.{occurs}
use os_assignment.Vm.{
  maxva, px, pte_pa, is_valid, leaf_pte, Memory, Slot, load_pte, store_pte, user_pa, walk_from,
  walk, walkaddr, map_slot, mappages,
}
use os_assignment.Vm.Tables.{Purpose, table, IsSound}
use os_assignment.Vm.Walks.{prefix_of, Walked, walk_from-Walked}
use os_assignment.Vm.Calls.{IsRoot, mappages_page, Walked-tables}
use os_assignment.Vm.Isolation.{Trail, walk_from-Trail, trails-meet, IsKept}
use os_assignment.Vm.Processes.{System}
use os_assignment.Vm.Entries.{pte_from, look, pte_from-look}
use os_assignment.Vm.Looks.{IsSteady, Looked, walk_from-Looked}
use os_assignment.Vm.Maps.{stored-here, stored-away, walkaddr-pte}

-- Addresses of one page are looked up in one way.
px-page : (l va va' : ℕ) → l ≤ 2 → va / pgsize ≡ va' / pgsize → px l va ≡ px l va'
px-page zero va va' le e = omega arith
px-page (suc zero) va va' le e = omega arith
px-page (suc (suc zero)) va va' le e = omega arith
px-page (suc (suc (suc l))) va va' le e = absurd (omega arith)

pub walk_from-page :
    (l p va va' : ℕ) (m : Memory)
    → l ≤ 2
    → va / pgsize ≡ va' / pgsize
    → (walk_from false l p va m).0 ≡ (walk_from false l p va' m).0
unfolding walk_from
walk_from-page zero p va va' m le e = ap (λ x. some (p, x)) (px-page 0 va va' le e)
walk_from-page (suc l) p va va' m le e =
    rw (px-page (suc l) va va' le e) (elim (Bool-cases (is_valid (m.words p (px (suc l) va')))) [
      | inl valid ↦
          rw valid (walk_from-page l (pte_pa (m.words p (px (suc l) va'))) va va' m (omega arith) e)
      | inr stops ↦ rw stops refl
    ])

-- One entry of the map of `r` is changed.
abbrev pub remap : (r va : ℕ) → Option ℕ → (r' va' : ℕ) → Option ℕ → Option ℕ
remap r va new r' va' old = if (r' == r) && (va' / pgsize == va / pgsize) then new else old

beyond : (va w : ℕ) → leb maxva va ≡ true → (if leb maxva va then none else user_pa w) ≡ none
beyond va w out = rw out refl

module _ (place : ℕ → Purpose) (m : Memory) (h : IsSound place m) where
  pub trail :
      (r va : ℕ)
      → IsRoot place r
      → va < maxva
      → (s : Slot) → (walk_from false 2 r va m).0 ≡ some s
      → Trail place m h r va s
  trail r va (q, i, e) lt s found =
      let starts : 0 ≡ prefix_of 2 va = omega arith in
      walk_from-Trail place m h r va s (e ∙ ap (λ a. table 2 a q i) starts) found

module _ (place : ℕ → Purpose) (m : Memory) (h : IsSound place m) (r r' va va' : ℕ)
    (root : IsRoot place r) (root' : IsRoot place r') (lt : va < maxva) where
  pub store_pte-remap :
      (s : Slot) (v : ℕ) {a q i : ℕ}
      → place s.0 ≡ table 0 a q i
      → (walk_from false 2 r va m).0 ≡ some s
      → walkaddr r' va' (store_pte s v m) ≡ remap r va (user_pa v) r' va' (walkaddr r' va' m)
  store_pte-remap s v at found =
      let (q', i', e') = root' in
      let m' = store_pte s v m in
      let read = walkaddr-pte r' va' m' in
      let before = walkaddr-pte r' va' m in
      elim (Bool-cases ((r' == r) && (va' / pgsize == va / pgsize))) [
        | inl here ↦
            let one_root : r ≡ r' = ground (arith, here) in
            let one_page : va / pgsize ≡ va' / pgsize = ground (arith, here) in
            let fits : leb maxva va' ≡ false = ground (arith, lt, one_page) in
            let found' : (walk_from false 2 r' va' m).0 ≡ some s =
              subst (λ y. (walk_from false 2 y va' m).0 ≡ some s) one_root
                (sym (walk_from-page 2 r va va' m (omega arith) one_page) ∙ found) in
            let word = stored-here place m h s v at 2 r' va' e' found' in
            rw here (read ∙ rw (fits, word) refl)
        | inr away ↦
            let same : walkaddr r' va' m' ≡ walkaddr r' va' m = elim (Bool-cases (leb maxva va')) [
              | inl out ↦
                  read
                  ∙ (beyond va' (pte_from 2 r' va' m') out
                      ∙ sym (before ∙ beyond va' (pte_from 2 r' va' m) out))
              | inr fits' ↦
                  let apart : (u : Slot)
                      → (walk_from false 2 r' va' m).0 ≡ some u
                      → u.0 ≡ s.0
                      → u.1 ≢ s.1 =
                    λ u found' one other.
                      let (roots, pages) =
                        trails-meet place m h va' va u s
                          (trail place m h r' va' root' (ground (arith, fits')) u found')
                          (trail place m h r va root lt s found) one other in
                      absurd (ground (arith, away, roots, pages)) in
                  let word = stored-away place m h s v at 2 r' va' e' apart in
                  read ∙ (ap (λ w. if leb maxva va' then none else user_pa w) word ∙ sym before)
            ] in
            rw away same
      ]

-- What `mappages` of one page makes of the maps of all processes.
abbrev pub IsRemapped :
    (place : ℕ → Purpose) (m : Memory) (r va : ℕ) → Option ℕ → Bool × Memory → Type 0
IsRemapped place m r va new t =
    (r' va' : ℕ)
    → IsRoot place r'
    → walkaddr r' va' t.1
      ≡ (if t.0 then remap r va new r' va' (walkaddr r' va' m) else walkaddr r' va' m)

module _ (place : ℕ → Purpose) (m : Memory) (h : IsSound place m) (r va c perm : ℕ)
    (root : IsRoot place r) (lt : va < maxva) where
  steady-walkaddr :
      (n : Memory)
      → IsSteady place m n
      → (r' va' : ℕ) → IsRoot place r'
      → walkaddr r' va' n ≡ walkaddr r' va' m
  steady-walkaddr n steady r' va' (q, i, e) =
      walkaddr-pte r' va' n
      ∙ (ap (λ w. if leb maxva va' then none else user_pa w) (steady.ptes 2 r' va' e)
          ∙ sym (walkaddr-pte r' va' m))

  -- `walk` finds the word that was there.
  found-pte :
      (s : Slot) (k : Memory) → Looked place m 2 r va (some s, k) → load_pte k s ≡ pte_from 2 r va m
  found-pte s k l =
      let (q, i, e) = root in
      sym (pte_from-look 2 r va k ∙ ap (λ o. look o k) (l.again s refl)) ∙ l.steady.ptes 2 r va e

  stored-IsRemapped :
      (s : Slot) (k : Memory)
      → Walked place m.free va (some s, k)
      → Looked place m 2 r va (some s, k)
      → IsRemapped place m r va (user_pa (leaf_pte c perm)) (true, store_pte s (leaf_pte c perm) k)
  stored-IsRemapped s k w l r' va' root' =
      let (q, i, e) = root in
      let (q', i', e') = root' in
      store_pte-remap w.place' k w.sound r r' va va'
        (q, i, Walked-tables place m va (some s, k) h w r e)
        (q', i', Walked-tables place m va (some s, k) h w r' e') lt s (leaf_pte c perm) w.at.2
        (l.again s refl)
      ∙ ap (remap r va (user_pa (leaf_pte c perm)) r' va') (steady-walkaddr k l.steady r' va' root')

  map_slot-IsRemapped :
      (o : Option Slot × Memory)
      → Walked place m.free va o
      → Looked place m 2 r va o
      → is_valid (pte_from 2 r va m) ≡ false
      → (t : Bool × Memory) × (map_slot c perm (λ n. ok (true, n)) o ≡ ok t)
        × IsRemapped place m r va (user_pa (leaf_pte c perm)) t
  map_slot-IsRemapped (none, k) w l unmapped = ((false, k), refl, steady-walkaddr k l.steady)
  map_slot-IsRemapped (some s, k) w l unmapped =
      let fresh : is_valid (load_pte k s) ≡ false = ap is_valid (found-pte s k l) ∙ unmapped in
      ((true, store_pte s (leaf_pte c perm) k), rw fresh refl, stored-IsRemapped s k w l)

  -- What holds of the result, if there was a valid word or not.
  abbrev pub Maps : Bool × Memory → Type 0
  Maps t =
      IsRemapped place m r va (user_pa (leaf_pte c perm)) t
      × (t.0 ≡ true → is_valid (pte_from 2 r va m) ≡ false)
      × ((p : ℕ) → occurs p m.free ≡ 0 → occurs p t.1.free ≡ 0)

  map_slot-Maps :
      (o : Option Slot × Memory)
      → Walked place m.free va o × Looked place m 2 r va o
      → Sure Maps (map_slot c perm (λ n. ok (true, n)) o)
  map_slot-Maps (none, k) (w, l) =
      (steady-walkaddr k l.steady, λ e. absurd (cc), λ p o. (w.keeps p o).1)
  map_slot-Maps (some s, k) (w, l) = elim (Bool-cases (is_valid (load_pte k s))) [
    | inl remapped ↦ rw remapped tt
    | inr fresh ↦
        let unmapped : is_valid (pte_from 2 r va m) ≡ false =
          ap is_valid (sym (found-pte s k l)) ∙ fresh in
        rw fresh (stored-IsRemapped s k w l, λ _. unmapped, λ p o. (w.keeps p o).1)
  ]

  pub mappages-Maps : va % pgsize ≡ 0 → Sure Maps (mappages r va pgsize c perm m)
  unfolding walk
  mappages-Maps aligned =
      let (q, i, e) = root in
      let starts : 0 ≡ prefix_of 2 va = omega arith in
      let at = e ∙ ap (λ a. table 2 a q i) starts in
      let fits : leb maxva va ≡ false = ground (arith, lt) in
      let made = map_slot-Maps (walk_from true 2 r va m) (
        walk_from-Walked true 2 r va place m (omega arith) at h,
        walk_from-Looked 2 r va place m (omega arith) at h,
      ) in
      subst (Sure Maps) (sym (mappages_page r va c perm m aligned lt ∙ (rw fits refl))) made

  mappages-IsRemapped :
      va % pgsize ≡ 0
      → is_valid (pte_from 2 r va m) ≡ false
      → (t : Bool × Memory) × (mappages r va pgsize c perm m ≡ ok t)
        × IsRemapped place m r va (user_pa (leaf_pte c perm)) t
  unfolding walk
  mappages-IsRemapped aligned unmapped =
      let (q, i, e) = root in
      let starts : 0 ≡ prefix_of 2 va = omega arith in
      let at = e ∙ ap (λ a. table 2 a q i) starts in
      let fits : leb maxva va ≡ false = ground (arith, lt) in
      let (t, is_t, remapped) =
        map_slot-IsRemapped (walk_from true 2 r va m)
          (walk_from-Walked true 2 r va place m (omega arith) at h)
          (walk_from-Looked 2 r va place m (omega arith) at h) unmapped in
      (t, mappages_page r va c perm m aligned lt ∙ (rw fits is_t), remapped)

-- Where no valid word stands for a page of addresses of a process, `mappages` of that page does not
-- panic. If it returns 0, the page now translates as the new word says, and every other address of
-- this and of every other process translates as before; if it returns -1, all addresses do.
pub mappages-remaps :
    (s : System) (r va c perm : ℕ)
    → IsKept s
    → occurs r s.roots ≢ 0
    → va < maxva
    → va % pgsize ≡ 0
    → is_valid (pte_from 2 r va s.machine) ≡ false
    → (t : Bool × Memory) × (mappages r va pgsize c perm s.machine ≡ ok t)
      × ((r' va' : ℕ)
          → occurs r' s.roots ≢ 0
          → walkaddr r' va' t.1 ≡ (
              if t.0
              then remap r va (user_pa (leaf_pte c perm)) r' va' (walkaddr r' va' s.machine)
              else walkaddr r' va' s.machine))
mappages-remaps s r va c perm k here lt aligned unmapped =
    let (t, is_t, remapped) =
      mappages-IsRemapped k.place s.machine k.sound r va c perm (k.known r here).0 lt aligned
        unmapped in
    (t, is_t, λ r' va' here'. remapped r' va' (k.known r' here').0)
