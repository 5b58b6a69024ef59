-- ===== src/Vm/Maps.antt =====
-- kernel/vm.c: one word of a page table is written, and one page of addresses changes.
use os_assignment.Prelude.{
  ℕ, zero, suc, ◌≡◌, ◌≢◌, ◌∙◌, inl, inr, refl, sym, ap, false, ◌&&◌, Option, none, some, ◌==◌, leb,
  arith, if◌then◌else◌, Bool-cases, Option-cases,
}
use os_assignment.Vm.{
  maxva, px, pte_pa, is_valid, Memory, Slot, store_pte, user_pa, at_slot, walk_from, walkaddr,
}
use os_assignment.Vm.Tables.{Purpose, table, IsSound}
use os_assignment.Vm.Entries.{pte_from, look, pte_from-look, leads}
use os_assignment.Vm.Looks.{walk_from-down}

walk_from-stop :
    (l page va : ℕ) (m : Memory)
    → is_valid (m.words page (px (suc l) va)) ≡ false
    → (walk_from false (suc l) page va m).0 ≡ none
unfolding walk_from
walk_from-stop l page va m invalid = rw invalid refl

module _ (place : ℕ → Purpose) (m : Memory) (h : IsSound place m) (s : Slot) (v : ℕ) {a q i : ℕ}
    (at : place s.0 ≡ table 0 a q i) where
  -- `walk` goes the same way.
  walk_from-store_pte :
      (l p va : ℕ) {b r t : ℕ}
      → place p ≡ table l b r t
      → (walk_from false l p va (store_pte s v m)).0 ≡ (walk_from false l p va m).0
  unfolding walk_from
  walk_from-store_pte zero p va e = refl
  walk_from-store_pte (suc l) p va {b} {r} {t} e =
      let m' = store_pte s v m in
      let x = px (suc l) va in
      let not_s : p ≢ s.0 = λ same.
        let tables : table (suc l) b r t ≡ table 0 a q i = sym e ∙ ap place same ∙ at in
        let levels : suc l ≡ 0 = cc tables in omega arith in
      let same : m'.words p x ≡ m.words p x = elim (Bool-cases ((p == s.0) && (x == s.1))) [
        | inl here ↦ absurd (not_s (ground (arith, here)))
        | inr away ↦ rw away refl
      ] in
      elim (Bool-cases (is_valid (m.words p x))) [
        | inl valid ↦
            walk_from-down l p va m' same valid
            ∙ (walk_from-store_pte l (pte_pa (m.words p x)) va (leads place m h l p x e valid)
                ∙ sym (walk_from-down l p va m refl valid))
        | inr stops ↦
            walk_from-stop l p va m' (ap is_valid same ∙ stops)
            ∙ sym (walk_from-stop l p va m stops)
      ]

  pub stored-here :
      (l p va : ℕ) {b r t : ℕ}
      → place p ≡ table l b r t
      → (walk_from false l p va m).0 ≡ some s
      → pte_from l p va (store_pte s v m) ≡ v
  stored-here l p va e found =
      let m' = store_pte s v m in
      pte_from-look l p va m'
      ∙ (ap (λ o. look o m') (walk_from-store_pte l p va e ∙ found) ∙ ground arith)

  pub stored-away :
      (l p va : ℕ) {b r t : ℕ}
      → place p ≡ table l b r t
      → ((u : Slot) → (walk_from false l p va m).0 ≡ some u → u.0 ≡ s.0 → u.1 ≢ s.1)
      → pte_from l p va (store_pte s v m) ≡ pte_from l p va m
  stored-away l p va e ne =
      let m' = store_pte s v m in
      let way = walk_from-store_pte l p va e in
      let same : look (walk_from false l p va m).0 m' ≡ look (walk_from false l p va m).0 m =
        elim (Option-cases (walk_from false l p va m).0) [
          | inl nothing ↦ rw nothing refl
          | inr (u, found) ↦
              ap (λ o. look o m') found
              ∙ (elim (Bool-cases ((u.0 == s.0) && (u.1 == s.1))) [
                | inl here ↦ absurd (ne u found (ground (arith, here)) (ground (arith, here)))
                | inr away ↦ rw away refl
              ]
                  ∙ sym (ap (λ o. look o m) found))
        ] in
      pte_from-look l p va m' ∙ (ap (λ o. look o m') way ∙ (same ∙ sym (pte_from-look l p va m)))

at_slot-look : (o : Option Slot) (m : Memory) → at_slot o m ≡ user_pa (look o m)
at_slot-look none m = refl
at_slot-look (some s) m = refl

-- `walkaddr` by the word of the address.
pub walkaddr-pte :
    (r va : ℕ) (m : Memory)
    → walkaddr r va m ≡ (if leb maxva va then none else user_pa (pte_from 2 r va m))
unfolding walkaddr
walkaddr-pte r va m = elim (Bool-cases (leb maxva va)) [
  | inl out ↦ rw out refl
  | inr fits ↦
      rw fits
        (at_slot-look (walk_from false 2 r va m).0 m ∙ sym (ap user_pa (pte_from-look 2 r va m)))
]
