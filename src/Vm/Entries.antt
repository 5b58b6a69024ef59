-- ===== src/Vm/Entries.antt =====
-- kernel/vm.c: what a page table says of an address, as a function.
use os_assignment.Prelude.{
  ℕ, zero, suc, ◌+◌, ◌*◌, ◌≡◌, ◌≢◌, ◌∙◌, inl, inr, refl, sym, ap, true, false, ◌&&◌, Option, none,
  some, ◌==◌, arith, if◌then◌else◌, Bool-cases,
}
use mathlib.Core.Path.{subst}
use os_assignment.Vm.{px, pa_pte, pte_pa, is_valid, Memory, add_table, Slot, load_pte, walk_from}
use os_assignment.Vm.Tables.{Purpose, table, Agrees, IsSound, IsHeld, pte_pa-pa_pte}

-- The word of an address, 0 where there is none.
abbrev pub pte_from : (level page va : ℕ) → Memory → ℕ
pte_from zero page va m = m.words page (px 0 va)
pte_from (suc l) page va m =
    let pte = m.words page (px (suc l) va) in
    let down = pte_from l (pte_pa pte) va m in if is_valid pte then down else 0

abbrev pub look : Option Slot → Memory → ℕ
look none m = 0
look (some s) m = load_pte m s

pub pte_from-look :
    (l page va : ℕ) (m : Memory) → pte_from l page va m ≡ look (walk_from false l page va m).0 m
unfolding walk_from
pte_from-look zero page va m = refl
pte_from-look (suc l) page va m =
    let pte = m.words page (px (suc l) va) in
    elim (Bool-cases (is_valid pte)) [
      | inl valid ↦ rw valid (pte_from-look l (pte_pa pte) va m)
      | inr invalid ↦ rw invalid refl
    ]

pub pte_from-same :
    (l page va : ℕ) (m n : Memory) → n.words ≡ m.words → pte_from l page va n ≡ pte_from l page va m
pte_from-same zero page va m n e = ap (λ (w : ℕ → ℕ → ℕ). w page (px 0 va)) e
pte_from-same (suc l) page va m n e =
    let pte = m.words page (px (suc l) va) in
    let same : n.words page (px (suc l) va) ≡ pte =
      ap (λ (w : ℕ → ℕ → ℕ). w page (px (suc l) va)) e in
    elim (Bool-cases (is_valid pte)) [
      | inl valid ↦ rw (same, valid) (pte_from-same l (pte_pa pte) va m n e)
      | inr invalid ↦ rw (same, invalid) refl
    ]

-- A page of zeros leads nowhere.
pte_from-zeros :
    (l page va : ℕ) (m : Memory) → ((j : ℕ) → m.words page j ≡ 0) → pte_from l page va m ≡ 0
pte_from-zeros zero page va m z = z (px 0 va)
pte_from-zeros (suc l) page va m z = rw (z (px (suc l) va)) refl

pub pte_step :
    (l page va : ℕ) (m : Memory) {w : ℕ}
    → m.words page (px (suc l) va) ≡ w
    → is_valid w ≡ true
    → pte_from (suc l) page va m ≡ pte_from l (pte_pa w) va m
pte_step l page va m e valid = rw (e, valid) refl

pub pte_stop :
    (l page va : ℕ) (m : Memory)
    → is_valid (m.words page (px (suc l) va)) ≡ false
    → pte_from (suc l) page va m ≡ 0
pte_stop l page va m invalid = rw invalid refl

-- The words behind `add_table`.
module _ (page i c : ℕ) (m : Memory) where
  pub elsewhere :
      (p x : ℕ) → p ≢ c → (p ≡ page → x ≢ i) → (add_table page i c m).words p x ≡ m.words p x
  elsewhere p x not_c ne = elim (Bool-cases ((p == page) && (x == i))) [
    | inl here ↦ absurd (ne (ground (arith, here)) (ground (arith, here)))
    | inr away ↦ rw away (elim (Bool-cases (p == c)) [
      | inl is_c ↦ absurd (not_c (ground (arith, is_c)))
      | inr no_c ↦ rw no_c refl
    ])
  ]

  pub linked_word : (add_table page i c m).words page i ≡ pa_pte c + 1
  linked_word = ground arith

  cleared : (n : ℕ) → c ≢ page → (add_table page i c m).words c n ≡ 0
  cleared n ne = elim (Bool-cases ((c == page) && (n == i))) [
    | inl here ↦ absurd (ne (ground (arith, here)))
    | inr away ↦ rw away (ground arith)
  ]

module _ (place : ℕ → Purpose) (m : Memory) (h : IsSound place m) where
  -- Where a valid word of a page table leads.
  pub leads :
      (l p j : ℕ) {a q i : ℕ}
      → place p ≡ table (suc l) a q i
      → is_valid (m.words p j) ≡ true
      → place (pte_pa (m.words p j)) ≡ table l (a * 512 + j) p j
  leads l p j e valid = (subst (λ u. Agrees place u p j (m.words p j)) e (h.agrees p j)) valid

  -- A new page table below an invalid word changes nothing.
  pub linked-pte :
      (page i c : ℕ) {k a q j : ℕ}
      → IsHeld place m.free c
      → place page ≡ table (suc k) a q j
      → is_valid (m.words page i) ≡ false
      → (l p va : ℕ) {b r t : ℕ} → place p ≡ table l b r t
      → pte_from l p va (add_table page i c m) ≡ pte_from l p va m
  linked-pte page i c {k} held at invalid zero p va e =
      let not_c : p ≢ c = λ same. absurd (cc (e, held.unused, ap place same)) in
      let not_page : p ≢ page = λ same.
        let tables : table 0 _ _ _ ≡ table (suc k) _ _ _ = sym e ∙ ap place same ∙ at in
        let levels : 0 ≡ suc k = cc tables in omega arith in
      elsewhere page i c m p (px 0 va) not_c (λ same. absurd (not_page same))
  linked-pte page i c {k} held at invalid (suc l) p va e =
      let m' = add_table page i c m in
      let x = px (suc l) va in
      let not_c : p ≢ c = λ same. absurd (cc (e, held.unused, ap place same)) in
      elim (Bool-cases ((p == page) && (x == i))) [
        | inl here ↦
            let is_page : page ≡ p = ground (arith, here) in
            let is_i : i ≡ x = ground (arith, here) in
            let new : m'.words p x ≡ pa_pte c + 1 = rw here refl in
            let valid : is_valid (pa_pte c + 1) ≡ true = ground arith in
            let old : is_valid (m.words p x) ≡ false =
              subst (λ y. is_valid (m.words p y) ≡ false) is_i
                (subst (λ y. is_valid (m.words y i) ≡ false) is_page invalid) in
            let zeros : (n : ℕ) → m'.words c n ≡ 0 =
              λ n. cleared page i c m n (λ same. absurd (not_c (sym is_page ∙ sym same))) in
            let child : pte_pa (pa_pte c + 1) ≡ c = pte_pa-pa_pte c 1 held.aligned (omega arith) in
            pte_step l p va m' new valid
            ∙ (ap (λ y. pte_from l y va m') child ∙ pte_from-zeros l c va m' zeros)
            ∙ sym (pte_stop l p va m old)
        | inr away ↦
            let same : m'.words p x ≡ m.words p x =
              elsewhere page i c m p x not_c
                (λ p_same x_same. absurd (ground (arith, away, p_same, x_same))) in
            elim (Bool-cases (is_valid (m.words p x))) [
              | inl valid ↦
                  pte_step l p va m' same valid
                  ∙ (linked-pte page i c held at invalid l (pte_pa (m.words p x)) va
                        (leads l p x e valid)
                      ∙ sym (pte_step l p va m refl valid))
              | inr stops ↦
                  pte_stop l p va m' (ap is_valid same ∙ stops) ∙ sym (pte_stop l p va m stops)
            ]
      ]
