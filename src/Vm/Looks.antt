-- ===== src/Vm/Looks.antt =====
-- kernel/vm.c: `walk` finds a word that it finds again, and changes no page table's meaning.
use os_assignment.Prelude.{
  ℕ, zero, suc, ◌+◌, ◌*◌, ◌≤◌, ◌≡◌, ◌∙◌, inl, inr, refl, sym, ap, true, false, Option, some, List,
  [], ◌∷◌, arith, update, Bool-cases,
}
use os_assignment.Pages.{kalloc}
use os_assignment.Vm.{
  px, pa_pte, pte_pa, is_valid, Memory, set_free, add_table, Slot, link, walk_from,
}
use os_assignment.Vm.Tables.{
  Purpose, table, IsSound, take_lem, update_ne, update_self, pte_pa-pa_pte,
}
use os_assignment.Vm.Changes.{link-IsSound}
use os_assignment.Vm.Walks.{prefix_of, prefix_of-px, below}
use os_assignment.Vm.Entries.{pte_from, linked-pte, elsewhere, linked_word, pte_from-same}

-- Page tables say what they said, and keep their valid words.
pub record IsSteady (place : ℕ → Purpose) (m n : Memory) : Type 0 where
  pub ptes :
      (l p va : ℕ) {b r t : ℕ} → place p ≡ table l b r t → pte_from l p va n ≡ pte_from l p va m
  pub kept :
      (p j : ℕ) {l b r t : ℕ}
      → place p ≡ table l b r t
      → is_valid (m.words p j) ≡ true
      → n.words p j ≡ m.words p j

pub same-IsSteady : (place : ℕ → Purpose) (m n : Memory) → n.words ≡ m.words → IsSteady place m n
same-IsSteady place m n e = record {
  ptes = λ l p va _. pte_from-same l p va m n e;
  kept = λ p j _ _. ap (λ (w : ℕ → ℕ → ℕ). w p j) e;
}

then-IsSteady :
    (place place' : ℕ → Purpose) (m n k : Memory)
    → ((p l b r t : ℕ) → place p ≡ table l b r t → place' p ≡ table l b r t)
    → IsSteady place m n
    → IsSteady place' n k
    → IsSteady place m k
then-IsSteady place place' m n k tables s t = record {
  ptes = λ l p va e. t.ptes l p va (tables p l _ _ _ e) ∙ s.ptes l p va e;
  kept = λ p j e valid.
      t.kept p j (tables p _ _ _ _ e) (ap is_valid (s.kept p j e valid) ∙ valid)
      ∙ s.kept p j e valid;
}

-- What `walk` leaves.
pub record Looked (place : ℕ → Purpose) (m : Memory) (l page va : ℕ) (r : Option Slot × Memory)
    : Type 0 where
  pub steady : IsSteady place m r.1
  pub again : (s : Slot) → r.0 ≡ some s → (walk_from false l page va r.1).0 ≡ some s

-- A step down at a valid word.
pub walk_from-down :
    (l page va : ℕ) (m : Memory) {w : ℕ}
    → m.words page (px (suc l) va) ≡ w
    → is_valid w ≡ true
    → (walk_from false (suc l) page va m).0 ≡ (walk_from false l (pte_pa w) va m).0
unfolding walk_from
walk_from-down l page va m e valid = rw (e, valid) refl

link-Looked :
    (page j va : ℕ) (place : ℕ → Purpose) (m : Memory) (l : ℕ) {a q i : ℕ} (n : ℕ)
    → a * 512 + j ≡ n
    → j ≡ px (suc l) va
    → (go : ℕ → Memory → Option Slot × Memory) → (free : List ℕ) → m.free ≡ free
    → place page ≡ table (suc l) a q i
    → is_valid (m.words page j) ≡ false
    → IsSound place m
    → ((child : ℕ) (place' : ℕ → Purpose) (m' : Memory)
        → place' child ≡ table l n page j
        → IsSound place' m'
        → Looked place' m' l child va (go child m'))
    → Looked place m (suc l) page va (link page j go (kalloc free) m)
unfolding link kalloc
link-Looked page j va place m l n step is_j go [] f e invalid h ih = record {
  steady = same-IsSteady place m (set_free [] m) refl;
  again = λ s found. absurd (cc);
}
link-Looked page j va place m l n step is_j go (c ∷ free) f e invalid h ih =
    let m0 = set_free free m in
    let (taken, held) = take_lem place m c free f h in
    let v = table l n page j in
    let linked =
      link-IsSound place m0 taken c held v page j e (ap (λ k. table l k page j) (sym step)) in
    let m1 = add_table page j c m0 in
    let place1 : ℕ → Purpose = update place c v in
    let tables : (p l b r t : ℕ) → place p ≡ table l b r t → place1 p ≡ table l b r t =
      λ p l b r t e'.
        update_ne place c v p (λ same. absurd (cc (e', held.unused, ap place same))) ∙ e' in
    let first : IsSteady place m m1 = record {
      ptes = λ l p va e'.
          linked-pte place m0 taken page j c held e invalid l p va e'
          ∙ pte_from-same l p va m m0 refl;
      kept = λ p x e' valid.
          elsewhere page j c m0 p x (λ same. absurd (cc (e', held.unused, ap place same)))
            (λ is_page x_j.
              let same : m.words p x ≡ m.words page j =
                ap (λ y. m.words y x) is_page ∙ ap (λ y. m.words page y) x_j in
              absurd (cc (valid, invalid, ap is_valid same)));
    } in
    let w = ih c place1 m1 (update_self place c v) linked in
    record {
      steady = then-IsSteady place place1 m m1 _ tables first w.steady;
      again = λ s found.
          let word : m1.words page j ≡ pa_pte c + 1 = linked_word page j c m0 in
          let valid : is_valid (pa_pte c + 1) ≡ true = ground arith in
          let last =
            w.steady.kept page j (tables page _ _ _ _ e) (ap is_valid word ∙ valid) ∙ word in
          let r1 = (go c m1).1 in
          let at_px : r1.words page (px (suc l) va) ≡ pa_pte c + 1 =
            ap (λ y. r1.words page y) (sym is_j) ∙ last in
          let child : pte_pa (pa_pte c + 1) ≡ c = pte_pa-pa_pte c 1 held.aligned (omega arith) in
          walk_from-down l page va r1 at_px valid
          ∙ (ap (λ y. (walk_from false l y va r1).0) child ∙ w.again s found);
    }

pub walk_from-Looked :
    (l page va : ℕ) (place : ℕ → Purpose) (m : Memory) {q i : ℕ}
    → l ≤ 2
    → place page ≡ table l (prefix_of l va) q i
    → IsSound place m
    → Looked place m l page va (walk_from true l page va m)
unfolding walk_from
walk_from-Looked zero page va place m le e h = record {
  steady = same-IsSteady place m m refl;
  again = λ s found. found;
}
walk_from-Looked (suc l) page va place m le e h =
    let j = px (suc l) va in
    let pte = m.words page j in
    elim (Bool-cases (is_valid pte)) [
      | inl valid ↦
          let w =
            walk_from-Looked l (pte_pa pte) va place m (omega arith)
              (below l page va place m (omega arith) e h valid) h in
          rw valid (record {
            steady = w.steady;
            again = λ s found.
                walk_from-down l page va (walk_from true l (pte_pa pte) va m).1
                  (w.steady.kept page j e valid) valid
                ∙ w.again s found;
          })
      | inr invalid ↦ rw invalid (
          link-Looked page j va place m l _ (prefix_of-px l va (omega arith)) refl
            (λ child. walk_from true l child va) m.free refl e invalid h
            (λ child place' n c s. walk_from-Looked l child va place' n (omega arith) c s))
    ]
