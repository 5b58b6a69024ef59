-- ===== src/Vm/Teardown.antt =====
-- kernel/vm.c: `freewalk` gives the pages of one page table back, and leaves all others alone.
use os_assignment.Prelude.{
  ℕ, zero, suc, ◌+◌, ◌*◌, ◌%◌, ◌≤◌, ◌≡◌, ◌≢◌, ◌∙◌, inl, inr, refl, sym, ap, ◌==◌, arith, update,
  Bool-cases,
}
use mathlib.Core.Path.{subst}
use os_assignment.Prelude.Outcome.{Outcome, Sure, map-Sure}
use os_assignment.Pages.{pgsize}
use os_assignment.Vm.{Memory}
use os_assignment.Vm.Tables.{
  Purpose, table, user, other, Agrees, IsSound, IsHeld, update_ne, update_self, update-levels,
}
use os_assignment.Vm.Calls.{table-gone}

-- Only one word leads to a page table.
unlinked-Agrees :
    (place : ℕ → Purpose) (c q0 j0 : ℕ) {l' a' : ℕ} (u : Purpose) (p j pte : ℕ)
    → place c ≡ table l' a' q0 j0
    → (p ≡ q0 → j ≢ j0)
    → Agrees place u p j pte
    → Agrees (update place c other) u p j pte
unlinked-Agrees place c q0 j0 {l'} {a'} (table (suc l) a q i) p j pte o ne h = λ valid.
    update_ne place c other _ (λ e.
      let same : table l (a * 512 + j) p j ≡ table l' a' q0 j0 = sym (h valid) ∙ ap place e ∙ o in
      absurd (ne (cc same) (cc same)))
    ∙ h valid
unlinked-Agrees place c q0 j0 (table zero a q i) p j pte o ne h = λ valid. (
  λ lt.
      update_ne place c other _ (λ e. absurd (cc ((h valid).0 lt, o, ap place e))) ∙ (h valid).0 lt,
  (h valid).1,
)
unlinked-Agrees place c q0 j0 (user q i) p j pte o ne h = tt
unlinked-Agrees place c q0 j0 other p j pte o ne h = tt

-- The words of page `p` from `i` on are those of a page table of `level`, though it is one no longer.
abbrev pub Hangs : (ℕ → Purpose) → (level a p i : ℕ) → Memory → Type 0
Hangs place level a p i m = (j : ℕ) → i ≤ j → Agrees place (table level a 0 0) p j (m.words p j)

-- What is left once page `gone` and the page tables below `level` have gone. The pages that others
-- hold are left alone.
pub record Swept (place : ℕ → Purpose) (level gone : ℕ) (m n : Memory) : Type 0 where
  pub place' : ℕ → Purpose
  pub sound : IsSound place' n
  pub keeps : (p : ℕ) {l a q i : ℕ} → level ≤ l → place p ≡ table l a q i → place' p ≡ table l a q i
  pub helds : (q : ℕ) → q ≢ gone → IsHeld place m.free q → IsHeld place' n.free q
  pub words : (q : ℕ) → q ≢ gone → IsHeld place m.free q → (k : ℕ) → n.words q k ≡ m.words q k

unfoldable pub then-Swept :
    (place : ℕ → Purpose) (level gone : ℕ) (m n k : Memory) (s : Swept place level gone m n)
    → Swept s.place' level gone n k
    → Swept place level gone m k
then-Swept place level gone m n k s t = record {
  place' = t.place';
  sound = t.sound;
  keeps = λ p le e. t.keeps p le (s.keeps p le e);
  helds = λ q ne h. t.helds q ne (s.helds q ne h);
  words = λ q ne h j. t.words q ne (s.helds q ne h) j ∙ s.words q ne h j;
}

any_parent-Agrees :
    (place : ℕ → Purpose) (l a q i p j pte : ℕ)
    → Agrees place (table l a q i) p j pte
    → Agrees place (table l a 0 0) p j pte
any_parent-Agrees place zero a q i p j pte h = h
any_parent-Agrees place (suc l) a q i p j pte h = h

-- What a call of `freewalk` on a page table of a level does.
abbrev pub Frees : (level : ℕ) → (ℕ → Memory → Outcome Memory) → Type 0
Frees level go =
    (c : ℕ) (place : ℕ → Purpose) (m : Memory) (a : ℕ)
    → IsSound place m
    → IsHeld place m.free c
    → Hangs place level a c 0 m
    → Sure (Swept place level c m) (go c m)

module _ (place : ℕ → Purpose) (m : Memory) (h : IsSound place m) (c : ℕ) {l a q i : ℕ}
    (at : place c ≡ table l a q i) where
  -- A page table that no other word leads to is used no longer.
  pub unlinked-IsSound :
      ((p j : ℕ) → Agrees (update place c other) (place p) p j (m.words p j))
      → IsSound (update place c other) m
  unlinked-IsSound others = record {
    agrees = λ p j. elim (Bool-cases (p == c)) [
      | inl is_c ↦
          let is_other : update place c other p ≡ other =
            ap (update place c other) (ground (arith, is_c)) ∙ update_self place c other in
          subst (λ u. Agrees (update place c other) u p j (m.words p j)) (sym is_other) tt
      | inr no_c ↦
          subst (λ u. Agrees (update place c other) u p j (m.words p j))
            (sym (update_ne place c other p (ground (arith, no_c)))) (others p j)
    ];
    spare = λ p ne. (
      elim (Bool-cases (p == c)) [ inl is_c ↦ rw is_c refl | inr no_c ↦ rw no_c (h.spare p ne).0 ],
      (h.spare p ne).1,
    );
    once = h.once;
    levels =
        update-levels place c other (λ p l a q i k. h.levels p k) (λ l' a' q' i' k. absurd (cc));
  }

  pub unlinked-IsHeld : c % pgsize ≡ 0 → IsHeld (update place c other) m.free c
  unlinked-IsHeld aligned = record {
    unused = update_self place c other;
    gone = table-gone place m c h at;
    aligned = aligned;
  }

-- No word leads to a page table of level 2.
pub root-Agrees :
    (place : ℕ → Purpose) (c : ℕ) {a' q' i' : ℕ} (u : Purpose) (p j pte : ℕ)
    → place c ≡ table 2 a' q' i'
    → ((l a q i : ℕ) → u ≡ table l a q i → l ≤ 2)
    → Agrees place u p j pte
    → Agrees (update place c other) u p j pte
root-Agrees place c {a'} {q'} {i'} (table (suc l) a q i) p j pte o levels h = λ valid.
    update_ne place c other _ (λ e.
      let same : table l (a * 512 + j) p j ≡ table 2 a' q' i' = sym (h valid) ∙ ap place e ∙ o in
      let is_two : l ≡ 2 = cc same in
      let fits : suc l ≤ 2 = levels (suc l) a q i refl in omega arith)
    ∙ h valid
root-Agrees place c (table zero a q i) p j pte o levels h = λ valid. (
  λ lt.
      update_ne place c other _ (λ e. absurd (cc ((h valid).0 lt, o, ap place e))) ∙ (h valid).0 lt,
  (h valid).1,
)
root-Agrees place c (user q i) p j pte o levels h = tt
root-Agrees place c other p j pte o levels h = tt

module _ (place : ℕ → Purpose) (m : Memory) (h : IsSound place m) (page : ℕ)
    (held : IsHeld place m.free page) (l a i c : ℕ)
    (at : place c ≡ table l (a * 512 + i) page i) where
  not_page : page ≢ c
  not_page e = absurd (cc (ap place e, held.unused, at))

  unlinked-child : IsSound (update place c other) m
  unlinked-child = unlinked-IsSound place m h c at (λ p j. elim (Bool-cases (p == page)) [
    | inl is_page ↦
        let e : p ≡ page = ground (arith, is_page) in
        subst (λ u. Agrees (update place c other) u p j (m.words p j))
          (sym (ap place e ∙ held.unused)) tt
    | inr no_page ↦
        unlinked-Agrees place c page i (place p) p j (m.words p j) at
          (λ e. absurd (ground (arith, no_page, e))) (h.agrees p j)
  ])

  child-Hangs : Hangs (update place c other) l (a * 512 + i) c 0 m
  child-Hangs j le =
      unlinked-Agrees place c page i (table l (a * 512 + i) 0 0) c j (m.words c j) at
        (λ e. absurd (not_page (sym e)))
        (any_parent-Agrees place l (a * 512 + i) page i c j (m.words c j)
          (subst (λ u. Agrees place u c j (m.words c j)) at (h.agrees c j)))

  others-IsHeld : (q : ℕ) → IsHeld place m.free q → IsHeld (update place c other) m.free q
  others-IsHeld q o = record {
    unused = update_ne place c other q (λ e. absurd (cc (ap place e, o.unused, at))) ∙ o.unused;
    gone = o.gone;
    aligned = o.aligned;
  }

  level_apart : (p : ℕ) {l' a' q' i' : ℕ} → suc l ≤ l' → place p ≡ table l' a' q' i' → p ≢ c
  level_apart p {l'} {a'} {q'} {i'} le e same =
      let tables : table l' a' q' i' ≡ table l (a * 512 + i) page i = sym e ∙ ap place same ∙ at in
      let levels : l' ≡ l = cc tables in omega arith

  -- A call of `freewalk` on the page table below word `i`, in the loop over the words of `page`.
  pub child-Swept :
      (go : ℕ → Memory → Outcome Memory)
      → Frees l go
      → c % pgsize ≡ 0
      → Hangs place (suc l) a page (i + 1) m
      → Sure
          (λ n.
            (s : Swept place (suc l) page m n) × IsHeld s.place' n.free page
            × Hangs s.place' (suc l) a page (i + 1) n)
          (go c m)
  child-Swept go frees aligned hangs =
      let place1 : ℕ → Purpose = update place c other in
      map-Sure (Swept place1 l c m) _ (go c m)
        (frees c place1 m (a * 512 + i) unlinked-child (unlinked-IsHeld place m h c at aligned)
          child-Hangs)
        (λ n s.
          let differs : (q : ℕ) → IsHeld place m.free q → q ≢ c =
            λ q o e. absurd (cc (ap place e, o.unused, at)) in
          (
            record {
              place' = s.place';
              sound = s.sound;
              keeps = λ p le e.
                  s.keeps p (omega arith) (update_ne place c other p (level_apart p le e) ∙ e);
              helds = λ q ne o. s.helds q (differs q o) (others-IsHeld q o);
              words = λ q ne o. s.words q (differs q o) (others-IsHeld q o);
            },
            s.helds page not_page (others-IsHeld page held),
            λ j le.
                let word = s.words page not_page (others-IsHeld page held) j in
                let before =
                  unlinked-Agrees place c page i (table (suc l) a 0 0) page j (m.words page j) at
                    (λ _. omega arith) (hangs j le) in
                subst (λ pte. Agrees s.place' (table (suc l) a 0 0) page j pte) (sym word)
                  (λ valid. s.keeps _ (omega arith) (before valid)),
          ))
