-- ===== src/Vm/Changes.antt =====
-- kernel/vm.c: the ways in which page tables and free pages change.
use os_assignment.Prelude.{
  ℕ, suc, ◌+◌, ◌*◌, ◌%◌, ◌<◌, ◌≤◌, ◌≡◌, ◌≢◌, ◌∙◌, inl, inr, refl, sym, ap, ◌&&◌, ◌∷◌, ◌==◌, arith,
  update, Bool-cases,
}
use mathlib.Core.Path.{subst}
use os_assignment.Pages.{pgsize}
use os_assignment.Pages.Partition.{occurs}
use os_assignment.Vm.{
  pa_pte, pte_pa, leaf_pte, Memory, put_cell, put_page, set_free, fill_page, add_table, store_pte,
}
use os_assignment.Vm.Tables.{
  user_pages, Purpose, table, user, other, Agrees, IsSound, IsHeld, update_ne, update_self,
  update-levels, apart, pte_pa-pa_pte, no_word-Agrees, held-Agrees, freed-Agrees,
}

module _ (place : ℕ → Purpose) where
  -- What a table says after one word of it is written.
  pub put_cell-Agrees :
      (page i v : ℕ) (f : ℕ → ℕ → ℕ)
      → Agrees place (place page) page i v
      → ((p j : ℕ) → (p ≡ page → j ≢ i) → Agrees place (place p) p j (f p j))
      → (p j : ℕ) → Agrees place (place p) p j (put_cell page i v f p j)
  put_cell-Agrees page i v f here there p j = elim (Bool-cases ((p == page) && (j == i))) [
    | inl e ↦
        let same_page : page ≡ p = ground (arith, e) in
        let same : i ≡ j = ground (arith, e) in
        rw e (
          subst (λ q. Agrees place (place q) q j v) same_page
            (subst (λ k. Agrees place (place page) page k v) same here))
    | inr e ↦ rw e (there p j (λ p_same j_same. absurd (ground (arith, e, p_same, j_same))))
  ]

  put_page-Agrees :
      (c : ℕ) (g : ℕ → ℕ) (f : ℕ → ℕ → ℕ) (p j : ℕ)
      → Agrees place (place c) c j (g j)
      → (p ≢ c → Agrees place (place p) p j (f p j))
      → Agrees place (place p) p j (put_page c g f p j)
  put_page-Agrees c g f p j here there = elim (Bool-cases (p == c)) [
    | inl e ↦
        let same : c ≡ p = ground (arith, e) in
        rw e (subst (λ q. Agrees place (place q) q j (g j)) same here)
    | inr e ↦ rw e (there (λ same. absurd (ground (arith, e, same))))
  ]

module _ (place : ℕ → Purpose) (m : Memory) (h : IsSound place m) (c : ℕ) where
  -- A page that is not in use is written.
  pub other-Agrees :
      (g : ℕ → ℕ) (p j : ℕ)
      → place c ≡ other
      → Agrees place (place p) p j (put_page c g m.words p j)
  other-Agrees g p j o =
      put_page-Agrees place c g m.words p j (subst (λ v. Agrees place v c j (g j)) (sym o) tt)
        (λ ne. h.agrees p j)

  pub overwrite-IsSound :
      (g : ℕ → ℕ) (bytes : ℕ → ℕ → ℕ)
      → place c ≡ other
      → IsSound place (record m { words = put_page c g m.words; byte = bytes })
  overwrite-IsSound g bytes o = record {
    agrees = λ p j. other-Agrees g p j o;
    spare = h.spare;
    once = h.once;
    levels = h.levels;
  }

  module _ (held : IsHeld place m.free c) (v : Purpose) where
    -- All other words agree once page `c` is put to use.
    used-Agrees :
        (p j : ℕ) → p ≢ c → Agrees (update place c v) (update place c v p) p j (m.words p j)
    used-Agrees p j ne =
        subst (λ u. Agrees (update place c v) u p j (m.words p j)) (sym (update_ne place c v p ne))
          (held-Agrees place c v (place p) p j (m.words p j) held.unused (h.agrees p j))

    used_spare : (p : ℕ) → occurs p m.free ≢ 0 → (update place c v p ≡ other) × (p % pgsize ≡ 0)
    used_spare p ne = (
      update_ne place c v p (λ e. ne (ap (λ q. occurs q m.free) e ∙ held.gone)) ∙ (h.spare p ne).0,
      (h.spare p ne).1,
    )

    -- `walk` links a page table.
    pub link-IsSound :
        (page i : ℕ) {l a q j : ℕ}
        → place page ≡ table (suc l) a q j
        → v ≡ table l (a * 512 + i) page i
        → IsSound (update place c v) (add_table page i c m)
    link-IsSound page i {l} {a} {q} {j} e is_v =
        let place' : ℕ → Purpose = update place c v in
        let at : place' page ≡ table (suc l) a q j =
          update_ne place c v page (apart place e (λ k. absurd (cc)) held.unused) ∙ e in
        let new : Agrees place' (table (suc l) a q j) page i (pa_pte c + 1) = λ valid.
          ap place' (pte_pa-pa_pte c 1 held.aligned (omega arith))
          ∙ (update_self place c v ∙ is_v) in
        record {
          agrees =
              put_cell-Agrees place' page i (pa_pte c + 1) _
                (subst (λ u. Agrees place' u page i (pa_pte c + 1)) (sym at) new)
                (λ p k ne.
                  put_page-Agrees place' c (λ k. 0) m.words p k
                    (no_word-Agrees place' (place' c) c k 0 refl) (used-Agrees p k));
          spare = used_spare;
          once = h.once;
          levels =
              update-levels place c v (λ p l a q i k. h.levels p k)
                (λ l' a' q' i' k.
                  let same : l ≡ l' = cc (is_v, k) in
                  let fits : suc l ≤ 2 = h.levels page e in omega arith);
        }

    -- `uvmcreate` makes a page table.
    pub root-IsSound : v ≡ table 2 0 0 0 → IsSound (update place c v) (fill_page c 0 0 m)
    root-IsSound is_v = record {
      agrees = λ p k.
          put_page-Agrees (update place c v) c (λ _. 0) m.words p k
            (no_word-Agrees (update place c v) (update place c v c) c k 0 refl) (used-Agrees p k);
      spare = used_spare;
      once = h.once;
      levels =
          update-levels place c v (λ p l a q i k. h.levels p k)
            (λ l a q i k. let same : 2 ≡ l = cc (is_v, k) in omega arith);
    }

    -- `mappages` maps a page of a process.
    pub map-IsSound :
        (page i perm : ℕ) {a q j : ℕ}
        → place page ≡ table 0 a q j
        → a * 512 + i < user_pages
        → perm < 1024
        → v ≡ user page i
        → IsSound (update place c v) (store_pte (page, i) (leaf_pte c perm) m)
    map-IsSound page i perm {a} {q} {j} e lt small is_v =
        let place' : ℕ → Purpose = update place c v in
        let at : place' page ≡ table 0 a q j =
          update_ne place c v page (apart place e (λ k. absurd (cc)) held.unused) ∙ e in
        let is_c : pte_pa (leaf_pte c perm) ≡ c = ground (arith, held.aligned, small) in
        let new : Agrees place' (table 0 a q j) page i (leaf_pte c perm) = λ valid.
          (λ _. ap place' is_c ∙ (update_self place c v ∙ is_v), λ ge. absurd (omega arith)) in
        record {
          agrees =
              put_cell-Agrees place' page i (leaf_pte c perm) m.words
                (subst (λ u. Agrees place' u page i (leaf_pte c perm)) (sym at) new)
                (λ p k ne. elim (Bool-cases (p == c)) [
                  | inl same ↦
                      subst (λ u. Agrees place' u p k (m.words p k))
                        (sym (ap place' (ground (arith, same)) ∙ (update_self place c v ∙ is_v))) tt
                  | inr differ ↦ used-Agrees p k (ground (arith, differ))
                ]);
          spare = used_spare;
          once = h.once;
          levels =
              update-levels place c v (λ p l a q i k. h.levels p k)
                (λ l' a' q' i' k. absurd (cc (is_v, k)));
        }

  -- A word of a page table of level 0 is written, and no page changes its use.
  pub store_pte-IsSound :
      (page i v : ℕ) {a q j : ℕ}
      → place page ≡ table 0 a q j
      → Agrees place (table 0 a q j) page i v
      → IsSound place (store_pte (page, i) v m)
  store_pte-IsSound page i v {a} {q} {j} e new = record {
    agrees =
        put_cell-Agrees place page i v m.words (subst (λ u. Agrees place u page i v) (sym e) new)
          (λ p k _. h.agrees p k);
    spare = h.spare;
    once = h.once;
    levels = h.levels;
  }

  -- `kfree`, of a page that is not in use.
  pub give_back-IsSound :
      (w b : ℕ) → IsHeld place m.free c → IsSound place (fill_page c w b (set_free (c ∷ m.free) m))
  give_back-IsSound w b held = record {
    agrees = λ p j. other-Agrees (λ _. w) p j held.unused;
    spare = λ p ne. elim (Bool-cases (c == p)) [
      | inl e ↦
          let same : c ≡ p = ground (arith, e) in
          (ap place (sym same) ∙ held.unused, subst (λ q. q % pgsize ≡ 0) same held.aligned)
      | inr e ↦ h.spare p (ground (arith, ne, e))
    ];
    once = λ p. ground (arith, h.once p, held.gone);
    levels = h.levels;
  }

  -- `uvmunmap` with `do_free`.
  pub unmap-IsSound :
      (page i w b : ℕ) {a q j : ℕ}
      → place page ≡ table 0 a q j
      → place c ≡ user page i
      → c % pgsize ≡ 0
      → IsSound
          (update place c other)
          (store_pte (page, i) 0 (fill_page c w b (set_free (c ∷ m.free) m)))
  unmap-IsSound page i w b {a} {q} {j} e o aligned =
      let place' : ℕ → Purpose = update place c other in
      let gone : occurs c m.free ≡ 0 = elim (Bool-cases (occurs c m.free == 0)) [
        | inl none_left ↦ ground (arith, none_left)
        | inr left ↦ absurd (cc ((h.spare c (ground (arith, left))).0, o))
      ] in
      record {
        agrees =
            put_cell-Agrees place' page i 0 _ (no_word-Agrees place' (place' page) page i 0 refl)
              (λ p k ne.
                put_page-Agrees place' c (λ _. w) m.words p k
                  (subst (λ u. Agrees place' u c k w) (sym (update_self place c other)) tt)
                  (λ differ.
                    subst (λ u. Agrees place' u p k (m.words p k))
                      (sym (update_ne place c other p differ))
                      (freed-Agrees place c page i (place p) p k (m.words p k) o ne
                        (h.agrees p k))));
        spare = λ p ne. elim (Bool-cases (c == p)) [
          | inl same ↦
              let is_c : c ≡ p = ground (arith, same) in
              (
                ap place' (sym is_c) ∙ update_self place c other,
                subst (λ q. q % pgsize ≡ 0) is_c aligned,
              )
          | inr differ ↦
              let differs : p ≢ c = λ is_c. absurd (ground (arith, differ, is_c)) in
              let (unused, at) = h.spare p (ground (arith, ne, differ)) in
              (update_ne place c other p differs ∙ unused, at)
        ];
        once = λ p. ground (arith, h.once p, gone);
        levels =
            update-levels place c other (λ p l a q i k. h.levels p k)
              (λ l' a' q' i' k. absurd (cc));
      }
