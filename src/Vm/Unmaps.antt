-- ===== src/Vm/Unmaps.antt =====
-- kernel/vm.c: `uvmunmap` takes pages out of the map of one process.
use os_assignment.Prelude.{
  ℕ, zero, suc, ◌+◌, ◌*◌, ◌/◌, ◌<◌, ◌≤◌, ◌≡◌, ◌≢◌, ◌∙◌, inl, inr, refl, sym, ap, Bool, true, false,
  ◌&&◌, Option, none, some, ◌∷◌, ◌==◌, ltb, leb, arith, if◌then◌else◌, update, Bool-cases,
}
use mathlib.Core.Path.{subst, fun_ext}
use os_assignment.Prelude.Outcome.{Outcome, ok, panic, Sure, bind-Sure, map-Sure}
use os_assignment.Pages.{pgsize}
use os_assignment.Vm.{
  maxva, px, pte_pa, flags, is_valid, Memory, set_free, fill_page, put_cell, put_page, Slot,
  load_pte, store_pte, user_pa, walk_from, walk, walkaddr,
}
use os_assignment.Vm.Space.{release, unmap_slot, unmap_from}
use os_assignment.Vm.Tables.{
  user_pages, Purpose, table, user, other, Agrees, IsSound, no_word-Agrees, update_ne,
}
use os_assignment.Vm.Changes.{store_pte-IsSound, unmap-IsSound}
use os_assignment.Vm.Walks.{prefix_of, IsSlot}
use os_assignment.Vm.Calls.{Goes, IsRoot, slot-page}
use os_assignment.Vm.Frees.{release-Sure}
use os_assignment.Vm.Entries.{pte_from, pte_from-same, pte_step, pte_stop, leads}
use os_assignment.Vm.Maps.{walkaddr-pte}
use os_assignment.Vm.Translations.{trail, remap, store_pte-remap}

-- `walk` without `alloc` only looks.
walk_from-looks : (l p va : ℕ) (m : Memory) → (walk_from false l p va m).1 ≡ m
unfolding walk_from
walk_from-looks zero p va m = refl
walk_from-looks (suc l) p va m = elim (Bool-cases (is_valid (m.words p (px (suc l) va)))) [
  | inl valid ↦ rw valid (walk_from-looks l (pte_pa (m.words p (px (suc l) va))) va m)
  | inr stops ↦ rw stops refl
]

walk-looks :
    (r a : ℕ) (m : Memory)
    → walk false r a m ≡ (if leb maxva a then panic else ok ((walk_from false 2 r a m).0, m))
unfolding walk
walk-looks r a m =
    ap (λ n. if leb maxva a then panic else ok ((walk_from false 2 r a m).0, n))
      (walk_from-looks 2 r a m)

slot_at :
    (place : ℕ → Purpose) (m : Memory) (h : IsSound place m) (r a : ℕ)
    → IsRoot place r
    → a < maxva
    → (o : Option Slot) → (walk_from false 2 r a m).0 ≡ o
    → IsSlot place a o
slot_at place m h r a root lt none found = tt
slot_at place m h r a root lt (some s) found =
    let t = trail place m h r a root lt s found in (t.middle, px 1 a, t.last_at, t.index)

module _ (place : ℕ → Purpose) (m : Memory) (h : IsSound place m) (c : ℕ) (v : Purpose)
    (at : place c ≡ v) (no_table : (l a q i : ℕ) → v ≢ table l a q i) (n : Memory) (f : ℕ → ℕ)
    (written : n.words ≡ put_page c f m.words) where
  differs : (p : ℕ) {l a r t : ℕ} → place p ≡ table l a r t → (p == c) ≡ false
  differs p {l} {a} {r} {t} e = elim (Bool-cases (p == c)) [
    | inl same ↦
        let is_c : p ≡ c = ground (arith, same) in
        absurd (no_table l a r t (sym at ∙ (sym (ap place is_c) ∙ e)))
    | inr no_c ↦ no_c
  ]

  word_kept : (p x : ℕ) {l a r t : ℕ} → place p ≡ table l a r t → n.words p x ≡ m.words p x
  word_kept p x e = ap (λ (w : ℕ → ℕ → ℕ). w p x) written ∙ page_kept (differs p e)
    where
      page_kept : (p == c) ≡ false → put_page c f m.words p x ≡ m.words p x
      page_kept ne = rw ne refl

  -- A page that is no page table is written.
  filled-pte :
      (l p va : ℕ) {a r t : ℕ} → place p ≡ table l a r t → pte_from l p va n ≡ pte_from l p va m
  filled-pte zero p va e = word_kept p (px 0 va) e
  filled-pte (suc l) p va e =
      let x = px (suc l) va in
      let same = word_kept p x e in
      elim (Bool-cases (is_valid (m.words p x))) [
        | inl valid ↦
            pte_step l p va n same valid
            ∙ (filled-pte l (pte_pa (m.words p x)) va (leads place m h l p x e valid)
                ∙ sym (pte_step l p va m refl valid))
        | inr stops ↦ pte_stop l p va n (ap is_valid same ∙ stops) ∙ sym (pte_stop l p va m stops)
      ]

  pub filled-walkaddr : (r va : ℕ) → IsRoot place r → walkaddr r va n ≡ walkaddr r va m
  filled-walkaddr r va (q, i, e) =
      walkaddr-pte r va n
      ∙ (ap (λ x. if leb maxva va then none else user_pa x) (filled-pte 2 r va e)
          ∙ sym (walkaddr-pte r va m))

pub walkaddr-words :
    (r va : ℕ) (m n : Memory) → n.words ≡ m.words → walkaddr r va n ≡ walkaddr r va m
walkaddr-words r va m n e =
    walkaddr-pte r va n
    ∙ (ap (λ x. if leb maxva va then none else user_pa x) (pte_from-same 2 r va m n e)
        ∙ sym (walkaddr-pte r va m))

-- The pages of the map of `r` from address `a` on are taken out, `left` of them.
abbrev pub cleared : (r a left r' va' : ℕ) → Option ℕ → Option ℕ
cleared r a left r' va' old =
    if (r' == r) && (leb (a / pgsize) (va' / pgsize) && ltb (va' / pgsize) (a / pgsize + left))
    then none
    else old

pub record Cleared (place : ℕ → Purpose) (r a left : ℕ) (m n : Memory) : Type 0 where
  pub goes : Goes place n
  pub clears :
      (r' va' : ℕ)
      → IsRoot place r'
      → walkaddr r' va' n ≡ cleared r a left r' va' (walkaddr r' va' m)

cleared-suc :
    (r a left r' va' : ℕ) (old : Option ℕ)
    → cleared r (a + pgsize) left r' va' (remap r a none r' va' old)
      ≡ cleared r a (suc left) r' va' old
cleared-suc r a left r' va' old =
    let later : Bool =
      (r' == r)
      && (leb ((a + pgsize) / pgsize) (va' / pgsize)
          && ltb (va' / pgsize) ((a + pgsize) / pgsize + left)) in
    let first : Bool = (r' == r) && (va' / pgsize == a / pgsize) in
    let all : Bool =
      (r' == r)
      && (leb (a / pgsize) (va' / pgsize) && ltb (va' / pgsize) (a / pgsize + suc left)) in
    let next : (a + pgsize) / pgsize ≡ a / pgsize + 1 = omega arith in
    elim (Bool-cases later) [
      | inl is_later ↦
          let is_all : all ≡ true = ground (arith, is_later, next) in rw (is_later, is_all) refl
      | inr not_later ↦ elim (Bool-cases first) [
        | inl is_first ↦
            let is_all : all ≡ true = ground (arith, is_first) in
            rw (not_later, is_first, is_all) refl
        | inr not_first ↦
            let not_all : all ≡ false = ground (arith, not_later, not_first, next) in
            rw (not_later, not_first, not_all) refl
      ]
    ]

-- What a round of `uvmunmap` writes, in the other order.
two_writes :
    (s : Slot) (c w : ℕ) (f : ℕ → ℕ → ℕ)
    → (s.0 == c) ≡ false
    → put_cell s.0 s.1 0 (put_page c (λ _. w) f) ≡ put_page c (λ _. w) (put_cell s.0 s.1 0 f)
two_writes s c w f ne = fun_ext (λ p. fun_ext (λ j. ground (arith, ne)))

pub none_cleared : (r a r' va' : ℕ) (old : Option ℕ) → cleared r a 0 r' va' old ≡ old
none_cleared r a r' va' old =
    elim (Bool-cases
      ((r' == r) && (leb (a / pgsize) (va' / pgsize) && ltb (va' / pgsize) (a / pgsize + 0)))) [
        | inl test ↦ absurd (ground (arith, test))
        | inr test ↦ rw test refl
      ]

module _ (kernel_end : ℕ) (place : ℕ → Purpose) (m : Memory) (h : IsSound place m) (r a : ℕ)
    (root : IsRoot place r) (lt : a / pgsize < user_pages) where
  -- One page is taken out, and `c` is freed.
  unmapped-remap :
      (s : Slot)
      → (walk_from false 2 r a m).0 ≡ some s
      → IsSlot place a (some s)
      → place (pte_pa (load_pte m s)) ≡ user s.0 s.1
      → (r' va' : ℕ) → IsRoot place r'
      → walkaddr r' va' (
          store_pte s 0 (
            fill_page
              (pte_pa (load_pte m s))
              72340172838076673
              1
              (set_free (pte_pa (load_pte m s) ∷ m.free) m)))
        ≡ remap r a none r' va' (walkaddr r' va' m)
  unmapped-remap s found at mine r' va' (q, i, e) =
      let c = pte_pa (load_pte m s) in
      let w : ℕ = 72340172838076673 in
      let m' = store_pte s 0 m in
      let sound' =
        store_pte-IsSound place m h 0 s.0 s.1 0 at.2
          (no_word-Agrees place (table 0 (prefix_of 0 a) at.0 at.1) s.0 s.1 0 refl) in
      let filled = fill_page c w 1 (set_free (c ∷ m.free) m') in
      let no_table : (l a q i : ℕ) → user s.0 s.1 ≢ table l a q i = λ l a q i e. absurd (cc) in
      let ne =
        differs place m' sound' c (user s.0 s.1) mine no_table filled (λ _. w) refl s.0 at.2 in
      walkaddr-words r' va' filled _ (two_writes s c w m.words ne)
      ∙ (filled-walkaddr place m' sound' c (user s.0 s.1) mine no_table filled (λ _. w) refl r' va'
            (q, i, e)
          ∙ store_pte-remap place m h r r' a va' root (q, i, e) (omega arith) s 0 at.2 found)

  unmap_slot-Cleared :
      (left : ℕ) (go : Memory → Outcome Memory)
      → ((place' : ℕ → Purpose) (n : Memory)
          → IsRoot place' r
          → IsSound place' n
          → Sure (Cleared place' r (a + pgsize) left n) (go n))
      → (o : Option Slot) → (walk_from false 2 r a m).0 ≡ o
      → IsSlot place a o
      → Sure (Cleared place r a (suc left) m) (unmap_slot kernel_end true go (o, m))
  unmap_slot-Cleared left go ih none found at = tt
  unmap_slot-Cleared left go ih (some s) found at =
      let pte = load_pte m s in
      let c = pte_pa pte in
      let in_range : prefix_of 0 a * 512 + s.1 < user_pages =
        omega (arith, slot-page place a s at) in
      elim (Bool-cases (is_valid pte)) [
        | inl valid ↦ elim (Bool-cases (flags pte == 1)) [
          | inl no_leaf ↦ rw (valid, no_leaf) tt
          | inr leaf ↦
              let says = (subst (λ u. Agrees place u s.0 s.1 pte) at.2 (h.agrees s.0 s.1)) valid in
              let mine = says.0 in_range in
              let place1 : ℕ → Purpose = update place c other in
              let sound =
                unmap-IsSound place m h c s.0 s.1 72340172838076673 1 at.2 mine (omega arith) in
              let n' = store_pte s 0 (fill_page c 72340172838076673 1 (set_free (c ∷ m.free) m)) in
              let kept : (p l a q i : ℕ) → place p ≡ table l a q i → place1 p ≡ table l a q i =
                λ p l a q i e'.
                  update_ne place c other p (λ is_c. absurd (cc (e', mine, ap place is_c))) ∙ e' in
              let (q, i, e) = root in
              rw (valid, leaf)
                (bind-Sure _ (Cleared place r a (suc left) m) (release kernel_end c m) _
                  (release-Sure kernel_end c m)
                  (λ k is_k. rw is_k (
                    map-Sure (Cleared place1 r (a + pgsize) left n')
                      (Cleared place r a (suc left) m) (go n')
                      (ih place1 n' (q, i, kept r 2 0 q i e) sound)
                      (λ n cl. record {
                        goes = record {
                          place' = cl.goes.place';
                          sound = cl.goes.sound;
                          tables = λ p e'. cl.goes.tables p (kept p _ _ _ _ e');
                        };
                        clears = λ r' va' (q', i', e').
                            cl.clears r' va' (q', i', kept r' 2 0 q' i' e')
                            ∙ (ap (cleared r (a + pgsize) left r' va')
                                  (unmapped-remap s found at mine r' va' (q', i', e'))
                                ∙ cleared-suc r a left r' va' (walkaddr r' va' m));
                      }))))
        ]
        | inr invalid ↦ rw invalid tt
      ]

module _ (kernel_end r : ℕ) where
  pub unmap_from-Cleared :
      (left a : ℕ) (place : ℕ → Purpose) (m : Memory)
      → a / pgsize + left ≤ user_pages
      → IsRoot place r
      → IsSound place m
      → Sure (Cleared place r a left m) (unmap_from kernel_end r left a true m)
  unfolding unmap_from
  unmap_from-Cleared zero a place m le root h = record {
    goes = record { place' = place; sound = h; tables = λ p e. e };
    clears = λ r' va' root'. sym (none_cleared r a r' va' (walkaddr r' va' m));
  }
  unmap_from-Cleared (suc left) a place m le root h =
      let fits : leb maxva a ≡ false = ground (arith, le) in
      let slot = (walk_from false 2 r a m).0 in
      rw (walk-looks r a m, fits)
        (unmap_slot-Cleared kernel_end place m h r a root (omega arith) left
          (unmap_from kernel_end r left (a + pgsize) true)
          (λ place' n root' h'.
            unmap_from-Cleared left (a + pgsize) place' n (omega arith) root' h')
          slot refl (slot_at place m h r a root (omega arith) slot refl))
