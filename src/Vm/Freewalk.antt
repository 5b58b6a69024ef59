-- ===== src/Vm/Freewalk.antt =====
-- kernel/vm.c: `freewalk` ends with no word that leads to a page it has given back.
use os_assignment.Prelude.{
  ℕ, zero, suc, ◌+◌, ◌≡◌, ◌≢◌, ◌∙◌, inl, inr, refl, sym, ◌&&◌, ◌∷◌, ◌==◌, arith, Bool-cases,
}
use mathlib.Core.Path.{subst}
use os_assignment.Prelude.Outcome.{Outcome, Sure, bind-Sure, map-Sure}
use os_assignment.Vm.{pte_pa, is_valid, is_leaf, Memory, set_free, fill_page, store_pte}
use os_assignment.Vm.Space.{release}
use os_assignment.Vm.Roots.{free_entries, freewalk}
use os_assignment.Vm.Tables.{Purpose, table, Agrees, IsSound, IsHeld, no_word-Agrees}
use os_assignment.Vm.Changes.{put_cell-Agrees, give_back-IsSound}
use os_assignment.Vm.Frees.{release-Sure}
use os_assignment.Vm.Teardown.{Hangs, Swept, then-Swept, Frees, child-Swept}

-- The loop of `freewalk` has a page table of which only this loop still knows.
record Sweeping (place : ℕ → Purpose) (level page : ℕ) (m n : Memory) : Type 0 where
  swept : Swept place level page m n
  held : IsHeld swept.place' n.free page

-- What a round leaves, which goes on at the next word.
stored :
    (place : ℕ → Purpose) (m : Memory) (page i : ℕ)
    → IsSound place m
    → IsHeld place m.free page
    → IsSound place (store_pte (page, i) 0 m)
stored place m page i h held = record {
  agrees =
      put_cell-Agrees place page i 0 m.words (no_word-Agrees place (place page) page i 0 refl)
        (λ p j ne. h.agrees p j);
  spare = h.spare;
  once = h.once;
  levels = h.levels;
}

store_other :
    (m : Memory) (page i q k : ℕ)
    → (q ≡ page → k ≢ i)
    → (store_pte (page, i) 0 m).words q k ≡ m.words q k
store_other m page i q k ne = elim (Bool-cases ((q == page) && (k == i))) [
  | inl same ↦ absurd (ne (ground (arith, same)) (ground (arith, same)))
  | inr differ ↦ rw differ refl
]

stored-Hangs :
    (place : ℕ → Purpose) (m : Memory) (level a page i : ℕ)
    → Hangs place level a page (i + 1) m
    → Hangs place level a page (i + 1) (store_pte (page, i) 0 m)
stored-Hangs place m level a page i h j le =
    subst (λ pte. Agrees place (table level a 0 0) page j pte)
      (sym (store_other m page i page j (λ _. omega arith))) (h j le)

stored-Swept :
    (place : ℕ → Purpose) (m n : Memory) (level page i : ℕ)
    → (s : Swept place level page m n) → IsHeld s.place' n.free page
    → Swept place level page m (store_pte (page, i) 0 n)
stored-Swept place m n level page i s held = record {
  place' = s.place';
  sound = stored s.place' n page i s.sound held;
  keeps = s.keeps;
  helds = s.helds;
  words = λ q ne o k. store_other n page i q k (λ e. absurd (ne e)) ∙ s.words q ne o k;
}

kept-Swept :
    (place : ℕ → Purpose) (m : Memory) (level page : ℕ)
    → IsSound place m
    → Swept place level page m m
kept-Swept place m level page h = record {
  place' = place;
  sound = h;
  keeps = λ p le e. e;
  helds = λ q ne o. o;
  words = λ q ne o k. refl;
}

then-Sweeping :
    (place : ℕ → Purpose) (level page : ℕ) (m n k : Memory)
    → (s : Swept place level page m n) → Sweeping s.place' level page n k
    → Sweeping place level page m k
unfolding then-Swept
then-Sweeping place level page m n k s t = record {
  swept = then-Swept place level page m n k s t.swept;
  held = t.held;
}

-- The loop over a page table of a level above 0.
entries-Sure :
    (l : ℕ) (go : ℕ → Memory → Outcome Memory)
    → Frees l go
    → (left page i : ℕ) (place : ℕ → Purpose) (m : Memory) (a : ℕ) → IsSound place m
    → IsHeld place m.free page
    → Hangs place (suc l) a page i m
    → Sure (Sweeping place (suc l) page m) (free_entries go left page i m)
unfolding free_entries kept-Swept stored-Swept
entries-Sure l go frees zero page i place m a h held hangs = record {
  swept = kept-Swept place m (suc l) page h;
  held = held;
}
entries-Sure l go frees (suc left) page i place m a h held hangs =
    let later : Hangs place (suc l) a page (i + 1) m = λ j le. hangs j (omega arith) in
    let pte = m.words page i in
    elim (Bool-cases (is_valid pte)) [
      | inl valid ↦ elim (Bool-cases (is_leaf pte)) [
        | inl leaf ↦ rw (valid, leaf) tt
        | inr below ↦
            rw (valid, below)
              (bind-Sure _ (Sweeping place (suc l) page m) (go (pte_pa pte) m) _
                (child-Swept place m h page held l a i (pte_pa pte) (hangs i (omega arith) valid) go
                  frees (omega arith) later)
                (λ n (s, held', later').
                  let s' = stored-Swept place m n (suc l) page i s held' in
                  map-Sure (Sweeping s.place' (suc l) page (store_pte (page, i) 0 n))
                    (Sweeping place (suc l) page m)
                    (free_entries go left page (i + 1) (store_pte (page, i) 0 n))
                    (entries-Sure l go frees left page (i + 1) s.place' (store_pte (page, i) 0 n) a
                      (stored s.place' n page i s.sound held') held'
                      (stored-Hangs s.place' n (suc l) a page i later'))
                    (λ k t. then-Sweeping place (suc l) page m (store_pte (page, i) 0 n) k s' t)))
      ]
      | inr invalid ↦ rw invalid (entries-Sure l go frees left page (i + 1) place m a h held later)
    ]

-- At level 0 no word is left.
entries_zero-Sure :
    (kernel_end left page i : ℕ) (place : ℕ → Purpose) (m : Memory)
    → IsSound place m
    → IsHeld place m.free page
    → Sure (Sweeping place 0 page m) (free_entries (freewalk kernel_end zero) left page i m)
unfolding free_entries kept-Swept freewalk
entries_zero-Sure kernel_end zero page i place m h held = record {
  swept = kept-Swept place m 0 page h;
  held = held;
}
entries_zero-Sure kernel_end (suc left) page i place m h held =
    let pte = m.words page i in
    elim (Bool-cases (is_valid pte)) [
      | inl valid ↦ elim (Bool-cases (is_leaf pte)) [
        | inl leaf ↦ rw (valid, leaf) tt
        | inr below ↦ rw (valid, below) tt
      ]
      | inr invalid ↦ rw invalid (entries_zero-Sure kernel_end left page (i + 1) place m h held)
    ]

module _ (kernel_end : ℕ) (level page : ℕ) (place : ℕ → Purpose) (m n : Memory) where
  -- The page itself goes at the end.
  released :
      (s : Sweeping place level page m n)
      → Swept place level page m (fill_page page 72340172838076673 1 (set_free (page ∷ n.free) n))
  released s = record {
    place' = s.swept.place';
    sound = give_back-IsSound s.swept.place' n s.swept.sound page 72340172838076673 1 s.held;
    keeps = s.swept.keeps;
    helds = λ q ne o.
        let o' = s.swept.helds q ne o in
        record { unused = o'.unused; gone = ground (arith, ne, o'.gone); aligned = o'.aligned };
    words = λ q ne o k. elim (Bool-cases (q == page)) [
      | inl same ↦ absurd (ground (arith, ne, same))
      | inr differ ↦ rw differ (s.swept.words q ne o k)
    ];
  }

  release-Swept :
      Sweeping place level page m n → Sure (Swept place level page m) (release kernel_end page n)
  release-Swept s =
      map-Sure _ (Swept place level page m) (release kernel_end page n)
        (release-Sure kernel_end page n)
        (λ k e. subst (Swept place level page m) (sym e) (released s))

pub freewalk-Frees : (kernel_end l : ℕ) → Frees l (freewalk kernel_end (suc l))
unfolding freewalk
freewalk-Frees kernel_end zero c place m a h held hangs =
    bind-Sure (Sweeping place 0 c m) (Swept place 0 c m) _ (release kernel_end c)
      (entries_zero-Sure kernel_end 512 c 0 place m h held)
      (λ n s. release-Swept kernel_end 0 c place m n s)
freewalk-Frees kernel_end (suc l) c place m a h held hangs =
    bind-Sure (Sweeping place (suc l) c m) (Swept place (suc l) c m) _ (release kernel_end c)
      (entries-Sure l (freewalk kernel_end (suc l)) (freewalk-Frees kernel_end l) 512 c 0 place m a
        h held hangs)
      (λ n s. release-Swept kernel_end (suc l) c place m n s)
