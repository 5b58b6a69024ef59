-- ===== src/Vm/Tables.antt =====
-- kernel/vm.c: what each page of memory is used for, and that page tables agree with it.
use os_assignment.Prelude.{
  ℕ, zero, suc, ◌+◌, ◌-◌, ◌*◌, ◌%◌, ◌^◌, ◌<◌, ◌≤◌, ◌≡◌, ◌≢◌, ◌∙◌, inl, inr, refl, sym, ap, true,
  false, List, ◌∷◌, ◌==◌, arith, update, Bool-cases,
}
use os_assignment.Pages.{pgsize}
use os_assignment.Pages.Partition.{occurs}
use os_assignment.Vm.{pa_pte, pte_pa, is_valid, is_user, Memory, set_free}

-- The page tables of processes map their own memory below TRAPFRAME, which has this many pages.
abbrev pub user_pages : ℕ
user_pages = 2 ^ 26 - 2

-- What a page is used for. A page table of a level is for the addresses that begin with `prefix`; it
-- and a user page are below word `i` of `page`.
pub data Purpose : Type 0 where
  table : (level prefix page i : ℕ) → Purpose
  user : (page i : ℕ) → Purpose
  other : Purpose

-- What is known of word `j` of page `p`, by the place of the page.
abbrev pub Agrees : (ℕ → Purpose) → Purpose → (p j pte : ℕ) → Type 0
Agrees place (table (suc l) a q i) p j pte =
    is_valid pte ≡ true → place (pte_pa pte) ≡ table l (a * 512 + j) p j
Agrees place (table zero a q i) p j pte =
    is_valid pte ≡ true
    → (a * 512 + j < user_pages → place (pte_pa pte) ≡ user p j)
      × (user_pages ≤ a * 512 + j → is_user pte ≡ false)
Agrees place (user q i) p j pte = Unit
Agrees place other p j pte = Unit

pub record IsSound (place : ℕ → Purpose) (m : Memory) : Type 0 where
  pub agrees : (p j : ℕ) → Agrees place (place p) p j (m.words p j)
  pub spare : (p : ℕ) → occurs p m.free ≢ 0 → (place p ≡ other) × (p % pgsize ≡ 0)
  pub once : (p : ℕ) → occurs p m.free ≤ 1
  pub levels : (p : ℕ) {l a q i : ℕ} → place p ≡ table l a q i → l ≤ 2

-- A page that `kalloc` has handed out, and that is not in use yet.
pub record IsHeld (place : ℕ → Purpose) (free : List ℕ) (c : ℕ) : Type 0 where
  pub unused : place c ≡ other
  pub gone : occurs c free ≡ 0
  pub aligned : c % pgsize ≡ 0

pub take_lem :
    (place : ℕ → Purpose) (m : Memory) (c : ℕ) (free : List ℕ)
    → m.free ≡ c ∷ free
    → IsSound place m
    → IsSound place (set_free free m) × IsHeld place free c
take_lem place m c free e h =
    let out : occurs c m.free ≡ occurs c free + 1 = rw e (ground arith) in
    let here : (p : ℕ) → occurs p free ≤ occurs p m.free = λ p. rw e (ground arith) in
    (
      record {
        agrees = h.agrees;
        spare = λ p ne. h.spare p (omega (arith, here p));
        once = λ p. omega (arith, here p, h.once p);
        levels = h.levels;
      },
      record {
        unused = (h.spare c (omega (arith, out))).0;
        gone = omega (arith, out, h.once c);
        aligned = (h.spare c (omega (arith, out))).1;
      },
    )

-- Where a page goes that is not `c`.
pub update_ne :
    (place : ℕ → Purpose) (c : ℕ) (v : Purpose) (p : ℕ) → p ≢ c → update place c v p ≡ place p
update_ne place c v p ne = elim (Bool-cases (p == c)) [
  | inl e ↦ absurd (ne (ground (arith, e)))
  | inr e ↦ rw e refl
]

pub update_self : (place : ℕ → Purpose) (c : ℕ) (v : Purpose) → update place c v c ≡ v
update_self place c v = elim (Bool-cases (c == c)) [
  | inl e ↦ rw e refl
  | inr e ↦ absurd (ground (arith, e))
]

-- Two pages in different places are different pages.
pub apart :
    (place : ℕ → Purpose) {p q : ℕ} {v : Purpose}
    → place p ≡ v
    → v ≢ other
    → place q ≡ other
    → p ≢ q
apart place e ne o same = ne (sym e ∙ ap place same ∙ o)

pub pte_pa-pa_pte : (c b : ℕ) → c % pgsize ≡ 0 → b < 1024 → pte_pa (pa_pte c + b) ≡ c
pte_pa-pa_pte c b h lt = omega arith

pub no_word-Agrees :
    (place : ℕ → Purpose) (v : Purpose) (p j pte : ℕ)
    → is_valid pte ≡ false
    → Agrees place v p j pte
no_word-Agrees place (table (suc l) a q i) p j pte e = λ valid. absurd (cc)
no_word-Agrees place (table zero a q i) p j pte e = λ valid. absurd (cc)
no_word-Agrees place (user q i) p j pte e = tt
no_word-Agrees place other p j pte e = tt

-- No word leads to a page that is not in use.
pub held-Agrees :
    (place : ℕ → Purpose) (c : ℕ) (v u : Purpose) (p j pte : ℕ)
    → place c ≡ other
    → Agrees place u p j pte
    → Agrees (update place c v) u p j pte
held-Agrees place c v (table (suc l) a q i) p j pte o h =
    λ valid. update_ne place c v _ (apart place (h valid) (λ e. absurd (cc)) o) ∙ h valid
held-Agrees place c v (table zero a q i) p j pte o h = λ valid. (
  λ lt. update_ne place c v _ (apart place ((h valid).0 lt) (λ e. absurd (cc)) o) ∙ (h valid).0 lt,
  (h valid).1,
)
held-Agrees place c v (user q i) p j pte o h = tt
held-Agrees place c v other p j pte o h = tt

-- Only one word leads to a user page.
pub freed-Agrees :
    (place : ℕ → Purpose) (c q0 j0 : ℕ) (u : Purpose) (p j pte : ℕ)
    → place c ≡ user q0 j0
    → (p ≡ q0 → j ≢ j0)
    → Agrees place u p j pte
    → Agrees (update place c other) u p j pte
freed-Agrees place c q0 j0 (table (suc l) a q i) p j pte o ne h =
    λ valid. update_ne place c other _ (λ e. absurd (cc (h valid, o, ap place e))) ∙ h valid
freed-Agrees place c q0 j0 (table zero a q i) p j pte o ne h = λ valid. (
  λ lt.
      update_ne place c other _ (λ e.
        let same : user p j ≡ user q0 j0 = sym ((h valid).0 lt) ∙ ap place e ∙ o in
        absurd (ne (cc same) (cc same)))
      ∙ (h valid).0 lt,
  (h valid).1,
)
freed-Agrees place c q0 j0 (user q i) p j pte o ne h = tt
freed-Agrees place c q0 j0 other p j pte o ne h = tt

pub update-levels :
    (place : ℕ → Purpose) (c : ℕ) (v : Purpose)
    → ((p l a q i : ℕ) → place p ≡ table l a q i → l ≤ 2)
    → ((l a q i : ℕ) → v ≡ table l a q i → l ≤ 2)
    → (p : ℕ) {l a q i : ℕ} → update place c v p ≡ table l a q i
    → l ≤ 2
update-levels place c v h is_v p {l} {a} {q} {i} e = elim (Bool-cases (p == c)) [
  | inl same ↦
      is_v l a q i (sym (update_self place c v) ∙ ap (update place c v) (ground (arith, same)) ∙ e)
  | inr differ ↦ h p l a q i (sym (update_ne place c v p (ground (arith, differ))) ∙ e)
]
