-- ===== src/Strings/Copies.antt =====
-- kernel/string.c: strings, as the bytes up to the NUL.
use os_assignment.Prelude.{
  ℕ, zero, suc, ◌+◌, ◌<◌, ◌≤◌, ◌≡◌, ◌≢◌, ◌↔◌, ◌⊎◌, inl, inr, refl, ap, sym, ◌∙◌, true, false, some,
  List, [], ◌∷◌, ◌==◌, arith, if◌then◌else◌, update, Bool-cases,
}
use mathlib.Core.Path.{subst}
use os_assignment.Prelude.Int.{ℤ, minus}
use os_assignment.Strings.{strncmp, safestrcpy, safestrcpy_from, strlen, strlen_from}

-- The string at `s`, of at most `n` bytes.
abbrev pub c_string : (ℕ → ℕ) → (s n : ℕ) → List ℕ
c_string mem s zero = []
c_string mem s (suc n) = if mem s == 0 then [] else mem s ∷ c_string mem (s + 1) n

c_string-agree :
    (mem mem' : ℕ → ℕ) (s n : ℕ)
    → ((a : ℕ) → s ≤ a → a < s + n → mem a ≡ mem' a)
    → c_string mem s n ≡ c_string mem' s n
c_string-agree mem mem' s zero h = refl
c_string-agree mem mem' s (suc n) h =
    let e : mem s ≡ mem' s = h s (omega arith) (omega arith) in
    let ih : c_string mem (s + 1) n ≡ c_string mem' (s + 1) n =
      c_string-agree mem mem' (s + 1) n (λ a l u. h a (omega arith) (omega arith)) in
    rw (e, ih) refl

minus_zero : (a b : ℕ) → minus a b ≡ ℤ.pos 0 → a ≡ b
minus_zero a b h = ground (arith, h)

c_string-cons :
    (mem : ℕ → ℕ) (s n b : ℕ) (bs : List ℕ)
    → mem s ≡ b
    → (b == 0) ≡ false
    → c_string mem (s + 1) n ≡ bs
    → c_string mem s (suc n) ≡ b ∷ bs
c_string-cons mem s n b bs e some_byte t = rw (e, some_byte, t) refl

strings_next :
    (p q n : ℕ) (mem : ℕ → ℕ)
    → (mem p == mem q) ≡ true
    → (mem p == 0) ≡ false
    → c_string mem (p + 1) n ≡ c_string mem (q + 1) n
    → c_string mem p (suc n) ≡ c_string mem q (suc n)
strings_next p q n mem same more e =
    c_string-cons mem p n (mem p) _ refl more e
    ∙ sym (c_string-cons mem q n (mem p) _ (ground (arith, same)) more refl)

strings_tail :
    (p q n : ℕ) (mem : ℕ → ℕ)
    → (mem p == mem q) ≡ true
    → (mem p == 0) ≡ false
    → c_string mem p (suc n) ≡ c_string mem q (suc n)
    → c_string mem (p + 1) n ≡ c_string mem (q + 1) n
strings_tail p q n mem same more h = ground (arith, same, more, h)

strings_head :
    (p q n : ℕ) (mem : ℕ → ℕ)
    → (mem p == mem q) ≡ false
    → c_string mem p (suc n) ≢ c_string mem q (suc n)
strings_head p q n mem differ h = ground (arith, differ, h)

-- `strncmp` returns 0 exactly if the two strings agree, up to their first `n` bytes.
pub strncmp-zero :
    (p q n : ℕ) (mem : ℕ → ℕ)
    → (strncmp p q n mem ≡ ℤ.pos 0) ↔ (c_string mem p n ≡ c_string mem q n)
unfolding strncmp
strncmp-zero p q zero mem = (λ h. refl, λ h. refl)
strncmp-zero p q (suc n) mem = elim (Bool-cases (mem p == mem q)) [
  | inl same ↦ elim (Bool-cases (mem p == 0)) [
    | inl nul ↦ (λ h. ground (arith, same, nul), λ h. ground (arith, same, nul))
    | inr more ↦
        let ih : (strncmp (p + 1) (q + 1) n mem ≡ ℤ.pos 0)
            ↔ (c_string mem (p + 1) n ≡ c_string mem (q + 1) n) =
          strncmp-zero (p + 1) (q + 1) n mem in
        (
          λ h. strings_next p q n mem same more (ih.0 (ground (arith, h, same, more))),
          λ h.
              let e : strncmp (p + 1) (q + 1) n mem ≡ ℤ.pos 0 =
                ih.1 (strings_tail p q n mem same more h) in
              ground (arith, e, same, more),
        )
  ]
  | inr differ ↦ (
    λ h. absurd (ground (arith, minus_zero (mem p) (mem q) (ground (arith, h, differ)), differ)),
    λ h. absurd (strings_head p q n mem differ h),
  )
]

safestrcpy_from-frame :
    (s t left : ℕ) (mem : ℕ → ℕ) (a : ℕ)
    → (a < s) ⊎ (s + suc left ≤ a)
    → safestrcpy_from s t left mem a ≡ mem a
unfolding safestrcpy_from
safestrcpy_from-frame s t zero mem a h = ground (arith, h)
safestrcpy_from-frame s t (suc left) mem a h =
    let rest : safestrcpy_from (s + 1) (t + 1) left (update mem s (mem t)) a
        ≡ update mem s (mem t) a =
      safestrcpy_from-frame (s + 1) (t + 1) left (update mem s (mem t)) a
        (elim h [ inl l ↦ inl (omega arith) | inr l ↦ inr (omega arith) ]) in
    elim (Bool-cases (mem t == 0)) [
      | inl nul ↦ rw nul (ground (arith, h))
      | inr more ↦ rw more (rest ∙ ground (arith, h))
    ]

safestrcpy_from-next :
    (s t left : ℕ) (mem : ℕ → ℕ)
    → (mem t == 0) ≡ false
    → safestrcpy_from s t (suc left) mem
      ≡ safestrcpy_from (s + 1) (t + 1) left (update mem s (mem t))
unfolding safestrcpy_from
safestrcpy_from-next s t left mem more = rw more refl

safestrcpy_from-copies :
    (s t left : ℕ) (mem : ℕ → ℕ)
    → (s + suc left ≤ t) ⊎ (t + left ≤ s)
    → c_string (safestrcpy_from s t left mem) s (suc left) ≡ c_string mem t left
unfolding safestrcpy_from
safestrcpy_from-copies s t zero mem h = ground arith
safestrcpy_from-copies s t (suc left) mem h = elim (Bool-cases (mem t == 0)) [
  | inl nul ↦ ground (arith, nul)
  | inr more ↦
      subst (λ m. c_string m s (suc (suc left)) ≡ c_string mem t (suc left))
        (sym (safestrcpy_from-next s t left mem more))
        (c_string-cons rest s (suc left) (mem t) (c_string mem (t + 1) left)
            (safestrcpy_from-frame (s + 1) (t + 1) left copied s (inl (omega arith)) ∙ ground arith)
            more
            (safestrcpy_from-copies (s + 1) (t + 1) left copied
                (elim h [ inl l ↦ inl (omega arith) | inr l ↦ inr (omega arith) ])
              ∙ c_string-agree copied mem (t + 1) left (λ a l u. grind (arith, h)))
          ∙ sym (c_string-cons mem t left (mem t) _ refl more refl))
]
  where
    copied : ℕ → ℕ
    copied = update mem s (mem t)

    rest : ℕ → ℕ
    rest = safestrcpy_from (s + 1) (t + 1) left copied

-- `safestrcpy` of at least one byte, between areas that do not overlap: the string at `s` then ends
-- within the `n` bytes, and is the one at `t` cut to n - 1 bytes; no other memory has changed.
pub safestrcpy_lem :
    (s t n : ℕ) (mem : ℕ → ℕ)
    → (s + suc n ≤ t) ⊎ (t + n ≤ s)
    → (c_string (safestrcpy s t (suc n) mem) s (suc n) ≡ c_string mem t n)
      × ((a : ℕ) → (a < s) ⊎ (s + suc n ≤ a) → safestrcpy s t (suc n) mem a ≡ mem a)
unfolding safestrcpy
safestrcpy_lem s t n mem h =
    (safestrcpy_from-copies s t n mem h, λ a. safestrcpy_from-frame s t n mem a)

strlen_from_lem :
    (fuel s n k : ℕ) (mem : ℕ → ℕ)
    → k < fuel
    → ((j : ℕ) → j < k → mem (s + (n + j)) ≢ 0)
    → mem (s + (n + k)) ≡ 0
    → strlen_from fuel s n mem ≡ some (n + k)
unfolding strlen_from
strlen_from_lem zero s n k mem l before h = absurd (omega arith)
strlen_from_lem (suc fuel) s n zero mem l before h =
    let e : mem (s + n) ≡ 0 = subst (λ x. mem (s + x) ≡ 0) (omega arith) h in ground (arith, e)
strlen_from_lem (suc fuel) s n (suc k) mem l before h =
    let e : mem (s + n) ≢ 0 = subst (λ x. mem (s + x) ≢ 0) (omega arith) (before 0 (omega arith)) in
    let shift : (j : ℕ) → n + suc j ≡ n + 1 + j = λ j. omega arith in
    let ih : strlen_from fuel s (n + 1) mem ≡ some (n + 1 + k) =
      strlen_from_lem fuel s (n + 1) k mem (omega arith)
        (λ j u. subst (λ x. mem (s + x) ≢ 0) (shift j) (before (suc j) (omega arith)))
        (subst (λ x. mem (s + x) ≡ 0) (shift k) h) in
    rw (shift k) (ground (arith, e, ih))

-- `strlen` returns the number of bytes before the first NUL, if there is one; more rounds than that
-- are enough.
pub strlen_lem :
    (fuel s k : ℕ) (mem : ℕ → ℕ)
    → k < fuel
    → ((j : ℕ) → j < k → mem (s + j) ≢ 0)
    → mem (s + k) ≡ 0
    → strlen fuel s mem ≡ some k
unfolding strlen
strlen_lem fuel s k mem l before h =
    strlen_from_lem fuel s 0 k mem l
      (λ j u. subst (λ x. mem (s + x) ≢ 0) (omega arith) (before j u))
      (subst (λ x. mem (s + x) ≡ 0) (omega arith) h)
    ∙ ap some (omega arith)
