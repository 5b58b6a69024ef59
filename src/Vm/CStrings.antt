-- ===== src/Vm/CStrings.antt =====
-- kernel/vm.c: `copyinstr` reads a string from the memory of a process.
use os_assignment.Prelude.{
  ℕ, zero, suc, ◌+◌, ◌-◌, ◌%◌, ◌≤◌, ◌≡◌, ◌⊎◌, ◌∙◌, inl, inr, refl, sym, ap, true, false, Option,
  none, some, [], ◌∷◌, ◌==◌, arith, if◌then◌else◌, Option-cases,
}
use os_assignment.Pages.{pgsize}
use os_assignment.Vm.{page_round_down, Memory, walkaddr}
use os_assignment.Vm.User.{
  chunk, ReadResult, after, string_bytes, string_page, copyinstr_from, copyinstr,
}
use os_assignment.Vm.Bytes.{byte_at, user_byte, page_ends, chunk_bounds, user_byte-page}

abbrev pub char_then : Option ℕ → ReadResult → ReadResult
char_then none r = (false, [])
char_then (some c) r = if c == 0 then (true, c ∷ []) else after (c ∷ []) r

-- A copy character by character, up to the NUL.
abbrev pub string_in : (pagetable va max : ℕ) → Memory → ReadResult
string_in pagetable va zero m = (false, [])
string_in pagetable va (suc n) m =
    char_then (user_byte pagetable va m) (string_in pagetable (va + 1) n m)

module _ (pagetable : ℕ) (m : Memory) where
  -- A stretch of characters in one page.
  string_in-page :
      (va0 o n k : ℕ) {pa : ℕ}
      → va0 % pgsize ≡ 0
      → o + n ≤ pgsize
      → walkaddr pagetable va0 m ≡ some pa
      → string_in pagetable (va0 + o) (n + k) m
        ≡ string_bytes pa o n (string_in pagetable (va0 + (o + n)) k m) m
  string_in-page va0 o zero k aligned h e =
      let none_more : 0 + k ≡ k = omega arith in
      let there : o + 0 ≡ o = omega arith in rw (none_more, there) refl
  string_in-page va0 o (suc n) k {pa} aligned h e =
      let one_more : suc n + k ≡ suc (n + k) = omega arith in
      let here = user_byte-page pagetable m va0 o aligned (omega arith) e in
      let next : va0 + o + 1 ≡ va0 + (o + 1) = omega arith in
      let rest : o + 1 + n ≡ o + suc n = omega arith in
      let ih = string_in-page va0 (o + 1) n k aligned (omega arith) e in
      rw (one_more, here, next, ih, rest) refl

  string_in-ends :
      (a b n : ℕ) → (a ≡ b) ⊎ (n ≡ 0) → string_in pagetable a n m ≡ string_in pagetable b n m
  string_in-ends a b n (inl e) = ap (λ c. string_in pagetable c n m) e
  string_in-ends a b n (inr e) = rw e refl

  copyinstr_from-charwise :
      (left va max : ℕ)
      → max ≤ left
      → copyinstr_from left pagetable va max m ≡ string_in pagetable va max m
  unfolding copyinstr_from
  copyinstr_from-charwise left va zero le = refl
  copyinstr_from-charwise zero va (suc k) le = absurd (omega arith)
  copyinstr_from-charwise (suc left) va (suc k) le =
      let va0 = page_round_down va in
      let o = va - va0 in
      let n = chunk va (suc k) in
      let rest = copyinstr_from left pagetable (va0 + pgsize) (suc k - n) m in
      elim (Option-cases (walkaddr pagetable va0 m)) [
        | inl e ↦
            ap (λ w. string_page o n rest w m) e
            ∙ sym (ap (λ w. char_then (byte_at w o m) (string_in pagetable (va + 1) k m)) e)
        | inr (pa, e) ↦
            let bounds = chunk_bounds va (suc k) (omega arith) in
            let ih =
              copyinstr_from-charwise left (va0 + pgsize) (suc k - n) (omega (arith, bounds.0)) in
            let page = string_in-page va0 o n (suc k - n) (omega arith) bounds.2 e in
            let all : n + (suc k - n) ≡ suc k = omega (arith, bounds.1) in
            let start : va0 + o ≡ va = omega arith in
            let whole =
              sym (ap (λ a. string_in pagetable a (suc k) m) start)
              ∙ (sym (ap (λ l. string_in pagetable (va0 + o) l m) all) ∙ page) in
            let tail =
              string_in-ends (va0 + (o + n)) (va0 + pgsize) (suc k - n)
                (page_ends va0 o n bounds.3) in
            ap (λ w. string_page o n rest w m) e
            ∙ sym (whole ∙ ap (λ r. string_bytes pa o n r m) (tail ∙ sym ih))
      ]

-- `copyinstr` is a copy character by character, each at the address that `walkaddr` gives for its
-- page: it returns 0 once it has copied a NUL, and -1, with the characters that come before, at the
-- first address that cannot be translated, or when `max` characters are none of them a NUL.
pub copyinstr-charwise :
    (pagetable srcva max : ℕ) (m : Memory)
    → copyinstr pagetable srcva max m ≡ string_in pagetable srcva max m
unfolding copyinstr
copyinstr-charwise pagetable srcva max m =
    copyinstr_from-charwise pagetable m max srcva max (omega arith)
