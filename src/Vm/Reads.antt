-- ===== src/Vm/Reads.antt =====
-- kernel/vm.c: `copyin` reads the memory of a process.
use os_assignment.Prelude.{
  ℕ, zero, suc, ◌+◌, ◌-◌, ◌%◌, ◌≤◌, ◌≡◌, ◌⊎◌, ◌∙◌, inl, inr, refl, sym, ap, true, false, Option,
  none, some, List, [], ◌∷◌, ◌++◌, arith, Option-cases,
}
use mathlib.Core.List.{append_assoc}
use os_assignment.Pages.{pgsize}
use os_assignment.Vm.{page_round_down, Memory, walkaddr}
use os_assignment.Vm.Bytes.{byte_at, user_byte, page_ends, chunk_bounds, user_byte-page}
use os_assignment.Vm.User.{read_bytes, chunk, ReadResult, after, copyin_page, copyin_from, copyin}

abbrev pub byte_then : Option ℕ → ReadResult → ReadResult
byte_then none r = (false, [])
byte_then (some b) r = after (b ∷ []) r

-- A copy byte by byte.
abbrev pub bytewise_in : (pagetable va len : ℕ) → Memory → ReadResult
bytewise_in pagetable va zero m = (true, [])
bytewise_in pagetable va (suc n) m =
    byte_then (user_byte pagetable va m) (bytewise_in pagetable (va + 1) n m)

after-after : (xs ys : List ℕ) (r : ReadResult) → after xs (after ys r) ≡ after (xs ++ ys) r
after-after xs ys r = ap (λ (zs : List ℕ). (r.0, zs)) (sym (append_assoc xs ys r.1))

module _ (pagetable : ℕ) (m : Memory) where
  -- A stretch of bytes in one page.
  bytewise_in-page :
      (va0 o n k : ℕ) {pa : ℕ}
      → va0 % pgsize ≡ 0
      → o + n ≤ pgsize
      → walkaddr pagetable va0 m ≡ some pa
      → bytewise_in pagetable (va0 + o) (n + k) m
        ≡ after (read_bytes pa o n m) (bytewise_in pagetable (va0 + (o + n)) k m)
  bytewise_in-page va0 o zero k aligned h e =
      let none_more : 0 + k ≡ k = omega arith in
      let there : o + 0 ≡ o = omega arith in rw (none_more, there) refl
  bytewise_in-page va0 o (suc n) k {pa} aligned h e =
      let one_more : suc n + k ≡ suc (n + k) = omega arith in
      let here = user_byte-page pagetable m va0 o aligned (omega arith) e in
      let next : va0 + o + 1 ≡ va0 + (o + 1) = omega arith in
      let rest : o + 1 + n ≡ o + suc n = omega arith in
      let ih = bytewise_in-page va0 (o + 1) n k aligned (omega arith) e in
      rw (one_more, here, next, ih, rest) refl

  -- Where no byte is left, the address does not matter.
  bytewise_in-ends :
      (a b n : ℕ) → (a ≡ b) ⊎ (n ≡ 0) → bytewise_in pagetable a n m ≡ bytewise_in pagetable b n m
  bytewise_in-ends a b n (inl e) = ap (λ c. bytewise_in pagetable c n m) e
  bytewise_in-ends a b n (inr e) = rw e refl

  copyin_from-bytewise :
      (left va len : ℕ)
      → len ≤ left
      → copyin_from left pagetable va len m ≡ bytewise_in pagetable va len m
  unfolding copyin_from
  copyin_from-bytewise left va zero le = refl
  copyin_from-bytewise zero va (suc k) le = absurd (omega arith)
  copyin_from-bytewise (suc left) va (suc k) le =
      let va0 = page_round_down va in
      let n = chunk va (suc k) in
      let o = va - va0 in
      let rest = copyin_from left pagetable (va0 + pgsize) (suc k - n) m in
      elim (Option-cases (walkaddr pagetable va0 m)) [
        | inl e ↦
            ap (λ w. copyin_page o n rest w m) e
            ∙ sym (ap (λ w. byte_then (byte_at w o m) (bytewise_in pagetable (va + 1) k m)) e)
        | inr (pa, e) ↦
            let bounds = chunk_bounds va (suc k) (omega arith) in
            let ih =
              copyin_from-bytewise left (va0 + pgsize) (suc k - n) (omega (arith, bounds.0)) in
            let page = bytewise_in-page va0 o n (suc k - n) (omega arith) bounds.2 e in
            let all : n + (suc k - n) ≡ suc k = omega (arith, bounds.1) in
            let start : va0 + o ≡ va = omega arith in
            let whole =
              sym (ap (λ a. bytewise_in pagetable a (suc k) m) start)
              ∙ (sym (ap (λ l. bytewise_in pagetable (va0 + o) l m) all) ∙ page) in
            let tail =
              bytewise_in-ends (va0 + (o + n)) (va0 + pgsize) (suc k - n)
                (page_ends va0 o n bounds.3) in
            ap (λ w. copyin_page o n rest w m) e
            ∙ sym (whole ∙ ap (after (read_bytes pa o n m)) (tail ∙ sym ih))
      ]

-- Whatever the pages of the range are, `copyin` is a copy byte by byte, each at the address that
-- `walkaddr` gives for its page: it returns 0 and all bytes if each address can be translated, and
-- otherwise -1 and the bytes that come before the first address that cannot.
pub copyin-bytewise :
    (pagetable srcva len : ℕ) (m : Memory)
    → copyin pagetable srcva len m ≡ bytewise_in pagetable srcva len m
unfolding copyin
copyin-bytewise pagetable srcva len m = copyin_from-bytewise pagetable m len srcva len (omega arith)
