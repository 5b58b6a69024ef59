-- ===== src/Strings/Memory.antt =====
-- kernel/string.c: blocks of memory.
use os_assignment.Prelude.{
  ℕ, zero, suc, ◌+◌, ◌-◌, ◌%◌, ◌<◌, ◌≤◌, ◌≡◌, ◌≢◌, ◌⊎◌, inl, inr, refl, ap, ◌∙◌, ◌&&◌, ◌==◌, ltb,
  leb, arith, if◌then◌else◌, update, Bool-cases,
}
use mathlib.Core.Path.{subst}
use os_assignment.Prelude.Int.{ℤ, minus}
use os_assignment.Strings.{memset, memset_from, memcmp, copy_up, copy_down, memmove}

-- The memory with the `n` bytes from `src` on at `dst` too.
abbrev pub moved : (dst src n : ℕ) → (ℕ → ℕ) → ℕ → ℕ
moved dst src n mem a = if leb dst a && ltb a (dst + n) then mem (src + (a - dst)) else mem a

-- Two equal addresses have the same byte.
same_byte : (mem : ℕ → ℕ) (a b : ℕ) → a ≡ b → mem a ≡ mem b
same_byte mem a b e = ap mem e

copy_up_lem :
    (d s n : ℕ) (mem : ℕ → ℕ) (a : ℕ)
    → (d ≤ s) ⊎ (s + n ≤ d)
    → copy_up d s n mem a ≡ moved d s n mem a
unfolding copy_up
copy_up_lem d s zero mem a h = ground arith
copy_up_lem d s (suc n) mem a h =
    let ih : copy_up (d + 1) (s + 1) n (update mem d (mem s)) a
        ≡ moved (d + 1) (s + 1) n (update mem d (mem s)) a =
      copy_up_lem (d + 1) (s + 1) n (update mem d (mem s)) a
        (elim h [ inl l ↦ inl (omega arith) | inr l ↦ inr (omega arith) ]) in
    ih ∙ grind (arith, h)

copy_down_lem :
    (d s n : ℕ) (mem : ℕ → ℕ) (a : ℕ)
    → s < d
    → copy_down (d + n) (s + n) n mem a ≡ moved d s n mem a
unfolding copy_down
copy_down_lem d s zero mem a h = ground arith
copy_down_lem d s (suc n) mem a h =
    let to : d + suc n - 1 ≡ d + n = omega arith in
    let from : s + suc n - 1 ≡ s + n = omega arith in
    rw (to, from) (copy_down_lem d s n (update mem (d + n) (mem (s + n))) a h ∙ grind (arith, h))

-- `memmove` leaves at `dst` the `n` bytes that were at `src`, however the two areas overlap, and
-- all other memory as it was.
pub memmove_lem :
    (dst src n : ℕ) (mem : ℕ → ℕ) (a : ℕ) → memmove dst src n mem a ≡ moved dst src n mem a
unfolding memmove
memmove_lem dst src n mem a = elim (Bool-cases (ltb src dst && ltb dst (src + n))) [
  | inl over ↦ rw over (copy_down_lem dst src n mem a (ground (arith, over)))
  | inr clear ↦ rw clear (copy_up_lem dst src n mem a (grind (arith, clear)))
]

memset_from_lem :
    (dst c left i : ℕ) (mem : ℕ → ℕ) (a : ℕ)
    → memset_from dst c left i mem a
      ≡ (if leb (dst + i) a && ltb a (dst + i + left) then c % 256 else mem a)
unfolding memset_from
memset_from_lem dst c zero i mem a = ground arith
memset_from_lem dst c (suc left) i mem a =
    memset_from_lem dst c left (i + 1) (update mem (dst + i) (c % 256)) a ∙ grind arith

-- `memset` fills its area with the low byte of `c`, and leaves all other memory as it was.
pub memset_lem :
    (dst c n : ℕ) (mem : ℕ → ℕ) (a : ℕ)
    → memset dst c n mem a ≡ (if leb dst a && ltb a (dst + n) then c % 256 else mem a)
unfolding memset
memset_lem dst c n mem a = memset_from_lem dst c n 0 mem a ∙ grind arith

-- The bytes at two addresses are the same for `n` bytes.
abbrev pub SameBytes : (ℕ → ℕ) → (a b n : ℕ) → Type 0
SameBytes mem a b zero = Unit
SameBytes mem a b (suc n) = (mem a ≡ mem b) × SameBytes mem (a + 1) (b + 1) n

-- `memcmp` returns 0 if the areas are the same, and otherwise the difference of the first bytes
-- that differ.
pub memcmp_lem :
    (v1 v2 n : ℕ) (mem : ℕ → ℕ)
    → (SameBytes mem v1 v2 n × (memcmp v1 v2 n mem ≡ ℤ.pos 0))
      ⊎ ((i : ℕ) × (i < n)
          × SameBytes mem v1 v2 i
          × (mem (v1 + i) ≢ mem (v2 + i))
          × (memcmp v1 v2 n mem ≡ minus (mem (v1 + i)) (mem (v2 + i))))
unfolding memcmp
memcmp_lem v1 v2 zero mem = inl (tt, refl)
memcmp_lem v1 v2 (suc n) mem = elim (Bool-cases (mem v1 == mem v2)) [
  | inl same ↦ elim (memcmp_lem (v1 + 1) (v2 + 1) n mem) [
    | inl (all, e) ↦ inl ((ground (arith, same), all), rw same e)
    | inr (i, l, before, differ, e) ↦
        let to : v1 + 1 + i ≡ v1 + suc i = omega arith in
        let from : v2 + 1 + i ≡ v2 + suc i = omega arith in
        inr (
          suc i,
          omega arith,
          (ground (arith, same), before),
          subst (λ x. mem x ≢ mem (v2 + suc i)) to
              (subst (λ x. mem (v1 + 1 + i) ≢ mem x) from differ),
          rw same (
              e
              ∙ ap (λ x. minus (mem x) (mem (v2 + 1 + i))) to
              ∙ ap (λ x. minus (mem (v1 + suc i)) (mem x)) from),
        )
  ]
  | inr differ ↦
      let to : v1 ≡ v1 + 0 = omega arith in
      let from : v2 ≡ v2 + 0 = omega arith in
      inr (
        0,
        omega arith,
        tt,
        subst (λ x. mem x ≢ mem (v2 + 0)) to
            (subst (λ x. mem v1 ≢ mem x) from (ground (arith, differ))),
        rw differ
            (ap (λ x. minus (mem x) (mem v2)) to ∙ ap (λ x. minus (mem (v1 + 0)) (mem x)) from),
      )
]
