-- ===== src/Strings.antt =====
-- kernel/string.c: memory and strings. The memory has a byte at each address; the areas that a
-- function is called on are taken not to reach the end of the address space.
pub mod Memory
pub mod Copies
mod Tests
use os_assignment.Prelude.{
  ℕ, zero, suc, ◌+◌, ◌-◌, ◌%◌, Bool, true, false, not, ◌&&◌, Option, none, some, ◌==◌, ltb, leb,
  if◌then◌else◌, update,
}
use os_assignment.Prelude.Int.{ℤ, minus}

-- The loop of `memset`, with `left` rounds to go.
unfoldable pub memset_from : (dst c left i : ℕ) → (ℕ → ℕ) → ℕ → ℕ
memset_from dst c zero i mem = mem
memset_from dst c (suc left) i mem = memset_from dst c left (i + 1) (update mem (dst + i) (c % 256))

unfoldable pub memset : (dst c n : ℕ) → (ℕ → ℕ) → ℕ → ℕ
unfolding memset_from
memset dst c n mem = memset_from dst c n 0 mem

unfoldable pub memcmp : (v1 v2 n : ℕ) → (ℕ → ℕ) → ℤ
memcmp v1 v2 zero mem = ℤ.pos 0
memcmp v1 v2 (suc n) mem =
    let rest = memcmp (v1 + 1) (v2 + 1) n mem in
    if mem v1 == mem v2 then rest else minus (mem v1) (mem v2)

-- The second loop of `memmove`: `*d++ = *s++`, `n` times.
unfoldable pub copy_up : (d s n : ℕ) → (ℕ → ℕ) → ℕ → ℕ
copy_up d s zero mem = mem
copy_up d s (suc n) mem = copy_up (d + 1) (s + 1) n (update mem d (mem s))

-- The first one: `*--d = *--s`, `n` times.
unfoldable pub copy_down : (d s n : ℕ) → (ℕ → ℕ) → ℕ → ℕ
copy_down d s zero mem = mem
copy_down d s (suc n) mem = copy_down (d - 1) (s - 1) n (update mem (d - 1) (mem (s - 1)))

unfoldable pub memmove : (dst src n : ℕ) → (ℕ → ℕ) → ℕ → ℕ
unfolding copy_up copy_down
memmove dst src n mem =
    if ltb src dst && ltb dst (src + n)
    then copy_down (dst + n) (src + n) n mem
    else copy_up dst src n mem

unfoldable pub strncmp : (p q n : ℕ) → (ℕ → ℕ) → ℤ
strncmp p q zero mem = ℤ.pos 0
strncmp p q (suc n) mem =
    let rest = strncmp (p + 1) (q + 1) n mem in
    if not (mem p == 0) && (mem p == mem q) then rest else minus (mem p) (mem q)

-- The second loop of `strncpy`.
unfoldable pub pad_zero : (s n : ℕ) → (ℕ → ℕ) → ℕ → ℕ
pad_zero s zero mem = mem
pad_zero s (suc n) mem = pad_zero (s + 1) n (update mem s 0)

-- `strncpy`; a negative `n` is as 0.
unfoldable pub strncpy : (s t n : ℕ) → (ℕ → ℕ) → ℕ → ℕ
unfolding pad_zero
strncpy s t zero mem = mem
strncpy s t (suc n) mem =
    let rest = strncpy (s + 1) (t + 1) n (update mem s (mem t)) in
    if mem t == 0 then pad_zero (s + 1) n (update mem s (mem t)) else rest

-- The loop of `safestrcpy` with `left` = n - 1 rounds to go, and the final `*s = 0`.
unfoldable pub safestrcpy_from : (s t left : ℕ) → (ℕ → ℕ) → ℕ → ℕ
safestrcpy_from s t zero mem = update mem s 0
safestrcpy_from s t (suc left) mem =
    let copied = update mem s (mem t) in
    let rest = safestrcpy_from (s + 1) (t + 1) left copied in
    if mem t == 0 then update copied (s + 1) 0 else rest

-- `safestrcpy`; a negative `n` is as 0.
unfoldable pub safestrcpy : (s t n : ℕ) → (ℕ → ℕ) → ℕ → ℕ
unfolding safestrcpy_from
safestrcpy s t zero mem = mem
safestrcpy s t (suc n) mem = safestrcpy_from s t n mem

-- `strlen` with fuel; `none` if no NUL is met.
unfoldable pub strlen_from : (fuel s n : ℕ) → (ℕ → ℕ) → Option ℕ
strlen_from zero s n mem = none
strlen_from (suc fuel) s n mem =
    let rest = strlen_from fuel s (n + 1) mem in if mem (s + n) == 0 then some n else rest

unfoldable pub strlen : (fuel s : ℕ) → (ℕ → ℕ) → Option ℕ
unfolding strlen_from
strlen fuel s mem = strlen_from fuel s 0 mem
