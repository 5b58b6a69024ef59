-- ===== src/Strings/Tests.antt =====
-- Runs of the model of kernel/string.c, and its theorems at concrete inputs.
use os_assignment.Prelude.{ℕ, ◌≡◌, refl, [], ◌∷◌, get_or, some}
use os_assignment.Prelude.Int.{ℤ}
use os_assignment.Strings.{
  memmove, memset, strncmp, strncpy, strlen, pad_zero, memset_from, strlen_from,
}
use os_assignment.Strings.Memory.{moved, memmove_lem}
use os_assignment.Strings.Copies.{c_string}

-- "xv6", NUL, "xv", NUL, and zeros behind them.
abbrev memory : ℕ → ℕ
memory a = get_or (120 ∷ 118 ∷ 54 ∷ 0 ∷ 120 ∷ 118 ∷ 0 ∷ []) a 0

strncmp_sign : strncmp 0 4 3 memory ≡ ℤ.pos 54
unfolding strncmp
strncmp_sign = refl

strncmp_prefix : strncmp 0 4 2 memory ≡ ℤ.pos 0
unfolding strncmp
strncmp_prefix = refl

strlen_three : strlen 10 0 memory ≡ some 3
unfolding strlen strlen_from
strlen_three = refl

-- Two bytes and the NUL are copied, and a fourth byte is filled.
strncpy_pads : c_string (strncpy 10 4 4 (memset 10 7 5 memory)) 10 5 ≡ 120 ∷ 118 ∷ []
unfolding strncpy memset memset_from pad_zero
strncpy_pads = refl

memmove_lem_example : memmove 1 0 3 memory 3 ≡ moved 1 0 3 memory 3
memmove_lem_example = memmove_lem 1 0 3 memory 3
