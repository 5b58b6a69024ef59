-- ===== src/Prelude/Int.antt =====
-- The C `int`, as far as the kernel's results need it.
use Prim.Native.Nat.{ℕ, ◌-◌}
use os_assignment.Prelude.Tests.{ltb, if◌then◌else◌}

-- `negsuc n` is -(n + 1).
pub data ℤ : Type 0 where
  pos negsuc : ℕ → ℤ

-- `a - b`
abbrev pub minus : ℕ → ℕ → ℤ
minus a b = if ltb a b then ℤ.negsuc (b - a - 1) else ℤ.pos (a - b)
