-- ===== src/Spinlock/Nesting.antt =====
-- kernel/spinlock.c: `push_off` and `pop_off` as brackets.
use os_assignment.Prelude.{
  ℕ, zero, suc, ◌+◌, ◌-◌, ◌≤◌, ◌≡◌, refl, Option, none, some, List, [], ◌∷◌, Bool, true, false,
  ◌&&◌, ◌==◌, arith, if◌then◌else◌,
}
use mathlib.Core.Path.{subst}
use os_assignment.Prelude.Outcome.{Outcome, ok, ◌>>=◌}
use os_assignment.Spinlock.{Cpu, push_off, pop_off}

-- What `pop_off` leaves when it does not panic.
abbrev pub popped : Cpu → Cpu
popped c = record c {
  noff = c.noff - 1;
  interrupts = if ((c.noff - 1) == 0) && c.intena then true else c.interrupts;
}

pub pop_off_lem : (c : Cpu) → c.interrupts ≡ false → 1 ≤ c.noff → pop_off c ≡ ok (popped c)
unfolding pop_off
pop_off_lem c off some_open = ground (arith, off, some_open)

-- Calls of `push_off`, for `true`, and of `pop_off`.
unfoldable pub brackets : List Bool → Cpu → Outcome Cpu
brackets [] c = ok c
brackets (true ∷ bs) c = brackets bs (push_off c)
brackets (false ∷ bs) c = pop_off c >>= brackets bs

-- How many brackets are open after them, with `n` open before; `none` if one too many is closed.
unfoldable pub open_after : List Bool → ℕ → Option ℕ
open_after [] n = some n
open_after (true ∷ bs) n = open_after bs (n + 1)
open_after (false ∷ bs) zero = none
open_after (false ∷ bs) (suc n) = open_after bs n

-- After `n` more calls of `push_off` than of `pop_off`, in a CPU that had `interrupts` and no
-- bracket open.
record IsNested (on : Bool) (n : ℕ) (c : Cpu) : Type 0 where
  depth : c.noff ≡ n
  off : 1 ≤ n → c.interrupts ≡ false
  kept : 1 ≤ n → c.intena ≡ on
  out : n ≡ 0 → c.interrupts ≡ on

push_off-IsNested :
    {on : Bool} {n : ℕ} {c : Cpu} → IsNested on n c → IsNested on (n + 1) (push_off c)
unfolding push_off
push_off-IsNested h = record {
  depth = omega (arith, h.depth);
  off = λ l. refl;
  kept = λ l. ground (arith, h.depth, h.kept, h.out);
  out = λ z. absurd (omega arith);
}

pop_off-IsNested :
    {on : Bool} {n : ℕ} {c : Cpu}
    → IsNested on (n + 1) c
    → (d : Cpu) × (pop_off c ≡ ok d) × IsNested on n d
pop_off-IsNested {on} {n} {c} h = (
  popped c,
  pop_off_lem c (h.off (omega arith)) (omega (arith, h.depth)),
  record {
    depth = omega (arith, h.depth);
    off = λ l. ground (arith, h.depth, h.off);
    kept = λ l. h.kept (omega arith);
    out = λ z. ground (arith, h.depth, h.off, h.kept, z);
  },
)

some_eq : {n k : ℕ} → some n ≡ some k → n ≡ k
some_eq e = cc (e)

brackets-IsNested :
    {on : Bool} (bs : List Bool) (n k : ℕ) (c : Cpu)
    → IsNested on n c
    → open_after bs n ≡ some k
    → (d : Cpu) × (brackets bs c ≡ ok d) × IsNested on k d
unfolding brackets open_after
brackets-IsNested {on} [] n k c h e = (c, refl, subst (λ m. IsNested on m c) (some_eq e) h)
brackets-IsNested (true ∷ bs) n k c h e =
    brackets-IsNested bs (n + 1) k (push_off c) (push_off-IsNested h) e
brackets-IsNested (false ∷ bs) zero k c h e = absurd (cc (e))
brackets-IsNested {on} (false ∷ bs) (suc n) k c h e =
    let (d, e', h') = pop_off-IsNested (subst (λ m. IsNested on m c) (omega arith) h) in
    rw e' (brackets-IsNested bs n k d h' e)

-- Any sequence of `push_off` and `pop_off` in which each `pop_off` closes an open bracket, on a CPU
-- that has none open to begin with, does not panic; and if it closes all that it opens, interrupts
-- are as they were before it.
pub brackets-restore :
    (bs : List Bool) (k : ℕ) (c : Cpu)
    → c.noff ≡ 0
    → open_after bs 0 ≡ some k
    → (d : Cpu) × (brackets bs c ≡ ok d)
      × (d.noff ≡ k)
      × (1 ≤ k → d.interrupts ≡ false)
      × (k ≡ 0 → d.interrupts ≡ c.interrupts)
brackets-restore bs k c closed e =
    let (d, e', h) = brackets-IsNested bs 0 k c closed_IsNested e in (d, e', h.depth, h.off, h.out)
  where
    closed_IsNested : IsNested c.interrupts 0 c
    closed_IsNested = record {
      depth = closed;
      off = λ l. absurd (omega (arith, l));
      kept = λ l. absurd (omega (arith, l));
      out = λ z. refl;
    }
