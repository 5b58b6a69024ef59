-- ===== src/Semaphore/Weights.antt =====
-- user/Csemaphore.c: the invariant of a counting semaphore, by sums over the threads.
use os_assignment.Prelude.{
  ℕ, zero, suc, ◌+◌, ◌≤◌, ◌≡◌, refl, ap, some, List, [], ◌∷◌, arith, if◌then◌else◌, get_elem?, set,
}
use os_assignment.Prelude.Int.{ℤ}
use os_assignment.Semaphore.{Value}
use os_assignment.Semaphore.Counting.{is_positive, is_one, Pc, System}

-- The thread holds the lock: it is between a `bsem_down(bsem1)` and the `bsem_up(bsem1)` after it.
abbrev pub locks : Pc → ℕ
locks Pc.outside = 0
locks Pc.down_gate = 0
locks Pc.down_lock = 0
locks Pc.up_lock = 0
locks pc = 1

-- The thread has taken the 1 of the gate `bsem2`, or is going to put it back, at this count.
abbrev pub gates : ℤ → Pc → ℕ
gates c Pc.down_lock = 1
gates c Pc.down_count = 1
gates c Pc.down_open = 1
gates c Pc.up_open = 1
gates c Pc.down_test = if is_positive c then 1 else 0
gates c Pc.up_test = if is_one c then 1 else 0
gates c pc = 0

abbrev pub ones : Value → ℕ
ones Value.unallocated = 2
ones Value.down = 0
ones Value.up = 1

abbrev pub total : (Pc → ℕ) → List Pc → ℕ
total w [] = 0
total w (pc ∷ pcs) = w pc + total w pcs

pub total-set :
    (w : Pc → ℕ) (i : ℕ) (a b : Pc) (ts : List Pc)
    → get_elem? ts i ≡ some a
    → total w (set ts i b) + w a ≡ total w ts + w b
total-set w i a b [] e = absurd (cc)
total-set w zero a b (t ∷ ts) e = let e' : t ≡ a = cc in rw e' (omega arith)
total-set w (suc i) a b (t ∷ ts) e = omega (arith, total-set w i a b ts e)

pub gates-free : (c d : ℤ) (pc : Pc) → locks pc ≡ 0 → gates c pc ≡ gates d pc
gates-free c d Pc.outside h = refl
gates-free c d Pc.down_gate h = refl
gates-free c d Pc.down_lock h = refl
gates-free c d Pc.up_lock h = refl
gates-free c d Pc.down_count h = refl
gates-free c d Pc.down_open h = refl
gates-free c d Pc.down_unlock h = refl
gates-free c d Pc.up_count h = refl
gates-free c d Pc.up_open h = refl
gates-free c d Pc.up_unlock h = refl
gates-free c d Pc.down_test h = absurd (omega arith)
gates-free c d Pc.up_test h = absurd (omega arith)

pub total-gates-free :
    (c d : ℤ) (ts : List Pc) → total locks ts ≡ 0 → total (gates c) ts ≡ total (gates d) ts
total-gates-free c d [] h = refl
total-gates-free c d (t ∷ ts) h =
    omega (arith, gates-free c d t (omega arith), total-gates-free c d ts (omega arith))

-- If the thread at `i` is the only one that holds the lock, a change of the count matters to it
-- alone.
pub total-gates-change :
    (c d : ℤ) (i : ℕ) (a : Pc) (ts : List Pc)
    → get_elem? ts i ≡ some a
    → total locks ts ≡ locks a
    → total (gates d) ts + gates c a ≡ total (gates c) ts + gates d a
total-gates-change c d i a [] e h = absurd (cc)
total-gates-change c d zero a (t ∷ ts) e h =
    let e' : t ≡ a = cc in
    rw e' (omega (arith, total-gates-free c d ts (omega (arith, ap locks e'))))
total-gates-change c d (suc i) a (t ∷ ts) e h =
    let le : locks a ≤ total locks ts = total-le i ts e in
    omega (arith, gates-free c d t (omega arith), total-gates-change c d i a ts e (omega arith))
  where
    total-le : (i : ℕ) (ts : List Pc) → get_elem? ts i ≡ some a → locks a ≤ total locks ts
    total-le i [] e = absurd (cc)
    total-le zero (t ∷ ts) e = let e' : t ≡ a = cc in rw e' (omega arith)
    total-le (suc i) (t ∷ ts) e = omega (arith, total-le i ts e)

-- The invariant, for a semaphore made with `init`.
pub record IsSound (init : ℕ) (s : System) : Type 0 where
  pub value : ℕ
  pub count : s.csem.count ≡ ℤ.pos value
  pub balance : value + s.csem.downs ≡ init + s.csem.ups
  pub one_locks : ones s.csem.bsem1 + total locks s.threads ≡ 1
  pub one_gates :
      ones s.csem.bsem2 + total (gates s.csem.count) s.threads
      ≡ (if is_positive s.csem.count then 1 else 0)
