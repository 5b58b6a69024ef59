-- ===== src/Shell/Grammar.antt =====
-- user/sh.c: what can follow a printed command line, and how long one is.
use os_assignment.Prelude.{
  ℕ, zero, suc, ◌+◌, ◌<◌, ◌≤◌, ◌≡◌, refl, false, List, [], ◌∷◌, arith, length, length-append,
}
use os_assignment.Shell.{starts}
use os_assignment.Shell.Printer.{
  Target, Arg, Line, last, then_line, Pipe, single, piped, Exec, simple, block, print_arrow,
  print_word, print_targets, print_args, print_backs, print_line, print_pipe, print_exec, IsWord,
  AllArgs, IsLine, IsPipe, IsExec, from, into, onto, Arrow,
}
use os_assignment.Shell.RoundTrip.{Stops, stop_chars, Tight, Tight-targets, Tight-args, cost}

abbrev pub pipe_chars : List ℕ
pipe_chars = b')' ∷ b'&' ∷ b';' ∷ []

abbrev pub line_chars : List ℕ
line_chars = b')' ∷ []

pub pipe-exec : (k : List ℕ) → Stops pipe_chars k → Stops stop_chars k
pipe-exec [] h = tt
pipe-exec (c ∷ k) h = ground (arith, h)

pub pipe-no_pipe : (k : List ℕ) → Stops pipe_chars k → starts (b'|' ∷ []) k ≡ false
pipe-no_pipe [] h = refl
pipe-no_pipe (c ∷ k) h = ground (arith, h)

pub line-pipe : (k : List ℕ) → Stops line_chars k → Stops pipe_chars k
line-pipe [] h = tt
line-pipe (c ∷ k) h = ground (arith, h)

pub line-no_back : (k : List ℕ) → Stops line_chars k → starts (b'&' ∷ []) k ≡ false
line-no_back [] h = refl
line-no_back (c ∷ k) h = ground (arith, h)

pub line-no_next : (k : List ℕ) → Stops line_chars k → starts (b';' ∷ []) k ≡ false
line-no_next [] h = refl
line-no_next (c ∷ k) h = ground (arith, h)

pub backs-Stops : (n : ℕ) (k : List ℕ) → Stops pipe_chars k → Stops pipe_chars (print_backs n k)
backs-Stops zero k h = h
backs-Stops (suc n) k h = refl

pub backs-Tight : (n : ℕ) (k : List ℕ) → Tight k → Tight (print_backs n k)
backs-Tight zero k t = t
backs-Tight (suc n) k t = refl

-- No printed line begins with white space.
mutual
  unfolding print_line IsLine

  pub line-Tight : (l : Line) (k : List ℕ) → IsLine l → Tight k → Tight (print_line l k)
  line-Tight (last p n) k w t = pipe-Tight p (print_backs n k) w (backs-Tight n k t)
  line-Tight (then_line p n l) k w t =
      pipe-Tight p (print_backs n (b';' ∷ print_line l k)) w.0 (backs-Tight n _ refl)

  pub pipe-Tight : (p : Pipe) (k : List ℕ) → IsPipe p → Tight k → Tight (print_pipe p k)
  pipe-Tight (single e) k w t = exec-Tight e k w t
  pipe-Tight (piped e p) k w t = exec-Tight e (b'|' ∷ print_pipe p k) w.0 refl

  pub exec-Tight : (e : Exec) (k : List ℕ) → IsExec e → Tight k → Tight (print_exec e k)
  exec-Tight (simple ts args) k w t = Tight-targets ts (print_args args k) (Tight-args args k w.1 t)
  exec-Tight (block l ts) k w t = refl

-- How long a printed text is at least.
length-arrow : (a : Arrow) (k : List ℕ) → length k < length (print_arrow a k)
length-arrow from k = omega arith
length-arrow into k = omega arith
length-arrow onto k = omega arith

length-print_word : (w k : List ℕ) → length (print_word w k) ≡ length w + (1 + length k)
length-print_word w k = omega (arith, length-append w (b' ' ∷ k))

pub length-targets :
    (ts : List Target) (k : List ℕ) → length ts + length k ≤ length (print_targets ts k)
length-targets [] k = omega arith
length-targets (t ∷ ts) k = omega (
  arith,
  length-targets ts k,
  length-print_word t.file (print_targets ts k),
  length-arrow t.arrow (print_word t.file (print_targets ts k)),
)

IsWord-length : (w : List ℕ) → IsWord w → 1 ≤ length w
IsWord-length [] h = absurd h
IsWord-length (c ∷ w) h = omega arith

pub length-args :
    (args : List Arg) (k : List ℕ)
    → AllArgs args
    → cost args + length k ≤ 1 + length (print_args args k)
length-args [] k h = omega arith
length-args (a ∷ args) k h = omega (
  arith,
  length-args args k h.2,
  IsWord-length a.text h.0,
  length-targets a.targets (print_args args k),
  length-print_word a.text (print_targets a.targets (print_args args k)),
)

pub cost_pos : (args : List Arg) → 1 ≤ cost args
cost_pos [] = omega arith
cost_pos (a ∷ args) = omega arith

pub length-backs : (n : ℕ) (k : List ℕ) → length (print_backs n k) ≡ n + length k
length-backs zero k = omega arith
length-backs (suc n) k = omega (arith, length-backs n k)

mutual
  unfolding print_line IsLine

  pub length-line : (l : Line) (k : List ℕ) → IsLine l → length k ≤ length (print_line l k)
  length-line (last p n) k w = omega (arith, length-pipe p (print_backs n k) w, length-backs n k)
  length-line (then_line p n l) k w = omega (
    arith,
    length-pipe p (print_backs n (b';' ∷ print_line l k)) w.0,
    length-backs n (b';' ∷ print_line l k),
    length-line l k w.1,
  )

  pub length-pipe : (p : Pipe) (k : List ℕ) → IsPipe p → length k ≤ length (print_pipe p k)
  length-pipe (single e) k w = length-exec e k w
  length-pipe (piped e p) k w =
      omega (arith, length-exec e (b'|' ∷ print_pipe p k) w.0, length-pipe p k w.1)

  pub length-exec : (e : Exec) (k : List ℕ) → IsExec e → length k ≤ length (print_exec e k)
  length-exec (simple ts args) k w =
      omega (arith, length-targets ts (print_args args k), length-args args k w.1, cost_pos args)
  length-exec (block l ts) k w =
      omega (arith, length-line l (b')' ∷ print_targets ts k) w.0, length-targets ts k)
