-- ===== src/Files/Refs.antt =====
-- kernel/file.c, kernel/sysfile.c: who refers to the open files.
use os_assignment.Prelude.{
  ℕ, zero, suc, ◌+◌, ◌≤◌, ◌≡◌, false, some, List, [], ◌∷◌, arith, get_elem?, set,
}
use mathlib.Core.Path.{subst}
use os_assignment.Prelude.Outcome.{Outcome, ok}
use os_assignment.Files.Descriptors.{Ofile}
use os_assignment.Files.Counts.{one, count, Counts}
use os_assignment.Files.Processes.{
  Work, idle, opening, one_end, both_ends, closing, copying, exiting, Process, System, is_live,
}

-- The references that a call keeps in its variables.
abbrev pub counted : List ℕ → ℕ → ℕ
counted [] k = 0
counted (f ∷ fs) k = one f k + counted fs k

abbrev pub kept : Work → ℕ → ℕ
kept idle k = 0
kept (opening f kind ip r w) k = one f k
kept (one_end f0) k = one f0 k
kept (both_ends f0 f1) k = one f0 k + one f1 k
kept (closing fs) k = counted fs k
kept (copying q todo filled) k = count filled k
kept (exiting todo) k = count todo k

-- All references of a process.
abbrev pub refs : Process → ℕ → ℕ
refs x k = count x.ofile k + kept x.work k

abbrev pub total : List Process → ℕ → ℕ
total [] k = 0
total (x ∷ xs) k = refs x k + total xs k

pub total-set :
    (xs : List Process) (p : ℕ) (y : Process) (k : ℕ) {x : Process}
    → get_elem? xs p ≡ some x
    → total (set xs p y) k + refs x k ≡ total xs k + refs y k
total-set [] p y k e = absurd (cc)
total-set (z ∷ xs) zero y k {x} e = let same : z ≡ x = cc in rw same (omega arith)
total-set (z ∷ xs) (suc p) y k e = omega (arith, total-set xs p y k e)

pub refs-le-total :
    (xs : List Process) (p k : ℕ) {x : Process} → get_elem? xs p ≡ some x → refs x k ≤ total xs k
refs-le-total [] p k e = absurd (cc)
refs-le-total (z ∷ xs) zero k {x} e = let same : z ≡ x = cc in rw same (omega arith)
refs-le-total (z ∷ xs) (suc p) k e = omega (arith, refs-le-total xs p k e)

-- What `fork` has still to copy the process has.
abbrev pub Has : Work → Ofile → Type 0
Has idle ds = Unit
Has (opening f kind ip r w) ds = Unit
Has (one_end f0) ds = Unit
Has (both_ends f0 f1) ds = Unit
Has (closing fs) ds = Unit
Has (copying q todo filled) ds = (k : ℕ) → count todo k ≤ count ds k
Has (exiting todo) ds = (k : ℕ) → count ds k ≡ 0

-- Where no process runs there are no references.
pub record IsGood (x : Process) : Type 0 where
  pub has : Has x.work x.ofile
  pub clean : is_live x.slot ≡ false → (k : ℕ) → refs x k ≡ 0

abbrev pub AllGood : List Process → Type 0
AllGood [] = Unit
AllGood (x ∷ xs) = IsGood x × AllGood xs

pub set-AllGood :
    (xs : List Process) (p : ℕ) (y : Process) → IsGood y → AllGood xs → AllGood (set xs p y)
set-AllGood [] p y c a = tt
set-AllGood (x ∷ xs) zero y c a = (c, a.1)
set-AllGood (x ∷ xs) (suc p) y c a = (a.0, set-AllGood xs p y c a.1)

pub get-AllGood :
    (xs : List Process) (p : ℕ) {x : Process} → get_elem? xs p ≡ some x → AllGood xs → IsGood x
get-AllGood [] p e a = absurd (cc)
get-AllGood (y ∷ xs) zero {x} e a = let same : y ≡ x = cc in subst IsGood same a.0
get-AllGood (y ∷ xs) (suc p) e a = get-AllGood xs p e a.1

-- What holds between critical sections.
pub record IsShared (s : System) : Type 0 where
  pub counts : Counts (total s.procs) s.table
  pub good : AllGood s.procs

abbrev pub GoesOn : Outcome System → Type 0
GoesOn r = (s : System) × (r ≡ ok s) × IsShared s
