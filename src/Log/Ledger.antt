-- ===== src/Log/Ledger.antt =====
-- kernel/log.c: the invariant of the log between the steps of file system calls.
use os_assignment.Prelude.{
  ℕ, zero, suc, ◌+◌, ◌-◌, ◌*◌, ◌<◌, ◌≤◌, ◌≡◌, refl, true, false, some, List, [], ◌∷◌, ◌++◌, arith,
  ◌==◌, get_elem?, set, length, if◌then◌else◌,
}
use os_assignment.Prelude.Outcome.{Outcome, ok}
use os_assignment.Log.{logged, max_op_blocks, log_size}
use os_assignment.Log.Writes.{IsHome, AllHome}
use os_assignment.Log.Copy.{count}
use os_assignment.Log.Transactions.{Session, remove}

-- The blocks that the calls in progress may still add.
abbrev pub remaining : (limit : ℕ) → List ℕ → ℕ
remaining limit [] = 0
remaining limit (u ∷ us) = (limit - u) + remaining limit us

pub remaining-set :
    (limit j u : ℕ) (us : List ℕ)
    → get_elem? us j ≡ some u
    → u < limit
    → remaining limit (set us j (u + 1)) + 1 ≡ remaining limit us
remaining-set limit j u [] e h = absurd (cc)
remaining-set limit zero u (v ∷ us) e h = ground arith
remaining-set limit (suc j) u (v ∷ us) e h = omega (arith, remaining-set limit j u us e h)

pub remove_lem :
    (limit j u : ℕ) (us : List ℕ)
    → get_elem? us j ≡ some u
    → (length (remove j us) + 1 ≡ length us) × (remaining limit (remove j us) ≤ remaining limit us)
remove_lem limit j u [] e = absurd (cc)
remove_lem limit zero u (v ∷ us) e = omega arith
remove_lem limit (suc j) u (v ∷ us) e = omega (arith, remove_lem limit j u us e)

pub remaining_pos :
    (limit j u : ℕ) (us : List ℕ) → get_elem? us j ≡ some u → u < limit → 1 ≤ remaining limit us
remaining_pos limit j u us e h = omega (arith, remaining-set limit j u us e h)

pub length_pos : (j u : ℕ) (us : List ℕ) → get_elem? us j ≡ some u → 1 ≤ length us
length_pos j u us e = omega (arith, remove_lem 0 j u us e)

pub remaining-le :
    (limit : ℕ) (us : List ℕ)
    → limit ≤ max_op_blocks
    → remaining limit us ≤ length us * max_op_blocks
remaining-le limit [] le = omega arith
remaining-le limit (u ∷ us) le = omega (arith, remaining-le limit us le)

pub count_of_not_logged : (b : ℕ) (xs : List ℕ) → logged b xs ≡ false → count b xs ≡ 0
count_of_not_logged b [] h = refl
count_of_not_logged b (x ∷ xs) h = ground (arith, count_of_not_logged b xs)

pub count-append_one :
    (x b : ℕ) (xs : List ℕ) → count x (xs ++ (b ∷ [])) ≡ count x xs + (if b == x then 1 else 0)
count-append_one x b [] = omega arith
count-append_one x b (y ∷ xs) = omega (arith, count-append_one x b xs)

pub AllHome-append_one :
    (start size b : ℕ) (xs : List ℕ)
    → AllHome start size xs
    → IsHome start size b
    → AllHome start size (xs ++ (b ∷ []))
AllHome-append_one start size b [] h o = (o, tt)
AllHome-append_one start size b (x ∷ xs) (o', h) o = (o', AllHome-append_one start size b xs h o)

-- The log has room for what the calls in progress may still add, and every logged block is listed
-- and pinned once.
pub record IsReserved (limit start size : ℕ) (s : Session) : Type 0 where
  pub where_start : s.machine.log.start ≡ start
  pub how_large : s.machine.log.size ≡ size
  pub counted : s.machine.log.outstanding ≡ length s.ops
  pub reserved : length s.machine.log.lh + remaining limit s.ops + max_op_blocks ≤ log_size + limit
  pub quiet : s.machine.log.committing ≡ true → length s.ops ≡ 0
  pub home : AllHome start size s.machine.log.lh
  pub clean : s.machine.disk.head ≡ []
  pub pinned : (x : ℕ) → s.machine.pins x ≡ count x s.machine.log.lh
  pub once : (x : ℕ) → count x s.machine.log.lh ≤ 1

-- A step that does not panic, and what it leaves.
abbrev pub GoesOn : (limit start size : ℕ) → Outcome Session → Type 0
GoesOn limit start size r = (s : Session) × (r ≡ ok s) × IsReserved limit start size s
