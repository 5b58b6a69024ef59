-- ===== src/Process/Lives.antt =====
-- kernel/proc.c: processes of one thread each that call `fork`, `exit` and `wait`, in any order, one
-- critical section at a time.
use os_assignment.Prelude.{
  ℕ, zero, suc, Bool, true, false, not, ◌&&◌, ◌||◌, ◌==◌, Option, none, some, List, [], ◌∷◌,
  if◌then◌else◌, get_elem?, length, update,
}
use os_assignment.Prelude.Outcome.{Outcome, ok, ◌>>=◌}
use os_assignment.Process.{Trapframe, Proc}
use os_assignment.Process.Table.{Table}
use os_assignment.Process.Tree.{is_alive, modify, begin_fork, adopt, start_child, exit, wait}

-- A call by thread `th` of process `me`, whose trapframe is `frame`.
pub data Call : Type 0 where
  forks : (memory copied : Bool) → (frame : Trapframe) → Call
  exits : (status th : ℕ) → Call
  waits : (copied : Bool) → (th : ℕ) → Call

-- How far the `fork` by `me` that made a process is: it has released the lock of the new process,
-- or has set its parent too, or is through.
pub data Birth : Type 0 where
  apart : (me : ℕ) → Birth
  adopted : (me : ℕ) → Birth
  born : Birth

pub record Family : Type 0 where
  pub table : Table
  pub births : ℕ → Birth

pub data Event : Type 0 where
  calls : (me : ℕ) → Call → Event
  adopts : (c : ℕ) → Event  -- the `fork` that made process `c` sets its parent
  starts : (c : ℕ) → Event  -- and makes its thread runnable

abbrev pub is_by : (me : ℕ) → Birth → Bool
is_by me (apart j) = j == me
is_by me (adopted j) = j == me
is_by me born = false

-- Process `me` is in a `fork`, of one of the first `n` slots.
abbrev pub is_forking : (me n : ℕ) → (ℕ → Birth) → Bool
is_forking me zero births = false
is_forking me (suc n) births = is_by me (births n) || is_forking me n births

abbrev pub is_born : Birth → Bool
is_born born = true
is_born b = false

-- A process calls if it has not exited, its thread has been made runnable, and it is in no `fork`.
abbrev pub may_call : (me : ℕ) → Proc → Family → Bool
may_call me p s =
    is_alive p.state
    && (is_born (s.births me) && not (is_forking me (length s.table.procs) s.births))

abbrev pub fork_begun : (me : ℕ) → Option ℕ × Table → Family → Family
fork_begun me (none, k) s = record s { table = k }
fork_begun me (some c, k) s = record { table = k; births = update s.births c (apart me) }

abbrev pub put_procs : List Proc → Family → Family
put_procs ps s = record s { table = record s.table { procs = ps } }

abbrev pub adopt_turn : (c : ℕ) → Birth → Family → Family
adopt_turn c (apart me) s = record {
  table = record s.table { procs = modify c (adopt me) s.table.procs };
  births = update s.births c (adopted me);
}
adopt_turn c (adopted me) s = s
adopt_turn c born s = s

abbrev pub start_by : (c : ℕ) → Option Proc → Family → Family
unfolding start_child
start_by c none s = s
start_by c (some p) s = record {
  table = record s.table { procs = modify c (start_child p) s.table.procs };
  births = update s.births c born;
}

abbrev pub start_turn : (c : ℕ) → Birth → Family → Family
start_turn c (apart me) s = s
start_turn c (adopted me) s = start_by c (get_elem? s.table.procs me) s
start_turn c born s = s

module _ (proc_addr : ℕ → ℕ) (thread_addr : ℕ → ℕ → ℕ) where
  unfoldable pub perform : Call → (me : ℕ) → Proc → Family → Outcome Family
  unfolding begin_fork exit wait
  perform (forks memory copied frame) me p s =
      ok (fork_begun me (begin_fork memory copied p frame s.table) s)
  perform (exits status th) me p s =
      exit proc_addr thread_addr status me th s.table.procs >>= λ ps. ok (put_procs ps s)
  perform (waits copied th) me p s =
      ok (put_procs (wait proc_addr thread_addr copied p.killed me th s.table.procs).1 s)

  abbrev pub call_by : Call → (me : ℕ) → Option Proc → Family → Outcome Family
  call_by c me none s = ok s
  call_by c me (some p) s = let after = perform c me p s in if may_call me p s then after else ok s

  unfoldable pub step : Event → Family → Outcome Family
  unfolding perform start_child
  step (calls me c) s = call_by c me (get_elem? s.table.procs me) s
  step (adopts c) s = ok (adopt_turn c (s.births c) s)
  step (starts c) s = ok (start_turn c (s.births c) s)

  unfoldable pub run : List Event → Family → Outcome Family
  unfolding step
  run [] s = ok s
  run (v ∷ vs) s = step v s >>= run vs
