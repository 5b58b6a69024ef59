-- ===== src/Log/Transactions.antt =====
-- kernel/log.c: any number of file system calls that begin, write and end, with the commits of the
-- last ones to end.
use os_assignment.Prelude.{
  ℕ, zero, suc, ◌+◌, none, some, List, [], ◌∷◌, ltb, get_elem?, set, if◌then◌else◌,
}
use os_assignment.Prelude.Outcome.{Outcome, ok, ◌>>=◌}
use os_assignment.Log.{
  Machine, Begin, must_sleep, begun, begin_op, end_op, log_write, logged, finish_commit,
}
use os_assignment.Log.Writes.{IsHome}

-- The calls in progress, each by the number of blocks that it has added to the log. A
-- call adds no more than `limit`, which param.h asks to be at most MAXOPBLOCKS; behind the last of
-- them it logs nothing more, since `log_write` of a block that is listed already panics too when
-- the list is full.
pub record Session : Type 0 where
  pub machine : Machine
  pub ops : List ℕ

pub data Event : Type 0 where
  begin : Event  -- a round of the loop of `begin_op`
  write : (j b : ℕ) → Event  -- call j logs block b
  end : (j : ℕ) → Event
  commit_done : Event

abbrev pub remove : ℕ → List ℕ → List ℕ
remove j [] = []
remove zero (u ∷ us) = us
remove (suc j) (u ∷ us) = u ∷ remove j us

unfoldable pub after_begin : Begin → Session → Outcome Session
after_begin must_sleep s = ok s
after_begin (begun l) s = ok (record { machine = record s.machine { log = l }; ops = 0 ∷ s.ops })

module _ (limit : ℕ) where
  unfoldable pub try_write : (j b u : ℕ) → Session → Outcome Session
  try_write j b u s =
      if ltb u limit
      then (log_write b s.machine >>= λ m. ok (record {
        machine = m;
        ops = if logged b s.machine.log.lh then s.ops else set s.ops j (u + 1);
      }))
      else ok s

  unfoldable pub step : Event → Session → Outcome Session
  unfolding try_write after_begin
  step begin s = after_begin (begin_op s.machine.log) s
  step (write j b) s = elim (get_elem? s.ops j) [ none ↦ ok s | some u ↦ try_write j b u s ]
  step (end j) s = elim (get_elem? s.ops j) [
    | none ↦ ok s
    | some u ↦ end_op s.machine.log >>= λ r.
        ok (record { machine = record s.machine { log = r.1 }; ops = remove j s.ops })
  ]
  step commit_done s =
      if s.machine.log.committing then ok (record s { machine = finish_commit s.machine }) else ok s

  unfoldable pub run : List Event → Session → Outcome Session
  unfolding step
  run [] s = ok s
  run (e ∷ es) s = step e s >>= run es

-- The blocks that calls log lie outside the log.
abbrev pub WritesHome : (start size : ℕ) → List Event → Type 0
WritesHome start size [] = Unit
WritesHome start size (write j b ∷ es) = IsHome start size b × WritesHome start size es
WritesHome start size (e ∷ es) = WritesHome start size es
