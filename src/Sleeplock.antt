-- ===== src/Sleeplock.antt =====
-- kernel/sleeplock.c: locks whose waiters sleep, and any number of threads that use one.
mod Tests
pub mod Exclusion
use os_assignment.Prelude.{
  ℕ, zero, suc, Bool, true, false, ◌&&◌, List, [], ◌∷◌, ◌==◌, if◌then◌else◌, update,
}

-- `struct sleeplock`, less the spinlock `lk` and the name.
pub record Sleeplock : Type 0 where
  pub locked : Bool
  pub pid : ℕ

-- `holdingsleep`, by a thread of process `me`.
unfoldable pub holdingsleep : (me : ℕ) → Sleeplock → Bool
holdingsleep me lk = lk.locked && (lk.pid == me)

-- Where a thread is: not at the lock, in `acquiresleep` before it has `lk->lk`, asleep there, or past
-- it.
pub data Place : Type 0 where
  outside trying asleep inside : Place

abbrev pub wake : Place → Place
wake outside = outside
wake trying = trying
wake asleep = trying
wake inside = inside

pub record System : Type 0 where
  pub lock : Sleeplock
  pub place : ℕ → Place

-- A round of `acquiresleep` under `lk->lk`, by thread `j` of process `me`.
unfoldable pub try_acquire : (j me : ℕ) → System → System
try_acquire j me s =
    if s.lock.locked
    then record s { place = update s.place j asleep }
    else record { lock = record { locked = true; pid = me }; place = update s.place j inside }

-- `releasesleep`, with its `wakeup(lk)`.
unfoldable pub releasesleep : (j : ℕ) → System → System
releasesleep j s = record {
  lock = record { locked = false; pid = 0 };
  place = λ k. wake (update s.place j outside k);
}

pub data Event : Type 0 where
  call turn release kill : (j : ℕ) → Event

abbrev pub enter : Place → Place
enter outside = trying
enter trying = trying
enter asleep = asleep
enter inside = inside

abbrev pub take_turn : (me j : ℕ) → Place → System → System
take_turn me j outside s = s
take_turn me j trying s = try_acquire j me s
take_turn me j asleep s = s
take_turn me j inside s = s

abbrev pub let_go : (j : ℕ) → Place → System → System
let_go j outside s = s
let_go j trying s = s
let_go j asleep s = s
let_go j inside s = releasesleep j s

-- `pid j` is the process of thread `j`. Who is inside may release, and `kill` wakes a sleeper.
module _ (pid : ℕ → ℕ) where
  unfoldable pub step : Event → System → System
  unfolding try_acquire releasesleep
  step (call j) s = record s { place = update s.place j (enter (s.place j)) }
  step (turn j) s = take_turn (pid j) j (s.place j) s
  step (release j) s = let_go j (s.place j) s
  step (kill j) s = record s { place = update s.place j (wake (s.place j)) }

  unfoldable pub run : List Event → System → System
  unfolding step
  run [] s = s
  run (v ∷ vs) s = run vs (step v s)

-- `initsleeplock`
unfoldable pub start : System
start = record { lock = record { locked = false; pid = 0 }; place = λ j. outside }
