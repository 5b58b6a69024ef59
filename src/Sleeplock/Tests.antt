-- ===== src/Sleeplock/Tests.antt =====
-- Runs of the model of kernel/sleeplock.c, and its theorem at a concrete input.
use os_assignment.Prelude.{ℕ, ◌+◌, ◌≡◌, refl, List, [], ◌∷◌}
use os_assignment.Sleeplock.{
  asleep, trying, Event, call, turn, release, step, run, start, try_acquire, releasesleep,
}
use os_assignment.Sleeplock.Exclusion.{IsOwned, run-IsOwned, start-IsOwned}

abbrev pid_of : ℕ → ℕ
pid_of j = j + 3

-- The second thread sleeps, and is woken when the first releases the lock.
abbrev events : List Event
events = call 0 ∷ call 1 ∷ turn 0 ∷ turn 1 ∷ []

second_sleeps : (run pid_of events start).place 1 ≡ asleep
unfolding run step start try_acquire
second_sleeps = refl

second_wakes : (run pid_of (release 0 ∷ []) (run pid_of events start)).place 1 ≡ trying
unfolding run step start try_acquire releasesleep
second_wakes = refl

run-IsOwned_example : IsOwned pid_of (run pid_of events start)
run-IsOwned_example = run-IsOwned pid_of events start (start-IsOwned pid_of)
