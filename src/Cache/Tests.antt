-- ===== src/Cache/Tests.antt =====
-- Runs of the model of kernel/bio.c, and its theorems at concrete inputs.
use os_assignment.Prelude.{
  ℕ, ◌≡◌, take, ltb, if◌then◌else◌, refl, true, false, some, List, [], ◌∷◌, arith,
}
use os_assignment.Prelude.Outcome.{Outcome, ok, panic}
use os_assignment.Cache.{
  Cache, binit, bget, recycle, find_cached, find_unused, link_from, bpin, bunpin, lock_buffer,
  fill_buffer, unlock_buffer, drop_buffer,
}
use os_assignment.Cache.Users.{
  Mode, Ref, start, System, Event, get, use_at, lock, fill, unlock, give_up, step, run, AllAllowed,
}
use os_assignment.Cache.Sound.{GoesOn}
use os_assignment.Cache.Safety.{run-IsCoherent}
use os_assignment.Cache.Oldest.{start-IsCoherent, bget-least_recent}

-- Two threads want block 7 of device 1: the second waits for the first, and both use buffer 0.
abbrev two_readers : List Event
two_readers =
    get 1 7
    ∷ use_at 0 lock
    ∷ get 1 7
    ∷ use_at 0 lock
    ∷ use_at 1 fill
    ∷ use_at 1 unlock
    ∷ use_at 0 lock
    ∷ use_at 1 give_up
    ∷ []

two_readers_allowed : AllAllowed two_readers start
unfolding AllAllowed step bget binit find_cached find_unused recycle bpin lock_buffer fill_buffer
    unlock_buffer drop_buffer bunpin
two_readers_allowed = (
  (omega arith, omega arith),
  (tt, ((omega arith, omega arith), (tt, (tt, (tt, (tt, (tt, tt))))))),
)

-- The references left, and the list with the buffer used least recently last.
abbrev left_over : Outcome System → List Ref × List ℕ
left_over (ok s) = (s.refs, take 3 s.cache.order)
left_over panic = ([], [])

two_readers_share :
    left_over (run two_readers start)
    ≡ (record { slot = 0; dev = 1; blockno = 7; mode = Mode.holding } ∷ [], 29 ∷ 28 ∷ 27 ∷ [])
unfolding run bget binit find_cached find_unused recycle bpin lock_buffer fill_buffer unlock_buffer
    drop_buffer bunpin
two_readers_share = refl

run-IsCoherent_example : GoesOn (run two_readers start)
run-IsCoherent_example = run-IsCoherent two_readers start two_readers_allowed start-IsCoherent

-- The buffers 0 and 1 are in use, and 2 is the last one that is not.
abbrev two_busy : Cache
two_busy = record binit {
  buf = λ i. record {
    valid = true;
    dev = 1;
    blockno = i;
    locked = false;
    refcnt = if ltb i 2 then 1 else 0;
  };
}

bget-least_recent_example :
    (bget 1 90 two_busy ≡ ok (2, recycle 1 90 2 two_busy))
    × (find_cached 1 90 (recycle 1 90 2 two_busy).buf two_busy.order ≡ some 2)
unfolding binit find_cached
bget-least_recent_example =
    bget-least_recent 1 90 two_busy (link_from 27 3 []) (1 ∷ 0 ∷ []) 2 refl refl refl
      (omega arith, (omega arith, tt))
