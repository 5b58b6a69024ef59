-- ===== src/Cache/Users.antt =====
-- kernel/bio.c: any number of threads that get, lock, read, pin and release buffers, and the pins of
-- the log, one critical section at a time.
use os_assignment.Prelude.{
  ℕ, zero, suc, ◌<◌, ◌≢◌, Option, none, some, List, [], ◌∷◌, ◌==◌, length, get_elem?, set,
  if◌then◌else◌,
}
use os_assignment.Prelude.Outcome.{Outcome, ok, panic, ◌>>=◌}
use os_assignment.Cache.{
  Cache, nbuf, binit, bget, bpin, bunpin, lock_buffer, fill_buffer, unlock_buffer, drop_buffer,
}

-- How far the use of a buffer is: behind the search of `bget`, locked, between the two halves of
-- `brelse`, or a pin.
pub data Mode : Type 0 where
  waiting holding leaving pinned : Mode

abbrev pub rank : Mode → ℕ
rank Mode.waiting = 0
rank Mode.holding = 1
rank Mode.leaving = 2
rank Mode.pinned = 3

-- A reference to buffer `slot`, and the block that was asked for.
pub record Ref : Type 0 where
  pub slot : ℕ
  pub dev : ℕ
  pub blockno : ℕ
  pub mode : Mode

pub record System : Type 0 where
  pub cache : Cache
  pub refs : List Ref

pub data Use : Type 0 where
  lock : Use  -- the end of `bget`
  fill : Use  -- the rest of `bread`
  unlock : Use  -- the first half of `brelse`
  give_up : Use  -- its second half
  pin : Use  -- `bpin`, by the holder, as `log_write` does
  unpin : Use  -- `bunpin`

-- What happens next: a search for a block, or a use of the reference in place `j`.
pub data Event : Type 0 where
  get : (dev blockno : ℕ) → Event
  use_at : (j : ℕ) → Use → Event

-- The mode in which a use comes: a thread takes its steps in order.
abbrev pub needs : Use → Mode
needs lock = Mode.waiting
needs fill = Mode.holding
needs unlock = Mode.holding
needs give_up = Mode.leaving
needs pin = Mode.holding
needs unpin = Mode.pinned

abbrev pub remove_at : ℕ → List Ref → List Ref
remove_at j [] = []
remove_at zero (r ∷ rs) = rs
remove_at (suc j) (r ∷ rs) = r ∷ remove_at j rs

abbrev pub to_mode : Mode → Ref → Ref
to_mode m r = record r { mode = m }

abbrev pub after_lock : ℕ → Ref → Option Cache → System → System
after_lock j r none s = s
after_lock j r (some c) s = record { cache = c; refs = set s.refs j (to_mode Mode.holding r) }

unfoldable pub use_ref : Use → ℕ → Ref → System → Outcome System
use_ref lock j r s = ok (after_lock j r (lock_buffer r.slot s.cache) s)
use_ref fill j r s = ok (record s { cache = fill_buffer r.slot s.cache })
use_ref unlock j r s = unlock_buffer (rank r.mode == rank Mode.holding) r.slot s.cache >>= λ c.
    ok (record { cache = c; refs = set s.refs j (to_mode Mode.leaving r) })
use_ref give_up j r s =
    ok (record { cache = drop_buffer r.slot s.cache; refs = remove_at j s.refs })
use_ref pin j r s =
    ok (record { cache = bpin r.slot s.cache; refs = to_mode Mode.pinned r ∷ s.refs })
use_ref unpin j r s = ok (record { cache = bunpin r.slot s.cache; refs = remove_at j s.refs })

unfoldable pub step : Event → System → Outcome System
unfolding use_ref
step (get dev blockno) s = bget dev blockno s.cache >>= λ found. ok (record {
  cache = found.1;
  refs = record { slot = found.0; dev = dev; blockno = blockno; mode = Mode.waiting } ∷ s.refs;
})
step (use_at j u) s = elim (get_elem? s.refs j) [
  | none ↦ ok s
  | some r ↦ if rank r.mode == rank (needs u) then use_ref u j r s else ok s
]

unfoldable pub run : List Event → System → Outcome System
unfolding step
run [] s = ok s
run (e ∷ es) s = step e s >>= run es

-- The cache at boot.
abbrev pub start : System
start = record { cache = binit; refs = [] }

-- The block asked for is of a device other than 0, and a new reference is at most the NBUF-th.
abbrev pub Allowed : Event → System → Type 0
Allowed (get dev blockno) s = (dev ≢ 0) × (length s.refs < nbuf)
Allowed (use_at j pin) s = length s.refs < nbuf
Allowed (use_at j u) s = Unit

-- So it is with all of the events, each in the state in which it comes.
unfoldable pub AllAllowed : List Event → System → Type 0
AllAllowed [] s = Unit
AllAllowed (e ∷ es) s = Allowed e s × elim (step e s) [ ok t ↦ AllAllowed es t | panic ↦ Unit ]
