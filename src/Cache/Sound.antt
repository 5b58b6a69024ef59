-- ===== src/Cache/Sound.antt =====
-- kernel/bio.c: what holds of the cache and its users between any two steps.
use os_assignment.Prelude.{ℕ, ◌<◌, ◌≤◌, ◌≡◌, ◌≢◌, List, ltb, arith, length, if◌then◌else◌, update}
use os_assignment.Prelude.Outcome.{Outcome, ok}
use os_assignment.Cache.{Buf, nbuf}
use os_assignment.Cache.Users.{Ref, System}
use os_assignment.Cache.Refs.{total, refers, holds, AllMatch, AllMatch-update}
use os_assignment.Cache.Search.{occurs}

-- The facts of the buffers.
pub record BufsSound (buf : ℕ → Buf) (refs : List Ref) : Type 0 where
  pub counted : (k : ℕ) → (buf k).refcnt ≡ total (refers k) refs
  pub match_all : AllMatch buf refs
  pub locks : (k : ℕ) → total (holds k) refs ≡ (if (buf k).locked then 1 else 0)
  -- No two buffers are for the same block of a device other than 0.
  pub unique :
      (i k : ℕ)
      → i < nbuf
      → k < nbuf
      → (buf i).dev ≢ 0
      → ((buf i).dev ≡ (buf k).dev) × ((buf i).blockno ≡ (buf k).blockno)
      → i ≡ k

-- The list has every buffer once.
pub record OrderSound (order : List ℕ) : Type 0 where
  pub listed : (k : ℕ) → occurs k order ≡ (if ltb k nbuf then 1 else 0)
  pub long : length order ≡ nbuf

pub record IsCoherent (s : System) : Type 0 where
  pub few : length s.refs ≤ nbuf
  pub bufs : BufsSound s.cache.buf s.refs
  pub order : OrderSound s.cache.order

-- A step that does not panic, and what it leaves.
abbrev pub GoesOn : Outcome System → Type 0
GoesOn r = (s : System) × (r ≡ ok s) × IsCoherent s

-- A change of one buffer that leaves its block alone.
unique-update :
    {buf : ℕ → Buf} {refs : List Ref} (i : ℕ) (b : Buf)
    → ((buf i).dev ≡ b.dev) × ((buf i).blockno ≡ b.blockno)
    → BufsSound buf refs
    → (j k : ℕ) → j < nbuf
    → k < nbuf
    → (update buf i b j).dev ≢ 0
    → ((update buf i b j).dev ≡ (update buf i b k).dev)
      × ((update buf i b j).blockno ≡ (update buf i b k).blockno)
    → j ≡ k
unique-update {buf} i b e h j k jl kl d same =
    h.unique j k jl kl (ground (arith, d, e)) (ground (arith, same, e))

-- Such a change, with the references that go with it.
pub BufsSound-update :
    {buf : ℕ → Buf} {refs refs' : List Ref} (i : ℕ) (b : Buf)
    → ((buf i).dev ≡ b.dev) × ((buf i).blockno ≡ b.blockno)
    → BufsSound buf refs
    → AllMatch buf refs'
    → ((k : ℕ) → (update buf i b k).refcnt ≡ total (refers k) refs')
    → ((k : ℕ) → total (holds k) refs' ≡ (if (update buf i b k).locked then 1 else 0))
    → BufsSound (update buf i b) refs'
BufsSound-update {buf} {refs} {refs'} i b e h m c l = record {
  counted = c;
  match_all = AllMatch-update buf i b refs' e m;
  locks = l;
  unique = unique-update i b e h;
}
