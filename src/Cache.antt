-- ===== src/Cache.antt =====
-- kernel/bio.c: the cache of disk blocks, its buffers in the order of their last use.
pub mod Users
pub mod Refs
pub mod Search
pub mod Sound
pub mod Steps
pub mod Safety
pub mod Oldest
mod Tests
use os_assignment.Prelude.{
  ℕ, zero, suc, ◌+◌, ◌-◌, ◌%◌, ◌^◌, Bool, true, false, not, ◌&&◌, Option, none, some, List, [], ◌∷◌,
  ◌==◌, if◌then◌else◌, update,
}
use os_assignment.Prelude.Outcome.{Outcome, ok, panic}

-- NBUF
abbrev pub nbuf : ℕ
nbuf = 30

-- `struct buf`, less its links and its data; `locked` is that of its sleeplock.
pub record Buf : Type 0 where
  pub valid : Bool
  pub dev : ℕ
  pub blockno : ℕ
  pub locked : Bool
  pub refcnt : ℕ

-- `bcache`: the buffers by their index in `buf`, and the indices from `head.next` on.
pub record Cache : Type 0 where
  pub buf : ℕ → Buf
  pub order : List ℕ

-- `refcnt++` and `refcnt--` on a `uint`
abbrev pub count_up : ℕ → ℕ
count_up n = (n + 1) % 2 ^ 32

abbrev pub count_down : ℕ → ℕ
count_down n = (n + (2 ^ 32 - 1)) % 2 ^ 32

-- The loop of `binit`, with `left` buffers to go from index `i` on.
abbrev pub link_from : (left i : ℕ) → List ℕ → List ℕ
link_from zero i order = order
link_from (suc left) i order = link_from left (i + 1) (i ∷ order)

-- `binit`, on memory that is zero.
unfoldable pub binit : Cache
binit = record {
  buf = λ i. record { valid = false; dev = 0; blockno = 0; locked = false; refcnt = 0 };
  order = link_from nbuf 0 [];
}

abbrev pub is_for : (dev blockno : ℕ) → Buf → Bool
is_for dev blockno b = (b.dev == dev) && (b.blockno == blockno)

-- The first loop of `bget`: the first buffer of the list that holds the block.
unfoldable pub find_cached : (dev blockno : ℕ) → (ℕ → Buf) → List ℕ → Option ℕ
find_cached dev blockno buf [] = none
find_cached dev blockno buf (i ∷ is) =
    let rest = find_cached dev blockno buf is in if is_for dev blockno (buf i) then some i else rest

-- The second loop: the last buffer of the list that nobody refers to.
unfoldable pub find_unused : (ℕ → Buf) → List ℕ → Option ℕ
find_unused buf [] = none
find_unused buf (i ∷ is) = elim (find_unused buf is) [
  | some k ↦ some k
  | none ↦ if (buf i).refcnt == 0 then some i else none
]

abbrev pub change : ℕ → Buf → Cache → Cache
change i b c = record c { buf = update c.buf i b }

-- `bpin`
unfoldable pub bpin : ℕ → Cache → Cache
bpin i c = let b = c.buf i in change i (record b { refcnt = count_up b.refcnt }) c

-- `bunpin`
unfoldable pub bunpin : ℕ → Cache → Cache
bunpin i c = let b = c.buf i in change i (record b { refcnt = count_down b.refcnt }) c

-- What `bget` makes of the buffer that it recycles.
unfoldable pub recycle : (dev blockno i : ℕ) → Cache → Cache
recycle dev blockno i c =
    let b = c.buf i in
    change i (record b { dev = dev; blockno = blockno; valid = false; refcnt = 1 }) c

-- `bget` up to the release of the cache's lock: the buffer, which is still to be locked.
unfoldable pub bget : (dev blockno : ℕ) → Cache → Outcome (ℕ × Cache)
unfolding bpin
bget dev blockno c = elim (find_cached dev blockno c.buf c.order) [
  | some i ↦ ok (i, bpin i c)
  | none ↦ elim (find_unused c.buf c.order) [
    | some i ↦ ok (i, recycle dev blockno i c)
    | none ↦ panic
  ]
]

-- `acquiresleep(&b->lock)` at the end of `bget`: `none` is a sleep.
unfoldable pub lock_buffer : ℕ → Cache → Option Cache
lock_buffer i c =
    let b = c.buf i in if b.locked then none else some (change i (record b { locked = true }) c)

-- The rest of `bread`, which reads the block if need be.
unfoldable pub fill_buffer : ℕ → Cache → Cache
fill_buffer i c = let b = c.buf i in if b.valid then c else change i (record b { valid = true }) c

-- The first half of `brelse`: the buffer's lock is let go, if its holder calls.
unfoldable pub unlock_buffer : (holding : Bool) → ℕ → Cache → Outcome Cache
unlock_buffer holding i c =
    let b = c.buf i in
    if b.locked && holding then ok (change i (record b { locked = false }) c) else panic

abbrev pub erase : ℕ → List ℕ → List ℕ
erase i [] = []
erase i (k ∷ ks) = if k == i then ks else k ∷ erase i ks

-- The second half of `brelse`: a reference is given up, and the buffer of the last one moves to
-- the front.
unfoldable pub drop_buffer : ℕ → Cache → Cache
unfolding bunpin
drop_buffer i c =
    let c' = bunpin i c in
    if (c'.buf i).refcnt == 0 then record c' { order = i ∷ erase i c'.order } else c'
