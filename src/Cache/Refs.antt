-- ===== src/Cache/Refs.antt =====
-- kernel/bio.c: the references to buffers, counted.
use os_assignment.Prelude.{
  ℕ, zero, suc, ◌+◌, ◌<◌, ◌≤◌, ◌≡◌, ◌≢◌, ◌&&◌, some, List, [], ◌∷◌, ◌==◌, arith, length, get_elem?,
  set, if◌then◌else◌, update,
}
use mathlib.Core.Path.{subst}
use os_assignment.Cache.{Buf, nbuf}
use os_assignment.Cache.Users.{Ref, Mode, rank, remove_at, to_mode}

-- What references weigh together.
abbrev pub total : (Ref → ℕ) → List Ref → ℕ
total w [] = 0
total w (r ∷ rs) = w r + total w rs

pub total-set :
    (w : Ref → ℕ) (rs : List Ref) (j : ℕ) {r : Ref} (r' : Ref)
    → get_elem? rs j ≡ some r
    → total w (set rs j r') + w r ≡ total w rs + w r'
total-set w [] j r' h = absurd (cc)
total-set w (x ∷ rs) zero r' h = grind (arith, h)
total-set w (x ∷ rs) (suc j) r' h = omega (arith, total-set w rs j r' h)

pub total-remove_at :
    (w : Ref → ℕ) (rs : List Ref) (j : ℕ) {r : Ref}
    → get_elem? rs j ≡ some r
    → total w (remove_at j rs) + w r ≡ total w rs
total-remove_at w [] j h = absurd (cc)
total-remove_at w (x ∷ rs) zero h = grind (arith, h)
total-remove_at w (x ∷ rs) (suc j) h = omega (arith, total-remove_at w rs j h)

-- The references to buffer `i`, and those among them that hold it.
abbrev pub refers : ℕ → Ref → ℕ
refers i r = if r.slot == i then 1 else 0

abbrev pub holds : ℕ → Ref → ℕ
holds i r = if (r.slot == i) && (rank r.mode == 1) then 1 else 0

pub uses-le-length : (i : ℕ) (rs : List Ref) → total (refers i) rs ≤ length rs
uses-le-length i [] = omega arith
uses-le-length i (r ∷ rs) = ground (arith, uses-le-length i rs)

-- The buffer of a reference exists, and holds the block that was asked for.
abbrev pub Matches : (ℕ → Buf) → Ref → Type 0
Matches buf r =
    (r.slot < nbuf) × (r.dev ≢ 0) × ((buf r.slot).dev ≡ r.dev) × ((buf r.slot).blockno ≡ r.blockno)

abbrev pub AllMatch : (ℕ → Buf) → List Ref → Type 0
AllMatch buf [] = Unit
AllMatch buf (r ∷ rs) = Matches buf r × AllMatch buf rs

pub AllMatch-at :
    (buf : ℕ → Buf) (rs : List Ref) (j : ℕ) {r : Ref}
    → AllMatch buf rs
    → get_elem? rs j ≡ some r
    → Matches buf r
AllMatch-at buf [] j a h = absurd (cc)
AllMatch-at buf (x ∷ rs) zero {r} a h = let e : x ≡ r = cc in subst (Matches buf) e a.0
AllMatch-at buf (x ∷ rs) (suc j) a h = AllMatch-at buf rs j a.1 h

pub AllMatch-set :
    (buf : ℕ → Buf) (rs : List Ref) (j : ℕ) {r : Ref} (m : Mode)
    → AllMatch buf rs
    → get_elem? rs j ≡ some r
    → AllMatch buf (set rs j (to_mode m r))
AllMatch-set buf [] j m a h = tt
AllMatch-set buf (x ∷ rs) zero m a h = (AllMatch-at buf (x ∷ rs) zero a h, a.1)
AllMatch-set buf (x ∷ rs) (suc j) m a h = (a.0, AllMatch-set buf rs j m a.1 h)

pub AllMatch-remove_at :
    (buf : ℕ → Buf) (rs : List Ref) (j : ℕ) → AllMatch buf rs → AllMatch buf (remove_at j rs)
AllMatch-remove_at buf [] j a = tt
AllMatch-remove_at buf (x ∷ rs) zero a = a.1
AllMatch-remove_at buf (x ∷ rs) (suc j) a = (a.0, AllMatch-remove_at buf rs j a.1)

-- A change of buffer `i` that leaves its block alone, or that nobody refers to.
pub AllMatch-update :
    (buf : ℕ → Buf) (i : ℕ) (b : Buf) (rs : List Ref)
    → ((buf i).dev ≡ b.dev) × ((buf i).blockno ≡ b.blockno)
    → AllMatch buf rs
    → AllMatch (update buf i b) rs
AllMatch-update buf i b [] e a = tt
AllMatch-update buf i b (r ∷ rs) e a = (ground (arith, e, a.0), AllMatch-update buf i b rs e a.1)

pub AllMatch-recycle :
    (buf : ℕ → Buf) (i : ℕ) (b : Buf) (rs : List Ref)
    → total (refers i) rs ≡ 0
    → AllMatch buf rs
    → AllMatch (update buf i b) rs
AllMatch-recycle buf i b [] e a = tt
AllMatch-recycle buf i b (r ∷ rs) e a =
    (ground (arith, e, a.0), AllMatch-recycle buf i b rs (omega (arith, e)) a.1)
