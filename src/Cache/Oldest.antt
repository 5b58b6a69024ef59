-- ===== src/Cache/Oldest.antt =====
-- kernel/bio.c: the list of buffers at boot, and which buffer `bget` recycles.
use os_assignment.Prelude.{
  ℕ, zero, suc, ◌+◌, ◌≤◌, ◌≡◌, inl, inr, refl, ap, true, none, some, List, [], ◌∷◌, ◌++◌, ◌==◌, ltb,
  arith, if◌then◌else◌, update, Bool-cases,
}
use os_assignment.Prelude.Outcome.{ok}
use os_assignment.Cache.{
  Buf, Cache, nbuf, binit, link_from, is_for, find_cached, find_unused, bget, recycle,
}
use os_assignment.Cache.Users.{start}
use os_assignment.Cache.Search.{occurs}
use os_assignment.Cache.Sound.{IsCoherent}
use os_assignment.Cache.Safety.{bget-recycled}

occurs-link_from :
    (k left i : ℕ) (is : List ℕ)
    → occurs k (link_from left i is)
      ≡ (if ltb k i then 0 else if ltb k (i + left) then 1 else 0) + occurs k is
occurs-link_from k zero i is = ground arith
occurs-link_from k (suc left) i is = ground (arith, occurs-link_from k left (i + 1) (i ∷ is))

occurs-linked : (k left : ℕ) → occurs k (link_from left 0 []) ≡ (if ltb k left then 1 else 0)
occurs-linked k left = ground (arith, occurs-link_from k left 0 [])

-- The cache at boot, which nobody uses.
pub start-IsCoherent : IsCoherent start
unfolding binit
start-IsCoherent = record {
  few = omega arith;
  bufs = record {
    counted = λ k. refl;
    match_all = tt;
    locks = λ k. refl;
    unique = λ i k il kl d same. absurd (d refl);
  };
  order = record { listed = λ k. occurs-linked k nbuf; long = refl };
}

-- Every buffer of a list is referred to.
abbrev pub AllBusy : (ℕ → Buf) → List ℕ → Type 0
AllBusy buf [] = Unit
AllBusy buf (i ∷ is) = (1 ≤ (buf i).refcnt) × AllBusy buf is

find_unused-busy : (buf : ℕ → Buf) (is : List ℕ) → AllBusy buf is → find_unused buf is ≡ none
unfolding find_unused
find_unused-busy buf [] b = refl
find_unused-busy buf (i ∷ is) b =
    let e : find_unused buf is ≡ none = find_unused-busy buf is b.1 in rw e (ground (arith, b.0))

find_unused-last :
    (buf : ℕ → Buf) (is ks : List ℕ) (i : ℕ)
    → (buf i).refcnt ≡ 0
    → AllBusy buf ks
    → find_unused buf (is ++ (i ∷ ks)) ≡ some i
unfolding find_unused
find_unused-last buf [] ks i free b =
    let e : find_unused buf ks ≡ none = find_unused-busy buf ks b in rw e (ground (arith, free))
find_unused-last buf (k ∷ is) ks i free b =
    let e : find_unused buf (is ++ (i ∷ ks)) ≡ some i = find_unused-last buf is ks i free b in
    rw e refl

find_cached-update :
    (dev blockno : ℕ) (buf : ℕ → Buf) (i : ℕ) (b : Buf) (is : List ℕ)
    → find_cached dev blockno buf is ≡ none
    → 1 ≤ occurs i is
    → is_for dev blockno b ≡ true
    → find_cached dev blockno (update buf i b) is ≡ some i
unfolding find_cached
find_cached-update dev blockno buf i b [] missing there new = absurd (omega arith)
find_cached-update dev blockno buf i b (k ∷ is) missing there new =
    elim (Bool-cases (is_for dev blockno (buf k))) [
      | inl old ↦ absurd (ground (arith, missing, old))
      | inr other ↦
          let e : find_cached dev blockno buf is ≡ none = ground (arith, missing, other) in
          elim (Bool-cases (k == i)) [
            | inl here ↦ let e' : k ≡ i = ground (arith, here) in rw (here, new) (ap some e')
            | inr not_here ↦
                let e' : find_cached dev blockno (update buf i b) is ≡ some i =
                  find_cached-update dev blockno buf i b is e (ground (arith, there, not_here))
                    new in
                rw (not_here, other) e'
          ]
    ]

occurs-middle : (i : ℕ) (is ks : List ℕ) → 1 ≤ occurs i (is ++ (i ∷ ks))
occurs-middle i [] ks = ground arith
occurs-middle i (k ∷ is) ks = omega (arith, occurs-middle i is ks)

-- The search of `bget` for a block that no buffer has takes, of the buffers that nobody refers to,
-- the one used least recently, the last of the list; after it the search for the same block finds
-- this buffer.
pub bget-least_recent :
    (dev blockno : ℕ) (c : Cache) (is ks : List ℕ) (i : ℕ)
    → c.order ≡ is ++ (i ∷ ks)
    → find_cached dev blockno c.buf c.order ≡ none
    → (c.buf i).refcnt ≡ 0
    → AllBusy c.buf ks
    → (bget dev blockno c ≡ ok (i, recycle dev blockno i c))
      × (find_cached dev blockno (recycle dev blockno i c).buf c.order ≡ some i)
unfolding recycle
bget-least_recent dev blockno c is ks i e missing free b = (
  bget-recycled dev blockno c missing (rw e (find_unused-last c.buf is ks i free b)),
  find_cached-update dev blockno c.buf i _ c.order missing (rw e (occurs-middle i is ks))
      (ground arith),
)
