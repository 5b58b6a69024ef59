-- ===== src/Semaphore/Alloc.antt =====
-- kernel/proc.c, user/Csemaphore.c: what the calls that allocate semaphores return and leave.
use os_assignment.Prelude.{
  ℕ, suc, ◌+◌, ◌≡◌, ◌⊎◌, inl, inr, refl, ap, true, false, Option, none, some, List, [], ◌∷◌, arith,
  get_elem?, set, Bool-cases,
}
use os_assignment.Semaphore.{Value, is_unallocated, bsem_alloc_from, bsem_alloc, csem_alloc}

abbrev pub AllAllocated : List Value → Type 0
AllAllocated [] = Unit
AllAllocated (v ∷ vs) = (is_unallocated v ≡ false) × AllAllocated vs

-- The table was full, or a free entry was found and set to 1.
abbrev pub Allocates : (i : ℕ) → List Value → Option ℕ × List Value → Type 0
Allocates i vs (none, ws) = AllAllocated vs × (ws ≡ vs)
Allocates i vs (some k, ws) =
    (n : ℕ) × (k ≡ i + n) × (get_elem? vs n ≡ some Value.unallocated) × (ws ≡ set vs n Value.up)

is_unallocated-eq : (v : Value) → is_unallocated v ≡ true → v ≡ Value.unallocated
is_unallocated-eq Value.unallocated h = refl
is_unallocated-eq Value.down h = cc
is_unallocated-eq Value.up h = cc

Allocates-cons :
    (i : ℕ) (v : Value) (vs : List Value) (r : Option ℕ × List Value)
    → is_unallocated v ≡ false
    → Allocates (i + 1) vs r
    → Allocates i (v ∷ vs) (r.0, v ∷ r.1)
Allocates-cons i v vs (none, ws) used (a, e) = ((used, a), ap (λ xs. v ∷ xs) e)
Allocates-cons i v vs (some k, ws) used (n, e, f, g) = (suc n, omega arith, f, ap (λ xs. v ∷ xs) g)

bsem_alloc_from-Allocates : (i : ℕ) (vs : List Value) → Allocates i vs (bsem_alloc_from i vs)
unfolding bsem_alloc_from
bsem_alloc_from-Allocates i [] = (tt, refl)
bsem_alloc_from-Allocates i (v ∷ vs) = elim (Bool-cases (is_unallocated v)) [
  | inl free ↦ rw free (0, omega arith, ap some (is_unallocated-eq v free), refl)
  | inr used ↦ rw used (
      Allocates-cons i v vs (bsem_alloc_from (i + 1) vs) used
        (bsem_alloc_from-Allocates (i + 1) vs))
]

-- `bsem_alloc` fails exactly when every semaphore of the table is allocated, and then changes
-- nothing; otherwise it returns the index of a free one, sets that to 1, and changes no other.
pub bsem_alloc-Allocates : (vs : List Value) → Allocates 0 vs (bsem_alloc vs)
unfolding bsem_alloc
bsem_alloc-Allocates vs = bsem_alloc_from-Allocates 0 vs

-- One entry of the table is free.
abbrev pub OneFree : List Value → Type 0
OneFree [] = ⊥
OneFree (v ∷ vs) =
    ((is_unallocated v ≡ true) × AllAllocated vs) ⊎ ((is_unallocated v ≡ false) × OneFree vs)

alloc_full : (i : ℕ) (vs : List Value) → AllAllocated vs → bsem_alloc_from i vs ≡ (none, vs)
unfolding bsem_alloc_from
alloc_full i [] h = refl
alloc_full i (v ∷ vs) h = rw (h.0, alloc_full (i + 1) vs h.1)

alloc_last :
    (i : ℕ) (vs : List Value)
    → OneFree vs
    → (k : ℕ) × ((bsem_alloc_from i vs).0 ≡ some k) × AllAllocated (bsem_alloc_from i vs).1
unfolding bsem_alloc_from
alloc_last i [] h = absurd h
alloc_last i (v ∷ vs) (inl (free, rest)) = rw free (i, refl, (refl, rest))
alloc_last i (v ∷ vs) (inr (used, h)) =
    let (k, e, a) = alloc_last (i + 1) vs h in rw used (k, e, (used, a))

-- With one free semaphore left, `csem_alloc` takes it, fails, and does not give it back.
pub csem_alloc-leaks :
    (count : ℕ) (vs : List Value)
    → OneFree vs
    → ((csem_alloc count vs).0 ≡ none) × AllAllocated (csem_alloc count vs).1
unfolding csem_alloc bsem_alloc
csem_alloc-leaks count vs h =
    let (k, e, a) = alloc_last 0 vs h in
    let full : bsem_alloc_from 0 (bsem_alloc_from 0 vs).1 ≡ (none, (bsem_alloc_from 0 vs).1) =
      alloc_full 0 (bsem_alloc_from 0 vs).1 a in
    rw (e, ap (λ (r : Option ℕ × List Value). r.0) full, csem_alloc)
      (refl, rw (ap (λ (r : Option ℕ × List Value). r.1) full) a)
