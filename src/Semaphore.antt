-- ===== src/Semaphore.antt =====
-- kernel/proc.c, user/Csemaphore.c: the table of binary semaphores, and counting semaphores built
-- from two of them.
pub mod Alloc
pub mod Counting
pub mod Weights
pub mod Sound
pub mod Tokens
mod Tests
use os_assignment.Prelude.{
  ℕ, zero, suc, ◌+◌, Bool, true, false, Option, none, some, List, [], ◌∷◌, ◌==◌, if◌then◌else◌,
  get_elem?, set, replicate,
}

-- An entry of `bsems`: -1, 0 or 1, which are all the values that the code stores there.
pub data Value : Type 0 where
  unallocated down up : Value

-- MAX_BSEM
abbrev pub max_bsem : ℕ
max_bsem = 128

-- The table at boot.
abbrev pub fresh_table : List Value
fresh_table = replicate max_bsem Value.unallocated

abbrev pub is_unallocated : Value → Bool
is_unallocated Value.unallocated = true
is_unallocated v = false

-- `bsem_alloc`, from index `i` on: the index found, `none` for -1.
unfoldable pub bsem_alloc_from : ℕ → List Value → Option ℕ × List Value
bsem_alloc_from i [] = (none, [])
bsem_alloc_from i (v ∷ vs) =
    let (found, ws) = bsem_alloc_from (i + 1) vs in
    if is_unallocated v then (some i, Value.up ∷ vs) else (found, v ∷ ws)

unfoldable pub bsem_alloc : List Value → Option ℕ × List Value
unfolding bsem_alloc_from
bsem_alloc vs = bsem_alloc_from 0 vs

-- `bsem_free`. The code does not check the index; here an index past the end changes nothing.
unfoldable pub bsem_free : ℕ → List Value → List Value
bsem_free i vs = set vs i Value.unallocated

-- One round of the loop of `bsem_down`: `none` is a sleep on `chanel`.
unfoldable pub try_down : Value → Option Value
try_down Value.down = none
try_down v = some Value.down

-- `bsem_up`, less its wakeup of the sleepers.
unfoldable pub raise : Value → Value
raise v = Value.up

-- `csem_alloc` for a count that is not negative: the two semaphores, `none` for -1. If the first
-- two calls succeed, `bsem_down(bsem2)` finds a 1 and does not sleep.
unfoldable pub csem_alloc : (count : ℕ) → List Value → Option (ℕ × ℕ) × List Value
unfolding bsem_alloc
csem_alloc count vs =
    let (bsem1, ws) = bsem_alloc vs in
    let (bsem2, xs) = bsem_alloc ws in
    elim bsem1 [
      | none ↦ (none, xs)
      | some a ↦ elim bsem2 [
        | none ↦ (none, xs)
        | some b ↦ (some (a, b), if count == 0 then set xs b Value.down else xs)
      ]
    ]
