-- ===== src/Semaphore/Counting.antt =====
-- user/Csemaphore.c: threads that call `csem_down` and `csem_up` on one counting semaphore, an access
-- to shared memory or a call of a binary semaphore at a time.
-- A thread that sleeps in `bsem_down` is taken as one that tries again whenever its turn comes:
-- `bsem_up` wakes all sleepers, and whoever is woken tests again.
use os_assignment.Prelude.{
  ℕ, zero, suc, ◌+◌, Bool, true, false, Option, none, some, List, [], ◌∷◌, ◌==◌, if◌then◌else◌,
  get_elem?, set, replicate,
}
use os_assignment.Prelude.Int.{ℤ}
use os_assignment.Semaphore.{Value, try_down, raise}

abbrev pub decrement : ℤ → ℤ
decrement (ℤ.pos zero) = ℤ.negsuc 0
decrement (ℤ.pos (suc n)) = ℤ.pos n
decrement (ℤ.negsuc n) = ℤ.negsuc (suc n)

abbrev pub increment : ℤ → ℤ
increment (ℤ.pos n) = ℤ.pos (suc n)
increment (ℤ.negsuc zero) = ℤ.pos 0
increment (ℤ.negsuc (suc n)) = ℤ.negsuc n

abbrev pub is_positive : ℤ → Bool
is_positive (ℤ.pos (suc n)) = true
is_positive c = false

abbrev pub is_one : ℤ → Bool
is_one (ℤ.pos (suc zero)) = true
is_one c = false

-- Where a thread stands, by the statement that comes next.
pub data Pc : Type 0 where
  outside : Pc
  down_gate : Pc  -- bsem_down(sem->bsem2)
  down_lock : Pc  -- bsem_down(sem->bsem1)
  down_count : Pc  -- sem->count -= 1
  down_test : Pc  -- if (sem->count > 0)
  down_open : Pc  -- bsem_up(sem->bsem2)
  down_unlock : Pc  -- bsem_up(sem->bsem1)
  up_lock : Pc  -- bsem_down(sem->bsem1)
  up_count : Pc  -- sem->count += 1
  up_test : Pc  -- if (sem->count == 1)
  up_open : Pc  -- bsem_up(sem->bsem2)
  up_unlock : Pc  -- bsem_up(sem->bsem1)

-- `struct counting_semaphore`, with the values of its two binary semaphores.
pub record Csem : Type 0 where
  pub bsem1 : Value
  pub bsem2 : Value
  pub count : ℤ
  -- Observed only: how often the count has been lowered and raised.
  pub downs : ℕ
  pub ups : ℕ

-- Which of the two functions a thread outside calls.
pub data Call : Type 0 where
  csem_down csem_up : Call

-- `bsem_down(sem->bsem1)`: the thread goes on behind the call, or stays before it.
unfoldable pub lower_lock : Option Value → (here behind : Pc) → Csem → Pc × Csem
lower_lock none here behind c = (here, c)
lower_lock (some v) here behind c = (behind, record c { bsem1 = v })

-- `bsem_down(sem->bsem2)`
unfoldable pub lower_gate : Option Value → (here behind : Pc) → Csem → Pc × Csem
lower_gate none here behind c = (here, c)
lower_gate (some v) here behind c = (behind, record c { bsem2 = v })

-- One step of a thread.
unfoldable pub advance : Call → Pc → Csem → Pc × Csem
unfolding lower_lock lower_gate raise try_down
advance Call.csem_down Pc.outside c = (Pc.down_gate, c)
advance Call.csem_up Pc.outside c = (Pc.up_lock, c)
advance call Pc.down_gate c = lower_gate (try_down c.bsem2) Pc.down_gate Pc.down_lock c
advance call Pc.down_lock c = lower_lock (try_down c.bsem1) Pc.down_lock Pc.down_count c
advance call Pc.down_count c =
    (Pc.down_test, record c { count = decrement c.count; downs = c.downs + 1 })
advance call Pc.down_test c = (if is_positive c.count then Pc.down_open else Pc.down_unlock, c)
advance call Pc.down_open c = (Pc.down_unlock, record c { bsem2 = raise c.bsem2 })
advance call Pc.down_unlock c = (Pc.outside, record c { bsem1 = raise c.bsem1 })
advance call Pc.up_lock c = lower_lock (try_down c.bsem1) Pc.up_lock Pc.up_count c
advance call Pc.up_count c = (Pc.up_test, record c { count = increment c.count; ups = c.ups + 1 })
advance call Pc.up_test c = (if is_one c.count then Pc.up_open else Pc.up_unlock, c)
advance call Pc.up_open c = (Pc.up_unlock, record c { bsem2 = raise c.bsem2 })
advance call Pc.up_unlock c = (Pc.outside, record c { bsem1 = raise c.bsem1 })

pub record System : Type 0 where
  pub csem : Csem
  pub threads : List Pc

-- Thread i moves.
unfoldable pub move : ℕ → Call → System → System
unfolding advance
move i call s = elim (get_elem? s.threads i) [
  | none ↦ s
  | some pc ↦
      let (pc', c) = advance call pc s.csem in record { csem = c; threads = set s.threads i pc' }
]

-- A schedule: which thread moves, and which call it makes if it is outside.
unfoldable pub run : List (ℕ × Call) → System → System
unfolding move
run [] s = s
run ((i, call) ∷ rest) s = run rest (move i call s)

-- What `csem_alloc` leaves, and `n` threads that have made no call yet.
unfoldable pub start : (count n : ℕ) → System
start count n = record {
  csem = record {
    bsem1 = Value.up;
    bsem2 = if count == 0 then Value.down else Value.up;
    count = ℤ.pos count;
    downs = 0;
    ups = 0;
  };
  threads = replicate n Pc.outside;
}
