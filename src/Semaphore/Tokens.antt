-- ===== src/Semaphore/Tokens.antt =====
-- user/Csemaphore.c: what a user of counting semaphores can rely on.
use os_assignment.Prelude.{
  ℕ, zero, suc, ◌≡◌, refl, Bool, true, false, List, [], ◌∷◌, arith, if◌then◌else◌, replicate,
}
use os_assignment.Prelude.Int.{ℤ}
use os_assignment.Semaphore.{Value}
use os_assignment.Semaphore.Counting.{is_positive, Pc, Call, System, run, start}
use os_assignment.Semaphore.Weights.{locks, gates, ones, total, IsSound}
use os_assignment.Semaphore.Sound.{run-IsSound}

total-outside : (w : Pc → ℕ) (n : ℕ) → w Pc.outside ≡ 0 → total w (replicate n Pc.outside) ≡ 0
total-outside w zero h = refl
total-outside w (suc n) h = omega (arith, total-outside w n h)

pub start-IsSound : (count n : ℕ) → IsSound count (start count n)
unfolding start
start-IsSound zero n = record {
  value = 0;
  count = refl;
  balance = omega arith;
  one_locks = omega (arith, total-outside locks n refl);
  one_gates = omega (arith, total-outside (gates (ℤ.pos 0)) n refl);
}
start-IsSound (suc c) n = record {
  value = suc c;
  count = refl;
  balance = omega arith;
  one_locks = omega (arith, total-outside locks n refl);
  one_gates = ground (arith, total-outside (gates (ℤ.pos (suc c))) n refl);
}

-- Every thread is outside the functions, or waits at their first statement.
abbrev pub AllWait : List Pc → Type 0
AllWait [] = Unit
AllWait (Pc.outside ∷ ts) = AllWait ts
AllWait (Pc.down_gate ∷ ts) = AllWait ts
AllWait (Pc.up_lock ∷ ts) = AllWait ts
AllWait (t ∷ ts) = ⊥

AllWait-total :
    (c : ℤ) (ts : List Pc) → AllWait ts → (total locks ts ≡ 0) × (total (gates c) ts ≡ 0)
AllWait-total c [] h = (refl, refl)
AllWait-total c (Pc.outside ∷ ts) h = omega (arith, AllWait-total c ts h)
AllWait-total c (Pc.down_gate ∷ ts) h = omega (arith, AllWait-total c ts h)
AllWait-total c (Pc.up_lock ∷ ts) h = omega (arith, AllWait-total c ts h)
AllWait-total c (Pc.down_lock ∷ ts) h = absurd h
AllWait-total c (Pc.down_count ∷ ts) h = absurd h
AllWait-total c (Pc.down_test ∷ ts) h = absurd h
AllWait-total c (Pc.down_open ∷ ts) h = absurd h
AllWait-total c (Pc.down_unlock ∷ ts) h = absurd h
AllWait-total c (Pc.up_count ∷ ts) h = absurd h
AllWait-total c (Pc.up_test ∷ ts) h = absurd h
AllWait-total c (Pc.up_open ∷ ts) h = absurd h
AllWait-total c (Pc.up_unlock ∷ ts) h = absurd h

up_of_ones : (v : Value) → ones v ≡ 1 → v ≡ Value.up
up_of_ones Value.up h = refl
up_of_ones Value.down h = absurd (omega arith)
up_of_ones Value.unallocated h = absurd (omega arith)

-- No token is lost: in any reachable state in which no thread is in the midst of a call, the lock
-- is free, and the gate is open exactly if the count is positive.
pub gate-open :
    (count n : ℕ) (sched : List (ℕ × Call))
    → AllWait (run sched (start count n)).threads
    → let c = (run sched (start count n)).csem in
      (c.bsem1 ≡ Value.up) × (c.bsem2 ≡ (if is_positive c.count then Value.up else Value.down))
gate-open count n sched w = (up_of_ones _ (omega (arith, h.one_locks, none_busy)), gate)
  where
    s : System
    s = run sched (start count n)

    h : IsSound count (run sched (start count n))
    h = run-IsSound count sched (start count n) (start-IsSound count n)

    none_busy : (total locks s.threads ≡ 0) × (total (gates s.csem.count) s.threads ≡ 0)
    none_busy = AllWait-total s.csem.count s.threads w

    down_of_ones : (v : Value) → ones v ≡ 0 → v ≡ Value.down
    down_of_ones Value.up e = absurd (omega arith)
    down_of_ones Value.down e = refl
    down_of_ones Value.unallocated e = absurd (omega arith)

    pick :
        (b : Bool) (v : Value)
        → ones v ≡ (if b then 1 else 0)
        → v ≡ (if b then Value.up else Value.down)
    pick true v e = up_of_ones v e
    pick false v e = down_of_ones v e

    gate : s.csem.bsem2 ≡ (if is_positive s.csem.count then Value.up else Value.down)
    gate = pick (is_positive s.csem.count) s.csem.bsem2 (omega (arith, h.one_gates, none_busy))
