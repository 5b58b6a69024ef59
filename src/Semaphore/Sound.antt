-- ===== src/Semaphore/Sound.antt =====
-- user/Csemaphore.c: the count never goes below zero, the fields are accessed by one thread at a time,
-- and a token that is there can be had.
use os_assignment.Prelude.{
  ℕ, zero, suc, ◌+◌, ◌≤◌, ◌≡◌, inl, inr, refl, ap, sym, ◌∙◌, Bool, true, false, some, List, [], ◌∷◌,
  arith, if◌then◌else◌, get_elem?, set, Bool-cases, Option-cases,
}
use mathlib.Core.Path.{subst}
use os_assignment.Prelude.Int.{ℤ}
use os_assignment.Semaphore.{Value, try_down, raise}
use os_assignment.Semaphore.Counting.{
  decrement, increment, is_positive, is_one, Pc, Csem, Call, lower_lock, lower_gate, advance,
  System, move, run,
}
use os_assignment.Semaphore.Weights.{
  locks, gates, ones, total, total-set, total-gates-change, IsSound,
}

module _ (init : ℕ) where
  -- A step that leaves the count alone.
  IsSound-step :
      (i : ℕ) (a b : Pc) (s : System) (c : Csem)
      → get_elem? s.threads i ≡ some a
      → (c.count ≡ s.csem.count) × (c.downs ≡ s.csem.downs) × (c.ups ≡ s.csem.ups)
      → ones c.bsem1 + locks b ≡ ones s.csem.bsem1 + locks a
      → ones c.bsem2 + gates s.csem.count b ≡ ones s.csem.bsem2 + gates s.csem.count a
      → IsSound init s
      → IsSound init (record { csem = c; threads = set s.threads i b })
  IsSound-step i a b s c e (n, d, u) l g h = record {
    value = h.value;
    count = n ∙ h.count;
    balance = omega (arith, h.balance);
    one_locks = omega (arith, h.one_locks, total-set locks i a b s.threads e);
    one_gates = rw n (omega (arith, h.one_gates, total-set (gates s.csem.count) i a b s.threads e));
  }

  lower_lock-IsSound :
      (i : ℕ) (a b : Pc) (v : Value) (s : System)
      → get_elem? s.threads i ≡ some a
      → s.csem.bsem1 ≡ v
      → (locks a ≡ 0) × (locks b ≡ 1) × (gates s.csem.count b ≡ gates s.csem.count a)
      → IsSound init s
      → let (pc, c) = lower_lock (try_down v) a b s.csem in
        IsSound init (record { csem = c; threads = set s.threads i pc })
  unfolding lower_lock try_down
  lower_lock-IsSound i a b Value.down s e q g h =
      IsSound-step i a a s s.csem e (refl, refl, refl) refl refl h
  lower_lock-IsSound i a b Value.up s e q g h =
      IsSound-step i a b s (record s.csem { bsem1 = Value.down }) e (refl, refl, refl)
        (omega (arith, ap ones q)) (omega arith) h
  lower_lock-IsSound i a b Value.unallocated s e q g h =
      absurd (omega (arith, ap ones q, h.one_locks))

  one-le : (b : Bool) → (if b then 1 else 0) ≤ 1
  one-le true = omega arith
  one-le false = omega arith

  lower_gate-IsSound :
      (i : ℕ) (a b : Pc) (v : Value) (s : System)
      → get_elem? s.threads i ≡ some a
      → s.csem.bsem2 ≡ v
      → (locks b ≡ locks a) × (gates s.csem.count a ≡ 0) × (gates s.csem.count b ≡ 1)
      → IsSound init s
      → let (pc, c) = lower_gate (try_down v) a b s.csem in
        IsSound init (record { csem = c; threads = set s.threads i pc })
  unfolding lower_gate try_down
  lower_gate-IsSound i a b Value.down s e q g h =
      IsSound-step i a a s s.csem e (refl, refl, refl) refl refl h
  lower_gate-IsSound i a b Value.up s e q g h =
      IsSound-step i a b s (record s.csem { bsem2 = Value.down }) e (refl, refl, refl) (omega arith)
        (omega (arith, ap ones q)) h
  lower_gate-IsSound i a b Value.unallocated s e q g h =
      absurd (omega (arith, ap ones q, h.one_gates, one-le (is_positive s.csem.count)))

  total-locks-le :
      (i : ℕ) (a : Pc) (ts : List Pc) → get_elem? ts i ≡ some a → locks a ≤ total locks ts
  total-locks-le i a ts e = omega (arith, total-set locks i a Pc.outside ts e)

  total-gates-le :
      (c : ℤ) (i : ℕ) (a : Pc) (ts : List Pc)
      → get_elem? ts i ≡ some a
      → gates c a ≤ total (gates c) ts
  total-gates-le c i a ts e = omega (arith, total-set (gates c) i a Pc.outside ts e)

  -- A thread that puts back the 1 of the lock or of the gate has taken it.
  ones_of_lock :
      (i : ℕ) (a : Pc) (s : System)
      → get_elem? s.threads i ≡ some a
      → locks a ≡ 1
      → IsSound init s
      → ones s.csem.bsem1 ≡ 0
  ones_of_lock i a s e l h = omega (arith, h.one_locks, total-locks-le i a s.threads e)

  ones_of_gate :
      (i : ℕ) (a : Pc) (s : System)
      → get_elem? s.threads i ≡ some a
      → gates s.csem.count a ≡ 1
      → IsSound init s
      → ones s.csem.bsem2 ≡ 0
  ones_of_gate i a s e l h = omega (
    arith,
    h.one_gates,
    total-gates-le s.csem.count i a s.threads e,
    one-le (is_positive s.csem.count),
  )

  -- The invariant on the gate, at a known count.
  gate_at :
      (c : ℤ) (s : System)
      → s.csem.count ≡ c
      → IsSound init s
      → ones s.csem.bsem2 + total (gates c) s.threads ≡ (if is_positive c then 1 else 0)
  gate_at c s e h =
      subst (λ k. ones s.csem.bsem2 + total (gates k) s.threads ≡ (if is_positive k then 1 else 0))
        e h.one_gates

  down_count-IsSound :
      (v i : ℕ) (s : System)
      → get_elem? s.threads i ≡ some Pc.down_count
      → (h : IsSound init s) → h.value ≡ v
      → IsSound init (record {
        csem = record s.csem { count = decrement s.csem.count; downs = s.csem.downs + 1 };
        threads = set s.threads i Pc.down_test;
      })
  down_count-IsSound zero i s e h q = absurd (
      omega (
        arith,
        gate_at (ℤ.pos 0) s (h.count ∙ ap ℤ.pos q) h,
        total-gates-le (ℤ.pos 0) i Pc.down_count s.threads e,
      ))
  down_count-IsSound (suc v) i s e h q = record {
    value = v;
    count = lowered;
    balance = omega (arith, h.balance, q);
    one_locks =
        omega (arith, h.one_locks, total-set locks i Pc.down_count Pc.down_test s.threads e);
    one_gates =
        subst
          (λ c.
            ones s.csem.bsem2 + total (gates c) (set s.threads i Pc.down_test)
            ≡ (if is_positive c then 1 else 0))
          (sym lowered) gate;
  }
    where
      lowered : decrement s.csem.count ≡ ℤ.pos v
      lowered = ap decrement (h.count ∙ ap ℤ.pos q)

      gate :
          ones s.csem.bsem2 + total (gates (ℤ.pos v)) (set s.threads i Pc.down_test)
          ≡ (if is_positive (ℤ.pos v) then 1 else 0)
      gate = omega (
        arith,
        gate_at (ℤ.pos (suc v)) s (h.count ∙ ap ℤ.pos q) h,
        total-set (gates (ℤ.pos v)) i Pc.down_count Pc.down_test s.threads e,
        total-gates-change (ℤ.pos (suc v)) (ℤ.pos v) i Pc.down_count s.threads e
            (omega (arith, h.one_locks, total-locks-le i Pc.down_count s.threads e)),
      )

  up_count-IsSound :
      (v i : ℕ) (s : System)
      → get_elem? s.threads i ≡ some Pc.up_count
      → (h : IsSound init s) → h.value ≡ v
      → IsSound init (record {
        csem = record s.csem { count = increment s.csem.count; ups = s.csem.ups + 1 };
        threads = set s.threads i Pc.up_test;
      })
  up_count-IsSound v i s e h q = record {
    value = suc v;
    count = raised;
    balance = omega (arith, h.balance, q);
    one_locks = omega (arith, h.one_locks, total-set locks i Pc.up_count Pc.up_test s.threads e);
    one_gates =
        subst
          (λ c.
            ones s.csem.bsem2 + total (gates c) (set s.threads i Pc.up_test)
            ≡ (if is_positive c then 1 else 0))
          (sym raised) (gate v (h.count ∙ ap ℤ.pos q));
  }
    where
      raised : increment s.csem.count ≡ ℤ.pos (suc v)
      raised = ap increment (h.count ∙ ap ℤ.pos q)

      gate :
          (v : ℕ)
          → s.csem.count ≡ ℤ.pos v
          → ones s.csem.bsem2 + total (gates (ℤ.pos (suc v))) (set s.threads i Pc.up_test) ≡ 1
      gate zero g = omega (
        arith,
        gate_at (ℤ.pos 0) s g h,
        total-set (gates (ℤ.pos 1)) i Pc.up_count Pc.up_test s.threads e,
        total-gates-change (ℤ.pos 0) (ℤ.pos 1) i Pc.up_count s.threads e
            (omega (arith, h.one_locks, total-locks-le i Pc.up_count s.threads e)),
      )
      gate (suc w) g = omega (
        arith,
        gate_at (ℤ.pos (suc w)) s g h,
        total-set (gates (ℤ.pos (suc (suc w)))) i Pc.up_count Pc.up_test s.threads e,
        total-gates-change (ℤ.pos (suc w)) (ℤ.pos (suc (suc w))) i Pc.up_count s.threads e
            (omega (arith, h.one_locks, total-locks-le i Pc.up_count s.threads e)),
      )

  -- Each statement of the two functions keeps the invariant.
  advance-IsSound :
      (i : ℕ) (call : Call) (a : Pc) (s : System)
      → get_elem? s.threads i ≡ some a
      → IsSound init s
      → let (b, c) = advance call a s.csem in
        IsSound init (record { csem = c; threads = set s.threads i b })
  unfolding advance
  advance-IsSound i Call.csem_down Pc.outside s e h =
      IsSound-step i Pc.outside Pc.down_gate s s.csem e (refl, refl, refl) refl refl h
  advance-IsSound i Call.csem_up Pc.outside s e h =
      IsSound-step i Pc.outside Pc.up_lock s s.csem e (refl, refl, refl) refl refl h
  advance-IsSound i call Pc.down_gate s e h =
      lower_gate-IsSound i Pc.down_gate Pc.down_lock s.csem.bsem2 s e refl (refl, refl, refl) h
  advance-IsSound i call Pc.down_lock s e h =
      lower_lock-IsSound i Pc.down_lock Pc.down_count s.csem.bsem1 s e refl (refl, refl, refl) h
  advance-IsSound i call Pc.down_count s e h = down_count-IsSound h.value i s e h refl
  advance-IsSound i call Pc.down_test s e h = elim (Bool-cases (is_positive s.csem.count)) [
    | inl more ↦
        simp more (
          IsSound-step i Pc.down_test Pc.down_open s s.csem e (refl, refl, refl) refl (simp more) h)
    | inr none_left ↦ simp none_left (
        IsSound-step i Pc.down_test Pc.down_unlock s s.csem e (refl, refl, refl) refl
          (simp none_left) h)
  ]
  advance-IsSound i call Pc.down_open s e h =
      IsSound-step i Pc.down_open Pc.down_unlock s (record s.csem { bsem2 = raise s.csem.bsem2 }) e
        (refl, refl, refl) refl (omega (arith, ones_of_gate i Pc.down_open s e refl h)) h
  advance-IsSound i call Pc.down_unlock s e h =
      IsSound-step i Pc.down_unlock Pc.outside s (record s.csem { bsem1 = raise s.csem.bsem1 }) e
        (refl, refl, refl) (omega (arith, ones_of_lock i Pc.down_unlock s e refl h)) refl h
  advance-IsSound i call Pc.up_lock s e h =
      lower_lock-IsSound i Pc.up_lock Pc.up_count s.csem.bsem1 s e refl (refl, refl, refl) h
  advance-IsSound i call Pc.up_count s e h = up_count-IsSound h.value i s e h refl
  advance-IsSound i call Pc.up_test s e h = elim (Bool-cases (is_one s.csem.count)) [
    | inl one ↦
        simp one
          (IsSound-step i Pc.up_test Pc.up_open s s.csem e (refl, refl, refl) refl (simp one) h)
    | inr other ↦
        simp other
          (IsSound-step i Pc.up_test Pc.up_unlock s s.csem e (refl, refl, refl) refl (simp other) h)
  ]
  advance-IsSound i call Pc.up_open s e h =
      IsSound-step i Pc.up_open Pc.up_unlock s (record s.csem { bsem2 = raise s.csem.bsem2 }) e
        (refl, refl, refl) refl (omega (arith, ones_of_gate i Pc.up_open s e refl h)) h
  advance-IsSound i call Pc.up_unlock s e h =
      IsSound-step i Pc.up_unlock Pc.outside s (record s.csem { bsem1 = raise s.csem.bsem1 }) e
        (refl, refl, refl) (omega (arith, ones_of_lock i Pc.up_unlock s e refl h)) refl h

  move-IsSound : (i : ℕ) (call : Call) (s : System) → IsSound init s → IsSound init (move i call s)
  unfolding move
  move-IsSound i call s h = elim (Option-cases (get_elem? s.threads i)) [
    | inl e ↦ rw (e, move) h
    | inr (pc, e) ↦ rw (e, move) (advance-IsSound i call pc s e h)
  ]

  -- Whatever the schedule and the calls, these facts of a semaphore and its threads stay true: the
  -- count is not negative, and is what the semaphore was made with, and what `csem_up` has added,
  -- less what `csem_down` has taken; at most one thread is between a lock and its unlock; and the
  -- gate is open, or about to be opened, or has been passed by a thread that has not yet lowered
  -- the count, exactly while the count is positive.
  pub run-IsSound :
      (sched : List (ℕ × Call)) (s : System) → IsSound init s → IsSound init (run sched s)
  unfolding run
  run-IsSound [] s h = h
  run-IsSound ((i, call) ∷ sched) s h = run-IsSound sched (move i call s) (move-IsSound i call s h)
