-- ===== src/Spinlock/Exclusion.antt =====
-- kernel/spinlock.c: who is in the critical section.
use os_assignment.Prelude.{
  ℕ, ◌≤◌, ◌≡◌, inl, inr, refl, ap, ◌∙◌, Bool, true, false, List, [], ◌∷◌, arith, if◌then◌else◌,
  Bool-cases,
}
use os_assignment.Prelude.Outcome.{Outcome, ok, ◌>>=◌}
use os_assignment.Spinlock.Nesting.{pop_off_lem}
use os_assignment.Spinlock.{
  Pc, System, push_off, is_cpu, holding, go_to, with_cpu, advance, run, start,
}

-- Between the atomic swap of `acquire` and the store of `release`.
abbrev pub has_lock : Pc → Bool
has_lock Pc.taken = true
has_lock Pc.inside = true
has_lock Pc.cleared = true
has_lock p = false

abbrev pub is_inside : Pc → Bool
is_inside Pc.inside = true
is_inside p = false

-- Between the `push_off` of `acquire` and the `pop_off` of `release`.
abbrev pub is_off : Pc → Bool
is_off Pc.outside = false
is_off p = true

pub record IsExclusive (s : System) : Type 0 where
  pub one : (i j : ℕ) → has_lock (s.pc i) ≡ true → has_lock (s.pc j) ≡ true → i ≡ j
  pub locked : (i : ℕ) → has_lock (s.pc i) ≡ true → s.lock.locked ≡ true
  pub named : (i : ℕ) → is_cpu i s.lock.cpu ≡ is_inside (s.pc i)
  pub no_interrupts :
      (i : ℕ) → is_off (s.pc i) ≡ true → ((s.cpus i).interrupts ≡ false) × (1 ≤ (s.cpus i).noff)

abbrev pub GoesOn : Outcome System → Type 0
GoesOn r = (s : System) × (r ≡ ok s) × IsExclusive s

if_true {ℓ} : {A : Type ℓ} {b : Bool} (x y : A) → b ≡ true → (if b then x else y) ≡ x
if_true x y e = rw e refl

if_false {ℓ} : {A : Type ℓ} {b : Bool} (x y : A) → b ≡ false → (if b then x else y) ≡ y
if_false x y e = rw e refl

module _ (s : System) (h : IsExclusive s) (me : ℕ) where
  -- The holder knows itself as such; nobody else does.
  holding-inside : holding me s.lock ≡ is_inside (s.pc me)
  unfolding holding
  holding-inside = ground (arith, h.named me, h.locked me)

  outside-GoesOn : s.pc me ≡ Pc.outside → GoesOn (advance me Pc.outside s)
  unfolding advance push_off
  outside-GoesOn e = (
    _,
    if_false _ _ (holding-inside ∙ ap is_inside e),
    record {
      one = λ i j a b. ground (arith, h.one i j, a, b);
      locked = λ i a. ground (arith, h.locked i, a);
      named = λ i. ground (arith, h.named i, e);
      no_interrupts = λ i a. ground (arith, h.no_interrupts i, a);
    },
  )

  spinning-GoesOn : s.pc me ≡ Pc.spinning → GoesOn (advance me Pc.spinning s)
  unfolding advance
  spinning-GoesOn e = elim (Bool-cases s.lock.locked) [
    | inl busy ↦ (s, if_true _ _ busy, h)
    | inr free ↦ (
      _,
      if_false _ _ free,
      record {
        one = λ i j a b. ground (arith, h.locked i, h.locked j, free, a, b);
        locked = λ i a. refl;
        named = λ i. ground (arith, h.named i, e);
        no_interrupts = λ i a. ground (arith, h.no_interrupts i, e, a);
      },
    )
  ]

  taken-GoesOn : s.pc me ≡ Pc.taken → GoesOn (advance me Pc.taken s)
  unfolding advance
  taken-GoesOn e = (
    _,
    refl,
    record {
      one = λ i j a b. ground (arith, h.one i j, e, a, b);
      locked = λ i a. ground (arith, h.locked i, h.locked me, e, a);
      named = λ i. ground (arith, h.one i me, e);
      no_interrupts = λ i a. ground (arith, h.no_interrupts i, e, a);
    },
  )

  inside-GoesOn : s.pc me ≡ Pc.inside → GoesOn (advance me Pc.inside s)
  unfolding advance
  inside-GoesOn e = (
    _,
    if_true _ _ (holding-inside ∙ ap is_inside e),
    record {
      one = λ i j a b. ground (arith, h.one i j, e, a, b);
      locked = λ i a. ground (arith, h.locked i, h.locked me, e, a);
      named = λ i. ground (arith, h.one i me, e);
      no_interrupts = λ i a. ground (arith, h.no_interrupts i, e, a);
    },
  )

  cleared-GoesOn : s.pc me ≡ Pc.cleared → GoesOn (advance me Pc.cleared s)
  unfolding advance
  cleared-GoesOn e = (
    _,
    refl,
    record {
      one = λ i j a b. ground (arith, h.one i j, a, b);
      locked = λ i a. ground (arith, h.one i me, e, a);
      named = λ i. ground (arith, h.named i, e);
      no_interrupts = λ i a. ground (arith, h.no_interrupts i, e, a);
    },
  )

  freed-GoesOn : s.pc me ≡ Pc.freed → GoesOn (advance me Pc.freed s)
  unfolding advance
  freed-GoesOn e = (
    _,
    ap (λ o. o >>= λ c. ok (go_to me Pc.outside s.lock (with_cpu me c s)))
        (pop_off_lem (s.cpus me) off.0 off.1),
    record {
      one = λ i j a b. ground (arith, h.one i j, a, b);
      locked = λ i a. ground (arith, h.locked i, a);
      named = λ i. ground (arith, h.named i, e);
      no_interrupts = λ i a. ground (arith, h.no_interrupts i, a);
    },
  )
    where
      off : ((s.cpus me).interrupts ≡ false) × (1 ≤ (s.cpus me).noff)
      off = h.no_interrupts me (ground (arith, e))

advance-GoesOn :
    (me : ℕ) (p : Pc) (s : System) → s.pc me ≡ p → IsExclusive s → GoesOn (advance me p s)
advance-GoesOn me Pc.outside s e h = outside-GoesOn s h me e
advance-GoesOn me Pc.spinning s e h = spinning-GoesOn s h me e
advance-GoesOn me Pc.taken s e h = taken-GoesOn s h me e
advance-GoesOn me Pc.inside s e h = inside-GoesOn s h me e
advance-GoesOn me Pc.cleared s e h = cleared-GoesOn s h me e
advance-GoesOn me Pc.freed s e h = freed-GoesOn s h me e

-- No schedule of any number of CPUs makes `acquire`, `release` or `pop_off` panic, and these facts
-- stay true: at most one CPU is between the swap of `acquire` and the store of `release`, and the
-- lock is then taken; `lk->cpu` names a CPU exactly while it is in its critical section; and from
-- the `push_off` of `acquire` to the `pop_off` of `release` the interrupts of a CPU are off.
pub run-IsExclusive : (sched : List ℕ) (s : System) → IsExclusive s → GoesOn (run sched s)
unfolding run
run-IsExclusive [] s h = (s, refl, h)
run-IsExclusive (me ∷ rest) s h =
    let (t, e, h') = advance-GoesOn me (s.pc me) s refl h in rw e (run-IsExclusive rest t h')

pub start-IsExclusive : IsExclusive start
unfolding start
start-IsExclusive = record {
  one = λ i j a b. absurd (cc (a));
  locked = λ i a. absurd (cc (a));
  named = λ i. refl;
  no_interrupts = λ i a. absurd (cc (a));
}
