-- ===== src/Sleeplock/Exclusion.antt =====
-- kernel/sleeplock.c: one thread at a time, and nobody sleeps at a free lock.
use os_assignment.Prelude.{
  ℕ, ◌≡◌, ◌≢◌, refl, sym, inl, inr, true, false, List, [], ◌∷◌, ◌==◌, arith, if◌then◌else◌, update,
  Bool-cases,
}
use mathlib.Core.Path.{subst}
use os_assignment.Sleeplock.{
  Sleeplock, holdingsleep, Place, outside, trying, asleep, inside, wake, System, try_acquire,
  releasesleep, Event, call, turn, release, kill, enter, take_turn, let_go, step, run, start,
}

-- What is known of a thread, by the lock and the thread that has it.
abbrev pub Agrees : (pid : ℕ → ℕ) → Sleeplock → (holder k : ℕ) → Place → Type 0
Agrees pid lk holder k outside = Unit
Agrees pid lk holder k trying = Unit
Agrees pid lk holder k asleep = lk.locked ≡ true
Agrees pid lk holder k inside = (k ≡ holder) × (holdingsleep (pid k) lk ≡ true)

-- Whoever is past `acquiresleep` is the holder, whom `holdingsleep` recognises, so there is one at
-- most; threads sleep only while the lock is taken.
pub record IsOwned (pid : ℕ → ℕ) (s : System) : Type 0 where
  pub holder : ℕ
  pub agrees : (k : ℕ) → Agrees pid s.lock holder k (s.place k)

woken-Agrees :
    (pid : ℕ → ℕ) (lk lk' : Sleeplock) (h h' k : ℕ) (p : Place)
    → p ≢ inside
    → Agrees pid lk h k p
    → Agrees pid lk' h' k (wake p)
woken-Agrees pid lk lk' h h' k outside ne a = tt
woken-Agrees pid lk lk' h h' k trying ne a = tt
woken-Agrees pid lk lk' h h' k asleep ne a = tt
woken-Agrees pid lk lk' h h' k inside ne a = absurd (ne refl)

wake-Agrees :
    (pid : ℕ → ℕ) (lk : Sleeplock) (h k : ℕ) (p : Place)
    → Agrees pid lk h k p
    → Agrees pid lk h k (wake p)
wake-Agrees pid lk h k outside a = tt
wake-Agrees pid lk h k trying a = tt
wake-Agrees pid lk h k asleep a = tt
wake-Agrees pid lk h k inside a = a

enter-Agrees :
    (pid : ℕ → ℕ) (lk : Sleeplock) (h k : ℕ) (p : Place)
    → Agrees pid lk h k p
    → Agrees pid lk h k (enter p)
enter-Agrees pid lk h k outside a = tt
enter-Agrees pid lk h k trying a = tt
enter-Agrees pid lk h k asleep a = a
enter-Agrees pid lk h k inside a = a

-- A free lock has nobody inside or asleep.
free-Agrees :
    (pid : ℕ → ℕ) (lk lk' : Sleeplock) (h h' k : ℕ) (p : Place)
    → lk.locked ≡ false
    → Agrees pid lk h k p
    → Agrees pid lk' h' k p
unfolding holdingsleep
free-Agrees pid lk lk' h h' k outside free a = tt
free-Agrees pid lk lk' h h' k trying free a = tt
free-Agrees pid lk lk' h h' k asleep free a = absurd (cc)
free-Agrees pid lk lk' h h' k inside free a = absurd (ground (arith, free, a.1))

module _ (pid : ℕ → ℕ) (s : System) (h : IsOwned pid s) where
  -- Thread `j` moves, and the lock stays.
  moved :
      (j : ℕ) (p : Place)
      → Agrees pid s.lock h.holder j p
      → IsOwned pid (record s { place = update s.place j p })
  moved j p a = record {
    holder = h.holder;
    agrees = λ k. elim (Bool-cases (k == j)) [
      | inl same ↦
          let e : k ≡ j = ground (arith, same) in
          rw same (subst (λ i. Agrees pid s.lock h.holder i p) (sym e) a)
      | inr other ↦ rw other (h.agrees k)
    ];
  }

  try_acquire-IsOwned : (j : ℕ) → IsOwned pid (try_acquire j (pid j) s)
  unfolding try_acquire holdingsleep
  try_acquire-IsOwned j =
      let stays_out : System = record s { place = update s.place j asleep } in
      let goes_in : System = record {
        lock = record { locked = true; pid = pid j };
        place = update s.place j inside;
      } in
      elim (Bool-cases s.lock.locked) [
        | inl taken ↦
            subst (λ b. IsOwned pid (if b then stays_out else goes_in)) (sym taken)
              (moved j asleep taken)
        | inr free ↦ rw free (record {
          holder = j;
          agrees = λ k. elim (Bool-cases (k == j)) [
            | inl same ↦ rw same (ground (arith, same))
            | inr other ↦
                rw other (free-Agrees pid s.lock _ h.holder j k (s.place k) free (h.agrees k))
          ];
        })
      ]

  releasesleep-IsOwned : (j : ℕ) → s.place j ≡ inside → IsOwned pid (releasesleep j s)
  unfolding releasesleep
  releasesleep-IsOwned j mine = record {
    holder = 0;
    agrees = λ k. elim (Bool-cases (k == j)) [
      | inl same ↦ rw same tt
      | inr other ↦
          let at : j ≡ h.holder = (subst (Agrees pid s.lock h.holder j) mine (h.agrees j)).0 in
          let not_inside : s.place k ≢ inside = λ e.
            absurd (
              ground (arith, other, at, (subst (Agrees pid s.lock h.holder k) e (h.agrees k)).0)) in
          rw other (woken-Agrees pid s.lock _ h.holder 0 k (s.place k) not_inside (h.agrees k))
    ];
  }

  turn-IsOwned : (j : ℕ) (p : Place) → IsOwned pid (take_turn (pid j) j p s)
  turn-IsOwned j outside = h
  turn-IsOwned j trying = try_acquire-IsOwned j
  turn-IsOwned j asleep = h
  turn-IsOwned j inside = h

  release-IsOwned : (j : ℕ) (p : Place) → s.place j ≡ p → IsOwned pid (let_go j p s)
  release-IsOwned j outside e = h
  release-IsOwned j trying e = h
  release-IsOwned j asleep e = h
  release-IsOwned j inside e = releasesleep-IsOwned j e

  step-IsOwned : (v : Event) → IsOwned pid (step pid v s)
  unfolding step
  step-IsOwned (call j) = moved j _ (enter-Agrees pid s.lock h.holder j (s.place j) (h.agrees j))
  step-IsOwned (turn j) = turn-IsOwned j (s.place j)
  step-IsOwned (release j) = release-IsOwned j (s.place j) refl
  step-IsOwned (kill j) = moved j _ (wake-Agrees pid s.lock h.holder j (s.place j) (h.agrees j))

-- Whatever threads acquire and release a sleeplock, in any order and with any kills, at most one of
-- them is past `acquiresleep` at a time, `holdingsleep` tells it so, and no thread sleeps at a lock
-- that is free.
pub run-IsOwned :
    (pid : ℕ → ℕ) (vs : List Event) (s : System) → IsOwned pid s → IsOwned pid (run pid vs s)
unfolding run
run-IsOwned pid [] s h = h
run-IsOwned pid (v ∷ vs) s h = run-IsOwned pid vs (step pid v s) (step-IsOwned pid s h v)

pub start-IsOwned : (pid : ℕ → ℕ) → IsOwned pid start
unfolding start
start-IsOwned pid = record { holder = 0; agrees = λ k. tt }
