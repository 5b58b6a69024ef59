-- ===== src/Process/Kill.antt =====
-- kernel/proc.c: what `kill` does, on every branch.
use os_assignment.Prelude.{
  ℕ, ◌<◌, ◌≡◌, ◌≢◌, refl, true, false, ◌||◌, none, some, List, [], ◌∷◌, ◌==◌, ◌++◌, arith, leb,
}
use os_assignment.Process.{
  State, Thread, Proc, sigkill, signals_size, is_sleeping, kill_proc, kill_scan, kill,
  rouse_threads, rouse,
}

-- No process of the list has this pid.
abbrev pub NonePid : ℕ → List Proc → Type 0
NonePid pid [] = Unit
NonePid pid (p ∷ ps) = (p.pid ≢ pid) × NonePid pid ps

kill_scan-found :
    (signum : ℕ) (ps qs : List Proc) (p : Proc)
    → NonePid p.pid ps
    → kill_scan p.pid signum (ps ++ (p ∷ qs)) ≡ some (ps ++ (kill_proc signum p ∷ qs))
unfolding kill_scan
kill_scan-found signum [] qs p h = ground arith
kill_scan-found signum (r ∷ ps) qs p h = ground (arith, kill_scan-found signum ps qs p h.1)

kill_scan-missing :
    (pid signum : ℕ) (ps : List Proc) → NonePid pid ps → kill_scan pid signum ps ≡ none
unfolding kill_scan
kill_scan-missing pid signum [] h = refl
kill_scan-missing pid signum (p ∷ ps) h = ground (arith, kill_scan-missing pid signum ps h.1)

-- `kill` with a signal number in range changes the first process with the pid, and no other.
pub kill-found :
    (signum : ℕ) (ps qs : List Proc) (p : Proc)
    → signum < signals_size
    → NonePid p.pid ps
    → kill p.pid signum (ps ++ (p ∷ qs)) ≡ some (ps ++ (kill_proc signum p ∷ qs))
unfolding kill
kill-found signum ps qs p h u =
    let e : leb signals_size signum ≡ false = ground arith in
    rw e (kill_scan-found signum ps qs p u)

-- No thread of the list sleeps.
abbrev pub NoneSleeping : List Thread → Type 0
NoneSleeping [] = Unit
NoneSleeping (t ∷ ts) = (is_sleeping t.state ≡ false) × NoneSleeping ts

rouse-not_sleeping : (s : State) → is_sleeping (rouse s) ≡ false
rouse-not_sleeping State.unused = refl
rouse-not_sleeping State.used = refl
rouse-not_sleeping State.sleeping = refl
rouse-not_sleeping State.runnable = refl
rouse-not_sleeping State.running = refl
rouse-not_sleeping State.zombie = refl

rouse_threads-NoneSleeping : (ts : List Thread) → NoneSleeping (rouse_threads ts)
unfolding rouse_threads
rouse_threads-NoneSleeping [] = tt
rouse_threads-NoneSleeping (t ∷ ts) = (rouse-not_sleeping t.state, rouse_threads-NoneSleeping ts)

-- SIGKILL marks the process as killed, has none of its threads asleep, and is pending; no other
-- pending bit changes, and the pid, the handlers and the masks stay.
pub kill_proc-sigkill :
    (p : Proc)
    → let q = kill_proc sigkill p in
      (q.killed ≡ true)
      × NoneSleeping q.threads
      × ((k : ℕ) → q.pending_signals k ≡ ((k == sigkill) || p.pending_signals k))
      × (q.pid ≡ p.pid)
      × (q.signal_handlers ≡ p.signal_handlers)
      × (q.signal_mask ≡ p.signal_mask)
unfolding kill_proc
kill_proc-sigkill p =
    (refl, rouse_threads-NoneSleeping p.threads, λ k. ground arith, refl, refl, refl)

-- `kill` of a pid that no process has fails, whatever the signal number.
pub kill-missing : (pid signum : ℕ) (ps : List Proc) → NonePid pid ps → kill pid signum ps ≡ none
unfolding kill
kill-missing pid signum ps h = ground (arith, kill_scan-missing pid signum ps h)
