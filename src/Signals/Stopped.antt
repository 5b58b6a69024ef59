-- ===== src/Signals/Stopped.antt =====
-- kernel/proc.c: the wait of a stopped process.
use os_assignment.Prelude.{
  ℕ, zero, suc, ◌<◌, ◌≡◌, refl, true, false, ◌||◌, none, some, List, [], ◌∷◌, ◌==◌, arith,
}
use native.Mathlib.Decide.{dec_lt}
use os_assignment.Process.{Bits, Proc, sigcont, sigstop}
use os_assignment.Signals.{Task, await_cont, arrive, flip_pending, handling_signals, all_set}

-- SIGCONT is not among the signals that arrive.
abbrev pub NoCont : List Bits → Type 0
NoCont [] = Unit
NoCont (new ∷ news) = (new sigcont ≡ false) × NoCont news

await_cont-none :
    (news : List Bits) (p : Proc)
    → p.pending_signals sigcont ≡ false
    → NoCont news
    → await_cont news p ≡ none
unfolding await_cont
await_cont-none [] p e h = rw e
await_cont-none (new ∷ news) p e h = rw e (await_cont-none news (arrive new p) (ground arith) h.1)

all_set-false : (n k : ℕ) (bits : Bits) → k < n → bits k ≡ false → all_set n bits ≡ false
unfolding all_set
all_set-false zero k bits l h = absurd (omega arith)
all_set-false (suc n) k bits l h = elim (dec_lt k n) [
  | yes m ↦ rw (all_set-false n k bits m h) (ground arith)
  | no m ↦ let e : n ≡ k = omega arith in rw (e, h)
]

-- A stopped process waits for SIGCONT, whatever else arrives: as long as that signal is not
-- pending and does not arrive, the process neither runs nor handles any other signal, SIGKILL
-- included. Conditions: its mask does not block SIGSTOP nor is it full, and it is not in a handler.
pub stopped-waits :
    (sigret_code : List ℕ) (news : List Bits) (t : Task)
    → t.proc.stopped ≡ true
    → (t.proc.signal_mask sigstop ≡ false) × (t.proc.ignore_signals ≡ false)
    → t.proc.pending_signals sigcont ≡ false
    → NoCont news
    → handling_signals sigret_code news t ≡ none
unfolding handling_signals
stopped-waits sigret_code news t stop open_mask e h = simp (
  all_set-false 32 sigstop t.proc.signal_mask (omega arith) open_mask.0,
  open_mask.1,
  stop,
  open_mask.0,
  await_cont-none news t.proc e h,
)

-- When SIGCONT arrives, the wait ends: the process is no longer stopped, SIGCONT is no longer
-- pending, and all other signals that have arrived up to then are.
pub await_cont-ends :
    (new : Bits) (news : List Bits) (p : Proc)
    → p.pending_signals sigcont ≡ false
    → new sigcont ≡ true
    → (q : Proc) × (await_cont (new ∷ news) p ≡ some q)
      × (q.stopped ≡ false)
      × (q.pending_signals sigcont ≡ false)
      × ((k : ℕ) → ((k == sigcont) ≡ false) → q.pending_signals k ≡ (new k || p.pending_signals k))
unfolding await_cont
await_cont-ends new [] p e a = (
  flip_pending sigcont (record (arrive new p) { stopped = false }),
  ground arith,
  refl,
  ground arith,
  λ k ne. ground arith,
)
await_cont-ends new (x ∷ news) p e a = (
  flip_pending sigcont (record (arrive new p) { stopped = false }),
  ground arith,
  refl,
  ground arith,
  λ k ne. ground arith,
)
