-- ===== src/Signals/Install.antt =====
-- kernel/proc.c: what `sigaction` may change.
use os_assignment.Prelude.{
  ℕ, ◌≡◌, ◌≢◌, ◌⊎◌, inl, inr, refl, Bool, true, false, ◌||◌, Option, none, some, ◌==◌, leb, arith,
  Bool-cases,
}
use os_assignment.Process.{Proc, sigstop, sigkill}
use os_assignment.Signals.{Action, install_action, report_old, sigaction}

-- The action of signal `k` is the same in both.
abbrev pub SameAction : ℕ → Proc → Proc → Type 0
SameAction k p q =
    (q.signal_handlers k ≡ p.signal_handlers k) × (q.mask_handlers k ≡ p.mask_handlers k)

install_action-frame :
    (signum k : ℕ) (act : Option (Option Action)) (p : Proc)
    → k ≢ signum
    → SameAction k p (install_action signum act p).1
unfolding install_action
install_action-frame signum k none p ne = (refl, refl)
install_action-frame signum k (some none) p ne = (refl, refl)
install_action-frame signum k (some (some a)) p ne =
    let e : (k == signum) ≡ false = ground arith in rw e (refl, refl)

report_old-frame :
    (signum k : ℕ) (act : Option (Option Action)) (oldact : Option Bool) (p : Proc)
    → k ≢ signum
    → SameAction k p (report_old signum act oldact p).1
unfolding report_old
report_old-frame signum k act none p ne = install_action-frame signum k act p ne
report_old-frame signum k act (some true) p ne = install_action-frame signum k act p ne
report_old-frame signum k act (some false) p ne = (refl, refl)

-- `sigaction` changes the action of no other signal than its own, and never that of SIGKILL or of
-- SIGSTOP.
pub sigaction-frame :
    (signum k : ℕ) (act : Option (Option Action)) (oldact : Option Bool) (p : Proc)
    → (k ≢ signum) ⊎ ((k ≡ sigstop) ⊎ (k ≡ sigkill))
    → SameAction k p (sigaction signum act oldact p).1
unfolding sigaction
sigaction-frame signum k act oldact p o = elim (Bool-cases (leb 32 signum)) [
  | inl large ↦ rw large (refl, refl)
  | inr small ↦ rw small (elim (Bool-cases ((signum == sigstop) || (signum == sigkill))) [
    | inl fixed ↦ rw fixed (refl, refl)
    | inr free ↦ rw free (report_old-frame signum k act oldact p (ground (arith, o)))
  ])
]
