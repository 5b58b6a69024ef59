-- ===== src/Signals/Defaults.antt =====
-- kernel/proc.c: the signals of a process that has no handlers.
use os_assignment.Prelude.{
  ℕ, zero, suc, ◌+◌, ◌<◌, ◌≤◌, ◌≡◌, ◌≢◌, ◌⊎◌, inl, inr, refl, ◌∙◌, Bool, true, false, not, ◌&&◌,
  some, List, ◌==◌, arith, Bool-cases,
}
use native.Mathlib.Decide.{dec_lt}
use os_assignment.Process.{Bits, Proc, sigcont, sigstop, sigkill, signals_size, kill_proc}
use os_assignment.Signals.{
  Task, default_action, flip_pending, signal_round, signal_rounds, handling_signals,
}
use os_assignment.Signals.Return.{Runs, handling_signals-Runs}

-- Every signal has its default action.
abbrev pub AllDefault : Proc → Type 0
AllDefault p = (k : ℕ) → p.signal_handlers k ≡ 0

-- A signal whose default action is to kill.
abbrev pub is_fatal : ℕ → Bool
is_fatal k = not (k == sigstop) && not (k == sigcont)

-- What a round or more of them for signals from `sig` up to `end` make of a process with default
-- actions only.
pub record Handled (sig end : ℕ) (p q : Proc) : Type 0 where
  pub handlers : q.signal_handlers ≡ p.signal_handlers
  pub mask : q.signal_mask ≡ p.signal_mask
  pub taken :
      (k : ℕ)
      → k ≢ sigkill
      → sig ≤ k
      → k < end
      → q.pending_signals k ≡ (p.pending_signals k && p.signal_mask k)
  pub left :
      (k : ℕ) → k ≢ sigkill → (k < sig) ⊎ (end ≤ k) → q.pending_signals k ≡ p.pending_signals k
  pub kept :
      (k : ℕ) → (k < sig) ⊎ (end ≤ k) → p.pending_signals k ≡ true → q.pending_signals k ≡ true
  pub stays_killed : p.killed ≡ true → q.killed ≡ true
  pub kills :
      (k : ℕ)
      → sig ≤ k
      → k < end
      → is_fatal k ≡ true
      → (p.pending_signals k && not (p.signal_mask k)) ≡ true
      → q.killed ≡ true

-- What the default action of a signal changes.
default_action-acts :
    (sig : ℕ) (p : Proc)
    → let q = default_action sig p in
      (q.signal_handlers ≡ p.signal_handlers)
      × (q.signal_mask ≡ p.signal_mask)
      × ((k : ℕ) → k ≢ sigkill → q.pending_signals k ≡ p.pending_signals k)
      × ((k : ℕ) → p.pending_signals k ≡ true → q.pending_signals k ≡ true)
      × (p.killed ≡ true → q.killed ≡ true)
      × (is_fatal sig ≡ true → q.killed ≡ true)
unfolding default_action kill_proc
default_action-acts sig p = elim (Bool-cases (sig == sigstop)) [
  | inl stop ↦ simp stop (refl, refl, λ k ne. refl, λ k h. h, λ h. h, λ h. cc)
  | inr no_stop ↦ simp no_stop (elim (Bool-cases (sig == sigcont)) [
    | inl cont ↦ simp cont (refl, refl, λ k ne. refl, λ k h. h, λ h. h, λ h. cc)
    | inr no_cont ↦
        simp no_cont (refl, refl, λ k ne. ground arith, λ k h. ground arith, λ h. refl, λ h. refl)
  ])
]

Handled-refl :
    (sig end : ℕ) (p : Proc)
    → ((k : ℕ) → sig ≤ k → k < end → (p.pending_signals k && not (p.signal_mask k)) ≡ false)
    → Handled sig end p p
Handled-refl sig end p h = record {
  handlers = refl;
  mask = refl;
  taken = λ k ne l u. ground (arith, h k l u);
  left = λ k ne o. refl;
  kept = λ k o e. e;
  stays_killed = λ d. d;
  kills = λ k l u f d. absurd (cc (h k l u));
}

Handled-trans :
    {sig mid end : ℕ} {p q r : Proc}
    → sig ≤ mid
    → mid ≤ end
    → Handled sig mid p q
    → Handled mid end q r
    → Handled sig end p r
Handled-trans {sig} {mid} {end} {p} {q} {r} a b g h = record {
  handlers = h.handlers ∙ g.handlers;
  mask = h.mask ∙ g.mask;
  taken = λ k ne l u. elim (dec_lt k mid) [
    | yes m ↦ h.left k ne (inl m) ∙ g.taken k ne l m
    | no m ↦ h.taken k ne (omega arith) u ∙ ground (arith, g.left k ne (inr (omega arith)), g.mask)
  ];
  left = λ k ne o. elim o [
    | inl lo ↦ h.left k ne (inl (omega arith)) ∙ g.left k ne (inl lo)
    | inr hi ↦ h.left k ne (inr hi) ∙ g.left k ne (inr (omega arith))
  ];
  kept = λ k o e. elim o [
    | inl lo ↦ h.kept k (inl (omega arith)) (g.kept k (inl lo) e)
    | inr hi ↦ h.kept k (inr hi) (g.kept k (inr (omega arith)) e)
  ];
  stays_killed = λ d. h.stays_killed (g.stays_killed d);
  kills = λ k l u f d. elim (dec_lt k mid) [
    | yes m ↦ h.stays_killed (g.kills k l m f d)
    | no m ↦ h.kills k (omega arith) u f (ground (arith, g.kept k (inr (omega arith)), g.mask))
  ];
}

module _ (sigret_code : List ℕ) where
  -- One round touches neither the handlers nor the mask, and no trapframe.
  round-Handled :
      (sig : ℕ) (t : Task)
      → AllDefault t.proc
      → (Handled sig (sig + 1) t.proc (signal_round sigret_code sig t).proc)
        × ((signal_round sigret_code sig t).trapframe ≡ t.trapframe)
  unfolding signal_round
  round-Handled sig t d =
      elim (Bool-cases (t.proc.pending_signals sig && not (t.proc.signal_mask sig))) [
        | inr rests ↦ simp rests (
          Handled-refl sig (sig + 1) t.proc (λ k l u. let e : k ≡ sig = omega arith in rw e rests),
          refl,
        )
        | inl acts ↦ simp (acts, d) (handled acts (default_action-acts sig t.proc), refl)
      ]
    where
      handled :
          (t.proc.pending_signals sig && not (t.proc.signal_mask sig)) ≡ true
          → (let q = default_action sig t.proc in
              (q.signal_handlers ≡ t.proc.signal_handlers)
              × (q.signal_mask ≡ t.proc.signal_mask)
              × ((k : ℕ) → k ≢ sigkill → q.pending_signals k ≡ t.proc.pending_signals k)
              × ((k : ℕ) → t.proc.pending_signals k ≡ true → q.pending_signals k ≡ true)
              × (t.proc.killed ≡ true → q.killed ≡ true)
              × (is_fatal sig ≡ true → q.killed ≡ true))
          → Handled sig (sig + 1) t.proc (flip_pending sig (default_action sig t.proc))
      handled acts (same_handlers, same_mask, same_pending, more, stays, kills) = record {
        handlers = same_handlers;
        mask = same_mask;
        taken = λ k ne l u. let e : k ≡ sig = omega arith in ground (arith, e, same_pending k ne);
        left = λ k ne o. ground (arith, o, same_pending k ne);
        kept = λ k o e. ground (arith, o, more k e);
        stays_killed = stays;
        kills = λ k l u f p. let e : k ≡ sig = omega arith in kills (rw (← e) f);
      }

  signal_rounds-Handled :
      (left sig end : ℕ) (t : Task)
      → sig + left ≡ end
      → AllDefault t.proc
      → (Handled sig end t.proc (signal_rounds sigret_code left sig t).proc)
        × ((signal_rounds sigret_code left sig t).trapframe ≡ t.trapframe)
  unfolding signal_rounds
  signal_rounds-Handled zero sig end t e d =
      (Handled-refl sig end t.proc (λ k l u. absurd (omega arith)), refl)
  signal_rounds-Handled (suc left) sig end t e d =
      let (h, f) = round-Handled sig t d in
      let (h', f') =
        signal_rounds-Handled left (sig + 1) end (signal_round sigret_code sig t) (omega arith)
          (λ k. rw h.handlers (d k)) in
      (Handled-trans (omega arith) (omega arith) h h', f' ∙ f)

  -- A running process with default actions only, on the way to user space: it keeps its registers
  -- and its mask; of the signals other than SIGKILL those that are masked stay pending and those
  -- that are not are taken; and if any pending signal that is not masked is neither SIGSTOP nor
  -- SIGCONT, the process is marked as killed.
  pub handling_signals-defaults :
      (news : List Bits) (t : Task)
      → Runs t.proc
      → AllDefault t.proc
      → (t' : Task) × (handling_signals sigret_code news t ≡ some t')
        × (t'.trapframe ≡ t.trapframe)
        × (t'.proc.signal_mask ≡ t.proc.signal_mask)
        × ((k : ℕ)
            → k ≢ sigkill
            → k < signals_size
            → t'.proc.pending_signals k ≡ (t.proc.pending_signals k && t.proc.signal_mask k))
        × ((k : ℕ)
            → k < signals_size
            → is_fatal k ≡ true
            → (t.proc.pending_signals k && not (t.proc.signal_mask k)) ≡ true
            → t'.proc.killed ≡ true)
  handling_signals-defaults news t r d =
      let (h, f) = signal_rounds-Handled signals_size 0 signals_size t (omega arith) d in
      (
        signal_rounds sigret_code signals_size 0 t,
        handling_signals-Runs sigret_code news t r,
        f,
        h.mask,
        λ k ne u. h.taken k ne (omega arith) u,
        λ k u. h.kills k (omega arith) u,
      )
