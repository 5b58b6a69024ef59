-- ===== src/Signals/Return.antt =====
-- kernel/proc.c: `sigret` undoes `usersignal`, once.
use os_assignment.Prelude.{
  ℕ, zero, suc, ◌+◌, ◌-◌, ◌<◌, ◌≤◌, ◌≡◌, ◌≢◌, ◌^◌, refl, ap, sym, length, ◌++◌, [], ◌∷◌, ◌∙◌, true,
  false, not, ◌&&◌, some, List, ◌==◌, arith,
}
use os_assignment.Process.{Bits, Proc, signals_size}
use os_assignment.Signals.{
  Task, sigret, sys_sigret, usersignal, signal_round, signal_rounds, flip_pending, handling_signals,
  all_set,
}

-- A signal that the process does not handle now: not pending, or masked.
abbrev pub Rests : Proc → ℕ → Type 0
Rests p k = (p.pending_signals k && not (p.signal_mask k)) ≡ false

-- A pending signal that is not masked and has a handler of the user's.
abbrev pub Delivers : Proc → ℕ → Type 0
Delivers p k = (p.pending_signals k ≡ true) × (p.signal_mask k ≡ false) × (2 ≤ p.signal_handlers k)

-- Signals are handled, and the process is not stopped.
abbrev pub Runs : Proc → Type 0
Runs p = (all_set 32 p.signal_mask ≡ false) × (p.ignore_signals ≡ false) × (p.stopped ≡ false)

module _ (sigret_code : List ℕ) where
  signal_rounds-rest :
      (left sig : ℕ) (t : Task)
      → ((k : ℕ) → sig ≤ k → k < sig + left → Rests t.proc k)
      → signal_rounds sigret_code left sig t ≡ t
  unfolding signal_rounds
  signal_rounds-rest zero sig t h = refl
  signal_rounds-rest (suc left) sig t h =
      rw (h sig (omega arith) (omega arith), signal_round)
        (signal_rounds-rest left (sig + 1) t (λ k l u. h k (omega arith) (omega arith)))

  -- Rounds that find nothing to do, up to one that may.
  signal_rounds-skip :
      (n m left sig at : ℕ) (t : Task)
      → left ≡ n + suc m
      → at ≡ sig + n
      → ((k : ℕ) → sig ≤ k → k < at → Rests t.proc k)
      → signal_rounds sigret_code left sig t
        ≡ signal_rounds sigret_code m (at + 1) (signal_round sigret_code at t)
  unfolding signal_rounds
  signal_rounds-skip zero m left sig at t e f h =
      let e' : left ≡ suc m = omega arith in let f' : at ≡ sig = omega arith in rw (e', f')
  signal_rounds-skip (suc n) m zero sig at t e f h = absurd (omega arith)
  signal_rounds-skip (suc n) m (suc left) sig at t e f h =
      rw (h sig (omega arith) (omega arith), signal_round)
        (signal_rounds-skip n m left (sig + 1) at t (omega arith) (omega arith)
          (λ k l u. h k (omega arith) u))

  -- The task after such a signal.
  abbrev pub delivered : ℕ → Task → Task
  delivered sig t =
      let t' = usersignal sigret_code sig t in record t' { proc = flip_pending sig t'.proc }

  signal_round-Delivers :
      (sig : ℕ) (t : Task) → Delivers t.proc sig → signal_round sigret_code sig t ≡ delivered sig t
  unfolding signal_round
  signal_round-Delivers sig t d =
      let one : (t.proc.signal_handlers sig == 0) ≡ false = ground arith in
      let two : (t.proc.signal_handlers sig == 1) ≡ false = ground arith in rw (d.0, d.1, one, two)

  pub handling_signals-Runs :
      (news : List Bits) (t : Task)
      → Runs t.proc
      → handling_signals sigret_code news t ≡ some (signal_rounds sigret_code signals_size 0 t)
  unfolding handling_signals
  handling_signals-Runs news t r = rw (r.0, r.1, r.2)

  one_delivered :
      (sig : ℕ) (t : Task)
      → sig < signals_size
      → Delivers t.proc sig
      → ((k : ℕ) → k < signals_size → k ≢ sig → t.proc.pending_signals k ≡ false)
      → signal_rounds sigret_code signals_size 0 t ≡ delivered sig t
  one_delivered sig t u d only =
      signal_rounds-skip sig (31 - sig) signals_size 0 sig t (omega arith) (omega arith)
        (λ k l v. rw (only k (omega arith) (omega arith)))
      ∙ ap (signal_rounds sigret_code (31 - sig) (sig + 1)) (signal_round-Delivers sig t d)
      ∙ signal_rounds-rest (31 - sig) (sig + 1) (delivered sig t)
          (λ k l v. unfold usersignal in ground (arith, only k))

  -- One signal with a handler of the user's is pending, and not masked, in a process that runs. On
  -- the way to user space its handler is entered with the signal's number for argument; the return
  -- address is the new top of the stack, to which `copyout` is told to copy the code that calls
  -- `sigret`, which ends where the stack ended; the signal is no longer pending, and further signals
  -- wait. `sigret` then puts back all registers and the mask, and lets signals in again, and the
  -- system call around it leaves 0 in `a0`. (The code fits above address 0.)
  pub sigret-handling_signals :
      (sig : ℕ) (news : List Bits) (t : Task)
      → Runs t.proc
      → sig < signals_size
      → length sigret_code ≤ t.trapframe.sp
      → t.trapframe.sp < 2 ^ 64
      → Delivers t.proc sig
      → ((k : ℕ) → k < signals_size → k ≢ sig → t.proc.pending_signals k ≡ false)
      → (t' : Task) × (handling_signals sigret_code news t ≡ some t')
        × (t'.trapframe.epc ≡ t.proc.signal_handlers sig)
        × (t'.trapframe.a0 ≡ sig)
        × (t'.trapframe.ra ≡ t'.trapframe.sp)
        × (t'.copies ≡ t.copies ++ ((t'.trapframe.ra, sigret_code) ∷ []))
        × (t'.trapframe.ra + length sigret_code ≡ t.trapframe.sp)
        × (t'.proc.pending_signals sig ≡ false)
        × (t'.proc.signal_mask ≡ t.proc.mask_handlers sig)
        × (t'.proc.ignore_signals ≡ true)
        × ((sigret t').trapframe ≡ t.trapframe)
        × ((sigret t').proc.signal_mask ≡ t.proc.signal_mask)
        × ((sigret t').proc.ignore_signals ≡ false)
        × (sys_sigret t' ≡ record (sigret t') { trapframe = record t.trapframe { a0 = 0 } })
  unfolding sigret usersignal sys_sigret
  sigret-handling_signals sig news t r u fits word d only = (
    delivered sig t,
    handling_signals-Runs news t r ∙ ap some (one_delivered sig t u d only),
    refl,
    refl,
    refl,
    refl,
    omega (arith, fits, word),
    ground (arith, d),
    refl,
    refl,
    refl,
    refl,
    refl,
    refl,
  )

  two_delivered :
      (i j : ℕ) (t : Task)
      → i < j
      → j < signals_size
      → Delivers t.proc i
      → t.proc.pending_signals j ≡ true
      → 2 ≤ t.proc.signal_handlers j
      → t.proc.mask_handlers i j ≡ false
      → ((k : ℕ) → k < signals_size → k ≢ i → k ≢ j → t.proc.pending_signals k ≡ false)
      → signal_rounds sigret_code signals_size 0 t ≡ delivered j (delivered i t)
  two_delivered i j t l u d pending handler open_j only =
      signal_rounds-skip i (31 - i) signals_size 0 i t (omega arith) (omega arith)
        (λ k a b. rw (only k (omega arith) (omega arith) (omega arith)))
      ∙ ap (signal_rounds sigret_code (31 - i) (i + 1)) (signal_round-Delivers i t d)
      ∙ signal_rounds-skip (j - (i + 1)) (31 - j) (31 - i) (i + 1) j (delivered i t) (omega arith)
          (omega arith) (λ k a b. unfold usersignal in ground (arith, only k))
      ∙ ap (signal_rounds sigret_code (31 - j) (j + 1)) (
          signal_round-Delivers j (delivered i t)
            (unfold usersignal in (ground arith, open_j, handler)))
      ∙ signal_rounds-rest (31 - j) (j + 1) (delivered j (delivered i t))
          (λ k a b. unfold usersignal in ground (arith, only k))

  -- Two such signals i < j at once, j not masked while i is handled, in a process that is not at the
  -- handler of i: one pass takes both, and leaves the process at the handler of j with argument j and
  -- the mask of j's action; the backup is the entry of the handler of i with argument i. `sigret`
  -- returns there, with the mask of i's action, and not to what ran before.
  pub second_signal-loses_return :
      (i j : ℕ) (news : List Bits) (t : Task)
      → Runs t.proc
      → i < j
      → j < signals_size
      → Delivers t.proc i
      → t.proc.pending_signals j ≡ true
      → 2 ≤ t.proc.signal_handlers j
      → t.proc.mask_handlers i j ≡ false
      → ((k : ℕ) → k < signals_size → k ≢ i → k ≢ j → t.proc.pending_signals k ≡ false)
      → t.trapframe.epc ≢ t.proc.signal_handlers i
      → (t' : Task) × (handling_signals sigret_code news t ≡ some t')
        × (t'.trapframe.epc ≡ t.proc.signal_handlers j)
        × (t'.trapframe.a0 ≡ j)
        × (t'.proc.signal_mask ≡ t.proc.mask_handlers j)
        × (t'.proc.pending_signals i ≡ false)
        × (t'.proc.pending_signals j ≡ false)
        × ((sigret t').trapframe.epc ≡ t.proc.signal_handlers i)
        × ((sigret t').trapframe.a0 ≡ i)
        × ((sigret t').proc.signal_mask ≡ t.proc.mask_handlers i)
        × ((sigret t').trapframe.epc ≢ t.trapframe.epc)
  unfolding sigret usersignal
  second_signal-loses_return i j news t r l u d pending handler open_j only elsewhere = (
    delivered j (delivered i t),
    handling_signals-Runs news t r
        ∙ ap some (two_delivered i j t l u d pending handler open_j only),
    refl,
    refl,
    refl,
    ground (arith, l, d),
    ground (arith, l, pending),
    refl,
    refl,
    refl,
    λ e. elsewhere (sym e),
  )
