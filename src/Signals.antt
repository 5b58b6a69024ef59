-- ===== src/Signals.antt =====
-- kernel/proc.c: the signal calls of a process, and the handling of pending signals on the way back
-- to user space. The process is the caller's, and `Task` adds the thread that runs.
pub mod Return
pub mod Defaults
pub mod Stopped
pub mod Install
mod Tests
use os_assignment.Prelude.{
  ℕ, zero, suc, ◌+◌, ◌-◌, ◌%◌, ◌^◌, ◌<◌, Bool, true, false, not, ◌&&◌, ◌||◌, Option, none, some,
  List, [], ◌∷◌, ◌++◌, ◌==◌, leb, if◌then◌else◌, update, length,
}
use os_assignment.Process.{
  Bits, Proc, Trapframe, kill_proc, set_bit, flip_bit, sigkill, sigstop, sigcont, signals_size,
}

-- `sigprocmask`: the old mask, and the process with the new one.
unfoldable pub sigprocmask : Bits → Proc → Bits × Proc
sigprocmask sigmask p = (p.signal_mask, record p { signal_mask = sigmask })

-- What `sigaction` reads of the new action, `none` if the user's memory is not mapped.
pub record Action : Type 0 where
  pub handler : ℕ
  pub mask : Bits

pub data SigactionEnd : Type 0 where
  refused : SigactionEnd  -- -1, before the lock is taken
  failed : SigactionEnd  -- -1, with the lock still held
  done : SigactionEnd  -- 0, with the lock released

-- The part of `sigaction` that reads the new action. `act` is `none` for a null pointer.
unfoldable pub install_action : (signum : ℕ) → Option (Option Action) → Proc → SigactionEnd × Proc
install_action signum none p = (SigactionEnd.done, p)
install_action signum (some none) p = (SigactionEnd.failed, p)
install_action signum (some (some a)) p = (
  SigactionEnd.done,
  record p {
    signal_handlers = update p.signal_handlers signum a.handler;
    mask_handlers = update p.mask_handlers signum a.mask;
  },
)

-- The part that writes the old action, if it is asked for, and what follows. `oldact` is `none` for
-- a null pointer, and tells whether both writes succeed.
unfoldable pub report_old :
    (signum : ℕ) → Option (Option Action) → Option Bool → Proc → SigactionEnd × Proc
unfolding install_action
report_old signum act none p = install_action signum act p
report_old signum act (some true) p = install_action signum act p
report_old signum act (some false) p = (SigactionEnd.failed, p)

-- `sigaction`. A negative `signum` is refused as one that is too large is.
unfoldable pub sigaction :
    (signum : ℕ)
    → (act : Option (Option Action)) → (oldact : Option Bool) → Proc
    → SigactionEnd × Proc
unfolding report_old
sigaction signum act oldact p =
    if leb 32 signum
    then (SigactionEnd.refused, p)
    else if (signum == sigstop) || (signum == sigkill)
    then (SigactionEnd.refused, p)
    else report_old signum act oldact p

-- The process with the running thread's trapframe and its backup, and, observed only, the calls of
-- `copyout` that put code on the user's stack, each by its address and its bytes.
pub record Task : Type 0 where
  pub proc : Proc
  pub trapframe : Trapframe
  pub backup : Trapframe
  pub copies : List (ℕ × List ℕ)

-- `sigret`
unfoldable pub sigret : Task → Task
sigret t = record t {
  trapframe = t.backup;
  proc = record t.proc { signal_mask = t.proc.signal_mask_backup; ignore_signals = false };
}

-- The system call, on the way out of which `syscall` stores the 0 of `sys_sigret` in `a0`.
unfoldable pub sys_sigret : Task → Task
unfolding sigret
sys_sigret t = let t' = sigret t in record t' { trapframe = record t'.trapframe { a0 = 0 } }

-- `sp - size` on a `uint64`.
abbrev pub lower_stack : (sp size : ℕ) → ℕ
lower_stack sp size = (sp + 2 ^ 64 - size % 2 ^ 64) % 2 ^ 64

-- The `switch` on a signal with the default action. The process's own pid finds the process.
unfoldable pub default_action : (sig : ℕ) → Proc → Proc
default_action sig p =
    if sig == sigstop
    then record p { stopped = true }
    else if sig == sigcont
    then record p { stopped = false }
    else kill_proc sigkill p

-- `p->pendingSignals ^= (1 << sig)`
abbrev pub flip_pending : ℕ → Proc → Proc
flip_pending sig p = record p { pending_signals = flip_bit sig p.pending_signals }

-- All of the mask's bits are set: `p->signalMask == 0xffffffff`.
unfoldable pub all_set : ℕ → Bits → Bool
all_set zero bits = true
all_set (suc n) bits = bits n && all_set n bits

-- `kill` by others while the stopped process yields: the signals that arrive.
abbrev pub arrive : Bits → Proc → Proc
arrive new p = record p { pending_signals = λ k. new k || p.pending_signals k }

-- The `while` of a stopped process. The list has the signals that arrive during each `yield`;
-- `none` means that the process still waits when it is through.
unfoldable pub await_cont : List Bits → Proc → Option Proc
await_cont [] p =
    if p.pending_signals sigcont
    then some (flip_pending sigcont (record p { stopped = false }))
    else none
await_cont (new ∷ news) p =
    let rest = await_cont news (arrive new p) in
    if p.pending_signals sigcont
    then some (flip_pending sigcont (record p { stopped = false }))
    else rest

-- The bytes from `start_ret` to `end_ret`, two instructions that call `sigret`, are a parameter.
module _ (sigret_code : List ℕ) where
  -- `usersignal`. Whether the copy to the user's stack succeeds is not looked at.
  unfoldable pub usersignal : (signum : ℕ) → Task → Task
  usersignal signum t =
      let sp = lower_stack t.trapframe.sp (length sigret_code) in
      record t {
        proc = record t.proc {
          signal_mask_backup = t.proc.signal_mask;
          signal_mask = t.proc.mask_handlers signum;
          ignore_signals = true;
        };
        backup = t.trapframe;
        trapframe = record t.trapframe {
          epc = t.proc.signal_handlers signum;
          sp = sp;
          a0 = signum;
          ra = sp;
        };
        copies = t.copies ++ ((sp, sigret_code) ∷ []);
      }

  -- One round of the `for` of `handling_signals`.
  unfoldable pub signal_round : (sig : ℕ) → Task → Task
  unfolding usersignal default_action
  signal_round sig t =
      if t.proc.pending_signals sig && not (t.proc.signal_mask sig)
      then (if t.proc.signal_handlers sig == 0
          then record t { proc = flip_pending sig (default_action sig t.proc) }
          else if t.proc.signal_handlers sig == 1
          then t
          else let t' = usersignal sig t in record t' { proc = flip_pending sig t'.proc })
      else t

  -- The `for`, with this many rounds to go, from signal `sig` on.
  unfoldable pub signal_rounds : (left sig : ℕ) → Task → Task
  unfolding signal_round
  signal_rounds zero sig t = t
  signal_rounds (suc left) sig t = signal_rounds left (sig + 1) (signal_round sig t)

  -- `handling_signals`; `none` means that the process is stopped and still waits.
  unfoldable pub handling_signals : List Bits → Task → Option Task
  handling_signals news t =
      if all_set 32 t.proc.signal_mask || t.proc.ignore_signals
      then some t
      else if t.proc.stopped && not (t.proc.signal_mask sigstop)
      then elim (await_cont news t.proc) [
        | none ↦ none
        | some p ↦ some (signal_rounds signals_size 0 (record t { proc = p }))
      ]
      else some (signal_rounds signals_size 0 t)
