-- ===== src/Signals/Tests.antt =====
-- Runs of the model of the signal calls, and its theorems at concrete inputs.
use os_assignment.Prelude.{
  ℕ, List, ◌∷◌, ◌+◌, ◌<◌, ◌≡◌, ◌≢◌, refl, true, false, not, ◌&&◌, ◌||◌, none, some, [], ◌==◌, arith,
  if◌then◌else◌,
}
use os_assignment.Process.{State, Trapframe, Bits, Proc, sigkill, signals_size}
use os_assignment.Signals.{sigprocmask, Task, sigret, sys_sigret, handling_signals, all_set}
use os_assignment.Signals.Return.{sigret-handling_signals, second_signal-loses_return}
use os_assignment.Signals.Defaults.{handling_signals-defaults, is_fatal}

abbrev at_work : Trapframe
at_work = record { epc = 0x100; ra = 0x80; sp = 0x3000; a0 = 7; others = λ k. k }

-- `li a7, SYS_sigret` and `ecall`
abbrev call_sigret : List ℕ
call_sigret = 0x93 ∷ 0x08 ∷ 0x80 ∷ 0x01 ∷ 0x73 ∷ 0 ∷ 0 ∷ 0 ∷ []

-- Signals 2 and 5 go to handlers at 0x200 and 0x500.
abbrev handlers : ℕ → ℕ
handlers k = if k == 2 then 0x200 else if k == 5 then 0x500 else 0

abbrev proc : Bits → (ℕ → ℕ) → Proc
proc pending hs = record {
  state = State.used;
  killed = false;
  xstate = 0;
  pid = 3;
  threads = [];
  parent = none;
  main_thread = 0;
  pending_signals = pending;
  signal_mask = λ k. k == 6;
  signal_handlers = hs;
  stopped = false;
  signal_mask_backup = λ k. false;
  ignore_signals = false;
  mask_handlers = λ k i. false;
}

abbrev task : Bits → (ℕ → ℕ) → Task
task pending hs = record {
  proc = proc pending hs;
  trapframe = at_work;
  backup = at_work;
  copies = [];
}

old_mask_returned : (sigprocmask (λ k. true) (proc (λ k. false) handlers)).0 6 ≡ true
unfolding sigprocmask
old_mask_returned = refl

sigret-handling_signals_example :
    let t = task (λ k. k == 2) handlers in
    (t' : Task) × (handling_signals call_sigret [] t ≡ some t')
    × (t'.trapframe.epc ≡ 0x200)
    × (t'.trapframe.a0 ≡ 2)
    × (t'.trapframe.ra ≡ t'.trapframe.sp)
    × (t'.copies ≡ (t'.trapframe.ra, call_sigret) ∷ [])
    × (t'.trapframe.ra + 8 ≡ 0x3000)
    × (t'.proc.pending_signals 2 ≡ false)
    × (t'.proc.signal_mask ≡ (λ i. false))
    × (t'.proc.ignore_signals ≡ true)
    × ((sigret t').trapframe ≡ at_work)
    × ((sigret t').proc.signal_mask ≡ (λ k. k == 6))
    × ((sigret t').proc.ignore_signals ≡ false)
    × (sys_sigret t' ≡ record (sigret t') { trapframe = record at_work { a0 = 0 } })
unfolding all_set
sigret-handling_signals_example =
    sigret-handling_signals call_sigret 2 [] (task (λ k. k == 2) handlers) (refl, refl, refl)
      (omega arith) (omega arith) (omega arith) (refl, refl, omega arith) (λ k u ne. ground arith)

second_signal-loses_return_example :
    let t = task (λ k. (k == 2) || (k == 5)) handlers in
    (t' : Task) × (handling_signals call_sigret [] t ≡ some t')
    × (t'.trapframe.epc ≡ 0x500)
    × (t'.trapframe.a0 ≡ 5)
    × (t'.proc.signal_mask ≡ (λ i. false))
    × (t'.proc.pending_signals 2 ≡ false)
    × (t'.proc.pending_signals 5 ≡ false)
    × ((sigret t').trapframe.epc ≡ 0x200)
    × ((sigret t').trapframe.a0 ≡ 2)
    × ((sigret t').proc.signal_mask ≡ (λ i. false))
    × ((sigret t').trapframe.epc ≢ 0x100)
unfolding all_set
second_signal-loses_return_example =
    second_signal-loses_return call_sigret 2 5 [] (task (λ k. (k == 2) || (k == 5)) handlers)
      (refl, refl, refl) (omega arith) (omega arith) (refl, refl, omega arith) refl (omega arith)
      refl (λ k u a b. ground arith) (λ e. absurd (omega (arith, e)))

-- Stopped, with SIGKILL pending.
abbrev stopped_task : Task
stopped_task = record {
  proc = record (proc (λ k. k == 9) handlers) { stopped = true };
  trapframe = at_work;
  backup = at_work;
  copies = [];
}

handling_signals-defaults_example :
    let t = task (λ k. (k == 6) || (k == 12)) (λ k. 0) in
    (t' : Task) × (handling_signals call_sigret [] t ≡ some t')
    × (t'.trapframe ≡ at_work)
    × (t'.proc.signal_mask ≡ (λ k. k == 6))
    × ((k : ℕ)
        → k ≢ sigkill
        → k < signals_size
        → t'.proc.pending_signals k ≡ (((k == 6) || (k == 12)) && (k == 6)))
    × ((k : ℕ)
        → k < signals_size
        → is_fatal k ≡ true
        → (((k == 6) || (k == 12)) && not (k == 6)) ≡ true
        → t'.proc.killed ≡ true)
unfolding all_set
handling_signals-defaults_example =
    handling_signals-defaults call_sigret [] (task (λ k. (k == 6) || (k == 12)) (λ k. 0))
      (refl, refl, refl) (λ k. refl)
