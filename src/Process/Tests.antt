-- ===== src/Process/Tests.antt =====
-- Runs of the model of the process table, and its theorems at concrete inputs.
use os_assignment.Prelude.{ℕ, zero, suc, ◌≡◌, refl, true, false, none, some, List, [], ◌∷◌, arith}
use os_assignment.Prelude.{ℕ, suc, ◌+◌, ◌*◌, ◌≢◌, Option, sym, ap, ◌∙◌, false}
use mathlib.Core.List.{map}
use os_assignment.Prelude.Outcome.{Outcome, ok, panic}
use os_assignment.Process.Tree.{copy_child, start_child, make_child, begin_fork, exit, wait, reap}
use os_assignment.Process.Nodes.{Node, look}
use os_assignment.Process.Parents.{IsTree, HasParent}
use os_assignment.Process.Lives.{
  Family, Event, calls, adopts, starts, forks, exits, waits, born, run, step, perform,
}
use os_assignment.Process.Cared.{IsCared, GoesOn, run-HasParents}
use os_assignment.Process.Orphans.{AreApart, SleepsOn, exit-leaves_init_asleep}
use os_assignment.Process.{State, Trapframe, Thread, Proc, wakeup}
use os_assignment.Process.Wakeup.{thread_at}
use os_assignment.Process.Table.{Table, is_unused, allocproc}

abbrev registers : Trapframe
registers = record { epc = 0x100; ra = 0x80; sp = 0x3000; a0 = 7; others = λ k. k }

abbrev thread : State → (chan tid : ℕ) → Thread
thread s chan tid = record {
  state = s;
  chan = chan;
  killed = false;
  xstate = 0;
  tid = tid;
  thread_parent = none;
  trapframe = registers;
  backup = registers;
}

abbrev proc : State → (pid : ℕ) → List Thread → Proc
proc s pid ts = record {
  state = s;
  killed = false;
  xstate = 0;
  pid = pid;
  threads = ts;
  parent = none;
  main_thread = 0;
  pending_signals = λ k. false;
  signal_mask = λ k. false;
  signal_handlers = λ k. 0;
  stopped = false;
  signal_mask_backup = λ k. false;
  ignore_signals = false;
  mask_handlers = λ k i. false;
}

abbrev busy : Proc
busy = proc State.used 3 (thread State.running 0 11 ∷ thread State.sleeping 500 12 ∷ [])

abbrev waiter : Proc
waiter = proc State.used 4 (thread State.sleeping 500 13 ∷ thread State.sleeping 600 14 ∷ [])

abbrev slot : Proc
slot = proc State.unused 0 (thread State.unused 0 0 ∷ [])

woken : thread_at (wakeup 500 0 0 (busy ∷ waiter ∷ [])) 1 0 ≡ some (thread State.runnable 500 13)
unfolding wakeup
woken = refl

not_woken :
    thread_at (wakeup 500 0 0 (busy ∷ waiter ∷ [])) 1 1 ≡ some (thread State.sleeping 600 14)
unfolding wakeup
not_woken = refl

abbrev proc_addr : ℕ → ℕ
proc_addr n = 2 * n + 1

abbrev thread_addr : ℕ → ℕ → ℕ
thread_addr i j = 16 * i + 2 * j + 2

addresses-AreApart : AreApart proc_addr thread_addr
addresses-AreApart = record {
  threads = λ i j n e. omega arith;
  procs = λ i n e. omega arith;
  nonzero = λ n e. omega arith;
}

-- The first process, and two free slots.
abbrev first : Proc
first = proc State.used 1 (thread State.running 0 1 ∷ [])

abbrev early : Table
early = record { procs = first ∷ slot ∷ slot ∷ []; next_pid = 2; next_tid = 2 }

some_inj : {n m : Node} → some n ≡ some m → n ≡ m
some_inj e = cc

slot_used : ¬ (is_unused State.unused ≡ false)
slot_used e = cc

early_free : (k : ℕ) (n : Node) → look early.procs k ≡ some n → is_unused n.0 ≡ true → n.1 ≡ none
early_free zero n e u = ap (λ x. x.1) (sym (some_inj e))
early_free (suc zero) n e u = ap (λ x. x.1) (sym (some_inj e))
early_free (suc (suc zero)) n e u = ap (λ x. x.1) (sym (some_inj e))
early_free (suc (suc (suc k))) n e u = absurd (cc)

early_used :
    (k : ℕ) (n : Node)
    → look early.procs k ≡ some n
    → is_unused n.0 ≡ false
    → k ≢ 0
    → HasParent (look early.procs) n
early_used zero n e u ne = absurd (ne refl)
early_used (suc zero) n e u ne = absurd (slot_used (ap (λ x. is_unused x.0) (some_inj e) ∙ u))
early_used (suc (suc zero)) n e u ne = absurd (slot_used (ap (λ x. is_unused x.0) (some_inj e) ∙ u))
early_used (suc (suc (suc k))) n e u ne = absurd (cc)

early-IsTree : IsTree (look early.procs)
early-IsTree = record { rooted = refl; free = early_free; cared = early_used }

abbrev family : Family
family = record { table = early; births = λ c. born }

family-IsCared : IsCared family
family-IsCared = record { tree = early-IsTree; unborn = λ c j e. absurd (cc) }

-- The first process forks, and its child forks too; the child cannot exit in the midst of it, and
-- exits behind it, and is waited for.
abbrev lives : List Event
lives =
    calls 0 (forks true true registers)
    ∷ adopts 1
    ∷ starts 1
    ∷ calls 1 (forks true true registers)
    ∷ calls 1 (exits 9 0)
    ∷ calls 0 (waits true 0)
    ∷ adopts 2
    ∷ starts 2
    ∷ calls 1 (exits 3 0)
    ∷ calls 0 (waits true 0)
    ∷ []

abbrev parents : Outcome Family → List (Option ℕ)
parents (ok s) = map (λ p. p.parent) s.table.procs
parents panic = []

orphan_adopted : parents (run proc_addr thread_addr lives family) ≡ none ∷ none ∷ some 0 ∷ []
unfolding run step perform begin_fork make_child copy_child start_child exit wait allocproc reap
orphan_adopted = refl

run-HasParents_example : GoesOn (run proc_addr thread_addr lives family)
run-HasParents_example =
    run-HasParents proc_addr thread_addr lives family (omega arith) family-IsCared

-- The first process waits; its grandchild has exited, and its child exits.
abbrev waiting : List Proc
waiting =
    proc State.used 1 (thread State.sleeping 1 1 ∷ [])
    ∷ record (proc State.used 2 (thread State.running 0 2 ∷ [])) { parent = some 0 }
    ∷ record (proc State.used 3 (thread State.running 0 3 ∷ [])) { parent = some 1 }
    ∷ record (proc State.zombie 4 []) { parent = some 2 }
    ∷ []

exit-leaves_init_asleep_example :
    (qs : List Proc) × (exit proc_addr thread_addr 0 2 0 waiting ≡ ok qs)
    × (look qs 3 ≡ some (State.zombie, some 0))
    × SleepsOn 1 (thread_at qs 0 0)
exit-leaves_init_asleep_example =
    exit-leaves_init_asleep proc_addr thread_addr addresses-AreApart 0 2 0 0 3 1 State.used waiting
      (omega arith) refl (omega arith) (omega arith) refl (omega arith) (refl, refl)
