-- ===== src/Process/Table.antt =====
-- kernel/proc.c: `allocproc`, `freeproc` and `freethread` on the process table.
use os_assignment.Prelude.{
  ℕ, ◌+◌, Bool, true, false, Option, none, some, List, [], ◌∷◌, if◌then◌else◌,
}
use os_assignment.Process.{State, Thread, Proc}

-- The table with the counters `nextpid` and `nexttid`.
pub record Table : Type 0 where
  pub procs : List Proc
  pub next_pid : ℕ
  pub next_tid : ℕ

abbrev pub is_unused : State → Bool
is_unused State.unused = true
is_unused s = false

-- `freeproc`, less the memory, which the model does not have.
unfoldable pub freeproc : Proc → Proc
freeproc p = record p { pid = 0; parent = none; killed = false; xstate = 0; state = State.unused }

-- `freethread`
unfoldable pub freethread : Thread → Thread
freethread t = record t {
  tid = 0;
  thread_parent = none;
  chan = 0;
  killed = false;
  xstate = 0;
  state = State.unused;
}

-- A change of the main thread, which `allocproc` makes the first one.
abbrev pub change_first : (Thread → Thread) → List Thread → List Thread
change_first f [] = []
change_first f (t ∷ ts) = f t ∷ ts

-- What `allocproc` sets up in the process that it has found: the fields that it writes, and only
-- those.
unfoldable pub setup_proc : (pid tid : ℕ) → Proc → Proc
setup_proc pid tid p = record p {
  pid = pid;
  state = State.used;
  pending_signals = λ k. false;
  signal_mask = λ k. false;
  stopped = false;
  signal_mask_backup = λ k. false;
  ignore_signals = false;
  signal_handlers = λ k. 0;
  mask_handlers = λ k i. false;
  main_thread = 0;
  threads = change_first (λ t. record t { tid = tid; state = State.used }) p.threads;
}

-- What is left of it when no page can be had for the trapframe or for the page table.
unfoldable pub abandon_proc : Proc → Proc
unfolding freeproc freethread
abandon_proc p = let q = freeproc p in record q { threads = change_first freethread q.threads }

-- The scan of `allocproc`, from index `i` on: the table, and the index of the process found.
-- `memory` tells whether the pages can be had.
unfoldable pub alloc_scan :
    (memory : Bool) → (pid tid i : ℕ) → List Proc → Option (Option ℕ × List Proc)
unfolding setup_proc abandon_proc
alloc_scan memory pid tid i [] = none
alloc_scan memory pid tid i (p ∷ ps) =
    let rest = alloc_scan memory pid tid (i + 1) ps in
    if is_unused p.state
    then (if memory
        then some (some i, setup_proc pid tid p ∷ ps)
        else some (none, abandon_proc (setup_proc pid tid p) ∷ ps))
    else elim rest [ none ↦ none | some (found, qs) ↦ some (found, p ∷ qs) ]

-- `allocproc`: the index of the new process, `none` for the null pointer.
unfoldable pub allocproc : (memory : Bool) → Table → Option ℕ × Table
unfolding alloc_scan
allocproc memory k = elim (alloc_scan memory k.next_pid k.next_tid 0 k.procs) [
  | none ↦ (none, k)
  | some (found, ps) ↦
      (found, record { procs = ps; next_pid = k.next_pid + 1; next_tid = k.next_tid + 1 })
]
