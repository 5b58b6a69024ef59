-- ===== src/Process/Tree.antt =====
-- kernel/proc.c: `fork`, `exit` and `wait`, and who is whose parent.
use os_assignment.Prelude.{
  ℕ, zero, suc, ◌+◌, Bool, true, false, not, ◌&&◌, ◌||◌, Option, none, some, List, [], ◌∷◌, ◌==◌,
  if◌then◌else◌, get_elem?, length,
}
use os_assignment.Prelude.Outcome.{Outcome, ok, panic}
use os_assignment.Process.{State, Trapframe, Thread, Proc, wakeup}
use os_assignment.Process.Table.{Table, is_unused, freeproc, freethread, abandon_proc, allocproc}

-- An element of an array, changed.
abbrev pub modify {ℓ} : {A : Type ℓ} → ℕ → (A → A) → List A → List A
modify i f [] = []
modify zero f (x ∷ xs) = f x ∷ xs
modify (suc i) f (x ∷ xs) = x ∷ modify i f xs

-- The index of `initproc`, which `userinit` allocates first.
abbrev pub initproc : ℕ
initproc = 0

-- NTHREAD
abbrev pub nthread : ℕ
nthread = 8

abbrev pub is_child : (me : ℕ) → Option ℕ → Bool
is_child me none = false
is_child me (some j) = j == me

abbrev pub is_zombie : State → Bool
is_zombie State.zombie = true
is_zombie s = false

-- A process that has not exited.
abbrev pub is_alive : State → Bool
is_alive State.unused = false
is_alive State.zombie = false
is_alive s = true

-- What `fork` writes into the process that `allocproc` set up, less memory, files and name, while it
-- holds that process's lock: `p` is the caller, with the trapframe of its thread.
unfoldable pub copy_child : Proc → Trapframe → Proc → Proc
copy_child p frame np = record np {
  signal_mask = p.signal_mask;
  signal_handlers = p.signal_handlers;
  threads =
      modify np.main_thread (λ t. record t { trapframe = record frame { a0 = 0 } }) np.threads;
}

-- `np->parent = p`, under `wait_lock`.
abbrev pub adopt : (me : ℕ) → Proc → Proc
adopt me np = record np { parent = some me }

-- What it writes when it has the lock of the new process again.
unfoldable pub start_child : Proc → Proc → Proc
start_child p np = record np {
  pending_signals = λ k. false;
  signal_mask = p.signal_mask;
  ignore_signals = false;
  stopped = false;
  threads = modify np.main_thread (λ t. record t { state = State.runnable }) np.threads;
}

abbrev pub pid_at : List Proc → ℕ → Option ℕ
pid_at ps i = elim (get_elem? ps i) [ none ↦ none | some p ↦ some p.pid ]

-- `fork` from its `allocproc` on, until it releases the lock of the new process; `copied` tells
-- whether `uvmcopy` succeeds.
unfoldable pub make_child : (copied : Bool) → Proc → Trapframe → Option ℕ × Table → Option ℕ × Table
unfolding copy_child abandon_proc
make_child copied p frame (none, k) = (none, k)
make_child copied p frame (some c, k) =
    if copied
    then (some c, record k { procs = modify c (copy_child p frame) k.procs })
    else (none, record k { procs = modify c abandon_proc k.procs })

-- The index of the new process, `none` where `fork` returns -1.
unfoldable pub begin_fork : (memory copied : Bool) → Proc → Trapframe → Table → Option ℕ × Table
unfolding allocproc make_child
begin_fork memory copied p frame k = make_child copied p frame (allocproc memory k)

-- How a round of `wait` ends.
pub data Wait : Type 0 where
  reaped : (pid : ℕ) → Wait
  failed : Wait
  sleeps : Wait

-- The first child that has exited.
abbrev pub find_zombie : (me : ℕ) → List Proc → Option ℕ
find_zombie me [] = none
find_zombie me (p ∷ ps) =
    let rest = find_zombie me ps in
    if is_child me p.parent && is_zombie p.state
    then some 0
    else elim rest [ none ↦ none | some i ↦ some (suc i) ]

-- `havekids`
abbrev pub has_child : (me : ℕ) → List Proc → Bool
has_child me [] = false
has_child me (p ∷ ps) = is_child me p.parent || has_child me ps

abbrev pub free_threads : List Thread → List Thread
unfolding freethread
free_threads [] = []
free_threads (t ∷ ts) = (if not (is_unused t.state) then freethread t else t) ∷ free_threads ts

unfoldable pub reap : Proc → Proc
unfolding freeproc freethread
reap p = freeproc (record p { threads = free_threads p.threads })

-- Addresses of processes and of their threads, which are channels; the linker places the table.
module _ (proc_addr : ℕ → ℕ) (thread_addr : ℕ → ℕ → ℕ) where
  abbrev pub main_channel : List Proc → ℕ → ℕ
  main_channel ps i = elim (get_elem? ps i) [ none ↦ 0 | some p ↦ thread_addr i p.main_thread ]

  abbrev pub parent_channel : List Proc → ℕ → ℕ
  parent_channel ps i = elim (get_elem? ps i) [
    | none ↦ 0
    | some p ↦ elim p.parent [ none ↦ 0 | some j ↦ proc_addr j ]
  ]

  abbrev pub child_at : List Proc → (me i : ℕ) → Bool
  child_at ps me i = elim (get_elem? ps i) [ none ↦ false | some p ↦ is_child me p.parent ]

  -- One round of `reparent`.
  unfoldable pub reparent_one : (me th i : ℕ) → List Proc → List Proc
  unfolding wakeup
  reparent_one me th i ps =
      let qs = modify i (λ p. record p { parent = some initproc }) ps in
      if child_at ps me i then wakeup (main_channel qs initproc) me th qs else ps

  -- `reparent`, from index `i` on, with `left` rounds to go. `me` and `th` are the caller.
  unfoldable pub reparent : (me th left i : ℕ) → List Proc → List Proc
  unfolding reparent_one
  reparent me th zero i ps = ps
  reparent me th (suc left) i ps = reparent me th left (i + 1) (reparent_one me th i ps)

  -- The loop of `exit` over its threads.
  unfoldable pub end_threads : (me th left j : ℕ) → List Proc → List Proc
  unfolding wakeup
  end_threads me th zero j ps = ps
  end_threads me th (suc left) j ps =
      let qs =
        modify me
          (λ p. record p { threads = modify j (λ t. record t { state = State.zombie }) p.threads })
          ps in
      end_threads me th left (j + 1) (wakeup (thread_addr me j) me th qs)

  -- `exit` of thread `th` of process `me`, behind the files and the directory.
  unfoldable pub exit : (status me th : ℕ) → List Proc → Outcome (List Proc)
  unfolding reparent end_threads wakeup
  exit status me th ps =
      let qs = reparent me th (length ps) 0 ps in
      let rs = end_threads me th nthread 0 (wakeup (parent_channel qs me) me th qs) in
      if me == initproc
      then panic
      else ok (modify me (λ p. record p { xstate = status; state = State.zombie }) rs)

  abbrev pub fall_asleep : (chan : ℕ) → Thread → Thread
  fall_asleep chan t = record t { chan = chan; state = State.sleeping }

  -- A round of `wait`, by thread `th` of process `me`; `copied` tells whether the status could be
  -- copied out, or was not asked for.
  unfoldable pub wait : (copied killed : Bool) → (me th : ℕ) → List Proc → Wait × List Proc
  unfolding reap
  wait copied killed me th ps = elim (find_zombie me ps) [
    | some i ↦
        if copied
        then (elim (pid_at ps i) [ none ↦ failed | some pid ↦ reaped pid ], modify i reap ps)
        else (failed, ps)
    | none ↦ if not (has_child me ps) || killed then (failed, ps) else (
      sleeps,
      modify me (λ p. record p { threads = modify th (fall_asleep (proc_addr me)) p.threads }) ps,
    )
  ]
