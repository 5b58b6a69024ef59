-- ===== src/Process.antt =====
-- kernel/proc.h, kernel/proc.c: processes and their threads, and the scans of the process table that
-- change the state of threads.
pub mod Orphans
pub mod Lives
pub mod Cared
pub mod Family
pub mod Parents
pub mod Nodes
pub mod Tree
pub mod Wakeup
pub mod Kill
pub mod Table
pub mod Alloc
mod Tests
use os_assignment.Prelude.{
  ℕ, zero, suc, ◌+◌, ◌<◌, Bool, true, false, ◌&&◌, ◌||◌, Option, none, some, List, [], ◌∷◌, ◌==◌,
  ltb, leb, if◌then◌else◌,
}

-- `enum states`
pub data State : Type 0 where
  unused used sleeping runnable running zombie : State

-- `struct trapframe`: the registers that this code touches, and the others by number.
pub record Trapframe : Type 0 where
  pub epc : ℕ
  pub ra : ℕ
  pub sp : ℕ
  pub a0 : ℕ
  pub others : ℕ → ℕ

-- `struct thread`, less the kernel stack, the saved context and the name. `chan` is an address, 0
-- for none; `thread_parent` an index into the threads of the process.
pub record Thread : Type 0 where
  pub state : State
  pub chan : ℕ
  pub killed : Bool
  pub xstate : ℕ
  pub tid : ℕ
  pub thread_parent : Option ℕ
  pub trapframe : Trapframe
  pub backup : Trapframe

-- A `uint` that is used as a set of signals, by its bits.
abbrev pub Bits : Type 0
Bits = ℕ → Bool

-- `struct proc`, less its lock, memory, files and name. `parent` is an index into the table.
pub record Proc : Type 0 where
  pub state : State
  pub killed : Bool
  pub xstate : ℕ
  pub pid : ℕ
  pub threads : List Thread
  pub parent : Option ℕ
  pub main_thread : ℕ
  pub pending_signals : Bits
  pub signal_mask : Bits
  pub signal_handlers : ℕ → ℕ
  pub stopped : Bool
  pub signal_mask_backup : Bits
  pub ignore_signals : Bool
  pub mask_handlers : ℕ → Bits

abbrev pub sigkill : ℕ
sigkill = 9

abbrev pub sigstop : ℕ
sigstop = 17

abbrev pub sigcont : ℕ
sigcont = 19

-- SIGNALS_SIZE
abbrev pub signals_size : ℕ
signals_size = 32

-- `bits | (1 << i)` and `bits ^ (1 << i)`
abbrev pub set_bit : ℕ → Bits → Bits
set_bit i bits k = if k == i then true else bits k

abbrev pub flip_bit : ℕ → Bits → Bits
flip_bit i bits k = if k == i then (if bits k then false else true) else bits k

abbrev pub is_sleeping : State → Bool
is_sleeping State.sleeping = true
is_sleeping s = false

-- SLEEPING to RUNNABLE
abbrev pub rouse : State → State
rouse State.sleeping = State.runnable
rouse s = s

-- The body of `wakeup` for one thread of the table; `me` says that it is `mythread()`.
unfoldable pub wake_thread : (chan : ℕ) → (me : Bool) → Thread → Thread
wake_thread chan me t =
    if me
    then t
    else if is_sleeping t.state && (t.chan == chan)
    then record t { state = State.runnable }
    else t

-- The inner loop of `wakeup`, over the threads of process `i` from index `j` on. `my_proc` and
-- `my_thread` are the indices of the caller.
unfoldable pub wake_threads : (chan my_proc my_thread i j : ℕ) → List Thread → List Thread
unfolding wake_thread
wake_threads chan my_proc my_thread i j [] = []
wake_threads chan my_proc my_thread i j (t ∷ ts) =
    wake_thread chan ((i == my_proc) && (j == my_thread)) t
    ∷ wake_threads chan my_proc my_thread i (j + 1) ts

-- `wakeup`, over the table from process `i` on.
unfoldable pub wakeup_from : (chan my_proc my_thread i : ℕ) → List Proc → List Proc
unfolding wake_threads
wakeup_from chan my_proc my_thread i [] = []
wakeup_from chan my_proc my_thread i (p ∷ ps) =
    record p { threads = wake_threads chan my_proc my_thread i 0 p.threads }
    ∷ wakeup_from chan my_proc my_thread (i + 1) ps

unfoldable pub wakeup : (chan my_proc my_thread : ℕ) → List Proc → List Proc
unfolding wakeup_from
wakeup chan my_proc my_thread ps = wakeup_from chan my_proc my_thread 0 ps

-- The loop of `kill` that makes sleeping threads runnable.
unfoldable pub rouse_threads : List Thread → List Thread
rouse_threads [] = []
rouse_threads (t ∷ ts) = record t { state = rouse t.state } ∷ rouse_threads ts

-- What `kill` does to the process that it has found.
unfoldable pub kill_proc : (signum : ℕ) → Proc → Proc
unfolding rouse_threads
kill_proc signum p =
    if signum == sigkill
    then record p {
      killed = true;
      state = rouse p.state;
      threads = rouse_threads p.threads;
      pending_signals = set_bit signum p.pending_signals;
    }
    else record p { pending_signals = set_bit signum p.pending_signals }

-- The search of `kill`; `none` is the return of -1.
unfoldable pub kill_scan : (pid signum : ℕ) → List Proc → Option (List Proc)
unfolding kill_proc
kill_scan pid signum [] = none
kill_scan pid signum (p ∷ ps) =
    let rest = kill_scan pid signum ps in
    if p.pid == pid
    then some (kill_proc signum p ∷ ps)
    else elim rest [ none ↦ none | some qs ↦ some (p ∷ qs) ]

-- `kill`. A negative `signum` is refused as one that is too large is.
unfoldable pub kill : (pid signum : ℕ) → List Proc → Option (List Proc)
unfolding kill_scan
kill pid signum ps = if leb signals_size signum then none else kill_scan pid signum ps
