-- ===== src/Files/Processes.antt =====
-- kernel/sysfile.c, kernel/pipe.c, kernel/proc.c: the open files of all processes, and the calls that
-- change them, one critical section of the table of files at a time. A process has one thread, so
-- that nobody else uses its `ofile`.
use os_assignment.Prelude.{
  ℕ, ◌-◌, ◌&&◌, Bool, true, false, Option, none, some, List, [], ◌∷◌, ◌++◌, if◌then◌else◌,
  get_elem?, set, replicate,
}
use os_assignment.Prelude.Outcome.{Outcome, ok, ◌>>=◌}
use os_assignment.Prelude.Int.{ℤ}
use os_assignment.Files.{
  nofile, Kind, fd_none, Table, filealloc, filedup, fileclose, give_up, set_ends,
}
use os_assignment.Files.Descriptors.{Ofile, Done, sys_dup, sys_close, pipe_fds, open_inode}

-- A slot of the process table: free, or given out by `allocproc`, or with a process that runs.
pub data SlotState : Type 0 where
  free : SlotState
  made : SlotState
  live : SlotState

-- Where a process is in a call, with what the call keeps in its variables.
pub data Work : Type 0 where
  idle : Work
  -- `sys_open` has its file.
  opening : (f : ℕ) → Kind → (ip : ℕ) → (readable writable : Bool) → Work
  -- `pipealloc` has its first file, and both.
  one_end : (f0 : ℕ) → Work
  both_ends : (f0 f1 : ℕ) → Work
  -- A call that fails still has these files to close.
  closing : List ℕ → Work
  -- The loop of `fork`: the descriptors to come, and those that the new process in slot `q` has.
  copying : (q : ℕ) → (todo filled : Ofile) → Work
  -- The loop of `exit`.
  exiting : (todo : Ofile) → Work

pub record Process : Type 0 where
  pub slot : SlotState
  pub ofile : Ofile
  pub work : Work

pub record System : Type 0 where
  pub procs : List Process
  pub table : Table

pub data Call : Type 0 where
  open_file : Kind → (ip : ℕ) → (readable writable : Bool) → Call
  dup close : (fd : ℤ) → Call
  pipe : Call
  fork : (q : ℕ) → Call  -- into the slot `q` that `allocproc` found
  exit : Call

-- A process begins a call, or goes on with it: with the page that `kalloc` returns, and whether
-- `copyout` succeeds, if the call asks for them.
pub data Event : Type 0 where
  calls : (p : ℕ) → Call → Event
  goes_on : (p : ℕ) → (page : Option ℕ) → (copied : Bool) → Event

-- NPROC
abbrev pub nproc : ℕ
nproc = 64

abbrev pub no_files : Ofile
no_files = replicate nofile none

abbrev pub call_done : Process → Done → Process × Table
call_done x d = (record x { ofile = d.ofile; work = idle }, d.table)

-- `sys_open` and `pipealloc` on what `filealloc` returns.
abbrev pub opened :
    Kind → (ip : ℕ) → (readable writable : Bool) → Process → Option ℕ × Table → Process × Table
opened kind ip r w x (none, t) = (x, t)
opened kind ip r w x (some f, t) = (record x { work = opening f kind ip r w }, t)

abbrev pub piped : Process → Option ℕ × Table → Process × Table
piped x (none, t) = (x, t)
piped x (some f, t) = (record x { work = one_end f }, t)

-- A call up to the first critical section of it. `exit` sets the entries of `p->ofile` to 0 one by one,
-- which only this process can see; here those to come are kept apart.
unfoldable pub begin_call : Call → Process → Table → Outcome (Process × Table)
unfolding sys_dup sys_close filealloc
begin_call (open_file kind ip r w) x t = ok (opened kind ip r w x (filealloc t))
begin_call (dup fd) x t = sys_dup fd x.ofile t >>= λ d. ok (call_done x d)
begin_call (close fd) x t = sys_close fd x.ofile t >>= λ d. ok (call_done x d)
begin_call pipe x t = ok (piped x (filealloc t))
begin_call (fork q) x t = ok (record x { work = copying q x.ofile [] }, t)
begin_call exit x t = ok (record x { ofile = no_files; work = exiting x.ofile }, t)

abbrev pub second_end : (f0 : ℕ) → Process → Option ℕ × Table → Process × Table
second_end f0 x (none, t) = (record x { work = closing (f0 ∷ []) }, t)
second_end f0 x (some f1, t) = (record x { work = both_ends f0 f1 }, t)

abbrev pub give_fds : (f0 f1 : ℕ) → Process → Table → Bool × Ofile → Process × Table
give_fds f0 f1 x t (true, ds) = (record x { ofile = ds; work = idle }, t)
give_fds f0 f1 x t (false, ds) = (record x { ofile = ds; work = closing (f0 ∷ f1 ∷ []) }, t)

-- The next critical section of a call.
unfoldable pub continue :
    (page : Option ℕ) → (copied : Bool) → Work → Process → Table → Outcome (Process × Table)
unfolding open_inode filealloc filedup fileclose pipe_fds
continue page copied idle x t = ok (x, t)
continue page copied (opening f kind ip r w) x t =
    open_inode kind ip r w (some f, t) x.ofile >>= λ d. ok (call_done x d)
continue page copied (one_end f0) x t = ok (second_end f0 x (filealloc t))
continue none copied (both_ends f0 f1) x t = ok (record x { work = closing (f0 ∷ f1 ∷ []) }, t)
continue (some pi) copied (both_ends f0 f1) x t =
    ok (give_fds f0 f1 x (set_ends pi f0 f1 t) (pipe_fds copied f0 f1 x.ofile))
continue page copied (closing []) x t = ok (record x { work = idle }, t)
continue page copied (closing (f ∷ fs)) x t =
    give_up f t >>= λ u. ok (record x { work = closing fs }, u)
continue page copied (copying q [] filled) x t = ok (x, t)
continue page copied (copying q (none ∷ ds) filled) x t =
    ok (record x { work = copying q ds (filled ++ (none ∷ [])) }, t)
continue page copied (copying q (some f ∷ ds) filled) x t =
    filedup f t >>= λ u. ok (record x { work = copying q ds (filled ++ (some f ∷ [])) }, u)
continue page copied (exiting []) x t = ok (record x { slot = free; work = idle }, t)
continue page copied (exiting (none ∷ ds)) x t = ok (record x { work = exiting ds }, t)
continue page copied (exiting (some f ∷ ds)) x t =
    give_up f t >>= λ u. ok (record x { work = exiting ds }, u)

abbrev pub put_process : (p : ℕ) → List Process → Process × Table → System
put_process p procs (x, t) = record { procs = set procs p x; table = t }

abbrev pub is_free : SlotState → Bool
is_free free = true
is_free made = false
is_free live = false

abbrev pub is_made : SlotState → Bool
is_made free = false
is_made made = true
is_made live = false

abbrev pub is_live : SlotState → Bool
is_live free = false
is_live made = false
is_live live = true

abbrev pub is_idle : Work → Bool
is_idle idle = true
is_idle (opening f kind ip r w) = false
is_idle (one_end f0) = false
is_idle (both_ends f0 f1) = false
is_idle (closing fs) = false
is_idle (copying q todo filled) = false
is_idle (exiting todo) = false

-- `allocproc` gives out slot `q`, if it is free; else nothing happens.
abbrev pub take_slot : (q : ℕ) → (s before : System) → Option Process → System
take_slot q s before none = before
take_slot q s before (some y) =
    if is_free y.slot then record s { procs = set s.procs q (record y { slot = made }) } else before

-- The new process in slot `q` has all its descriptors, and runs.
abbrev pub start_slot : (q : ℕ) → Ofile → (s before : System) → Option Process → System
start_slot q filled s before none = before
start_slot q filled s before (some y) =
    if is_made y.slot
    then record s { procs = set s.procs q (record { slot = live; ofile = filled; work = idle }) }
    else before

-- Only `fork` touches another slot when it begins.
abbrev pub slot_taken : Call → (s before : System) → System
slot_taken (fork q) s before = take_slot q s before (get_elem? s.procs q)
slot_taken (open_file kind ip r w) s before = s
slot_taken (dup fd) s before = s
slot_taken (close fd) s before = s
slot_taken pipe s before = s
slot_taken exit s before = s

-- A call is begun by a process that runs and is in none.
abbrev pub call_by : (p : ℕ) → Call → Option Process → System → Outcome System
unfolding begin_call
call_by p c none s = ok s
call_by p c (some x) s =
    let after = begin_call c x s.table >>= λ r. ok (slot_taken c (put_process p s.procs r) s) in
    if is_live x.slot && is_idle x.work then after else ok s

-- The loop of `fork` is through.
abbrev pub all_copied : Work → Option (ℕ × Ofile)
all_copied idle = none
all_copied (opening f kind ip r w) = none
all_copied (one_end f0) = none
all_copied (both_ends f0 f1) = none
all_copied (closing fs) = none
all_copied (copying q [] filled) = some (q, filled)
all_copied (copying q (d ∷ todo) filled) = none
all_copied (exiting todo) = none

abbrev pub end_fork : (p q : ℕ) → Ofile → Process → System → System
end_fork p q filled x s =
    let t = put_process p s.procs (record x { work = idle }, s.table) in
    start_slot q filled t s (get_elem? t.procs q)

abbrev pub turn_by :
    (p : ℕ) → (page : Option ℕ) → (copied : Bool) → Option Process → System → Outcome System
unfolding continue
turn_by p page copied none s = ok s
turn_by p page copied (some x) s =
    let after = continue page copied x.work x s.table >>= λ r. ok (put_process p s.procs r) in
    let going : Outcome System = elim (all_copied x.work) [
      | none ↦ after
      | some (q, filled) ↦ ok (end_fork p q filled x s)
    ] in
    if is_live x.slot then going else ok s

unfoldable pub step : Event → System → Outcome System
unfolding begin_call continue
step (calls p c) s = call_by p c (get_elem? s.procs p) s
step (goes_on p page copied) s = turn_by p page copied (get_elem? s.procs p) s

unfoldable pub run : List Event → System → Outcome System
unfolding step
run [] s = ok s
run (v ∷ vs) s = step v s >>= run vs

-- The first process runs, in static memory that is all zero.
unfoldable pub start : System
start = record {
  procs =
      record { slot = live; ofile = no_files; work = idle }
      ∷ replicate (nproc - 1) (record { slot = free; ofile = no_files; work = idle });
  table =
      λ f. record { kind = fd_none; ref = 0; readable = false; writable = false; pipe = 0; ip = 0 };
}
