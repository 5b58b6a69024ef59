-- ===== src/Files/Tests.antt =====
-- Runs of the model of the open files, and its theorems at concrete inputs.
use os_assignment.Prelude.{
  ℕ, zero, suc, ◌++◌, ◌≡◌, refl, true, false, Option, some, none, List, [], ◌∷◌,
}
use os_assignment.Prelude.Outcome.{Outcome, ok, panic, ◌>>=◌}
use os_assignment.Prelude.Int.{ℤ}
use os_assignment.Files.{fd_inode, Table, filealloc, filealloc_from, filedup, fileclose}
use os_assignment.Files.Descriptors.{
  Ofile, argfd, fdalloc, dup_file, sys_dup, close_file, sys_close, pipe_fds, open_inode,
}
use os_assignment.Files.Processes.{
  System, Event, calls, goes_on, open_file, dup, close, pipe, fork, exit, begin_call, continue,
  step, run, start,
}
use os_assignment.Files.Refs.{GoesOn}
use os_assignment.Files.Shares.{run-IsShared, start-IsShared}
use os_assignment.Files.Races.{racing_closes-panic}

abbrev on : ℕ → Event
on p = goes_on p (some 4096) true

-- `p` goes on, this many times.
abbrev times : ℕ → ℕ → List Event
times p zero = []
times p (suc n) = on p ∷ times p n

-- A file is opened and duplicated, the process forks, the child and the parent make pipes at the same
-- time, the parent closes a descriptor, and the child exits.
abbrev script : List Event
script =
    calls 0 (open_file fd_inode 7 true false)
    ∷ on 0
    ∷ calls 0 (dup (ℤ.pos 0))
    ∷ calls 0 (fork 3)
    ∷ (times 0 17
        ++ (calls 3 pipe
            ∷ calls 0 pipe
            ∷ on 3
            ∷ on 0
            ∷ on 0
            ∷ on 3
            ∷ calls 0 (close (ℤ.pos 1))
            ∷ calls 3 exit
            ∷ times 3 17))

abbrev ref_after : Outcome System → ℕ → Option ℕ
ref_after (ok s) f = some (s.table f).ref
ref_after panic f = none

one_reference : ref_after (run script start) 0 ≡ some 1
unfolding run step start begin_call continue filealloc filealloc_from filedup fileclose argfd
    fdalloc dup_file sys_dup close_file sys_close pipe_fds open_inode
one_reference = refl

-- The pipe of the parent is left, and that of the child is gone.
ends_of_pipes :
    (ref_after (run script start) 1 ≡ some 0) × (ref_after (run script start) 2 ≡ some 1)
unfolding run step start begin_call continue filealloc filealloc_from filedup fileclose argfd
    fdalloc dup_file sys_dup close_file sys_close pipe_fds open_inode
ends_of_pipes = (refl, refl)

run-IsShared_example : GoesOn (run script start)
run-IsShared_example = run-IsShared script start start-IsShared

abbrev one_open : Table
one_open f = record {
  kind = fd_inode;
  ref = 1;
  readable = true;
  writable = false;
  pipe = 0;
  ip = 7;
}

abbrev descriptors : Ofile
descriptors = none ∷ some 2 ∷ []

found : argfd (ℤ.pos 1) descriptors ≡ some (1, 2)
unfolding argfd
found = refl

racing_closes-panic_example :
    (sys_close (ℤ.pos 1) descriptors one_open >>= λ d.
    close_file (argfd (ℤ.pos 1) descriptors) d.ofile d.table)
    ≡ panic
racing_closes-panic_example = racing_closes-panic (ℤ.pos 1) descriptors one_open found refl
