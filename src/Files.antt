-- ===== src/Files.antt =====
-- kernel/file.c, kernel/sysfile.c, kernel/pipe.c: the table of open files.
mod Tests
pub mod Races
pub mod Refs
pub mod Sections
pub mod Shares
pub mod Processes
pub mod Calls
pub mod PipeFiles
pub mod Counts
pub mod Descriptors
use os_assignment.Prelude.{
  ℕ, zero, suc, ◌+◌, ◌-◌, Bool, true, false, not, ◌&&◌, ◌||◌, Option, none, some, List, [], ◌∷◌,
  ◌++◌, ◌==◌, ltb, if◌then◌else◌, get_elem?, set, update,
}
use os_assignment.Prelude.Outcome.{Outcome, ok, panic, ◌>>=◌}

-- NFILE and NOFILE
abbrev pub nfile : ℕ
nfile = 100

abbrev pub nofile : ℕ
nofile = 16

pub data Kind : Type 0 where
  fd_none fd_pipe fd_inode fd_device : Kind

-- `struct file`, less `off` and `major`; pipes and inodes by their addresses.
pub record File : Type 0 where
  pub kind : Kind
  pub ref : ℕ
  pub readable : Bool
  pub writable : Bool
  pub pipe : ℕ
  pub ip : ℕ

-- `ftable.file`, by index.
abbrev pub Table : Type 0
Table = ℕ → File

abbrev pub with_ref : ℕ → File → File
with_ref n f = record f { ref = n }

-- The loop of `filealloc`, with `left` entries to go: the file, `none` for 0.
unfoldable pub filealloc_from : (left i : ℕ) → Table → Option ℕ × Table
filealloc_from zero i t = (none, t)
filealloc_from (suc left) i t =
    let rest = filealloc_from left (i + 1) t in
    if (t i).ref == 0 then (some i, update t i (with_ref 1 (t i))) else rest

unfoldable pub filealloc : Table → Option ℕ × Table
unfolding filealloc_from
filealloc t = filealloc_from nfile 0 t

unfoldable pub filedup : ℕ → Table → Outcome Table
filedup f t = if ltb (t f).ref 1 then panic else ok (update t f (with_ref ((t f).ref + 1) (t f)))

-- What is left to `fileclose` when the last reference is gone.
pub data Release : Type 0 where
  nothing : Release
  close_pipe : (pipe : ℕ) → (writable : Bool) → Release  -- `pipeclose`
  put_inode : (ip : ℕ) → Release  -- `begin_op`, `iput`, `end_op`

abbrev pub release_of : Kind → File → Release
release_of fd_none f = nothing
release_of fd_pipe f = close_pipe f.pipe f.writable
release_of fd_inode f = put_inode f.ip
release_of fd_device f = put_inode f.ip

unfoldable pub fileclose : ℕ → Table → Outcome (Release × Table)
fileclose f t =
    if ltb (t f).ref 1
    then panic
    else if ltb 0 ((t f).ref - 1)
    then ok (nothing, update t f (with_ref ((t f).ref - 1) (t f)))
    else ok (release_of (t f).kind (t f), update t f (record (t f) { kind = fd_none; ref = 0 }))

abbrev pub pipe_file : (pipe : ℕ) → (reads : Bool) → File → File
pipe_file pi reads f = record f {
  kind = fd_pipe;
  readable = reads;
  writable = not reads;
  pipe = pi;
}

-- `fileclose`, as far as the table goes.
abbrev pub give_up : ℕ → Table → Outcome Table
give_up f t = fileclose f t >>= λ x. ok x.1

-- What `pipealloc` writes into its two files when it has the page too.
abbrev pub set_ends : (pi f0 f1 : ℕ) → Table → Table
set_ends pi f0 f1 t =
    let t' = update t f0 (pipe_file pi true (t f0)) in update t' f1 (pipe_file pi false (t' f1))
