-- ===== src/Files/Descriptors.antt =====
-- kernel/sysfile.c and kernel/proc.c: the open files of a process, `p->ofile`, `none` for 0.
use os_assignment.Prelude.{update}
use os_assignment.Prelude.{
  ℕ, zero, suc, Bool, true, false, not, Option, none, some, List, [], ◌∷◌, ltb, if◌then◌else◌, set,
}
use os_assignment.Prelude.Outcome.{Outcome, ok, ◌>>=◌}
use os_assignment.Prelude.Int.{ℤ}
use os_assignment.Files.{nofile, Kind, Table, filedup, fileclose, give_up}

abbrev pub Ofile : Type 0
Ofile = List (Option ℕ)

-- What an `ofile` and the table of files are left as, with the value returned.
pub record Done : Type 0 where
  pub ret : ℤ
  pub ofile : Ofile
  pub table : Table

abbrev pub fails : Ofile → Table → Done
fails ofile t = record { ret = ℤ.negsuc 0; ofile = ofile; table = t }

-- The pointer at index `i`.
abbrev pub pointer : Ofile → ℕ → Option ℕ
pointer [] i = none
pointer (d ∷ ds) zero = d
pointer (d ∷ ds) (suc i) = pointer ds i

-- `argfd` on the argument: the descriptor and its file.
unfoldable pub argfd : ℤ → Ofile → Option (ℕ × ℕ)
argfd (ℤ.negsuc n) ofile = none
argfd (ℤ.pos n) ofile =
    if not (ltb n nofile)
    then none
    else elim (pointer ofile n) [ none ↦ none | some f ↦ some (n, f) ]

-- `fdalloc`
unfoldable pub fdalloc : ℕ → Ofile → Option (ℕ × Ofile)
fdalloc f [] = none
fdalloc f (none ∷ ds) = some (0, some f ∷ ds)
fdalloc f (some g ∷ ds) = elim (fdalloc f ds) [
  | none ↦ none
  | some (fd, ds') ↦ some (suc fd, some g ∷ ds')
]

-- `sys_dup` from its `argfd` on.
unfoldable pub dup_file : Option (ℕ × ℕ) → Ofile → Table → Outcome Done
unfolding fdalloc filedup
dup_file none ofile t = ok (fails ofile t)
dup_file (some (n, f)) ofile t = elim (fdalloc f ofile) [
  | none ↦ ok (fails ofile t)
  | some (fd, ofile') ↦
      filedup f t >>= λ t'. ok (record { ret = ℤ.pos fd; ofile = ofile'; table = t' })
]

unfoldable pub sys_dup : ℤ → Ofile → Table → Outcome Done
unfolding argfd dup_file
sys_dup fd ofile t = dup_file (argfd fd ofile) ofile t

-- `sys_close` from its `argfd` on.
unfoldable pub close_file : Option (ℕ × ℕ) → Ofile → Table → Outcome Done
unfolding fileclose
close_file none ofile t = ok (fails ofile t)
close_file (some (n, f)) ofile t =
    fileclose f t >>= λ x. ok (record { ret = ℤ.pos 0; ofile = set ofile n none; table = x.1 })

unfoldable pub sys_close : ℤ → Ofile → Table → Outcome Done
unfolding argfd close_file
sys_close fd ofile t = close_file (argfd fd ofile) ofile t

-- The descriptors that `sys_pipe` gives the two files, and whether both reach the user's memory,
-- which `copied` tells: whether 0 is returned, and `p->ofile`.
unfoldable pub pipe_fds : (copied : Bool) → (rf wf : ℕ) → Ofile → Bool × Ofile
unfolding fdalloc
pipe_fds copied rf wf ofile = elim (fdalloc rf ofile) [
  | none ↦ (false, ofile)
  | some (fd0, one) ↦ elim (fdalloc wf one) [
    | none ↦ (false, set one fd0 none)
    | some (fd1, two) ↦ if copied then (true, two) else (false, set (set two fd0 none) fd1 none)
  ]
]

-- `sys_open` behind its `filealloc`, for an inode that the file system found: `kind` by its type.
unfoldable pub open_inode :
    (kind : Kind) → (ip : ℕ) → (readable writable : Bool) → Option ℕ × Table → Ofile → Outcome Done
unfolding fdalloc fileclose
open_inode kind ip readable writable (none, t) ofile = ok (fails ofile t)
open_inode kind ip readable writable (some f, t) ofile = elim (fdalloc f ofile) [
  | none ↦ give_up f t >>= λ u. ok (fails ofile u)
  | some (fd, ofile') ↦ ok (record {
    ret = ℤ.pos fd;
    ofile = ofile';
    table =
        update t f
          (record (t f) { kind = kind; ip = ip; readable = readable; writable = writable });
  })
]
