-- ===== src/Files/Races.antt =====
-- kernel/sysfile.c: threads of one process share its descriptors, and no lock guards them.
use os_assignment.Prelude.{ℕ, ◌-◌, ◌≡◌, refl, false, some, ltb, arith}
use os_assignment.Prelude.Outcome.{ok, panic, ◌>>=◌}
use os_assignment.Prelude.Int.{ℤ}
use os_assignment.Files.{Table, fileclose, Release}
use os_assignment.Files.Descriptors.{Ofile, argfd, close_file, sys_close}

last_close :
    (f : ℕ) (t : Table)
    → (t f).ref ≡ 1
    → (c : Release × Table) × (fileclose f t ≡ ok c) × ((c.1 f).ref ≡ 0)
unfolding fileclose
last_close f t e =
    let live : ltb (t f).ref 1 ≡ false = ground (arith, e) in
    let last : ltb 0 ((t f).ref - 1) ≡ false = ground (arith, e) in
    rw (live, last) (_, refl, ground arith)

gone-panic : (f : ℕ) (t : Table) → (t f).ref ≡ 0 → fileclose f t ≡ panic
unfolding fileclose
gone-panic f t e = ground (arith, e)

close_file-twice :
    (n f : ℕ) (ds : Ofile) (t : Table)
    → (t f).ref ≡ 1
    → (close_file (some (n, f)) ds t >>= λ d. close_file (some (n, f)) d.ofile d.table) ≡ panic
unfolding close_file
close_file-twice n f ds t e =
    let (c, closed, zero_left) = last_close f t e in rw (closed, gone-panic f c.1 zero_left) refl

-- If a descriptor is the last reference to its file, and a second thread of the process has looked
-- it up for `close` before a first thread closes it, the second thread's `fileclose` panics.
pub racing_closes-panic :
    (fd : ℤ) (ds : Ofile) (t : Table) {n f : ℕ}
    → argfd fd ds ≡ some (n, f)
    → (t f).ref ≡ 1
    → (sys_close fd ds t >>= λ d. close_file (argfd fd ds) d.ofile d.table) ≡ panic
unfolding sys_close
racing_closes-panic fd ds t {n} {f} found e = rw found (close_file-twice n f ds t e)
