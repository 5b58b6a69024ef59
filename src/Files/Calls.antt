-- ===== src/Files/Calls.antt =====
-- kernel/sysfile.c, kernel/proc.c: calls on descriptors keep the reference counts right.
use os_assignment.Prelude.{
  ℕ, zero, suc, ◌+◌, ◌<◌, ◌≡◌, refl, ap, ◌∙◌, inl, inr, ◌⊎◌, Bool, true, false, none, some, [], ◌∷◌,
  ltb, arith, set, Bool-cases, Option-cases,
}
use os_assignment.Prelude.Outcome.{Outcome, ok}
use os_assignment.Prelude.Int.{ℤ}
use os_assignment.Files.{nofile, Kind, Table}
use os_assignment.Files.Descriptors.{
  Ofile, Done, fails, pointer, argfd, fdalloc, dup_file, sys_dup, close_file, sys_close, open_inode,
  pipe_fds,
}
use os_assignment.Files.Counts.{one, count, Counts, recount, filedup-Counts, fileclose-Counts}
use os_assignment.Files.PipeFiles.{give_up-Counts, set_file}

-- The call returns, and the table counts the references in the `ofile` it leaves, and those elsewhere.
abbrev pub Finishes : (elsewhere : ℕ → ℕ) → Outcome Done → Type 0
Finishes elsewhere r = (d : Done) × (r ≡ ok d) × Counts (λ k. elsewhere k + count d.ofile k) d.table

count-set :
    (ds : Ofile) (n k : ℕ) {f : ℕ}
    → pointer ds n ≡ some f
    → count (set ds n none) k + one f k ≡ count ds k
count-set [] n k e = absurd (cc)
count-set (d ∷ ds) zero k e = rw e (omega arith)
count-set (d ∷ ds) (suc n) k e = omega (arith, count-set ds n k e)

set_comm : (ds : Ofile) (i j : ℕ) → set (set ds i none) j none ≡ set (set ds j none) i none
set_comm [] i j = refl
set_comm (d ∷ ds) zero zero = refl
set_comm (d ∷ ds) zero (suc j) = refl
set_comm (d ∷ ds) (suc i) zero = refl
set_comm (d ∷ ds) (suc i) (suc j) = ap (λ es. d ∷ es) (set_comm ds i j)

-- What `fdalloc` does: it fails, or it adds a descriptor where there was none.
abbrev Adds : ℕ → Ofile → Type 0
Adds f ds =
    (fd : ℕ) × (es : Ofile) × (fdalloc f ds ≡ some (fd, es))
    × (set es fd none ≡ ds)
    × ((k : ℕ) → count es k ≡ count ds k + one f k)

fdalloc_cases : (f : ℕ) (ds : Ofile) → (fdalloc f ds ≡ none) ⊎ Adds f ds
unfolding fdalloc
fdalloc_cases f [] = inl refl
fdalloc_cases f (none ∷ ds) = inr (0, _, refl, refl, λ k. omega arith)
fdalloc_cases f (some g ∷ ds) = elim (fdalloc_cases f ds) [
  | inl full ↦ rw full (inl refl)
  | inr (fd, es, found, undone, adds) ↦
      rw found (inr (suc fd, _, refl, ap (λ e. some g ∷ e) undone, λ k. omega (arith, adds k)))
]

module _ (o : ℕ → ℕ) where
  stays : (ds : Ofile) (t : Table) → Counts (λ k. o k + count ds k) t → Finishes o (ok (fails ds t))
  stays ds t h = (fails ds t, refl, h)

  dup_file-Finishes :
      (n f : ℕ) (ds : Ofile) (t : Table)
      → pointer ds n ≡ some f
      → Counts (λ k. o k + count ds k) t
      → Finishes o (dup_file (some (n, f)) ds t)
  unfolding dup_file
  dup_file-Finishes n f ds t e h = elim (fdalloc_cases f ds) [
    | inl full ↦ rw (dup_file, full) (stays ds t h)
    | inr (fd, es, found, undone, adds) ↦
        let live : 0 < o f + count ds f = ground (arith, count-set ds n f e) in
        let (u, dup, h') = filedup-Counts h f live in
        rw (dup_file, found, dup) (_, refl, recount (λ k. omega (arith, adds k)) h')
  ]

  close_file-Finishes :
      (n f : ℕ) (ds : Ofile) (t : Table)
      → pointer ds n ≡ some f
      → Counts (λ k. o k + count ds k) t
      → Finishes o (close_file (some (n, f)) ds t)
  unfolding close_file
  close_file-Finishes n f ds t e h =
      let h' : Counts (λ k. o k + count (set ds n none) k + one f k) t =
        recount (λ k. omega (arith, count-set ds n k e)) h in
      let (c, closed, h'') = fileclose-Counts {held = λ k. o k + count (set ds n none) k} f h' in
      rw closed (_, refl, h'')

  pub open_inode-Finishes :
      (kind : Kind) (ip : ℕ) (r w : Bool) (f : ℕ) (ds : Ofile) (t : Table)
      → Counts (λ k. o k + count ds k + one f k) t
      → Finishes o (open_inode kind ip r w (some f, t) ds)
  unfolding open_inode
  open_inode-Finishes kind ip r w f ds t h = elim (fdalloc_cases f ds) [
    | inl full ↦
        let (u, e, h') = give_up-Counts {held = λ k. o k + count ds k} f h in
        rw (open_inode, full, e) (stays ds u h')
    | inr (fd, es, found, undone, adds) ↦
        rw (open_inode, found)
          (_, refl, recount (λ k. omega (arith, adds k)) (set_file f _ refl (ground arith) h))
  ]

-- What `sys_pipe` does to the descriptors: two more, or all as it was.
pub pipe_fds_lem :
    (copied : Bool) (f0 f1 : ℕ) (ds : Ofile)
    → (pipe_fds copied f0 f1 ds ≡ (false, ds))
      ⊎ ((es : Ofile) × (pipe_fds copied f0 f1 ds ≡ (true, es))
          × ((k : ℕ) → count es k ≡ count ds k + (one f0 k + one f1 k)))
unfolding pipe_fds
pipe_fds_lem copied f0 f1 ds = elim (fdalloc_cases f0 ds) [
  | inl full ↦ rw (pipe_fds, full) (inl refl)
  | inr (fd0, es, found0, undone0, adds0) ↦
      rw (pipe_fds, found0)
        (elim (fdalloc_cases f1 es) [
          | inl full ↦ rw (full, undone0) (inl refl)
          | inr (fd1, fs, found1, undone1, adds1) ↦ rw found1 (elim (Bool-cases copied) [
            | inl fine ↦ rw fine (inr (fs, refl, λ k. omega (arith, adds0 k, adds1 k)))
            | inr fault ↦
                let undone : set (set fs fd0 none) fd1 none ≡ ds =
                  set_comm fs fd0 fd1 ∙ ap (λ e. set e fd0 none) undone1 ∙ undone0 in
                rw (fault, undone) (inl refl)
          ])
        ])
]

-- `argfd` finds what the descriptor points to.
argfd_cases :
    (fd : ℤ) (ds : Ofile)
    → (argfd fd ds ≡ none) ⊎ ((n f : ℕ) × (argfd fd ds ≡ some (n, f)) × (pointer ds n ≡ some f))
unfolding argfd
argfd_cases (ℤ.negsuc n) ds = inl refl
argfd_cases (ℤ.pos n) ds = elim (Bool-cases (ltb n nofile)) [
  | inr out ↦ rw out (inl refl)
  | inl within ↦ rw within (elim (Option-cases (pointer ds n)) [
    | inl empty ↦ rw empty (inl refl)
    | inr (f, found) ↦ rw found (inr (n, f, refl, found))
  ])
]

module _ (o : ℕ → ℕ) (ds : Ofile) (t : Table) (h : Counts (λ k. o k + count ds k) t) where
  pub sys_dup-Finishes : (fd : ℤ) → Finishes o (sys_dup fd ds t)
  unfolding sys_dup dup_file
  sys_dup-Finishes fd = elim (argfd_cases fd ds) [
    | inl bad ↦ rw bad (stays o ds t h)
    | inr (n, f, good, e) ↦ rw good (dup_file-Finishes o n f ds t e h)
  ]

  pub sys_close-Finishes : (fd : ℤ) → Finishes o (sys_close fd ds t)
  unfolding sys_close close_file
  sys_close-Finishes fd = elim (argfd_cases fd ds) [
    | inl bad ↦ rw bad (stays o ds t h)
    | inr (n, f, good, e) ↦ rw good (close_file-Finishes o n f ds t e h)
  ]
