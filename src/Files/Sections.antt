-- ===== src/Files/Sections.antt =====
-- kernel/sysfile.c, kernel/pipe.c, kernel/proc.c: a critical section of a call keeps the reference counts
-- right.
use os_assignment.Prelude.{
  ℕ, zero, suc, ◌+◌, ◌<◌, ◌≡◌, refl, inl, inr, Bool, true, Option, none, some, [], ◌∷◌, ◌++◌, arith,
  replicate,
}
use os_assignment.Prelude.Outcome.{Outcome, ok, ◌>>=◌}
use os_assignment.Files.{Table, set_ends}
use os_assignment.Files.Descriptors.{Ofile, Done}
use os_assignment.Files.Counts.{refers, count, Counts, recount, filealloc-Counts, filedup-Counts}
use os_assignment.Files.PipeFiles.{give_up-Counts, set_ends-Counts}
use os_assignment.Files.Calls.{
  Finishes, sys_dup-Finishes, sys_close-Finishes, open_inode-Finishes, pipe_fds_lem,
}
use os_assignment.Files.Processes.{
  Work, idle, opening, one_end, both_ends, closing, copying, exiting, Process, Call, open_file, dup,
  close, pipe, fork, exit, no_files, call_done, begin_call, continue, is_live, is_idle,
}
use os_assignment.Files.Refs.{counted, kept, refs, Has, IsGood}

-- A section ends, with the right counts, for the references `o` of other processes.
abbrev pub Goes : (o : ℕ → ℕ) → Outcome (Process × Table) → Type 0
Goes o r = (y : Process × Table) × (r ≡ ok y) × Counts (λ k. o k + refs y.0 k) y.1 × IsGood y.0

count_none : (n k : ℕ) → count (replicate n none) k ≡ 0
count_none zero k = refl
count_none (suc n) k = omega (arith, count_none n k)

count-append_one :
    (ds : Ofile) (d : Option ℕ) (k : ℕ) → count (ds ++ (d ∷ [])) k ≡ count ds k + refers d k
count-append_one [] d k = omega arith
count-append_one (e ∷ ds) d k = omega (arith, count-append_one ds d k)

pub idle_lem : (w : Work) → is_idle w ≡ true → w ≡ idle
idle_lem idle e = refl
idle_lem (opening f kind ip r w) e = absurd (cc)
idle_lem (one_end f0) e = absurd (cc)
idle_lem (both_ends f0 f1) e = absurd (cc)
idle_lem (closing fs) e = absurd (cc)
idle_lem (copying q todo filled) e = absurd (cc)
idle_lem (exiting todo) e = absurd (cc)

module _ (o : ℕ → ℕ) (x : Process) (t : Table) (running : is_live x.slot ≡ true)
    (h : Counts (λ k. o k + refs x k) t) where
  -- The process runs on, with these files and in this call.
  going_on :
      (ds : Ofile) (w : Work) (u : Table)
      → Has w ds
      → Counts (λ k. o k + (count ds k + kept w k)) u
      → Goes o (ok (record x { ofile = ds; work = w }, u))
  going_on ds w u has c =
      (_, refl, c, record { has = has; clean = λ dead. absurd (cc (running, dead)) })

  done_with : (r : Outcome Done) → Finishes o r → Goes o (r >>= λ d. ok (call_done x d))
  done_with r (d, e, c) = rw e (going_on d.ofile idle d.table tt (recount (λ k. omega arith) c))

  pub begin_call-Goes : (c : Call) → x.work ≡ idle → Goes o (begin_call c x t)
  unfolding begin_call
  begin_call-Goes (open_file kind ip r w) none_yet =
      let c : Counts (λ k. o k + count x.ofile k) t = recount (λ k. rw none_yet (omega arith)) h in
      elim (filealloc-Counts c) [
        | inl full ↦ rw full (
          (x, t),
          refl,
          h,
          record { has = rw none_yet tt; clean = λ dead. absurd (cc (running, dead)) },
        )
        | inr (f, u, found, c') ↦
            rw found (going_on x.ofile (opening f kind ip r w) u tt (recount (λ k. omega arith) c'))
      ]
  begin_call-Goes (dup fd) none_yet =
      let c : Counts (λ k. o k + count x.ofile k) t = recount (λ k. rw none_yet (omega arith)) h in
      done_with _ (sys_dup-Finishes o x.ofile t c fd)
  begin_call-Goes (close fd) none_yet =
      let c : Counts (λ k. o k + count x.ofile k) t = recount (λ k. rw none_yet (omega arith)) h in
      done_with _ (sys_close-Finishes o x.ofile t c fd)
  begin_call-Goes pipe none_yet =
      let c : Counts (λ k. o k + count x.ofile k) t = recount (λ k. rw none_yet (omega arith)) h in
      elim (filealloc-Counts c) [
        | inl full ↦ rw full (
          (x, t),
          refl,
          h,
          record { has = rw none_yet tt; clean = λ dead. absurd (cc (running, dead)) },
        )
        | inr (f, u, found, c') ↦
            rw found (going_on x.ofile (one_end f) u tt (recount (λ k. omega arith) c'))
      ]
  begin_call-Goes (fork q) none_yet =
      let c : Counts (λ k. o k + count x.ofile k) t = recount (λ k. rw none_yet (omega arith)) h in
      going_on x.ofile (copying q x.ofile []) t (λ k. omega arith) (recount (λ k. omega arith) c)
  begin_call-Goes exit none_yet =
      let c : Counts (λ k. o k + count x.ofile k) t = recount (λ k. rw none_yet (omega arith)) h in
      going_on no_files (exiting x.ofile) t (count_none 16)
        (recount (λ k. omega (arith, count_none 16 k)) c)

  pub continue-Goes :
      (page : Option ℕ) (copied : Bool) (w : Work)
      → x.work ≡ w
      → Has w x.ofile
      → Counts (λ k. o k + (count x.ofile k + kept w k)) t
      → Goes o (continue page copied w x t)
  unfolding continue
  continue-Goes page copied idle e has c =
      ((x, t), refl, h, record { has = rw e tt; clean = λ dead. absurd (cc (running, dead)) })
  continue-Goes page copied (opening f kind ip r w) e has c =
      done_with _ (open_inode-Finishes o kind ip r w f x.ofile t (recount (λ k. omega arith) c))
  continue-Goes page copied (one_end f0) e has c = elim (filealloc-Counts c) [
    | inl full ↦ rw full (going_on x.ofile (closing (f0 ∷ [])) t tt (recount (λ k. omega arith) c))
    | inr (f1, u, found, c') ↦
        rw found (going_on x.ofile (both_ends f0 f1) u tt (recount (λ k. omega arith) c'))
  ]
  continue-Goes none copied (both_ends f0 f1) e has c =
      going_on x.ofile (closing (f0 ∷ f1 ∷ [])) t tt (recount (λ k. omega arith) c)
  continue-Goes (some pi) copied (both_ends f0 f1) e has c =
      let ends = set_ends-Counts pi f0 f1 (ground arith) (ground arith) c in
      elim (pipe_fds_lem copied f0 f1 x.ofile) [
        | inl fails ↦ rw fails (
            going_on x.ofile (closing (f0 ∷ f1 ∷ [])) (set_ends pi f0 f1 t) tt
              (recount (λ k. omega arith) ends))
        | inr (es, fine, adds) ↦
            rw fine (
              going_on es idle (set_ends pi f0 f1 t) tt (recount (λ k. omega (arith, adds k)) ends))
      ]
  continue-Goes page copied (closing []) e has c = going_on x.ofile idle t tt c
  continue-Goes page copied (closing (f ∷ fs)) e has c =
      let (u, closed, c') =
        give_up-Counts {held = λ k. o k + (count x.ofile k + counted fs k)} f
          (recount (λ k. omega arith) c) in
      rw closed (going_on x.ofile (closing fs) u tt c')
  continue-Goes page copied (copying q [] filled) e has c = (
    (x, t),
    refl,
    h,
    record { has = rw e (λ k. omega arith); clean = λ dead. absurd (cc (running, dead)) },
  )
  continue-Goes page copied (copying q (none ∷ ds) filled) e has c =
      going_on x.ofile (copying q ds (filled ++ (none ∷ []))) t (λ k. omega (arith, has k))
        (recount (λ k. omega (arith, count-append_one filled none k)) c)
  continue-Goes page copied (copying q (some f ∷ ds) filled) e has c =
      let some_left : 0 < o f + (count x.ofile f + count filled f) = ground (arith, has f) in
      let (u, more, c') = filedup-Counts c f some_left in
      rw more (
        going_on x.ofile (copying q ds (filled ++ (some f ∷ []))) u (λ k. omega (arith, has k))
          (recount (λ k. omega (arith, count-append_one filled (some f) k)) c'))
  continue-Goes page copied (exiting []) e has c =
      (_, refl, c, record { has = tt; clean = λ dead k. omega (arith, has k) })
  continue-Goes page copied (exiting (none ∷ ds)) e has c =
      going_on x.ofile (exiting ds) t has (recount (λ k. omega arith) c)
  continue-Goes page copied (exiting (some f ∷ ds)) e has c =
      let (u, closed, c') =
        give_up-Counts {held = λ k. o k + (count x.ofile k + count ds k)} f
          (recount (λ k. omega arith) c) in
      rw closed (going_on x.ofile (exiting ds) u has c')
