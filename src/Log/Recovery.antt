-- ===== src/Log/Recovery.antt =====
-- kernel/log.c: recovery can be interrupted, and a commit that is not interrupted writes its blocks
-- home and unpins them.
use os_assignment.Prelude.{
  ℕ, zero, suc, ◌+◌, ◌-◌, ◌≡◌, inl, inr, refl, sym, ap, ◌∙◌, true, [], ◌∷◌, ◌++◌, arith, ltb,
  if◌then◌else◌, length,
}
use os_assignment.Log.{
  Disk, put_head, apply_write, apply_writes, logged, Log, Machine, commit, init_log,
}
use os_assignment.Log.Writes.{
  crash, crash-append, home_writes, IsHome, installed, crash-home_writes,
  crash-home_writes-SlotsHold, crash_all, apply-home_writes,
}
use os_assignment.Log.Copy.{count}
use os_assignment.Log.Runs.{
  IsRecoverable, Recovers, init_log-Recovers, CanCommit, Commits, commit-Commits, rebooted,
  recovers_nothing, parts,
}
use os_assignment.Log.Atomic.{AllHome-slots, crash-nil, slots_only, head_written}

module _ (start size : ℕ) (f : ℕ → ℕ) (d : Disk) (r : IsRecoverable start size f d) where
  -- What a boot makes of block `x`.
  abbrev Same : Disk → Type 0
  Same c = (x : ℕ) → (rebooted start size c).sector x ≡ installed f d.head d.sector x

  during : (j : ℕ) → Same (crash j (home_writes f d.head) d)
  during j x =
      (init_log-Recovers start size f c recoverable).sectors x
      ∙ ap (λ cs. installed f cs c.sector x) h
      ∙ s x
    where
      c : Disk
      c = crash j (home_writes f d.head) d

      h : (crash j (home_writes f d.head) d).head ≡ d.head
      h = (crash-home_writes j f d.head d).0

      s :
          (x : ℕ)
          → installed f d.head (crash j (home_writes f d.head) d).sector x
            ≡ installed f d.head d.sector x
      s = (crash-home_writes j f d.head d).1

      recoverable : IsRecoverable start size f (crash j (home_writes f d.head) d)
      recoverable = record {
        all_home = rw h r.all_home;
        room = rw h r.room;
        slots = rw h (
            crash-home_writes-SlotsHold j f f (start + 1) (length d.head) d.head d.head d
              (AllHome-slots start size d.head d.head r.room r.all_home) (omega arith) r.slots);
      }

  all_done : Same (apply_writes (home_writes f d.head) d)
  all_done = rw (crash_all (home_writes f d.head) d) (during (length (home_writes f d.head)))

  cleared : Same (apply_write (put_head []) (apply_writes (home_writes f d.head) d))
  cleared x =
      recovers_nothing start size
        (apply_write (put_head []) (apply_writes (home_writes f d.head) d)) (omega (arith, r.room))
        refl x
      ∙ (apply-home_writes f d.head d).1 x

  interrupted : (j : ℕ) → Same (crash j (home_writes f d.head ++ (put_head [] ∷ [])) d)
  interrupted j = elim (crash-append j (home_writes f d.head) (put_head [] ∷ []) d) [
    | inl (i, e) ↦ rw e (during i)
    | inr (zero, e) ↦ rw e all_done
    | inr (suc i, e) ↦ rw (e, crash-nil) cleared
  ]

  -- Recovery may itself crash. Stop it after any number of its disk writes and boot again: every
  -- block of the disk ends up as recovery without the crash would have left it, which is with the
  -- logged contents at the blocks that the header names.
  pub init_log-restartable :
      (j x : ℕ)
      → let c = crash j (init_log start size d).trace d in
        ((init_log start size c).disk.sector x ≡ (init_log start size d).disk.sector x)
        × ((init_log start size d).disk.sector x ≡ installed f d.head d.sector x)
  init_log-restartable j x =
      (rw whole.trace (interrupted j x) ∙ sym (whole.sectors x), whole.sectors x)
    where
      whole : Recovers f d (init_log start size d)
      whole = init_log-Recovers start size f d r

-- A commit of at least one block, not interrupted: outside the log, the disk then has the contents
-- of the buffer cache at the logged blocks, and its old contents elsewhere; the header on the disk
-- and the list of logged blocks are empty; the cache is unchanged outside the log; and each block
-- has been unpinned as often as it was logged.
pub commit_lem :
    (m : Machine)
    → CanCommit m
    → ltb 0 (length m.log.lh) ≡ true
    → ((x : ℕ)
        → IsHome m.log.start m.log.size x
        → ((commit m).disk.sector x ≡ installed m.cache m.log.lh m.disk.sector x)
          × ((commit m).cache x ≡ m.cache x))
      × ((commit m).disk.head ≡ [])
      × ((commit m).log.lh ≡ [])
      × ((x : ℕ) → (commit m).pins x ≡ m.pins x - count x m.log.lh)
commit_lem m c some_logged = (
  λ x o. (
    ap (λ (e : Disk). e.sector x) whole
        ∙ (apply-home_writes m.cache m.log.lh written).1 x
        ∙ ap (λ v. if logged x m.log.lh then m.cache x else v)
            (slots_only m.cache m.log.start m.log.size m.log.lh m.disk c.all_home c.room c.clean x
              o),
    r.cache x o,
  ),
  ap (λ (e : Disk). e.head) whole,
  ap (λ (k : Log). k.lh) r.log,
  r.pins,
)
  where
    r : Commits m (commit m)
    r = commit-Commits m c some_logged

    written : Disk
    written = head_written m.cache m.log.start m.log.size m.log.lh m.disk c.all_home c.room c.clean

    whole :
        (commit m).disk
        ≡ apply_write (put_head []) (apply_writes (home_writes m.cache m.log.lh) written)
    whole = r.disk ∙ parts m.cache m.log.start m.log.lh m.disk
