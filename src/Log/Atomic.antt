-- ===== src/Log/Atomic.antt =====
-- kernel/log.c: a crash at any moment of a commit or of a recovery loses the transaction whole or
-- keeps it whole.
use os_assignment.Prelude.{
  ℕ, zero, suc, ◌+◌, ◌<◌, ◌≤◌, ◌≡◌, ◌⊎◌, inl, inr, refl, ap, ◌∙◌, true, List, [], ◌∷◌, ◌++◌, arith,
  ltb, if◌then◌else◌, length, Bool-cases,
}
use os_assignment.Log.{Disk, put_head, apply_write, apply_writes, logged, Machine, commit, init_log}
use os_assignment.Log.Writes.{
  crash, crash-append, home_writes, slot_writes, IsHome, AllHome, installed, crash-slot_writes,
  crash-home_writes, crash-home_writes-SlotsHold, crash_all, apply-slot_writes, apply-home_writes,
}
use os_assignment.Log.Runs.{
  IsRecoverable, init_log-Recovers, CanCommit, commit_writes, commit-Commits, rebooted,
  recovers_nothing,
}

-- The slots in use are part of the log.
pub AllHome-slots :
    (start size : ℕ) (bs cs : List ℕ)
    → 1 + length cs ≤ size
    → AllHome start size bs
    → AllHome (start + 1) (length cs) bs
AllHome-slots start size [] cs l h = tt
AllHome-slots start size (b ∷ bs) cs l (inl o, h) =
    (inl (omega arith), AllHome-slots start size bs cs l h)
AllHome-slots start size (b ∷ bs) cs l (inr o, h) =
    (inr (omega arith), AllHome-slots start size bs cs l h)

pub crash-nil : (k : ℕ) (d : Disk) → crash k [] d ≡ d
crash-nil zero d = refl
crash-nil (suc k) d = refl

module _ (f : ℕ → ℕ) (start size : ℕ) (bs : List ℕ) (d : Disk) (home : AllHome start size bs)
    (room : 1 + length bs ≤ size) (clean : d.head ≡ []) where
  -- After a reboot on `c` every block outside the log has its old contents, or every one its new.
  abbrev Old : Disk → Type 0
  Old c = (x : ℕ) → IsHome start size x → (rebooted start size c).sector x ≡ d.sector x

  abbrev New : Disk → Type 0
  New c =
      (x : ℕ) → IsHome start size x → (rebooted start size c).sector x ≡ installed f bs d.sector x

  abbrev pub slots_written : Disk
  slots_written = apply_writes (slot_writes f (start + 1) bs) d

  abbrev pub head_written : Disk
  head_written = apply_write (put_head bs) slots_written

  not_slot : (x : ℕ) → IsHome start size x → (x < start + 1) ⊎ (start + 1 + length bs ≤ x)
  not_slot x (inl o) = inl (omega arith)
  not_slot x (inr o) = inr (omega arith)

  before_head : (j : ℕ) → Old (crash j (slot_writes f (start + 1) bs) d)
  before_head j x o =
      let (h, s) = crash-slot_writes j f (start + 1) bs d in
      recovers_nothing start size (crash j (slot_writes f (start + 1) bs) d) (omega arith)
        (h ∙ clean) x
      ∙ s x (not_slot x o)

  all_slots : Old slots_written
  all_slots =
      rw (crash_all (slot_writes f (start + 1) bs) d)
        (before_head (length (slot_writes f (start + 1) bs)))

  pub slots_only : (x : ℕ) → IsHome start size x → slots_written.sector x ≡ d.sector x
  slots_only x o = rw (crash_all (slot_writes f (start + 1) bs) d) (
      (crash-slot_writes (length (slot_writes f (start + 1) bs)) f (start + 1) bs d).1 x
        (not_slot x o))

  while_installing : (j : ℕ) → New (crash j (home_writes f bs) head_written)
  while_installing j x o =
      (init_log-Recovers start size f c recoverable).sectors x
      ∙ ap (λ cs. installed f cs c.sector x) h
      ∙ s x
      ∙ ap (λ v. if logged x bs then f x else v) (slots_only x o)
    where
      c : Disk
      c = crash j (home_writes f bs) head_written

      h : (crash j (home_writes f bs) head_written).head ≡ bs
      h = (crash-home_writes j f bs head_written).0

      s :
          (x : ℕ)
          → installed f bs (crash j (home_writes f bs) head_written).sector x
            ≡ installed f bs slots_written.sector x
      s = (crash-home_writes j f bs head_written).1

      recoverable : IsRecoverable start size f (crash j (home_writes f bs) head_written)
      recoverable = record {
        all_home = rw h home;
        room = rw h room;
        slots = rw h (
            crash-home_writes-SlotsHold j f f (start + 1) (length bs) bs bs head_written
              (AllHome-slots start size bs bs room home) (omega arith)
              (apply-slot_writes f (start + 1) bs d));
      }

  all_installed : New (apply_writes (home_writes f bs) head_written)
  all_installed =
      rw (crash_all (home_writes f bs) head_written) (while_installing (length (home_writes f bs)))

  cleared : New (apply_write (put_head []) (apply_writes (home_writes f bs) head_written))
  cleared x o =
      recovers_nothing start size
        (apply_write (put_head []) (apply_writes (home_writes f bs) head_written)) (omega arith)
        refl x
      ∙ (apply-home_writes f bs head_written).1 x
      ∙ ap (λ v. if logged x bs then f x else v) (slots_only x o)

  after_head : (j : ℕ) → New (crash j (home_writes f bs ++ (put_head [] ∷ [])) head_written)
  after_head j = elim (crash-append j (home_writes f bs) (put_head [] ∷ []) head_written) [
    | inl (i, e) ↦ rw e (while_installing i)
    | inr (zero, e) ↦ rw e all_installed
    | inr (suc i, e) ↦ rw (e, crash-nil) cleared
  ]

  crash-commit_writes :
      (k : ℕ)
      → Old (crash k (commit_writes f start bs) d) ⊎ New (crash k (commit_writes f start bs) d)
  crash-commit_writes k =
      elim (crash-append k (slot_writes f (start + 1) bs)
        (put_head bs ∷ (home_writes f bs ++ (put_head [] ∷ []))) d) [
          | inl (j, e) ↦ inl (rw e (before_head j))
          | inr (zero, e) ↦ inl (rw e all_slots)
          | inr (suc j, e) ↦ inr (rw e (after_head j))
        ]

-- Crash atomicity of `commit`. Stop the machine after any number of the disk writes of a commit,
-- and boot it again: either every block outside the log has the contents from before the
-- transaction, or every block outside the log has those from after it, the contents of the buffer
-- cache for the logged blocks. Conditions: the header on the disk was empty, the logged blocks lie
-- outside the log and fit into it.
pub commit-atomic :
    (m : Machine) (k : ℕ)
    → CanCommit m
    → m.trace ≡ []
    → let d = (init_log m.log.start m.log.size (crash k (commit m).trace m.disk)).disk in
      ((x : ℕ) → IsHome m.log.start m.log.size x → d.sector x ≡ m.disk.sector x)
      ⊎ ((x : ℕ)
          → IsHome m.log.start m.log.size x
          → d.sector x ≡ installed m.cache m.log.lh m.disk.sector x)
commit-atomic m k c none_yet = elim (Bool-cases (ltb 0 (length m.log.lh))) [
  | inl some_logged ↦ rw (some_trace some_logged) (
      crash-commit_writes m.cache m.log.start m.log.size m.log.lh m.disk c.all_home c.room c.clean
        k)
  | inr none_logged ↦ inl (
      unfold commit in
      rw (none_logged, none_yet, crash-nil)
        (λ x o. recovers_nothing m.log.start m.log.size m.disk (omega (arith, c.room)) c.clean x))
]
  where
    some_trace :
        ltb 0 (length m.log.lh) ≡ true
        → (commit m).trace ≡ commit_writes m.cache m.log.start m.log.lh
    some_trace some_logged =
        (commit-Commits m c some_logged).trace
        ∙ ap (λ t. t ++ commit_writes m.cache m.log.start m.log.lh) none_yet
