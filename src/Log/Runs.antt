-- ===== src/Log/Runs.antt =====
-- kernel/log.c: what a whole commit and a whole recovery do.
use os_assignment.Prelude.{
  ℕ, ◌+◌, ◌-◌, ◌<◌, ◌≤◌, ◌≡◌, ◌⊎◌, inl, inr, refl, sym, ap, ◌∙◌, Bool, true, false, List, [], ◌∷◌,
  ◌++◌, arith, ltb, length,
}
use mathlib.Core.Path.{subst}
use mathlib.Core.List.{append_assoc}
use os_assignment.Log.{
  Disk, DiskWrite, put_head, apply_write, apply_writes, Machine, Log, write_head, read_head,
  install_from, install_trans, write_log, commit, recover_from_log, init_log,
}
use os_assignment.Log.Writes.{
  apply_writes-append, home_writes, slot_writes, SlotsHold, IsHome, AllHome, installed,
  apply-home_writes,
}
use os_assignment.Log.Copy.{
  Agree-refl, Logs, write_log_from-Logs, count, Installs, install_from-Installs,
}

-- A disk that recovery can deal with: the blocks named in the header lie outside the log, whose
-- slots hold the contents `f` for them.
pub record IsRecoverable (start size : ℕ) (f : ℕ → ℕ) (d : Disk) : Type 0 where
  pub all_home : AllHome start size d.head
  pub room : 1 + length d.head ≤ size
  pub slots : SlotsHold f d.sector (start + 1) d.head

install_trans-Installs :
    (recovering : Bool) (f : ℕ → ℕ) (start size : ℕ) (bs : List ℕ) (m : Machine)
    → m.log.start ≡ start
    → m.log.lh ≡ bs
    → 1 + length bs ≤ size
    → AllHome start size bs
    → SlotsHold f m.cache (start + 1) bs
    → Installs recovering f bs m (install_trans recovering m)
unfolding install_trans
install_trans-Installs recovering f start size bs m e lh l a h =
    subst (λ l. Installs recovering f bs m (install_from recovering 0 l m)) (sym lh)
      (install_from-Installs recovering f start 0 (start + 1) size bs m e (omega arith)
        (omega arith) a h)

-- What a boot makes of a recoverable disk.
pub record Recovers (f : ℕ → ℕ) (d : Disk) (m : Machine) : Type 0 where
  pub trace : m.trace ≡ home_writes f d.head ++ (put_head [] ∷ [])
  pub head : m.disk.head ≡ []
  pub sectors : (x : ℕ) → m.disk.sector x ≡ installed f d.head d.sector x
  pub nothing_logged : m.log.lh ≡ []

pub init_log-Recovers :
    (start size : ℕ) (f : ℕ → ℕ) (d : Disk)
    → IsRecoverable start size f d
    → Recovers f d (init_log start size d)
unfolding init_log recover_from_log read_head write_head
init_log-Recovers start size f d h = record {
  trace = ap (λ t. t ++ (put_head [] ∷ [])) i.trace;
  head = refl;
  sectors = λ x. ap (λ (e : Disk). e.sector x) i.disk ∙ (apply-home_writes f d.head d).1 x;
  nothing_logged = refl;
}
  where
    booted : Machine
    booted = read_head (record {
      log = record { start = start; size = size; outstanding = 0; committing = false; lh = [] };
      disk = d;
      cache = d.sector;
      pins = λ b. 0;
      trace = [];
    })

    i : Installs true f d.head booted (install_trans true booted)
    i = install_trans-Installs true f start size d.head booted refl refl h.room h.all_home h.slots

-- What `commit` may be called with: the logged blocks lie outside the log and fit into it, and the
-- header on the disk is empty.
pub record CanCommit (m : Machine) : Type 0 where
  pub all_home : AllHome m.log.start m.log.size m.log.lh
  pub room : 1 + length m.log.lh ≤ m.log.size
  pub clean : m.disk.head ≡ []

-- The writes of a commit of the blocks `bs` with contents `f`.
abbrev pub commit_writes : (f : ℕ → ℕ) (start : ℕ) → List ℕ → List DiskWrite
commit_writes f start bs =
    slot_writes f (start + 1) bs ++ (put_head bs ∷ (home_writes f bs ++ (put_head [] ∷ [])))

pub record Commits (m m' : Machine) : Type 0 where
  pub trace : m'.trace ≡ m.trace ++ commit_writes m.cache m.log.start m.log.lh
  pub disk : m'.disk ≡ apply_writes (commit_writes m.cache m.log.start m.log.lh) m.disk
  pub log : m'.log ≡ record m.log { lh = [] }
  pub head : m'.disk.head ≡ []
  pub cache : (x : ℕ) → IsHome m.log.start m.log.size x → m'.cache x ≡ m.cache x
  pub pins : (x : ℕ) → m'.pins x ≡ m.pins x - count x m.log.lh

pub parts :
    (f : ℕ → ℕ) (start : ℕ) (bs : List ℕ) (d : Disk)
    → apply_writes (commit_writes f start bs) d
      ≡ apply_write (put_head []) (
          apply_writes
            (home_writes f bs)
            (apply_write (put_head bs) (apply_writes (slot_writes f (start + 1) bs) d)))
parts f start bs d =
    apply_writes-append (slot_writes f (start + 1) bs) _ d
    ∙ apply_writes-append (home_writes f bs) (put_head [] ∷ []) _

pub commit-Commits :
    (m : Machine) → CanCommit m → ltb 0 (length m.log.lh) ≡ true → Commits m (commit m)
unfolding commit write_log write_head
commit-Commits m c some_logged = rw some_logged (record {
  trace =
      ap (λ t. t ++ (put_head [] ∷ []))
        (i.trace ∙ ap (λ t. t ++ home_writes m.cache m.log.lh) at_trace)
      ∙ simp append_assoc;
  disk =
      ap (apply_write (put_head []))
        (i.disk ∙ ap (apply_writes (home_writes m.cache m.log.lh)) at_head)
      ∙ sym (parts m.cache m.log.start m.log.lh m.disk);
  head = refl;
  log = ap (λ (k : Log). record k { lh = [] }) (i.log ∙ l.log);
  cache = λ x o. i.cache x ∙ ground (arith, l.outside x (not_slot x o));
  pins = λ x. i.pins x ∙ ap (λ (k : ℕ → ℕ). k x - count x m.log.lh) l.pins;
})
  where
    l : Logs m.cache (m.log.start + 1) m.log.lh m (write_log m)
    l =
        write_log_from-Logs m.cache 0 (m.log.start + 1) m.log.size m.log.lh m (omega arith)
          (omega (arith, c.room)) c.all_home (Agree-refl m.cache m.log.lh)

    not_slot :
        (x : ℕ)
        → IsHome m.log.start m.log.size x
        → (x < m.log.start + 1) ⊎ (m.log.start + 1 + length m.log.lh ≤ x)
    not_slot x (inl o) = inl (omega arith)
    not_slot x (inr o) = inr (omega (arith, c.room))

    headed : Machine
    headed = write_head (write_log m)

    at_head :
        headed.disk
        ≡ apply_write
            (put_head m.log.lh)
            (apply_writes (slot_writes m.cache (m.log.start + 1) m.log.lh) m.disk)
    at_head = simp (l.disk, l.log)

    at_trace :
        headed.trace
        ≡ m.trace ++ (slot_writes m.cache (m.log.start + 1) m.log.lh ++ (put_head m.log.lh ∷ []))
    at_trace = simp (l.trace, l.log, append_assoc)

    i : Installs false m.cache m.log.lh headed (install_trans false headed)
    i =
        install_trans-Installs false m.cache m.log.start m.log.size m.log.lh headed
          (ap (λ (k : Log). k.start) l.log) (ap (λ (k : Log). k.lh) l.log) c.room c.all_home l.slots

-- The disk after a boot, outside the log.
abbrev pub rebooted : (start size : ℕ) → Disk → Disk
rebooted start size d = (init_log start size d).disk

-- The header is empty, so nothing is installed.
pub recovers_nothing :
    (start size : ℕ) (d : Disk)
    → 1 ≤ size
    → d.head ≡ []
    → (x : ℕ) → (rebooted start size d).sector x ≡ d.sector x
recovers_nothing start size d l e x =
    (init_log-Recovers start size (λ b. 0) d r).sectors x
    ∙ ap (λ bs. installed (λ b. 0) bs d.sector x) e
  where
    r : IsRecoverable start size (λ b. 0) d
    r = rw e (record { all_home = tt; room = l; slots = tt })
