-- ===== src/Files/PipeFiles.antt =====
-- kernel/pipe.c: the two files of a new pipe.
use os_assignment.Prelude.{ℕ, ◌+◌, ◌<◌, ◌≡◌, refl, ap, inl, inr, ◌==◌, arith, update, Bool-cases}
use os_assignment.Prelude.Outcome.{ok, ◌>>=◌}
use os_assignment.Files.{File, Table, give_up, set_ends}
use os_assignment.Files.Counts.{one, Counts, fileclose-Counts}

pub give_up-Counts :
    {held : ℕ → ℕ} {t : Table} (f : ℕ)
    → Counts (λ k. held k + one f k) t
    → (u : Table) × (give_up f t ≡ ok u) × Counts held u
give_up-Counts {t} f h =
    let (c, closed, h') = fileclose-Counts f h in (c.1, ap (λ r. r >>= λ x. ok x.1) closed, h')

-- A file that is referred to becomes the end of a pipe, or an open inode.
pub set_file :
    {held : ℕ → ℕ} {t : Table} (f : ℕ) (x : File)
    → x.ref ≡ (t f).ref
    → 0 < held f
    → Counts held t
    → Counts held (update t f x)
set_file {held} {t} f x same_ref live h = record {
  counted = λ k. elim (Bool-cases (k == f)) [
    | inl same ↦ ground (arith, same, same_ref, h.counted f)
    | inr other ↦ ground (arith, other, h.counted k)
  ];
  free = λ k z. elim (Bool-cases (k == f)) [
    | inl same ↦ absurd (ground (arith, same, z, live))
    | inr other ↦ rw other (h.free k z)
  ];
}

-- Both files become ends of the pipe.
pub set_ends-Counts :
    {held : ℕ → ℕ} {t : Table} (pi f0 f1 : ℕ)
    → 0 < held f0
    → 0 < held f1
    → Counts held t
    → Counts held (set_ends pi f0 f1 t)
set_ends-Counts pi f0 f1 live0 live1 h = set_file f1 _ refl live1 (set_file f0 _ refl live0 h)
