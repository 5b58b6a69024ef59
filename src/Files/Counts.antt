-- ===== src/Files/Counts.antt =====
-- kernel/file.c: reference counts against the references there are.
use os_assignment.Prelude.{
  ℕ, zero, suc, ◌+◌, ◌-◌, ◌<◌, ◌≡◌, refl, ◌∙◌, inl, inr, ◌⊎◌, true, false, Option, none, some, [],
  ◌∷◌, ◌==◌, ltb, arith, if◌then◌else◌, update, Bool-cases,
}
use os_assignment.Prelude.Outcome.{Outcome, ok}
use os_assignment.Files.{
  nfile, fd_none, Table, with_ref, filealloc_from, filealloc, filedup, Release, fileclose,
}
use os_assignment.Files.Descriptors.{Ofile}

-- One reference to `f`, by file.
abbrev pub one : ℕ → ℕ → ℕ
one f k = if k == f then 1 else 0

abbrev pub refers : Option ℕ → ℕ → ℕ
refers none k = 0
refers (some f) k = one f k

-- The references in the open files of a process.
abbrev pub count : Ofile → ℕ → ℕ
count [] k = 0
count (d ∷ ds) k = refers d k + count ds k

-- The table counts the references `held`, and a file without references is free.
pub record Counts (held : ℕ → ℕ) (t : Table) : Type 0 where
  pub counted : (k : ℕ) → (t k).ref ≡ held k
  pub free : (k : ℕ) → held k ≡ 0 → (t k).kind ≡ fd_none

-- The result of an operation after which the references are `held`.
abbrev pub GoesOn {ℓ} : {A : Type ℓ} → (A → (ℕ → ℕ) × Table) → Outcome A → Type ℓ
GoesOn {A} now r = (a : A) × (r ≡ ok a) × Counts (now a).0 (now a).1

pub recount :
    {held held' : ℕ → ℕ} {t : Table} → ((k : ℕ) → held k ≡ held' k) → Counts held t → Counts held' t
recount e h = record { counted = λ k. h.counted k ∙ e k; free = λ k z. h.free k (e k ∙ z) }

module _ {held : ℕ → ℕ} {t : Table} (h : Counts held t) where
  -- A file that was free gets its first reference.
  first_ref :
      (i : ℕ)
      → ((t i).ref == 0) ≡ true
      → Counts (λ k. held k + one i k) (update t i (with_ref 1 (t i)))
  first_ref i e = record {
    counted = λ k. elim (Bool-cases (k == i)) [
      | inl same ↦ ground (arith, same, e, h.counted i)
      | inr other ↦ ground (arith, other, h.counted k)
    ];
    free = λ k z. elim (Bool-cases (k == i)) [
      | inl same ↦ absurd (ground (arith, same, z))
      | inr other ↦ rw other (h.free k (ground (arith, z)))
    ];
  }

  filealloc_from-Counts :
      (left i : ℕ)
      → (filealloc_from left i t ≡ (none, t))
        ⊎ ((f : ℕ) × (u : Table) × (filealloc_from left i t ≡ (some f, u))
            × Counts (λ k. held k + one f k) u)
  unfolding filealloc_from
  filealloc_from-Counts zero i = inl refl
  filealloc_from-Counts (suc left) i = elim (Bool-cases ((t i).ref == 0)) [
    | inl free ↦ rw free (inr (i, _, refl, first_ref i free))
    | inr used ↦ rw used (filealloc_from-Counts left (i + 1))
  ]

  pub filealloc-Counts :
      (filealloc t ≡ (none, t))
      ⊎ ((f : ℕ) × (u : Table) × (filealloc t ≡ (some f, u)) × Counts (λ k. held k + one f k) u)
  unfolding filealloc
  filealloc-Counts = filealloc_from-Counts nfile 0

  pub filedup-Counts :
      (f : ℕ) → 0 < held f → (u : Table) × (filedup f t ≡ ok u) × Counts (λ k. held k + one f k) u
  unfolding filedup
  filedup-Counts f some_left =
      let live : ltb (t f).ref 1 ≡ false = ground (arith, h.counted f, some_left) in
      rw live (
        _,
        refl,
        record {
          counted = λ k. elim (Bool-cases (k == f)) [
            | inl same ↦ ground (arith, same, h.counted f)
            | inr other ↦ ground (arith, other, h.counted k)
          ];
          free = λ k z. elim (Bool-cases (k == f)) [
            | inl same ↦ absurd (ground (arith, same, z))
            | inr other ↦ rw other (h.free k (ground (arith, z)))
          ];
        },
      )

pub fileclose-Counts :
    {held : ℕ → ℕ} {t : Table} (f : ℕ)
    → Counts (λ k. held k + one f k) t
    → (c : Release × Table) × (fileclose f t ≡ ok c) × Counts held c.1
unfolding fileclose
fileclose-Counts {held} {t} f h =
    let live : ltb (t f).ref 1 ≡ false = ground (arith, h.counted f) in
    rw live (elim (Bool-cases (ltb 0 ((t f).ref - 1))) [
      | inl more ↦ rw more (
        _,
        refl,
        record {
          counted = λ k. elim (Bool-cases (k == f)) [
            | inl same ↦ ground (arith, same, h.counted f)
            | inr other ↦ ground (arith, other, h.counted k)
          ];
          free = λ k z. elim (Bool-cases (k == f)) [
            | inl same ↦ absurd (ground (arith, same, z, more, h.counted f))
            | inr other ↦ rw other (h.free k (ground (arith, z, other)))
          ];
        },
      )
      | inr last ↦ rw last (
        _,
        refl,
        record {
          counted = λ k. elim (Bool-cases (k == f)) [
            | inl same ↦ ground (arith, same, last, h.counted f)
            | inr other ↦ ground (arith, other, h.counted k)
          ];
          free = λ k z. elim (Bool-cases (k == f)) [
            | inl same ↦ rw same refl
            | inr other ↦ rw other (h.free k (ground (arith, z, other)))
          ];
        },
      )
    ])
