-- ===== src/Pipe/Rests.antt =====
-- kernel/pipe.c: why threads sleep on a pipe, and what a stretch of `pipewrite` does to the reasons.
use os_assignment.Prelude.{
  ℕ, zero, suc, ◌+◌, ◌%◌, ◌^◌, ◌≡◌, ◌≢◌, inl, inr, refl, Bool, true, false, not, ◌||◌, Option,
  arith, Bool-cases, Option-cases,
}
use os_assignment.Pipe.{
  Pipe, is_full, is_empty, put_byte, WriteStop, closed, full, wrote, write_loop,
}
use os_assignment.Pipe.Threads.{Writer, Reader, wake_writer, wake_reader, System}

-- A sleeper has a reason to sleep: a writer's is a full buffer whose reader lives, a reader's is an
-- empty buffer whose writer lives.
abbrev pub WriterRests : Pipe → Writer → Type 0
WriterRests p (Writer.asleep addr n i) = (is_full p ≡ true) × (p.readopen ≡ true)
WriterRests p w = Unit

abbrev pub ReaderRests : Pipe → Reader → Type 0
ReaderRests p (Reader.asleep addr n) = (is_empty p ≡ true) × (p.writeopen ≡ true)
ReaderRests p r = Unit

pub record NoneForgotten (s : System) : Type 0 where
  pub writers_rest : (j : ℕ) → WriterRests s.pipe (s.writers j)
  pub readers_rest : (j : ℕ) → ReaderRests s.pipe (s.readers j)

pub wake_writer-Rests : (p : Pipe) (w : Writer) → WriterRests p (wake_writer w)
wake_writer-Rests p Writer.idle = tt
wake_writer-Rests p (Writer.awake addr n i) = tt
wake_writer-Rests p (Writer.asleep addr n i) = tt

pub wake_reader-Rests : (p : Pipe) (r : Reader) → ReaderRests p (wake_reader r)
wake_reader-Rests p Reader.idle = tt
wake_reader-Rests p (Reader.awake addr n) = tt
wake_reader-Rests p (Reader.asleep addr n) = tt

-- A writer that finds the buffer full leaves it as it is.
pub write_loop-full :
    (killed : ℕ → Bool) (copyin : ℕ → Option ℕ) (addr left i : ℕ) (p : Pipe)
    → is_full p ≡ true
    → (write_loop killed copyin addr left i p).1 ≡ p
unfolding write_loop
write_loop-full killed copyin addr zero i p h = refl
write_loop-full killed copyin addr (suc left) i p h =
    elim (Bool-cases (not p.readopen || killed i)) [ inl e ↦ rw e | inr e ↦ rw (e, h) ]

-- What the ways to stop say of the pipe, if `pr->killed` stays as it is during the stretch.
abbrev pub Settled : Pipe → WriteStop × Pipe → Type 0
Settled p (closed, p') = p' ≡ p
Settled p (full i, p') = (is_full p' ≡ true) × (p'.readopen ≡ true)
Settled p (wrote i, p') = Unit

pub Settled-put_byte :
    (p q : Pipe) (out : WriteStop × Pipe) → out.0 ≢ closed → Settled q out → Settled p out
Settled-put_byte p q (closed, p') ne h = absurd (ne refl)
Settled-put_byte p q (full i, p') ne h = h
Settled-put_byte p q (wrote i, p') ne h = h

pub write_loop-open :
    (dead : Bool) (copyin : ℕ → Option ℕ) (addr left i : ℕ) (p : Pipe)
    → (not p.readopen || dead) ≡ false
    → (write_loop (λ k. dead) copyin addr left i p).0 ≢ closed
unfolding write_loop put_byte
write_loop-open dead copyin addr zero i p h = λ e. cc
write_loop-open dead copyin addr (suc left) i p h = elim (Bool-cases (is_full p)) [
  | inl f ↦ rw (h, f) (λ e. cc)
  | inr f ↦
      rw (h, f)
        (elim (Option-cases (copyin ((addr + i) % 2 ^ 64))) [
          | inl n ↦ rw n (λ e. cc)
          | inr (ch, s) ↦ rw s (write_loop-open dead copyin addr left (i + 1) (put_byte p ch) h)
        ])
]

pub write_loop-Settled :
    (dead : Bool) (copyin : ℕ → Option ℕ) (addr left i : ℕ) (p : Pipe)
    → Settled p (write_loop (λ k. dead) copyin addr left i p)
unfolding write_loop
write_loop-Settled dead copyin addr zero i p = tt
write_loop-Settled dead copyin addr (suc left) i p = elim (Bool-cases (not p.readopen || dead)) [
  | inl h ↦ rw h refl
  | inr h ↦ rw h (elim (Bool-cases (is_full p)) [
    | inl f ↦ rw f (f, ground arith)
    | inr f ↦ rw f (elim (Option-cases (copyin ((addr + i) % 2 ^ 64))) [
      | inl n ↦ rw n tt
      | inr (ch, s) ↦ rw s (
          Settled-put_byte p (put_byte p ch) _
            (write_loop-open dead copyin addr left (i + 1) (put_byte p ch) (unfold put_byte in h))
            (write_loop-Settled dead copyin addr left (i + 1) (put_byte p ch)))
    ])
  ])
]

-- A sleeping writer's reason outlasts another writer's stretch, which finds the buffer full.
pub rests_same :
    {p q : Pipe} (w : Writer) → (is_full p ≡ true → q ≡ p) → WriterRests p w → WriterRests q w
rests_same Writer.idle same h = tt
rests_same (Writer.awake addr n i) same h = tt
rests_same {p} {q} (Writer.asleep addr n i) same h = rw (same h.0) h
