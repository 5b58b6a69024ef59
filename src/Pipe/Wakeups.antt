-- ===== src/Pipe/Wakeups.antt =====
-- kernel/pipe.c: when a wakeup can be lost, and when not.
use os_assignment.Prelude.{
  ℕ, suc, ◌+◌, ◌-◌, ◌%◌, ◌^◌, ◌<◌, ◌≡◌, inl, inr, refl, Bool, true, false, ◌&&◌, Option, some, List,
  [], ◌∷◌, ◌==◌, arith, Bool-cases, update, update-all,
}
use mathlib.Core.Path.{fun_ext}
use os_assignment.Pipe.{
  Pipe, is_full, is_empty, put_byte, WriteStop, closed, full, wrote, write_loop, read_section,
  read_loop, close,
}
use os_assignment.Pipe.Threads.{
  Writer, Reader, System, Event, call_write, call_read, run_writer, run_reader, kill_writer,
  kill_reader, close_end, after_write, after_read, write_turn, read_turn, close_turn, step, run,
  start, start_writer, start_reader,
}
use os_assignment.Pipe.Rests.{
  WriterRests, ReaderRests, NoneForgotten, wake_writer-Rests, wake_reader-Rests, write_loop-full,
  Settled, write_loop-Settled, rests_same,
}

after_write-NoneForgotten :
    (j addr n : ℕ) (out : WriteStop × Pipe) (sent : List ℕ) {s : System}
    → Settled s.pipe out
    → (is_full s.pipe ≡ true → out.1 ≡ s.pipe)
    → NoneForgotten s
    → NoneForgotten (after_write j addr n out (record s { sent = sent }))
unfolding after_write
after_write-NoneForgotten j addr n (closed, p) sent {s} e same h = record {
  writers_rest =
      update-all (WriterRests p) s.writers j Writer.idle tt
        (λ k. rests_same (s.writers k) same (h.writers_rest k));
  readers_rest = λ k. rw e (h.readers_rest k);
}
after_write-NoneForgotten j addr n (full i, p) sent {s} e same h = record {
  writers_rest =
      update-all (WriterRests p) s.writers j (Writer.asleep addr n i) e
        (λ k. rests_same (s.writers k) same (h.writers_rest k));
  readers_rest = λ k. wake_reader-Rests p (s.readers k);
}
after_write-NoneForgotten j addr n (wrote i, p) sent {s} e same h = record {
  writers_rest =
      update-all (WriterRests p) s.writers j Writer.idle tt
        (λ k. rests_same (s.writers k) same (h.writers_rest k));
  readers_rest = λ k. wake_reader-Rests p (s.readers k);
}

read_section-NoneForgotten :
    (j addr n : ℕ) (was_killed : Bool) (copyout : ℕ → Bool) {s : System}
    → NoneForgotten s
    → NoneForgotten (after_read j addr n (read_section was_killed copyout addr n s.pipe) s)
unfolding after_read read_section
read_section-NoneForgotten j addr n was_killed copyout {s} h =
    elim (Bool-cases (is_empty s.pipe && s.pipe.writeopen)) [
      | inl wait ↦ rw wait (elim (Bool-cases was_killed) [
        | inl dead ↦ rw dead (record {
          writers_rest = h.writers_rest;
          readers_rest = update-all (ReaderRests s.pipe) s.readers j Reader.idle tt h.readers_rest;
        })
        | inr alive ↦ rw alive (record {
          writers_rest = h.writers_rest;
          readers_rest =
              update-all (ReaderRests s.pipe) s.readers j (Reader.asleep addr n) (ground arith)
                h.readers_rest;
        })
      ])
      | inr go ↦ rw go (record {
        writers_rest =
            λ k. wake_writer-Rests (read_loop copyout addr n 0 s.pipe).pipe (s.writers k);
        readers_rest =
            update-all (ReaderRests (read_loop copyout addr n 0 s.pipe).pipe) s.readers j
              Reader.idle tt
              (λ k.
                no_sleeper (read_loop copyout addr n 0 s.pipe).pipe go (s.readers k)
                  (h.readers_rest k));
      })
    ]
  where
    no_sleeper :
        (q : Pipe)
        → (is_empty s.pipe && s.pipe.writeopen) ≡ false
        → (r : Reader) → ReaderRests s.pipe r
        → ReaderRests q r
    no_sleeper q go Reader.idle e = tt
    no_sleeper q go (Reader.awake addr n) e = tt
    no_sleeper q go (Reader.asleep addr n) e = ground arith

write_turn-NoneForgotten :
    (j : ℕ) (dead : Bool) (copyin : ℕ → Option ℕ) (w : Writer) {s : System}
    → NoneForgotten s
    → NoneForgotten (write_turn j (λ k. dead) copyin w s)
unfolding write_turn
write_turn-NoneForgotten j dead copyin Writer.idle h = h
write_turn-NoneForgotten j dead copyin (Writer.asleep addr n i) h = h
write_turn-NoneForgotten j dead copyin (Writer.awake addr n i) {s} h =
    after_write-NoneForgotten j addr n (write_loop (λ k. dead) copyin addr (n - i) i s.pipe) _
      (write_loop-Settled dead copyin addr (n - i) i s.pipe)
      (write_loop-full (λ k. dead) copyin addr (n - i) i s.pipe) h

read_turn-NoneForgotten :
    (j : ℕ) (was_killed : Bool) (copyout : ℕ → Bool) (r : Reader) {s : System}
    → NoneForgotten s
    → NoneForgotten (read_turn j was_killed copyout r s)
unfolding read_turn
read_turn-NoneForgotten j was_killed copyout Reader.idle h = h
read_turn-NoneForgotten j was_killed copyout (Reader.asleep addr n) h = h
read_turn-NoneForgotten j was_killed copyout (Reader.awake addr n) h =
    read_section-NoneForgotten j addr n was_killed copyout h

close_turn-NoneForgotten :
    (writable : Bool) {s : System} → NoneForgotten s → NoneForgotten (close_turn writable s)
unfolding close_turn close
close_turn-NoneForgotten true {s} h = record {
  writers_rest = λ k. rests (s.writers k) (h.writers_rest k);
  readers_rest = λ k. wake_reader-Rests (record s.pipe { writeopen = false }) (s.readers k);
}
  where
    rests :
        (w : Writer) → WriterRests s.pipe w → WriterRests (record s.pipe { writeopen = false }) w
    rests Writer.idle e = tt
    rests (Writer.awake addr n i) e = tt
    rests (Writer.asleep addr n i) e = e
close_turn-NoneForgotten false {s} h = record {
  writers_rest = λ k. wake_writer-Rests (record s.pipe { readopen = false }) (s.writers k);
  readers_rest = λ k. rests (s.readers k) (h.readers_rest k);
}
  where
    rests : (r : Reader) → ReaderRests s.pipe r → ReaderRests (record s.pipe { readopen = false }) r
    rests Reader.idle e = tt
    rests (Reader.awake addr n) e = tt
    rests (Reader.asleep addr n) e = e

start_writer-Rests :
    (p : Pipe) (addr n : ℕ) (w : Writer) → WriterRests p w → WriterRests p (start_writer addr n w)
start_writer-Rests p addr n Writer.idle e = tt
start_writer-Rests p addr n (Writer.awake a m i) e = tt
start_writer-Rests p addr n (Writer.asleep a m i) e = e

start_reader-Rests :
    (p : Pipe) (addr n : ℕ) (r : Reader) → ReaderRests p r → ReaderRests p (start_reader addr n r)
start_reader-Rests p addr n Reader.idle e = tt
start_reader-Rests p addr n (Reader.awake a m) e = tt
start_reader-Rests p addr n (Reader.asleep a m) e = e

-- While a writer's stretch runs, `pr->killed` does not change.
abbrev pub IsSteady : Event → Type 0
IsSteady (run_writer j killed copyin) = (dead : Bool) × ((k : ℕ) → killed k ≡ dead)
IsSteady e = Unit

abbrev pub AllSteady : List Event → Type 0
AllSteady [] = Unit
AllSteady (e ∷ es) = IsSteady e × AllSteady es

set_writer-NoneForgotten :
    (j : ℕ) (w : Writer) {s : System}
    → WriterRests s.pipe w
    → NoneForgotten s
    → NoneForgotten (record s { writers = update s.writers j w })
set_writer-NoneForgotten j w {s} e h = record {
  writers_rest = update-all (WriterRests s.pipe) s.writers j w e h.writers_rest;
  readers_rest = h.readers_rest;
}

set_reader-NoneForgotten :
    (j : ℕ) (r : Reader) {s : System}
    → ReaderRests s.pipe r
    → NoneForgotten s
    → NoneForgotten (record s { readers = update s.readers j r })
set_reader-NoneForgotten j r {s} e h = record {
  writers_rest = h.writers_rest;
  readers_rest = update-all (ReaderRests s.pipe) s.readers j r e h.readers_rest;
}

step-NoneForgotten :
    (e : Event) {s : System} → IsSteady e → NoneForgotten s → NoneForgotten (step e s)
unfolding step
step-NoneForgotten (call_write j addr n) {s} u h =
    set_writer-NoneForgotten j _ (start_writer-Rests s.pipe addr n (s.writers j) (h.writers_rest j))
      h
step-NoneForgotten (call_read j addr n) {s} u h =
    set_reader-NoneForgotten j _ (start_reader-Rests s.pipe addr n (s.readers j) (h.readers_rest j))
      h
step-NoneForgotten (run_writer j killed copyin) {s} u h =
    rw (fun_ext u.1) (write_turn-NoneForgotten j u.0 copyin (s.writers j) h)
step-NoneForgotten (run_reader j was_killed copyout) {s} u h =
    read_turn-NoneForgotten j was_killed copyout (s.readers j) h
step-NoneForgotten (kill_writer j) {s} u h =
    set_writer-NoneForgotten j _ (wake_writer-Rests s.pipe (s.writers j)) h
step-NoneForgotten (kill_reader j) {s} u h =
    set_reader-NoneForgotten j _ (wake_reader-Rests s.pipe (s.readers j)) h
step-NoneForgotten (close_end writable) u h = close_turn-NoneForgotten writable h

pub start-NoneForgotten : NoneForgotten start
unfolding start
start-NoneForgotten = record { writers_rest = λ j. tt; readers_rest = λ j. tt }

-- No lost wakeup. In every interleaving in which no writer's `killed` flag changes during one of
-- its stretches, this stays true: a writer sleeps only while the buffer is full and the read end
-- open, and a reader only while the buffer is empty and the write end open.
pub run-NoneForgotten :
    (es : List Event) {s : System} → AllSteady es → NoneForgotten s → NoneForgotten (run es s)
unfolding run
run-NoneForgotten [] u h = h
run-NoneForgotten (e ∷ es) {s} u h = elim (Bool-cases s.freed) [
  | inl gone ↦ simp gone (run-NoneForgotten es u.1 h)
  | inr live ↦ simp live (run-NoneForgotten es u.1 (step-NoneForgotten e u.0 h))
]

write_loop-killed :
    (addr m i ch : ℕ) (p : Pipe) (killed : ℕ → Bool) (copyin : ℕ → Option ℕ)
    → p.readopen ≡ true
    → (killed i ≡ false) × (killed (i + 1) ≡ true)
    → copyin ((addr + i) % 2 ^ 64) ≡ some ch
    → is_full p ≡ false
    → write_loop killed copyin addr (suc (suc m)) i p ≡ (closed, put_byte p ch)
unfolding write_loop put_byte
write_loop-killed addr m i ch p killed copyin is_open dead mapped room =
    rw (is_open, dead.0, room, mapped, is_open, dead.1)

-- The condition is needed. A writer that is killed between two bytes that it puts into the empty
-- pipe stops as `closed`, for which `pipewrite` returns -1, its call is over, and it wakes nobody: a
-- reader that slept on the empty pipe sleeps on, beside a byte.
pub killed_writer-leaves_reader :
    (s : System) (j k addr n i ch : ℕ) (killed : ℕ → Bool) (copyin : ℕ → Option ℕ)
    → s.writers j ≡ Writer.awake addr n i
    → i + 1 < n
    → s.pipe.readopen ≡ true
    → (killed i ≡ false) × (killed (i + 1) ≡ true)
    → copyin ((addr + i) % 2 ^ 64) ≡ some ch
    → s.pipe.nwrite < 2 ^ 32
    → is_empty s.pipe ≡ true
    → let t = step (run_writer j killed copyin) s in
      ((write_loop killed copyin addr (n - i) i s.pipe).0 ≡ closed)
      × (t.writers j ≡ Writer.idle)
      × (t.readers k ≡ s.readers k)
      × (is_empty t.pipe ≡ false)
unfolding step write_turn after_write
killed_writer-leaves_reader s j k addr n i ch killed copyin w left is_open dead mapped word held =
    rw
      (
        w,
        two_left,
        write_loop-killed addr (n - i - 2) i ch s.pipe killed copyin is_open dead mapped
            (ground arith),
      )
      (
        refl,
        (let self : (j == j) ≡ true = ground arith in rw self refl),
        refl,
        unfold put_byte in ground arith,
      )
  where
    two_left : n - i ≡ suc (suc (n - i - 2))
    two_left = omega arith
