-- ===== src/Pipe/Order.antt =====
-- kernel/pipe.c: every interleaving of readers and writers keeps the bytes in order: none is
-- lost, made up, repeated or overtaken inside the buffer.
use os_assignment.Prelude.{
  ℕ, ◌+◌, ◌-◌, ◌≡◌, inl, inr, refl, ap, sym, ◌∙◌, Bool, true, false, ◌&&◌, Option, List, [], ◌∷◌,
  ◌++◌, arith, length, length-append, Bool-cases,
}
use mathlib.Core.List.{append_assoc}
use os_assignment.Pipe.{
  Pipe, is_empty, WriteStop, closed, full, wrote, write_loop, Copied, read_section, read_loop,
  close,
}
use os_assignment.Pipe.Fifo.{IsValid, count, contents, length-contents, fresh-IsValid}
use os_assignment.Pipe.Calls.{Writes, Reads, HoldsBytes, write_loop-Writes, read_loop-Reads}
use os_assignment.Pipe.Threads.{
  Writer, Reader, System, Event, call_write, call_read, run_writer, run_reader, kill_writer,
  kill_reader, close_end, user_bytes, after_write, after_read, write_turn, read_turn, close_turn,
  step, run, start,
}

-- The buffer is sound, and holds what was sent and not yet taken, in order.
pub record InOrder (s : System) : Type 0 where
  pub valid : IsValid s.pipe
  pub queue : s.sent ≡ s.taken ++ contents s.pipe

pub user_bytes_lem :
    (copyin : ℕ → Option ℕ) (addr i : ℕ) (bs : List ℕ)
    → HoldsBytes copyin addr i bs
    → user_bytes copyin addr i (length bs) ≡ bs
user_bytes_lem copyin addr i [] h = refl
user_bytes_lem copyin addr i (b ∷ bs) h = rw (h.0, user_bytes_lem copyin addr (i + 1) bs h.1)

-- What a writer's stretch adds to `sent` is what it has put into the buffer.
sent-Writes :
    {killed : ℕ → Bool} {copyin : ℕ → Option ℕ} {addr left i : ℕ} {p : Pipe}
    {out : WriteStop × Pipe} (sent taken : List ℕ)
    → Writes killed copyin addr left i p out
    → sent ≡ taken ++ contents p
    → sent ++ user_bytes copyin addr i (count out.1 - count p) ≡ taken ++ contents out.1
sent-Writes {copyin} {addr} {i} {p} {out} sent taken w e =
    rw (e, more, user_bytes_lem copyin addr i w.bytes w.from_user, w.appended)
      (append_assoc taken (contents p) w.bytes)
  where
    more : count out.1 - count p ≡ length w.bytes
    more = omega (
      arith,
      length-contents out.1,
      length-contents p,
      ap length w.appended,
      length-append (contents p) w.bytes,
    )

after_write-pipe :
    (j addr n : ℕ) (out : WriteStop × Pipe) (s : System)
    → ((after_write j addr n out s).pipe ≡ out.1)
      × ((after_write j addr n out s).sent ≡ s.sent)
      × ((after_write j addr n out s).taken ≡ s.taken)
unfolding after_write
after_write-pipe j addr n (closed, p) s = (refl, refl, refl)
after_write-pipe j addr n (full i, p) s = (refl, refl, refl)
after_write-pipe j addr n (wrote i, p) s = (refl, refl, refl)

-- The three parts on which `InOrder` depends.
queue-InOrder :
    {s : System} {p : Pipe} {sent taken : List ℕ}
    → (s.pipe ≡ p) × (s.sent ≡ sent) × (s.taken ≡ taken)
    → IsValid p
    → sent ≡ taken ++ contents p
    → InOrder s
queue-InOrder (e, f, g) v q = record { valid = rw e v; queue = rw (e, f, g) q }

write_turn-InOrder :
    (j : ℕ) (killed : ℕ → Bool) (copyin : ℕ → Option ℕ) (w : Writer) {s : System}
    → InOrder s
    → InOrder (write_turn j killed copyin w s)
unfolding write_turn
write_turn-InOrder j killed copyin Writer.idle h = h
write_turn-InOrder j killed copyin (Writer.asleep addr n i) h = h
write_turn-InOrder j killed copyin (Writer.awake addr n i) {s} h =
    queue-InOrder (after_write-pipe j addr n _ _) w.valid (sent-Writes s.sent s.taken w h.queue)
  where
    w : Writes killed copyin addr (n - i) i s.pipe (write_loop killed copyin addr (n - i) i s.pipe)
    w = write_loop-Writes killed copyin addr (n - i) i h.valid

read_section-InOrder :
    (j addr n : ℕ) (was_killed : Bool) (copyout : ℕ → Bool) {s : System}
    → InOrder s
    → InOrder (after_read j addr n (read_section was_killed copyout addr n s.pipe) s)
unfolding after_read read_section
read_section-InOrder j addr n was_killed copyout {s} h =
    elim (Bool-cases (is_empty s.pipe && s.pipe.writeopen)) [
      | inl wait ↦ rw wait (elim (Bool-cases was_killed) [
        | inl dead ↦ rw dead (queue-InOrder (refl, refl, refl) h.valid h.queue)
        | inr alive ↦ rw alive (queue-InOrder (refl, refl, refl) h.valid h.queue)
      ])
      | inr go ↦ rw go (
          queue-InOrder (refl, refl, refl) d.valid
            (h.queue
              ∙ ap (λ xs. s.taken ++ xs)
                  (d.queue ∙ sym (append_assoc r.got r.lost (contents r.pipe)))
              ∙ sym (append_assoc s.taken (r.got ++ r.lost) (contents r.pipe))))
    ]
  where
    r : Copied
    r = read_loop copyout addr n 0 s.pipe

    d : Reads copyout addr n 0 s.pipe (read_loop copyout addr n 0 s.pipe)
    d = read_loop-Reads copyout addr n 0 h.valid

read_turn-InOrder :
    (j : ℕ) (was_killed : Bool) (copyout : ℕ → Bool) (r : Reader) {s : System}
    → InOrder s
    → InOrder (read_turn j was_killed copyout r s)
unfolding read_turn
read_turn-InOrder j was_killed copyout Reader.idle h = h
read_turn-InOrder j was_killed copyout (Reader.asleep addr n) h = h
read_turn-InOrder j was_killed copyout (Reader.awake addr n) h =
    read_section-InOrder j addr n was_killed copyout h

step-InOrder : (e : Event) {s : System} → InOrder s → InOrder (step e s)
unfolding step
step-InOrder (call_write j addr n) h = queue-InOrder (refl, refl, refl) h.valid h.queue
step-InOrder (call_read j addr n) h = queue-InOrder (refl, refl, refl) h.valid h.queue
step-InOrder (run_writer j killed copyin) {s} h = write_turn-InOrder j killed copyin (s.writers j) h
step-InOrder (run_reader j was_killed copyout) {s} h =
    read_turn-InOrder j was_killed copyout (s.readers j) h
step-InOrder (kill_writer j) h = queue-InOrder (refl, refl, refl) h.valid h.queue
step-InOrder (kill_reader j) h = queue-InOrder (refl, refl, refl) h.valid h.queue
step-InOrder (close_end true) h =
    unfold close_turn close in
    queue-InOrder (refl, refl, refl) (omega (arith, h.valid.storage)) h.queue
step-InOrder (close_end false) h =
    unfold close_turn close in
    queue-InOrder (refl, refl, refl) (omega (arith, h.valid.storage)) h.queue

pub start-InOrder : InOrder start
unfolding start
start-InOrder = record { valid = fresh-IsValid; queue = refl }

-- Whatever readers, writers, signals and closes do, and in whatever order the stretches of code
-- under the lock come, this stays true of a pipe: the bytes that writers have put into it are, in
-- order, those that have left the buffer and those still in it, and the counters and the storage
-- are sound.
pub run-InOrder : (es : List Event) {s : System} → InOrder s → InOrder (run es s)
unfolding run
run-InOrder [] h = h
run-InOrder (e ∷ es) {s} h = elim (Bool-cases s.freed) [
  | inl gone ↦ simp gone (run-InOrder es h)
  | inr live ↦ simp live (run-InOrder es (step-InOrder e h))
]
