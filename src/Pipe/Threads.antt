-- ===== src/Pipe/Threads.antt =====
-- kernel/pipe.c with `sleep` and `wakeup` of kernel/proc.c: any number of threads that read and
-- write one pipe, a stretch under the lock at a time.
use os_assignment.Prelude.{
  ℕ, zero, suc, ◌+◌, ◌-◌, ◌%◌, ◌^◌, Bool, true, false, Option, none, some, List, [], ◌∷◌, ◌++◌,
  update, if◌then◌else◌,
}
use os_assignment.Pipe.{
  Pipe, fresh, WriteStop, closed, full, wrote, write_loop, ReadStop, read, read_section, close,
}
use os_assignment.Pipe.Fifo.{count}

-- A thread in `pipewrite(pi, addr, n)`, with its `i`. `awake`: it runs, or waits for the lock.
pub data Writer : Type 0 where
  idle : Writer
  awake asleep : (addr n i : ℕ) → Writer

-- A thread in `piperead(pi, addr, n)`.
pub data Reader : Type 0 where
  idle : Reader
  awake asleep : (addr n : ℕ) → Reader

-- `wakeup(&pi->nwrite)` and `wakeup(&pi->nread)`, on one thread.
abbrev pub wake_writer : Writer → Writer
wake_writer (Writer.asleep addr n i) = Writer.awake addr n i
wake_writer w = w

abbrev pub wake_reader : Reader → Reader
wake_reader (Reader.asleep addr n) = Reader.awake addr n
wake_reader r = r

pub record System : Type 0 where
  pub pipe : Pipe
  pub freed : Bool
  pub writers : ℕ → Writer
  pub readers : ℕ → Reader
  -- Observed only: all bytes that writers have put, and all that have left the buffer.
  pub sent : List ℕ
  pub taken : List ℕ

-- What happens next, with what the thread reads of the world outside the pipe.
pub data Event : Type 0 where
  call_write : (j addr n : ℕ) → Event
  call_read : (j addr n : ℕ) → Event
  run_writer : (j : ℕ) → (killed : ℕ → Bool) → (copyin : ℕ → Option ℕ) → Event
  run_reader : (j : ℕ) → (was_killed : Bool) → (copyout : ℕ → Bool) → Event
  kill_writer : (j : ℕ) → Event  -- `kill` makes a sleeping thread runnable
  kill_reader : (j : ℕ) → Event
  close_end : (writable : Bool) → Event

-- The `k` bytes of the user's memory from `addr + i` on.
abbrev pub user_bytes : (ℕ → Option ℕ) → (addr i k : ℕ) → List ℕ
user_bytes copyin addr i zero = []
user_bytes copyin addr i (suc k) =
    elim (copyin ((addr + i) % 2 ^ 64)) [ none ↦ 0 | some b ↦ b ] ∷ user_bytes copyin addr (i + 1) k

unfoldable pub after_write : (j addr n : ℕ) → WriteStop × Pipe → System → System
after_write j addr n (closed, p) s = record s { pipe = p; writers = update s.writers j Writer.idle }
after_write j addr n (full i, p) s = record s {
  pipe = p;
  readers = λ k. wake_reader (s.readers k);
  writers = update s.writers j (Writer.asleep addr n i);
}
after_write j addr n (wrote i, p) s = record s {
  pipe = p;
  readers = λ k. wake_reader (s.readers k);
  writers = update s.writers j Writer.idle;
}

unfoldable pub after_read : (j addr n : ℕ) → ReadStop → System → System
after_read j addr n ReadStop.killed s = record s { readers = update s.readers j Reader.idle }
after_read j addr n ReadStop.empty s = record s {
  readers = update s.readers j (Reader.asleep addr n);
}
after_read j addr n (read r) s = record s {
  pipe = r.pipe;
  readers = update s.readers j Reader.idle;
  writers = λ k. wake_writer (s.writers k);
  taken = s.taken ++ (r.got ++ r.lost);
}

unfoldable pub write_turn : ℕ → (ℕ → Bool) → (ℕ → Option ℕ) → Writer → System → System
unfolding after_write
write_turn j killed copyin (Writer.awake addr n i) s =
    let out = write_loop killed copyin addr (n - i) i s.pipe in
    after_write j addr n out
      (record s { sent = s.sent ++ user_bytes copyin addr i (count out.1 - count s.pipe) })
write_turn j killed copyin w s = s

unfoldable pub read_turn : ℕ → Bool → (ℕ → Bool) → Reader → System → System
unfolding after_read
read_turn j was_killed copyout (Reader.awake addr n) s =
    after_read j addr n (read_section was_killed copyout addr n s.pipe) s
read_turn j was_killed copyout r s = s

-- `pipeclose` with its wakeup.
unfoldable pub close_turn : Bool → System → System
close_turn true s =
    let (p, gone) = close true s.pipe in
    record s { pipe = p; freed = gone; readers = λ k. wake_reader (s.readers k) }
close_turn false s =
    let (p, gone) = close false s.pipe in
    record s { pipe = p; freed = gone; writers = λ k. wake_writer (s.writers k) }

abbrev pub start_writer : (addr n : ℕ) → Writer → Writer
start_writer addr n Writer.idle = Writer.awake addr n 0
start_writer addr n w = w

abbrev pub start_reader : (addr n : ℕ) → Reader → Reader
start_reader addr n Reader.idle = Reader.awake addr n
start_reader addr n r = r

unfoldable pub step : Event → System → System
unfolding write_turn read_turn close_turn
step (call_write j addr n) s = record s {
  writers = update s.writers j (start_writer addr n (s.writers j));
}
step (call_read j addr n) s = record s {
  readers = update s.readers j (start_reader addr n (s.readers j));
}
step (run_writer j killed copyin) s = write_turn j killed copyin (s.writers j) s
step (run_reader j was_killed copyout) s = read_turn j was_killed copyout (s.readers j) s
step (kill_writer j) s = record s { writers = update s.writers j (wake_writer (s.writers j)) }
step (kill_reader j) s = record s { readers = update s.readers j (wake_reader (s.readers j)) }
step (close_end writable) s = close_turn writable s

-- The run ends when the page is freed.
unfoldable pub run : List Event → System → System
unfolding step
run [] s = s
run (e ∷ es) s = run es (if s.freed then s else step e s)

-- A pipe that nobody uses yet.
unfoldable pub start : System
unfolding fresh
start = record {
  pipe = fresh;
  freed = false;
  writers = λ j. Writer.idle;
  readers = λ j. Reader.idle;
  sent = [];
  taken = [];
}
