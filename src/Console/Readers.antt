-- ===== src/Console/Readers.antt =====
-- kernel/console.c: keys and any number of readers, in any order.
use os_assignment.Prelude.{ℕ, Bool, List, [], ◌∷◌, ◌++◌, if◌then◌else◌, update}
use os_assignment.Console.{
  Console, fresh, consoleintr, ReadStop, killed, asleep, returned, Taken, read_loop,
}

-- A thread in `consoleread`, with its `target`, `n` and `dst`.
pub data Reader : Type 0 where
  idle : Reader
  waiting : (target left dst : ℕ) → Reader  -- asleep on `cons.r`
  running : (target left dst : ℕ) → Reader

abbrev pub wake : Reader → Reader
wake idle = idle
wake (waiting target left dst) = running target left dst
wake (running target left dst) = running target left dst

-- What a turn of a reader did: the characters that reached it, those that left the ring and did not,
-- and how it ended, with the count that `consoleread` returns.
pub record Turn : Type 0 where
  pub reader : ℕ
  pub got : List ℕ
  pub lost : List ℕ
  pub stop : ReadStop

-- The console, its readers, and, observed only, the turns that they have had.
pub record System : Type 0 where
  pub console : Console
  pub readers : ℕ → Reader
  pub turns : List Turn

pub data Event : Type 0 where
  key : (c : ℕ) → Event  -- `consoleintr(c)`
  call : (j dst n : ℕ) → Event  -- reader `j` calls `consoleread`
  kill : (j : ℕ) → Event  -- `kill` makes reader `j` runnable
  turn : (j : ℕ) → (was_killed : Bool) → (copyout : ℕ → Bool) → Event  -- `j` gets the lock

-- A call begins, unless the reader is in one.
abbrev pub enter_call : (dst n : ℕ) → Reader → Reader
enter_call dst n idle = running n n dst
enter_call dst n (waiting target left dst') = waiting target left dst'
enter_call dst n (running target left dst') = running target left dst'

abbrev pub after_stop : (target : ℕ) → ReadStop → Reader
after_stop target killed = idle
after_stop target (asleep dst left) = waiting target left dst
after_stop target (returned n) = idle

unfoldable pub after_read : (j target : ℕ) → Taken → System → System
after_read j target x s = record {
  console = x.console;
  readers = update s.readers j (after_stop target x.stop);
  turns = s.turns ++ (record { reader = j; got = x.got; lost = x.lost; stop = x.stop } ∷ []);
}

unfoldable pub reader_turn : (j : ℕ) → Bool → (ℕ → Bool) → Reader → System → System
unfolding after_read
reader_turn j was_killed copyout idle s = s
reader_turn j was_killed copyout (waiting target left dst) s = s
reader_turn j was_killed copyout (running target left dst) s =
    after_read j target (read_loop was_killed copyout target left dst s.console) s

unfoldable pub after_key : Bool × Console → System → System
after_key (woken, console) s = record s {
  console = console;
  readers = λ k. if woken then wake (s.readers k) else s.readers k;
}

unfoldable pub step : Event → System → System
unfolding after_key reader_turn consoleintr
step (key c) s = after_key (consoleintr c s.console) s
step (call j dst n) s = record s { readers = update s.readers j (enter_call dst n (s.readers j)) }
step (kill j) s = record s { readers = update s.readers j (wake (s.readers j)) }
step (turn j was_killed copyout) s = reader_turn j was_killed copyout (s.readers j) s

unfoldable pub run : List Event → System → System
unfolding step
run [] s = s
run (v ∷ vs) s = run vs (step v s)

-- After `consoleinit`.
unfoldable pub start : System
unfolding fresh
start = record { console = fresh; readers = λ j. idle; turns = [] }
