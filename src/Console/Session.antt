-- ===== src/Console/Session.antt =====
-- What readers of the console see: the line editor, and reads from the characters that are ready.
use os_assignment.Prelude.{ℕ, Bool, not, List, [], ◌∷◌, ◌++◌, ◌==◌, length, if◌then◌else◌, update}
use os_assignment.Console.Editor as Editor
use os_assignment.Console.Editor.{Editor, Read, read}
use os_assignment.Console.Readers.{
  Reader, Turn, idle, waiting, running, wake, Event, key, call, kill, turn, enter_call, after_stop,
}

pub record Session : Type 0 where
  pub editor : Editor
  pub readers : ℕ → Reader
  pub turns : List Turn

abbrev pub grew : Editor → Editor → Bool
grew d d' = not (length d'.ready == length d.ready)

abbrev pub after_edit : Editor → Session → Session
after_edit d s = record s {
  editor = d;
  readers = λ k. if grew s.editor d then wake (s.readers k) else s.readers k;
}

abbrev pub after_take : (j target : ℕ) → Read → Session → Session
after_take j target x s = record {
  editor = record s.editor { ready = x.rest };
  readers = update s.readers j (after_stop target x.stop);
  turns = s.turns ++ (record { reader = j; got = x.got; lost = x.lost; stop = x.stop } ∷ []);
}

abbrev pub session_turn : (j : ℕ) → Bool → (ℕ → Bool) → Reader → Session → Session
session_turn j was_killed copyout idle s = s
session_turn j was_killed copyout (waiting target left dst) s = s
session_turn j was_killed copyout (running target left dst) s =
    after_take j target (read was_killed copyout target left dst s.editor.ready) s

abbrev pub session_step : Event → Session → Session
session_step (key c) s = after_edit (Editor.key c s.editor) s
session_step (call j dst n) s = record s {
  readers = update s.readers j (enter_call dst n (s.readers j));
}
session_step (kill j) s = record s { readers = update s.readers j (wake (s.readers j)) }
session_step (turn j was_killed copyout) s = session_turn j was_killed copyout (s.readers j) s

abbrev pub session : List Event → Session → Session
session [] s = s
session (v ∷ vs) s = session vs (session_step v s)
