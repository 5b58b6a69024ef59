-- ===== src/Console/Refines.antt =====
-- kernel/console.c: any schedule of keys and readers, as readers see it.
use os_assignment.Prelude.{
  ℕ, ◌<◌, ◌≡◌, refl, ap, ◌∙◌, Bool, List, [], ◌∷◌, ◌++◌, if◌then◌else◌, update,
}
use os_assignment.Console.{Console, consoleintr, Taken, read_loop}
use os_assignment.Console.Ring.{IsValid, ready}
use os_assignment.Console.Editor as Editor
use os_assignment.Console.Editor.{Editor, Read, read}
use os_assignment.Console.Keys.{view}
use os_assignment.Console.Store.{Does}
use os_assignment.Console.Edits.{consoleintr-Does}
use os_assignment.Console.Reads.{Agrees, read_loop-Agrees}
use os_assignment.Console.Readers.{
  Reader, Turn, idle, waiting, running, wake, System, Event, key, call, kill, turn, after_stop,
  after_read, after_key, reader_turn, step, run,
}
use os_assignment.Console.Session.{
  Session, grew, after_edit, after_take, session_turn, session_step, session,
}

-- Keys are bytes.
abbrev pub IsByte : Event → Type 0
IsByte (key c) = c < 256
IsByte (call j dst n) = Unit
IsByte (kill j) = Unit
IsByte (turn j was_killed copyout) = Unit

abbrev pub AllBytes : List Event → Type 0
AllBytes [] = Unit
AllBytes (v ∷ vs) = IsByte v × AllBytes vs

abbrev pub seen : System → Session
seen s = record { editor = view s.console; readers = s.readers; turns = s.turns }

session_of : Editor → (ℕ → Reader) → List Turn → Session
session_of d r t = record { editor = d; readers = r; turns = t }

module _ (s : System) (out : Bool × Console) (d : Editor) (h : Does d s.console out) where
  after_key-seen : seen (after_key out s) ≡ after_edit d (seen s)
  unfolding after_key session_of
  after_key-seen = rw h.wakes (
      ap
        (λ x.
          session_of x
            (λ k. if grew (view s.console) (view out.1) then wake (s.readers k) else s.readers k)
            s.turns)
        h.viewed
      ∙ ap
          (λ x.
            session_of d (λ k. if grew (view s.console) x then wake (s.readers k) else s.readers k)
              s.turns)
          h.viewed)

  after_key-IsValid : IsValid (after_key out s).console
  unfolding after_key
  after_key-IsValid = h.valid

module _ (s : System) (j target : ℕ) (x : Taken) (y : Read) (h : Agrees x y s.console) where
  after_read-seen : seen (after_read j target x s) ≡ after_take j target y (seen s)
  unfolding after_read session_of
  after_read-seen =
      rw (h.stop, h.got, h.lost)
        (ap
          (λ d.
            session_of d (update s.readers j (after_stop target y.stop))
              (s.turns ++ (record { reader = j; got = y.got; lost = y.lost; stop = y.stop } ∷ [])))
          h.viewed)

  after_read-IsValid : IsValid (after_read j target x s).console
  unfolding after_read
  after_read-IsValid = h.valid

turn-seen :
    (j : ℕ) (was_killed : Bool) (copyout : ℕ → Bool) (r : Reader) (s : System)
    → IsValid s.console
    → (seen (reader_turn j was_killed copyout r s) ≡ session_turn j was_killed copyout r (seen s))
      × IsValid (reader_turn j was_killed copyout r s).console
unfolding reader_turn
turn-seen j was_killed copyout idle s v = (refl, v)
turn-seen j was_killed copyout (waiting target left dst) s v = (refl, v)
turn-seen j was_killed copyout (running target left dst) s v =
    let h : Agrees (read_loop was_killed copyout target left dst s.console)
        (read was_killed copyout target left dst (ready s.console)) s.console =
      read_loop-Agrees was_killed copyout target left dst s.console v in
    (after_read-seen s j target _ _ h, after_read-IsValid s j target _ _ h)

step-seen :
    (v : Event) (s : System)
    → IsByte v
    → IsValid s.console
    → (seen (step v s) ≡ session_step v (seen s)) × IsValid (step v s).console
unfolding step
step-seen (key c) s byte v =
    let h : Does (Editor.key c (view s.console)) s.console (consoleintr c s.console) =
      consoleintr-Does c s.console byte v in
    (after_key-seen s _ _ h, after_key-IsValid s _ _ h)
step-seen (call j dst n) s byte v = (refl, v)
step-seen (kill j) s byte v = (refl, v)
step-seen (turn j was_killed copyout) s byte v = turn-seen j was_killed copyout (s.readers j) s v

-- Whatever keys and readers do, in any order, the ring behaves as the line editor and a sequence of
-- characters that are ready: turn by turn, the same characters reach the same reader in the same
-- order, the same are lost, and the read ends in the same way, with the same count; the screen
-- shows the same, and the same readers sleep.
pub run-Refines :
    (vs : List Event) (s : System)
    → AllBytes vs
    → IsValid s.console
    → seen (run vs s) ≡ session vs (seen s)
unfolding run
run-Refines [] s bytes v = refl
run-Refines (e ∷ vs) s bytes v =
    let (viewed, valid) = step-seen e s bytes.0 v in
    run-Refines vs (step e s) bytes.1 valid ∙ ap (session vs) viewed

-- The three indices, which wrap round, stay in the order read, write, edit, and at most INPUT_BUF
-- characters are held.
pub run-IsValid :
    (vs : List Event) (s : System) → AllBytes vs → IsValid s.console → IsValid (run vs s).console
unfolding run
run-IsValid [] s bytes v = v
run-IsValid (e ∷ vs) s bytes v = run-IsValid vs (step e s) bytes.1 (step-seen e s bytes.0 v).1
