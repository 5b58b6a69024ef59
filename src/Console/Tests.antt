-- ===== src/Console/Tests.antt =====
-- Runs of the model of kernel/console.c, and its theorems at concrete inputs.
use os_assignment.Prelude.{ℕ, ◌≡◌, refl, Bool, true, false, List, [], ◌∷◌, arith}
use os_assignment.Console.{
  consoleintr, kill_line, erase, store, consputc, read_loop, fresh, asleep, returned,
}
use os_assignment.Console.Ring.{IsValid, ready, line, fresh-IsValid}
use os_assignment.Console.Readers.{
  Event, key, call, turn, run, step, start, after_key, after_read, reader_turn,
}
use os_assignment.Console.Session.{session}
use os_assignment.Console.Refines.{seen, run-Refines, run-IsValid}
use os_assignment.Console.Sleepers.{AllRest, run-AllRest}

abbrev writable : ℕ → Bool
writable a = true

-- A reader waits, "ax" is typed, the x rubbed out, and "b" and a carriage return end the line.
abbrev typed : List Event
typed =
    call 0 100 10
    ∷ turn 0 false writable
    ∷ key b'a'
    ∷ key b'x'
    ∷ key 127
    ∷ key b'b'
    ∷ key b'\r'
    ∷ turn 0 false writable
    ∷ []

line_read :
    (run typed start).turns
    ≡ record { reader = 0; got = []; lost = []; stop = asleep 100 10 }
      ∷ record { reader = 0; got = b'a' ∷ b'b' ∷ b'\n' ∷ []; lost = []; stop = returned 3 }
      ∷ []
unfolding run step start fresh after_key after_read reader_turn consoleintr kill_line erase store
    consputc read_loop
line_read = refl

-- Control-U rubs out a line.
killed_line : line (run (key b'a' ∷ key b'b' ∷ key 21 ∷ key b'c' ∷ []) start).console ≡ b'c' ∷ []
unfolding run step start fresh after_key after_read reader_turn consoleintr kill_line erase store
    consputc read_loop
killed_line = refl

start-IsValid : IsValid start.console
unfolding start
start-IsValid = fresh-IsValid

run-Refines_example : seen (run typed start) ≡ session typed (seen start)
run-Refines_example = run-Refines typed start (omega arith) start-IsValid

run-IsValid_example : IsValid (run typed start).console
run-IsValid_example = run-IsValid typed start (omega arith) start-IsValid

run-AllRest_example : AllRest (ready (run typed start).console) (run typed start).readers
run-AllRest_example = run-AllRest typed (omega arith)
