-- ===== src/Shell/Tests.antt =====
-- Runs of the model of user/sh.c, and its theorems at concrete inputs.
use os_assignment.Prelude.{ℕ, ◌≡◌, ◌≢◌, refl, [], ◌∷◌, arith}
use os_assignment.Shell.{gettoken, token_at, peek}
use os_assignment.Shell.Parser.{
  ok, syntax, out_of_fuel, exec, parse_cmd, parse_line, parse_redirs, parse_args, parse_backs,
  finish,
}
use os_assignment.Shell.Fuel.{parse_cmd-ends}
use os_assignment.Shell.Printer.{
  Line, last, then_line, single, piped, simple, block, Arg, from, into, print_line, line_cmd,
  IsLine,
}
use os_assignment.Shell.Complete.{parse_cmd-print}

abbrev plain : ℕ → Arg
plain c = record { text = c ∷ []; targets = [] }

-- (a b;c)>f|d&;e<g
abbrev sample : Line
sample =
    then_line
      (piped
        (block
          (then_line (single (simple [] (plain b'a' ∷ plain b'b' ∷ []))) 0
            (last (single (simple [] (plain b'c' ∷ []))) 0))
          (record { arrow = into; file = b'f' ∷ [] } ∷ []))
        (single (simple [] (plain b'd' ∷ []))))
      1
      (last
        (single (
          simple [] (
            record { text = b'e' ∷ []; targets = record { arrow = from; file = b'g' ∷ [] } ∷ [] }
            ∷ [])))
        0)

sample-IsLine : IsLine sample
unfolding IsLine
sample-IsLine = ground arith

parse_cmd-print_example : parse_cmd (print_line sample []) ≡ ok (line_cmd sample)
parse_cmd-print_example = parse_cmd-print sample sample-IsLine

parse_cmd-ends_example : parse_cmd (b'(' ∷ b'a' ∷ b';' ∷ []) ≢ out_of_fuel
parse_cmd-ends_example = parse_cmd-ends (b'(' ∷ b'a' ∷ b';' ∷ [])

-- A parenthesis that is not closed, and one that was not opened.
parse_open : parse_cmd (b'(' ∷ b'a' ∷ []) ≡ syntax
unfolding parse_cmd parse_line parse_redirs parse_args parse_backs finish gettoken token_at peek
parse_open = refl

parse_leftovers : parse_cmd (b'a' ∷ b')' ∷ []) ≡ syntax
unfolding parse_cmd parse_line parse_redirs parse_args parse_backs finish gettoken token_at peek
parse_leftovers = refl

parse_empty : parse_cmd (b' ' ∷ []) ≡ ok (exec [])
unfolding parse_cmd parse_line parse_redirs parse_args parse_backs finish gettoken token_at peek
parse_empty = refl
