-- ===== src/Grep/Tests.antt =====
-- Runs of the model of user/grep.c, and its theorems at concrete inputs.
use os_assignment.Prelude.{ℕ, ◌≡◌, ◌↔◌, refl, true, false, List, [], ◌∷◌, arith}
use os_assignment.Grep.{
  match, match_from, match_here, match_star, match_char, grep, print_lines, find_newline,
}
use os_assignment.Grep.Language.{Matches}
use os_assignment.Grep.Matcher.{match_iff}
use os_assignment.Grep.Lines.{unlines, selected, grep_lem}

-- ^ab*c$
abbrev pattern : List ℕ
pattern = b'^' ∷ b'a' ∷ b'b' ∷ b'*' ∷ b'c' ∷ b'$' ∷ []

match_stars : match pattern (b'a' ∷ b'b' ∷ b'b' ∷ b'c' ∷ []) ≡ true
unfolding match match_here match_star match_char
match_stars = refl

match_anchored : match pattern (b'a' ∷ b'c' ∷ b'c' ∷ []) ≡ false
unfolding match match_here match_star match_char
match_anchored = refl

match_iff_example :
    (match (b'b' ∷ b'*' ∷ b'c' ∷ []) (b'a' ∷ b'c' ∷ []) ≡ true)
    ↔ Matches (b'b' ∷ b'*' ∷ b'c' ∷ []) (b'a' ∷ b'c' ∷ [])
match_iff_example = match_iff (b'b' ∷ b'*' ∷ b'c' ∷ []) (b'a' ∷ b'c' ∷ [])

-- "ab" and "xc", in three pieces, with an "a" that no newline ends.
abbrev pieces : List (List ℕ)
pieces = (b'a' ∷ []) ∷ (b'b' ∷ b'\n' ∷ b'x' ∷ []) ∷ (b'c' ∷ b'\n' ∷ b'a' ∷ []) ∷ []

abbrev two_lines : List (List ℕ)
two_lines = (b'a' ∷ b'b' ∷ []) ∷ (b'x' ∷ b'c' ∷ []) ∷ []

matching_pieces : grep (b'b' ∷ []) pieces [] ≡ b'a' ∷ b'b' ∷ b'\n' ∷ []
unfolding grep print_lines find_newline match match_from match_here match_char
matching_pieces = refl

grep_lem_example : grep (b'b' ∷ []) pieces [] ≡ unlines (selected (b'b' ∷ []) two_lines)
grep_lem_example =
    grep_lem (b'b' ∷ []) pieces two_lines (b'a' ∷ []) (omega arith) (omega arith) refl
