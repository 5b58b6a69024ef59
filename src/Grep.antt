-- ===== src/Grep.antt =====
-- user/grep.c: the matcher of patterns, and the loop that reads lines and prints those that match.
-- A text is the list of its characters up to the NUL.
pub mod Language
pub mod Matcher
pub mod Lines
mod Tests
use os_assignment.Prelude.{
  ℕ, zero, suc, ◌+◌, ◌-◌, Bool, true, false, not, ◌&&◌, ◌||◌, Option, none, some, List, [], ◌∷◌,
  ◌++◌, ◌==◌, length, if◌then◌else◌,
}

abbrev pub is_end : List ℕ → Bool
is_end [] = true
is_end (t ∷ ts) = false

-- `re[0]=='.' || re[0]==*text`
abbrev pub accepts : ℕ → ℕ → Bool
accepts c t = (c == b'.') || (c == t)

-- `matchstar(c, re, text)`, with `here` for `matchhere(re, -)`.
unfoldable pub match_star : (List ℕ → Bool) → ℕ → List ℕ → Bool
match_star here c [] = here []
match_star here c (t ∷ ts) = here (t ∷ ts) || (accepts c t && match_star here c ts)

-- The last test of `matchhere`, with `here` for `matchhere(re+1, -)`.
unfoldable pub match_char : (List ℕ → Bool) → ℕ → List ℕ → Bool
match_char here c [] = false
match_char here c (t ∷ ts) = accepts c t && here ts

-- `matchhere`
unfoldable pub match_here : List ℕ → List ℕ → Bool
unfolding match_star match_char
match_here [] ts = true
match_here (c ∷ []) ts = if c == b'$' then is_end ts else match_char (match_here []) c ts
match_here (c ∷ d ∷ re) ts =
    let star = match_star (match_here re) c ts in
    let char = match_char (match_here (d ∷ re)) c ts in if d == b'*' then star else char

-- The loop of `match`.
unfoldable pub match_from : List ℕ → List ℕ → Bool
unfolding match_here
match_from re [] = match_here re []
match_from re (t ∷ ts) = match_here re (t ∷ ts) || match_from re ts

unfoldable pub match : List ℕ → List ℕ → Bool
unfolding match_from
match [] ts = match_from [] ts
match (c ∷ re) ts = if c == b'^' then match_here re ts else match_from (c ∷ re) ts

-- `strchr(p, '\n')`: the line before the newline, and what is behind it; `none` for 0. The bytes
-- behind a NUL are not looked at.
unfoldable pub find_newline : List ℕ → Option (List ℕ × List ℕ)
find_newline [] = none
find_newline (c ∷ cs) =
    let rest = find_newline cs in
    if c == 0
    then none
    else if c == b'\n'
    then some ([], cs)
    else elim rest [ none ↦ none | some (line, more) ↦ some (c ∷ line, more) ]

-- The inner loop of `grep`, for at most `left` lines: what is written, and what stays in the buffer.
unfoldable pub print_lines : (pattern : List ℕ) → (left : ℕ) → List ℕ → List ℕ × List ℕ
unfolding find_newline match
print_lines pattern zero buf = ([], buf)
print_lines pattern (suc left) buf = elim (find_newline buf) [
  | none ↦ ([], buf)
  | some (line, more) ↦
      let (out, rest) = print_lines pattern left more in
      (if match pattern line then line ++ ((b'\n' ∷ []) ++ out) else out, rest)
]

-- `grep`, on what `read` returns in each round until it returns nothing: all that is written.
unfoldable pub grep : (pattern : List ℕ) → (reads : List (List ℕ)) → (buf : List ℕ) → List ℕ
unfolding print_lines
grep pattern [] buf = []
grep pattern (chunk ∷ chunks) buf =
    let (out, rest) = print_lines pattern (length (buf ++ chunk)) (buf ++ chunk) in
    out ++ grep pattern chunks rest
