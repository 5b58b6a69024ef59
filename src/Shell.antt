-- ===== src/Shell.antt =====
-- user/sh.c: the tokens of command lines.
-- A position `*ps` is the text from there to `es`, which has no NUL; words are copied out of the text,
-- as `nulterminate` makes them strings of their own.
pub mod Parser
pub mod Fuel
pub mod Printer
pub mod RoundTrip
pub mod Grammar
pub mod Complete
mod Tests
use os_assignment.Prelude.{
  ℕ, zero, suc, ◌+◌, Bool, true, false, not, ◌&&◌, ◌||◌, List, [], ◌∷◌, ◌==◌, leb, if◌then◌else◌,
}

-- `strchr(whitespace, c)`, for a character of the text
abbrev pub is_space : ℕ → Bool
is_space c = (c == b' ') || ((c == 9) || ((c == 13) || ((c == b'\n') || (c == 11))))

-- `strchr(toks, c)`
abbrev pub has_char : List ℕ → ℕ → Bool
has_char [] c = false
has_char (t ∷ ts) c = (t == c) || has_char ts c

abbrev pub symbols : List ℕ
symbols = b'<' ∷ b'|' ∷ b'>' ∷ b'&' ∷ b';' ∷ b'(' ∷ b')' ∷ []

-- The characters of a word.
abbrev pub is_plain : ℕ → Bool
is_plain c = not (is_space c) && not (has_char symbols c)

-- The loops over white space.
abbrev pub skip : List ℕ → List ℕ
skip [] = []
skip (c ∷ cs) = if is_space c then skip cs else c ∷ cs

-- The loop over the characters of a word: the word, and what is behind it.
abbrev pub word : List ℕ → List ℕ × List ℕ
word [] = ([], [])
word (c ∷ cs) = let rest = word cs in if is_plain c then (c ∷ rest.0, rest.1) else ([], c ∷ cs)

-- What `gettoken` returns, with the word from `q` to `eq`, and the position behind it.
pub record Token : Type 0 where
  pub ret : ℕ
  pub text : List ℕ
  pub rest : List ℕ

-- The case of `>`, on what is behind it.
abbrev pub after_greater : List ℕ → Token
after_greater [] = record { ret = b'>'; text = b'>' ∷ []; rest = [] }
after_greater (d ∷ ds) =
    if d == b'>'
    then record { ret = b'+'; text = b'>' ∷ b'>' ∷ []; rest = skip ds }
    else record { ret = b'>'; text = b'>' ∷ []; rest = skip (d ∷ ds) }

-- The `switch` of `gettoken`, and the white space behind the token.
unfoldable pub token_at : List ℕ → Token
token_at [] = record { ret = 0; text = []; rest = [] }
token_at (c ∷ cs) =
    if has_char (b'|' ∷ b'(' ∷ b')' ∷ b';' ∷ b'&' ∷ b'<' ∷ []) c
    then record { ret = c; text = c ∷ []; rest = skip cs }
    else if c == b'>'
    then after_greater cs
    else record { ret = b'a'; text = (word (c ∷ cs)).0; rest = skip (word (c ∷ cs)).1 }

unfoldable pub gettoken : List ℕ → Token
unfolding token_at
gettoken s = token_at (skip s)

-- `peek`, on the text behind white space, to which it moves `*ps`.
abbrev pub starts : (toks : List ℕ) → List ℕ → Bool
starts toks [] = false
starts toks (c ∷ cs) = has_char toks c

unfoldable pub peek : (toks : List ℕ) → List ℕ → Bool × List ℕ
peek toks s = (starts toks (skip s), skip s)
