-- ===== src/Console/Editor.antt =====
-- What kernel/console.c promises, on sequences: a line editor and the characters that it hands over.
use os_assignment.Prelude.{
  ℕ, zero, suc, ◌+◌, ◌-◌, ◌%◌, ◌^◌, Bool, not, ◌&&◌, ◌||◌, List, [], ◌∷◌, ◌++◌, ◌==◌, ltb, length,
  if◌then◌else◌,
}
use os_assignment.Console.{input_buf, control, ReadStop, killed, asleep, returned}

-- The characters that readers may take, the line being typed, and what the screen was sent.
pub record Editor : Type 0 where
  pub ready : List ℕ
  pub line : List ℕ
  pub echo : List ℕ

abbrev pub held : Editor → ℕ
held d = length d.ready + length d.line

-- What the screen is sent to rub out `n` characters.
abbrev pub rub_out : ℕ → List ℕ
rub_out zero = []
rub_out (suc n) = (8 ∷ b' ' ∷ 8 ∷ []) ++ rub_out n

abbrev pub drop_last : List ℕ → List ℕ
drop_last [] = []
drop_last (c ∷ []) = []
drop_last (c ∷ d ∷ cs) = c ∷ drop_last (d ∷ cs)

abbrev pub rub_one : List ℕ → List ℕ
rub_one [] = []
rub_one (c ∷ cs) = 8 ∷ b' ' ∷ 8 ∷ []

-- The last character of a line is on the screen no longer.
abbrev pub rub_last : Editor → Editor
rub_last d = record { ready = d.ready; line = drop_last d.line; echo = d.echo ++ rub_one d.line }

-- The end of a line or of the file, or a full buffer, hands the line over.
unfoldable pub enter : ℕ → Editor → Editor
enter c d =
    if (c == b'\n') || ((c == control b'D') || (held d + 1 == input_buf))
    then record { ready = d.ready ++ (d.line ++ (c ∷ [])); line = []; echo = d.echo ++ (c ∷ []) }
    else record { ready = d.ready; line = d.line ++ (c ∷ []); echo = d.echo ++ (c ∷ []) }

-- One key.
unfoldable pub key : ℕ → Editor → Editor
unfolding enter
key c d =
    if c == control b'P'
    then d
    else if c == control b'U'
    then record { ready = d.ready; line = []; echo = d.echo ++ rub_out (length d.line) }
    else if (c == control b'H') || (c == 127)
    then rub_last d
    else if not (c == 0) && ltb (held d) input_buf
    then enter (if c == b'\r' then b'\n' else c) d
    else d

-- What a reader gets out of the characters that are ready, and what it leaves.
pub record Read : Type 0 where
  pub stop : ReadStop
  pub got : List ℕ
  pub lost : List ℕ
  pub rest : List ℕ

abbrev pub ended : (n : ℕ) (lost rest : List ℕ) → Read
ended n lost rest = record { stop = returned n; got = []; lost = lost; rest = rest }

abbrev pub gets : ℕ → Read → Read
gets c x = record x { got = c ∷ x.got }

-- At most one line, or as much as fits; the end-of-file mark stays for the next read if this one
-- has something to return.
unfoldable pub read : Bool → (ℕ → Bool) → (target left dst : ℕ) → List ℕ → Read
read was_killed copyout target zero dst cs = ended target [] cs
read was_killed copyout target (suc left) dst [] = record {
  stop = if was_killed then killed else asleep dst (suc left);
  got = [];
  lost = [];
  rest = [];
}
read was_killed copyout target (suc left) dst (c ∷ cs) =
    let more = read was_killed copyout target left ((dst + 1) % 2 ^ 64) cs in
    if c == control b'D'
    then (if ltb (suc left) target
        then ended (target - suc left) [] (c ∷ cs)
        else ended (target - suc left) (c ∷ []) cs)
    else if not (copyout dst)
    then ended (target - suc left) (c ∷ []) cs
    else if c == b'\n'
    then gets c (ended (target - left) [] cs)
    else gets c more
