-- ===== src/Shell/Printer.antt =====
-- user/sh.c: command lines as their grammar has them, how they are written, and the commands that
-- they stand for.
use os_assignment.Prelude.{ℕ, zero, suc, ◌≤◌, ◌≡◌, true, List, [], ◌∷◌, ◌++◌, length}
use os_assignment.Shell.{is_plain}
use os_assignment.Shell.Parser.{read, truncate, append, Redir, Cmd, exec, pipe, list, back, wrap}

-- `<`, `>` and `>>`
pub data Arrow : Type 0 where
  from into onto : Arrow

-- A redirection, and an argument with the redirections behind it.
pub record Target : Type 0 where
  pub arrow : Arrow
  pub file : List ℕ

pub record Arg : Type 0 where
  pub text : List ℕ
  pub targets : List Target

-- A pipe with any number of `&` behind it, and a line behind a `;`.
mutual
  pub data Line : Type 0 where
    last : Pipe → (backs : ℕ) → Line
    then_line : Pipe → (backs : ℕ) → Line → Line

  pub data Pipe : Type 0 where
    single : Exec → Pipe
    piped : Exec → Pipe → Pipe

  pub data Exec : Type 0 where
    simple : List Target → List Arg → Exec
    block : Line → List Target → Exec

-- The text, in front of the text that follows.
abbrev pub print_arrow : Arrow → List ℕ → List ℕ
print_arrow from k = b'<' ∷ k
print_arrow into k = b'>' ∷ k
print_arrow onto k = b'>' ∷ b'>' ∷ k

abbrev pub print_word : List ℕ → List ℕ → List ℕ
print_word w k = w ++ (b' ' ∷ k)

abbrev pub print_targets : List Target → List ℕ → List ℕ
print_targets [] k = k
print_targets (t ∷ ts) k = print_arrow t.arrow (print_word t.file (print_targets ts k))

abbrev pub print_args : List Arg → List ℕ → List ℕ
print_args [] k = k
print_args (a ∷ args) k = print_word a.text (print_targets a.targets (print_args args k))

abbrev pub print_backs : ℕ → List ℕ → List ℕ
print_backs zero k = k
print_backs (suc n) k = b'&' ∷ print_backs n k

unfoldable mutual
  pub print_line : Line → List ℕ → List ℕ
  print_line (last p n) k = print_pipe p (print_backs n k)
  print_line (then_line p n l) k = print_pipe p (print_backs n (b';' ∷ print_line l k))

  pub print_pipe : Pipe → List ℕ → List ℕ
  print_pipe (single e) k = print_exec e k
  print_pipe (piped e p) k = print_exec e (b'|' ∷ print_pipe p k)

  pub print_exec : Exec → List ℕ → List ℕ
  print_exec (simple ts args) k = print_targets ts (print_args args k)
  print_exec (block l ts) k = b'(' ∷ print_line l (b')' ∷ print_targets ts k)

-- The commands.
abbrev pub redir_for : Target → Redir
redir_for t = elim t.arrow [
  | from ↦ record { file = t.file; mode = read; fd = 0 }
  | into ↦ record { file = t.file; mode = truncate; fd = 1 }
  | onto ↦ record { file = t.file; mode = append; fd = 1 }
]

abbrev pub redirs_for : List Target → List Redir
redirs_for [] = []
redirs_for (t ∷ ts) = redir_for t ∷ redirs_for ts

abbrev pub words : List Arg → List (List ℕ)
words [] = []
words (a ∷ args) = a.text ∷ words args

abbrev pub arg_redirs : List Arg → List Redir
arg_redirs [] = []
arg_redirs (a ∷ args) = redirs_for a.targets ++ arg_redirs args

abbrev pub backs_of : ℕ → Cmd → Cmd
backs_of zero c = c
backs_of (suc n) c = backs_of n (back c)

unfoldable mutual
  pub line_cmd : Line → Cmd
  line_cmd (last p n) = backs_of n (pipe_cmd p)
  line_cmd (then_line p n l) = list (backs_of n (pipe_cmd p)) (line_cmd l)

  pub pipe_cmd : Pipe → Cmd
  pipe_cmd (single e) = exec_cmd e
  pipe_cmd (piped e p) = pipe (exec_cmd e) (pipe_cmd p)

  pub exec_cmd : Exec → Cmd
  exec_cmd (simple ts args) = wrap (exec (words args)) (redirs_for ts ++ arg_redirs args)
  exec_cmd (block l ts) = wrap (line_cmd l) (redirs_for ts)

-- Words have a character at least, and neither white space nor symbols; a command has fewer than
-- MAXARGS arguments.
abbrev pub AllPlain : List ℕ → Type 0
AllPlain [] = Unit
AllPlain (c ∷ cs) = (is_plain c ≡ true) × AllPlain cs

abbrev pub IsWord : List ℕ → Type 0
IsWord [] = ⊥
IsWord (c ∷ cs) = (is_plain c ≡ true) × AllPlain cs

abbrev pub AllTargets : List Target → Type 0
AllTargets [] = Unit
AllTargets (t ∷ ts) = IsWord t.file × AllTargets ts

abbrev pub AllArgs : List Arg → Type 0
AllArgs [] = Unit
AllArgs (a ∷ args) = IsWord a.text × AllTargets a.targets × AllArgs args

unfoldable mutual
  pub IsLine : Line → Type 0
  IsLine (last p n) = IsPipe p
  IsLine (then_line p n l) = IsPipe p × IsLine l

  pub IsPipe : Pipe → Type 0
  IsPipe (single e) = IsExec e
  IsPipe (piped e p) = IsExec e × IsPipe p

  pub IsExec : Exec → Type 0
  IsExec (simple ts args) = AllTargets ts × AllArgs args × (length args ≤ 9)
  IsExec (block l ts) = IsLine l × AllTargets ts
