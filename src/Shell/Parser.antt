-- ===== src/Shell/Parser.antt =====
-- user/sh.c: the parser of command lines. Recursive descent, each call on a unit of fuel.
use os_assignment.Prelude.{
  ℕ, zero, suc, ◌+◌, ◌*◌, not, List, [], ◌∷◌, ◌++◌, ◌==◌, leb, length, if◌then◌else◌,
}
use os_assignment.Shell.{gettoken, peek}

-- How parsing ends: `syntax` is a call of `panic`.
pub data Parsed {ℓ} (A : Type ℓ) : Type ℓ where
  ok : A → Parsed A
  syntax out_of_fuel : Parsed A

infixl 1 ◌>>=◌
abbrev pub ◌>>=◌ {ℓ κ} : {A : Type ℓ} {B : Type κ} → Parsed A → (A → Parsed B) → Parsed B
ok a >>= f = f a
syntax >>= f = syntax
out_of_fuel >>= f = out_of_fuel

-- O_RDONLY, O_WRONLY|O_CREATE|O_TRUNC and O_WRONLY|O_CREATE
pub data Mode : Type 0 where
  read truncate append : Mode

-- What `redircmd` adds to a command.
pub record Redir : Type 0 where
  pub file : List ℕ
  pub mode : Mode
  pub fd : ℕ

-- `struct cmd` and its kinds.
pub data Cmd : Type 0 where
  exec : (argv : List (List ℕ)) → Cmd
  redir : Cmd → Redir → Cmd
  pipe list : (left right : Cmd) → Cmd
  back : Cmd → Cmd

-- MAXARGS
abbrev pub max_args : ℕ
max_args = 10

-- Redirections put around a command, the last one outermost.
abbrev pub wrap : Cmd → List Redir → Cmd
wrap c [] = c
wrap c (r ∷ rs) = wrap (redir c r) rs

-- The `switch` of `parseredirs` on the token before the file.
abbrev pub redir_of : (tok : ℕ) → List ℕ → Redir
redir_of tok file =
    if tok == b'<'
    then record { file = file; mode = read; fd = 0 }
    else if tok == b'>'
    then record { file = file; mode = truncate; fd = 1 }
    else record { file = file; mode = append; fd = 1 }

-- `parseredirs`: the redirections read so far, and those that follow.
unfoldable pub parse_redirs : ℕ → List Redir → List ℕ → Parsed (List Redir × List ℕ)
unfolding peek gettoken
parse_redirs zero rs s = out_of_fuel
parse_redirs (suc f) rs s =
    let here = peek (b'<' ∷ b'>' ∷ []) s in
    let tok = gettoken here.1 in
    let file = gettoken tok.rest in
    let more = parse_redirs f (rs ++ (redir_of tok.ret file.text ∷ [])) file.rest in
    if here.0 then (if file.ret == b'a' then more else syntax) else ok (rs, here.1)

-- The loop of `parseexec`, with the arguments and the redirections read so far.
unfoldable pub parse_args :
    ℕ → List (List ℕ) → List Redir → List ℕ → Parsed ((List (List ℕ) × List Redir) × List ℕ)
unfolding peek gettoken parse_redirs
parse_args zero argv rs s = out_of_fuel
parse_args (suc f) argv rs s =
    let here = peek (b'|' ∷ b')' ∷ b'&' ∷ b';' ∷ []) s in
    let tok = gettoken here.1 in
    let more = parse_redirs f rs tok.rest >>= λ r. parse_args f (argv ++ (tok.text ∷ [])) r.0 r.1 in
    if here.0
    then ok ((argv, rs), here.1)
    else if tok.ret == 0
    then ok ((argv, rs), tok.rest)
    else if not (tok.ret == b'a')
    then syntax
    else if leb max_args (length argv + 1)
    then syntax
    else more

-- The loop of `parseline` over `&`.
unfoldable pub parse_backs : ℕ → Cmd → List ℕ → Parsed (Cmd × List ℕ)
unfolding peek gettoken
parse_backs zero c s = out_of_fuel
parse_backs (suc f) c s =
    let here = peek (b'&' ∷ []) s in
    let more = parse_backs f (back c) (gettoken here.1).rest in
    if here.0 then more else ok (c, here.1)

unfoldable mutual
  unfolding peek gettoken parse_redirs parse_args parse_backs

  pub parse_line : ℕ → List ℕ → Parsed (Cmd × List ℕ)
  parse_line zero s = out_of_fuel
  parse_line (suc f) s = parse_pipe f s >>= λ p. parse_backs f p.0 p.1 >>= λ b.
      let here = peek (b';' ∷ []) b.1 in
      let more = parse_line f (gettoken here.1).rest >>= λ l. ok (list b.0 l.0, l.1) in
      if here.0 then more else ok (b.0, here.1)

  pub parse_pipe : ℕ → List ℕ → Parsed (Cmd × List ℕ)
  parse_pipe zero s = out_of_fuel
  parse_pipe (suc f) s = parse_exec f s >>= λ e.
      let here = peek (b'|' ∷ []) e.1 in
      let more = parse_pipe f (gettoken here.1).rest >>= λ p. ok (pipe e.0 p.0, p.1) in
      if here.0 then more else ok (e.0, here.1)

  pub parse_exec : ℕ → List ℕ → Parsed (Cmd × List ℕ)
  parse_exec zero s = out_of_fuel
  parse_exec (suc f) s =
      let here = peek (b'(' ∷ []) s in
      let block = parse_block f here.1 in
      let simple = parse_redirs f [] here.1 >>= λ r.
      parse_args f [] r.0 r.1 >>= λ a. ok (wrap (exec a.0.0) a.0.1, a.1) in
      if here.0 then block else simple

  pub parse_block : ℕ → List ℕ → Parsed (Cmd × List ℕ)
  parse_block zero s = out_of_fuel
  parse_block (suc f) s =
      let open_here = peek (b'(' ∷ []) s in
      let inner = parse_line f (gettoken open_here.1).rest >>= λ l.
      let close_here = peek (b')' ∷ []) l.1 in
      let redirs = parse_redirs f [] (gettoken close_here.1).rest >>= λ r. ok (wrap l.0 r.0, r.1) in
      if close_here.0 then redirs else syntax in
      if open_here.0 then inner else syntax

-- The test for leftovers.
unfoldable pub finish : Cmd → List ℕ → Parsed Cmd
finish c [] = ok c
finish c (d ∷ ds) = syntax

-- `parsecmd`
unfoldable pub parse_cmd : List ℕ → Parsed Cmd
unfolding parse_line peek finish
parse_cmd s = parse_line (5 * length s + 5) s >>= λ l. finish l.0 (peek [] l.1).1
