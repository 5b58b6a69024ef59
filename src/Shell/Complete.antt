-- ===== src/Shell/Complete.antt =====
-- user/sh.c: the parser on the lines of the grammar.
use os_assignment.Prelude.{
  ℕ, zero, suc, ◌+◌, ◌*◌, ◌<◌, ◌≤◌, ◌≡◌, refl, ◌∙◌, true, false, List, [], ◌∷◌, ◌++◌, arith, length,
}
use os_assignment.Shell.{has_char, gettoken, token_at, starts, peek}
use os_assignment.Shell.Parser.{
  ok, Redir, Cmd, pipe, list, back, exec, wrap, parse_redirs, parse_args, parse_backs, parse_line,
  parse_pipe, parse_exec, finish, parse_cmd,
}
use os_assignment.Shell.Printer.{
  Target, Arg, Line, last, then_line, Pipe, single, piped, Exec, simple, block, print_arrow,
  print_word, print_targets, print_args, print_backs, print_line, print_pipe, print_exec,
  redirs_for, words, arg_redirs, backs_of, line_cmd, pipe_cmd, exec_cmd, IsWord, AllArgs, IsLine,
  IsPipe, IsExec, from, into, onto, Arrow,
}
use os_assignment.Shell.RoundTrip.{
  Stops, stop_chars, Tight, Tight-targets, Tight-args, stop-Tight, stop-redir, args-redir,
  parse_redirs-print, parse_args-print, plain-block,
}
use os_assignment.Shell.Grammar.{
  pipe_chars, line_chars, pipe-exec, pipe-no_pipe, line-pipe, line-no_back, line-no_next,
  backs-Stops, backs-Tight, line-Tight, pipe-Tight, length-targets, length-args, length-backs,
  length-line, length-pipe, length-exec,
}

-- One round of each function, on what its calls return.
backs-end :
    (f : ℕ) (c : Cmd) (k : List ℕ)
    → Tight k
    → starts (b'&' ∷ []) k ≡ false
    → parse_backs (suc f) c k ≡ ok (c, k)
unfolding parse_backs peek
backs-end f c k t s = rw (t, s) refl

gettoken-symbol :
    (c : ℕ) (k : List ℕ)
    → has_char (b'|' ∷ b'(' ∷ b')' ∷ b';' ∷ b'&' ∷ b'<' ∷ []) c ≡ true
    → Tight (c ∷ k)
    → Tight k
    → (gettoken (c ∷ k)).rest ≡ k
unfolding gettoken token_at
gettoken-symbol c k h tc t = rw (tc, h, t) refl

backs-more :
    (f : ℕ) (c : Cmd) (k : List ℕ)
    → Tight k
    → parse_backs (suc f) c (b'&' ∷ k) ≡ parse_backs f (back c) k
unfolding parse_backs peek gettoken token_at
backs-more f c k t = rw t refl

parse_backs-print :
    (f n : ℕ) (c : Cmd) (k : List ℕ)
    → Tight k
    → starts (b'&' ∷ []) k ≡ false
    → n < f
    → parse_backs f c (print_backs n k) ≡ ok (backs_of n c, k)
parse_backs-print zero n c k t s l = absurd (omega (arith, l))
parse_backs-print (suc f) zero c k t s l = backs-end f c k t s
parse_backs-print (suc f) (suc n) c k t s l =
    backs-more f c (print_backs n k) (backs-Tight n k t)
    ∙ parse_backs-print f n (back c) k t s (omega (arith, l))

line-end :
    (f : ℕ) (s s1 k : List ℕ) (p b : Cmd)
    → parse_pipe f s ≡ ok (p, s1)
    → parse_backs f p s1 ≡ ok (b, k)
    → Tight k
    → starts (b';' ∷ []) k ≡ false
    → parse_line (suc f) s ≡ ok (b, k)
unfolding parse_line peek
line-end f s s1 k p b e1 e2 t other = rw (e1, e2, t, other) refl

line-more :
    (f : ℕ) (s s1 s2 k : List ℕ) (p b l : Cmd)
    → parse_pipe f s ≡ ok (p, s1)
    → parse_backs f p s1 ≡ ok (b, b';' ∷ s2)
    → Tight s2
    → parse_line f s2 ≡ ok (l, k)
    → parse_line (suc f) s ≡ ok (list b l, k)
unfolding parse_line peek
line-more f s s1 s2 k p b l e1 e2 t e3 = rw (e1, e2, gettoken-symbol b';' s2 refl refl t, e3) refl

pipe-end :
    (f : ℕ) (s k : List ℕ) (e : Cmd)
    → parse_exec f s ≡ ok (e, k)
    → Tight k
    → starts (b'|' ∷ []) k ≡ false
    → parse_pipe (suc f) s ≡ ok (e, k)
unfolding parse_line peek
pipe-end f s k e e1 t other = rw (e1, t, other) refl

pipe-more :
    (f : ℕ) (s s1 k : List ℕ) (e p : Cmd)
    → parse_exec f s ≡ ok (e, b'|' ∷ s1)
    → Tight s1
    → parse_pipe f s1 ≡ ok (p, k)
    → parse_pipe (suc f) s ≡ ok (pipe e p, k)
unfolding parse_line peek
pipe-more f s s1 k e p e1 t e2 = rw (e1, gettoken-symbol b'|' s1 refl refl t, e2) refl

exec-simple :
    (f : ℕ) (s s1 k : List ℕ) (rs rs' : List Redir) (argv : List (List ℕ))
    → Tight s
    → starts (b'(' ∷ []) s ≡ false
    → parse_redirs f [] s ≡ ok (rs, s1)
    → parse_args f [] rs s1 ≡ ok ((argv, rs'), k)
    → parse_exec (suc f) s ≡ ok (wrap (exec argv) rs', k)
unfolding parse_line peek
exec-simple f s s1 k rs rs' argv t other e1 e2 = rw (t, other, e1, e2) refl

exec-block :
    (f : ℕ) (s s1 k : List ℕ) (l : Cmd) (rs : List Redir)
    → Tight s
    → parse_line f s ≡ ok (l, b')' ∷ s1)
    → Tight s1
    → parse_redirs f [] s1 ≡ ok (rs, k)
    → parse_exec (suc (suc f)) (b'(' ∷ s) ≡ ok (wrap l rs, k)
unfolding parse_line peek
exec-block f s s1 k l rs t e1 t1 e2 =
    rw (gettoken-symbol b'(' s refl refl t, e1, gettoken-symbol b')' s1 refl refl t1, e2) refl

-- The text of a simple command does not begin with a parenthesis.
args-block :
    (args : List Arg) (k : List ℕ)
    → AllArgs args
    → Stops stop_chars k
    → starts (b'(' ∷ []) (print_args args k) ≡ false
args-block [] [] a h = refl
args-block [] (c ∷ k) a h = ground (arith, h)
args-block (arg ∷ args) k a h = word_block arg.text _ a.0
  where
    word_block : (w k : List ℕ) → IsWord w → starts (b'(' ∷ []) (print_word w k) ≡ false
    word_block [] k h = absurd h
    word_block (c ∷ w) k h = plain-block c h.0

arrow-block : (a : Arrow) (k : List ℕ) → starts (b'(' ∷ []) (print_arrow a k) ≡ false
arrow-block from k = refl
arrow-block into k = refl
arrow-block onto k = refl

simple-block :
    (ts : List Target) (args : List Arg) (k : List ℕ)
    → AllArgs args
    → Stops stop_chars k
    → starts (b'(' ∷ []) (print_targets ts (print_args args k)) ≡ false
simple-block [] args k a h = args-block args k a h
simple-block (t ∷ ts) args k a h = arrow-block t.arrow _

mutual
  unfolding print_line IsLine line_cmd

  parse_line-print :
      (f : ℕ) (l : Line) (k : List ℕ)
      → IsLine l
      → Stops line_chars k
      → 5 * length (print_line l k) + 4 < f
      → parse_line f (print_line l k) ≡ ok (line_cmd l, k)
  parse_line-print zero l k w h r = absurd (omega (arith, r))
  parse_line-print (suc f) (last p n) k w h r =
      let t : Tight k = stop-Tight k (pipe-exec k (line-pipe k h)) in
      line-end f _ (print_backs n k) k (pipe_cmd p) (backs_of n (pipe_cmd p))
        (parse_pipe-print f p (print_backs n k) w (backs-Stops n k (line-pipe k h))
          (omega (arith, r)))
        (parse_backs-print f n (pipe_cmd p) k t (line-no_back k h)
          (omega (arith, r, length-pipe p (print_backs n k) w, length-backs n k)))
        t (line-no_next k h)
  parse_line-print (suc f) (then_line p n l) k w h r =
      let more : List ℕ = b';' ∷ print_line l k in
      line-more f _ (print_backs n more) (print_line l k) k (pipe_cmd p) (backs_of n (pipe_cmd p))
        (line_cmd l)
        (parse_pipe-print f p (print_backs n more) w.0 (backs-Stops n more refl) (omega (arith, r)))
        (parse_backs-print f n (pipe_cmd p) more refl refl
          (omega (arith, r, length-pipe p (print_backs n more) w.0, length-backs n more)))
        (line-Tight l k w.1 (stop-Tight k (pipe-exec k (line-pipe k h))))
        (parse_line-print f l k w.1 h
          (omega (arith, r, length-pipe p (print_backs n more) w.0, length-backs n more)))

  parse_pipe-print :
      (f : ℕ) (p : Pipe) (k : List ℕ)
      → IsPipe p
      → Stops pipe_chars k
      → 5 * length (print_pipe p k) + 3 < f
      → parse_pipe f (print_pipe p k) ≡ ok (pipe_cmd p, k)
  parse_pipe-print zero p k w h r = absurd (omega (arith, r))
  parse_pipe-print (suc f) (single e) k w h r =
      pipe-end f _ k (exec_cmd e) (parse_exec-print f e k w (pipe-exec k h) (omega (arith, r)))
        (stop-Tight k (pipe-exec k h)) (pipe-no_pipe k h)
  parse_pipe-print (suc f) (piped e p) k w h r =
      pipe-more f _ (print_pipe p k) k (exec_cmd e) (pipe_cmd p)
        (parse_exec-print f e (b'|' ∷ print_pipe p k) w.0 refl (omega (arith, r)))
        (pipe-Tight p k w.1 (stop-Tight k (pipe-exec k h)))
        (parse_pipe-print f p k w.1 h (omega (arith, r, length-exec e (b'|' ∷ print_pipe p k) w.0)))

  parse_exec-print :
      (f : ℕ) (e : Exec) (k : List ℕ)
      → IsExec e
      → Stops stop_chars k
      → 5 * length (print_exec e k) + 2 < f
      → parse_exec f (print_exec e k) ≡ ok (exec_cmd e, k)
  parse_exec-print zero e k w h r = absurd (omega (arith, r))
  parse_exec-print (suc zero) e k w h r = absurd (omega (arith, r))
  parse_exec-print (suc (suc f)) (simple ts args) k w h r =
      let t : Tight k = stop-Tight k h in
      let bound : length ts + length (print_args args k)
          ≤ length (print_targets ts (print_args args k)) =
        length-targets ts (print_args args k) in
      exec-simple (suc f) _ (print_args args k) k (redirs_for ts) (redirs_for ts ++ arg_redirs args)
        (words args) (Tight-targets ts _ (Tight-args args k w.1 t)) (simple-block ts args k w.1 h)
        (parse_redirs-print (suc f) [] ts (print_args args k) w.0 (Tight-args args k w.1 t)
          (args-redir args k w.1 h) (omega (arith, r, bound)))
        (parse_args-print (suc f) [] (redirs_for ts) args k w.1 h (omega (arith, w.2))
          (omega (arith, r, bound, length-args args k w.1)))
  parse_exec-print (suc (suc f)) (block l ts) k w h r =
      let inner : List ℕ = b')' ∷ print_targets ts k in
      exec-block f (print_line l inner) (print_targets ts k) k (line_cmd l) (redirs_for ts)
        (line-Tight l inner w.0 refl) (parse_line-print f l inner w.0 refl (omega (arith, r)))
        (Tight-targets ts k (stop-Tight k h))
        (parse_redirs-print f [] ts k w.1 (stop-Tight k h) (stop-redir k h)
          (omega (arith, r, length-line l inner w.0, length-targets ts k)))

-- Every command line of the grammar, if its words have neither white space nor symbols in them and
-- no command has as many as MAXARGS arguments, is parsed as the command that it stands for: `&`
-- binds tighter than `;` and looser than `|`, `;` and `|` associate to the right, and the last
-- redirection of a command is the outermost.
pub parse_cmd-print : (l : Line) → IsLine l → parse_cmd (print_line l []) ≡ ok (line_cmd l)
unfolding parse_cmd finish peek
parse_cmd-print l w =
    rw (parse_line-print (5 * length (print_line l []) + 5) l [] w tt (omega arith)) refl
