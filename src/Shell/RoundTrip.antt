-- ===== src/Shell/RoundTrip.antt =====
-- user/sh.c: what the parser makes of a printed command line.
use os_assignment.Prelude.{
  ℕ, zero, suc, ◌+◌, ◌<◌, ◌≤◌, ◌≡◌, refl, ap, ◌∙◌, true, false, List, [], ◌∷◌, ◌++◌, ◌==◌, leb,
  arith, length, length-append,
}
use mathlib.Core.List.{append-nil, append_assoc}
use os_assignment.Shell.{
  Token, is_space, has_char, is_plain, skip, word, token_at, gettoken, starts, peek,
}
use os_assignment.Shell.Parser.{ok, Redir, redir_of, parse_redirs, parse_args, max_args}
use os_assignment.Shell.Printer.{
  Arrow, from, into, onto, Target, Arg, print_arrow, print_word, print_targets, print_args,
  redir_for, redirs_for, words, arg_redirs, AllPlain, IsWord, AllTargets, AllArgs,
}

-- What can follow a command: the end, or one of these characters.
abbrev pub Stops : (toks : List ℕ) → List ℕ → Type 0
Stops toks [] = Unit
Stops toks (c ∷ cs) = has_char toks c ≡ true

-- A plain character is none of the symbols.
plain-space : (c : ℕ) → is_plain c ≡ true → is_space c ≡ false
plain-space c h = ground (arith, h)

plain-redir : (c : ℕ) → is_plain c ≡ true → has_char (b'<' ∷ b'>' ∷ []) c ≡ false
plain-redir c h = ground (arith, h)

plain-stop : (c : ℕ) → is_plain c ≡ true → has_char (b'|' ∷ b')' ∷ b'&' ∷ b';' ∷ []) c ≡ false
plain-stop c h = ground (arith, h)

pub plain-block : (c : ℕ) → is_plain c ≡ true → has_char (b'(' ∷ []) c ≡ false
plain-block c h = ground (arith, h)

plain-symbol :
    (c : ℕ) → is_plain c ≡ true → has_char (b'|' ∷ b'(' ∷ b')' ∷ b';' ∷ b'&' ∷ b'<' ∷ []) c ≡ false
plain-symbol c h = ground (arith, h)

plain-greater : (c : ℕ) → is_plain c ≡ true → (c == b'>') ≡ false
plain-greater c h = ground (arith, h)

word-print : (w k : List ℕ) → AllPlain w → word (w ++ (b' ' ∷ k)) ≡ (w, b' ' ∷ k)
word-print [] k h = refl
word-print (c ∷ w) k h = rw (h.0, word-print w k h.1) refl

gettoken-word :
    (w k : List ℕ)
    → IsWord w
    → gettoken (print_word w k) ≡ record { ret = b'a'; text = w; rest = skip k }
unfolding gettoken token_at
gettoken-word [] k h = absurd h
gettoken-word (c ∷ w) k h =
    rw (plain-space c h.0, plain-symbol c h.0, plain-greater c h.0, h.0, word-print w k h.1) refl

gettoken-from :
    (k : List ℕ) → gettoken (b'<' ∷ k) ≡ record { ret = b'<'; text = b'<' ∷ []; rest = skip k }
unfolding gettoken token_at
gettoken-from k = refl

gettoken-into :
    (w k : List ℕ)
    → IsWord w
    → gettoken (b'>' ∷ print_word w k)
      ≡ record { ret = b'>'; text = b'>' ∷ []; rest = print_word w k }
unfolding gettoken token_at
gettoken-into [] k h = absurd h
gettoken-into (c ∷ w) k h = rw (plain-greater c h.0, plain-space c h.0) refl

gettoken-onto :
    (k : List ℕ)
    → gettoken (b'>' ∷ b'>' ∷ k) ≡ record { ret = b'+'; text = b'>' ∷ b'>' ∷ []; rest = skip k }
unfolding gettoken token_at
gettoken-onto k = refl

-- A text that does not begin with white space.
abbrev pub Tight : List ℕ → Type 0
Tight k = skip k ≡ k

Tight-word : (w k : List ℕ) → IsWord w → Tight (print_word w k)
Tight-word [] k h = absurd h
Tight-word (c ∷ w) k h = rw (plain-space c h.0) refl

Tight-arrow : (arrow : Arrow) (k : List ℕ) → Tight (print_arrow arrow k)
Tight-arrow from k = refl
Tight-arrow into k = refl
Tight-arrow onto k = refl

pub Tight-targets : (ts : List Target) (k : List ℕ) → Tight k → Tight (print_targets ts k)
Tight-targets [] k t = t
Tight-targets (target ∷ ts) k t = Tight-arrow target.arrow _

pub Tight-args : (args : List Arg) (k : List ℕ) → AllArgs args → Tight k → Tight (print_args args k)
Tight-args [] k a t = t
Tight-args (arg ∷ args) k a t = Tight-word arg.text _ a.0

redirs-read :
    (f : ℕ) (rs : List Redir) (s : List ℕ) (tok file : Token)
    → Tight s
    → starts (b'<' ∷ b'>' ∷ []) s ≡ true
    → gettoken s ≡ tok
    → gettoken tok.rest ≡ file
    → (file.ret == b'a') ≡ true
    → parse_redirs (suc f) rs s ≡ parse_redirs f (rs ++ (redir_of tok.ret file.text ∷ [])) file.rest
unfolding parse_redirs peek
redirs-read f rs s tok file t arrow e1 e2 e3 = rw (t, arrow, e1, e2, e3) refl

abbrev pub word_token : List ℕ → List ℕ → Token
word_token file k = record { ret = b'a'; text = file; rest = k }

gettoken-file :
    (file k : List ℕ) → IsWord file → Tight k → gettoken (print_word file k) ≡ word_token file k
gettoken-file file k h t =
    gettoken-word file k h ∙ ap (λ r. record { ret = b'a'; text = file; rest = r }) t

redir-step :
    (f : ℕ) (rs : List Redir) (arrow : Arrow) (file k : List ℕ)
    → IsWord file
    → Tight k
    → parse_redirs (suc f) rs (print_arrow arrow (print_word file k))
      ≡ parse_redirs f (rs ++ (redir_for (record { arrow = arrow; file = file }) ∷ [])) k
redir-step f rs from file k h t =
    redirs-read f rs _ (record { ret = b'<'; text = b'<' ∷ []; rest = print_word file k })
      (word_token file k) refl refl
      (gettoken-from (print_word file k)
        ∙ ap (λ r. record { ret = b'<'; text = b'<' ∷ []; rest = r }) (Tight-word file k h))
      (gettoken-file file k h t) refl
redir-step f rs into file k h t =
    redirs-read f rs _ (record { ret = b'>'; text = b'>' ∷ []; rest = print_word file k })
      (word_token file k) refl refl (gettoken-into file k h) (gettoken-file file k h t) refl
redir-step f rs onto file k h t =
    redirs-read f rs _ (record { ret = b'+'; text = b'>' ∷ b'>' ∷ []; rest = print_word file k })
      (word_token file k) refl refl
      (gettoken-onto (print_word file k)
        ∙ ap (λ r. record { ret = b'+'; text = b'>' ∷ b'>' ∷ []; rest = r }) (Tight-word file k h))
      (gettoken-file file k h t) refl

redirs_end :
    (f : ℕ) (rs : List Redir) (k : List ℕ)
    → Tight k
    → starts (b'<' ∷ b'>' ∷ []) k ≡ false
    → parse_redirs (suc f) rs k ≡ ok (rs ++ [], k)
unfolding parse_redirs peek
redirs_end f rs k t s = rw (t, s, append-nil rs) refl

pub parse_redirs-print :
    (f : ℕ) (rs : List Redir) (ts : List Target) (k : List ℕ)
    → AllTargets ts
    → Tight k
    → starts (b'<' ∷ b'>' ∷ []) k ≡ false
    → length ts < f
    → parse_redirs f rs (print_targets ts k) ≡ ok (rs ++ redirs_for ts, k)
parse_redirs-print zero rs ts k a t s l = absurd (omega arith)
parse_redirs-print (suc f) rs [] k a t s l = redirs_end f rs k t s
parse_redirs-print (suc f) rs (target ∷ ts) k a t s l =
    redir-step f rs target.arrow target.file (print_targets ts k) a.0 (Tight-targets ts k t)
    ∙ parse_redirs-print f (rs ++ (redir_for target ∷ [])) ts k a.1 t s (omega (arith, l))
    ∙ ap (λ xs. ok (xs, k)) (append_assoc rs (redir_for target ∷ []) (redirs_for ts))

abbrev pub stop_chars : List ℕ
stop_chars = b'|' ∷ b')' ∷ b'&' ∷ b';' ∷ []

pub stop-Tight : (k : List ℕ) → Stops stop_chars k → Tight k
stop-Tight [] h = refl
stop-Tight (c ∷ k) h = ground (arith, h)

pub stop-redir : (k : List ℕ) → Stops stop_chars k → starts (b'<' ∷ b'>' ∷ []) k ≡ false
stop-redir [] h = refl
stop-redir (c ∷ k) h = ground (arith, h)

-- Neither an argument nor what stops the arguments begins with an arrow.
pub args-redir :
    (args : List Arg) (k : List ℕ)
    → AllArgs args
    → Stops stop_chars k
    → starts (b'<' ∷ b'>' ∷ []) (print_args args k) ≡ false
args-redir [] k a h = stop-redir k h
args-redir (arg ∷ args) k a h = word_redir arg.text _ a.0
  where
    word_redir : (w k : List ℕ) → IsWord w → starts (b'<' ∷ b'>' ∷ []) (print_word w k) ≡ false
    word_redir [] k h = absurd h
    word_redir (c ∷ w) k h = plain-redir c h.0

word-stop : (w k : List ℕ) → IsWord w → starts stop_chars (print_word w k) ≡ false
word-stop [] k h = absurd h
word-stop (c ∷ w) k h = plain-stop c h.0

parse_args-end :
    (f : ℕ) (argv : List (List ℕ)) (rs : List Redir) (k : List ℕ)
    → Stops stop_chars k
    → parse_args (suc f) argv rs k ≡ ok ((argv, rs), k)
unfolding parse_args peek gettoken token_at
parse_args-end f argv rs [] h = refl
parse_args-end f argv rs (c ∷ k) h = rw (stop-Tight (c ∷ k) h, h) refl

arg-step :
    (f : ℕ) (argv : List (List ℕ)) (rs : List Redir) (arg : Arg) (k : List ℕ)
    → IsWord arg.text
    → AllTargets arg.targets
    → Tight k
    → starts (b'<' ∷ b'>' ∷ []) k ≡ false
    → length argv < 9
    → length arg.targets < f
    → parse_args (suc f) argv rs (print_word arg.text (print_targets arg.targets k))
      ≡ parse_args f (argv ++ (arg.text ∷ [])) (rs ++ redirs_for arg.targets) k
unfolding parse_args peek
arg-step f argv rs arg k w ts t s n l =
    let tail : List ℕ = print_targets arg.targets k in
    let few : leb max_args (length argv + 1) ≡ false = ground (arith, n) in
    rw
      (
        Tight-word arg.text tail w,
        word-stop arg.text tail w,
        gettoken-word arg.text tail w,
        Tight-targets arg.targets k t,
        few,
        parse_redirs-print f rs arg.targets k ts t s l,
      )
      refl

-- The length of the arguments bounds the fuel that they take.
abbrev pub cost : List Arg → ℕ
cost [] = 1
cost (arg ∷ args) = 2 + length arg.targets + cost args

pub parse_args-print :
    (f : ℕ) (argv : List (List ℕ)) (rs : List Redir) (args : List Arg) (k : List ℕ)
    → AllArgs args
    → Stops stop_chars k
    → length argv + length args ≤ 9
    → cost args ≤ f
    → parse_args f argv rs (print_args args k) ≡ ok ((argv ++ words args, rs ++ arg_redirs args), k)
parse_args-print zero argv rs [] k a h n l = absurd (omega (arith, l))
parse_args-print zero argv rs (arg ∷ args) k a h n l = absurd (omega (arith, l))
parse_args-print (suc f) argv rs [] k a h n l =
    parse_args-end f argv rs k h ∙ rw (append-nil argv, append-nil rs) refl
parse_args-print (suc f) argv rs (arg ∷ args) k a h n l =
    arg-step f argv rs arg (print_args args k) a.0 a.1 (Tight-args args k a.2 (stop-Tight k h))
      (args-redir args k a.2 h) (omega (arith, n)) (omega (arith, l))
    ∙ parse_args-print f (argv ++ (arg.text ∷ [])) (rs ++ redirs_for arg.targets) args k a.2 h
        (omega (arith, n, length-append argv (arg.text ∷ []))) (omega (arith, l))
    ∙ rw
        (
          append_assoc argv (arg.text ∷ []) (words args),
          append_assoc rs (redirs_for arg.targets) (arg_redirs args),
        )
        refl
