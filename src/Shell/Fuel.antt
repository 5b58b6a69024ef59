-- ===== src/Shell/Fuel.antt =====
-- user/sh.c: how much of the text a call leaves, and the fuel it takes.
use os_assignment.Prelude.{
  ℕ, zero, suc, ◌+◌, ◌*◌, ◌<◌, ◌≤◌, ◌≡◌, ◌≢◌, inl, inr, refl, Bool, true, false, not, List, [], ◌∷◌,
  ◌==◌, leb, arith, length, if◌then◌else◌, Bool-cases,
}
use mathlib.Core.Path.{subst}
use os_assignment.Shell.{
  Token, is_space, has_char, is_plain, skip, word, token_at, after_greater, gettoken, starts, peek,
}
use os_assignment.Shell.Parser.{
  Parsed, ok, syntax, out_of_fuel, ◌>>=◌, Redir, Cmd, back, parse_redirs, parse_args, parse_backs,
  parse_line, parse_pipe, parse_exec, parse_block, finish, parse_cmd, max_args,
}

pub length-skip : (s : List ℕ) → length (skip s) ≤ length s
length-skip [] = omega arith
length-skip (c ∷ cs) = ground (arith, length-skip cs)

length-word : (s : List ℕ) → length (word s).1 ≤ length s
length-word [] = omega arith
length-word (c ∷ cs) = ground (arith, length-word cs)

length-after_greater : (s : List ℕ) → length (after_greater s).rest ≤ length s
length-after_greater [] = omega arith
length-after_greater (c ∷ cs) = ground (arith, length-skip cs, length-skip (c ∷ cs))

-- The first character that is not white space.
abbrev NoSpace : List ℕ → Type 0
NoSpace [] = Unit
NoSpace (c ∷ cs) = is_space c ≡ false

skip-NoSpace : (s : List ℕ) → NoSpace (skip s)
skip-NoSpace [] = tt
skip-NoSpace (c ∷ cs) = elim (Bool-cases (is_space c)) [
  | inl space ↦ rw space (skip-NoSpace cs)
  | inr other ↦ rw other other
]

-- What is no symbol and no white space is part of a word.
word-shorter :
    (c : ℕ) (cs : List ℕ)
    → is_space c ≡ false
    → has_char (b'|' ∷ b'(' ∷ b')' ∷ b';' ∷ b'&' ∷ b'<' ∷ []) c ≡ false
    → (c == b'>') ≡ false
    → length (word (c ∷ cs)).1 ≤ length cs
word-shorter c cs no_space no_symbol no_greater =
    let plain : is_plain c ≡ true = ground (arith, no_space, no_symbol, no_greater) in
    rw plain (length-word cs)

-- A token takes a character at least.
token_at-shorter :
    (c : ℕ) (cs : List ℕ) → is_space c ≡ false → length (token_at (c ∷ cs)).rest ≤ length cs
unfolding token_at
token_at-shorter c cs h =
    elim (Bool-cases (has_char (b'|' ∷ b'(' ∷ b')' ∷ b';' ∷ b'&' ∷ b'<' ∷ []) c)) [
      | inl symbol ↦ rw symbol (length-skip cs)
      | inr no_symbol ↦ elim (Bool-cases (c == b'>')) [
        | inl greater ↦ rw (no_symbol, greater) (length-after_greater cs)
        | inr other ↦
            rw (no_symbol, other)
              (omega (arith, length-skip (word (c ∷ cs)).1, word-shorter c cs h no_symbol other))
      ]
    ]

token_at-le : (s : List ℕ) → NoSpace s → length (token_at s).rest ≤ length s
token_at-le [] h = unfold token_at in omega arith
token_at-le (c ∷ cs) h = omega (arith, token_at-shorter c cs h)

pub gettoken-le : (s : List ℕ) → length (gettoken s).rest ≤ length s
unfolding gettoken
gettoken-le s = omega (arith, token_at-le (skip s) (skip-NoSpace s), length-skip s)

skip-fixed : (s : List ℕ) → NoSpace s → skip s ≡ s
skip-fixed [] h = refl
skip-fixed (c ∷ cs) h = rw h refl

token_at-starts :
    (toks s : List ℕ) → NoSpace s → starts toks s ≡ true → length (token_at s).rest < length s
token_at-starts toks [] h e = absurd (cc (e))
token_at-starts toks (c ∷ cs) h e = omega (arith, token_at-shorter c cs h)

-- A token behind a successful `peek`.
pub gettoken-shorter :
    (toks s : List ℕ) → starts toks (skip s) ≡ true → length (gettoken (skip s)).rest < length s
unfolding gettoken
gettoken-shorter toks s h =
    rw (skip-fixed (skip s) (skip-NoSpace s))
      (omega (arith, length-skip s, token_at-starts toks (skip s) (skip-NoSpace s) h))

-- A run that keeps within its fuel, and leaves at most `n` characters if it returns.
abbrev pub Leaves {ℓ} : {A : Type ℓ} → ℕ → Parsed (A × List ℕ) → Type 0
Leaves n (ok (a, rest)) = length rest ≤ n
Leaves n syntax = Unit
Leaves n out_of_fuel = ⊥

Leaves-bind {ℓ κ} :
    {A : Type ℓ} {B : Type κ} (m n : ℕ) (r : Parsed (A × List ℕ))
    (f : A × List ℕ → Parsed (B × List ℕ))
    → Leaves m r
    → ((a : A) (rest : List ℕ) → length rest ≤ m → Leaves n (f (a, rest)))
    → Leaves n (r >>= f)
Leaves-bind m n (ok (a, rest)) f h k = k a rest h
Leaves-bind m n syntax f h k = tt
Leaves-bind m n out_of_fuel f h k = absurd h

Leaves-if {ℓ} :
    {A : Type ℓ} (n : ℕ) (b : Bool) (x y : Parsed (A × List ℕ))
    → (b ≡ true → Leaves n x)
    → Leaves n y
    → Leaves n (if b then x else y)
Leaves-if n true x y h k = h refl
Leaves-if n false x y h k = k

Leaves-mono {ℓ} : {A : Type ℓ} (m n : ℕ) (r : Parsed (A × List ℕ)) → m ≤ n → Leaves m r → Leaves n r
Leaves-mono m n (ok (a, rest)) l h = omega (arith, h)
Leaves-mono m n syntax l h = tt
Leaves-mono m n out_of_fuel l h = h

parse_redirs-Leaves :
    (f : ℕ) (rs : List Redir) (s : List ℕ) → length s < f → Leaves (length s) (parse_redirs f rs s)
unfolding parse_redirs peek
parse_redirs-Leaves zero rs s h = absurd (omega arith)
parse_redirs-Leaves (suc f) rs s h =
    let tok : Token = gettoken (skip s) in
    let file : Token = gettoken tok.rest in
    Leaves-if (length s) (starts (b'<' ∷ b'>' ∷ []) (skip s)) _ _
      (λ here.
        let shorter : length tok.rest < length s = gettoken-shorter (b'<' ∷ b'>' ∷ []) s here in
        let less : length file.rest < length s = omega (arith, shorter, gettoken-le tok.rest) in
        Leaves-if (length s) (file.ret == b'a') _ _
          (λ a.
            Leaves-mono (length file.rest) (length s) _ (omega (arith, less))
              (parse_redirs-Leaves f _ file.rest (omega (arith, less, h))))
          tt)
      (length-skip s)

-- What is neither white space nor the end begins a token.
token_at-nonempty :
    (s : List ℕ) → NoSpace s → ((token_at s).ret == 0) ≡ false → length (token_at s).rest < length s
token_at-nonempty [] h e = absurd (unfold token_at in cc (e))
token_at-nonempty (c ∷ cs) h e = omega (arith, token_at-shorter c cs h)

gettoken-nonempty :
    (s : List ℕ)
    → ((gettoken (skip s)).ret == 0) ≡ false
    → length (gettoken (skip s)).rest < length s
unfolding gettoken
gettoken-nonempty s e =
    let same : skip (skip s) ≡ skip s = skip-fixed (skip s) (skip-NoSpace s) in
    rw same (
      omega (
        arith,
        length-skip s,
        token_at-nonempty (skip s) (skip-NoSpace s)
            (subst (λ t. ((token_at t).ret == 0) ≡ false) same e),
      ))

parse_args-Leaves :
    (f : ℕ) (argv : List (List ℕ)) (rs : List Redir) (s : List ℕ)
    → length s + 1 < f
    → Leaves (length s) (parse_args f argv rs s)
unfolding parse_args peek
parse_args-Leaves zero argv rs s h = absurd (omega arith)
parse_args-Leaves (suc f) argv rs s h =
    let tok : Token = gettoken (skip s) in
    Leaves-if (length s) (starts (b'|' ∷ b')' ∷ b'&' ∷ b';' ∷ []) (skip s)) _ _
      (λ here. length-skip s)
      (elim (Bool-cases (tok.ret == 0)) [
        | inl end ↦ rw end (omega (arith, gettoken-le (skip s), length-skip s))
        | inr some_token ↦ rw some_token (
            let less : length tok.rest < length s = gettoken-nonempty s some_token in
            Leaves-if (length s) (not (tok.ret == b'a')) _ _ (λ e. tt)
              (Leaves-if (length s) (leb max_args (length argv + 1)) _ _ (λ e. tt)
                (Leaves-bind (length tok.rest) (length s) (parse_redirs f rs tok.rest) _
                  (parse_redirs-Leaves f rs tok.rest (omega (arith, less, h)))
                  (λ rs' rest l.
                    Leaves-mono (length rest) (length s) _ (omega (arith, less, l))
                      (parse_args-Leaves f _ rs' rest (omega (arith, less, l, h)))))))
      ])

parse_backs-Leaves :
    (f : ℕ) (c : Cmd) (s : List ℕ) → length s < f → Leaves (length s) (parse_backs f c s)
unfolding parse_backs peek
parse_backs-Leaves zero c s h = absurd (omega arith)
parse_backs-Leaves (suc f) c s h =
    Leaves-if (length s) (starts (b'&' ∷ []) (skip s)) _ _
      (λ here.
        let less : length (gettoken (skip s)).rest < length s =
          gettoken-shorter (b'&' ∷ []) s here in
        Leaves-mono (length (gettoken (skip s)).rest) (length s) _ (omega (arith, less))
          (parse_backs-Leaves f (back c) (gettoken (skip s)).rest (omega (arith, less, h))))
      (length-skip s)

mutual
  unfolding parse_line peek

  parse_line-Leaves :
      (f : ℕ) (s : List ℕ) → 5 * length s + 4 < f → Leaves (length s) (parse_line f s)
  parse_line-Leaves zero s h = absurd (omega arith)
  parse_line-Leaves (suc f) s h =
      Leaves-bind (length s) (length s) (parse_pipe f s) _
        (parse_pipe-Leaves f s (omega (arith, h)))
        (λ p s1 l1.
          Leaves-bind (length s1) (length s) (parse_backs f p s1) _
            (parse_backs-Leaves f p s1 (omega (arith, h, l1)))
            (λ b s2 l2.
              Leaves-if (length s) (starts (b';' ∷ []) (skip s2)) _ _
                (λ here.
                  let less : length (gettoken (skip s2)).rest < length s2 =
                    gettoken-shorter (b';' ∷ []) s2 here in
                  Leaves-bind (length (gettoken (skip s2)).rest) (length s) _ _
                    (parse_line-Leaves f (gettoken (skip s2)).rest (omega (arith, h, l1, l2, less)))
                    (λ l s3 l3. omega (arith, l1, l2, less, l3)))
                (omega (arith, l1, l2, length-skip s2))))

  parse_pipe-Leaves :
      (f : ℕ) (s : List ℕ) → 5 * length s + 3 < f → Leaves (length s) (parse_pipe f s)
  parse_pipe-Leaves zero s h = absurd (omega arith)
  parse_pipe-Leaves (suc f) s h =
      Leaves-bind (length s) (length s) (parse_exec f s) _
        (parse_exec-Leaves f s (omega (arith, h)))
        (λ e s1 l1.
          Leaves-if (length s) (starts (b'|' ∷ []) (skip s1)) _ _
            (λ here.
              let less : length (gettoken (skip s1)).rest < length s1 =
                gettoken-shorter (b'|' ∷ []) s1 here in
              Leaves-bind (length (gettoken (skip s1)).rest) (length s) _ _
                (parse_pipe-Leaves f (gettoken (skip s1)).rest (omega (arith, h, l1, less)))
                (λ p s2 l2. omega (arith, l1, less, l2)))
            (omega (arith, l1, length-skip s1)))

  parse_exec-Leaves :
      (f : ℕ) (s : List ℕ) → 5 * length s + 2 < f → Leaves (length s) (parse_exec f s)
  parse_exec-Leaves zero s h = absurd (omega arith)
  parse_exec-Leaves (suc f) s h =
      Leaves-if (length s) (starts (b'(' ∷ []) (skip s)) _ _
        (λ here.
          Leaves-mono (length (skip s)) (length s) _ (length-skip s)
            (parse_block-Leaves f (skip s) (omega (arith, h, length-skip s))))
        (Leaves-bind (length (skip s)) (length s) (parse_redirs f [] (skip s)) _
          (parse_redirs-Leaves f [] (skip s) (omega (arith, h, length-skip s)))
          (λ rs s1 l1.
            Leaves-bind (length s1) (length s) (parse_args f [] rs s1) _
              (parse_args-Leaves f [] rs s1 (omega (arith, h, l1, length-skip s)))
              (λ a s2 l2. omega (arith, l1, l2, length-skip s))))

  parse_block-Leaves :
      (f : ℕ) (s : List ℕ) → 5 * length s + 1 < f → Leaves (length s) (parse_block f s)
  parse_block-Leaves zero s h = absurd (omega arith)
  parse_block-Leaves (suc f) s h =
      Leaves-if (length s) (starts (b'(' ∷ []) (skip s)) _ _
        (λ here.
          let less : length (gettoken (skip s)).rest < length s =
            gettoken-shorter (b'(' ∷ []) s here in
          Leaves-bind (length (gettoken (skip s)).rest) (length s) _ _
            (parse_line-Leaves f (gettoken (skip s)).rest (omega (arith, h, less)))
            (λ l s1 l1.
              Leaves-if (length s) (starts (b')' ∷ []) (skip s1)) _ _
                (λ closed.
                  let less1 : length (gettoken (skip s1)).rest < length s1 =
                    gettoken-shorter (b')' ∷ []) s1 closed in
                  Leaves-bind (length (gettoken (skip s1)).rest) (length s) _ _
                    (parse_redirs-Leaves f [] (gettoken (skip s1)).rest
                      (omega (arith, h, less, l1, less1)))
                    (λ rs s2 l2. omega (arith, less, l1, less1, l2)))
                tt))
        tt

finish_list : (c : Cmd) (s : List ℕ) → finish c s ≢ out_of_fuel
unfolding finish
finish_list c [] = cc
finish_list c (d ∷ ds) = cc

finish-ends :
    (n : ℕ) (r : Parsed (Cmd × List ℕ))
    → Leaves n r
    → (r >>= λ l. finish l.0 (skip l.1)) ≢ out_of_fuel
unfolding finish
finish-ends n (ok (c, rest)) h = finish_list c (skip rest)
finish-ends n syntax h = cc
finish-ends n out_of_fuel h = absurd h

-- The fuel that `parse_cmd` starts with is enough for every text: it returns a command or calls
-- `panic`.
pub parse_cmd-ends : (s : List ℕ) → parse_cmd s ≢ out_of_fuel
unfolding parse_cmd
parse_cmd-ends s e =
    finish-ends (length s) (parse_line (5 * length s + 5) s)
      (parse_line-Leaves (5 * length s + 5) s (omega arith)) e
