-- ===== src/Grep/Lines.antt =====
-- user/grep.c: the lines of the input, however `read` cuts it.
use os_assignment.Prelude.{
  ℕ, zero, suc, ◌<◌, ◌≤◌, ◌≡◌, ◌≢◌, inl, inr, refl, ap, sym, ◌∙◌, false, Option, none, some, List,
  [], ◌∷◌, ◌++◌, ◌==◌, arith, length, if◌then◌else◌, Bool-cases, Option-cases,
}
use mathlib.Core.Path.{subst}
use mathlib.Core.List.{append-nil, append_assoc}
use os_assignment.Grep.{match, find_newline, print_lines, grep}

abbrev pub newline : ℕ
newline = b'\n'

-- A line with its newline behind it.
abbrev pub unlines : List (List ℕ) → List ℕ
unlines [] = []
unlines (l ∷ ls) = l ++ (newline ∷ unlines ls)

abbrev pub concat : List (List ℕ) → List ℕ
concat [] = []
concat (c ∷ cs) = c ++ concat cs

-- The lines that match, in order.
abbrev pub selected : (pattern : List ℕ) → List (List ℕ) → List (List ℕ)
selected pattern [] = []
selected pattern (l ∷ ls) = if match pattern l then l ∷ selected pattern ls else selected pattern ls

-- Neither a newline nor a NUL.
abbrev pub IsLine : List ℕ → Type 0
IsLine [] = Unit
IsLine (c ∷ cs) = (c ≢ newline) × (c ≢ 0) × IsLine cs

abbrev pub AllLines : List (List ℕ) → Type 0
AllLines [] = Unit
AllLines (l ∷ ls) = IsLine l × AllLines ls

abbrev AllNonzero : List ℕ → Type 0
AllNonzero [] = Unit
AllNonzero (c ∷ cs) = (c ≢ 0) × AllNonzero cs

-- A character in front of the first line, or of what is behind the last one.
abbrev put_front : ℕ → List (List ℕ) × List ℕ → List (List ℕ) × List ℕ
put_front c ([], tail) = ([], c ∷ tail)
put_front c (l ∷ ls, tail) = ((c ∷ l) ∷ ls, tail)

-- A text as its lines and what is behind the last newline.
abbrev split : List ℕ → List (List ℕ) × List ℕ
split [] = ([], [])
split (c ∷ cs) =
    let rest = split cs in if c == newline then ([] ∷ rest.0, rest.1) else put_front c rest

abbrev add_lines : List (List ℕ) → List (List ℕ) × List ℕ → List (List ℕ) × List ℕ
add_lines ls r = (ls ++ r.0, r.1)

front-append :
    (c : ℕ) (ys : List ℕ) (r : List (List ℕ) × List ℕ)
    → (c == newline) ≡ false
    → put_front c (add_lines r.0 (split (r.1 ++ ys)))
      ≡ add_lines (put_front c r).0 (split ((put_front c r).1 ++ ys))
front-append c ys ([], tail) other = rw other refl
front-append c ys (l ∷ ls, tail) other = refl

-- A text in two pieces: what is behind the last newline of the first goes before the second.
split-append :
    (xs ys : List ℕ) → split (xs ++ ys) ≡ add_lines (split xs).0 (split ((split xs).1 ++ ys))
split-append [] ys = refl
split-append (c ∷ xs) ys = elim (Bool-cases (c == newline)) [
  | inl nl ↦ rw (nl, split-append xs ys) refl
  | inr other ↦ rw (other, split-append xs ys) (front-append c ys (split xs) other)
]

split-IsLine : (l : List ℕ) → IsLine l → split l ≡ ([], l)
split-IsLine [] h = refl
split-IsLine (c ∷ l) h =
    let e : (c == newline) ≡ false = ground (arith, h.0) in rw (e, split-IsLine l h.2) refl

split-line :
    (l ys : List ℕ) → IsLine l → split (l ++ (newline ∷ ys)) ≡ add_lines (l ∷ []) (split ys)
split-line [] ys h = refl
split-line (c ∷ l) ys h =
    let e : (c == newline) ≡ false = ground (arith, h.0) in rw (e, split-line l ys h.2) refl

-- What is behind the last newline has none.
put_front-tail :
    (c : ℕ) (r : List (List ℕ) × List ℕ)
    → (c == newline) ≡ false
    → split r.1 ≡ ([], r.1)
    → split (put_front c r).1 ≡ ([], (put_front c r).1)
put_front-tail c ([], tail) other h = rw (other, h) refl
put_front-tail c (l ∷ ls, tail) other h = h

split-tail : (xs : List ℕ) → split (split xs).1 ≡ ([], (split xs).1)
split-tail [] = refl
split-tail (c ∷ xs) = elim (Bool-cases (c == newline)) [
  | inl nl ↦ rw nl (split-tail xs)
  | inr other ↦ rw other (put_front-tail c (split xs) other (split-tail xs))
]

put_front-nonzero :
    (c : ℕ) (r : List (List ℕ) × List ℕ) → c ≢ 0 → AllNonzero r.1 → AllNonzero (put_front c r).1
put_front-nonzero c ([], tail) h a = (h, a)
put_front-nonzero c (l ∷ ls, tail) h a = a

split-nonzero : (xs : List ℕ) → AllNonzero xs → AllNonzero (split xs).1
split-nonzero [] h = tt
split-nonzero (c ∷ xs) h = elim (Bool-cases (c == newline)) [
  | inl nl ↦ rw nl (split-nonzero xs h.1)
  | inr other ↦ rw other (put_front-nonzero c (split xs) h.0 (split-nonzero xs h.1))
]

split-unlines :
    (ls : List (List ℕ)) (tail : List ℕ)
    → AllLines ls
    → IsLine tail
    → split (unlines ls ++ tail) ≡ (ls, tail)
split-unlines [] tail a h = split-IsLine tail h
split-unlines (l ∷ ls) tail a h =
    ap split (append_assoc l (newline ∷ unlines ls) tail)
    ∙ split-line l (unlines ls ++ tail) a.0
    ∙ ap (add_lines (l ∷ [])) (split-unlines ls tail a.1 h)

-- What `find_newline` returns on a text without a NUL.
abbrev FirstLine : List ℕ → Option (List ℕ × List ℕ) → Type 0
FirstLine buf none = split buf ≡ ([], buf)
FirstLine buf (some (l, more)) =
    (split buf ≡ add_lines (l ∷ []) (split more)) × (length more < length buf) × AllNonzero more

FirstLine-longer :
    (c : ℕ) (cs : List ℕ) (o : Option (List ℕ × List ℕ))
    → (c == newline) ≡ false
    → FirstLine cs o
    → FirstLine (c ∷ cs) (elim o [ none ↦ none | some (line, more) ↦ some (c ∷ line, more) ])
FirstLine-longer c cs none other h = rw (other, h) refl
FirstLine-longer c cs (some (l, more)) other h = (rw (other, h.0) refl, omega (arith, h.1), h.2)

find_newline-FirstLine : (buf : List ℕ) → AllNonzero buf → FirstLine buf (find_newline buf)
unfolding find_newline
find_newline-FirstLine [] h = refl
find_newline-FirstLine (c ∷ cs) h =
    let nonzero : (c == 0) ≡ false = ground (arith, h.0) in
    elim (Bool-cases (c == newline)) [
      | inl nl ↦ rw (nonzero, nl) (rw nl refl, omega arith, h.1)
      | inr other ↦
          rw (nonzero, other)
            (FirstLine-longer c cs (find_newline cs) other (find_newline-FirstLine cs h.1))
    ]

print_first :
    (pattern line : List ℕ) (r : List (List ℕ) × List ℕ)
    → ◌≡◌ {A = List ℕ × List ℕ}
        (
          if match pattern line
              then line ++ ((newline ∷ []) ++ unlines (selected pattern r.0))
              else unlines (selected pattern r.0),
          r.1,
        )
        (unlines (selected pattern (line ∷ r.0)), r.1)
print_first pattern line r = elim (Bool-cases (match pattern line)) [
  | inl yes_it_does ↦ rw yes_it_does refl
  | inr other ↦ rw other refl
]

print_lines-split :
    (pattern : List ℕ) (left : ℕ) (buf : List ℕ)
    → AllNonzero buf
    → length buf ≤ left
    → print_lines pattern left buf ≡ (unlines (selected pattern (split buf).0), (split buf).1)
unfolding print_lines
print_lines-split pattern zero [] h l = refl
print_lines-split pattern zero (c ∷ buf) h l = absurd (omega (arith, l))
print_lines-split pattern (suc left) buf h l =
    let first : FirstLine buf (find_newline buf) = find_newline-FirstLine buf h in
    elim (Option-cases (find_newline buf)) [
      | inl e ↦
          let whole : split buf ≡ ([], buf) = subst (FirstLine buf) e first in
          rw (e, whole, print_lines) refl
      | inr ((line, more), e) ↦
          let found : FirstLine buf (some (line, more)) = subst (FirstLine buf) e first in
          rw
            (
              e,
              found.0,
              print_lines-split pattern left more found.2 (omega (arith, found.1, l)),
              print_lines,
            )
            (print_first pattern line (split more))
    ]

unlines-append : (ls ms : List (List ℕ)) → unlines (ls ++ ms) ≡ unlines ls ++ unlines ms
unlines-append [] ms = refl
unlines-append (l ∷ ls) ms =
    ap (λ xs. l ++ (newline ∷ xs)) (unlines-append ls ms)
    ∙ sym (append_assoc l (newline ∷ unlines ls) (unlines ms))

selected-append :
    (pattern : List ℕ) (ls ms : List (List ℕ))
    → selected pattern (ls ++ ms) ≡ selected pattern ls ++ selected pattern ms
selected-append pattern [] ms = refl
selected-append pattern (l ∷ ls) ms = elim (Bool-cases (match pattern l)) [
  | inl e ↦ rw (e, selected-append pattern ls ms) refl
  | inr e ↦ rw (e, selected-append pattern ls ms) refl
]

AllNonzero-append_left : (xs ys : List ℕ) → AllNonzero (xs ++ ys) → AllNonzero xs
AllNonzero-append_left [] ys h = tt
AllNonzero-append_left (x ∷ xs) ys h = (h.0, AllNonzero-append_left xs ys h.1)

AllNonzero-append : (xs ys : List ℕ) → AllNonzero xs → AllNonzero ys → AllNonzero (xs ++ ys)
AllNonzero-append [] ys a b = b
AllNonzero-append (x ∷ xs) ys a b = (a.0, AllNonzero-append xs ys a.1 b)

AllNonzero-append_right : (xs ys : List ℕ) → AllNonzero (xs ++ ys) → AllNonzero ys
AllNonzero-append_right [] ys h = h
AllNonzero-append_right (x ∷ xs) ys h = AllNonzero-append_right xs ys h.1

grep-split :
    (pattern : List ℕ) (reads : List (List ℕ)) (buf : List ℕ)
    → AllNonzero (buf ++ concat reads)
    → (split buf).0 ≡ []
    → grep pattern reads buf ≡ unlines (selected pattern (split (buf ++ concat reads)).0)
unfolding grep
grep-split pattern [] buf h e = rw (append-nil buf, e) refl
grep-split pattern (chunk ∷ chunks) buf h e =
    let all : AllNonzero ((buf ++ chunk) ++ concat chunks) =
      subst AllNonzero (sym (append_assoc buf chunk (concat chunks))) h in
    let these : AllNonzero (buf ++ chunk) =
      AllNonzero-append_left (buf ++ chunk) (concat chunks) all in
    let rest : List ℕ = (split (buf ++ chunk)).1 in
    let printed : print_lines pattern (length (buf ++ chunk)) (buf ++ chunk)
        ≡ (unlines (selected pattern (split (buf ++ chunk)).0), rest) =
      print_lines-split pattern (length (buf ++ chunk)) (buf ++ chunk) these (omega arith) in
    let nonzero : AllNonzero (rest ++ concat chunks) =
      AllNonzero-append rest (concat chunks) (split-nonzero (buf ++ chunk) these)
        (AllNonzero-append_right (buf ++ chunk) (concat chunks) all) in
    let ih : grep pattern chunks rest
        ≡ unlines (selected pattern (split (rest ++ concat chunks)).0) =
      grep-split pattern chunks rest nonzero (ap (λ r. r.0) (split-tail (buf ++ chunk))) in
    ap (λ r. r.0 ++ grep pattern chunks r.1) printed
    ∙ (ap (λ xs. unlines (selected pattern (split (buf ++ chunk)).0) ++ xs) ih
        ∙ sym (
            ap (λ xs. unlines (selected pattern (split xs).0))
              (sym (append_assoc buf chunk (concat chunks)))
            ∙ ap (λ r. unlines (selected pattern r.0)) (split-append (buf ++ chunk) (concat chunks))
            ∙ ap unlines
                (selected-append pattern (split (buf ++ chunk)).0 (split (rest ++ concat chunks)).0)
            ∙ unlines-append (selected pattern (split (buf ++ chunk)).0)
                (selected pattern (split (rest ++ concat chunks)).0)))

IsLine-nonzero : (l : List ℕ) → IsLine l → AllNonzero l
IsLine-nonzero [] h = tt
IsLine-nonzero (c ∷ l) h = (h.1, IsLine-nonzero l h.2)

unlines-nonzero : (ls : List (List ℕ)) → AllLines ls → AllNonzero (unlines ls)
unlines-nonzero [] a = tt
unlines-nonzero (l ∷ ls) a =
    AllNonzero-append l (newline ∷ unlines ls) (IsLine-nonzero l a.0)
      (omega arith, unlines-nonzero ls a.1)

-- However `read` cuts a text without NULs into pieces, as long as it gives all of it, `grep` writes
-- exactly the lines that match, whole and in order; what is behind the last newline is not looked
-- at.
pub grep_lem :
    (pattern : List ℕ) (reads ls : List (List ℕ)) (tail : List ℕ)
    → AllLines ls
    → IsLine tail
    → concat reads ≡ unlines ls ++ tail
    → grep pattern reads [] ≡ unlines (selected pattern ls)
grep_lem pattern reads ls tail a h e =
    let nonzero : AllNonzero (concat reads) =
      subst AllNonzero (sym e)
        (AllNonzero-append (unlines ls) tail (unlines-nonzero ls a) (IsLine-nonzero tail h)) in
    grep-split pattern reads [] nonzero refl
    ∙ ap (λ r. unlines (selected pattern r))
        (ap (λ x. (split x).0) e ∙ ap (λ r. r.0) (split-unlines ls tail a h))
