-- ===== src/Grep/Matcher.antt =====
-- user/grep.c: the matcher against the meaning of patterns.
use os_assignment.Prelude.{
  ℕ, ◌≡◌, ◌↔◌, ◌⊎◌, inl, inr, refl, ap, sym, ◌∙◌, Bool, true, false, ◌&&◌, ◌||◌, List, [], ◌∷◌,
  ◌++◌, ◌==◌, Bool-cases,
}
use mathlib.Core.Path.{subst}
use os_assignment.Grep.{is_end, accepts, match_star, match_char, match_here, match_from, match}
use os_assignment.Grep.Language.{
  Item, once, star, InLanguage, empty, char, leave, again, items, at_end, Begins, Contains, Matches,
}

-- A function that decides what a list of items says of the beginning of a text.
record Decides (is : List Item) (to_end : Bool) (here : List ℕ → Bool) : Type 0 where
  sound : (ts : List ℕ) → here ts ≡ true → Begins is to_end ts
  complete : (ts : List ℕ) → Begins is to_end ts → here ts ≡ true

Begins-leave :
    {c : ℕ} {is : List Item} {e : Bool} {ts : List ℕ} → Begins is e ts → Begins (star c ∷ is) e ts
Begins-leave b = record {
  found = b.found;
  rest = b.rest;
  split = b.split;
  described = leave b.described;
  ends = b.ends;
}

Begins-again :
    {c t : ℕ} {is : List Item} {e : Bool} {ts : List ℕ}
    → accepts c t ≡ true
    → Begins (star c ∷ is) e ts
    → Begins (star c ∷ is) e (t ∷ ts)
Begins-again {t} a b = record {
  found = t ∷ b.found;
  rest = b.rest;
  split = ap (λ xs. t ∷ xs) b.split;
  described = again a b.described;
  ends = b.ends;
}

Begins-char :
    {c t : ℕ} {is : List Item} {e : Bool} {ts : List ℕ}
    → accepts c t ≡ true
    → Begins is e ts
    → Begins (once c ∷ is) e (t ∷ ts)
Begins-char {t} a b = record {
  found = t ∷ b.found;
  rest = b.rest;
  split = ap (λ xs. t ∷ xs) b.split;
  described = char a b.described;
  ends = b.ends;
}

or_true : (a b : Bool) → (a || b) ≡ true → (a ≡ true) ⊎ (b ≡ true)
or_true true b h = inl refl
or_true false b h = inr h

and_true : (a b : Bool) → (a && b) ≡ true → (a ≡ true) × (b ≡ true)
and_true true b h = (refl, h)
and_true false b h = absurd (cc (h))

or_right : (a : Bool) {b : Bool} → b ≡ true → (a || b) ≡ true
or_right true h = refl
or_right false h = h

items_tail : {c k : ℕ} {is js : List Item} → (star c ∷ is) ≡ (star k ∷ js) → is ≡ js
items_tail e = cc (e)

items_head : {c k : ℕ} {is js : List Item} → (star c ∷ is) ≡ (star k ∷ js) → c ≡ k
items_head e = cc (e)

once_head : {c k : ℕ} {is js : List Item} → (once c ∷ is) ≡ (once k ∷ js) → c ≡ k
once_head e = cc (e)

once_tail : {c k : ℕ} {is js : List Item} → (once c ∷ is) ≡ (once k ∷ js) → is ≡ js
once_tail e = cc (e)

module _ {is : List Item} {e : Bool} {here : List ℕ → Bool} (d : Decides is e here) (c : ℕ) where
  star_sound : (ts : List ℕ) → match_star here c ts ≡ true → Begins (star c ∷ is) e ts
  unfolding match_star
  star_sound [] h = Begins-leave (d.sound [] h)
  star_sound (t ∷ ts) h = elim (or_true (here (t ∷ ts)) _ h) [
    | inl now ↦ Begins-leave (d.sound (t ∷ ts) now)
    | inr later ↦
        let both : (accepts c t ≡ true) × (match_star here c ts ≡ true) = and_true _ _ later in
        Begins-again both.0 (star_sound ts both.1)
  ]

  here-star : (ts : List ℕ) → here ts ≡ true → match_star here c ts ≡ true
  unfolding match_star
  here-star [] h = h
  here-star (t ∷ ts) h = rw h refl

  -- By induction on how the items describe the beginning of the text.
  star_complete :
      {is' : List Item} (found ts rest : List ℕ)
      → InLanguage is' found
      → is' ≡ star c ∷ is
      → ts ≡ found ++ rest
      → (e ≡ true → rest ≡ [])
      → match_star here c ts ≡ true
  unfolding match_star
  star_complete found ts rest empty same split ends = absurd (cc (same))
  star_complete found ts rest (char a l) same split ends = absurd (cc (same))
  star_complete found ts rest (leave {is} l) same split ends = here-star ts (
      d.complete ts (record {
        found = found;
        rest = rest;
        split = split;
        described = subst (λ x. InLanguage x found) (items_tail same) l;
        ends = ends;
      }))
  star_complete found ts rest (again {c = c'} {t} {ts = ts'} a l) same split ends =
      let accepted : accepts c t ≡ true = subst (λ x. accepts x t ≡ true) (items_head same) a in
      let ih : match_star here c (ts' ++ rest) ≡ true =
        star_complete ts' (ts' ++ rest) rest l same refl ends in
      subst (λ x. match_star here c x ≡ true) (sym split)
        (or_right (here (t ∷ (ts' ++ rest))) (rw (accepted, ih) refl))

  char_sound : (ts : List ℕ) → match_char here c ts ≡ true → Begins (once c ∷ is) e ts
  unfolding match_char
  char_sound [] h = absurd (cc (h))
  char_sound (t ∷ ts) h =
      let both : (accepts c t ≡ true) × (here ts ≡ true) = and_true _ _ h in
      Begins-char both.0 (d.sound ts both.1)

  char_complete :
      {is' : List Item} (found ts rest : List ℕ)
      → InLanguage is' found
      → is' ≡ once c ∷ is
      → ts ≡ found ++ rest
      → (e ≡ true → rest ≡ [])
      → match_char here c ts ≡ true
  unfolding match_char
  char_complete found ts rest empty same split ends = absurd (cc (same))
  char_complete found ts rest (leave l) same split ends = absurd (cc (same))
  char_complete found ts rest (again a l) same split ends = absurd (cc (same))
  char_complete found ts rest (char {t} {ts = ts'} a l) same split ends =
      let accepted : accepts c t ≡ true = subst (λ x. accepts x t ≡ true) (once_head same) a in
      let ih : here (ts' ++ rest) ≡ true = d.complete (ts' ++ rest) (record {
        found = ts';
        rest = rest;
        split = refl;
        described = subst (λ x. InLanguage x ts') (once_tail same) l;
        ends = ends;
      }) in
      subst (λ x. match_char here c x ≡ true) (sym split) (rw (accepted, ih) refl)

  star-Decides : Decides (star c ∷ is) e (match_star here c)
  star-Decides = record {
    sound = star_sound;
    complete = λ ts b. star_complete b.found ts b.rest b.described refl b.split b.ends;
  }

  char-Decides : Decides (once c ∷ is) e (match_char here c)
  char-Decides = record {
    sound = char_sound;
    complete = λ ts b. char_complete b.found ts b.rest b.described refl b.split b.ends;
  }

nil-Decides : Decides [] false (match_here [])
unfolding match_here
nil-Decides = record {
  sound = λ ts h. record {
    found = [];
    rest = ts;
    split = refl;
    described = empty;
    ends = λ f. absurd (cc (f));
  };
  complete = λ ts b. refl;
}

Decides-agree :
    {is : List Item} {e : Bool} {here here' : List ℕ → Bool}
    → ((ts : List ℕ) → here' ts ≡ here ts)
    → Decides is e here
    → Decides is e here'
Decides-agree same d = record {
  sound = λ ts h. d.sound ts (sym (same ts) ∙ h);
  complete = λ ts b. same ts ∙ d.complete ts b;
}

empty_text : {is : List Item} {ts : List ℕ} → InLanguage is ts → is ≡ [] → ts ≡ []
empty_text empty same = refl
empty_text (char a l) same = absurd (cc (same))
empty_text (leave l) same = absurd (cc (same))
empty_text (again a l) same = absurd (cc (same))

end-Decides : Decides [] true is_end
end-Decides = record {
  sound = λ ts h. record {
    found = [];
    rest = ts;
    split = refl;
    described = empty;
    ends = λ t. end_nil ts h;
  };
  complete = λ ts b.
      subst (λ x. is_end x ≡ true)
        (sym (b.split ∙ ap (λ x. x ++ b.rest) (empty_text b.described refl) ∙ b.ends refl)) refl;
}
  where
    end_nil : (ts : List ℕ) → is_end ts ≡ true → ts ≡ []
    end_nil [] h = refl
    end_nil (t ∷ ts) h = absurd (cc (h))

-- `matchhere` decides whether the text begins with what the pattern describes.
match_here-Decides : (re : List ℕ) → Decides (items re) (at_end re) (match_here re)
unfolding match_here
match_here-Decides [] = nil-Decides
match_here-Decides (c ∷ []) = elim (Bool-cases (c == b'$')) [
  | inl dollar ↦ rw dollar (Decides-agree (λ ts. rw dollar refl) end-Decides)
  | inr other ↦ rw other (Decides-agree (λ ts. rw other refl) (char-Decides nil-Decides c))
]
match_here-Decides (c ∷ d ∷ re) = elim (Bool-cases (d == b'*')) [
  | inl starred ↦
      rw starred (Decides-agree (λ ts. rw starred refl) (star-Decides (match_here-Decides re) c))
  | inr other ↦
      rw other (Decides-agree (λ ts. rw other refl) (char-Decides (match_here-Decides (d ∷ re)) c))
]

Contains-later : (re : List ℕ) (t : ℕ) (ts : List ℕ) → Contains re ts → Contains re (t ∷ ts)
Contains-later re t ts k = record {
  before = t ∷ k.before;
  behind = k.behind;
  split = ap (λ xs. t ∷ xs) k.split;
  begins = k.begins;
}

match_from_sound : (re ts : List ℕ) → match_from re ts ≡ true → Contains re ts
unfolding match_from
match_from_sound re [] h = record {
  before = [];
  behind = [];
  split = refl;
  begins = (match_here-Decides re).sound [] h;
}
match_from_sound re (t ∷ ts) h = elim (or_true (match_here re (t ∷ ts)) _ h) [
  | inl here ↦ record {
    before = [];
    behind = t ∷ ts;
    split = refl;
    begins = (match_here-Decides re).sound (t ∷ ts) here;
  }
  | inr later ↦ Contains-later re t ts (match_from_sound re ts later)
]

match_here-from : (re ts : List ℕ) → match_here re ts ≡ true → match_from re ts ≡ true
unfolding match_from
match_here-from re [] h = h
match_here-from re (t ∷ ts) h = rw h refl

match_from_complete :
    (re before behind : List ℕ)
    → Begins (items re) (at_end re) behind
    → match_from re (before ++ behind) ≡ true
unfolding match_from
match_from_complete re [] behind b =
    match_here-from re behind ((match_here-Decides re).complete behind b)
match_from_complete re (t ∷ before) behind b =
    or_right (match_here re (t ∷ (before ++ behind))) (match_from_complete re before behind b)

match_from_iff : (re ts : List ℕ) → (match_from re ts ≡ true) ↔ Contains re ts
match_from_iff re ts = (
  match_from_sound re ts,
  λ k.
      subst (λ x. match_from re x ≡ true) (sym k.split)
        (match_from_complete re k.before k.behind k.begins),
)

-- `match` returns 1 exactly if the text has a part that the pattern describes: one that begins at
-- the start of the text if the pattern has `^` in front, and that ends at its end if the pattern
-- has the operator `$` there.
pub match_iff : (re ts : List ℕ) → (match re ts ≡ true) ↔ Matches re ts
unfolding match
match_iff [] ts = match_from_iff [] ts
match_iff (c ∷ re) ts = elim (Bool-cases (c == b'^')) [
  | inl anchored ↦
      let d : Decides (items re) (at_end re) (match_here re) = match_here-Decides re in
      rw anchored (d.sound ts, d.complete ts)
  | inr free ↦ rw free (match_from_iff (c ∷ re) ts)
]
