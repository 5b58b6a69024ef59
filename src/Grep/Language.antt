-- ===== src/Grep/Language.antt =====
-- user/grep.c: what a pattern means, as a set of texts.
use os_assignment.Prelude.{ℕ, ◌≡◌, Bool, true, false, List, [], ◌∷◌, ◌++◌, ◌==◌, if◌then◌else◌}
use os_assignment.Grep.{accepts}

-- A character of the pattern, once or any number of times.
pub data Item : Type 0 where
  once star : ℕ → Item

-- The texts that the items describe, from end to end.
pub data InLanguage : List Item → List ℕ → Type 0 where
  empty : InLanguage [] []
  char :
      {c t : ℕ} {is : List Item} {ts : List ℕ}
      → accepts c t ≡ true
      → InLanguage is ts
      → InLanguage (once c ∷ is) (t ∷ ts)
  leave : {c : ℕ} {is : List Item} {ts : List ℕ} → InLanguage is ts → InLanguage (star c ∷ is) ts
  again :
      {c t : ℕ} {is : List Item} {ts : List ℕ}
      → accepts c t ≡ true
      → InLanguage (star c ∷ is) ts
      → InLanguage (star c ∷ is) (t ∷ ts)

-- The items of a pattern without its `^`, and whether it ends in the operator `$`.
abbrev pub items : List ℕ → List Item
items [] = []
items (c ∷ []) = if c == b'$' then [] else once c ∷ []
items (c ∷ d ∷ re) =
    let behind = items re in
    let more = items (d ∷ re) in if d == b'*' then star c ∷ behind else once c ∷ more

abbrev pub at_end : List ℕ → Bool
at_end [] = false
at_end (c ∷ []) = c == b'$'
at_end (c ∷ d ∷ re) =
    let behind = at_end re in let more = at_end (d ∷ re) in if d == b'*' then behind else more

-- A text that begins with one that the items describe, and ends there if the pattern says so.
pub record Begins (is : List Item) (to_end : Bool) (ts : List ℕ) : Type 0 where
  pub found : List ℕ
  pub rest : List ℕ
  pub split : ts ≡ found ++ rest
  pub described : InLanguage is found
  pub ends : to_end ≡ true → rest ≡ []

-- What `^` stands for: the pattern begins with it, and is matched at the start only.
pub record Contains (re ts : List ℕ) : Type 0 where
  pub before : List ℕ
  pub behind : List ℕ
  pub split : ts ≡ before ++ behind
  pub begins : Begins (items re) (at_end re) behind

abbrev pub Matches : (re ts : List ℕ) → Type 0
Matches [] ts = Contains [] ts
Matches (c ∷ re) ts = if c == b'^' then Begins (items re) (at_end re) ts else Contains (c ∷ re) ts
