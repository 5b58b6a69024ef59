-- ===== src/Paths/Elements.antt =====
-- kernel/fs.c: the elements of a path, and `skipelem` as the walk over them.
use os_assignment.Prelude.{
  ℕ, ◌<◌, ◌≤◌, ◌≡◌, refl, ap, sym, ◌∙◌, ◌⊎◌, inl, inr, true, false, Option, none, some, List, [],
  ◌∷◌, arith, if◌then◌else◌, take, length, Bool-cases,
}
use os_assignment.Paths.{dirsiz, is_slash, skip_slashes, element, skip_element, skipelem, is_end}

-- The pieces between slashes, empty ones too.
abbrev pub add_to_first : ℕ → List (List ℕ) → List (List ℕ)
add_to_first c [] = (c ∷ []) ∷ []
add_to_first c (p ∷ ps) = (c ∷ p) ∷ ps

abbrev pub pieces : List ℕ → List (List ℕ)
pieces [] = [] ∷ []
pieces (c ∷ cs) = if is_slash c then [] ∷ pieces cs else add_to_first c (pieces cs)

-- The elements of a list of pieces: those that are not empty, up to DIRSIZ characters of each.
abbrev pub names : List (List ℕ) → List (List ℕ)
names [] = []
names ([] ∷ ps) = names ps
names ((c ∷ cs) ∷ ps) = take dirsiz (c ∷ cs) ∷ names ps

-- The elements of a path.
abbrev pub elements : List ℕ → List (List ℕ)
elements path = names (pieces path)

names-skip_slashes : (path : List ℕ) → elements (skip_slashes path) ≡ elements path
names-skip_slashes [] = refl
names-skip_slashes (c ∷ cs) = elim (Bool-cases (is_slash c)) [
  | inl slash ↦ rw slash (names-skip_slashes cs)
  | inr other ↦ let same : skip_slashes (c ∷ cs) ≡ c ∷ cs = rw other refl in ap elements same
]

-- The pieces behind the first one.
abbrev behind : List ℕ → List (List ℕ)
behind [] = []
behind (c ∷ cs) = pieces cs

pieces-element : (path : List ℕ) → pieces path ≡ (element path).0 ∷ behind (element path).1
pieces-element [] = refl
pieces-element (c ∷ cs) = elim (Bool-cases (is_slash c)) [
  | inl slash ↦ rw slash refl
  | inr other ↦ rw other (ap (add_to_first c) (pieces-element cs))
]

-- What `element` stops at.
abbrev Stops : List ℕ → Type 0
Stops [] = Unit
Stops (c ∷ cs) = is_slash c ≡ true

element-Stops : (path : List ℕ) → Stops (element path).1
element-Stops [] = tt
element-Stops (c ∷ cs) = elim (Bool-cases (is_slash c)) [
  | inl slash ↦ rw slash slash
  | inr other ↦ rw other (element-Stops cs)
]

names-behind : (path : List ℕ) → Stops path → names (behind path) ≡ elements path
names-behind [] h = refl
names-behind (c ∷ cs) h = rw h refl

abbrev NoSlash : List ℕ → Type 0
NoSlash [] = Unit
NoSlash (c ∷ cs) = is_slash c ≡ false

skip_slashes-NoSlash : (path : List ℕ) → NoSlash (skip_slashes path)
skip_slashes-NoSlash [] = tt
skip_slashes-NoSlash (c ∷ cs) = elim (Bool-cases (is_slash c)) [
  | inl slash ↦ rw slash (skip_slashes-NoSlash cs)
  | inr other ↦ rw other other
]

pub length-skip_slashes : (path : List ℕ) → length (skip_slashes path) ≤ length path
length-skip_slashes [] = omega arith
length-skip_slashes (c ∷ cs) = ground (arith, length-skip_slashes cs)

length-element : (path : List ℕ) → length (element path).1 ≤ length path
length-element [] = omega arith
length-element (c ∷ cs) = ground (arith, length-element cs)

-- What `skipelem` takes off a path.
pub record Takes (path name rest : List ℕ) : Type 0 where
  pub first : elements path ≡ name ∷ elements rest
  pub shorter : length rest < length path
  -- No slash in front, so the rest is empty exactly if the name was the last one.
  pub stripped : NoSlash rest

abbrev pub Skips : (path : List ℕ) → Option (List ℕ × List ℕ) → Type 0
Skips path none = elements path ≡ []
Skips path (some (name, rest)) = Takes path name rest

skip_element-Skips : (path : List ℕ) → NoSlash path → Skips path (skip_element path)
skip_element-Skips [] h = refl
skip_element-Skips (c ∷ cs) h =
    let rest : List ℕ = (element cs).1 in
    record {
      first =
          ap names (pieces-element (c ∷ cs))
          ∙ rw h (
              ap (λ ns. take dirsiz (c ∷ (element cs).0) ∷ ns)
                (names-behind rest (element-Stops cs) ∙ sym (names-skip_slashes rest)));
      shorter = rw h (omega (arith, length-skip_slashes rest, length-element cs));
      stripped = skip_slashes-NoSlash (element (c ∷ cs)).1;
    }

skipped :
    (path : List ℕ) (o : Option (List ℕ × List ℕ)) → Skips (skip_slashes path) o → Skips path o
skipped path none h = sym (names-skip_slashes path) ∙ h
skipped path (some (name, rest)) h = record {
  first = sym (names-skip_slashes path) ∙ h.first;
  shorter = omega (arith, h.shorter, length-skip_slashes path);
  stripped = h.stripped;
}

pub skipelem-Skips : (path : List ℕ) → Skips path (skipelem path)
unfolding skipelem
skipelem-Skips path =
    skipped path (skip_element (skip_slashes path))
      (skip_element-Skips (skip_slashes path) (skip_slashes-NoSlash path))

-- A path that does not begin with a slash has an element, unless it is empty.
pub is_end-elements :
    (path : List ℕ)
    → NoSlash path
    → (path ≡ [])
      ⊎ ((n : List ℕ) × (ns : List (List ℕ)) × (is_end path ≡ false) × (elements path ≡ n ∷ ns))
is_end-elements [] h = inl refl
is_end-elements (c ∷ cs) h = inr (_, _, refl, (skip_element-Skips (c ∷ cs) h).first)
