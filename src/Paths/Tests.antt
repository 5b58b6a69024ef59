-- ===== src/Paths/Tests.antt =====
-- Runs of the model of path names, and its theorem at a concrete input.
use os_assignment.Prelude.{
  ℕ, ◌≡◌, ◌||◌, refl, Bool, true, false, some, none, List, [], ◌∷◌, ◌==◌, if◌then◌else◌,
}
use os_assignment.Paths.{
  Dirent, found, skipelem, dirlookup, namex, namex_loop, root, starts_at_root,
}
use os_assignment.Paths.Elements.{elements}
use os_assignment.Paths.Walk.{Resolves, resolve, namex-Resolves}

-- The examples in the comment of `skipelem`: ///a//bb and ////
skip_first :
    skipelem (b'/' ∷ b'/' ∷ b'/' ∷ b'a' ∷ b'/' ∷ b'/' ∷ b'b' ∷ b'b' ∷ [])
    ≡ some (b'a' ∷ [], b'b' ∷ b'b' ∷ [])
unfolding skipelem
skip_first = refl

skip_nothing : skipelem (b'/' ∷ b'/' ∷ b'/' ∷ b'/' ∷ []) ≡ none
unfolding skipelem
skip_nothing = refl

-- The root has a directory d with a file f in it.
abbrev is_dir : ℕ → Bool
is_dir i = (i == 1) || (i == 2)

abbrev entries : ℕ → List Dirent
entries i =
    if i == 1
    then record { inum = 2; name = b'd' ∷ [] } ∷ []
    else record { inum = 0; name = b'f' ∷ [] } ∷ record { inum = 3; name = b'f' ∷ [] } ∷ []

-- /d//f/
abbrev path : List ℕ
path = b'/' ∷ b'd' ∷ b'/' ∷ b'/' ∷ b'f' ∷ b'/' ∷ []

finds_file : (namex is_dir entries false 9 path (λ i. 0)).0 ≡ found 3 []
unfolding namex namex_loop skipelem dirlookup
finds_file = refl

finds_parent : (namex is_dir entries true 9 path (λ i. 0)).0 ≡ found 2 (b'f' ∷ [])
unfolding namex namex_loop skipelem dirlookup
finds_parent = refl

namex-Resolves_example :
    Resolves
      (resolve is_dir entries false (if starts_at_root path then root else 9) (elements path))
      (λ i. 0)
      (namex is_dir entries false 9 path (λ i. 0))
namex-Resolves_example = namex-Resolves is_dir entries false 9 path (λ i. 0)
