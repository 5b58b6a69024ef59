-- ===== src/Paths.antt =====
-- kernel/fs.c: path names. A path is the list of its characters up to the NUL.
mod Tests
pub mod Walk
pub mod Elements
use os_assignment.Prelude.{
  ℕ, zero, suc, ◌+◌, ◌-◌, Bool, true, false, not, ◌&&◌, Option, none, some, List, [], ◌∷◌, ◌==◌,
  if◌then◌else◌, take, update, length,
}

-- DIRSIZ
abbrev pub dirsiz : ℕ
dirsiz = 14

abbrev pub is_slash : ℕ → Bool
is_slash c = c == b'/'

abbrev pub skip_slashes : List ℕ → List ℕ
skip_slashes [] = []
skip_slashes (c ∷ cs) = if is_slash c then skip_slashes cs else c ∷ cs

-- The loop up to the next slash: what it goes over, and what is behind.
abbrev pub element : List ℕ → List ℕ × List ℕ
element [] = ([], [])
element (c ∷ cs) =
    let rest = element cs in if is_slash c then ([], c ∷ cs) else (c ∷ rest.0, rest.1)

abbrev pub skip_element : List ℕ → Option (List ℕ × List ℕ)
skip_element [] = none
skip_element (c ∷ cs) = some (take dirsiz (element (c ∷ cs)).0, skip_slashes (element (c ∷ cs)).1)

-- `skipelem`: the name, which ends at a NUL or at DIRSIZ bytes, and the rest of the path; `none` for 0.
unfoldable pub skipelem : List ℕ → Option (List ℕ × List ℕ)
skipelem path = skip_element (skip_slashes path)

-- `struct dirent`
pub record Dirent : Type 0 where
  pub inum : ℕ
  pub name : List ℕ

-- `namecmp(s, t) == 0`, for names of at most DIRSIZ bytes.
abbrev pub same_name : List ℕ → List ℕ → Bool
same_name [] [] = true
same_name [] (t ∷ ts) = false
same_name (s ∷ ss) [] = false
same_name (s ∷ ss) (t ∷ ts) = (s == t) && same_name ss ts

-- The loop of `dirlookup` over the entries of a directory: the inode number, `none` for 0.
unfoldable pub dirlookup : List Dirent → List ℕ → Option ℕ
dirlookup [] name = none
dirlookup (d ∷ ds) name =
    let rest = dirlookup ds name in
    if not (d.inum == 0) && same_name name d.name then some d.inum else rest

-- What `namex` finds: an inode, with the last element of the path for `nameiparent`.
pub data Lookup : Type 0 where
  found : (inum : ℕ) → (name : List ℕ) → Lookup
  missing : Lookup
  out_of_fuel : Lookup

abbrev pub is_end : List ℕ → Bool
is_end [] = true
is_end (c ∷ cs) = false

-- References to inodes, by inode number: `iget` and `idup` add one, `iput` takes one back.
abbrev pub Refs : Type 0
Refs = ℕ → ℕ

abbrev pub iget : ℕ → Refs → Refs
iget i refs = update refs i (refs i + 1)

abbrev pub iput : ℕ → Refs → Refs
iput i refs = update refs i (refs i - 1)

-- ROOTINO
abbrev pub root : ℕ
root = 1

abbrev pub starts_at_root : List ℕ → Bool
starts_at_root [] = false
starts_at_root (c ∷ cs) = is_slash c

-- The inodes on the disk: whether one is a directory, and the entries that `readi` reads from it.
module _ (is_dir : ℕ → Bool) (entries : ℕ → List Dirent) where
  -- The loop of `namex` from inode `ip` on.
  unfoldable pub namex_loop :
      (fuel : ℕ) → (parent : Bool) → (ip : ℕ) → List ℕ → Refs → Lookup × Refs
  unfolding skipelem dirlookup
  namex_loop zero parent ip path refs = (out_of_fuel, refs)
  namex_loop (suc fuel) parent ip path refs = elim (skipelem path) [
    | none ↦ if parent then (missing, iput ip refs) else (found ip [], refs)
    | some (name, rest) ↦
        if not (is_dir ip)
        then (missing, iput ip refs)
        else if parent && is_end rest
        then (found ip name, refs)
        else (elim (dirlookup (entries ip) name) [
          | none ↦ (missing, iput ip refs)
          | some next ↦ namex_loop fuel parent next rest (iput ip (iget next refs))
        ])
  ]

  -- `namex`, from directory `cwd`. Every round takes a character off the path.
  unfoldable pub namex : (parent : Bool) → (cwd : ℕ) → List ℕ → Refs → Lookup × Refs
  unfolding namex_loop
  namex parent cwd path refs =
      let ip = if starts_at_root path then root else cwd in
      namex_loop (length path + 1) parent ip path (iget ip refs)
