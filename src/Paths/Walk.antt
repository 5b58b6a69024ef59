-- ===== src/Paths/Walk.antt =====
-- kernel/fs.c: `namex` as a walk along the elements of a path, and the references that it takes.
use os_assignment.Prelude.{
  ℕ, zero, suc, ◌+◌, ◌<◌, ◌≡◌, ◌≢◌, refl, ap, ◌⊎◌, inl, inr, Bool, true, false, ◌&&◌, none, some,
  List, [], ◌∷◌, ◌==◌, arith, if◌then◌else◌, length, Bool-cases, Option-cases,
}
use mathlib.Core.Path.{subst}
use os_assignment.Paths.{
  skipelem, Dirent, dirlookup, Lookup, found, missing, out_of_fuel, is_end, Refs, iget, iput,
  namex_loop, namex, root, starts_at_root,
}
use os_assignment.Paths.Elements.{elements, Takes, Skips, skipelem-Skips, is_end-elements}

module _ (is_dir : ℕ → Bool) (entries : ℕ → List Dirent) where
  -- The inode at the end of the elements, or the one before the last, with the last name.
  abbrev pub resolve : (parent : Bool) → (ip : ℕ) → List (List ℕ) → Lookup
  resolve true ip [] = missing
  resolve false ip [] = found ip []
  resolve true ip (n ∷ []) = if is_dir ip then found ip n else missing
  resolve false ip (n ∷ []) =
      if is_dir ip
      then (elim (dirlookup (entries ip) n) [ none ↦ missing | some next ↦ found next [] ])
      else missing
  resolve parent ip (n ∷ m ∷ ns) =
      if is_dir ip
      then (elim (dirlookup (entries ip) n) [
        | none ↦ missing
        | some next ↦ resolve parent next (m ∷ ns)
      ])
      else missing

-- One reference to an inode, by number.
abbrev one : ℕ → ℕ → ℕ
one i k = if k == i then 1 else 0

-- The references that the caller gets: one to the inode that was found.
abbrev pub gained : Lookup → ℕ → ℕ
gained (found i name) k = one i k
gained missing k = 0
gained out_of_fuel k = 0

abbrev pub Gains : (base : Refs) → Lookup × Refs → Type 0
Gains base (l, refs) = (k : ℕ) → refs k ≡ base k + gained l k

module _ (base refs : Refs) (ip : ℕ) (h : (k : ℕ) → refs k ≡ base k + one ip k) where
  given_back : Gains base (missing, iput ip refs)
  given_back k = elim (Bool-cases (k == ip)) [
    | inl same ↦ ground (arith, same, h k, h ip)
    | inr other ↦ ground (arith, other, h k)
  ]

  handed_on : (next k : ℕ) → iput ip (iget next refs) k ≡ base k + one next k
  handed_on next k = ground (arith, h k, h ip, h next)

ends : (rest : List ℕ) → rest ≡ [] → (true && is_end rest) ≢ false
ends rest e h = ground (arith, ap is_end e, h)

end-empty : (rest : List ℕ) → is_end rest ≡ true → rest ≡ []
end-empty [] h = refl
end-empty (c ∷ cs) h = absurd (cc)

abbrev pub Resolves : (l : Lookup) (base : Refs) → Lookup × Refs → Type 0
Resolves l base r = (r.0 ≡ l) × Gains base r

module _ (is_dir : ℕ → Bool) (entries : ℕ → List Dirent) where
  -- One round on an element that is not the last one, or for `namei`.
  module _ (parent : Bool) (fuel ip : ℕ) (name rest : List ℕ) (base refs : Refs) where
    abbrev next_round : Lookup × Refs
    next_round = elim (dirlookup (entries ip) name) [
      | none ↦ (missing, iput ip refs)
      | some next ↦ namex_loop is_dir entries fuel parent next rest (iput ip (iget next refs))
    ]

    abbrev next_names : List (List ℕ) → Lookup
    next_names ns = elim (dirlookup (entries ip) name) [
      | none ↦ missing
      | some next ↦ resolve is_dir entries parent next ns
    ]

    next_round-Resolves :
        ((k : ℕ) → refs k ≡ base k + one ip k)
        → ((next : ℕ) (refs' : Refs)
            → ((k : ℕ) → refs' k ≡ base k + one next k)
            → Resolves
                (resolve is_dir entries parent next (elements rest))
                base
                (namex_loop is_dir entries fuel parent next rest refs'))
        → Resolves (next_names (elements rest)) base next_round
    next_round-Resolves h more = elim (Option-cases (dirlookup (entries ip) name)) [
      | inl nobody ↦ rw (next_names, next_round, nobody) (refl, given_back base refs ip h)
      | inr (next, there) ↦
          rw (next_names, next_round, there)
            (more next (iput ip (iget next refs)) (handed_on base refs ip h next))
    ]

  resolve-file :
      (parent : Bool) (ip : ℕ) (n : List ℕ) (ns : List (List ℕ))
      → is_dir ip ≡ false
      → resolve is_dir entries parent ip (n ∷ ns) ≡ missing
  resolve-file true ip n [] h = rw h refl
  resolve-file false ip n [] h = rw h refl
  resolve-file true ip n (m ∷ ns) h = rw h refl
  resolve-file false ip n (m ∷ ns) h = rw h refl

  -- In a directory, the walk goes on behind the first element, unless it is the last one's parent.
  resolve-dir :
      (parent : Bool) (fuel ip : ℕ) (n rest : List ℕ) (base refs : Refs)
      → is_dir ip ≡ true
      → (parent && is_end rest) ≡ false
      → (rest ≡ [])
        ⊎ ((m : List ℕ) × (ms : List (List ℕ)) × (is_end rest ≡ false) × (elements rest ≡ m ∷ ms))
      → resolve is_dir entries parent ip (n ∷ elements rest)
        ≡ next_names parent fuel ip n rest base refs (elements rest)
  resolve-dir true fuel ip n rest base refs h go (inl none_left) = absurd (ends rest none_left go)
  resolve-dir false fuel ip n rest base refs h go (inl none_left) = rw (none_left, h) refl
  resolve-dir true fuel ip n rest base refs h go (inr (m, ms, more, e)) = rw (e, h) refl
  resolve-dir false fuel ip n rest base refs h go (inr (m, ms, more, e)) = rw (e, h) refl

  loop-Resolves :
      (parent : Bool) (fuel ip : ℕ) (path : List ℕ) (base refs : Refs)
      → length path < fuel
      → ((k : ℕ) → refs k ≡ base k + one ip k)
      → Resolves
          (resolve is_dir entries parent ip (elements path))
          base
          (namex_loop is_dir entries fuel parent ip path refs)
  unfolding namex_loop
  loop-Resolves parent zero ip path base refs f h = absurd (omega arith)
  loop-Resolves parent (suc fuel) ip path base refs f h = elim (Option-cases (skipelem path)) [
    | inl none_left ↦
        let e : elements path ≡ [] = subst (Skips path) none_left (skipelem-Skips path) in
        rw (namex_loop, none_left, e)
          (elim (Bool-cases parent) [
            | inl up ↦ rw up (refl, given_back base refs ip h)
            | inr down ↦ rw down (refl, h)
          ])
    | inr ((name, rest), taken) ↦
        let t : Takes path name rest = subst (Skips path) taken (skipelem-Skips path) in
        rw (namex_loop, taken, t.first)
          (elim (Bool-cases (is_dir ip)) [
            | inr file ↦
                rw (resolve-file parent ip name (elements rest) file, file)
                  (refl, given_back base refs ip h)
            | inl dir ↦ elim (Bool-cases (parent && is_end rest)) [
              | inl stop ↦
                  let up : parent ≡ true = ground (arith, stop) in
                  let last : rest ≡ [] = end-empty rest (ground (arith, stop)) in
                  rw (up, last, dir) (refl, h)
              | inr go ↦
                  rw
                    (resolve-dir parent fuel ip name rest base refs dir go
                      (is_end-elements rest t.stripped))
                    (rw (dir, go)
                      (next_round-Resolves parent fuel ip name rest base refs h (λ next refs' h'.
                        loop-Resolves parent fuel next rest base refs' (omega (arith, t.shorter, f))
                          h')))
            ]
          ])
  ]

  -- `namex` walks along the elements of the path, from the root if it begins with a slash and from the
  -- current directory if not; it always ends, and of all the references that it takes it keeps one
  -- to the inode that it returns, and none if it returns 0.
  pub namex-Resolves :
      (parent : Bool) (cwd : ℕ) (path : List ℕ) (base : Refs)
      → Resolves
          (resolve is_dir entries parent
            (if starts_at_root path then root else cwd)
            (elements path))
          base
          (namex is_dir entries parent cwd path base)
  unfolding namex
  namex-Resolves parent cwd path base =
      let ip : ℕ = if starts_at_root path then root else cwd in
      loop-Resolves parent (length path + 1) ip path base (iget ip base) (omega arith)
        (λ k. ground arith)
