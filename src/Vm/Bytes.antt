-- ===== src/Vm/Bytes.antt =====
-- kernel/vm.c: copies to and from the memory of a process, byte by byte.
use os_assignment.Prelude.{
  ℕ, zero, suc, ◌+◌, ◌-◌, ◌%◌, ◌<◌, ◌≤◌, ◌≡◌, ◌⊎◌, ◌∙◌, inl, inr, refl, ap, Option, none, some,
  List, [], ◌∷◌, ltb, arith, ltb→lt, length, take, drop, Bool-cases, Option-cases,
}
use os_assignment.Pages.{pgsize}
use os_assignment.Vm.{page_round_down, Memory, put_cell, walkaddr}
use os_assignment.Vm.User.{write_bytes, chunk, copyout_from, copyout}

-- `copyout` changes no page table and no list of free pages.
abbrev pub IsSameTables : (m n : Memory) → Type 0
IsSameTables m n = (n.free ≡ m.free) × (n.words ≡ m.words)

write_bytes-IsSameTables :
    (page o : ℕ) (bs : List ℕ) (m : Memory) → IsSameTables m (write_bytes page o bs m)
write_bytes-IsSameTables page o [] m = (refl, refl)
write_bytes-IsSameTables page o (b ∷ bs) m =
    write_bytes-IsSameTables page (o + 1) bs (record m { byte = put_cell page o b m.byte })

copyout_from-IsSameTables :
    (left pagetable dstva : ℕ) (src : List ℕ) (m : Memory)
    → IsSameTables m (copyout_from left pagetable dstva src m).1
unfolding copyout_from
copyout_from-IsSameTables left pagetable dstva [] m = (refl, refl)
copyout_from-IsSameTables zero pagetable dstva (b ∷ bs) m = (refl, refl)
copyout_from-IsSameTables (suc left) pagetable dstva (b ∷ bs) m =
    let src : List ℕ = b ∷ bs in
    let va0 = page_round_down dstva in
    elim (Option-cases (walkaddr pagetable va0 m)) [
      | inl e ↦ rw e (refl, refl)
      | inr (pa, e) ↦
          let n = chunk dstva (length src) in
          let there = write_bytes-IsSameTables pa (dstva - va0) (take n src) m in
          let next =
            copyout_from-IsSameTables left pagetable (va0 + pgsize) (drop n src)
              (write_bytes pa (dstva - va0) (take n src) m) in
          rw e (next.0 ∙ there.0, next.1 ∙ there.1)
    ]

pub copyout-IsSameTables :
    (pagetable dstva : ℕ) (src : List ℕ) (m : Memory)
    → IsSameTables m (copyout pagetable dstva src m).1
unfolding copyout
copyout-IsSameTables pagetable dstva src m =
    copyout_from-IsSameTables (length src) pagetable dstva src m

-- The byte at an address of a process.
abbrev pub byte_at : Option ℕ → (o : ℕ) → Memory → Option ℕ
byte_at none o m = none
byte_at (some pa) o m = some (m.byte pa o)

abbrev pub user_byte : (pagetable va : ℕ) → Memory → Option ℕ
user_byte pagetable va m =
    let va0 = page_round_down va in byte_at (walkaddr pagetable va0 m) (va - va0) m

pub page_ends :
    (va0 o n : ℕ) {l : ℕ} → (o + n ≡ pgsize) ⊎ (l ≡ 0) → (va0 + (o + n) ≡ va0 + pgsize) ⊎ (l ≡ 0)
page_ends va0 o n (inl e) = inl (ap (λ (x : ℕ). va0 + x) e)
page_ends va0 o n (inr e) = inr e

pub chunk_bounds :
    (va len : ℕ)
    → 1 ≤ len
    → (1 ≤ chunk va len)
      × (chunk va len ≤ len)
      × (va - page_round_down va + chunk va len ≤ pgsize)
      × ((va - page_round_down va + chunk va len ≡ pgsize) ⊎ (len - chunk va len ≡ 0))
chunk_bounds va len h = elim (Bool-cases (ltb len (pgsize - (va - page_round_down va)))) [
  | inl all ↦
      let lt = ltb→lt len (pgsize - (va - page_round_down va)) all in
      rw all (h, omega arith, omega arith, inr (omega arith))
  | inr page ↦
      let ge : pgsize - (va - page_round_down va) ≤ len = ground (arith, page) in
      rw page (omega arith, ge, omega arith, inl (omega arith))
]

module _ (pagetable : ℕ) (m : Memory) where
  -- A byte by its place in a page.
  pub user_byte-page :
      (va0 o : ℕ) {pa : ℕ}
      → va0 % pgsize ≡ 0
      → o < pgsize
      → walkaddr pagetable va0 m ≡ some pa
      → user_byte pagetable (va0 + o) m ≡ some (m.byte pa o)
  user_byte-page va0 o {pa} aligned lt e =
      let down : page_round_down (va0 + o) ≡ va0 = omega arith in
      let offset : va0 + o - va0 ≡ o = omega arith in rw (user_byte, down, offset, e) refl
