-- ===== src/Vm/Writes.antt =====
-- kernel/vm.c: `copyout` writes the memory of a process.
use os_assignment.Prelude.{
  ℕ, zero, suc, ◌+◌, ◌-◌, ◌%◌, ◌<◌, ◌≤◌, ◌≡◌, ◌⊎◌, ◌∙◌, inl, inr, refl, sym, ap, Bool, true, false,
  Option, none, some, List, [], ◌∷◌, ◌++◌, leb, arith, length, take, drop, length-take, length-drop,
  take-append-drop, Bool-cases, Option-cases,
}
use mathlib.Core.Path.{subst}
use os_assignment.Pages.{pgsize}
use os_assignment.Vm.{
  maxva, px, pte_pa, is_valid, page_round_down, Memory, Slot, put_cell, user_pa, at_slot, walk_from,
  walkaddr,
}
use os_assignment.Vm.User.{write_bytes, chunk, copyout_page, copyout_from, copyout}
use os_assignment.Vm.Bytes.{page_ends, chunk_bounds}

-- `walk` reads nothing but words.
walk_from-same :
    (l page va : ℕ) (m n : Memory)
    → n.words ≡ m.words
    → (walk_from false l page va n).0 ≡ (walk_from false l page va m).0
unfolding walk_from
walk_from-same zero page va m n e = refl
walk_from-same (suc l) page va m n e =
    let pte = m.words page (px (suc l) va) in
    let same : n.words page (px (suc l) va) ≡ pte =
      ap (λ (w : ℕ → ℕ → ℕ). w page (px (suc l) va)) e in
    elim (Bool-cases (is_valid pte)) [
      | inl valid ↦ rw (same, valid) (walk_from-same l (pte_pa pte) va m n e)
      | inr invalid ↦ rw (same, invalid) refl
    ]

at_slot-same : (s : Option Slot) (m n : Memory) → n.words ≡ m.words → at_slot s n ≡ at_slot s m
at_slot-same none m n e = refl
at_slot-same (some s) m n e = ap (λ (w : ℕ → ℕ → ℕ). user_pa (w s.0 s.1)) e

pub walkaddr-same :
    (pagetable va : ℕ) (m n : Memory)
    → n.words ≡ m.words
    → walkaddr pagetable va n ≡ walkaddr pagetable va m
unfolding walkaddr
walkaddr-same pagetable va m n e = elim (Bool-cases (leb maxva va)) [
  | inl out ↦ rw out refl
  | inr fits ↦
      rw (fits, walk_from-same 2 pagetable va m n e)
        (at_slot-same (walk_from false 2 pagetable va m).0 m n e)
]

-- One byte is written, where `walkaddr` finds a page.
abbrev pub put_at : Option ℕ → (o b : ℕ) → Memory → Memory
put_at none o b m = m
put_at (some pa) o b m = record m { byte = put_cell pa o b m.byte }

abbrev pub put_user_byte : (pagetable va b : ℕ) → Memory → Memory
put_user_byte pagetable va b m =
    let va0 = page_round_down va in put_at (walkaddr pagetable va0 m) (va - va0) b m

abbrev pub unless_none : Option ℕ → Memory → Bool × Memory → Bool × Memory
unless_none none m r = (false, m)
unless_none (some pa) m r = r

-- A copy byte by byte.
abbrev pub bytewise_out : (pagetable va : ℕ) → List ℕ → Memory → Bool × Memory
bytewise_out pagetable va [] m = (true, m)
bytewise_out pagetable va (b ∷ bs) m =
    unless_none (walkaddr pagetable (page_round_down va) m) m
      (bytewise_out pagetable (va + 1) bs (put_user_byte pagetable va b m))

module _ (pagetable : ℕ) where
  put_user_byte-page :
      (va0 o b : ℕ) (m : Memory) {pa : ℕ}
      → va0 % pgsize ≡ 0
      → o < pgsize
      → walkaddr pagetable va0 m ≡ some pa
      → put_user_byte pagetable (va0 + o) b m ≡ record m { byte = put_cell pa o b m.byte }
  put_user_byte-page va0 o b m {pa} aligned lt e =
      let down : page_round_down (va0 + o) ≡ va0 = omega arith in
      let offset : va0 + o - va0 ≡ o = omega arith in rw (put_user_byte, down, offset, e) refl

  bytewise_out-page :
      (va0 o : ℕ) (bs rest : List ℕ) (m : Memory) {pa : ℕ}
      → va0 % pgsize ≡ 0
      → o + length bs ≤ pgsize
      → walkaddr pagetable va0 m ≡ some pa
      → bytewise_out pagetable (va0 + o) (bs ++ rest) m
        ≡ bytewise_out pagetable (va0 + (o + length bs)) rest (write_bytes pa o bs m)
  bytewise_out-page va0 o [] rest m aligned h e =
      ap (λ (x : ℕ). bytewise_out pagetable (va0 + x) rest m) (omega arith)
  bytewise_out-page va0 o (b ∷ bs) rest m {pa} aligned h e =
      let next : va0 + o + 1 ≡ va0 + (o + 1) = omega arith in
      let down : page_round_down (va0 + o) ≡ va0 = omega arith in
      let ends : o + 1 + length bs ≡ o + length (b ∷ bs) = omega arith in
      let m' : Memory = record m { byte = put_cell pa o b m.byte } in
      let e' = walkaddr-same pagetable va0 m m' refl ∙ e in
      let ih = bytewise_out-page va0 (o + 1) bs rest m' aligned (omega arith) e' in
      rw (put_user_byte-page va0 o b m aligned (omega arith) e, down, e, next, ih, ends) refl

  bytewise_out-ends :
      (a b : ℕ) (bs : List ℕ) (m : Memory)
      → (a ≡ b) ⊎ (length bs ≡ 0)
      → bytewise_out pagetable a bs m ≡ bytewise_out pagetable b bs m
  bytewise_out-ends a b bs m (inl e) = ap (λ c. bytewise_out pagetable c bs m) e
  bytewise_out-ends a b [] m (inr e) = refl
  bytewise_out-ends a b (x ∷ bs) m (inr e) = absurd (omega arith)

  copyout_from-bytewise :
      (left va : ℕ) (src : List ℕ) (m : Memory)
      → length src ≤ left
      → copyout_from left pagetable va src m ≡ bytewise_out pagetable va src m
  unfolding copyout_from
  copyout_from-bytewise left va [] m le = refl
  copyout_from-bytewise zero va (b ∷ bs) m le = absurd (omega arith)
  copyout_from-bytewise (suc left) va (b ∷ bs) m le =
      let src : List ℕ = b ∷ bs in
      let va0 = page_round_down va in
      let o = va - va0 in
      let n = chunk va (length src) in
      let go = copyout_from left pagetable (va0 + pgsize) (drop n src) in
      elim (Option-cases (walkaddr pagetable va0 m)) [
        | inl e ↦
            ap (λ w. copyout_page o (take n src) go w m) e
            ∙ sym (
                ap
                  (λ w.
                    unless_none w m
                      (bytewise_out pagetable (va + 1) bs (put_user_byte pagetable va b m)))
                  e)
        | inr (pa, e) ↦
            let bounds = chunk_bounds va (length src) (omega arith) in
            let taken : length (take n src) ≡ n = omega (arith, length-take n src, bounds.1) in
            let m' = write_bytes pa o (take n src) m in
            let dropped = length-drop n src in
            let ih =
              copyout_from-bytewise left (va0 + pgsize) (drop n src) m'
                (omega (arith, dropped, bounds.0)) in
            let page =
              bytewise_out-page va0 o (take n src) (drop n src) m (omega arith)
                (omega (arith, taken, bounds.2)) e in
            let start : va0 + o ≡ va = omega arith in
            let tail = bytewise_out-ends (va0 + (o + n)) (va0 + pgsize) (drop n src) m' (
              subst (λ k. (va0 + (o + n) ≡ va0 + pgsize) ⊎ (k ≡ 0)) (sym dropped)
                (page_ends va0 o n bounds.3)) in
            let whole =
              sym (ap (λ a. bytewise_out pagetable a src m) start)
              ∙ (sym (ap (λ s. bytewise_out pagetable (va0 + o) s m) (take-append-drop n src))
                  ∙ (page
                      ∙ ap (λ (k : ℕ). bytewise_out pagetable (va0 + (o + k)) (drop n src) m')
                          taken)) in
            ap (λ w. copyout_page o (take n src) go w m) e ∙ (ih ∙ sym (whole ∙ tail))
      ]

pub copyout-bytewise :
    (pagetable dstva : ℕ) (src : List ℕ) (m : Memory)
    → copyout pagetable dstva src m ≡ bytewise_out pagetable dstva src m
unfolding copyout
copyout-bytewise pagetable dstva src m =
    copyout_from-bytewise pagetable (length src) dstva src m (omega arith)
