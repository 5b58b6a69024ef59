-- ===== src/Vm/Privacy.antt =====
-- kernel/vm.c: what is written to one process is there, and nowhere else.
use os_assignment.Prelude.{
  ℕ, suc, ◌+◌, ◌-◌, ◌/◌, ◌≡◌, ◌≢◌, ◌∙◌, inl, inr, refl, sym, ap, Bool, true, false, ◌&&◌, Option,
  none, some, List, [], ◌∷◌, ◌==◌, ltb, leb, arith, if◌then◌else◌, length, get_elem?, Bool-cases,
  Option-cases,
}
use os_assignment.Pages.{pgsize}
use os_assignment.Pages.Partition.{occurs}
use os_assignment.Vm.{page_round_down, Memory, put_cell, walkaddr}
use os_assignment.Vm.User.{copyout}
use os_assignment.Vm.Bytes.{byte_at, user_byte}
use os_assignment.Vm.Writes.{
  walkaddr-same, put_at, put_user_byte, unless_none, bytewise_out, copyout-bytewise,
}
use os_assignment.Vm.Processes.{System}
use os_assignment.Vm.Isolation.{IsIsolated}

-- The byte at `va'` of `r'`, once `bs` are at `va` of `r`, where `old` was before.
abbrev pub written : (r va : ℕ) → List ℕ → (r' va' : ℕ) → Option ℕ → Option ℕ
written r va bs r' va' old =
    if (r' == r) && (leb va va' && ltb va' (va + length bs)) then get_elem? bs (va' - va) else old

put_at-word : (w : Option ℕ) (o b : ℕ) (m : Memory) → (put_at w o b m).words ≡ m.words
put_at-word none o b m = refl
put_at-word (some pa) o b m = refl

module _ (r va b r' va' : ℕ) (old : Option ℕ) where
  written-here : r ≡ r' → va ≡ va' → written r va (b ∷ []) r' va' old ≡ some b
  written-here same here =
      let test : ((r' == r) && (leb va va' && ltb va' (va + 1))) ≡ true =
        ground (arith, same, here) in
      let first : va' - va ≡ 0 = omega arith in rw (test, first) refl

  written-elsewhere : (r ≡ r' → va ≢ va') → written r va (b ∷ []) r' va' old ≡ old
  written-elsewhere ne = elim (Bool-cases ((r' == r) && (leb va va' && ltb va' (va + 1)))) [
    | inl test ↦ absurd (ne (ground (arith, test)) (ground (arith, test)))
    | inr test ↦ rw test refl
  ]

  -- More bytes behind the first one.
  written-cons :
      (bs : List ℕ)
      → written r (va + 1) bs r' va' (written r va (b ∷ []) r' va' old)
        ≡ written r va (b ∷ bs) r' va' old
  written-cons bs =
      let later : Bool = (r' == r) && (leb (va + 1) va' && ltb va' (va + 1 + length bs)) in
      let first : Bool = (r' == r) && (leb va va' && ltb va' (va + 1)) in
      let all : Bool = (r' == r) && (leb va va' && ltb va' (va + suc (length bs))) in
      elim (Bool-cases later) [
        | inl is_later ↦
            let is_all : all ≡ true = ground (arith, is_later) in
            let index : va' - va ≡ suc (va' - (va + 1)) = ground (arith, is_later) in
            rw (is_later, is_all, index) refl
        | inr not_later ↦ elim (Bool-cases first) [
          | inl is_first ↦
              let is_all : all ≡ true = ground (arith, is_first) in
              let index : va' - va ≡ 0 = ground (arith, is_first) in
              rw (not_later, is_first, is_all, index) refl
          | inr not_first ↦
              let not_all : all ≡ false = ground (arith, not_later, not_first) in
              rw (not_later, not_first, not_all) refl
        ]
      ]

module _ (r r' va' : ℕ) where
  -- Two addresses of the two page tables that have a page in common are one page's.
  abbrev IsApart : Memory → Type 0
  IsApart m =
      (va : ℕ) (pa : ℕ)
      → walkaddr r va m ≡ some pa
      → walkaddr r' (page_round_down va') m ≡ some pa
      → (r ≡ r') × (va / pgsize ≡ page_round_down va' / pgsize)

  put_user_byte-IsApart : (va b : ℕ) (m : Memory) → IsApart m → IsApart (put_user_byte r va b m)
  put_user_byte-IsApart va b m apart a pa e e' =
      let same = put_at-word (walkaddr r (page_round_down va) m) (va - page_round_down va) b m in
      let m' = put_user_byte r va b m in
      apart a pa (sym (walkaddr-same r a m m' same) ∙ e)
        (sym (walkaddr-same r' (page_round_down va') m m' same) ∙ e')

  put_user_byte-user_byte :
      (va b : ℕ) (m : Memory) {pa : ℕ}
      → IsApart m
      → walkaddr r (page_round_down va) m ≡ some pa
      → user_byte r' va' (put_user_byte r va b m)
        ≡ written r va (b ∷ []) r' va' (user_byte r' va' m)
  put_user_byte-user_byte va b m {pa} apart e =
      let va0 = page_round_down va in
      let va0' = page_round_down va' in
      let o = va - va0 in
      let o' = va' - va0' in
      let m' : Memory = record m { byte = put_cell pa o b m.byte } in
      let is_put : put_user_byte r va b m ≡ m' = ap (λ w. put_at w o b m) e in
      let old = user_byte r' va' m in
      let same_walk = walkaddr-same r' va0' m m' refl in
      let becomes : user_byte r' va' (put_user_byte r va b m) ≡ byte_at (walkaddr r' va0' m) o' m' =
        ap (λ n. user_byte r' va' n) is_put ∙ ap (λ w. byte_at w o' m') same_walk in
      elim (Option-cases (walkaddr r' va0' m)) [
        | inl nothing ↦
            let differ : r ≡ r' → va ≢ va' =
              λ same here. absurd (cc (e, nothing, same, ap page_round_down here)) in
            becomes
            ∙ (ap (λ w. byte_at w o' m') nothing
                ∙ sym
                    (written-elsewhere r va b r' va' old differ ∙ ap (λ w. byte_at w o' m) nothing))
        | inr (pa', there) ↦
            let at_there = becomes ∙ ap (λ w. byte_at w o' m') there in
            elim (Bool-cases ((pa' == pa) && (o' == o))) [
              | inl same ↦
                  let one_page : pa' ≡ pa = ground (arith, same) in
                  let (one_root, pages) = apart va0 pa e (there ∙ ap some one_page) in
                  let offsets : o' ≡ o = ground (arith, same) in
                  let here : va ≡ va' = omega arith in
                  at_there ∙ (rw same refl ∙ sym (written-here r va b r' va' old one_root here))
              | inr differ ↦
                  let ne : r ≡ r' → va ≢ va' = λ same here.
                    let pages : some pa ≡ some pa' =
                      sym e
                      ∙ (ap (λ x. walkaddr x va0 m) same
                          ∙ (ap (λ x. walkaddr r' (page_round_down x) m) here ∙ there)) in
                    let one_page : pa ≡ pa' = cc pages in
                    absurd (ground (arith, differ, one_page, here)) in
                  at_there
                  ∙ (rw differ refl
                      ∙ sym
                          (written-elsewhere r va b r' va' old ne ∙ ap (λ w. byte_at w o' m) there))
            ]
      ]

  bytewise_out-user_byte :
      (va : ℕ) (bs : List ℕ) (m : Memory)
      → IsApart m
      → (bytewise_out r va bs m).0 ≡ true
      → user_byte r' va' (bytewise_out r va bs m).1 ≡ written r va bs r' va' (user_byte r' va' m)
  bytewise_out-user_byte va [] m apart done =
      elim (Bool-cases ((r' == r) && (leb va va' && ltb va' (va + 0)))) [
        | inl test ↦ absurd (ground (arith, test))
        | inr test ↦ rw test refl
      ]
  bytewise_out-user_byte va (b ∷ bs) m apart done =
      let rest = bytewise_out r (va + 1) bs (put_user_byte r va b m) in
      elim (Option-cases (walkaddr r (page_round_down va) m)) [
        | inl nothing ↦ absurd (cc (done, ap (λ w. (unless_none w m rest).0) nothing))
        | inr (pa, e) ↦
            let m' = put_user_byte r va b m in
            let done' : rest.0 ≡ true = sym (ap (λ w. (unless_none w m rest).0) e) ∙ done in
            let apart' : IsApart m' = put_user_byte-IsApart va b m apart in
            let ih = bytewise_out-user_byte (va + 1) bs m' apart' done' in
            ap (λ w. user_byte r' va' (unless_none w m rest).1) e
            ∙ (ih
                ∙ (ap (written r (va + 1) bs r' va') (put_user_byte-user_byte va b m apart e)
                    ∙ written-cons r va b r' va' (user_byte r' va' m) bs))
      ]

-- In a system that keeps processes apart, a `copyout` that returns 0 has put its bytes where the
-- process finds them at its addresses, in order, and every other byte of this and of every other
-- process is what it was.
pub copyout-user_byte :
    (s : System) (r r' va va' : ℕ) (bs : List ℕ)
    → IsIsolated s
    → occurs r s.roots ≢ 0
    → occurs r' s.roots ≢ 0
    → (copyout r va bs s.machine).0 ≡ true
    → user_byte r' va' (copyout r va bs s.machine).1
      ≡ written r va bs r' va' (user_byte r' va' s.machine)
copyout-user_byte s r r' va va' bs isolated here here' done =
    let m = s.machine in
    let same = copyout-bytewise r va bs m in
    ap (λ (t : Bool × Memory). user_byte r' va' t.1) same
    ∙ bytewise_out-user_byte r r' va' va bs m
        (λ a pa e e'. isolated.apart r r' a (page_round_down va') here here' e e')
        (sym (ap (λ (t : Bool × Memory). t.0) same) ∙ done)
