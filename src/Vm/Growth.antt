-- ===== src/Vm/Growth.antt =====
-- kernel/vm.c: `uvmalloc` maps all pages that it is asked for, or none.
use os_assignment.Prelude.{
  ℕ, zero, suc, ◌+◌, ◌-◌, ◌*◌, ◌/◌, ◌%◌, ◌<◌, ◌≤◌, ◌≡◌, ◌≢◌, ◌⊎◌, ◌∙◌, inl, inr, refl, sym, ap,
  Bool, true, false, ◌&&◌, Option, none, List, [], ◌∷◌, ◌==◌, ltb, leb, arith, ltb→lt,
  if◌then◌else◌, Bool-cases,
}
use mathlib.Core.Path.{subst}
use os_assignment.Prelude.Outcome.{Outcome, ok, panic, ◌>>=◌, Sure, bind-Sure, map-Sure}
use os_assignment.Pages.{pgsize, page_round_up, kalloc}
use os_assignment.Pages.Partition.{occurs}
use os_assignment.Vm.{
  maxva, is_valid, leaf_pte, Memory, set_free, fill_page, user_pa, walkaddr, mappages,
}
use os_assignment.Vm.Space.{
  user_perm, release, unmap_from, uvmunmap, uvmdealloc, undo, alloc_page, alloc_from, uvmalloc,
}
use os_assignment.Vm.Tables.{user_pages, Purpose, other, IsSound, take_lem}
use os_assignment.Vm.Changes.{overwrite-IsSound}
use os_assignment.Vm.Walks.{set_free-IsSound}
use os_assignment.Vm.Calls.{Goes, IsRoot, Mapped, mappages-Sure, Mapped-Goes, then-Goes}
use os_assignment.Vm.Frees.{release_held-Sure, release-Sure}
use os_assignment.Vm.Isolation.{IsKept}
use os_assignment.Vm.Processes.{System}
use os_assignment.Vm.Entries.{pte_from, look, pte_from-look}
use os_assignment.Vm.Maps.{walkaddr-pte}
use os_assignment.Vm.Translations.{remap, Maps, mappages-Maps, walk_from-page}
use os_assignment.Vm.Unmaps.{
  cleared, Cleared, none_cleared, unmap_from-Cleared, filled-walkaddr, walkaddr-words,
}

both-Sure {ℓ κ} :
    {A : Type ℓ} (P Q : A → Type κ) (o : Outcome A) → Sure P o → Sure Q o → Sure (λ a. P a × Q a) o
both-Sure P Q (ok a) p q = (p, q)
both-Sure P Q panic p q = tt

-- `uvmdealloc` of whole pages.
uvmdealloc-Cleared :
    (kernel_end r a base : ℕ) (place : ℕ → Purpose) (m : Memory)
    → a % pgsize ≡ 0
    → base % pgsize ≡ 0
    → a ≤ user_pages * pgsize
    → IsRoot place r
    → IsSound place m
    → Sure
        (λ (t : ℕ × Memory). Cleared place r base (a / pgsize - base / pgsize) m t.1)
        (uvmdealloc kernel_end r a base m)
unfolding uvmdealloc uvmunmap
uvmdealloc-Cleared kernel_end r a base place m aligned based le root h =
    let top : page_round_up a ≡ a = omega arith in
    let bottom : page_round_up base ≡ base = omega arith in
    elim (Bool-cases (leb a base)) [
      | inl none_left ↦
          let nothing : a / pgsize - base / pgsize ≡ 0 = ground (arith, none_left) in
          rw (none_left, nothing)
            (record {
              goes = record { place' = place; sound = h; tables = λ p e. e };
              clears = λ r' va' root'. sym (none_cleared r base r' va' (walkaddr r' va' m));
            })
      | inr left ↦
          let less : ltb base a ≡ true = ground (arith, left) in
          let whole : (base % pgsize == 0) ≡ true = ground (arith, based) in
          let count : (a - base) / pgsize ≡ a / pgsize - base / pgsize = omega arith in
          rw (left, top, bottom, less, whole, count)
            (bind-Sure (Cleared place r base (a / pgsize - base / pgsize) m)
              (λ (t : ℕ × Memory). Cleared place r base (a / pgsize - base / pgsize) m t.1)
              (unmap_from kernel_end r (a / pgsize - base / pgsize) base true m) (λ n. ok (base, n))
              (unmap_from-Cleared kernel_end r (a / pgsize - base / pgsize) base place m
                (omega (arith, ltb→lt base a less)) root h)
              (λ n c. c))
    ]

-- The pages from `base` to `a` are new in the map of `r`.
pub record Grown (place : ℕ → Purpose) (r base a : ℕ) (m0 m : Memory) : Type 0 where
  pub inside :
      (va : ℕ)
      → base / pgsize ≤ va / pgsize
      → va / pgsize < a / pgsize
      → (walkaddr r va m ≢ none) × (walkaddr r va m0 ≡ none)
  pub outside :
      (r' va' : ℕ)
      → IsRoot place r'
      → (r' ≡ r → (va' / pgsize < base / pgsize) ⊎ (a / pgsize ≤ va' / pgsize))
      → walkaddr r' va' m ≡ walkaddr r' va' m0

-- All addresses translate as before.
abbrev pub Unchanged : (ℕ → Purpose) → (m0 m : Memory) → Type 0
Unchanged place m0 m = (r' va' : ℕ) → IsRoot place r' → walkaddr r' va' m ≡ walkaddr r' va' m0

beside :
    (base a va : ℕ)
    → (leb (base / pgsize) (va / pgsize)
        && ltb (va / pgsize) (base / pgsize + (a / pgsize - base / pgsize)))
      ≡ false
    → (va / pgsize < base / pgsize) ⊎ (a / pgsize ≤ va / pgsize)
beside base a va out = elim (Bool-cases (ltb (va / pgsize) (base / pgsize))) [
  | inl less ↦ inl (ground (arith, less))
  | inr more ↦ inr (ground (arith, more, out))
]

-- An address whose word is invalid does not translate.
invalid-walkaddr :
    (r a va : ℕ) (m : Memory)
    → is_valid (pte_from 2 r a m) ≡ false
    → va / pgsize ≡ a / pgsize
    → walkaddr r va m ≡ none
invalid-walkaddr r a va m invalid page =
    let same : pte_from 2 r va m ≡ pte_from 2 r a m =
      pte_from-look 2 r va m
      ∙ (ap (λ o. look o m) (walk_from-page 2 r va a m (omega arith) page)
          ∙ sym (pte_from-look 2 r a m)) in
    walkaddr-pte r va m ∙ elim (Bool-cases (leb maxva va)) [
      | inl beyond ↦ rw beyond refl
      | inr fits ↦ rw (fits, same, invalid) refl
    ]

leaf-there : (c : ℕ) → c % pgsize ≡ 0 → c ≢ 0 → user_pa (leaf_pte c user_perm) ≢ none
leaf-there c aligned ne = ground (arith, aligned, ne)

module _ (place : ℕ → Purpose) (r base : ℕ) (root : IsRoot place r) (m0 : Memory) where
  same-Grown :
      (a : ℕ) (m n : Memory)
      → Unchanged place m n
      → Grown place r base a m0 m
      → Grown place r base a m0 n
  same-Grown a m n same g = record {
    inside = λ va le lt.
        let (there, before) = g.inside va le lt in (λ e. there (sym (same r va root) ∙ e), before);
    outside = λ r' va' root' out. same r' va' root' ∙ g.outside r' va' root' out;
  }

  cleared-Unchanged :
      (a : ℕ) (m n : Memory)
      → Grown place r base a m0 m
      → ((r' va' : ℕ)
          → IsRoot place r'
          → walkaddr r' va' n
            ≡ cleared r base (a / pgsize - base / pgsize) r' va' (walkaddr r' va' m))
      → Unchanged place m0 n
  cleared-Unchanged a m n g clears r' va' root' =
      let test : Bool =
        (r' == r)
        && (leb (base / pgsize) (va' / pgsize)
            && ltb (va' / pgsize) (base / pgsize + (a / pgsize - base / pgsize))) in
      elim (Bool-cases test) [
        | inl in_range ↦
            let same : r ≡ r' = ground (arith, in_range) in
            let gone : walkaddr r va' m0 ≡ none =
              (g.inside va' (ground (arith, in_range)) (ground (arith, in_range))).1 in
            clears r' va' root'
            ∙ (rw in_range refl ∙ sym (subst (λ y. walkaddr y va' m0 ≡ none) same gone))
        | inr out ↦
            let here : r' ≡ r
                → (leb (base / pgsize) (va' / pgsize)
                    && ltb (va' / pgsize) (base / pgsize + (a / pgsize - base / pgsize)))
                  ≡ false =
              λ same.
                let yes : (r' == r) ≡ true = ground (arith, same) in
                ap
                  (λ b.
                    b
                    && (leb (base / pgsize) (va' / pgsize)
                        && ltb (va' / pgsize) (base / pgsize + (a / pgsize - base / pgsize))))
                  (sym yes)
                ∙ out in
            let is_out : r' ≡ r → (va' / pgsize < base / pgsize) ⊎ (a / pgsize ≤ va' / pgsize) =
              λ same. beside base a va' (here same) in
            clears r' va' root' ∙ (rw out refl ∙ g.outside r' va' root' is_out)
      ]

  -- One page more.
  grow_page :
      (a : ℕ) (new : Option ℕ) (m n k : Memory)
      → base / pgsize ≤ a / pgsize
      → new ≢ none
      → Grown place r base a m0 m
      → Unchanged place m n
      → is_valid (pte_from 2 r a n) ≡ false
      → ((r' va' : ℕ)
          → IsRoot place r'
          → walkaddr r' va' k ≡ remap r a new r' va' (walkaddr r' va' n))
      → Grown place r base (a + pgsize) m0 k
  grow_page a new m n k le there g same invalid remaps = record {
    inside = λ va from to. elim (Bool-cases (va / pgsize == a / pgsize)) [
      | inl here ↦
          let page : va / pgsize ≡ a / pgsize = ground (arith, here) in
          let yes : ((r == r) && (va / pgsize == a / pgsize)) ≡ true = ground (arith, page) in
          let read : walkaddr r va k ≡ new = remaps r va root ∙ (rw yes refl) in
          (
            λ e. there (sym read ∙ e),
            sym (g.outside r va root (λ _. inr (omega (arith, page))))
                ∙ (sym (same r va root) ∙ invalid-walkaddr r a va n invalid page),
          )
      | inr away ↦
          let no : ((r == r) && (va / pgsize == a / pgsize)) ≡ false = ground (arith, away) in
          let read : walkaddr r va k ≡ walkaddr r va m =
            remaps r va root ∙ (rw no (same r va root)) in
          let (is_there, before) = g.inside va from (ground (arith, away, to)) in
          (λ e. is_there (sym read ∙ e), before)
    ];
    outside = λ r' va' root' out. elim (Bool-cases ((r' == r) && (va' / pgsize == a / pgsize))) [
      | inl here ↦
          let is_r : r' ≡ r = ground (arith, here) in
          let page : va' / pgsize ≡ a / pgsize = ground (arith, here) in
          absurd (elim (out is_r) [
            | inl below ↦ omega (arith, below, page, le)
            | inr above ↦ omega (arith, above, page)
          ])
      | inr away ↦
          let read : walkaddr r' va' k ≡ walkaddr r' va' m =
            remaps r' va' root' ∙ (rw away (same r' va' root')) in
          read
          ∙ g.outside r' va' root' (λ is_r. elim (out is_r) [
            | inl below ↦ inl below
            | inr above ↦ inr (omega (arith, above))
          ])
    ];
  }

-- What `uvmalloc` returns, and what it makes of the maps: nothing, or all pages up to `top`.
abbrev pub IsAllOrNothing :
    (place : ℕ → Purpose) (r base top newsz : ℕ) (m0 : Memory) → ℕ × Memory → Type 0
IsAllOrNothing place r base top newsz m0 t =
    ((t.0 ≡ 0) × Unchanged place m0 t.1) ⊎ ((t.0 ≡ newsz) × Grown place r base top m0 t.1)

module _ (kernel_end : ℕ) (place : ℕ → Purpose) (r base : ℕ) (root : IsRoot place r)
    (based : base % pgsize ≡ 0) (m0 : Memory) (newsz top : ℕ) (small : newsz ≤ user_pages * pgsize)
    (is_top : top ≡ page_round_up newsz) where
  abbrev Ends : ℕ × Memory → Type 0
  Ends = IsAllOrNothing place r base top newsz m0

  lifted : (m : Memory) → (g : Goes place m) → (r' : ℕ) → IsRoot place r' → IsRoot g.place' r'
  lifted m g r' (q, i, e) = (q, i, g.tables r' e)

  undo-Ends :
      (a : ℕ) (m : Memory)
      → a % pgsize ≡ 0
      → a ≤ user_pages * pgsize
      → Goes place m
      → Grown place r base a m0 m
      → Sure Ends (undo kernel_end r a base m)
  undo-Ends a m aligned le g grown =
      bind-Sure (λ (t : ℕ × Memory). Cleared g.place' r base (a / pgsize - base / pgsize) m t.1)
        Ends (uvmdealloc kernel_end r a base m) (λ t. ok (0, t.1))
        (uvmdealloc-Cleared kernel_end r a base g.place' m aligned based le (lifted m g r root)
          g.sound)
        (λ t c. inl (
          refl,
          cleared-Unchanged place r base root m0 a m t.1 grown
              (λ r' va' root'. c.clears r' va' (lifted m g r' root')),
        ))

  -- A page that is not in use is written.
  spare-Unchanged :
      (m : Memory) (g : Goes place m) (c w b : ℕ) (free : List ℕ)
      → g.place' c ≡ other
      → Unchanged place m (fill_page c w b (set_free free m))
  spare-Unchanged m g c w b free unused r' va' root' =
      filled-walkaddr g.place' m g.sound c other unused (λ l a q i e. absurd (cc))
        (fill_page c w b (set_free free m)) (λ _. w) refl r' va' (lifted m g r' root')

  module _ (a : ℕ) (aligned : a % pgsize ≡ 0) (le : base ≤ a) (lt : a < newsz)
      (go : Memory → Outcome (ℕ × Memory))
      (goes : (n : Memory)
        → Goes place n
        → Grown place r base (a + pgsize) m0 n
        → occurs 0 n.free ≡ 0
        → Sure Ends (go n)) where
    after_map :
        (c : ℕ) (m n : Memory) (g : Goes place n)
        → Grown place r base a m0 m
        → Unchanged place m n
        → occurs 0 n.free ≡ 0
        → c ≢ 0
        → c % pgsize ≡ 0
        → (t : Bool × Memory)
        → Mapped g.place' c t
          × Maps g.place' n g.sound r a c user_perm (lifted n g r root) (omega (arith, lt, small)) t
        → Sure Ends (if t.0 then go t.1 else release kernel_end c t.1 >>= undo kernel_end r a base)
    after_map c m n g grown same no_zero ne c_aligned (true, k) (mapped, (remaps, fresh, keeps)) =
        goes k (then-Goes place n k g (Mapped-Goes g.place' c (true, k) mapped))
          (grow_page place r base root m0 a (user_pa (leaf_pte c user_perm)) m n k
            (omega (arith, le)) (leaf-there c c_aligned ne) grown same (fresh refl)
            (λ r' va' root'. remaps r' va' (lifted n g r' root')))
          (keeps 0 no_zero)
    after_map c m n g grown same no_zero ne c_aligned (false, k) (mapped, (remaps, fresh, keeps)) =
        let g1 : Goes place k = record {
          place' = mapped.place';
          sound = mapped.sound;
          tables = λ p e. mapped.tables p (g.tables p e);
        } in
        let held = mapped.back refl in
        let k' = fill_page c 72340172838076673 1 (set_free (c ∷ k.free) k) in
        let same1 : Unchanged place n k = λ r' va' root'. remaps r' va' (lifted n g r' root') in
        bind-Sure (λ x. (x ≡ k') × IsSound g1.place' x) Ends (release kernel_end c k)
          (undo kernel_end r a base)
          (both-Sure (λ x. x ≡ k') (IsSound g1.place') (release kernel_end c k)
            (release-Sure kernel_end c k)
            (release_held-Sure kernel_end c g1.place' k g1.sound held))
          (λ x (is_k, sound).
            undo-Ends a x aligned (omega (arith, lt, small))
              (record { place' = g1.place'; sound = sound; tables = g1.tables })
              (same-Grown place r base root m0 a m x
                (λ r' va' root'.
                  ap (λ y. walkaddr r' va' y) is_k
                  ∙ (spare-Unchanged k g1 c 72340172838076673 1 (c ∷ k.free) held.unused r' va'
                        root'
                      ∙ (same1 r' va' root' ∙ same r' va' root')))
                grown))

    alloc_page-Ends :
        (m : Memory)
        → (g : Goes place m) → Grown place r base a m0 m
        → occurs 0 m.free ≡ 0
        → (free : List ℕ) → m.free ≡ free
        → Sure Ends (alloc_page kernel_end r a base go (kalloc free) m)
    unfolding kalloc
    alloc_page-Ends m g grown no_zero [] e =
        undo-Ends a (set_free [] m) aligned (omega (arith, lt, small))
          (record {
            place' = g.place';
            sound = set_free-IsSound g.place' m [] e g.sound;
            tables = g.tables;
          })
          (same-Grown place r base root m0 a m (set_free [] m)
            (λ r' va' root'. walkaddr-words r' va' m (set_free [] m) refl) grown)
    alloc_page-Ends m g grown no_zero (c ∷ free) e =
        let (taken, held) = take_lem g.place' m c free e g.sound in
        let n = fill_page c 0 0 (set_free free m) in
        let sound =
          overwrite-IsSound g.place' (set_free free m) taken c (λ _. 0) n.byte held.unused in
        let g1 : Goes place n = record { place' = g.place'; sound = sound; tables = g.tables } in
        let none_zero : occurs 0 (c ∷ free) ≡ 0 = ap (occurs 0) (sym e) ∙ no_zero in
        let rest : occurs 0 free ≡ 0 = ground (arith, none_zero) in
        let ne : c ≢ 0 = λ z. absurd (ground (arith, none_zero, z)) in
        bind-Sure
          (λ t.
            Mapped g.place' c t
            × Maps g.place' n sound r a c user_perm (lifted m g r root) (omega (arith, lt, small))
                t)
          Ends (mappages r a pgsize c user_perm n) _
          (both-Sure (Mapped g.place' c)
            (Maps g.place' n sound r a c user_perm (lifted m g r root) (omega (arith, lt, small)))
            (mappages r a pgsize c user_perm n)
            (mappages-Sure r a c user_perm g.place' n aligned (omega (arith, lt, small))
              (omega arith) (lifted m g r root) sound held)
            (mappages-Maps g.place' n sound r a c user_perm (lifted m g r root)
              (omega (arith, lt, small)) aligned))
          (after_map c m n g1 grown (spare-Unchanged m g c 0 0 free held.unused) rest ne
            held.aligned)

  alloc_from-Ends :
      (left a : ℕ) (m : Memory)
      → a % pgsize ≡ 0
      → base ≤ a
      → a < newsz + pgsize
      → newsz ≤ a + left * pgsize
      → Goes place m
      → Grown place r base a m0 m
      → occurs 0 m.free ≡ 0
      → Sure Ends (alloc_from kernel_end r left a base newsz m)
  unfolding alloc_from
  alloc_from-Ends zero a m aligned le lt fuel g grown no_zero =
      let at_top : a ≡ top = omega (arith, aligned, lt, fuel, is_top) in
      inr (refl, subst (λ x. Grown place r base x m0 m) at_top grown)
  alloc_from-Ends (suc left) a m aligned le lt fuel g grown no_zero =
      elim (Bool-cases (ltb a newsz)) [
        | inl more ↦ rw more (
            alloc_page-Ends a aligned le (ltb→lt a newsz more)
              (alloc_from kernel_end r left (a + pgsize) base newsz)
              (λ n g' grown' no_zero'.
                alloc_from-Ends left (a + pgsize) n (omega arith) (omega arith)
                  (omega (arith, ltb→lt a newsz more)) (omega arith) g' grown' no_zero')
              m g grown no_zero m.free refl)
        | inr done ↦
            let ge : newsz ≤ a = ground (arith, done) in
            let at_top : a ≡ top = omega (arith, aligned, lt, ge, is_top) in
            rw done (inr (refl, subst (λ x. Grown place r base x m0 m) at_top grown))
      ]

-- What the maps of all processes of `s` are after `uvmalloc`.
abbrev pub Extends : (s : System) (r oldsz newsz : ℕ) → ℕ × Memory → Type 0
Extends s r oldsz newsz t =
    ((t.0 ≡ 0)
      × ((r' va' : ℕ) → occurs r' s.roots ≢ 0 → walkaddr r' va' t.1 ≡ walkaddr r' va' s.machine))
    ⊎ ((t.0 ≡ newsz)
        × ((va : ℕ)
            → page_round_up oldsz / pgsize ≤ va / pgsize
            → va / pgsize < page_round_up newsz / pgsize
            → (walkaddr r va t.1 ≢ none) × (walkaddr r va s.machine ≡ none))
        × ((r' va' : ℕ)
            → occurs r' s.roots ≢ 0
            → (r' ≡ r
                → (va' / pgsize < page_round_up oldsz / pgsize)
                  ⊎ (page_round_up newsz / pgsize ≤ va' / pgsize))
            → walkaddr r' va' t.1 ≡ walkaddr r' va' s.machine))

-- Where it does not panic, `uvmalloc` to a size that is larger and not beyond
-- TRAPFRAME returns 0, and all addresses of all processes
-- translate as before, or it returns the new size: then every page of this process between the two
-- sizes translates and did not before, and every other address of this and of every other process
-- translates as before. Address 0 is not among the free pages.
pub uvmalloc-all_or_nothing :
    (kernel_end : ℕ) (s : System) (r oldsz newsz : ℕ)
    → IsKept s
    → occurs r s.roots ≢ 0
    → oldsz ≤ newsz
    → newsz ≤ user_pages * pgsize
    → occurs 0 s.machine.free ≡ 0
    → Sure (Extends s r oldsz newsz) (uvmalloc kernel_end r oldsz newsz s.machine)
unfolding uvmalloc
uvmalloc-all_or_nothing kernel_end s r oldsz newsz k here le small no_zero =
    let from = page_round_up oldsz in
    let top = page_round_up newsz in
    let m = s.machine in
    let place = k.place in
    let root = (k.known r here).0 in
    let grows : ltb newsz oldsz ≡ false = ground (arith, le) in
    let nothing_yet : Grown place r from from m m = record {
      inside = λ va ge lt. absurd (omega (arith, ge, lt));
      outside = λ r' va' root' out. refl;
    } in
    rw grows (
      map-Sure (IsAllOrNothing place r from top newsz m) (Extends s r oldsz newsz)
        (alloc_from kernel_end r ((newsz - from) / pgsize + 1) from from newsz m)
        (alloc_from-Ends kernel_end place r from root (omega arith) m newsz top small refl
          ((newsz - from) / pgsize + 1) from m (omega arith) (omega arith) (omega (arith, le))
          (omega arith) (record { place' = place; sound = k.sound; tables = λ p e. e }) nothing_yet
          no_zero)
        (λ t ends. elim ends [
          | inl (zero_result, same) ↦
              inl (zero_result, λ r' va' here'. same r' va' (k.known r' here').0)
          | inr (size, grown) ↦ inr (
            size,
            grown.inside,
            λ r' va' here' out. grown.outside r' va' (k.known r' here').0 out,
          )
        ]))
