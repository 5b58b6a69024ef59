-- ===== src/Vm/Isolation.antt =====
-- kernel/vm.c and kernel/proc.c: no two processes have a page of memory in common.
use os_assignment.Prelude.{
  ℕ, suc, ◌+◌, ◌*◌, ◌/◌, ◌%◌, ◌<◌, ◌≤◌, ◌≡◌, ◌≢◌, ◌∙◌, inl, inr, sym, ap, Bool, true, false, not,
  ◌&&◌, none, some, ◌==◌, ltb, leb, arith, ltb→lt, if◌then◌else◌, Bool-cases, Option-cases,
}
use mathlib.Core.Path.{subst}
use os_assignment.Pages.{pgsize}
use os_assignment.Pages.Partition.{occurs}
use os_assignment.Vm.{
  maxva, px, pte_pa, is_valid, is_user, Memory, Slot, load_pte, walk_from, user_pa, at_slot,
  walkaddr,
}
use os_assignment.Vm.Processes.{System}
use os_assignment.Vm.Tables.{user_pages, Purpose, table, user, Agrees, IsSound}
use os_assignment.Vm.Walks.{prefix_of, below}
use os_assignment.Vm.Calls.{IsRoot}

none≢some : {A : Type 0} (a : A) → none ≢ some a
none≢some a e = absurd (cc)

user_pa_lem :
    (pte : ℕ) {pa : ℕ}
    → user_pa pte ≡ some pa
    → (is_valid pte ≡ true) × (is_user pte ≡ true) × (pte_pa pte ≡ pa)
user_pa_lem pte {pa} e =
    let test : Bool = is_valid pte && (is_user pte && not (pte_pa pte == 0)) in
    elim (Bool-cases test) [
      | inl passes ↦
          let same : some (pte_pa pte) ≡ some pa =
            subst (λ (b : Bool). (if b then some (pte_pa pte) else none) ≡ some pa) passes e in
          (ground (arith, passes), ground (arith, passes), cc same)
      | inr fails ↦ absurd (
          none≢some pa
            (subst (λ (b : Bool). (if b then some (pte_pa pte) else none) ≡ some pa) fails e))
    ]

-- The user page of an address is at one word, and that word at one address of one process.
module _ (place : ℕ → Purpose) (m : Memory) (h : IsSound place m) where
  -- What `walk` finds, level by level.
  pub record Trail (r va : ℕ) (s : Slot) : Type 0 where
    pub middle : ℕ
    pub middle_at : place middle ≡ table 1 (prefix_of 1 va) r (px 2 va)
    pub last_at : place s.0 ≡ table 0 (prefix_of 0 va) middle (px 1 va)
    pub index : s.1 ≡ px 0 va

  walk-step :
      (l p va : ℕ) (s : Slot)
      → (walk_from false (suc l) p va m).0 ≡ some s
      → (is_valid (m.words p (px (suc l) va)) ≡ true)
        × ((walk_from false l (pte_pa (m.words p (px (suc l) va))) va m).0 ≡ some s)
  unfolding walk_from
  walk-step l p va s found =
      let down = walk_from false l (pte_pa (m.words p (px (suc l) va))) va m in
      elim (Bool-cases (is_valid (m.words p (px (suc l) va)))) [
        | inl valid ↦
            (valid, subst (λ (b : Bool). (if b then down else (none, m)).0 ≡ some s) valid found)
        | inr invalid ↦ absurd (
            none≢some s
              (subst (λ (b : Bool). (if b then down else (none, m)).0 ≡ some s) invalid found))
      ]

  pub walk_from-Trail :
      (r va : ℕ) {q i : ℕ} (s : Slot)
      → place r ≡ table 2 (prefix_of 2 va) q i
      → (walk_from false 2 r va m).0 ≡ some s
      → Trail r va s
  unfolding walk_from
  walk_from-Trail r va s e found =
      let (valid2, found1) = walk-step 1 r va s found in
      let middle_at = below 1 r va place m (omega arith) e h valid2 in
      let middle : ℕ = pte_pa (m.words r (px 2 va)) in
      let (valid1, found0) = walk-step 0 middle va s found1 in
      let last_at = below 0 middle va place m (omega arith) middle_at h valid1 in
      let is_s : (pte_pa (m.words middle (px 1 va)), px 0 va) ≡ s = cc found0 in
      record {
        middle = middle;
        middle_at = middle_at;
        last_at = ap (λ (t : Slot). place t.0) (sym is_s) ∙ last_at;
        index = sym (ap (λ (t : Slot). t.1) is_s);
      }

  -- Trails that end in one word are of one address and one page table.
  pub trails-meet :
      {r r' : ℕ} (va va' : ℕ) (s s' : Slot)
      → Trail r va s
      → Trail r' va' s'
      → s.0 ≡ s'.0
      → s.1 ≡ s'.1
      → (r ≡ r') × (va / pgsize ≡ va' / pgsize)
  trails-meet {r} {r'} va va' s s' t t' same same_index =
      let last : table 0 (prefix_of 0 va) t.middle (px 1 va)
          ≡ table 0 (prefix_of 0 va') t'.middle (px 1 va') =
        sym t.last_at ∙ ap place same ∙ t'.last_at in
      let middles : t.middle ≡ t'.middle = cc last in
      let middle : table 1 (prefix_of 1 va) r (px 2 va) ≡ table 1 (prefix_of 1 va') r' (px 2 va') =
        sym t.middle_at ∙ ap place middles ∙ t'.middle_at in
      let prefixes : prefix_of 0 va ≡ prefix_of 0 va' = cc last in
      let low : px 0 va ≡ px 0 va' = sym t.index ∙ same_index ∙ t'.index in (cc middle, omega arith)

  -- What `walkaddr` finds.
  record Found (r va pa : ℕ) : Type 0 where
    slot : Slot
    trail : Trail r va slot
    mine : place pa ≡ user slot.0 slot.1

  slot-Found :
      (r va : ℕ) {pa : ℕ} (s : Slot) → Trail r va s → at_slot (some s) m ≡ some pa → Found r va pa
  slot-Found r va {pa} s t found =
      let pte = load_pte m s in
      let (valid, is_u, is_pa) = user_pa_lem pte found in
      let says = (subst (λ u. Agrees place u s.0 s.1 pte) t.last_at (h.agrees s.0 s.1)) valid in
      elim (Bool-cases (ltb (prefix_of 0 va * 512 + s.1) user_pages)) [
        | inl lt ↦ record {
          slot = s;
          trail = t;
          mine = ap place (sym is_pa) ∙ says.0 (ltb→lt _ user_pages lt);
        }
        | inr ge ↦ absurd (cc (is_u, says.1 (ground (arith, ge))))
      ]

  walkaddr-Found : (r va : ℕ) {pa : ℕ} → IsRoot place r → walkaddr r va m ≡ some pa → Found r va pa
  unfolding walkaddr
  walkaddr-Found r va {pa} (q, i, e) found = elim (Bool-cases (leb maxva va)) [
    | inl out ↦ absurd (
        none≢some pa (
          subst
            (λ (b : Bool). (if b then none else at_slot (walk_from false 2 r va m).0 m) ≡ some pa)
            out found))
    | inr fits ↦
        let looked : at_slot (walk_from false 2 r va m).0 m ≡ some pa =
          subst
            (λ (b : Bool). (if b then none else at_slot (walk_from false 2 r va m).0 m) ≡ some pa)
            fits found in
        let starts : 0 ≡ prefix_of 2 va = ground (arith, fits) in
        elim (Option-cases (walk_from false 2 r va m).0) [
          | inl nothing ↦ absurd (none≢some pa (subst (λ o. at_slot o m ≡ some pa) nothing looked))
          | inr (s, there) ↦
              slot-Found r va s (walk_from-Trail r va s (e ∙ ap (λ a. table 2 a q i) starts) there)
                (subst (λ o. at_slot o m ≡ some pa) there looked)
        ]
  ]

-- Where a process can reach: no two addresses of any processes that are a page or more apart have a
-- page in common, and no such page is free, or is a page table's.
pub record IsIsolated (s : System) : Type 0 where
  pub apart :
      (r r' va va' : ℕ) {pa : ℕ}
      → occurs r s.roots ≢ 0
      → occurs r' s.roots ≢ 0
      → walkaddr r va s.machine ≡ some pa
      → walkaddr r' va' s.machine ≡ some pa
      → (r ≡ r') × (va / pgsize ≡ va' / pgsize)
  pub in_use :
      (r va : ℕ) {pa : ℕ}
      → occurs r s.roots ≢ 0
      → walkaddr r va s.machine ≡ some pa
      → occurs pa s.machine.free ≡ 0
  pub no_table :
      (r r' va va' : ℕ) {pa : ℕ} (t : Slot)
      → occurs r s.roots ≢ 0
      → occurs r' s.roots ≢ 0
      → va' < maxva
      → walkaddr r va s.machine ≡ some pa
      → (walk_from false 2 r' va' s.machine).0 ≡ some t
      → (pa ≢ t.0) × (pa ≢ r')

-- All page tables are where they are known to be.
pub record IsKept (s : System) : Type 0 where
  pub place : ℕ → Purpose
  pub sound : IsSound place s.machine
  pub known : (r : ℕ) → occurs r s.roots ≢ 0 → IsRoot place r × (r % pgsize ≡ 0)
  pub once : (r : ℕ) → occurs r s.roots ≤ 1

pub kept-IsIsolated : (s : System) → IsKept s → IsIsolated s
kept-IsIsolated s k =
    let m = s.machine in
    record {
      apart = λ r r' va va' here here' e e'.
          let f = walkaddr-Found k.place m k.sound r va (k.known r here).0 e in
          let f' = walkaddr-Found k.place m k.sound r' va' (k.known r' here').0 e' in
          let same : user f.slot.0 f.slot.1 ≡ user f'.slot.0 f'.slot.1 = sym f.mine ∙ f'.mine in
          trails-meet k.place m k.sound va va' f.slot f'.slot f.trail f'.trail (cc same) (cc same);
      in_use = λ r va {pa} here e.
          let f = walkaddr-Found k.place m k.sound r va (k.known r here).0 e in
          elim (Bool-cases (occurs pa m.free == 0)) [
            | inl gone ↦ ground (arith, gone)
            | inr there ↦ absurd (cc ((k.sound.spare pa (ground (arith, there))).0, f.mine))
          ];
      no_table = λ r r' va va' t here here' lt e found.
          let f = walkaddr-Found k.place m k.sound r va (k.known r here).0 e in
          let (q, i, at) = (k.known r' here').0 in
          let starts : 0 ≡ prefix_of 2 va' = omega arith in
          let trail =
            walk_from-Trail k.place m k.sound r' va' t (at ∙ ap (λ a. table 2 a q i) starts)
              found in
          (
            λ same. absurd (cc (f.mine, trail.last_at, ap k.place same)),
            λ same. absurd (cc (f.mine, at, ap k.place same)),
          );
    }
