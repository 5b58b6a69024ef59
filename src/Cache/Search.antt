-- ===== src/Cache/Search.antt =====
-- kernel/bio.c: what the two loops of `bget` find, and the list of buffers.
use os_assignment.Prelude.{
  ℕ, suc, ◌+◌, ◌≤◌, ◌≡◌, inl, inr, refl, true, false, none, some, List, [], ◌∷◌, ◌==◌, arith,
  length, if◌then◌else◌, Bool-cases, Option-cases,
}
use mathlib.Core.Path.{subst}
use os_assignment.Cache.{Buf, is_for, find_cached, find_unused, erase}
use os_assignment.Cache.Users.{Ref}
use os_assignment.Cache.Refs.{total, refers}

-- How often a buffer is in the list.
abbrev pub occurs : ℕ → List ℕ → ℕ
occurs k [] = 0
occurs k (i ∷ is) = (if i == k then 1 else 0) + occurs k is

pub find_cached-some :
    (dev blockno : ℕ) (buf : ℕ → Buf) (is : List ℕ) {i : ℕ}
    → find_cached dev blockno buf is ≡ some i
    → (is_for dev blockno (buf i) ≡ true) × (1 ≤ occurs i is)
unfolding find_cached
find_cached-some dev blockno buf [] h = absurd (cc)
find_cached-some dev blockno buf (k ∷ is) {i} h = elim (Bool-cases (is_for dev blockno (buf k))) [
  | inl here ↦
      let e : k ≡ i = ground (arith, h, here) in
      (subst (λ x. is_for dev blockno (buf x) ≡ true) e here, ground (arith, e))
  | inr not_here ↦
      let e : find_cached dev blockno buf is ≡ some i = ground (arith, h, not_here) in
      let found : (is_for dev blockno (buf i) ≡ true) × (1 ≤ occurs i is) =
        find_cached-some dev blockno buf is e in
      (found.0, omega (arith, found.1))
]

pub find_cached-none :
    (dev blockno : ℕ) (buf : ℕ → Buf) (is : List ℕ) (k : ℕ)
    → find_cached dev blockno buf is ≡ none
    → 1 ≤ occurs k is
    → is_for dev blockno (buf k) ≡ false
unfolding find_cached
find_cached-none dev blockno buf [] k h l = absurd (omega arith)
find_cached-none dev blockno buf (i ∷ is) k h l = elim (Bool-cases (is_for dev blockno (buf i))) [
  | inl here ↦ absurd (ground (arith, h, here))
  | inr not_here ↦
      let e : find_cached dev blockno buf is ≡ none = ground (arith, h, not_here) in
      elim (Bool-cases (i == k)) [
        | inl same ↦
            let e' : i ≡ k = ground (arith, same) in
            subst (λ x. is_for dev blockno (buf x) ≡ false) e' not_here
        | inr other ↦ find_cached-none dev blockno buf is k e (ground (arith, l, other))
      ]
]

pub find_unused-some :
    (buf : ℕ → Buf) (is : List ℕ) {i : ℕ}
    → find_unused buf is ≡ some i
    → ((buf i).refcnt ≡ 0) × (1 ≤ occurs i is)
unfolding find_unused
find_unused-some buf [] h = absurd (cc)
find_unused-some buf (k ∷ is) {i} h = elim (Option-cases (find_unused buf is)) [
  | inr (j, e) ↦
      let e' : j ≡ i = cc (h, e) in
      let e'' : find_unused buf is ≡ some i = cc (e, e') in
      let found : ((buf i).refcnt ≡ 0) × (1 ≤ occurs i is) = find_unused-some buf is e'' in
      (found.0, omega (arith, found.1))
  | inl e ↦ elim (Bool-cases ((buf k).refcnt == 0)) [
    | inl free ↦
        let e' : k ≡ i = ground (arith, h, e, free) in
        (subst (λ x. (buf x).refcnt ≡ 0) e' (ground (arith, free)), ground (arith, e'))
    | inr busy ↦ absurd (ground (arith, h, e, busy))
  ]
]

pub find_unused-none :
    (buf : ℕ → Buf) (is : List ℕ) (k : ℕ)
    → find_unused buf is ≡ none
    → 1 ≤ occurs k is
    → 1 ≤ (buf k).refcnt
unfolding find_unused
find_unused-none buf [] k h l = absurd (omega arith)
find_unused-none buf (i ∷ is) k h l = elim (Option-cases (find_unused buf is)) [
  | inr (j, e) ↦ absurd (cc (h, e))
  | inl e ↦ elim (Bool-cases (i == k)) [
    | inl same ↦
        let e' : i ≡ k = ground (arith, same) in
        subst (λ x. 1 ≤ (buf x).refcnt) e' (ground (arith, h, e))
    | inr other ↦ find_unused-none buf is k e (ground (arith, l, other))
  ]
]

pub occurs-erase :
    (i k : ℕ) (is : List ℕ) → 1 ≤ occurs i is → occurs k (i ∷ erase i is) ≡ occurs k is
occurs-erase i k [] h = absurd (omega arith)
occurs-erase i k (l ∷ is) h = ground (arith, occurs-erase i k is)

pub length-erase : (i : ℕ) (is : List ℕ) → 1 ≤ occurs i is → suc (length (erase i is)) ≡ length is
length-erase i [] h = absurd (omega arith)
length-erase i (l ∷ is) h = ground (arith, length-erase i is)

-- The references to the buffers of a list.
abbrev uses_of : List ℕ → List Ref → ℕ
uses_of [] rs = 0
uses_of (i ∷ is) rs = total (refers i) rs + uses_of is rs

uses_of-cons :
    (is : List ℕ) (r : Ref) (rs : List Ref) → uses_of is (r ∷ rs) ≡ occurs r.slot is + uses_of is rs
uses_of-cons [] r rs = omega arith
uses_of-cons (i ∷ is) r rs = ground (arith, uses_of-cons is r rs)

uses_of-nil : (is : List ℕ) → uses_of is [] ≡ 0
uses_of-nil [] = refl
uses_of-nil (i ∷ is) = omega (arith, uses_of-nil is)

-- A list without repetitions has no more references than there are.
uses_of-le : (is : List ℕ) (rs : List Ref) → ((k : ℕ) → occurs k is ≤ 1) → uses_of is rs ≤ length rs
uses_of-le is [] h = omega (arith, uses_of-nil is)
uses_of-le is (r ∷ rs) h = omega (arith, uses_of-cons is r rs, h r.slot, uses_of-le is rs h)

length-le-uses_of :
    (is : List ℕ) (rs : List Ref)
    → ((k : ℕ) → 1 ≤ occurs k is → 1 ≤ total (refers k) rs)
    → length is ≤ uses_of is rs
length-le-uses_of [] rs h = omega arith
length-le-uses_of (i ∷ is) rs h =
    let head : 1 ≤ total (refers i) rs = h i (ground arith) in
    let tail : length is ≤ uses_of is rs =
      length-le-uses_of is rs (λ k l. h k (omega (arith, l))) in
    omega (arith, head, tail)

-- If every buffer of the list is referred to, there are at least as many references as buffers.
pub length-le-references :
    (is : List ℕ) (rs : List Ref)
    → ((k : ℕ) → occurs k is ≤ 1)
    → ((k : ℕ) → 1 ≤ occurs k is → 1 ≤ total (refers k) rs)
    → length is ≤ length rs
length-le-references is rs once used =
    omega (arith, length-le-uses_of is rs used, uses_of-le is rs once)
