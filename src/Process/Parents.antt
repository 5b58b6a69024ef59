-- ===== src/Process/Parents.antt =====
-- kernel/proc.c: whose parent is alive, as a property of states and parents.
use os_assignment.Prelude.{
  ℕ, ◌≡◌, ◌≢◌, refl, ap, sym, ◌∙◌, inl, inr, true, false, Option, none, some, ◌==◌, arith,
  if◌then◌else◌, Bool-cases,
}
use mathlib.Core.Option
use mathlib.Core.Path.{subst, fun_ext}
use os_assignment.Process.{State}
use os_assignment.Process.Table.{is_unused}
use os_assignment.Process.Tree.{initproc, is_alive}
use os_assignment.Process.Nodes.{Node, move, after_exit}

abbrev pub IsAlive : Option Node → Type 0
IsAlive none = ⊥
IsAlive (some n) = is_alive n.0 ≡ true

-- The parent of a process is there, and has not exited.
abbrev pub HasParent : (ℕ → Option Node) → Node → Type 0
HasParent f n = (j : ℕ) × (n.1 ≡ some j) × IsAlive (f j)

-- The first process is alive, free slots have no parent, and every other process, dead or alive,
-- has a parent that is alive.
pub record IsTree (f : ℕ → Option Node) : Type 0 where
  pub rooted : IsAlive (f initproc)
  pub free : (k : ℕ) (n : Node) → f k ≡ some n → is_unused n.0 ≡ true → n.1 ≡ none
  pub cared :
      (k : ℕ) (n : Node) → f k ≡ some n → is_unused n.0 ≡ false → k ≢ initproc → HasParent f n

pub IsTree-ext : {f g : ℕ → Option Node} → ((k : ℕ) → g k ≡ f k) → IsTree f → IsTree g
IsTree-ext e h = subst IsTree (sym (fun_ext e)) h

alive_used : (s : State) → is_alive s ≡ true → is_unused s ≡ false
alive_used State.unused h = absurd (cc)
alive_used State.used h = refl
alive_used State.sleeping h = refl
alive_used State.runnable h = refl
alive_used State.running h = refl
alive_used State.zombie h = refl

IsAlive-move : (me : ℕ) (o : Option Node) → IsAlive o → IsAlive (Option.map (move me) o)
IsAlive-move me none h = h
IsAlive-move me (some n) h = h

module _ (f : ℕ → Option Node) (h : IsTree f) (me : ℕ) (other : me ≢ initproc) where
  abbrev left_by : ℕ → Option Node
  left_by k = after_exit me k (f k)

  left-IsAlive : (j : ℕ) → j ≢ me → IsAlive (f j) → IsAlive (left_by j)
  left-IsAlive j ne a =
      let e : (j == me) ≡ false = ground (arith, ne) in rw e (IsAlive-move me (f j) a)

  left-HasParent : (n : Node) → HasParent f n → (s : State) → HasParent left_by (s, (move me n).1)
  left-HasParent n (j, e, a) s = elim (Bool-cases (j == me)) [
    | inl mine ↦ (initproc, rw (e, mine) refl, left-IsAlive initproc (λ x. other (sym x)) h.rooted)
    | inr theirs ↦ (j, rw (e, theirs) refl, left-IsAlive j (ground (arith, theirs)) a)
  ]

  left_free :
      (k : ℕ) (o : Option Node) (n : Node)
      → f k ≡ o
      → after_exit me k o ≡ some n
      → is_unused n.0 ≡ true
      → n.1 ≡ none
  left_free k none n e e' u = absurd (ground (arith, e'))
  left_free k (some x) n e e' u = elim (Bool-cases (k == me)) [
    | inl mine ↦ absurd (ground (arith, mine, e', u))
    | inr theirs ↦
        let no_parent : is_unused x.0 ≡ true → x.1 ≡ none = h.free k x e in
        ground (arith, theirs, e', u, no_parent)
  ]

  left_cared :
      (k : ℕ) (o : Option Node) (n : Node)
      → IsAlive (f me)
      → f k ≡ o
      → after_exit me k o ≡ some n
      → is_unused n.0 ≡ false
      → k ≢ initproc
      → HasParent left_by n
  left_cared k none n a e e' u ne = absurd (ground (arith, e'))
  left_cared k (some x) n a e e' u ne = elim (Bool-cases (k == me)) [
    | inl mine ↦
        let same : k ≡ me = ground (arith, mine) in
        let live : IsAlive (some x) = subst IsAlive (ap f (sym same) ∙ e) a in
        let result : (State.zombie, (move me x).1) ≡ n = ground (arith, mine, e') in
        subst (HasParent left_by) result
          (left-HasParent x (h.cared k x e (alive_used x.0 live) ne) State.zombie)
    | inr theirs ↦
        let result : move me x ≡ n = ground (arith, theirs, e') in
        subst (HasParent left_by) result
          (left-HasParent x (h.cared k x e (ap (λ m. is_unused m.0) result ∙ u) ne) x.0)
  ]

  pub exit-IsTree : IsAlive (f me) → IsTree left_by
  exit-IsTree a = record {
    rooted = left-IsAlive initproc (λ x. other (sym x)) h.rooted;
    free = λ k n. left_free k (f k) n refl;
    cared = λ k n. left_cared k (f k) n a refl;
  }

-- One slot changes, which was not alive.
module _ (f : ℕ → Option Node) (h : IsTree f) (c : ℕ) (dead : ¬ IsAlive (f c)) (n : Node) where
  abbrev changed : ℕ → Option Node
  changed k = if k == c then some n else f k

  changed-IsAlive : (j : ℕ) → IsAlive (f j) → IsAlive (changed j)
  changed-IsAlive j a = elim (Bool-cases (j == c)) [
    | inl same ↦
        let e : j ≡ c = ground (arith, same) in absurd (dead (subst (λ k. IsAlive (f k)) e a))
    | inr other ↦ rw other a
  ]

  pub changed-IsTree :
      (is_unused n.0 ≡ true → n.1 ≡ none) → (is_unused n.0 ≡ false → HasParent f n) → IsTree changed
  changed-IsTree free cared = record {
    rooted = changed-IsAlive initproc h.rooted;
    free = λ k m e u. elim (Bool-cases (k == c)) [
      | inl same ↦
          let result : n ≡ m = ground (arith, same, e) in
          sym (ap (λ x. x.1) result) ∙ free (ap (λ x. is_unused x.0) result ∙ u)
      | inr other ↦ h.free k m (ground (arith, other, e)) u
    ];
    cared = λ k m e u ne. elim (Bool-cases (k == c)) [
      | inl same ↦
          let result : n ≡ m = ground (arith, same, e) in
          let (j, e', a) = cared (ap (λ x. is_unused x.0) result ∙ u) in
          (j, sym (ap (λ x. x.1) result) ∙ e', changed-IsAlive j a)
      | inr other ↦
          let (j, e', a) = h.cared k m (ground (arith, other, e)) u ne in
          (j, e', changed-IsAlive j a)
    ];
  }
