-- ===== src/Process/Nodes.antt =====
-- kernel/proc.c: what `fork`, `exit` and `wait` do to the states and the parents in the table.
use os_assignment.Prelude.{
  ℕ, zero, suc, ◌+◌, ◌≤◌, ◌≡◌, ◌≢◌, refl, ap, sym, ◌∙◌, inl, inr, true, false, ◌&&◌, Option, none,
  some, List, [], ◌∷◌, ◌==◌, ltb, leb, arith, if◌then◌else◌, length, Bool-cases,
}
use mathlib.Core.Option
use os_assignment.Prelude.Outcome.{ok}
use os_assignment.Process.{State, Proc, wakeup, wakeup_from}
use os_assignment.Process.Tree.{
  modify, initproc, nthread, is_child, child_at, parent_channel, reparent_one, reparent,
  end_threads, exit,
}

abbrev pub Node : Type 0
Node = State × Option ℕ

abbrev pub node : Proc → Node
node p = (p.state, p.parent)

-- State and parent of process `i`.
abbrev pub look : List Proc → ℕ → Option Node
look [] i = none
look (p ∷ ps) zero = some (node p)
look (p ∷ ps) (suc i) = look ps i

look-wakeup_from :
    (chan my_proc my_thread i k : ℕ) (ps : List Proc)
    → look (wakeup_from chan my_proc my_thread i ps) k ≡ look ps k
unfolding wakeup_from
look-wakeup_from chan my_proc my_thread i k [] = refl
look-wakeup_from chan my_proc my_thread i zero (p ∷ ps) = refl
look-wakeup_from chan my_proc my_thread i (suc k) (p ∷ ps) =
    look-wakeup_from chan my_proc my_thread (i + 1) k ps

pub look-wakeup :
    (chan my_proc my_thread k : ℕ) (ps : List Proc)
    → look (wakeup chan my_proc my_thread ps) k ≡ look ps k
unfolding wakeup
look-wakeup chan my_proc my_thread k ps = look-wakeup_from chan my_proc my_thread 0 k ps

-- A change of one process, by what it does to state and parent.
pub look-modify :
    (f : Proc → Proc) (g : Node → Node)
    → ((p : Proc) → node (f p) ≡ g (node p))
    → (i k : ℕ) (ps : List Proc)
    → look (modify i f ps) k ≡ (if k == i then Option.map g (look ps k) else look ps k)
look-modify f g h i k [] = ground arith
look-modify f g h zero zero (p ∷ ps) = ap some (h p)
look-modify f g h zero (suc k) (p ∷ ps) = ground arith
look-modify f g h (suc i) zero (p ∷ ps) = ground arith
look-modify f g h (suc i) (suc k) (p ∷ ps) = look-modify f g h i k ps ∙ ground arith

-- `reparent` for one process.
abbrev pub move : (me : ℕ) → Node → Node
move me (s, parent) = (s, if is_child me parent then some initproc else parent)

-- What `exit` leaves of state and parent of process `k`.
abbrev pub after_exit : (me k : ℕ) → Option Node → Option Node
after_exit me k o =
    if k == me
    then Option.map (λ n. (State.zombie, n.1)) (Option.map (move me) o)
    else Option.map (move me) o

pub look-beyond : (ps : List Proc) (k : ℕ) → length ps ≤ k → look ps k ≡ none
look-beyond [] k h = refl
look-beyond (p ∷ ps) zero h = absurd (omega arith)
look-beyond (p ∷ ps) (suc k) h = look-beyond ps k (omega arith)

pub same_node : (k me : ℕ) (o : Option Node) → (if k == me then Option.map (λ n. n) o else o) ≡ o
same_node k me none = ground arith
same_node k me (some n) = ground arith

module _ (proc_addr : ℕ → ℕ) (thread_addr : ℕ → ℕ → ℕ) where
  child_at-look :
      (ps : List Proc) (me i : ℕ)
      → child_at proc_addr thread_addr ps me i
        ≡ elim (look ps i) [ none ↦ false | some n ↦ is_child me n.1 ]
  child_at-look [] me i = refl
  child_at-look (p ∷ ps) me zero = refl
  child_at-look (p ∷ ps) me (suc i) = child_at-look ps me i

  -- Its parent becomes `initproc`.
  adopted-node :
      (k : ℕ) (ps : List Proc) (i : ℕ)
      → look (modify i (λ p. record p { parent = some initproc }) ps) k
        ≡ (if k == i then Option.map (λ n. (n.0, some initproc)) (look ps k) else look ps k)
  adopted-node k ps i =
      look-modify (λ p. record p { parent = some initproc }) (λ n. (n.0, some initproc)) (λ p. refl)
        i k ps

  move_child :
      (me : ℕ) (o : Option Node)
      → elim o [ none ↦ false | some n ↦ is_child me n.1 ] ≡ true
      → Option.map (λ n. (n.0, some initproc)) o ≡ Option.map (move me) o
  move_child me none h = refl
  move_child me (some n) h = rw h refl

  move_other :
      (me : ℕ) (o : Option Node)
      → elim o [ none ↦ false | some n ↦ is_child me n.1 ] ≡ false
      → o ≡ Option.map (move me) o
  move_other me none h = refl
  move_other me (some n) h = rw h refl

  reparent_one-look :
      (me th i k : ℕ) (ps : List Proc)
      → look (reparent_one proc_addr thread_addr me th i ps) k
        ≡ (if k == i then Option.map (move me) (look ps k) else look ps k)
  unfolding reparent_one
  reparent_one-look me th i k ps = elim (Bool-cases (child_at proc_addr thread_addr ps me i)) [
    | inl child ↦ rw child (
        look-wakeup _ me th k _ ∙ adopted-node k ps i ∙ (elim (Bool-cases (k == i)) [
          | inl same ↦
              let e : k ≡ i = ground (arith, same) in
              rw same (move_child me (look ps k) (rw e (sym (child_at-look ps me i) ∙ child)))
          | inr other ↦ rw other refl
        ]))
    | inr no_child ↦ rw no_child (elim (Bool-cases (k == i)) [
      | inl same ↦
          let e : k ≡ i = ground (arith, same) in
          rw same (move_other me (look ps k) (rw e (sym (child_at-look ps me i) ∙ no_child)))
      | inr other ↦ rw other refl
    ])
  ]

  reparent-look :
      (me th left i k : ℕ) (ps : List Proc)
      → look (reparent proc_addr thread_addr me th left i ps) k
        ≡ (if leb i k && ltb k (i + left) then Option.map (move me) (look ps k) else look ps k)
  unfolding reparent
  reparent-look me th zero i k ps = ground arith
  reparent-look me th (suc left) i k ps =
      reparent-look me th left (i + 1) k (reparent_one proc_addr thread_addr me th i ps)
      ∙ (elim (Bool-cases (k == i)) [
        | inl same ↦ rw (reparent_one-look me th i k ps) (ground (arith, same))
        | inr other ↦ rw (reparent_one-look me th i k ps) (ground (arith, other))
      ])

  -- `reparent` gives all children of `me` to `initproc`.
  pub reparent_all :
      (me th k : ℕ) (ps : List Proc)
      → look (reparent proc_addr thread_addr me th (length ps) 0 ps) k
        ≡ Option.map (move me) (look ps k)
  reparent_all me th k ps =
      reparent-look me th (length ps) 0 k ps ∙ (elim (Bool-cases (ltb k (length ps))) [
        | inl inside ↦ ground (arith, inside)
        | inr beyond ↦
            let e : look ps k ≡ none = look-beyond ps k (ground (arith, beyond)) in
            rw e (ground arith)
      ])

  end_threads-look :
      (me th left j k : ℕ) (ps : List Proc)
      → look (end_threads proc_addr thread_addr me th left j ps) k ≡ look ps k
  unfolding end_threads
  end_threads-look me th zero j k ps = refl
  end_threads-look me th (suc left) j k ps =
      end_threads-look me th left (j + 1) k _
      ∙ look-wakeup _ me th k _
      ∙ look-modify _ (λ n. n) (λ p. refl) me k ps
      ∙ same_node k me (look ps k)

  -- The table when the process itself is about to become a zombie.
  abbrev before_end : (me th : ℕ) → List Proc → List Proc
  before_end me th ps =
      let qs = reparent proc_addr thread_addr me th (length ps) 0 ps in
      end_threads proc_addr thread_addr me th nthread 0
        (wakeup (parent_channel proc_addr thread_addr qs me) me th qs)

  before_end-look :
      (me th k : ℕ) (ps : List Proc)
      → look (before_end me th ps) k ≡ Option.map (move me) (look ps k)
  before_end-look me th k ps =
      end_threads-look me th nthread 0 k _ ∙ look-wakeup _ me th k _ ∙ reparent_all me th k ps

  -- The table that `exit` leaves.
  abbrev pub left_table : (status me th : ℕ) → List Proc → List Proc
  left_table status me th ps =
      modify me (λ p. record p { xstate = status; state = State.zombie }) (before_end me th ps)

  pub exit_lem :
      (status me th : ℕ) (ps : List Proc)
      → me ≢ initproc
      → exit proc_addr thread_addr status me th ps ≡ ok (left_table status me th ps)
  unfolding exit
  exit_lem status me th ps h =
      let other : (me == initproc) ≡ false = ground (arith, h) in rw other refl

  pub left_table-look :
      (status me th k : ℕ) (ps : List Proc)
      → look (left_table status me th ps) k ≡ after_exit me k (look ps k)
  left_table-look status me th k ps =
      look-modify (λ p. record p { xstate = status; state = State.zombie })
        (λ n. (State.zombie, n.1)) (λ p. refl) me k (before_end me th ps)
      ∙ ap (λ o. if k == me then Option.map (λ n. (State.zombie, n.1)) o else o)
          (before_end-look me th k ps)

  pub exit-look :
      (status me th : ℕ) (ps : List Proc)
      → me ≢ initproc
      → (qs : List Proc) × (exit proc_addr thread_addr status me th ps ≡ ok qs)
        × ((k : ℕ) → look qs k ≡ after_exit me k (look ps k))
  exit-look status me th ps h = (
    left_table status me th ps,
    exit_lem status me th ps h,
    λ k. left_table-look status me th k ps,
  )
