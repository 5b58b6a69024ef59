-- ===== src/Process/Family.antt =====
-- kernel/proc.c: what `fork` and `wait` do to the states and the parents in the table.
use os_assignment.Prelude.{
  ℕ, zero, suc, ◌+◌, ◌≡◌, refl, ap, ◌∙◌, ◌⊎◌, inl, inr, Bool, true, not, ◌&&◌, ◌||◌, Option, none,
  some, List, [], ◌∷◌, ◌==◌, arith, if◌then◌else◌, get_elem?, set, Bool-cases, Option-cases,
}
use mathlib.Core.Option
use mathlib.Core.Path.{subst}
use os_assignment.Process.{State, Trapframe, Proc}
use os_assignment.Process.Table.{Table, is_unused, freeproc, setup_proc, abandon_proc, allocproc}
use os_assignment.Process.Alloc.{filled, Found, alloc_scan-cases}
use os_assignment.Process.Tree.{
  modify, is_child, is_zombie, is_alive, copy_child, make_child, begin_fork, find_zombie, has_child,
  reap, wait,
}
use os_assignment.Process.Nodes.{Node, node, look, look-modify}
use os_assignment.Process.Nodes.{same_node}

look-set :
    (ps : List Proc) (i k : ℕ) (q : Proc) {p : Proc}
    → get_elem? ps i ≡ some p
    → look (set ps i q) k ≡ (if k == i then some (node q) else look ps k)
look-set [] i k q e = absurd (cc)
look-set (p ∷ ps) zero zero q e = ground arith
look-set (p ∷ ps) zero (suc k) q e = ground arith
look-set (p ∷ ps) (suc i) zero q e = ground arith
look-set (p ∷ ps) (suc i) (suc k) q e = look-set ps i k q e ∙ ground arith

pub get-look :
    (ps : List Proc) (i : ℕ) {p : Proc} → get_elem? ps i ≡ some p → look ps i ≡ some (node p)
get-look [] i e = absurd (cc)
get-look (p ∷ ps) zero e = ap (Option.map node) e
get-look (p ∷ ps) (suc i) e = get-look ps i e

-- A slot that is written twice.
abbrev pub put : ℕ → Node → (ℕ → Option Node) → ℕ → Option Node
put c n f k = if k == c then some n else f k

module _ (p : Proc) (frame : Trapframe) where
  child-node :
      (c : ℕ) (np : Proc) (ps : List Proc) {old : Proc} (k : ℕ)
      → get_elem? ps c ≡ some old
      → look (modify c (copy_child p frame) (set ps c np)) k ≡ put c (node np) (look ps) k
  unfolding copy_child
  child-node c np ps k e =
      look-modify (copy_child p frame) (λ n. n) (λ q. refl) c k (set ps c np)
      ∙ (elim (Bool-cases (k == c)) [
        | inl same ↦ rw (look-set ps c k np e, same) refl
        | inr other ↦ rw (look-set ps c k np e, other) refl
      ])

  abandoned-node :
      (c : ℕ) (np : Proc) (ps : List Proc) {old : Proc} (k : ℕ)
      → get_elem? ps c ≡ some old
      → look (modify c abandon_proc (set ps c np)) k ≡ put c (State.unused, none) (look ps) k
  unfolding abandon_proc freeproc
  abandoned-node c np ps k e =
      look-modify abandon_proc (λ n. (State.unused, none)) (λ q. refl) c k (set ps c np)
      ∙ (elim (Bool-cases (k == c)) [
        | inl same ↦ rw (look-set ps c k np e, same) refl
        | inr other ↦ rw (look-set ps c k np e, other) refl
      ])

pub unused_dead : (s : State) → is_unused s ≡ true → ¬ (is_alive s ≡ true)
unused_dead State.unused u a = absurd (cc)
unused_dead State.used u a = absurd (cc)
unused_dead State.sleeping u a = absurd (cc)
unused_dead State.runnable u a = absurd (cc)
unused_dead State.running u a = absurd (cc)
unused_dead State.zombie u a = absurd (cc)

pub zombie_dead : (s : State) → is_zombie s ≡ true → ¬ (is_alive s ≡ true)
zombie_dead State.unused u a = absurd (cc)
zombie_dead State.used u a = absurd (cc)
zombie_dead State.sleeping u a = absurd (cc)
zombie_dead State.runnable u a = absurd (cc)
zombie_dead State.running u a = absurd (cc)
zombie_dead State.zombie u a = absurd (cc)

pub find_zombie_lem :
    (me : ℕ) (ps : List Proc) {i : ℕ}
    → find_zombie me ps ≡ some i
    → (q : Proc) × (get_elem? ps i ≡ some q)
      × (is_zombie q.state ≡ true)
      × (is_child me q.parent ≡ true)
find_zombie_lem me [] h = absurd (cc)
find_zombie_lem me (p ∷ ps) {i} h = elim (Bool-cases (is_child me p.parent && is_zombie p.state)) [
  | inl found ↦
      let first : 0 ≡ i = ground (arith, found, h) in
      subst
        (λ k.
          (q : Proc) × (get_elem? (p ∷ ps) k ≡ some q)
          × (is_zombie q.state ≡ true)
          × (is_child me q.parent ≡ true))
        first (p, refl, ground (arith, found), ground (arith, found))
  | inr next ↦ elim (Option-cases (find_zombie me ps)) [
    | inl nobody ↦ absurd (ground (arith, next, nobody, h))
    | inr (j, there) ↦
        let later : suc j ≡ i = ground (arith, next, there, h) in
        subst
          (λ k.
            (q : Proc) × (get_elem? (p ∷ ps) k ≡ some q)
            × (is_zombie q.state ≡ true)
            × (is_child me q.parent ≡ true))
          later (find_zombie_lem me ps there)
  ]
]

-- What a round of `wait` does to states and parents: nothing, or it frees a child that has exited.
abbrev pub Reaps : (me : ℕ) → (f g : ℕ → Option Node) → Type 0
Reaps me f g =
    ((k : ℕ) → g k ≡ f k)
    ⊎ ((i : ℕ) × (n : Node) × (f i ≡ some n)
        × (is_zombie n.0 ≡ true)
        × (is_child me n.1 ≡ true)
        × ((k : ℕ) → g k ≡ put i (State.unused, none) f k))

pub wait-look :
    (ps : List Proc) (proc_addr : ℕ → ℕ) (thread_addr : ℕ → ℕ → ℕ) (copied killed : Bool)
    (me th : ℕ)
    → Reaps me (look ps) (look (wait proc_addr thread_addr copied killed me th ps).1)
unfolding wait reap freeproc
wait-look ps proc_addr thread_addr copied killed me th = elim (Option-cases (find_zombie me ps)) [
  | inl nobody ↦ elim (Bool-cases (not (has_child me ps) || killed)) [
    | inl fails ↦ rw (wait, nobody, fails) (inl (λ k. refl))
    | inr sleeps ↦
        rw (wait, nobody, sleeps)
          (inl (λ k. look-modify _ (λ n. n) (λ p. refl) me k ps ∙ same_node k me (look ps k)))
  ]
  | inr (i, found) ↦ elim (Bool-cases copied) [
    | inr fault ↦ rw (wait, found, fault) (inl (λ k. refl))
    | inl fine ↦
        let (q, there, zombie, child) = find_zombie_lem me ps found in
        rw (wait, found, fine)
          (inr (
            i,
            node q,
            get-look ps i there,
            zombie,
            child,
            λ k.
                look-modify reap (λ n. (State.unused, none)) (λ p. refl) i k ps
                ∙ (elim (Bool-cases (k == i)) [
                  | inl same ↦
                      let e : k ≡ i = ground (arith, same) in rw (same, e, get-look ps i there) refl
                  | inr other ↦ rw other refl
                ]),
          ))
  ]
]

-- The table behind an `allocproc` that found a slot.
abbrev with_slot : (k : Table) → (slot : ℕ) → Proc → Table
with_slot k slot p = record {
  procs = set k.procs slot p;
  next_pid = k.next_pid + 1;
  next_tid = k.next_tid + 1;
}

allocproc-Found :
    (memory : Bool) (k : Table) (f : Found memory k.next_pid k.next_tid 0 k.procs)
    → allocproc memory k ≡ (
      if memory then some f.slot else none,
      with_slot k f.slot (filled memory k.next_pid k.next_tid f.old),
    )
unfolding allocproc
allocproc-Found memory k f =
    let e : 0 + f.slot ≡ f.slot = omega arith in rw (allocproc, f.result, e) refl

-- What the first part of `fork` does: nothing, or it frees a free slot, or it makes a process in it.
abbrev pub Begins : Option Node → (f g : ℕ → Option Node) → (c : ℕ) → Option ℕ → Type 0
Begins slot f g c made =
    ((made ≡ none) × ((k : ℕ) → g k ≡ put c (State.unused, none) f k))
    ⊎ ((made ≡ some c)
        × ((k : ℕ) → g k ≡ put c (State.used, elim slot [ none ↦ none | some n ↦ n.1 ]) f k))

module _ (k : Table) (p : Proc) (frame : Trapframe) (memory copied : Bool) where
  pub begin_fork-look :
      (begin_fork memory copied p frame k ≡ (none, k))
      ⊎ ((c : ℕ) × (n : Node) × (look k.procs c ≡ some n)
          × (is_unused n.0 ≡ true)
          × Begins
              (some n)
              (look k.procs)
              (look (begin_fork memory copied p frame k).1.procs)
              c
              (begin_fork memory copied p frame k).0)
  unfolding begin_fork make_child abandon_proc freeproc setup_proc allocproc
  begin_fork-look = elim (alloc_scan-cases memory k.next_pid k.next_tid 0 k.procs) [
    | inl full ↦ rw (allocproc, full) (inl refl)
    | inr f ↦
        let at = get-look k.procs f.slot f.there in
        rw (allocproc-Found memory k f) (elim (Bool-cases memory) [
          | inr no_memory ↦ rw no_memory (
              inr (
                f.slot,
                node f.old,
                at,
                f.free,
                inl (refl, λ i. look-set k.procs f.slot i _ f.there),
              ))
          | inl memory_left ↦ rw memory_left (elim (Bool-cases copied) [
            | inr not_copied ↦ rw not_copied (
                inr (
                  f.slot,
                  node f.old,
                  at,
                  f.free,
                  inl (refl, λ i. abandoned-node p frame f.slot _ k.procs i f.there),
                ))
            | inl fine ↦ rw fine (
                inr (
                  f.slot,
                  node f.old,
                  at,
                  f.free,
                  inr (refl, λ i. child-node p frame f.slot _ k.procs i f.there),
                ))
          ])
        ])
  ]
