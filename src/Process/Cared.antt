-- ===== src/Process/Cared.antt =====
-- kernel/proc.c: every process has a parent that can wait for it.
use os_assignment.Prelude.{
  ℕ, zero, suc, ◌<◌, ◌≡◌, ◌≢◌, ◌⊎◌, ◌∙◌, refl, sym, ap, inl, inr, Bool, true, false, ◌==◌, ltb,
  Option, none, some, List, [], ◌∷◌, arith, get_elem?, if◌then◌else◌, length, update, Bool-cases,
  Option-cases,
}
use mathlib.Core.Option
use mathlib.Core.Path.{subst}
use os_assignment.Prelude.Outcome.{Outcome, ok}
use os_assignment.Process.{State, Trapframe, Proc}
use os_assignment.Process.Table.{Table, is_unused}
use os_assignment.Process.Tree.{
  initproc, is_alive, is_child, modify, adopt, start_child, begin_fork,
}
use os_assignment.Process.Nodes.{
  Node, look, look-modify, look-beyond, after_exit, exit-look, same_node,
}
use os_assignment.Process.Parents.{IsAlive, IsTree, IsTree-ext, exit-IsTree, changed-IsTree}
use os_assignment.Process.Family.{
  put, get-look, unused_dead, zombie_dead, Reaps, wait-look, begin_fork-look,
}
use os_assignment.Process.Lives.{
  Call, forks, exits, waits, Birth, apart, adopted, born, Family, Event, calls, adopts, starts,
  is_by, is_forking, is_born, may_call, fork_begun, put_procs, perform, adopt_turn, start_by,
  start_turn, step, run,
}

-- A call that `initproc` may make.
abbrev pub Stays : Event → Type 0
Stays (calls me (forks memory copied frame)) = Unit
Stays (calls me (exits status th)) = me ≢ initproc
Stays (calls me (waits copied th)) = Unit
Stays (adopts c) = Unit
Stays (starts c) = Unit

-- `initproc` does not exit.
abbrev pub InitStays : List Event → Type 0
InitStays [] = Unit
InitStays (v ∷ vs) = Stays v × InitStays vs

-- State and parent of a process, where one whose `fork` has not set its parent yet counts as a child
-- of the process that forks.
abbrev pub with_forker : Birth → Option Node → Option Node
with_forker (apart me) o = Option.map (λ n. (n.0, some me)) o
with_forker (adopted me) o = o
with_forker born o = o

abbrev pub seen : Family → ℕ → Option Node
seen s k = with_forker (s.births k) (look s.table.procs k)

pub record IsCared (s : Family) : Type 0 where
  pub tree : IsTree (seen s)
  pub unborn : (c j : ℕ) → s.births c ≡ apart j → look s.table.procs c ≡ some (State.used, none)

abbrev pub GoesOn : Outcome Family → Type 0
GoesOn r = (s : Family) × (r ≡ ok s) × IsCared s

abbrev IsApart : Birth → Type 0
IsApart b = (j : ℕ) × (b ≡ apart j)

with_forker-same : (b : Birth) (o : Option Node) → ¬ IsApart b → with_forker b o ≡ o
with_forker-same (apart j) o is_through = absurd (is_through (j, refl))
with_forker-same (adopted j) o is_through = refl
with_forker-same born o is_through = refl

module _ (s : Family) (h : IsCared s) where
  unborn_state :
      (c : ℕ) (n : Node)
      → look s.table.procs c ≡ some n
      → IsApart (s.births c)
      → n ≡ (State.used, none)
  unborn_state c n at (j, e) =
      let same : some n ≡ some (State.used, none) = sym at ∙ h.unborn c j e in cc

  -- A process that has exited, or that never was, leaves a free slot.
  freed-IsCared :
      (c : ℕ) (n : Node) (k : Table)
      → look s.table.procs c ≡ some n
      → ¬ (is_alive n.0 ≡ true)
      → ¬ IsApart (s.births c)
      → ((i : ℕ) → look k.procs i ≡ put c (State.unused, none) (look s.table.procs) i)
      → IsCared (record s { table = k })
  freed-IsCared c n k at dead is_through nodes = record {
    tree =
        IsTree-ext
          (λ i. elim (Bool-cases (i == c)) [
            | inl same ↦
                let here : i ≡ c = ground (arith, same) in
                let no_i : ¬ IsApart (s.births i) =
                  subst (λ x. ¬ IsApart (s.births x)) (sym here) is_through in
                rw (nodes i, same) (with_forker-same (s.births i) _ no_i)
            | inr other ↦ rw (nodes i, other) refl
          ])
          (changed-IsTree (seen s) h.tree c
            (λ a. dead (subst IsAlive (with_forker-same (s.births c) _ is_through ∙ at) a))
            (State.unused, none) (λ u. refl) (λ u. absurd (cc)));
    unborn = λ i j e. elim (Bool-cases (i == c)) [
      | inl same ↦
          let here : i ≡ c = ground (arith, same) in
          absurd (is_through (subst (λ x. IsApart (s.births x)) here (j, e)))
      | inr other ↦ nodes i ∙ (rw other (h.unborn i j e))
    ];
  }

  -- A new process, whose parent is still to be set.
  made-IsCared :
      (me c : ℕ) (n : Node) (k : Table)
      → look s.table.procs c ≡ some n
      → is_unused n.0 ≡ true
      → ¬ IsApart (s.births c)
      → IsAlive (seen s me)
      → ((i : ℕ) → look k.procs i ≡ put c (State.used, n.1) (look s.table.procs) i)
      → IsCared (record { table = k; births = update s.births c (apart me) })
  made-IsCared me c n k at free is_through alive nodes =
      let here_seen : seen s c ≡ some n = with_forker-same (s.births c) _ is_through ∙ at in
      record {
        tree =
            IsTree-ext
              (λ i. elim (Bool-cases (i == c)) [
                | inl same ↦ rw (nodes i, same) refl
                | inr other ↦ rw (nodes i, other) refl
              ])
              (changed-IsTree (seen s) h.tree c
                (λ a. unused_dead n.0 free (subst IsAlive here_seen a)) (State.used, some me)
                (λ u. absurd (cc)) (λ u. (me, refl, alive)));
        unborn = λ i j e. elim (Bool-cases (i == c)) [
          | inl same ↦
              nodes i ∙ (rw same (ap (λ x. some (State.used, x)) (h.tree.free c n here_seen free)))
          | inr other ↦ nodes i ∙ (rw other (h.unborn i j (sym (rw other refl) ∙ e)))
        ];
      }

fork_begun-none :
    (me : ℕ) (x : Option ℕ × Table) (s : Family)
    → x.0 ≡ none
    → fork_begun me x s ≡ record s { table = x.1 }
fork_begun-none me (none, k) s e = refl
fork_begun-none me (some c, k) s e = absurd (cc)

fork_begun-some :
    (me c : ℕ) (x : Option ℕ × Table) (s : Family)
    → x.0 ≡ some c
    → fork_begun me x s ≡ record { table = x.1; births = update s.births c (apart me) }
fork_begun-some me c (none, k) s e = absurd (cc)
fork_begun-some me c (some d, k) s e = let same : d ≡ c = cc in rw same refl

fork-IsCared :
    (memory copied : Bool) (me : ℕ) (p : Proc) (frame : Trapframe) (s : Family)
    → IsCared s
    → IsAlive (seen s me)
    → IsCared (fork_begun me (begin_fork memory copied p frame s.table) s)
fork-IsCared memory copied me p frame s h alive =
    elim (begin_fork-look s.table p frame memory copied) [
      | inl full ↦ rw full h
      | inr (c, n, at, free, begins) ↦
          let is_through : ¬ IsApart (s.births c) = λ a.
            absurd (unused_dead n.0 free (ap (λ x. is_alive x.0) (unborn_state s h c n at a))) in
          elim begins [
            | inl (made, nodes) ↦
                subst IsCared (sym (fork_begun-none me _ s made))
                  (freed-IsCared s h c n _ at (unused_dead n.0 free) is_through nodes)
            | inr (made, nodes) ↦
                subst IsCared (sym (fork_begun-some me c _ s made))
                  (made-IsCared s h me c n _ at free is_through alive nodes)
          ]
    ]

-- A process that is in no `fork` has made no process that is not through.
not_forking :
    (me n : ℕ) (births : ℕ → Birth)
    → is_forking me n births ≡ false
    → (k : ℕ) → k < n
    → is_by me (births k) ≡ false
not_forking me zero births e k lt = absurd (omega (arith, lt))
not_forking me (suc n) births e k lt = elim (Bool-cases (k == n)) [
  | inl same ↦ let here : k ≡ n = ground (arith, same) in rw here (ground (arith, e))
  | inr other ↦ not_forking me n births (ground (arith, e)) k (ground (arith, lt, other))
]

-- The end of process `me`, as it is seen.
exit-seen :
    (me k : ℕ) (b : Birth) (o : Option Node)
    → (k ≡ me → b ≡ born)
    → (o ≡ none) ⊎ (is_by me b ≡ false)
    → with_forker b (after_exit me k o) ≡ after_exit me k (with_forker b o)
exit-seen me k (adopted j) o mine by = refl
exit-seen me k born o mine by = refl
exit-seen me k (apart j) none mine by = ground arith
exit-seen me k (apart j) (some n) mine by = elim (Bool-cases (k == me)) [
  | inl same ↦ absurd (cc (mine (ground (arith, same))))
  | inr other ↦ elim by [ inl nobody ↦ absurd (cc) | inr theirs ↦ rw (other, theirs) refl ]
]

born_lem : (b : Birth) → is_born b ≡ true → b ≡ born
born_lem (apart j) e = absurd (cc)
born_lem (adopted j) e = absurd (cc)
born_lem born e = refl

module _ (proc_addr : ℕ → ℕ) (thread_addr : ℕ → ℕ → ℕ) where
  exit-IsCared :
      (me : ℕ) (s : Family) (qs : List Proc)
      → me ≢ initproc
      → IsCared s
      → IsAlive (look s.table.procs me)
      → s.births me ≡ born
      → is_forking me (length s.table.procs) s.births ≡ false
      → ((k : ℕ) → look qs k ≡ after_exit me k (look s.table.procs k))
      → IsCared (put_procs qs s)
  exit-IsCared me s qs other h alive ready idle nodes =
      let by : (k : ℕ) → (look s.table.procs k ≡ none) ⊎ (is_by me (s.births k) ≡ false) = λ k.
        elim (Bool-cases (ltb k (length s.table.procs))) [
          | inl within ↦
              inr (not_forking me (length s.table.procs) s.births idle k (ground (arith, within)))
          | inr beyond ↦ inl (look-beyond s.table.procs k (ground (arith, beyond)))
        ] in
      record {
        tree =
            IsTree-ext
              (λ k.
                ap (with_forker (s.births k)) (nodes k)
                ∙ exit-seen me k (s.births k) (look s.table.procs k) (λ e. ap s.births e ∙ ready)
                    (by k))
              (exit-IsTree (seen s) h.tree me other (rw ready alive));
        unborn = λ c j e. elim (Bool-cases (c == me)) [
          | inl same ↦
              let here : c ≡ me = ground (arith, same) in absurd (cc (ap s.births here, ready, e))
          | inr theirs ↦ nodes c ∙ (rw (theirs, h.unborn c j e) refl)
        ];
      }

  wait-IsCared :
      (copied killed : Bool) (me th : ℕ) (s : Family) (qs : List Proc)
      → IsCared s
      → Reaps me (look s.table.procs) (look qs)
      → IsCared (put_procs qs s)
  wait-IsCared copied killed me th s qs h (inl same) = record {
    tree = IsTree-ext (λ k. ap (with_forker (s.births k)) (same k)) h.tree;
    unborn = λ c j e. same c ∙ h.unborn c j e;
  }
  wait-IsCared copied killed me th s qs h (inr (i, n, at, zombie, child, nodes)) =
      freed-IsCared s h i n (record s.table { procs = qs }) at (zombie_dead n.0 zombie)
        (λ a.
          let none_there : is_child me n.1 ≡ false =
            ap (λ (x : Node). is_child me x.1) (unborn_state s h i n at a) in
          absurd (cc (child, none_there)))
        nodes

  perform-GoesOn :
      (c : Call) (me : ℕ) (p : Proc) (s : Family)
      → Stays (calls me c)
      → IsCared s
      → IsAlive (look s.table.procs me)
      → s.births me ≡ born
      → is_forking me (length s.table.procs) s.births ≡ false
      → GoesOn (perform proc_addr thread_addr c me p s)
  unfolding perform
  perform-GoesOn (forks memory copied frame) me p s stays h alive ready idle =
      (_, refl, fork-IsCared memory copied me p frame s h (rw ready alive))
  perform-GoesOn (exits status th) me p s stays h alive ready idle =
      let (qs, e, nodes) = exit-look proc_addr thread_addr status me th s.table.procs stays in
      rw e (_, refl, exit-IsCared me s qs stays h alive ready idle nodes)
  perform-GoesOn (waits copied th) me p s stays h alive ready idle = (
    _,
    refl,
    wait-IsCared copied p.killed me th s _ h
        (wait-look s.table.procs proc_addr thread_addr copied p.killed me th),
  )

  adopt-IsCared :
      (c : ℕ) (b : Birth) (s : Family) → s.births c ≡ b → IsCared s → IsCared (adopt_turn c b s)
  adopt-IsCared c (adopted j) s e h = h
  adopt-IsCared c born s e h = h
  adopt-IsCared c (apart me) s e h =
      let nodes : (k : ℕ)
          → look (modify c (adopt me) s.table.procs) k ≡ (
              if k == c
              then Option.map (λ n. (n.0, some me)) (look s.table.procs k)
              else look s.table.procs k) =
        λ k. look-modify (adopt me) (λ n. (n.0, some me)) (λ q. refl) c k s.table.procs in
      record {
        tree =
            IsTree-ext
              (λ k. elim (Bool-cases (k == c)) [
                | inl same ↦
                    let here : s.births k ≡ apart me = ap s.births (ground (arith, same)) ∙ e in
                    rw (nodes k, same, here) refl
                | inr other ↦ rw (nodes k, other) refl
              ])
              h.tree;
        unborn = λ k j e'. elim (Bool-cases (k == c)) [
          | inl same ↦ absurd (ground (arith, same, e'))
          | inr other ↦ nodes k ∙ (rw other (h.unborn k j (sym (rw other refl) ∙ e')))
        ];
      }

  start-IsCared :
      (c : ℕ) (o : Option Proc) (s : Family)
      → ¬ IsApart (s.births c)
      → IsCared s
      → IsCared (start_by c o s)
  unfolding start_child
  start-IsCared c none s is_through h = h
  start-IsCared c (some p) s is_through h =
      let nodes : (k : ℕ) → look (modify c (start_child p) s.table.procs) k ≡ look s.table.procs k =
        λ k.
          look-modify (start_child p) (λ n. n) (λ q. refl) c k s.table.procs
          ∙ same_node k c (look s.table.procs k) in
      record {
        tree =
            IsTree-ext
              (λ k. elim (Bool-cases (k == c)) [
                | inl same ↦
                    let here : k ≡ c = ground (arith, same) in
                    let no_k : ¬ IsApart (s.births k) =
                      subst (λ x. ¬ IsApart (s.births x)) (sym here) is_through in
                    rw (nodes k, same) (sym (with_forker-same (s.births k) _ no_k))
                | inr other ↦ rw (nodes k, other) refl
              ])
              h.tree;
        unborn = λ k j e'. elim (Bool-cases (k == c)) [
          | inl same ↦ absurd (ground (arith, same, e'))
          | inr other ↦ nodes k ∙ h.unborn k j (sym (rw other refl) ∙ e')
        ];
      }

  start_turn-IsCared :
      (c : ℕ) (b : Birth) (s : Family) → s.births c ≡ b → IsCared s → IsCared (start_turn c b s)
  start_turn-IsCared c (apart me) s e h = h
  start_turn-IsCared c born s e h = h
  start_turn-IsCared c (adopted me) s e h =
      start-IsCared c (get_elem? s.table.procs me) s (λ (j, e'). absurd (cc (e, e'))) h

  step-GoesOn :
      (v : Event) (s : Family) → Stays v → IsCared s → GoesOn (step proc_addr thread_addr v s)
  unfolding step
  step-GoesOn (adopts c) s stays h = (_, refl, adopt-IsCared c (s.births c) s refl h)
  step-GoesOn (starts c) s stays h = (_, refl, start_turn-IsCared c (s.births c) s refl h)
  step-GoesOn (calls me c) s stays h = elim (Option-cases (get_elem? s.table.procs me)) [
    | inl nobody ↦ rw nobody (s, refl, h)
    | inr (p, e) ↦ elim (Bool-cases (may_call me p s)) [
      | inr waits_still ↦ rw (e, waits_still) (s, refl, h)
      | inl ready ↦
          let alive : is_alive p.state ≡ true = ground (arith, ready) in
          let is_there : is_born (s.births me) ≡ true = ground (arith, ready) in
          let idle : is_forking me (length s.table.procs) s.births ≡ false =
            ground (arith, ready) in
          rw (e, ready)
            (perform-GoesOn c me p s stays h
              (subst IsAlive (sym (get-look s.table.procs me e)) alive)
              (born_lem (s.births me) is_there) idle)
    ]
  ]

  -- Processes of one thread each fork, exit and wait, and the three critical sections of a `fork` come
  -- apart, with anything that other processes do between them. Whatever they do in any order, as
  -- long as the first process does not exit, nothing panics, and every other process, running or a
  -- zombie, has a parent that has not exited and so can wait for it, where the process that forks
  -- counts as the parent until `fork` has set it; free slots have none.
  pub run-HasParents :
      (vs : List Event) (s : Family)
      → InitStays vs
      → IsCared s
      → GoesOn (run proc_addr thread_addr vs s)
  unfolding run
  run-HasParents [] s stays h = (s, refl, h)
  run-HasParents (v ∷ vs) s stays h =
      let (t, e, h') = step-GoesOn v s stays.0 h in rw e (run-HasParents vs t stays.1 h')
