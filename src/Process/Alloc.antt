-- ===== src/Process/Alloc.antt =====
-- kernel/proc.c: process ids are unique, and what `kill` of pid 0 does to a free slot of the table.
use os_assignment.Prelude.{
  ℕ, zero, suc, ◌+◌, ◌<◌, ◌≡◌, ◌≢◌, ◌⊎◌, inl, inr, refl, ap, ◌∙◌, Bool, true, false, none, some,
  List, [], ◌∷◌, ◌++◌, arith, if◌then◌else◌, get_elem?, set, length, Bool-cases,
}
use mathlib.Core.Path.{subst}
use os_assignment.Process.{State, Proc, sigkill, rouse, kill, kill_proc}
use os_assignment.Process.Kill.{NonePid, kill-found}
use os_assignment.Process.Table.{Table, is_unused, setup_proc, abandon_proc, alloc_scan, allocproc}

-- What `allocproc` leaves in the slot that it has found.
abbrev pub filled : (memory : Bool) → (pid tid : ℕ) → Proc → Proc
filled memory pid tid p =
    if memory then setup_proc pid tid p else abandon_proc (setup_proc pid tid p)

pub record Found (memory : Bool) (pid tid i : ℕ) (ps : List Proc) : Type 0 where
  pub slot : ℕ
  pub old : Proc
  pub there : get_elem? ps slot ≡ some old
  pub free : is_unused old.state ≡ true
  pub result :
      alloc_scan memory pid tid i ps
      ≡ some (if memory then some (i + slot) else none, set ps slot (filled memory pid tid old))

pub alloc_scan-cases :
    (memory : Bool) (pid tid i : ℕ) (ps : List Proc)
    → (alloc_scan memory pid tid i ps ≡ none) ⊎ Found memory pid tid i ps
unfolding alloc_scan
alloc_scan-cases memory pid tid i [] = inl refl
alloc_scan-cases memory pid tid i (p ∷ ps) = elim (Bool-cases (is_unused p.state)) [
  | inl free ↦ inr (record {
    slot = 0;
    old = p;
    there = refl;
    free = free;
    result = let e : i + 0 ≡ i = omega arith in ground (arith, e);
  })
  | inr used ↦ elim (alloc_scan-cases memory pid tid (i + 1) ps) [
    | inl e ↦ inl (rw (used, e))
    | inr f ↦ inr (record {
      slot = suc f.slot;
      old = f.old;
      there = f.there;
      free = f.free;
      result = let e : i + suc f.slot ≡ i + 1 + f.slot = omega arith in rw (used, f.result, e);
    })
  ]
]

-- Every process in use has a pid below `nextpid`, and no two have the same.
pub record HasUniquePids (k : Table) : Type 0 where
  pub below :
      (i : ℕ) (p : Proc)
      → get_elem? k.procs i ≡ some p
      → is_unused p.state ≡ false
      → p.pid < k.next_pid
  pub unique :
      (i j : ℕ) (p q : Proc)
      → get_elem? k.procs i ≡ some p
      → get_elem? k.procs j ≡ some q
      → is_unused p.state ≡ false
      → is_unused q.state ≡ false
      → p.pid ≡ q.pid
      → i ≡ j

get_elem?-set :
    (ps : List Proc) (n i : ℕ) (old new p : Proc)
    → get_elem? ps n ≡ some old
    → get_elem? (set ps n new) i ≡ some p
    → ((i ≡ n) × (p ≡ new)) ⊎ ((i ≢ n) × (get_elem? ps i ≡ some p))
get_elem?-set [] n i old new p e h = absurd (cc)
get_elem?-set (q ∷ ps) zero zero old new p e h = inl (refl, ground arith)
get_elem?-set (q ∷ ps) zero (suc i) old new p e h = inr (omega arith, h)
get_elem?-set (q ∷ ps) (suc n) zero old new p e h = inr (omega arith, h)
get_elem?-set (q ∷ ps) (suc n) (suc i) old new p e h = elim (get_elem?-set ps n i old new p e h) [
  | inl (a, b) ↦ inl (ap suc a, b)
  | inr (a, b) ↦ inr (omega arith, b)
]

setup_proc-pid : (pid tid : ℕ) (p : Proc) → (setup_proc pid tid p).pid ≡ pid
unfolding setup_proc
setup_proc-pid pid tid p = refl

filled-cases :
    (memory : Bool) (pid tid : ℕ) (p : Proc)
    → is_unused (filled memory pid tid p).state ≡ false
    → (filled memory pid tid p).pid ≡ pid
unfolding setup_proc abandon_proc
filled-cases true pid tid p h = refl
filled-cases false pid tid p h = cc

-- A process in the table with slot `n` rewritten: the new one, with the next pid if it is in use, or
-- an old one, with a smaller pid.
Fresh : Table → (n : ℕ) → (new : Proc) → (i : ℕ) → Proc → Type 0
Fresh k n new i p =
    ((i ≡ n) × (p.pid ≡ k.next_pid))
    ⊎ ((i ≢ n) × (get_elem? k.procs i ≡ some p) × (p.pid < k.next_pid))

set-Fresh :
    (k : Table) (n i : ℕ) (old new p : Proc)
    → HasUniquePids k
    → get_elem? k.procs n ≡ some old
    → (is_unused new.state ≡ false → new.pid ≡ k.next_pid)
    → get_elem? (set k.procs n new) i ≡ some p
    → is_unused p.state ≡ false
    → Fresh k n new i p
unfolding Fresh
set-Fresh k n i old new p h e numbered g used = elim (get_elem?-set k.procs n i old new p e g) [
  | inl (a, b) ↦ inl (
    a,
    ap (λ (r : Proc). r.pid) b ∙ numbered (subst (λ (r : Proc). is_unused r.state ≡ false) b used),
  )
  | inr (a, b) ↦ inr (a, b, h.below i p b used)
]

set-HasUniquePids :
    (k : Table) (n : ℕ) (old new : Proc)
    → HasUniquePids k
    → get_elem? k.procs n ≡ some old
    → (is_unused new.state ≡ false → new.pid ≡ k.next_pid)
    → HasUniquePids
        (record { procs = set k.procs n new; next_pid = k.next_pid + 1; next_tid = k.next_tid + 1 })
unfolding Fresh
set-HasUniquePids k n old new h e numbered = record {
  below = λ i p g used. elim (set-Fresh k n i old new p h e numbered g used) [
    | inl (a, b) ↦ omega arith
    | inr (a, b, c) ↦ omega arith
  ];
  unique = λ i j p q g f used used' same. elim (set-Fresh k n i old new p h e numbered g used) [
    | inl (a, b) ↦ elim (set-Fresh k n j old new q h e numbered f used') [
      | inl (a', b') ↦ omega arith
      | inr (a', b', c') ↦ absurd (omega arith)
    ]
    | inr (a, b, c) ↦ elim (set-Fresh k n j old new q h e numbered f used') [
      | inl (a', b') ↦ absurd (omega arith)
      | inr (a', b', c') ↦ h.unique i j p q b b' used used' same
    ]
  ];
}

-- `allocproc`, with or without memory for the new process, keeps the pids of all processes in use
-- below `nextpid` and different from one another. (`nextpid` is taken not to overflow.)
allocproc-HasUniquePids :
    (memory : Bool) (k : Table) → HasUniquePids k → HasUniquePids (allocproc memory k).1
unfolding allocproc
allocproc-HasUniquePids memory k h =
    elim (alloc_scan-cases memory k.next_pid k.next_tid 0 k.procs) [
      | inl e ↦ rw (e, allocproc) h
      | inr f ↦
          rw (f.result, allocproc)
            (set-HasUniquePids k f.slot f.old (filled memory k.next_pid k.next_tid f.old) h f.there
              (filled-cases memory k.next_pid k.next_tid f.old))
    ]

-- Every process of the list is in use.
abbrev pub NoneUnused : List Proc → Type 0
NoneUnused [] = Unit
NoneUnused (p ∷ ps) = (is_unused p.state ≡ false) × NoneUnused ps

alloc_scan-first :
    (pid tid i : ℕ) (ps qs : List Proc) (p : Proc)
    → NoneUnused ps
    → is_unused p.state ≡ true
    → alloc_scan true pid tid i (ps ++ (p ∷ qs))
      ≡ some (some (i + length ps), ps ++ (setup_proc pid tid p ∷ qs))
unfolding alloc_scan
alloc_scan-first pid tid i [] qs p used free = let e : i + 0 ≡ i = omega arith in rw (free, e)
alloc_scan-first pid tid i (r ∷ ps) qs p used free =
    let e : i + suc (length ps) ≡ i + 1 + length ps = omega arith in
    rw (used.0, alloc_scan-first pid tid (i + 1) ps qs p used.1 free, e)

allocproc-first :
    (k : Table) (ps qs : List Proc) (p : Proc)
    → NoneUnused ps
    → is_unused p.state ≡ true
    → allocproc true (record k { procs = ps ++ (p ∷ qs) }) ≡ (
      some (length ps),
      record {
        procs = ps ++ (setup_proc k.next_pid k.next_tid p ∷ qs);
        next_pid = k.next_pid + 1;
        next_tid = k.next_tid + 1;
      },
    )
unfolding allocproc
allocproc-first k ps qs p used free =
    let e : 0 + length ps ≡ length ps = omega arith in
    rw (alloc_scan-first k.next_pid k.next_tid 0 ps qs p used free, allocproc, e)

rouse-unused : (s : State) → is_unused s ≡ true → is_unused (rouse s) ≡ true
rouse-unused State.unused h = refl
rouse-unused State.used h = h
rouse-unused State.sleeping h = cc
rouse-unused State.runnable h = h
rouse-unused State.running h = h
rouse-unused State.zombie h = h

-- A free slot has pid 0, so `kill` of pid 0 finds the first one and marks it; `allocproc` does not
-- clear the mark, and the next process of the table is killed before it has run.
pub kill_zero-marks_next_process :
    (k : Table) (ps qs : List Proc) (p : Proc)
    → NoneUnused ps
    → NonePid p.pid ps
    → p.pid ≡ 0
    → is_unused p.state ≡ true
    → (killed : Proc) × (child : Proc) × (kill 0 sigkill (ps ++ (p ∷ qs))
        ≡ some (ps ++ (killed ∷ qs)))
      × (allocproc true (record k { procs = ps ++ (killed ∷ qs) }) ≡ (
        some (length ps),
        record { procs = ps ++ (child ∷ qs); next_pid = k.next_pid + 1; next_tid = k.next_tid + 1 },
      ))
      × (child.pid ≡ k.next_pid)
      × (child.killed ≡ true)
unfolding setup_proc kill_proc
kill_zero-marks_next_process k ps qs p used no_zero zero_pid free = (
  kill_proc sigkill p,
  setup_proc k.next_pid k.next_tid (kill_proc sigkill p),
  subst (λ n. kill n sigkill (ps ++ (p ∷ qs)) ≡ some (ps ++ (kill_proc sigkill p ∷ qs))) zero_pid
      (kill-found sigkill ps qs p (omega arith) no_zero),
  allocproc-first k ps qs (kill_proc sigkill p) used (rouse-unused p.state free),
  refl,
  refl,
)
