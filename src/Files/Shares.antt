-- ===== src/Files/Shares.antt =====
-- kernel/file.c, kernel/sysfile.c: the reference counts of all files, for all processes.
use os_assignment.Prelude.{
  ℕ, zero, suc, ◌+◌, ◌-◌, ◌≡◌, refl, inl, inr, Bool, true, false, ◌&&◌, Option, none, some, List,
  [], ◌∷◌, arith, get_elem?, set, replicate, Bool-cases, Option-cases,
}
use os_assignment.Prelude.Outcome.{ok}
use os_assignment.Files.{Table}
use os_assignment.Files.Descriptors.{Ofile}
use os_assignment.Files.Counts.{count, Counts, recount}
use os_assignment.Files.Processes.{
  SlotState, free, made, live, Work, idle, opening, one_end, both_ends, closing, copying, exiting,
  Process, System, Call, open_file, dup, close, pipe, fork, exit, Event, calls, goes_on, nproc,
  no_files, begin_call, continue, put_process, is_free, is_made, is_live, is_idle, take_slot,
  start_slot, slot_taken, call_by, all_copied, end_fork, turn_by, step, run, start,
}
use os_assignment.Files.Refs.{
  refs, total, total-set, refs-le-total, IsGood, AllGood, set-AllGood, get-AllGood, IsShared,
  GoesOn,
}
use os_assignment.Files.Sections.{idle_lem, begin_call-Goes, continue-Goes}

module _ (s : System) (h : IsShared s) where
  -- The references that other processes have.
  abbrev others : Process → ℕ → ℕ
  others x k = total s.procs k - refs x k

  stays : GoesOn (ok s)
  stays = (s, refl, h)

  put_process-IsShared :
      (p : ℕ) {x : Process} (y : Process × Table)
      → get_elem? s.procs p ≡ some x
      → Counts (λ k. others x k + refs y.0 k) y.1
      → IsGood y.0
      → IsShared (put_process p s.procs y)
  put_process-IsShared p (y, t) e c good = record {
    counts = recount (λ k. omega (arith, total-set s.procs p y k e, refs-le-total s.procs p k e)) c;
    good = set-AllGood s.procs p y good h.good;
  }

  -- A slot is given out, or a process starts in it, with these references.
  put_slot-IsShared :
      (q : ℕ) {x : Process} (y : Process) (extra : ℕ → ℕ) (t : Table)
      → get_elem? s.procs q ≡ some x
      → is_live x.slot ≡ false
      → IsGood y
      → ((k : ℕ) → refs y k ≡ extra k)
      → Counts (λ k. total s.procs k + extra k) t
      → IsShared (record { procs = set s.procs q y; table = t })
  put_slot-IsShared q {x} y extra t e dead good adds c =
      let was : IsGood x = get-AllGood s.procs q e h.good in
      record {
        counts =
            recount (λ k. omega (arith, total-set s.procs q y k e, was.clean dead k, adds k)) c;
        good = set-AllGood s.procs q y good h.good;
      }

free_dead : (v : SlotState) → is_free v ≡ true → is_live v ≡ false
free_dead free e = refl
free_dead made e = refl
free_dead live e = absurd (cc)

made_dead : (v : SlotState) → is_made v ≡ true → is_live v ≡ false
made_dead free e = refl
made_dead made e = refl
made_dead live e = absurd (cc)

take_slot-IsShared :
    (q : ℕ) (s before : System) (o : Option Process)
    → get_elem? s.procs q ≡ o
    → IsShared s
    → IsShared before
    → IsShared (take_slot q s before o)
take_slot-IsShared q s before none e h h' = h'
take_slot-IsShared q s before (some y) e h h' = elim (Bool-cases (is_free y.slot)) [
  | inr taken ↦ rw taken h'
  | inl is_empty ↦
      let dead = free_dead y.slot is_empty in
      let was : IsGood y = get-AllGood s.procs q e h.good in
      rw is_empty (
        put_slot-IsShared s h q (record y { slot = made }) (λ k. 0) s.table e dead
          (record { has = was.has; clean = λ d. was.clean dead }) (was.clean dead)
          (recount (λ k. omega arith) h.counts))
]

all_copied_lem :
    (w : Work) {q : ℕ} {filled : Ofile} → all_copied w ≡ some (q, filled) → w ≡ copying q [] filled
all_copied_lem idle e = absurd (cc)
all_copied_lem (opening f kind ip r w) e = absurd (cc)
all_copied_lem (one_end f0) e = absurd (cc)
all_copied_lem (both_ends f0 f1) e = absurd (cc)
all_copied_lem (closing fs) e = absurd (cc)
all_copied_lem (copying q' [] filled') {q} {filled} e =
    let to_slot : q' ≡ q = cc in
    let with_files : filled' ≡ filled = cc in rw (to_slot, with_files) refl
all_copied_lem (copying q' (d ∷ todo) filled') e = absurd (cc)
all_copied_lem (exiting todo) e = absurd (cc)

-- The new process gets what the loop of `fork` has made for it.
start_slot-IsShared :
    (q : ℕ) (filled : Ofile) (s before : System) (o : Option Process)
    → get_elem? s.procs q ≡ o
    → AllGood s.procs
    → Counts (λ k. total s.procs k + count filled k) s.table
    → IsShared before
    → IsShared (start_slot q filled s before o)
start_slot-IsShared q filled s before none e good c h = h
start_slot-IsShared q filled s before (some y) e good c h = elim (Bool-cases (is_made y.slot)) [
  | inr other ↦ rw other h
  | inl is_new ↦
      let was : IsGood y = get-AllGood s.procs q e good in
      let dead = made_dead y.slot is_new in
      rw is_new (record {
        counts =
            recount
              (λ k. omega (
                arith,
                total-set s.procs q (record { slot = live; ofile = filled; work = idle }) k e,
                was.clean dead k,
              ))
              c;
        good = set-AllGood s.procs q _ (record { has = tt; clean = λ d. absurd (cc) }) good;
      })
]

slot_taken-IsShared :
    (c : Call) (s before : System) → IsShared s → IsShared before → IsShared (slot_taken c s before)
slot_taken-IsShared (fork q) s before h h' =
    take_slot-IsShared q s before (get_elem? s.procs q) refl h h'
slot_taken-IsShared (open_file kind ip r w) s before h h' = h
slot_taken-IsShared (dup fd) s before h h' = h
slot_taken-IsShared (close fd) s before h h' = h
slot_taken-IsShared pipe s before h h' = h
slot_taken-IsShared exit s before h h' = h

module _ (s : System) (h : IsShared s) where
  mine_and_others :
      (p : ℕ) {x : Process}
      → get_elem? s.procs p ≡ some x
      → Counts (λ k. others s h x k + refs x k) s.table
  mine_and_others p e = recount (λ k. omega (arith, refs-le-total s.procs p k e)) h.counts

  call-GoesOn : (p : ℕ) (c : Call) → GoesOn (call_by p c (get_elem? s.procs p) s)
  unfolding begin_call
  call-GoesOn p c = elim (Option-cases (get_elem? s.procs p)) [
    | inl no_slot ↦ rw no_slot (stays s h)
    | inr (x, e) ↦ elim (Bool-cases (is_live x.slot && is_idle x.work)) [
      | inr waits ↦ rw (e, waits) (stays s h)
      | inl ready ↦
          let none_yet : x.work ≡ idle = idle_lem x.work (ground (arith, ready)) in
          let (y, done, c', good) =
            begin_call-Goes (others s h x) x s.table (ground (arith, ready)) (mine_and_others p e) c
              none_yet in
          rw (e, ready, done)
            (_, refl, slot_taken-IsShared c _ s (put_process-IsShared s h p y e c' good) h)
    ]
  ]

  end_fork-IsShared :
      (p q : ℕ) (filled : Ofile) (x : Process)
      → get_elem? s.procs p ≡ some x
      → is_live x.slot ≡ true
      → x.work ≡ copying q [] filled
      → IsShared (end_fork p q filled x s)
  end_fork-IsShared p q filled x e running at_end =
      let y : Process = record x { work = idle } in
      let split : (k : ℕ) → refs x k ≡ refs y k + count filled k = λ k. rw at_end (omega arith) in
      start_slot-IsShared q filled _ s _ refl
        (set-AllGood s.procs p y (record { has = tt; clean = λ dead. absurd (cc (running, dead)) })
          h.good)
        (recount (λ k. omega (arith, total-set s.procs p y k e, split k)) h.counts) h

  turn-GoesOn :
      (p : ℕ) (page : Option ℕ) (copied : Bool)
      → GoesOn (turn_by p page copied (get_elem? s.procs p) s)
  unfolding continue
  turn-GoesOn p page copied = elim (Option-cases (get_elem? s.procs p)) [
    | inl no_slot ↦ rw no_slot (stays s h)
    | inr (x, e) ↦ elim (Bool-cases (is_live x.slot)) [
      | inr waits ↦ rw (e, waits) (stays s h)
      | inl running ↦ elim (Option-cases (all_copied x.work)) [
        | inl going ↦
            let was : IsGood x = get-AllGood s.procs p e h.good in
            let c = mine_and_others p e in
            let (y, done, c', good) =
              continue-Goes (others s h x) x s.table running c page copied x.work refl was.has c in
            rw (e, running, going, done) (_, refl, put_process-IsShared s h p y e c' good)
        | inr ((q, filled), at_end) ↦
            rw (e, running, at_end)
              (_, refl, end_fork-IsShared p q filled x e running (all_copied_lem x.work at_end))
      ]
    ]
  ]

  step-GoesOn : (v : Event) → GoesOn (step v s)
  unfolding step
  step-GoesOn (calls p c) = call-GoesOn p c
  step-GoesOn (goes_on p page copied) = turn-GoesOn p page copied

-- Processes of one thread each open, duplicate, close, pipe, fork and exit, and come in turn between
-- any two critical sections of the table of files. Whatever they do, `filedup` and `fileclose` never
-- panic, each file counts exactly the descriptors that refer to it in all processes and what calls
-- in progress keep of it, a file that none refers to is free, and a slot in which no process runs has
-- no open files.
pub run-IsShared : (vs : List Event) (s : System) → IsShared s → GoesOn (run vs s)
unfolding run
run-IsShared [] s h = (s, refl, h)
run-IsShared (v ∷ vs) s h = let (t, e, h') = step-GoesOn s h v in rw e (run-IsShared vs t h')

replicate-AllGood : (n : ℕ) (x : Process) → IsGood x → AllGood (replicate n x)
replicate-AllGood zero x c = tt
replicate-AllGood (suc n) x c = (c, replicate-AllGood n x c)

pub start-IsShared : IsShared start
unfolding start
start-IsShared = record {
  counts = record { counted = λ k. refl; free = λ k z. refl };
  good = (
    record { has = tt; clean = λ e. absurd (cc) },
    replicate-AllGood (nproc - 1) (record { slot = free; ofile = no_files; work = idle })
        (record { has = tt; clean = λ e k. refl }),
  );
}
