-- ===== src/Console/Sleepers.antt =====
-- kernel/console.c: who sleeps in `consoleread`, and when.
use os_assignment.Prelude.{
  ℕ, zero, suc, ◌≡◌, refl, ap, sym, inl, inr, Bool, List, [], ◌∷◌, ◌==◌, ltb, arith, length,
  if◌then◌else◌, update-all, Bool-cases,
}
use mathlib.Core.Path.{subst}
use os_assignment.Console.{control}
use os_assignment.Console.Ring.{ready, fresh-IsValid}
use os_assignment.Console.Editor as Editor
use os_assignment.Console.Editor.{Editor, Read, read, ended, gets}
use os_assignment.Console.Readers.{
  Reader, idle, waiting, running, wake, Event, key, call, kill, turn, enter_call, after_stop, run,
  start,
}
use os_assignment.Console.Session.{Session, grew, session_turn, session_step, session}
use os_assignment.Console.Refines.{AllBytes, seen, run-Refines}

-- A reader sleeps only if there is nothing to read.
abbrev pub Rests : List ℕ → Reader → Type 0
Rests cs idle = Unit
Rests cs (waiting target left dst) = cs ≡ []
Rests cs (running target left dst) = Unit

abbrev pub AllRest : List ℕ → (ℕ → Reader) → Type 0
AllRest cs readers = (k : ℕ) → Rests cs (readers k)

wake-Rests : (cs : List ℕ) (r : Reader) → Rests cs (wake r)
wake-Rests cs idle = tt
wake-Rests cs (waiting target left dst) = tt
wake-Rests cs (running target left dst) = tt

same_length : {cs ds : List ℕ} → cs ≡ [] → length ds ≡ length cs → ds ≡ []
same_length {ds = []} e h = refl
same_length {ds = d ∷ ds} e h = absurd (omega (arith, h, ap length e))

still-Rests : {cs ds : List ℕ} (r : Reader) → (cs ≡ [] → ds ≡ []) → Rests cs r → Rests ds r
still-Rests idle f h = tt
still-Rests (waiting target left dst) f h = f h
still-Rests (running target left dst) f h = tt

edit-Rests :
    (d d' : Editor) (r : Reader)
    → Rests d.ready r
    → Rests d'.ready (if grew d d' then wake r else r)
edit-Rests d d' r h = elim (Bool-cases (length d'.ready == length d.ready)) [
  | inl same ↦ rw same (still-Rests r (λ e. same_length e (ground (arith, same))) h)
  | inr more ↦ rw more (wake-Rests d'.ready r)
]

call-Rests : (dst n : ℕ) (cs : List ℕ) (r : Reader) → Rests cs r → Rests cs (enter_call dst n r)
call-Rests dst n cs idle h = tt
call-Rests dst n cs (waiting target left dst') h = h
call-Rests dst n cs (running target left dst') h = tt

-- What a read leaves, by how it ends.
read-Rests :
    (was_killed : Bool) (copyout : ℕ → Bool) (target left dst : ℕ) (cs : List ℕ)
    → (let x = read was_killed copyout target left dst cs in
        Rests x.rest (after_stop target x.stop))
      × (cs ≡ [] → (read was_killed copyout target left dst cs).rest ≡ [])
unfolding read
read-Rests was_killed copyout target zero dst cs = (tt, λ e. e)
read-Rests was_killed copyout target (suc left) dst [] = elim (Bool-cases was_killed) [
  | inl dead ↦ rw dead (tt, λ e. refl)
  | inr alive ↦ rw alive (refl, λ e. refl)
]
read-Rests was_killed copyout target (suc left) dst (c ∷ cs) =
    elim (Bool-cases (c == control b'D')) [
      | inl mark ↦ rw mark (elim (Bool-cases (ltb (suc left) target)) [
        | inl later ↦ rw later (tt, λ e. e)
        | inr now ↦ rw now (tt, λ e. absurd (cc))
      ])
      | inr char ↦ rw char (elim (Bool-cases (copyout dst)) [
        | inr fault ↦ rw fault (tt, λ e. absurd (cc))
        | inl fine ↦ rw fine (elim (Bool-cases (c == b'\n')) [
          | inl newline ↦ rw newline (tt, λ e. absurd (cc))
          | inr other ↦
              rw other ((read-Rests was_killed copyout target left _ cs).0, λ e. absurd (cc))
        ])
      ])
    ]

turn-AllRest :
    (j : ℕ) (was_killed : Bool) (copyout : ℕ → Bool) (r : Reader) (s : Session)
    → AllRest s.editor.ready s.readers
    → (let t = session_turn j was_killed copyout r s in AllRest t.editor.ready t.readers)
turn-AllRest j was_killed copyout idle s h = h
turn-AllRest j was_killed copyout (waiting target left dst) s h = h
turn-AllRest j was_killed copyout (running target left dst) s h =
    let (mine, others) = read-Rests was_killed copyout target left dst s.editor.ready in
    let x : Read = read was_killed copyout target left dst s.editor.ready in
    update-all (Rests x.rest) s.readers j (after_stop target x.stop) mine
      (λ k. still-Rests (s.readers k) others (h k))

step-AllRest :
    (v : Event) (s : Session)
    → AllRest s.editor.ready s.readers
    → (let t = session_step v s in AllRest t.editor.ready t.readers)
step-AllRest (key c) s h = λ k. edit-Rests s.editor (Editor.key c s.editor) (s.readers k) (h k)
step-AllRest (call j dst n) s h =
    update-all (Rests s.editor.ready) s.readers j _
      (call-Rests dst n s.editor.ready (s.readers j) (h j)) h
step-AllRest (kill j) s h =
    update-all (Rests s.editor.ready) s.readers j _ (wake-Rests s.editor.ready (s.readers j)) h
step-AllRest (turn j was_killed copyout) s h = turn-AllRest j was_killed copyout (s.readers j) s h

session-AllRest :
    (vs : List Event) (s : Session)
    → AllRest s.editor.ready s.readers
    → (let t = session vs s in AllRest t.editor.ready t.readers)
session-AllRest [] s h = h
session-AllRest (v ∷ vs) s h = session-AllRest vs (session_step v s) (step-AllRest v s h)

-- Whatever keys and readers do after boot, a reader sleeps only while there is nothing to read: no
-- wakeup is lost.
pub run-AllRest :
    (vs : List Event) → AllBytes vs → AllRest (ready (run vs start).console) (run vs start).readers
unfolding start
run-AllRest vs bytes =
    subst (λ t. AllRest t.editor.ready t.readers) (sym (run-Refines vs start bytes fresh-IsValid))
      (session-AllRest vs (seen start) (λ k. tt))
