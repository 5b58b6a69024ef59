-- ===== src/Process/Orphans.antt =====
-- kernel/proc.c: what `exit` does not wake.
use os_assignment.Prelude.{
  ℕ, zero, suc, ◌+◌, ◌≡◌, ◌≢◌, refl, ap, sym, ◌∙◌, inl, inr, Bool, true, false, ◌&&◌, Option, none,
  some, List, [], ◌∷◌, ◌==◌, arith, if◌then◌else◌, get_elem?, length, Bool-cases, Option-cases,
}
use mathlib.Core.Option
use mathlib.Core.Path.{subst}
use os_assignment.Prelude.Outcome.{ok}
use os_assignment.Process.{State, Thread, Proc, is_sleeping, wakeup}
use os_assignment.Process.Wakeup.{thread_at, wakeup-thread_at}
use os_assignment.Process.Nodes.{Node, look, reparent_all, left_table, exit_lem, left_table-look}
use os_assignment.Process.Tree.{
  modify, initproc, nthread, main_channel, child_at, parent_channel, reparent_one, reparent,
  end_threads, exit,
}

-- A thread that sleeps on a channel.
abbrev pub SleepsOn : (chan : ℕ) → Option Thread → Type 0
SleepsOn chan none = ⊥
SleepsOn chan (some t) = (t.state ≡ State.sleeping) × (t.chan ≡ chan)

still :
    {chan other : ℕ} (me : Bool) (o : Option Thread)
    → other ≢ chan
    → SleepsOn chan o
    → SleepsOn chan (
        Option.map
          (λ t.
            if me
            then t
            else if is_sleeping t.state && (t.chan == other)
            then record t { state = State.runnable }
            else t)
          o)
still me none ne h = h
still true (some t) ne h = h
still {chan} {other} false (some t) ne h =
    let elsewhere : (is_sleeping t.state && (t.chan == other)) ≡ false = ground (arith, h.1, ne) in
    rw elsewhere h

-- A call of `wakeup` for another channel.
wakeup-SleepsOn :
    (chan other my_proc my_thread n j : ℕ) (ps : List Proc)
    → other ≢ chan
    → SleepsOn chan (thread_at ps n j)
    → SleepsOn chan (thread_at (wakeup other my_proc my_thread ps) n j)
wakeup-SleepsOn chan other my_proc my_thread n j ps ne h =
    rw (wakeup-thread_at other my_proc my_thread n j ps)
      (still ((n == my_proc) && (j == my_thread)) (thread_at ps n j) ne h)

modify-thread_at :
    (f : Proc → Proc) (i n j : ℕ) (ps : List Proc)
    → i ≢ n
    → thread_at (modify i f ps) n j ≡ thread_at ps n j
modify-thread_at f i n j [] ne = refl
modify-thread_at f zero zero j (p ∷ ps) ne = absurd (ne refl)
modify-thread_at f zero (suc n) j (p ∷ ps) ne = refl
modify-thread_at f (suc i) zero j (p ∷ ps) ne = refl
modify-thread_at f (suc i) (suc n) j (p ∷ ps) ne = modify-thread_at f i n j ps (λ e. ne (ap suc e))

-- A change of parents.
same-thread_at :
    (f : Proc → Proc)
    → ((p : Proc) → (f p).threads ≡ p.threads)
    → (i n j : ℕ) (ps : List Proc) → thread_at (modify i f ps) n j ≡ thread_at ps n j
same-thread_at f h i n j [] = refl
same-thread_at f h zero zero j (p ∷ ps) = ap (λ ts. get_elem? ts j) (h p)
same-thread_at f h zero (suc n) j (p ∷ ps) = refl
same-thread_at f h (suc i) zero j (p ∷ ps) = refl
same-thread_at f h (suc i) (suc n) j (p ∷ ps) = same-thread_at f h i n j ps

abbrev parent_of : Option Node → Option ℕ
parent_of none = none
parent_of (some n) = n.1

module _ (proc_addr : ℕ → ℕ) (thread_addr : ℕ → ℕ → ℕ) where
  -- Channels of threads are not those of processes, and the channels that `wait` sleeps on differ.
  pub record AreApart : Type 0 where
    pub threads : (i j n : ℕ) → thread_addr i j ≢ proc_addr n
    pub procs : (i n : ℕ) → proc_addr i ≡ proc_addr n → i ≡ n
    pub nonzero : (n : ℕ) → proc_addr n ≢ 0

  module _ (apart : AreApart) where
    main_channel-apart :
        (ps : List Proc) (i n : ℕ) → main_channel proc_addr thread_addr ps i ≢ proc_addr n
    main_channel-apart ps i n = elim (Option-cases (get_elem? ps i)) [
      | inl nobody ↦ rw (main_channel, nobody) (λ e. apart.nonzero n (sym e))
      | inr (p, there) ↦ rw (main_channel, there) (apart.threads i p.main_thread n)
    ]

    reparent_one-SleepsOn :
        (me th i j : ℕ) (ps : List Proc)
        → SleepsOn (proc_addr initproc) (thread_at ps initproc j)
        → SleepsOn
            (proc_addr initproc)
            (thread_at (reparent_one proc_addr thread_addr me th i ps) initproc j)
    unfolding reparent_one
    reparent_one-SleepsOn me th i j ps h =
        elim (Bool-cases (child_at proc_addr thread_addr ps me i)) [
          | inr no_child ↦ rw no_child h
          | inl child ↦
              let adopt : Proc → Proc = λ p. record p { parent = some initproc } in
              let same : thread_at (modify i adopt ps) initproc j ≡ thread_at ps initproc j =
                same-thread_at adopt (λ p. refl) i initproc j ps in
              rw child (
                wakeup-SleepsOn _ _ me th initproc j (modify i adopt ps)
                  (main_channel-apart (modify i adopt ps) initproc initproc)
                  (subst (SleepsOn (proc_addr initproc)) (sym same) h))
        ]

    reparent-SleepsOn :
        (me th left i j : ℕ) (ps : List Proc)
        → SleepsOn (proc_addr initproc) (thread_at ps initproc j)
        → SleepsOn
            (proc_addr initproc)
            (thread_at (reparent proc_addr thread_addr me th left i ps) initproc j)
    unfolding reparent
    reparent-SleepsOn me th zero i j ps h = h
    reparent-SleepsOn me th (suc left) i j ps h =
        reparent-SleepsOn me th left (i + 1) j _ (reparent_one-SleepsOn me th i j ps h)

    end_threads-SleepsOn :
        (me th left i j : ℕ) (ps : List Proc)
        → me ≢ initproc
        → SleepsOn (proc_addr initproc) (thread_at ps initproc j)
        → SleepsOn
            (proc_addr initproc)
            (thread_at (end_threads proc_addr thread_addr me th left i ps) initproc j)
    unfolding end_threads
    end_threads-SleepsOn me th zero i j ps ne h = h
    end_threads-SleepsOn me th (suc left) i j ps ne h =
        end_threads-SleepsOn me th left (i + 1) j _ ne (
          wakeup-SleepsOn _ _ me th initproc j _ (apart.threads me i initproc) (
            subst (SleepsOn (proc_addr initproc)) (sym (modify-thread_at _ me initproc j ps ne)) h))

    parent_channel-look :
        (ps : List Proc) (i g : ℕ) (s : State)
        → look ps i ≡ some (s, some g)
        → parent_channel proc_addr thread_addr ps i ≡ proc_addr g
    parent_channel-look [] i g s e = absurd (cc)
    parent_channel-look (p ∷ ps) zero g s e =
        let mine : p.parent ≡ some g = ap parent_of e in rw (parent_channel, mine) refl
    parent_channel-look (p ∷ ps) (suc i) g s e = parent_channel-look ps i g s e

    -- Process `me`, whose parent is not the first process, exits and leaves it a zombie. The first
    -- process then has a child that it could reap, and a thread of it that sleeps in `wait` sleeps on:
    -- `reparent` wakes those that sleep on its main thread, and nobody sleeps there.
    pub exit-leaves_init_asleep :
        (status me th j z g : ℕ) (s : State) (ps : List Proc)
        → me ≢ initproc
        → look ps me ≡ some (s, some g)
        → g ≢ me
        → g ≢ initproc
        → look ps z ≡ some (State.zombie, some me)
        → z ≢ me
        → SleepsOn (proc_addr initproc) (thread_at ps initproc j)
        → (qs : List Proc) × (exit proc_addr thread_addr status me th ps ≡ ok qs)
          × (look qs z ≡ some (State.zombie, some initproc))
          × SleepsOn (proc_addr initproc) (thread_at qs initproc j)
    exit-leaves_init_asleep status me th j z g s ps ne mine not_own not_init dead other h =
        let qs : List Proc = reparent proc_addr thread_addr me th (length ps) 0 ps in
        let own : (g == me) ≡ false = ground (arith, not_own) in
        let kept : look qs me ≡ some (s, some g) =
          reparent_all proc_addr thread_addr me th me ps ∙ rw (mine, own) refl in
        let apart_parent : parent_channel proc_addr thread_addr qs me ≢ proc_addr initproc =
          λ e. not_init (apart.procs g initproc (sym (parent_channel-look qs me g s kept) ∙ e)) in
        let theirs : (z == me) ≡ false = ground (arith, other) in
        let again : (me == me) ≡ true = ground arith in
        (
          left_table proc_addr thread_addr status me th ps,
          exit_lem proc_addr thread_addr status me th ps ne,
          left_table-look proc_addr thread_addr status me th z ps ∙ rw (dead, theirs, again) refl,
          subst (SleepsOn (proc_addr initproc)) (sym (modify-thread_at _ me initproc j _ ne)) (
              end_threads-SleepsOn me th nthread 0 j _ ne (
                wakeup-SleepsOn _ _ me th initproc j qs apart_parent
                  (reparent-SleepsOn me th (length ps) 0 j ps h))),
        )
