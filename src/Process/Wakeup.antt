-- ===== src/Process/Wakeup.antt =====
-- kernel/proc.c: `wakeup` wakes whom it should and nobody else.
use os_assignment.Prelude.{
  ℕ, zero, suc, ◌+◌, ◌≡◌, refl, ◌&&◌, Option, none, List, [], ◌∷◌, ◌==◌, get_elem?, arith,
  if◌then◌else◌,
}
use mathlib.Core.Option
use os_assignment.Process.{
  State, Thread, Proc, is_sleeping, wake_thread, wake_threads, wakeup_from, wakeup,
}

wake_threads-get_elem? :
    (chan my_proc my_thread i j k : ℕ) (ts : List Thread)
    → get_elem? (wake_threads chan my_proc my_thread i j ts) k
      ≡ Option.map (wake_thread chan ((i == my_proc) && ((j + k) == my_thread))) (get_elem? ts k)
unfolding wake_threads
wake_threads-get_elem? chan my_proc my_thread i j k [] = refl
wake_threads-get_elem? chan my_proc my_thread i j zero (t ∷ ts) =
    let e : j + 0 ≡ j = omega arith in rw e
wake_threads-get_elem? chan my_proc my_thread i j (suc k) (t ∷ ts) =
    let e : j + suc k ≡ j + 1 + k = omega arith in
    rw (e, wake_threads-get_elem? chan my_proc my_thread i (j + 1) k ts)

-- Thread `k` of process `n` of the table.
abbrev pub thread_at : List Proc → ℕ → ℕ → Option Thread
thread_at [] n k = none
thread_at (p ∷ ps) zero k = get_elem? p.threads k
thread_at (p ∷ ps) (suc n) k = thread_at ps n k

wakeup_from-thread_at :
    (chan my_proc my_thread i n k : ℕ) (ps : List Proc)
    → thread_at (wakeup_from chan my_proc my_thread i ps) n k
      ≡ Option.map (wake_thread chan (((i + n) == my_proc) && (k == my_thread))) (thread_at ps n k)
unfolding wakeup_from
wakeup_from-thread_at chan my_proc my_thread i n k [] = refl
wakeup_from-thread_at chan my_proc my_thread i zero k (p ∷ ps) =
    let e : i + 0 ≡ i = omega arith in
    let e' : 0 + k ≡ k = omega arith in
    rw (e, wake_threads-get_elem? chan my_proc my_thread i 0 k p.threads, e')
wakeup_from-thread_at chan my_proc my_thread i (suc n) k (p ∷ ps) =
    let e : i + suc n ≡ i + 1 + n = omega arith in
    rw (e, wakeup_from-thread_at chan my_proc my_thread (i + 1) n k ps)

-- `wakeup` makes every thread in the whole table that sleeps on the channel runnable, except the
-- caller, and leaves every other thread as it is.
pub wakeup-thread_at :
    (chan my_proc my_thread n k : ℕ) (ps : List Proc)
    → thread_at (wakeup chan my_proc my_thread ps) n k
      ≡ Option.map
          (λ t.
            if (n == my_proc) && (k == my_thread)
            then t
            else if is_sleeping t.state && (t.chan == chan)
            then record t { state = State.runnable }
            else t)
          (thread_at ps n k)
unfolding wakeup wake_thread
wakeup-thread_at chan my_proc my_thread n k ps =
    let e : 0 + n ≡ n = omega arith in
    rw (e) at (wakeup_from-thread_at chan my_proc my_thread 0 n k ps)
