-- ===== src/Semaphore/Tests.antt =====
-- Runs of the model of the semaphores, and its theorems at concrete inputs.
use os_assignment.Prelude.{ℕ, ◌≡◌, refl, some, List, [], ◌∷◌, if◌then◌else◌}
use os_assignment.Semaphore.{Value, fresh_table, bsem_free, csem_alloc}
use os_assignment.Semaphore.Counting.{is_positive, Pc, Call, csem_down, run, start}
use os_assignment.Semaphore.Weights.{IsSound}
use os_assignment.Semaphore.Sound.{run-IsSound}
use os_assignment.Semaphore.Tokens.{start-IsSound, gate-open}

two_allocated : (csem_alloc 0 fresh_table).0 ≡ some (0, 1)
unfolding csem_alloc
two_allocated = refl

given_back : bsem_free 1 (Value.up ∷ Value.down ∷ []) ≡ Value.up ∷ Value.unallocated ∷ []
unfolding bsem_free
given_back = refl

-- Two threads take turns: thread 0 lowers a semaphore of count 1, thread 1 waits at the gate.
abbrev sched : List (ℕ × Call)
sched =
    (0, csem_down)
    ∷ (1, csem_down)
    ∷ (0, csem_down)
    ∷ (0, csem_down)
    ∷ (0, csem_down)
    ∷ (1, csem_down)
    ∷ (0, csem_down)
    ∷ (0, csem_down)
    ∷ []

thread_1_waits : (run sched (start 1 2)).threads ≡ Pc.outside ∷ Pc.down_gate ∷ []
unfolding run start
thread_1_waits = refl

run-IsSound_example : IsSound 1 (run sched (start 1 2))
run-IsSound_example = run-IsSound 1 sched (start 1 2) (start-IsSound 1 2)

gate-open_example :
    let c = (run sched (start 1 2)).csem in
    (c.bsem1 ≡ Value.up) × (c.bsem2 ≡ (if is_positive c.count then Value.up else Value.down))
unfolding run start
gate-open_example = gate-open 1 2 sched tt
