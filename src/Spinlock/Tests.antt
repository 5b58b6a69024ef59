-- ===== src/Spinlock/Tests.antt =====
-- Runs of the model of kernel/spinlock.c, and its theorems at concrete inputs.
use os_assignment.Prelude.{ℕ, ◌≡◌, ◌≤◌, refl, true, false, Option, none, some, List, [], ◌∷◌}
use os_assignment.Prelude.Outcome.{Outcome, ok, panic}
use os_assignment.Spinlock.{Cpu, Pc, System, push_off, pop_off, holding, advance, run, start}
use os_assignment.Spinlock.Nesting.{brackets, open_after, brackets-restore}
use os_assignment.Spinlock.Exclusion.{GoesOn, start-IsExclusive, run-IsExclusive}

-- CPU 0 takes the lock, CPU 1 spins, CPU 0 lets go, and CPU 1 takes it.
abbrev two_cpus : List ℕ
two_cpus = 0 ∷ 1 ∷ 0 ∷ 0 ∷ 1 ∷ 1 ∷ 0 ∷ 0 ∷ 1 ∷ 0 ∷ 1 ∷ []

abbrev places : Outcome System → List Pc × (Option ℕ)
places (ok s) = (s.pc 0 ∷ s.pc 1 ∷ [], s.lock.cpu)
places panic = ([], none)

two_cpus_in_turn : places (run two_cpus start) ≡ (Pc.outside ∷ Pc.inside ∷ [], some 1)
unfolding run advance start holding push_off pop_off
two_cpus_in_turn = refl

run-IsExclusive_example : GoesOn (run two_cpus start)
run-IsExclusive_example = run-IsExclusive two_cpus start start-IsExclusive

abbrev interruptible : Cpu
interruptible = record { noff = 0; intena = false; interrupts = true }

brackets-restore_example :
    (d : Cpu) × (brackets (true ∷ true ∷ false ∷ false ∷ []) interruptible ≡ ok d)
    × (d.noff ≡ 0)
    × (1 ≤ 0 → d.interrupts ≡ false)
    × (◌≡◌ {A = ℕ} 0 0 → d.interrupts ≡ true)
unfolding open_after
brackets-restore_example =
    brackets-restore (true ∷ true ∷ false ∷ false ∷ []) 0 interruptible refl refl
