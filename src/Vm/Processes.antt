-- ===== src/Vm/Processes.antt =====
-- kernel/vm.c and kernel/proc.c: the page tables of any number of processes, in one memory.
use os_assignment.Prelude.{ℕ, Option, none, some, List, [], ◌∷◌, get_elem?}
use os_assignment.Prelude.Outcome.{Outcome, ok, ◌>>=◌}
use os_assignment.Pages.{remove_at, kinit}
use os_assignment.Vm.{Memory}
use os_assignment.Vm.Space.{uvmalloc, uvmdealloc, uvmcopy, uvmclear}
use os_assignment.Vm.User.{copyout}
use os_assignment.Vm.Roots.{proc_pagetable, proc_freepagetable}

-- Memory, and the page tables that are in use.
pub record System : Type 0 where
  pub machine : Memory
  pub roots : List ℕ

-- The calls on page tables, which are given by their numbers.
pub data Event : Type 0 where
  create : (trapframe : ℕ) → Event  -- `allocproc` and `exec`
  destroy : (j sz : ℕ) → Event  -- `freeproc` and `exec`
  grow : (j oldsz newsz : ℕ) → Event  -- `growproc` and `exec`
  shrink : (j oldsz newsz : ℕ) → Event  -- `growproc`
  duplicate : (j k sz : ℕ) → Event  -- `fork`
  guard : (j va : ℕ) → Event  -- `exec`
  write : (j va : ℕ) → List ℕ → Event  -- `copyout`

abbrev pub add_root : System → Option ℕ × Memory → System
add_root s (none, m) = record s { machine = m }
add_root s (some r, m) = record { machine = m; roots = r ∷ s.roots }

abbrev pub with_root : Option ℕ → System → (ℕ → Outcome System) → Outcome System
with_root none s f = ok s
with_root (some r) s f = f r

abbrev pub set_machine : System → Memory → System
set_machine s m = record s { machine = m }

-- By the end of the kernel and by the address of the trampoline code.
module _ (kernel_end trampoline : ℕ) where
  unfoldable pub step : Event → System → Outcome System
  step (create trapframe) s =
      proc_pagetable kernel_end trampoline trapframe s.machine >>= λ r. ok (add_root s r)
  step (destroy j sz) s = with_root (get_elem? s.roots j) s (λ r.
      proc_freepagetable kernel_end r sz s.machine >>= λ m.
      ok (record { machine = m; roots = remove_at j s.roots }))
  step (grow j oldsz newsz) s =
      with_root (get_elem? s.roots j) s
        (λ r. uvmalloc kernel_end r oldsz newsz s.machine >>= λ t. ok (set_machine s t.1))
  step (shrink j oldsz newsz) s =
      with_root (get_elem? s.roots j) s
        (λ r. uvmdealloc kernel_end r oldsz newsz s.machine >>= λ t. ok (set_machine s t.1))
  step (duplicate j k sz) s = with_root (get_elem? s.roots j) s (λ r.
      with_root (get_elem? s.roots k) s
        (λ r'. uvmcopy kernel_end r r' sz s.machine >>= λ t. ok (set_machine s t.1)))
  step (guard j va) s =
      with_root (get_elem? s.roots j) s (λ r. uvmclear r va s.machine >>= λ m. ok (set_machine s m))
  step (write j va bytes) s =
      with_root (get_elem? s.roots j) s (λ r. ok (set_machine s (copyout r va bytes s.machine).1))

  unfoldable pub run : List Event → System → Outcome System
  unfolding step
  run [] s = ok s
  run (e ∷ es) s = step e s >>= run es

  -- `kinit`, on memory with anything in it, and what follows.
  unfoldable pub boot_and_run : (word byte : ℕ → ℕ → ℕ) → List Event → Outcome System
  unfolding run
  boot_and_run word byte es = kinit kernel_end >>= λ free.
      run es (record { machine = record { free = free; words = word; byte = byte }; roots = [] })
