-- ===== src/Vm/Tests.antt =====
-- kernel/vm.c on small inputs.
use os_assignment.Prelude.{
  ◌≢◌, if◌then◌else◌, ℕ, ◌-◌, ◌*◌, ◌≡◌, refl, Bool, true, false, Option, none, some, List, [], ◌∷◌,
  arith, get_elem?, get_or, length,
}
use os_assignment.Prelude.Outcome.{Outcome, ok, panic, Sure}
use os_assignment.Pages.{pgsize, phystop, kalloc, kfree, freerange_from, kinit}
use os_assignment.Vm.{
  is_valid, leaf_pte, user_pa, Memory, link, walk_from, walk, walkaddr, map_from, mappages,
}
use os_assignment.Vm.Space.{
  uvmcreate, uvmclear, unmap_from, uvmunmap, uvmdealloc, alloc_from, uvmalloc, copy_from, uvmcopy,
}
use os_assignment.Vm.User.{copyout_from, copyout, copyin_from, copyin, copyinstr_from, copyinstr}
use os_assignment.Vm.Roots.{free_entries, freewalk, uvmfree, proc_pagetable, proc_freepagetable}
use os_assignment.Vm.Processes.{
  System, Event, create, destroy, grow, shrink, duplicate, guard, write, step, run, boot_and_run,
}
use os_assignment.Pages.Partition.{occurs}
use os_assignment.Vm.Isolation.{IsIsolated, IsKept}
use os_assignment.Vm.Safety.{AllFit, boot_and_run-IsKept, boot_and_run-IsIsolated}
use os_assignment.Vm.Bytes.{user_byte}
use os_assignment.Vm.Reads.{bytewise_in, copyin-bytewise}
use os_assignment.Vm.Entries.{pte_from}
use os_assignment.Vm.Translations.{remap, mappages-remaps}
use os_assignment.Vm.Growth.{Extends, uvmalloc-all_or_nothing}
use os_assignment.Vm.Privacy.{written, copyout-user_byte}

abbrev returns_size : Outcome (ℕ × Memory) → Option ℕ
returns_size panic = none
returns_size (ok t) = some (t.0)

-- Memory with a few pages behind the kernel.
abbrev end_of_kernel : ℕ
end_of_kernel = phystop - 16 * pgsize

abbrev booted : List Event → Outcome System
booted = boot_and_run end_of_kernel 2147483648 (λ p i. 7) (λ p i. 7)

abbrev pages_left : Outcome System → Option ℕ
pages_left panic = none
pages_left (ok s) = some (length s.machine.free)

kinit_pages : pages_left (booted []) ≡ some 16
unfolding boot_and_run run kinit freerange_from kfree
kinit_pages = refl

-- Three pages of a page table each; two more for a range of addresses, and the memory itself.
abbrev two_processes : List Event
two_processes =
    create 0 ∷ create 0 ∷ grow 1 0 5000 ∷ write 1 4094 (65 ∷ 66 ∷ 67 ∷ []) ∷ duplicate 1 0 5000 ∷ []

one_process : pages_left (booted (create 0 ∷ [])) ≡ some 13
unfolding boot_and_run run step kinit freerange_from kfree proc_pagetable uvmcreate kalloc mappages
    map_from walk walk_from link
one_process = refl

after_fork : pages_left (booted two_processes) ≡ some 2
unfolding boot_and_run run step kinit freerange_from kfree proc_pagetable uvmcreate kalloc mappages
    map_from walk walk_from link uvmalloc alloc_from copyout copyout_from walkaddr uvmcopy copy_from
after_fork = refl

-- What process `j` reads at an address.
abbrev reads : ℕ → (va n : ℕ) → Outcome System → Bool × List ℕ
reads j va n panic = (false, [])
reads j va n (ok s) = elim (get_elem? s.roots j) [
  | none ↦ (false, [])
  | some r ↦ copyin r va n s.machine
]

child_reads : reads 0 4093 5 (booted two_processes) ≡ (true, 0 ∷ 65 ∷ 66 ∷ 67 ∷ 0 ∷ [])
unfolding boot_and_run run step kinit freerange_from kfree proc_pagetable uvmcreate kalloc mappages
    map_from walk walk_from link uvmalloc alloc_from copyout copyout_from walkaddr uvmcopy copy_from
    copyin copyin_from
child_reads = refl

-- Nothing of the memory is lost when the last process goes.
all_gone :
    pages_left (booted (create 0 ∷ grow 0 0 5000 ∷ shrink 0 5000 4096 ∷ destroy 0 4096 ∷ []))
    ≡ some 16
unfolding boot_and_run run step kinit freerange_from kfree proc_pagetable uvmcreate kalloc mappages
    map_from walk walk_from link uvmalloc alloc_from uvmdealloc uvmunmap unmap_from
    proc_freepagetable uvmfree freewalk free_entries
all_gone = refl

-- Where pages run out, `uvmalloc` gives back what it has taken, and `proc_pagetable` too.
too_much : pages_left (booted (create 0 ∷ grow 0 0 50000 ∷ [])) ≡ some 11
unfolding boot_and_run run step kinit freerange_from kfree proc_pagetable uvmcreate kalloc mappages
    map_from walk walk_from link uvmalloc alloc_from uvmdealloc uvmunmap unmap_from
too_much = refl

-- `copyinstr` stops at the NUL, and fails without one.
abbrev string_at : ℕ → (va max : ℕ) → Outcome System → Bool × List ℕ
string_at j va max panic = (false, [])
string_at j va max (ok s) = elim (get_elem? s.roots j) [
  | none ↦ (false, [])
  | some r ↦ copyinstr r va max s.machine
]

string_found : string_at 1 4094 9 (booted two_processes) ≡ (true, 65 ∷ 66 ∷ 67 ∷ 0 ∷ [])
unfolding boot_and_run run step kinit freerange_from kfree proc_pagetable uvmcreate kalloc mappages
    map_from walk walk_from link uvmalloc alloc_from copyout copyout_from walkaddr uvmcopy copy_from
    copyinstr copyinstr_from
string_found = refl

string_too_long : string_at 1 4094 2 (booted two_processes) ≡ (false, 65 ∷ 66 ∷ [])
unfolding boot_and_run run step kinit freerange_from kfree proc_pagetable uvmcreate kalloc mappages
    map_from walk walk_from link uvmalloc alloc_from copyout copyout_from walkaddr uvmcopy copy_from
    copyinstr copyinstr_from
string_too_long = refl

-- The guard page of `exec`.
guarded : reads 0 0 1 (booted (create 0 ∷ grow 0 0 4096 ∷ guard 0 0 ∷ [])) ≡ (false, [])
unfolding boot_and_run run step kinit freerange_from kfree proc_pagetable uvmcreate kalloc mappages
    map_from walk walk_from link uvmalloc alloc_from copyout copyout_from walkaddr uvmcopy copy_from
    copyin copyin_from uvmclear
guarded = refl

two_processes-AllFit : AllFit two_processes
two_processes-AllFit = (tt, (tt, (omega arith, (tt, (omega arith, tt)))))

boot_and_run-IsIsolated_example : Sure IsIsolated (booted two_processes)
boot_and_run-IsIsolated_example =
    boot_and_run-IsIsolated end_of_kernel 2147483648 (λ p i. 7) (λ p i. 7) two_processes
      two_processes-AllFit

-- The system that the run returns.
abbrev returns : Outcome System → Bool
returns panic = false
returns (ok s) = true

abbrev result : Outcome System → System
result panic = record {
  machine = record { free = []; words = λ p i. 0; byte = λ p i. 0 };
  roots = [];
}
result (ok s) = s

result-IsIsolated :
    (r : Outcome System) → Sure IsIsolated r → returns r ≡ true → IsIsolated (result r)
result-IsIsolated panic h e = absurd (cc)
result-IsIsolated (ok s) h e = h

abbrev forked : System
forked = result (booted two_processes)

two_processes-returns : returns (booted two_processes) ≡ true
unfolding boot_and_run run step kinit freerange_from kfree proc_pagetable uvmcreate kalloc mappages
    map_from walk walk_from link uvmalloc alloc_from copyout copyout_from walkaddr uvmcopy copy_from
two_processes-returns = refl

abbrev root_of : ℕ → ℕ
root_of j = get_or forked.roots j 0

known : (occurs (root_of 0) forked.roots ≡ 1) × (occurs (root_of 1) forked.roots ≡ 1)
unfolding boot_and_run run step kinit freerange_from kfree proc_pagetable uvmcreate kalloc mappages
    map_from walk walk_from link uvmalloc alloc_from copyout copyout_from walkaddr uvmcopy copy_from
known = (refl, refl)

abbrev letters : List ℕ
letters = 88 ∷ 89 ∷ 90 ∷ []

letters_written : (copyout (root_of 0) 4094 letters forked.machine).0 ≡ true
unfolding boot_and_run run step kinit freerange_from kfree proc_pagetable uvmcreate kalloc mappages
    map_from walk walk_from link uvmalloc alloc_from copyout copyout_from walkaddr uvmcopy copy_from
letters_written = refl

copyout-user_byte_example :
    user_byte (root_of 1) 4095 (copyout (root_of 0) 4094 letters forked.machine).1
    ≡ written (root_of 0) 4094 letters (root_of 1) 4095 (user_byte (root_of 1) 4095 forked.machine)
copyout-user_byte_example =
    copyout-user_byte forked (root_of 0) (root_of 1) 4094 4095 letters
      (result-IsIsolated (booted two_processes) boot_and_run-IsIsolated_example
        two_processes-returns)
      (λ e. absurd (omega (arith, known.0, e))) (λ e. absurd (omega (arith, known.1, e)))
      letters_written

copyin-bytewise_example :
    copyin (root_of 1) 4093 5 forked.machine ≡ bytewise_in (root_of 1) 4093 5 forked.machine
copyin-bytewise_example = copyin-bytewise (root_of 1) 4093 5 forked.machine

result-IsKept : (r : Outcome System) → Sure IsKept r → returns r ≡ true → IsKept (result r)
result-IsKept panic h e = absurd (cc)
result-IsKept (ok s) h e = h

third_page : is_valid (pte_from 2 (root_of 0) 8192 forked.machine) ≡ false
unfolding boot_and_run run step kinit freerange_from kfree proc_pagetable uvmcreate kalloc mappages
    map_from walk walk_from link uvmalloc alloc_from copyout copyout_from walkaddr uvmcopy copy_from
third_page = refl

mappages-remaps_example :
    (t : Bool × Memory) × (mappages (root_of 0) 8192 pgsize 2281635840 30 forked.machine ≡ ok t)
    × ((r' va' : ℕ)
        → occurs r' forked.roots ≢ 0
        → walkaddr r' va' t.1 ≡ (
            if t.0
            then remap
                (root_of 0)
                8192
                (user_pa (leaf_pte 2281635840 30))
                r'
                va'
                (walkaddr r' va' forked.machine)
            else walkaddr r' va' forked.machine))
mappages-remaps_example =
    mappages-remaps forked (root_of 0) 8192 2281635840 30
      (result-IsKept (booted two_processes)
        (boot_and_run-IsKept end_of_kernel 2147483648 (λ p i. 7) (λ p i. 7) two_processes
          two_processes-AllFit)
        two_processes-returns)
      (λ e. absurd (omega (arith, known.0, e))) (omega arith) refl third_page

no_page_zero : occurs 0 forked.machine.free ≡ 0
unfolding boot_and_run run step kinit freerange_from kfree proc_pagetable uvmcreate kalloc mappages
    map_from walk walk_from link uvmalloc alloc_from copyout copyout_from walkaddr uvmcopy copy_from
no_page_zero = refl

uvmalloc-all_or_nothing_example :
    Sure
      (Extends forked (root_of 0) 5000 9000)
      (uvmalloc end_of_kernel (root_of 0) 5000 9000 forked.machine)
uvmalloc-all_or_nothing_example =
    uvmalloc-all_or_nothing end_of_kernel forked (root_of 0) 5000 9000
      (result-IsKept (booted two_processes)
        (boot_and_run-IsKept end_of_kernel 2147483648 (λ p i. 7) (λ p i. 7) two_processes
          two_processes-AllFit)
        two_processes-returns)
      (λ e. absurd (omega (arith, known.0, e))) (omega arith) (omega arith) no_page_zero

-- Two pages are left: one page more fits, and three do not.
one_page_more :
    returns_size (uvmalloc end_of_kernel (root_of 0) 5000 9000 forked.machine) ≡ some 9000
unfolding boot_and_run run step kinit freerange_from kfree proc_pagetable uvmcreate kalloc mappages
    map_from walk walk_from link uvmalloc alloc_from copyout copyout_from walkaddr uvmcopy copy_from
    uvmdealloc uvmunmap unmap_from
one_page_more = refl

too_many_pages :
    returns_size (uvmalloc end_of_kernel (root_of 0) 5000 20000 forked.machine) ≡ some 0
unfolding boot_and_run run step kinit freerange_from kfree proc_pagetable uvmcreate kalloc mappages
    map_from walk walk_from link uvmalloc alloc_from copyout copyout_from walkaddr uvmcopy copy_from
    uvmdealloc uvmunmap unmap_from
too_many_pages = refl
