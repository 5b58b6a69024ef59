-- ===== src/Vm/Safety.antt =====
-- kernel/vm.c and kernel/proc.c: all calls keep processes apart.
use os_assignment.Prelude.{
  ℕ, ◌%◌, ◌≤◌, ◌≡◌, ◌≢◌, ◌∙◌, inl, inr, refl, sym, ap, Option, none, some, List, [], ◌∷◌, ◌==◌,
  arith, if◌then◌else◌, update, get_elem?, Bool-cases, Option-cases,
}
use mathlib.Core.Path.{subst}
use os_assignment.Prelude.Outcome.{Outcome, ok, Sure, bind-Sure, map-Sure}
use os_assignment.Pages.{pgsize, phystop, page_round_up, remove_at}
use os_assignment.Pages.Partition.{occurs, occurs-remove_at, is_page, kinit_lem}
use os_assignment.Vm.{Memory}
use os_assignment.Vm.Space.{uvmclear, uvmalloc, uvmdealloc, uvmcopy}
use os_assignment.Vm.User.{copyout}
use os_assignment.Vm.Roots.{trapframe_va, proc_pagetable, proc_freepagetable}
use os_assignment.Vm.Processes.{
  System, Event, create, destroy, grow, shrink, duplicate, guard, write, add_root, set_machine,
  with_root, step, run, boot_and_run,
}
use os_assignment.Vm.Tables.{other, Agrees, update_ne}
use os_assignment.Vm.Calls.{Goes, IsRoot}
use os_assignment.Vm.Frees.{uvmdealloc-Sure}
use os_assignment.Vm.Grows.{Leaves, uvmalloc-Sure}
use os_assignment.Vm.Lives.{Lives, proc_freepagetable-Lives}
use os_assignment.Vm.Births.{Made, proc_pagetable-Made}
use os_assignment.Vm.Bytes.{copyout-IsSameTables}
use os_assignment.Vm.Isolation.{IsIsolated, IsKept, kept-IsIsolated}
use os_assignment.Vm.Guards.{uvmclear-Sure}
use os_assignment.Vm.Copies.{uvmcopy-Sure}

-- Sizes stay below TRAPFRAME.
abbrev pub Fits : Event → Type 0
Fits (create trapframe) = Unit
Fits (destroy j sz) = sz ≤ trapframe_va
Fits (grow j oldsz newsz) = newsz ≤ trapframe_va
Fits (shrink j oldsz newsz) = oldsz ≤ trapframe_va
Fits (duplicate j k sz) = sz ≤ trapframe_va
Fits (guard j va) = Unit
Fits (write j va bytes) = Unit

abbrev pub AllFit : List Event → Type 0
AllFit [] = Unit
AllFit (e ∷ es) = Fits e × AllFit es

module _ (s : System) (k : IsKept s) where
  Goes-IsKept : (m : Memory) → Goes k.place m → IsKept (set_machine s m)
  Goes-IsKept m g = record {
    place = g.place';
    sound = g.sound;
    known = λ r here. let ((q, i, e), aligned) = k.known r here in ((q, i, g.tables r e), aligned);
    once = k.once;
  }

  Made-IsKept : (r : Option ℕ × Memory) → Made k.place r → IsKept (add_root s r)
  Made-IsKept (none, m) h = record {
    place = h.place';
    sound = h.sound;
    known = λ r here. let (root, aligned) = k.known r here in (h.roots r root, aligned);
    once = k.once;
  }
  Made-IsKept (some r, m) h =
      let (unused, aligned, root) = h.fresh in
      let is_new : occurs r s.roots ≡ 0 = elim (Bool-cases (occurs r s.roots == 0)) [
        | inl gone ↦ ground (arith, gone)
        | inr there ↦ absurd (cc (unused, (k.known r (ground (arith, there))).0.2))
      ] in
      record {
        place = h.place';
        sound = h.sound;
        known = λ p here. elim (Bool-cases (r == p)) [
          | inl same ↦
              let e : r ≡ p = ground (arith, same) in
              subst (λ p. IsRoot h.place' p × (p % pgsize ≡ 0)) e (root, aligned)
          | inr differ ↦
              let (root', aligned') = k.known p (ground (arith, here, differ)) in
              (h.roots p root', aligned')
        ];
        once = λ p. ground (arith, k.once p, is_new);
      }

  gone-IsKept :
      (j r : ℕ) (m : Memory)
      → get_elem? s.roots j ≡ some r
      → Lives (update k.place r other) m
      → IsKept (record { machine = m; roots = remove_at j s.roots })
  gone-IsKept j r m at l = record {
    place = l.place';
    sound = l.sound;
    known = λ p here.
        let count = occurs-remove_at p s.roots j at in
        let differ : p ≢ r = λ same. absurd (ground (arith, here, count, k.once p, same)) in
        let ((q, i, e), aligned) = k.known p (ground (arith, here, count)) in
        (l.roots p (q, i, update_ne k.place r other p differ ∙ e), aligned);
    once = λ p. omega (arith, k.once p, occurs-remove_at p s.roots j at);
  }

  -- What holds of the page table of a number.
  with_root-Sure :
      (j : ℕ) (f : ℕ → Outcome System)
      → ((r : ℕ)
          → get_elem? s.roots j ≡ some r
          → IsRoot k.place r
          → r % pgsize ≡ 0
          → Sure IsKept (f r))
      → Sure IsKept (with_root (get_elem? s.roots j) s f)
  with_root-Sure j f h = elim (Option-cases (get_elem? s.roots j)) [
    | inl e ↦ rw e k
    | inr (r, e) ↦
        let (root, aligned) = k.known r (ground (arith, occurs-remove_at r s.roots j e)) in
        rw e (h r e root aligned)
  ]

module _ (kernel_end trampoline : ℕ) where
  step-IsKept :
      (e : Event) (s : System) → Fits e → IsKept s → Sure IsKept (step kernel_end trampoline e s)
  unfolding step
  step-IsKept (create trapframe) s fits k =
      bind-Sure (Made k.place) IsKept (proc_pagetable kernel_end trampoline trapframe s.machine)
        (λ r. ok (add_root s r))
        (proc_pagetable-Made kernel_end trampoline trapframe k.place s.machine k.sound)
        (Made-IsKept s k)
  step-IsKept (destroy j sz) s fits k = with_root-Sure s k j _ (λ r at root aligned.
      bind-Sure (Lives (update k.place r other)) IsKept
        (proc_freepagetable kernel_end r sz s.machine) _
        (proc_freepagetable-Lives kernel_end r sz k.place s.machine (omega arith) aligned root
          k.sound)
        (λ m l. gone-IsKept s k j r m at l))
  step-IsKept (grow j oldsz newsz) s fits k = with_root-Sure s k j _ (λ r at root aligned.
      bind-Sure (Leaves k.place) IsKept (uvmalloc kernel_end r oldsz newsz s.machine) _
        (uvmalloc-Sure kernel_end r oldsz newsz k.place s.machine (omega arith) root k.sound)
        (λ t g. Goes-IsKept s k t.1 g))
  step-IsKept (shrink j oldsz newsz) s fits k = with_root-Sure s k j _ (λ r at root aligned.
      bind-Sure (Leaves k.place) IsKept (uvmdealloc kernel_end r oldsz newsz s.machine) _
        (uvmdealloc-Sure kernel_end r oldsz newsz k.place s.machine (omega arith) root k.sound)
        (λ t g. Goes-IsKept s k t.1 g))
  step-IsKept (duplicate j i sz) s fits k = with_root-Sure s k j _ (λ r at root aligned.
      with_root-Sure s k i _ (λ r' at' root' aligned'.
        bind-Sure (Leaves k.place) IsKept (uvmcopy kernel_end r r' sz s.machine) _
          (uvmcopy-Sure kernel_end r r' sz k.place s.machine (omega arith) root root' k.sound)
          (λ t g. Goes-IsKept s k t.1 g)))
  step-IsKept (guard j va) s fits k = with_root-Sure s k j _ (λ r at root aligned.
      bind-Sure (Goes k.place) IsKept (uvmclear r va s.machine) _
        (uvmclear-Sure r va k.place s.machine root k.sound) (λ m g. Goes-IsKept s k m g))
  step-IsKept (write j va bytes) s fits k = with_root-Sure s k j _ (λ r at root aligned.
      let (same_free, same_word) = copyout-IsSameTables r va bytes s.machine in
      Goes-IsKept s k (copyout r va bytes s.machine).1 (record {
        place' = k.place;
        sound = record {
          agrees = λ p j.
              subst (λ (w : ℕ → ℕ → ℕ). Agrees k.place (k.place p) p j (w p j)) (sym same_word)
                (k.sound.agrees p j);
          spare = λ p ne. k.sound.spare p (λ e. ne (ap (occurs p) same_free ∙ e));
          once = λ p. subst (λ f. occurs p f ≤ 1) (sym same_free) (k.sound.once p);
          levels = k.sound.levels;
        };
        tables = λ p e. e;
      }))

  run-IsKept :
      (es : List Event) (s : System)
      → AllFit es
      → IsKept s
      → Sure IsKept (run kernel_end trampoline es s)
  unfolding run
  run-IsKept [] s fit k = k
  run-IsKept (e ∷ es) s (fits, fit) k =
      bind-Sure IsKept IsKept (step kernel_end trampoline e s) (run kernel_end trampoline es)
        (step-IsKept e s fits k) (λ t k'. run-IsKept es t fit k')

  start-IsKept :
      (free : List ℕ) (word byte : ℕ → ℕ → ℕ)
      → ((p : ℕ) → occurs p free ≡ (if is_page (page_round_up kernel_end) phystop p then 1 else 0))
      → IsKept (record { machine = record { free = free; words = word; byte = byte }; roots = [] })
  start-IsKept free word byte h = record {
    place = λ p. other;
    sound = record {
      agrees = λ p j. tt;
      spare = λ p ne. (refl, ground (arith, ne, h p));
      once = λ p. ground (arith, h p);
      levels = λ p e. absurd (cc);
    };
    known = λ r here. absurd (here refl);
    once = λ r. omega arith;
  }

  pub boot_and_run-IsKept :
      (word byte : ℕ → ℕ → ℕ) (es : List Event)
      → AllFit es
      → Sure IsKept (boot_and_run kernel_end trampoline word byte es)
  unfolding boot_and_run
  boot_and_run-IsKept word byte es fit =
      let (free, e, h) = kinit_lem kernel_end in
      rw e (run-IsKept es _ fit (start-IsKept free word byte h))

  -- From `kinit` on, whatever the memory holds, and whatever page tables are made, grown, shrunk,
  -- copied, written through and freed in any order, as long as no size asked for is beyond TRAPFRAME
  -- and nothing panics: whenever `walkaddr` translates an address of one process and an address of
  -- the same or another process to one page, the process is the same and the addresses are in one
  -- page; such a page is not free, is no root of a page table, and does not hold the word that
  -- `walk` finds for any address.
  pub boot_and_run-IsIsolated :
      (word byte : ℕ → ℕ → ℕ) (es : List Event)
      → AllFit es
      → Sure IsIsolated (boot_and_run kernel_end trampoline word byte es)
  boot_and_run-IsIsolated word byte es fit =
      map-Sure IsKept IsIsolated (boot_and_run kernel_end trampoline word byte es)
        (boot_and_run-IsKept word byte es fit) kept-IsIsolated
