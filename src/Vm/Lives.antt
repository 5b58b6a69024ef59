-- ===== src/Vm/Lives.antt =====
-- kernel/vm.c and kernel/proc.c: page tables come and go, and the others stay.
use os_assignment.Prelude.{
  ℕ, ◌*◌, ◌/◌, ◌%◌, ◌≤◌, ◌≡◌, ◌≢◌, ◌∙◌, inl, inr, refl, sym, ap, true, false, ◌==◌, ltb, arith,
  update, Bool-cases,
}
use mathlib.Core.Path.{subst}
use os_assignment.Prelude.Outcome.{Outcome, ok, panic, ◌>>=◌, Sure, bind-Sure, map-Sure}
use os_assignment.Pages.{pgsize, page_round_up}
use os_assignment.Vm.{Memory}
use os_assignment.Vm.Space.{uvmunmap}
use os_assignment.Vm.Roots.{trampoline_va, trapframe_va, freewalk, uvmfree, proc_freepagetable}
use os_assignment.Vm.Tables.{
  user_pages, Purpose, table, other, Agrees, IsSound, update_ne, update_self,
}
use os_assignment.Vm.Calls.{Goes, IsRoot}
use os_assignment.Vm.Frees.{IsRoot-kept, uvmunmap-Sure}
use os_assignment.Vm.Teardown.{Swept, unlinked-IsSound, unlinked-IsHeld, root-Agrees}
use os_assignment.Vm.Freewalk.{freewalk-Frees}
use os_assignment.Vm.KernelPages.{unmap_kernel-Sure}

-- Page tables of processes stay where they are.
pub record Lives (place : ℕ → Purpose) (m : Memory) : Type 0 where
  pub place' : ℕ → Purpose
  pub sound : IsSound place' m
  pub roots : (p : ℕ) → IsRoot place p → IsRoot place' p

-- A root that has gone is none, and the others are roots as before.
other-IsRoot :
    (place place' : ℕ → Purpose) (r : ℕ)
    → ((p : ℕ) → p ≢ r → IsRoot place p → IsRoot place' p)
    → (p : ℕ) → IsRoot (update place r other) p
    → IsRoot (update place' r other) p
other-IsRoot place place' r keeps p (q, i, e) = elim (Bool-cases (p == r)) [
  | inl same ↦
      let is_r : p ≡ r = ground (arith, same) in
      let is_other = ap (update place r other) is_r ∙ update_self place r other in
      absurd (cc (e, is_other))
  | inr differ ↦
      let ne : p ≢ r = ground (arith, differ) in
      let (q', i', e') = keeps p ne (q, i, sym (update_ne place r other p ne) ∙ e) in
      (q', i', update_ne place' r other p ne ∙ e')
]

pub after-Goes :
    (place : ℕ → Purpose) (r : ℕ) (m n : Memory) (g : Goes place m)
    → Lives (update g.place' r other) n
    → Lives (update place r other) n
after-Goes place r m n g l = record {
  place' = l.place';
  sound = l.sound;
  roots =
      λ p e. l.roots p (other-IsRoot place g.place' r (λ p ne (q, i, e). (q, i, g.tables p e)) p e);
}

-- A page that was not in use is a root for a while.
pub undone :
    (place : ℕ → Purpose) (r : ℕ) (v : Purpose) (n : Memory)
    → place r ≡ other
    → Lives (update (update place r v) r other) n
    → Lives place n
undone place r v n unused l = record {
  place' = l.place';
  sound = l.sound;
  roots = λ p (q, i, e).
      let ne : p ≢ r = λ same. absurd (cc (ap place same, unused, e)) in
      l.roots p (q, i, update_ne (update place r v) r other p ne ∙ (update_ne place r v p ne ∙ e));
}

assoc :
    (r : Outcome Memory) (f g : Memory → Outcome Memory) → (r >>= f >>= g) ≡ (r >>= λ n. f n >>= g)
assoc (ok n) f g = refl
assoc panic f g = refl

module _ (kernel_end : ℕ) where
  -- The page tables of the root `r` go.
  freewalk-Lives :
      (r : ℕ) (place : ℕ → Purpose) (m : Memory)
      → r % pgsize ≡ 0
      → IsRoot place r
      → IsSound place m
      → Sure (Lives (update place r other)) (freewalk kernel_end 3 r m)
  freewalk-Lives r place m aligned (q, i, e) h =
      let gone : (u : Purpose) (p j : ℕ)
          → ((l a q i : ℕ) → u ≡ table l a q i → l ≤ 2)
          → Agrees place u p j (m.words p j)
          → Agrees (update place r other) u p j (m.words p j) =
        λ u p j. root-Agrees place r u p j (m.words p j) e in
      let sound =
        unlinked-IsSound place m h r e
          (λ p j. gone (place p) p j (λ l a q i k. h.levels p k) (h.agrees p j)) in
      map-Sure (Swept (update place r other) 2 r m) (Lives (update place r other))
        (freewalk kernel_end 3 r m)
        (freewalk-Frees kernel_end 2 r (update place r other) m 0 sound
          (unlinked-IsHeld place m h r e aligned)
          (λ j le.
            gone (table 2 0 q i) r j (λ l a q' i' k. let two : 2 ≡ l = cc k in omega arith)
              (subst (λ u. Agrees place u r j (m.words r j)) e (h.agrees r j))))
        (λ n s. record {
          place' = s.place';
          sound = s.sound;
          roots = λ p (q', i', e'). (q', i', s.keeps p (omega arith) e');
        })

  pub uvmfree-Lives :
      (r sz : ℕ) (place : ℕ → Purpose) (m : Memory)
      → sz ≤ user_pages * pgsize
      → r % pgsize ≡ 0
      → IsRoot place r
      → IsSound place m
      → Sure (Lives (update place r other)) (uvmfree kernel_end r sz m)
  unfolding uvmfree
  uvmfree-Lives r sz place m le aligned root h = elim (Bool-cases (ltb 0 sz)) [
    | inl pages ↦
        let n = page_round_up sz / pgsize in
        rw pages (
          bind-Sure (Goes place) (Lives (update place r other)) (uvmunmap kernel_end r 0 n true m)
            (freewalk kernel_end 3 r) (uvmunmap-Sure kernel_end r 0 n place m (omega arith) root h)
            (λ k g.
              map-Sure (Lives (update g.place' r other)) (Lives (update place r other))
                (freewalk kernel_end 3 r k)
                (freewalk-Lives r g.place' k aligned (IsRoot-kept kernel_end place k g r root)
                  g.sound)
                (λ n l. after-Goes place r k n g l)))
    | inr none_mapped ↦ rw none_mapped (freewalk-Lives r place m aligned root h)
  ]

  -- `uvmunmap` of a page of the kernel, and what follows.
  pub unmapped-Lives :
      (r va : ℕ) (place : ℕ → Purpose) (m : Memory) (go : Memory → Outcome Memory)
      → IsRoot place r
      → IsSound place m
      → ((place' : ℕ → Purpose) (n : Memory)
          → IsRoot place' r
          → IsSound place' n
          → Sure (Lives (update place' r other)) (go n))
      → Sure (Lives (update place r other)) (uvmunmap kernel_end r va 1 false m >>= go)
  unmapped-Lives r va place m go root h goes =
      bind-Sure (Goes place) (Lives (update place r other)) (uvmunmap kernel_end r va 1 false m) go
        (unmap_kernel-Sure kernel_end r va place m root h)
        (λ k g.
          map-Sure (Lives (update g.place' r other)) (Lives (update place r other)) (go k)
            (goes g.place' k (IsRoot-kept kernel_end place k g r root) g.sound)
            (λ n l. after-Goes place r k n g l))

  pub proc_freepagetable-Lives :
      (r sz : ℕ) (place : ℕ → Purpose) (m : Memory)
      → sz ≤ user_pages * pgsize
      → r % pgsize ≡ 0
      → IsRoot place r
      → IsSound place m
      → Sure (Lives (update place r other)) (proc_freepagetable kernel_end r sz m)
  unfolding proc_freepagetable
  proc_freepagetable-Lives r sz place m le aligned root h =
      rw
        (assoc (uvmunmap kernel_end r trampoline_va 1 false m)
          (uvmunmap kernel_end r trapframe_va 1 false) (uvmfree kernel_end r sz))
        (unmapped-Lives r trampoline_va place m
          (λ n. uvmunmap kernel_end r trapframe_va 1 false n >>= uvmfree kernel_end r sz) root h
          (λ place' n root' h'.
            unmapped-Lives r trapframe_va place' n (uvmfree kernel_end r sz) root' h'
              (λ place' n root' h'. uvmfree-Lives r sz place' n le aligned root' h')))
