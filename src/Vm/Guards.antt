-- ===== src/Vm/Guards.antt =====
-- kernel/vm.c: `uvmclear` takes a page from the process, which still owns it.
use os_assignment.Prelude.{
  ℕ, ◌-◌, ◌*◌, ◌/◌, ◌%◌, ◌≡◌, ◌∙◌, ap, true, false, Option, none, some, arith,
}
use mathlib.Core.Path.{subst}
use os_assignment.Prelude.Outcome.{Sure, bind-Sure}
use os_assignment.Vm.{pte_pa, is_valid, Memory, Slot, load_pte, walk}
use os_assignment.Vm.Space.{clear_user, uvmclear}
use os_assignment.Vm.Tables.{Purpose, Agrees, IsSound}
use os_assignment.Vm.Changes.{store_pte-IsSound}
use os_assignment.Vm.Walks.{Walked}
use os_assignment.Vm.Calls.{Goes, IsRoot, Walked-tables, walk-Sure}

-- `uvmclear`
clear_user-Sure :
    (va : ℕ) (place : ℕ → Purpose) (m : Memory)
    → IsSound place m
    → (r : Option Slot × Memory) → Walked place m.free va r
    → Sure (Goes place) (clear_user r)
clear_user-Sure va place m h (none, n) w = tt
clear_user-Sure va place m h (some s, n) w =
    let pte = load_pte n s in
    let at = w.at.2 in
    let says = subst (λ u. Agrees w.place' u s.0 s.1 pte) at (w.sound.agrees s.0 s.1) in
    let same_page : pte_pa (pte - pte / 16 % 2 * 16) ≡ pte_pa pte = omega arith in
    record {
      place' = w.place';
      sound = store_pte-IsSound w.place' n w.sound 0 s.0 s.1 (pte - pte / 16 % 2 * 16) at (λ valid.
          let was_valid : is_valid pte ≡ true = ground (arith, valid) in
          (λ lt. ap w.place' same_page ∙ (says was_valid).0 lt, λ le. ground arith));
      tables = Walked-tables place m va (some s, n) h w;
    }

pub uvmclear-Sure :
    (r va : ℕ) (place : ℕ → Purpose) (m : Memory)
    → IsRoot place r
    → IsSound place m
    → Sure (Goes place) (uvmclear r va m)
unfolding uvmclear
uvmclear-Sure r va place m root h =
    bind-Sure (Walked place m.free va) (Goes place) (walk false r va m) clear_user
      (walk-Sure false r va place m root h) (clear_user-Sure va place m h)
