-- ===== src/Vm/User.antt =====
-- kernel/vm.c: `copyout`, `copyin` and `copyinstr`, which copy between the kernel and a process.
use os_assignment.Prelude.{
  ℕ, zero, suc, ◌+◌, ◌-◌, Bool, true, false, Option, none, some, List, [], ◌∷◌, ◌++◌, ◌==◌, ltb,
  if◌then◌else◌, length, take, drop,
}
use os_assignment.Pages.{pgsize}
use os_assignment.Vm.{page_round_down, Memory, put_cell, walkaddr}

-- `memmove` to the bytes of `page` from `o` on
abbrev pub write_bytes : (page o : ℕ) → List ℕ → Memory → Memory
write_bytes page o [] m = m
write_bytes page o (b ∷ bs) m =
    write_bytes page (o + 1) bs (record m { byte = put_cell page o b m.byte })

-- `memmove` from the `n` bytes of `page` from `o` on
abbrev pub read_bytes : (page o n : ℕ) → Memory → List ℕ
read_bytes page o zero m = []
read_bytes page o (suc n) m = m.byte page o ∷ read_bytes page (o + 1) n m

-- `n`: what is left of the page, and at most `len`.
abbrev pub chunk : (va len : ℕ) → ℕ
chunk va len = let n = pgsize - (va - page_round_down va) in if ltb len n then len else n

-- A round of `copyout` on what `walkaddr` returns, with `go` for the rounds that follow.
abbrev pub copyout_page :
    (o : ℕ) → List ℕ → (Memory → Bool × Memory) → Option ℕ → Memory → Bool × Memory
copyout_page o src go none m = (false, m)
copyout_page o src go (some pa0) m = go (write_bytes pa0 o src m)

-- The loop of `copyout`; whether 0 is returned, or -1.
unfoldable pub copyout_from : (left pagetable dstva : ℕ) → List ℕ → Memory → Bool × Memory
copyout_from left pagetable dstva [] m = (true, m)
copyout_from zero pagetable dstva (b ∷ bs) m = (true, m)
copyout_from (suc left) pagetable dstva (b ∷ bs) m =
    let src : List ℕ = b ∷ bs in
    let va0 = page_round_down dstva in
    let n = chunk dstva (length src) in
    copyout_page (dstva - va0) (take n src)
      (copyout_from left pagetable (va0 + pgsize) (drop n src)) (walkaddr pagetable va0 m) m

unfoldable pub copyout : (pagetable dstva : ℕ) → List ℕ → Memory → Bool × Memory
unfolding copyout_from
copyout pagetable dstva src m = copyout_from (length src) pagetable dstva src m

-- What a copy to the kernel returns, 0 or -1, and the bytes that it has put at `dst`.
abbrev pub ReadResult : Type 0
ReadResult = Bool × List ℕ

abbrev pub after : List ℕ → ReadResult → ReadResult
after bs r = (r.0, bs ++ r.1)

abbrev pub copyin_page : (o n : ℕ) → ReadResult → Option ℕ → Memory → ReadResult
copyin_page o n rest none m = (false, [])
copyin_page o n rest (some pa0) m = after (read_bytes pa0 o n m) rest

-- The loop of `copyin`.
unfoldable pub copyin_from : (left pagetable srcva len : ℕ) → Memory → ReadResult
copyin_from left pagetable srcva zero m = (true, [])
copyin_from zero pagetable srcva (suc k) m = (true, [])
copyin_from (suc left) pagetable srcva (suc k) m =
    let len = suc k in
    let va0 = page_round_down srcva in
    let n = chunk srcva len in
    copyin_page (srcva - va0) n (copyin_from left pagetable (va0 + pgsize) (len - n) m)
      (walkaddr pagetable va0 m) m

unfoldable pub copyin : (pagetable srcva len : ℕ) → Memory → ReadResult
unfolding copyin_from
copyin pagetable srcva len m = copyin_from len pagetable srcva len m

-- The inner loop of `copyinstr`, for `n` bytes, with `rest` for the rounds that follow.
abbrev pub string_bytes : (page o n : ℕ) → ReadResult → Memory → ReadResult
string_bytes page o zero rest m = rest
string_bytes page o (suc n) rest m =
    let c = m.byte page o in
    let more = string_bytes page (o + 1) n rest m in
    if c == 0 then (true, c ∷ []) else after (c ∷ []) more

abbrev pub string_page : (o n : ℕ) → ReadResult → Option ℕ → Memory → ReadResult
string_page o n rest none m = (false, [])
string_page o n rest (some pa0) m = string_bytes pa0 o n rest m

-- The loop of `copyinstr`.
unfoldable pub copyinstr_from : (left pagetable srcva max : ℕ) → Memory → ReadResult
copyinstr_from left pagetable srcva zero m = (false, [])
copyinstr_from zero pagetable srcva (suc k) m = (false, [])
copyinstr_from (suc left) pagetable srcva (suc k) m =
    let max = suc k in
    let va0 = page_round_down srcva in
    let n = chunk srcva max in
    string_page (srcva - va0) n (copyinstr_from left pagetable (va0 + pgsize) (max - n) m)
      (walkaddr pagetable va0 m) m

unfoldable pub copyinstr : (pagetable srcva max : ℕ) → Memory → ReadResult
unfolding copyinstr_from
copyinstr pagetable srcva max m = copyinstr_from max pagetable srcva max m
