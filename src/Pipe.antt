-- ===== src/Pipe.antt =====
-- kernel/pipe.c: the buffer of a pipe, and the critical sections of its operations.
-- Each function below runs under `pi->lock`, from `acquire` (or the return of `sleep`, which takes
-- the lock again) to `release` (or the next `sleep`). What wakes whom is said by the result, and
-- acted upon in `Pipe.Threads`.
pub mod Fifo
pub mod Calls
pub mod Threads
pub mod Order
pub mod Rests
pub mod Wakeups
pub mod RoundTrip
mod Tests
use os_assignment.Prelude.{
  ℕ, zero, suc, ◌+◌, ◌-◌, ◌%◌, ◌^◌, Bool, true, false, not, ◌&&◌, ◌||◌, Option, none, some, List,
  [], ◌∷◌, ◌==◌, if◌then◌else◌, get_or, set, length, replicate,
}

abbrev pub pipe_size : ℕ
pipe_size = 512

-- `struct pipe`, less its lock. The two counters are `uint`, and wrap round.
pub record Pipe : Type 0 where
  pub buf : List ℕ
  pub nread : ℕ
  pub nwrite : ℕ
  pub readopen : Bool
  pub writeopen : Bool

-- `n + 1` on a `uint`.
abbrev pub next_count : ℕ → ℕ
next_count n = (n + 1) % 2 ^ 32

-- The pipe that `pipealloc` sets up in a fresh page, whose bytes `kalloc` has filled with 5.
unfoldable pub fresh : Pipe
fresh = record {
  buf = replicate pipe_size 5;
  nread = 0;
  nwrite = 0;
  readopen = true;
  writeopen = true;
}

-- `pi->nwrite == pi->nread + PIPESIZE`
abbrev pub is_full : Pipe → Bool
is_full p = p.nwrite == (p.nread + pipe_size) % 2 ^ 32

-- `pi->nread == pi->nwrite`
abbrev pub is_empty : Pipe → Bool
is_empty p = p.nread == p.nwrite

-- `pi->data[pi->nwrite++ % PIPESIZE] = ch`
unfoldable pub put_byte : Pipe → ℕ → Pipe
put_byte p ch = record p { buf = set p.buf (p.nwrite % pipe_size) ch; nwrite = next_count p.nwrite }

-- `ch = pi->data[pi->nread++ % PIPESIZE]`
unfoldable pub next_byte : Pipe → ℕ
next_byte p = get_or p.buf (p.nread % pipe_size) 0

unfoldable pub drop_byte : Pipe → Pipe
drop_byte p = record p { nread = next_count p.nread }

-- How a stretch of `pipewrite` under the lock ends, with the value of `i`.
pub data WriteStop : Type 0 where
  closed : WriteStop  -- released, and -1 returned: nobody is woken
  full : ℕ → WriteStop  -- readers woken, and asleep on `nwrite`
  wrote : ℕ → WriteStop  -- readers woken, released, and `i` returned

-- The `while` of `pipewrite` with `left` = n - i rounds to go. `killed i` is what is read of
-- `pr->killed` in round i, and `copyin va` the byte at a user address, if it is mapped.
unfoldable pub write_loop :
    (ℕ → Bool) → (ℕ → Option ℕ) → (addr : ℕ) → (left i : ℕ) → Pipe → WriteStop × Pipe
write_loop killed copyin addr zero i p = (wrote i, p)
write_loop killed copyin addr (suc left) i p =
    if not p.readopen || killed i
    then (closed, p)
    else if is_full p
    then (full i, p)
    else elim (copyin ((addr + i) % 2 ^ 64)) [
      | none ↦ (wrote i, p)
      | some ch ↦ write_loop killed copyin addr left (i + 1) (put_byte p ch)
    ]

-- What the `for` of `piperead` does: the bytes that reach the user's memory in order, and the one
-- that has left the buffer when `copyout` fails on it.
pub record Copied : Type 0 where
  pub got : List ℕ
  pub lost : List ℕ
  pub pipe : Pipe

abbrev deliver : ℕ → Copied → Copied
deliver ch r = record r { got = ch ∷ r.got }

-- `left` = n - i. `copyout va` tells whether the user's address can be written.
unfoldable pub read_loop : (ℕ → Bool) → (addr : ℕ) → (left i : ℕ) → Pipe → Copied
read_loop copyout addr zero i p = record { got = []; lost = []; pipe = p }
read_loop copyout addr (suc left) i p =
    let rest = read_loop copyout addr left (i + 1) (drop_byte p) in
    if is_empty p
    then record { got = []; lost = []; pipe = p }
    else if copyout ((addr + i) % 2 ^ 64)
    then deliver (next_byte p) rest
    else record { got = []; lost = next_byte p ∷ []; pipe = drop_byte p }

-- How a stretch of `piperead` under the lock ends.
pub data ReadStop : Type 0 where
  killed : ReadStop  -- released, and -1 returned
  empty : ReadStop  -- asleep on `nread`
  read : Copied → ReadStop  -- writers woken, released, and the number of bytes returned

unfoldable pub read_section : (was_killed : Bool) → (ℕ → Bool) → (addr n : ℕ) → Pipe → ReadStop
read_section was_killed copyout addr n p =
    if is_empty p && p.writeopen
    then (if was_killed then killed else empty)
    else read (read_loop copyout addr n 0 p)

-- `pipeclose`: the pipe left behind, and whether its page is freed.
unfoldable pub close : (writable : Bool) → Pipe → Pipe × Bool
close writable p =
    let p' = if writable then record p { writeopen = false } else record p { readopen = false } in
    (p', not p'.readopen && not p'.writeopen)
