-- ===== src/Console.antt =====
-- kernel/console.c: the ring of input characters, and the critical sections of its operations.
-- Each function runs under `cons.lock`. What wakes whom is said by the result, and acted upon in
-- `Console.Readers`.
mod Tests
pub mod Sleepers
pub mod Refines
pub mod Readers
pub mod Session
pub mod Reads
pub mod Edits
pub mod Store
pub mod Keys
pub mod Editor
pub mod Ring
use os_assignment.Prelude.{
  ℕ, zero, suc, ◌+◌, ◌-◌, ◌%◌, ◌^◌, Bool, true, false, not, ◌&&◌, ◌||◌, List, [], ◌∷◌, ◌++◌, ◌==◌,
  ltb, if◌then◌else◌, update,
}

-- INPUT_BUF
abbrev pub input_buf : ℕ
input_buf = 128

-- The character that `consputc` takes for a backspace.
abbrev pub backspace : ℕ
backspace = 256

-- `C(x)`
abbrev pub control : ℕ → ℕ
control x = x - b'@'

-- `cons`, less its lock, and all that `consoleintr` has echoed by `consputc`, in order.
pub record Console : Type 0 where
  pub buf : ℕ → ℕ
  pub r : ℕ
  pub w : ℕ
  pub e : ℕ
  pub echo : List ℕ

-- Arithmetic on `uint`.
abbrev pub up : ℕ → ℕ
up n = (n + 1) % 2 ^ 32

abbrev pub down : ℕ → ℕ
down n = (n + 2 ^ 32 - 1) % 2 ^ 32

-- `b - a`
abbrev pub distance : (a b : ℕ) → ℕ
distance a b = (b + 2 ^ 32 - a) % 2 ^ 32

unfoldable pub consputc : ℕ → Console → Console
consputc c s = record s { echo = s.echo ++ (if c == backspace then 8 ∷ b' ' ∷ 8 ∷ [] else c ∷ []) }

-- `cons.e--; consputc(BACKSPACE)`
unfoldable pub erase : Console → Console
unfolding consputc
erase s = consputc backspace (record s { e = down s.e })

-- The loop of `C('U')`, for at most `left` rounds.
unfoldable pub kill_line : (left : ℕ) → Console → Console
unfolding erase
kill_line zero s = s
kill_line (suc left) s =
    let rest = kill_line left (erase s) in
    if not (s.e == s.w) && not (s.buf (down s.e % input_buf) == b'\n') then rest else s

-- The default case, once there is room: whether it calls `wakeup(&cons.r)`, and the console.
unfoldable pub store : ℕ → Console → Bool × Console
unfolding consputc
store c s =
    let c' = if c == b'\r' then b'\n' else c in
    let s' = record (consputc c' s) { buf = update s.buf (s.e % input_buf) c'; e = up s.e } in
    if (c' == b'\n') || ((c' == control b'D') || (s'.e == (s'.r + input_buf) % 2 ^ 32))
    then (true, record s' { w = s'.e })
    else (false, s')

-- `consoleintr`; `procdump` only prints. The line holds at most e - w characters back, which bounds the loop of `C('U')`.
unfoldable pub consoleintr : ℕ → Console → Bool × Console
unfolding kill_line store
consoleintr c s =
    if c == control b'P'
    then (false, s)
    else if c == control b'U'
    then (false, kill_line (distance s.w s.e) s)
    else if (c == control b'H') || (c == 127)
    then (false, if not (s.e == s.w) then erase s else s)
    else if not (c == 0) && ltb (distance s.r s.e) input_buf
    then store c s
    else (false, s)

-- How a stretch of `consoleread` under the lock ends.
pub data ReadStop : Type 0 where
  killed : ReadStop  -- released, and -1 returned
  asleep : (dst left : ℕ) → ReadStop  -- asleep on `cons.r`, with these `dst` and `n`
  returned : (n : ℕ) → ReadStop  -- released, and `n` returned

-- What the stretch does besides: the characters that reach the caller's memory, in order, those
-- that have left the ring and reach nobody, and the console.
pub record Taken : Type 0 where
  pub stop : ReadStop
  pub got : List ℕ
  pub lost : List ℕ
  pub console : Console

abbrev pub deliver : ℕ → Taken → Taken
deliver c t = record t { got = c ∷ t.got }

abbrev pub ends : (n : ℕ) → Console → (lost : List ℕ) → Taken
ends n s lost = record { stop = returned n; got = []; lost = lost; console = s }

-- The `while (n > 0)`, with `left` for `n`; `copyout dst` tells whether the address can be written.
unfoldable pub read_loop :
    (was_killed : Bool) → (copyout : ℕ → Bool) → (target left dst : ℕ) → Console → Taken
read_loop was_killed copyout target zero dst s = ends target s []
read_loop was_killed copyout target (suc left) dst s =
    let c = s.buf (s.r % input_buf) in
    let s' = record s { r = up s.r } in
    let rest = read_loop was_killed copyout target left ((dst + 1) % 2 ^ 64) s' in
    if s.r == s.w
    then record {
      stop = if was_killed then killed else asleep dst (suc left);
      got = [];
      lost = [];
      console = s;
    }
    else if c == control b'D'
    then (if ltb (suc left) target
        then ends (target - suc left) (record s' { r = down s'.r }) []
        else ends (target - suc left) s' (c ∷ []))
    else if not (copyout dst)
    then ends (target - suc left) s' (c ∷ [])
    else if c == b'\n'
    then deliver c (ends (target - left) s' [])
    else deliver c rest

-- `consoleinit`: the ring is static memory, all zero.
unfoldable pub fresh : Console
fresh = record { buf = λ i. 0; r = 0; w = 0; e = 0; echo = [] }
