-- ===== src/Spinlock.antt =====
-- kernel/spinlock.c: one spinlock, and the CPUs that take it and let it go, an access to the lock at a
-- time.
pub mod Exclusion
pub mod Nesting
mod Tests
use os_assignment.Prelude.{
  ℕ, zero, suc, ◌+◌, ◌-◌, Bool, true, false, not, ◌&&◌, Option, none, some, List, [], ◌∷◌, ◌==◌,
  ltb, if◌then◌else◌, update,
}
use os_assignment.Prelude.Outcome.{Outcome, ok, panic, ◌>>=◌}

-- Of `struct cpu`, with whether interrupts are on.
pub record Cpu : Type 0 where
  pub noff : ℕ
  pub intena : Bool
  pub interrupts : Bool

-- `struct spinlock`, less its name; `cpu` is an index, `none` for 0.
pub record Lock : Type 0 where
  pub locked : Bool
  pub cpu : Option ℕ

-- `push_off`
unfoldable pub push_off : Cpu → Cpu
push_off c = record {
  noff = c.noff + 1;
  intena = if c.noff == 0 then c.interrupts else c.intena;
  interrupts = false;
}

-- `pop_off`
unfoldable pub pop_off : Cpu → Outcome Cpu
pop_off c =
    if c.interrupts
    then panic
    else if ltb c.noff 1
    then panic
    else ok (record c {
      noff = c.noff - 1;
      interrupts = if ((c.noff - 1) == 0) && c.intena then true else c.interrupts;
    })

abbrev pub is_cpu : ℕ → Option ℕ → Bool
is_cpu me none = false
is_cpu me (some i) = i == me

-- `holding`
unfoldable pub holding : ℕ → Lock → Bool
holding me l = l.locked && is_cpu me l.cpu

-- Where a CPU stands, by what comes next.
pub data Pc : Type 0 where
  outside : Pc  -- acquire: push_off and the test of holding
  spinning : Pc  -- acquire: the atomic swap
  taken : Pc  -- acquire: lk->cpu = mycpu()
  inside : Pc  -- the critical section, then release: the test of holding and lk->cpu = 0
  cleared : Pc  -- release: the lock is stored as free
  freed : Pc  -- release: pop_off

pub record System : Type 0 where
  pub lock : Lock
  pub pc : ℕ → Pc
  pub cpus : ℕ → Cpu

abbrev pub go_to : ℕ → Pc → Lock → System → System
go_to me p l s = record s { lock = l; pc = update s.pc me p }

abbrev pub with_cpu : ℕ → Cpu → System → System
with_cpu me c s = record s { cpus = update s.cpus me c }

-- The next step of CPU `me`, which stands at the given place.
unfoldable pub advance : ℕ → Pc → System → Outcome System
advance me Pc.outside s =
    if holding me s.lock
    then panic
    else ok (go_to me Pc.spinning s.lock (with_cpu me (push_off (s.cpus me)) s))
advance me Pc.spinning s =
    if s.lock.locked then ok s else ok (go_to me Pc.taken (record s.lock { locked = true }) s)
advance me Pc.taken s = ok (go_to me Pc.inside (record s.lock { cpu = some me }) s)
advance me Pc.inside s =
    if holding me s.lock then ok (go_to me Pc.cleared (record s.lock { cpu = none }) s) else panic
advance me Pc.cleared s = ok (go_to me Pc.freed (record s.lock { locked = false }) s)
advance me Pc.freed s =
    pop_off (s.cpus me) >>= λ c. ok (go_to me Pc.outside s.lock (with_cpu me c s))

-- A schedule: which CPU takes its next step.
unfoldable pub run : List ℕ → System → Outcome System
unfolding advance
run [] s = ok s
run (me ∷ rest) s = advance me (s.pc me) s >>= run rest

-- The lock as `initlock` leaves it, with interrupts on and nobody at it.
unfoldable pub start : System
start = record {
  lock = record { locked = false; cpu = none };
  pc = λ i. Pc.outside;
  cpus = λ i. record { noff = 0; intena = false; interrupts = true };
}
