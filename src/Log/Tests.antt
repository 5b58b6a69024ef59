-- ===== src/Log/Tests.antt =====
-- Runs of the model of kernel/log.c, and its theorems at concrete inputs.
use os_assignment.Prelude.{
  ℕ, ◌+◌, ◌-◌, ◌≡◌, ◌⊎◌, inr, refl, false, ◌++◌, List, [], ◌∷◌, arith, ltb, if◌then◌else◌,
}
use os_assignment.Prelude.Outcome.{panic}
use os_assignment.Log.{Disk, Machine, commit, init_log, put_block, put_head, begin_op, log_write}
use os_assignment.Log.Writes.{crash, IsHome, installed}
use os_assignment.Log.Copy.{count}
use os_assignment.Log.Runs.{CanCommit}
use os_assignment.Log.Atomic.{commit-atomic}
use os_assignment.Log.Recovery.{init_log-restartable, commit_lem}
use os_assignment.Log.Transactions.{Session, Event, begin, write, end, commit_done, run}

-- Block b holds b, and the buffer of block b holds 1000 + b.
abbrev machine : List ℕ → ℕ → Machine
machine bs size = record {
  log = record { start = 2; size = size; outstanding = 0; committing = false; lh = bs };
  disk = record { head = []; sector = λ b. b };
  cache = λ b. 1000 + b;
  pins = λ b. count b bs;
  trace = [];
}

abbrev two_blocks : Machine
two_blocks = machine (70 ∷ 80 ∷ []) 31

commit_writes_in_order :
    (commit two_blocks).trace
    ≡ put_block 3 1070
      ∷ put_block 4 1080
      ∷ put_head (70 ∷ 80 ∷ [])
      ∷ put_block 70 1070
      ∷ put_block 80 1080
      ∷ put_head []
      ∷ []
unfolding commit
commit_writes_in_order = refl

crash_before_header :
    (init_log 2 31 (crash 2 (commit two_blocks).trace two_blocks.disk)).disk.sector 70 ≡ 70
unfolding commit init_log
crash_before_header = refl

crash_behind_header :
    (init_log 2 31 (crash 3 (commit two_blocks).trace two_blocks.disk)).disk.sector 80 ≡ 1080
unfolding commit init_log
crash_behind_header = refl

two_blocks-CanCommit : CanCommit two_blocks
two_blocks-CanCommit = record {
  all_home = (inr (omega arith), (inr (omega arith), tt));
  room = omega arith;
  clean = refl;
}

commit-atomic_example :
    let d = (init_log 2 31 (crash 4 (commit two_blocks).trace two_blocks.disk)).disk in
    ((x : ℕ) → IsHome 2 31 x → d.sector x ≡ x)
    ⊎ ((x : ℕ) → IsHome 2 31 x → d.sector x ≡ installed (λ b. 1000 + b) (70 ∷ 80 ∷ []) (λ b. b) x)
commit-atomic_example = commit-atomic two_blocks 4 two_blocks-CanCommit refl

commit_lem_example :
    ((x : ℕ)
      → IsHome 2 31 x
      → ((commit two_blocks).disk.sector x ≡ installed (λ b. 1000 + b) (70 ∷ 80 ∷ []) (λ b. b) x)
        × ((commit two_blocks).cache x ≡ 1000 + x))
    × ((commit two_blocks).disk.head ≡ [])
    × ((commit two_blocks).log.lh ≡ [])
    × ((x : ℕ) → (commit two_blocks).pins x ≡ count x (70 ∷ 80 ∷ []) - count x (70 ∷ 80 ∷ []))
commit_lem_example = commit_lem two_blocks two_blocks-CanCommit refl

-- A disk on which block 70 has been logged with contents 5 and not been installed.
abbrev committed : Disk
committed = record { head = 70 ∷ []; sector = λ b. if ltb b 4 then 5 else b }

init_log-restartable_example :
    let c = crash 1 (init_log 2 31 committed).trace committed in
    ((init_log 2 31 c).disk.sector 70 ≡ (init_log 2 31 committed).disk.sector 70)
    × ((init_log 2 31 committed).disk.sector 70 ≡ installed (λ b. 5) (70 ∷ []) committed.sector 70)
init_log-restartable_example =
    init_log-restartable 2 31 (λ b. 5) committed
      (record { all_home = (inr (omega arith), tt); room = omega arith; slots = (refl, tt) }) 1 70

abbrev quiet : ℕ → Session
quiet size = record { machine = machine [] size; ops = [] }

-- Ten blocks from `b` on, logged by call j.
abbrev ten_writes : ℕ → ℕ → List Event
ten_writes j b =
    write j b
    ∷ write j (b + 1)
    ∷ write j (b + 2)
    ∷ write j (b + 3)
    ∷ write j (b + 4)
    ∷ write j (b + 5)
    ∷ write j (b + 6)
    ∷ write j (b + 7)
    ∷ write j (b + 8)
    ∷ write j (b + 9)
    ∷ []

abbrev three_calls : List Event
three_calls = begin ∷ begin ∷ begin ∷ (ten_writes 0 100 ++ (ten_writes 1 200 ++ ten_writes 2 300))

-- mkfs/mkfs.c makes logs of LOGSIZE blocks, the header among them: three calls that each log
-- MAXOPBLOCKS blocks, all let in by `begin_op`, panic at the last block.
three_calls_panic : run 10 three_calls (quiet 30) ≡ panic
unfolding run begin_op log_write
three_calls_panic = refl

abbrev one_call : List Event
one_call = begin ∷ write 0 100 ∷ write 0 101 ∷ write 0 100 ∷ end 0 ∷ commit_done ∷ []
