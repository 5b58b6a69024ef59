-- ===== src/Log.antt =====
-- kernel/log.c: the write-ahead log of the file system, over a disk whose block writes are atomic.
pub mod Writes
pub mod Copy
pub mod Runs
pub mod Atomic
pub mod Recovery
pub mod Transactions
pub mod Ledger
pub mod Reservation
mod Tests
use os_assignment.Prelude.{
  ℕ, zero, suc, ◌+◌, ◌-◌, ◌*◌, Bool, true, false, ◌&&◌, ◌||◌, List, [], ◌∷◌, ◌++◌, ◌==◌, ltb, leb,
  if◌then◌else◌, length, update,
}
use os_assignment.Prelude.Outcome.{Outcome, ok, panic}

abbrev pub max_op_blocks : ℕ
max_op_blocks = 10

abbrev pub log_size : ℕ
log_size = max_op_blocks * 3

-- The disk: the header block of the log, read as the `n` block numbers that count in it, and the
-- contents of all other blocks. Contents are only moved, so a number stands for them.
pub record Disk : Type 0 where
  pub head : List ℕ
  pub sector : ℕ → ℕ

-- One write of a block by `bwrite`.
pub data DiskWrite : Type 0 where
  put_block : (b v : ℕ) → DiskWrite
  put_head : List ℕ → DiskWrite

abbrev pub apply_write : DiskWrite → Disk → Disk
apply_write (put_block b v) d = record d { sector = update d.sector b v }
apply_write (put_head bs) d = record d { head = bs }

abbrev pub apply_writes : List DiskWrite → Disk → Disk
apply_writes [] d = d
apply_writes (w ∷ ws) d = apply_writes ws (apply_write w d)

-- `struct log` less its lock and device. `lh` is `lh.block[0 .. lh.n)`.
pub record Log : Type 0 where
  pub start : ℕ
  pub size : ℕ
  pub outstanding : ℕ
  pub committing : Bool
  pub lh : List ℕ

pub record Machine : Type 0 where
  pub log : Log
  pub disk : Disk
  -- The data of the buffer that `bread` of a block returns.
  pub cache : ℕ → ℕ
  -- What the log adds to `refcnt` of a block's buffer.
  pub pins : ℕ → ℕ
  -- Observed only: the writes that have reached the disk, in order.
  pub trace : List DiskWrite

-- `bwrite` of the buffer of block `b`.
unfoldable pub bwrite : ℕ → Machine → Machine
bwrite b m =
    let w = put_block b (m.cache b) in
    record m { disk = apply_write w m.disk; trace = m.trace ++ (w ∷ []) }

-- `memmove(to->data, from->data, BSIZE)`
unfoldable pub copy_block : (to from : ℕ) → Machine → Machine
copy_block to from m = record m { cache = update m.cache to (m.cache from) }

-- `write_head`
unfoldable pub write_head : Machine → Machine
write_head m =
    let w = put_head m.log.lh in
    record m { disk = apply_write w m.disk; trace = m.trace ++ (w ∷ []) }

abbrev pub set_lh : List ℕ → Machine → Machine
set_lh bs m = record m { log = record m.log { lh = bs } }

-- `read_head`
unfoldable pub read_head : Machine → Machine
read_head m = set_lh m.disk.head m

unfoldable pub bunpin : ℕ → Machine → Machine
bunpin b m = record m { pins = update m.pins b (m.pins b - 1) }

unfoldable pub bpin : ℕ → Machine → Machine
bpin b m = record m { pins = update m.pins b (m.pins b + 1) }

-- The loop of `install_trans`, over the blocks from index `tail` on.
unfoldable pub install_from : (recovering : Bool) → (tail : ℕ) → List ℕ → Machine → Machine
unfolding bwrite copy_block bunpin
install_from recovering tail [] m = m
install_from recovering tail (b ∷ bs) m =
    let m' = bwrite b (copy_block b (m.log.start + tail + 1) m) in
    install_from recovering (tail + 1) bs (if recovering then m' else bunpin b m')

unfoldable pub install_trans : Bool → Machine → Machine
unfolding install_from
install_trans recovering m = install_from recovering 0 m.log.lh m

-- The loop of `write_log`.
unfoldable pub write_log_from : (tail : ℕ) → List ℕ → Machine → Machine
unfolding bwrite copy_block
write_log_from tail [] m = m
write_log_from tail (b ∷ bs) m =
    let to = m.log.start + tail + 1 in write_log_from (tail + 1) bs (bwrite to (copy_block to b m))

unfoldable pub write_log : Machine → Machine
unfolding write_log_from
write_log m = write_log_from 0 m.log.lh m

unfoldable pub commit : Machine → Machine
unfolding write_log write_head install_trans
commit m =
    if ltb 0 (length m.log.lh)
    then write_head (set_lh [] (install_trans false (write_head (write_log m))))
    else m

unfoldable pub recover_from_log : Machine → Machine
unfolding read_head install_trans write_head
recover_from_log m = write_head (set_lh [] (install_trans true (read_head m)))

-- `initlog` at boot, with a cold buffer cache, from `sb->logstart` and `sb->nlog`.
unfoldable pub init_log : (start size : ℕ) → Disk → Machine
unfolding recover_from_log
init_log start size d = recover_from_log (record {
  log = record { start = start; size = size; outstanding = 0; committing = false; lh = [] };
  disk = d;
  cache = d.sector;
  pins = λ b. 0;
  trace = [];
})

-- One round of the loop of `begin_op`: it sleeps, or goes on with the operation counted.
pub data Begin : Type 0 where
  must_sleep : Begin
  begun : Log → Begin

unfoldable pub begin_op : Log → Begin
begin_op l =
    if l.committing
    then must_sleep
    else if ltb log_size (length l.lh + (l.outstanding + 1) * max_op_blocks)
    then must_sleep
    else begun (record l { outstanding = l.outstanding + 1 })

-- The first critical section of `end_op`, and whether the caller has to commit. Its caller is one
-- of the operations that `outstanding` counts, so `-` does not stop at 0.
unfoldable pub end_op : Log → Outcome (Bool × Log)
end_op l =
    if l.committing
    then panic
    else if (l.outstanding - 1) == 0
    then ok (true, record l { outstanding = l.outstanding - 1; committing = true })
    else ok (false, record l { outstanding = l.outstanding - 1 })

-- `commit` and the second critical section of `end_op`.
unfoldable pub finish_commit : Machine → Machine
unfolding commit
finish_commit m = let m' = commit m in record m' { log = record m'.log { committing = false } }

-- The search of `log_write` for the block among those logged.
abbrev pub logged : ℕ → List ℕ → Bool
logged b [] = false
logged b (x ∷ xs) = (x == b) || logged b xs

unfoldable pub log_write : ℕ → Machine → Outcome Machine
unfolding bpin
log_write b m =
    if leb log_size (length m.log.lh) || leb (m.log.size - 1) (length m.log.lh)
    then panic
    else if ltb m.log.outstanding 1
    then panic
    else if logged b m.log.lh
    then ok m
    else ok (set_lh (m.log.lh ++ (b ∷ [])) (bpin b m))
