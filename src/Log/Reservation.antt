-- ===== src/Log/Reservation.antt =====
-- kernel/log.c: what `begin_op` reserves is enough, so that no call panics.
use os_assignment.Prelude.{ℕ, ◌+◌, ◌<◌, ◌≤◌, [], ◌∷◌, ◌++◌, arith, set}
use os_assignment.Log.{Log, bpin, max_op_blocks, log_size, set_lh}
use os_assignment.Log.Runs.{CanCommit}
use os_assignment.Log.Transactions.{Session}
use os_assignment.Log.Ledger.{IsReserved}

module _ (limit start size : ℕ) (at_most : limit ≤ max_op_blocks)
    (large : log_size + limit < size + max_op_blocks) where
  -- The session after call j has added block b to the log.
  abbrev added : (j b u : ℕ) → Session → Session
  added j b u s = record {
    machine = set_lh (s.machine.log.lh ++ (b ∷ [])) (bpin b s.machine);
    ops = set s.ops j (u + 1);
  }

  -- A commit may be done in every such session.
  pub IsReserved-CanCommit : (s : Session) → IsReserved limit start size s → CanCommit s.machine
  IsReserved-CanCommit s h = record {
    all_home = rw (h.where_start, h.how_large) h.home;
    room = omega (arith, large, h.reserved, h.how_large);
    clean = h.clean;
  }
