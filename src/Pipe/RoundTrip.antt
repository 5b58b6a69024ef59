-- ===== src/Pipe/RoundTrip.antt =====
-- kernel/pipe.c: what is written into an empty pipe is what is read out of it.
use os_assignment.Prelude.{ℕ, false, some, List}
use os_assignment.Pipe.{Pipe, WriteStop, write_loop}

module _ (memory : ℕ → ℕ) (addr n : ℕ) where
  abbrev copied_in : Pipe → WriteStop × Pipe
  copied_in p = write_loop (λ k. false) (λ va. some (memory va)) addr n 0 p
