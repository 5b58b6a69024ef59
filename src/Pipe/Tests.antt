-- ===== src/Pipe/Tests.antt =====
-- Runs of the model of kernel/pipe.c, and its theorems at concrete inputs.
use os_assignment.Prelude.{ℕ, ◌%◌, ◌≡◌, refl, true, false, Option, some, List, [], ◌∷◌, arith, ltb}
use os_assignment.Pipe.{
  fresh, closed, write_loop, read_section, read_loop, put_byte, next_byte, drop_byte, is_empty,
}
use os_assignment.Pipe.Fifo.{fresh-IsValid}
use os_assignment.Pipe.Calls.{Writes, Reads, write_loop-Writes, read_loop-Reads}
use os_assignment.Pipe.Threads.{
  Writer, Reader, System, Event, call_write, call_read, run_writer, run_reader, step, run, start,
  user_bytes,
}
use os_assignment.Pipe.Order.{InOrder, start-InOrder, run-InOrder}
use os_assignment.Pipe.Wakeups.{
  run-NoneForgotten, start-NoneForgotten, killed_writer-leaves_reader, AllSteady,
}
use os_assignment.Pipe.Rests.{NoneForgotten}

-- The user's memory: at address a the byte a % 256.
abbrev memory : ℕ → ℕ
memory va = va % 256

abbrev mapped : ℕ → Option ℕ
mapped va = some (memory va)

-- A writer of 600 bytes fills the pipe and sleeps; a reader takes four; the writer goes on.
abbrev script : List Event
script =
    call_write 0 1000 600
    ∷ run_writer 0 (λ k. false) mapped
    ∷ call_read 7 64 4
    ∷ run_reader 7 false (λ va. true)
    ∷ run_writer 0 (λ k. false) mapped
    ∷ []

writer_sleeps_again : (run script start).writers 0 ≡ Writer.asleep 1000 600 516
unfolding run start write_loop read_section read_loop put_byte next_byte drop_byte
writer_sleeps_again = refl

reader_has_four : (run script start).taken ≡ user_bytes mapped 1000 0 4
unfolding run start write_loop read_section read_loop put_byte next_byte drop_byte
reader_has_four = refl

run-InOrder_example : InOrder (run script start)
run-InOrder_example = run-InOrder script start-InOrder

script-AllSteady : AllSteady script
script-AllSteady = (tt, ((false, λ k. refl), (tt, (tt, ((false, λ k. refl), tt)))))

run-NoneForgotten_example : NoneForgotten (run script start)
run-NoneForgotten_example = run-NoneForgotten script script-AllSteady start-NoneForgotten

-- A reader sleeps on the empty pipe, and a writer of two bytes is about to run.
abbrev waiting : System
waiting = run (call_read 7 64 4 ∷ run_reader 7 false (λ va. true) ∷ call_write 0 1000 2 ∷ []) start

killed_writer-leaves_reader_example :
    let t = step (run_writer 0 (λ k. ltb 0 k) mapped) waiting in
    ((write_loop (λ k. ltb 0 k) mapped 1000 2 0 waiting.pipe).0 ≡ closed)
    × (t.writers 0 ≡ Writer.idle)
    × (t.readers 7 ≡ Reader.asleep 64 4)
    × (is_empty t.pipe ≡ false)
unfolding run start read_section
killed_writer-leaves_reader_example =
    killed_writer-leaves_reader waiting 0 7 1000 2 0 232 (λ k. ltb 0 k) mapped refl (omega arith)
      refl (refl, refl) refl (omega arith) refl

write_loop-Writes_example :
    Writes (λ k. false) mapped 1000 600 0 fresh (write_loop (λ k. false) mapped 1000 600 0 fresh)
write_loop-Writes_example = write_loop-Writes (λ k. false) mapped 1000 600 0 fresh-IsValid

read_loop-Reads_example : Reads (λ va. true) 64 9 0 fresh (read_loop (λ va. true) 64 9 0 fresh)
read_loop-Reads_example = read_loop-Reads (λ va. true) 64 9 0 fresh-IsValid
