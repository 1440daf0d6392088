-- ===== src/Tests/RwLock.antt =====
-- 202110421_assign5/rwlock.c: runs of three threads over a ring of eight tickets.
use system_programming.Base.{ℕ, ◌≡◌, ◌≢◌, refl, arith}
use system_programming.Base.Family.{update}
use system_programming.Base.Int.{pos}
use system_programming.RwLock.Ring.{
  slot_matches, get_request_type, consume_entry, join_fifo, seek, find_valid_head, extend_batch,
}
use system_programming.RwLock.Ops.{
  waits, returned, success, acquire, initialised, finish, open_batch, read_head, write_head,
  take_write, quick_start, quick_round, read_start, read_round, write_start, write_round,
  rwlock_read_unlock, rwlock_write_unlock,
}
use system_programming.RwLock.System.{
  idle, reading, writing, read_waiting, write_waiting, Call, quick_read, normal_read, write,
  advance, System, pick, Reach, created, later,
}
use system_programming.RwLock.Exclusion.{mutual_exclusion, unlock-succeeds}
use system_programming.RwLock.Fairness.{waiting-Fine, writer-first}
use system_programming.RwLock.Tickets.Results.{Fine}

program : Unit {0}
unfolding slot_matches get_request_type consume_entry join_fifo seek find_valid_head extend_batch
    finish open_batch read_head write_head take_write quick_start quick_round read_start read_round
    write_start write_round rwlock_read_unlock rwlock_write_unlock advance
program = tt

-- One thread moves.
abbrev moved : System → ℕ → Call → System
moved s i call = record {
  lock = (advance 8 call (s.pc i) (acquire s.lock)).0;
  pc = update s.pc i (advance 8 call (s.pc i) (acquire s.lock)).1;
}

abbrev s0 : System
s0 = record { lock = initialised 0; pc = λ i. idle }

-- Thread 0 takes the lock for writing, threads 1 and 2 ask to read and wait.
abbrev queued : System
queued = moved (moved (moved s0 0 write) 1 normal_read) 2 normal_read

queued-Reach : Reach 8 3 queued
unfolding program
queued-Reach =
    later
      (later (later (created 0) (pick 0 write (omega arith) refl))
        (pick 1 normal_read (omega arith) refl))
      (pick 2 normal_read (omega arith) refl)

queued_pcs :
    (queued.pc 0 ≡ writing) × (queued.pc 1 ≡ read_waiting 1) × (queued.pc 2 ≡ read_waiting 2)
unfolding program
queued_pcs = (refl, refl, refl)

mutual_exclusion_example : (queued.pc 1 ≢ writing) × (queued.pc 1 ≢ reading)
mutual_exclusion_example =
    mutual_exclusion 8 3 0 1 queued-Reach (omega arith) (omega arith) queued_pcs.0 (omega arith)

unlock-succeeds_example :
    (queued.pc 0 ≡ reading → (rwlock_read_unlock (acquire queued.lock)).1 ≡ returned success)
    × (queued.pc 0 ≡ writing → (rwlock_write_unlock (acquire queued.lock)).1 ≡ returned success)
unlock-succeeds_example = unlock-succeeds 8 3 0 queued-Reach (omega arith)

queued_next : queued.lock.next_element ≡ 3
unfolding program
queued_next = refl

waiting-Fine_example :
    (queued.pc 1 ≡ read_waiting 1 → Fine (read_round 8 (acquire queued.lock) 1))
    × (queued.pc 1 ≡ write_waiting 1 → Fine (write_round 8 (acquire queued.lock) 1))
waiting-Fine_example = waiting-Fine 8 3 1 1 queued-Reach (omega (arith, queued_next))

-- A quick reader holds the lock, a writer waits for it, and a normal reader behind the writer.
abbrev behind_writer : System
behind_writer = moved (moved (moved s0 0 quick_read) 1 write) 2 normal_read

behind_writer-Reach : Reach 8 3 behind_writer
unfolding program
behind_writer-Reach =
    later
      (later (later (created 0) (pick 0 quick_read (omega arith) refl))
        (pick 1 write (omega arith) refl))
      (pick 2 normal_read (omega arith) refl)

behind_writer_facts :
    (behind_writer.pc 1 ≡ write_waiting 0)
    × (behind_writer.pc 2 ≡ read_waiting 1)
    × (behind_writer.lock.next_element ≡ 2)
unfolding program
behind_writer_facts = (refl, refl, refl)

writer-first_example :
    (behind_writer.pc 2 ≡ read_waiting 1 → (read_round 8 (acquire behind_writer.lock) 1).1 ≡ waits)
    × (behind_writer.pc 2 ≡ write_waiting 1
        → (write_round 8 (acquire behind_writer.lock) 1).1 ≡ waits)
writer-first_example =
    writer-first 8 3 1 2 0 1 behind_writer-Reach (omega (arith, behind_writer_facts))
      behind_writer_facts.0 (omega arith)

-- The writer releases, thread 1 opens the batch of both readers, reads and releases before thread 2
-- has come back from its wait.
abbrev late : System
late = moved (moved (moved queued 0 write) 1 write) 1 write

late-Reach : Reach 8 3 late
unfolding program
late-Reach =
    later
      (later (later queued-Reach (pick 0 write (omega arith) refl))
        (pick 1 write (omega arith) refl))
      (pick 1 write (omega arith) refl)

-- The lock is free, and thread 2 waits on.
late_facts :
    (late.pc 0 ≡ idle)
    × (late.pc 1 ≡ idle)
    × (late.pc 2 ≡ read_waiting 2)
    × (late.lock.current_writers ≡ pos 0)
    × (late.lock.current_readers ≡ pos 0)
    × ((read_round 8 (acquire late.lock) 2).1 ≡ waits)
unfolding program
late_facts = (refl, refl, refl, refl, refl, refl)
