-- ===== src/Mrswlock/Examples.antt =====
-- Two threads on a lock of src/fly_mrswlock.h for one reader: thread 0 writes, thread 1 waits to read.
use libfly.Prelude.{ℕ, ◌<◌, ◌≤◌, ◌≡◌, ◌≢◌, refl, false, true, arith, change, total}
use libfly.Mrswlock.{
  Mrswlock, Pc, idle, reader, reader_asleep, reading, writer, writing, step, wlock_round,
  rlock_round, init,
}
use libfly.Mrswlock.System.{System, Step, call_rlock, call_wlock, run, Reach, here, later}
use libfly.Mrswlock.Invariant.{reads, read_waits, write_waits}
use libfly.Mrswlock.Safety.{writer_alone, counters_exact, holder_counted}
use libfly.Mrswlock.Progress.{CanStep, no_deadlock}

abbrev writing_lock : Mrswlock
writing_lock = record { rsem = 0; wsem = 0; nbin = 1; nbrwaiting = 0; nbwwaiting = 0; maxin = 1 }

abbrev waiting_lock : Mrswlock
waiting_lock = record writing_lock { nbrwaiting = 1 }

abbrev pcs : ℕ → Pc
pcs =
    change (change (change (change (λ _. idle) 0 (writer false)) 0 writing) 1 (reader false false))
      1 reader_asleep

abbrev one_writes : System
one_writes = record { lock = waiting_lock; pc = pcs }

one_writes-Reach : Reach 2 1 one_writes
unfolding change step wlock_round rlock_round init
one_writes-Reach =
    later
      (later
        (later (later here (call_wlock 0 (omega arith) refl))
          (run 0 {l = writing_lock} {p = writing} (omega arith) refl))
        (call_rlock 1 (omega arith) refl))
      (run 1 {l = waiting_lock} {p = reader_asleep} (omega arith) refl)

zero_writes : pcs 0 ≡ writing
unfolding change
zero_writes = refl

one_waits : pcs 1 ≢ idle
unfolding change
one_waits e = ground arith

writer_alone_example : (pcs 1 ≢ writing) × (pcs 1 ≢ reading)
writer_alone_example =
    writer_alone {n = 2} {maxin = 1} {s = one_writes} (omega arith) one_writes-Reach 0 1
      (omega arith) (omega arith) (omega arith) zero_writes

counters_exact_example :
    (total reads 2 pcs ≤ 1) × (1 ≤ 1) × (1 ≡ total read_waits 2 pcs) × (0 ≡ total write_waits 2 pcs)
counters_exact_example =
    counters_exact {n = 2} {maxin = 1} {s = one_writes} (omega arith) one_writes-Reach

holder_counted_example : 0 < 1
unfolding change
holder_counted_example =
    holder_counted {n = 2} {maxin = 1} {s = one_writes} (omega arith) one_writes-Reach 0
      (omega arith) (omega arith)

no_deadlock_example : (j : ℕ) × (j < 2) × CanStep waiting_lock (pcs j)
no_deadlock_example =
    no_deadlock {n = 2} {maxin = 1} {s = one_writes} (omega arith) one_writes-Reach 1 (omega arith)
      one_waits

-- A reader has the lock and a writer waits for it.
abbrev held_lock : Mrswlock
held_lock = record { rsem = 0; wsem = 0; nbin = 1; nbrwaiting = 0; nbwwaiting = 1; maxin = 2 }

abbrev crowded : System
crowded = record { lock = held_lock; pc = change (λ _. reading) 1 (reader false false) }

abbrev turned_away : System
turned_away = record crowded { pc = change crowded.pc 1 (reader false true) }

turned_away-Step : Step 2 crowded turned_away
unfolding change step rlock_round
turned_away-Step = run 1 {l = held_lock} {p = reader false true} (omega arith) refl
