-- ===== src/Mrswlock/Safety.antt =====
-- What holds in every reachable state of the lock of src/fly_mrswlock.h.
use libfly.Prelude.{
  ℕ, ◌+◌, ◌≤◌, ◌<◌, ◌≡◌, ◌≢◌, true, false, some, arith, total, total-change, le-total, add-le-total,
  ap,
}
use libfly.Mrswlock.{Mrswlock, Pc, reader, reading, writer, writing, step}
use libfly.Mrswlock.System.{System, Step, call_rlock, call_wlock, run, Reach}
use libfly.Mrswlock.Invariant.{reads, writes, read_waits, write_waits, Inv, Reach-Inv}

-- In a reachable state of a lock with a positive limit, while one thread writes, no other thread
-- writes and none reads.
pub writer_alone :
    {n maxin : ℕ} {s : System}
    → 0 < maxin
    → Reach n maxin s
    → (i j : ℕ) → i < n
    → j < n
    → i ≢ j
    → s.pc i ≡ writing
    → (s.pc j ≢ writing) × (s.pc j ≢ reading)
writer_alone {n} {s} some_room r i j hi hj ne w = (
  λ e.
      absurd (
        omega
          (arith, exclusive, add-le-total writes n s.pc i j hi hj ne, ap writes w, ap writes e)),
  λ e. absurd (
      omega (
        arith,
        exclusive,
        le-total writes n s.pc i hi,
        le-total reads n s.pc j hj,
        ap writes w,
        ap reads e,
      )),
)
  where
    open (Reach-Inv some_room r) use {exclusive}

-- In a reachable state of a lock with a positive limit, at most `maxin` threads read, `nbin` is at
-- most `maxin`, and the two counts of waiting threads are exact.
pub counters_exact :
    {n maxin : ℕ} {s : System}
    → 0 < maxin
    → Reach n maxin s
    → (total reads n s.pc ≤ maxin)
      × (s.lock.nbin ≤ maxin)
      × (s.lock.nbrwaiting ≡ total read_waits n s.pc)
      × (s.lock.nbwwaiting ≡ total write_waits n s.pc)
counters_exact {n} {maxin} {s} some_room r =
    (omega (arith, exclusive), omega (arith, exclusive), inv.readers, inv.writers)
  where
    inv : Inv n maxin s.lock s.pc
    inv = Reach-Inv some_room r

    open inv use {exclusive}

-- In a reachable state of a lock with a positive limit, `nbin` is positive while a thread reads or
-- writes, so that the decrement in `runlock` does not go below zero.
pub holder_counted :
    {n maxin : ℕ} {s : System}
    → 0 < maxin
    → Reach n maxin s
    → (i : ℕ) → i < n
    → 0 < reads (s.pc i) + writes (s.pc i)
    → 0 < s.lock.nbin
holder_counted {n} {s} some_room r i lt h =
    omega (arith, exclusive, le-total reads n s.pc i lt, le-total writes n s.pc i lt)
  where
    open (Reach-Inv some_room r) use {exclusive}

step-reads :
    (l l' : Mrswlock) (p p' : Pc) → 0 < l.nbwwaiting → step l p ≡ some (l', p') → reads p' ≤ reads p
unfolding step
step-reads l l' (reader true wake) p' h e = ground arith
step-reads l l' (reader false wake) p' h e = ground arith
step-reads l l' p p' h e = ground arith

-- Writers come first: while a writer waits, no step of any thread raises the number of threads
-- that read.
writers_first :
    {n : ℕ} {s t : System}
    → Step n s t
    → 0 < s.lock.nbwwaiting
    → total reads n t.pc ≤ total reads n s.pc
writers_first {n} {s} (call_rlock i lt e) h =
    omega (arith, total-change reads n s.pc i (reader false false) lt)
writers_first {n} {s} (call_wlock i lt e) h =
    omega (arith, total-change reads n s.pc i (writer false) lt)
writers_first {n} {s} (run i {l} {p} lt e) h =
    omega (arith, total-change reads n s.pc i p lt, step-reads s.lock l (s.pc i) p h e)
