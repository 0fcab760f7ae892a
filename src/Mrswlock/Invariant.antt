-- ===== src/Mrswlock/Invariant.antt =====
-- What the counters of the lock say about the threads: true at the start, kept by every step.
use libfly.Prelude.{
  ℕ, ◌+◌, ◌≤◌, ◌<◌, ◌≡◌, refl, sym, ap, ◌⊎◌, inl, true, false, some, arith, change, total,
  total-change, total-zero, le-total,
}
use libfly.Mrswlock.{
  Mrswlock, init, Pc, idle, reader, reader_waking, reader_asleep, reading, writer, writer_asleep,
  writing, posting_writer, posting_reader, step,
}
use libfly.Mrswlock.System.{System, Step, call_rlock, call_wlock, run, Reach, here, later}

abbrev pub reads : Pc → ℕ
reads reading = 1
reads _ = 0

abbrev pub writes : Pc → ℕ
writes writing = 1
writes _ = 0

-- The threads that `nbrwaiting` and `nbwwaiting` count.
abbrev pub read_waits : Pc → ℕ
read_waits (reader true _) = 1
read_waits reader_waking = 1
read_waits reader_asleep = 1
read_waits _ = 0

abbrev pub write_waits : Pc → ℕ
write_waits (writer true) = 1
write_waits writer_asleep = 1
write_waits _ = 0

-- The threads that will take the lock or wake a waiting writer, a waiting reader.
abbrev pub wakes_writer : Pc → ℕ
wakes_writer (reader _ _) = 1
wakes_writer reader_waking = 1
wakes_writer (writer _) = 1
wakes_writer posting_writer = 1
wakes_writer _ = 0

abbrev pub wakes_reader : Pc → ℕ
wakes_reader (reader _ _) = 1
wakes_reader reader_waking = 1
wakes_reader (writer _) = 1
wakes_reader posting_reader = 1
wakes_reader _ = 0

-- Readers below the limit and no writer, or one writer and no reader.
abbrev pub Exclusive : (nbin maxin readers writers : ℕ) → Type 0
Exclusive nbin maxin readers writers =
    ((writers ≡ 0) × (nbin ≡ readers) × (readers ≤ maxin))
    ⊎ ((writers ≡ 1) × (readers ≡ 0) × (nbin ≡ maxin))

pub record Inv (n maxin : ℕ) (l : Mrswlock) (pc : ℕ → Pc) : Type 0 where
  pub limit : l.maxin ≡ maxin
  pub exclusive : Exclusive l.nbin maxin (total reads n pc) (total writes n pc)
  pub readers : l.nbrwaiting ≡ total read_waits n pc
  pub writers : l.nbwwaiting ≡ total write_waits n pc
  pub writer_woken : l.nbin ≡ 0 → 0 < l.nbwwaiting → 0 < l.wsem + total wakes_writer n pc
  pub reader_woken :
      l.nbin ≡ 0 → l.nbwwaiting ≡ 0 → 0 < l.nbrwaiting → 0 < l.rsem + total wakes_reader n pc

module _ {n maxin : ℕ} {l : Mrswlock} {pc : ℕ → Pc} (some_room : 0 < maxin) (inv : Inv n maxin l pc)
    (i : ℕ) (lt : i < n) where
  -- Thread `i` moves from `p` to `p'`: how the sums change.
  record Moved (p p' : Pc) : Type 0 where
    reads_to : total reads n (change pc i p') + reads p ≡ total reads n pc + reads p'
    writes_to : total writes n (change pc i p') + writes p ≡ total writes n pc + writes p'
    read_waits_to :
        total read_waits n (change pc i p') + read_waits p ≡ total read_waits n pc + read_waits p'
    write_waits_to :
        total write_waits n (change pc i p') + write_waits p
        ≡ total write_waits n pc + write_waits p'
    wakes_writer_to :
        total wakes_writer n (change pc i p') + wakes_writer p
        ≡ total wakes_writer n pc + wakes_writer p'
    wakes_reader_to :
        total wakes_reader n (change pc i p') + wakes_reader p
        ≡ total wakes_reader n pc + wakes_reader p'
    wakes_itself :
        (wakes_writer p' ≤ total wakes_writer n (change pc i p'))
        × (wakes_reader p' ≤ total wakes_reader n (change pc i p'))

  moved : (p p' : Pc) → pc i ≡ p → Moved p p'
  moved p p' e = record {
    reads_to = omega (arith, total-change reads n pc i p' lt, ap reads e);
    writes_to = omega (arith, total-change writes n pc i p' lt, ap writes e);
    read_waits_to = omega (arith, total-change read_waits n pc i p' lt, ap read_waits e);
    write_waits_to = omega (arith, total-change write_waits n pc i p' lt, ap write_waits e);
    wakes_writer_to = omega (arith, total-change wakes_writer n pc i p' lt, ap wakes_writer e);
    wakes_reader_to = omega (arith, total-change wakes_reader n pc i p' lt, ap wakes_reader e);
    wakes_itself = (
      omega (arith, total-change wakes_writer n pc i p' lt, le-total wakes_writer n pc i lt),
      omega (arith, total-change wakes_reader n pc i p' lt, le-total wakes_reader n pc i lt),
    );
  }

  enter-Inv :
      (p' : Pc)
      → Moved idle p'
      → reads p' ≡ 0
      → writes p' ≡ 0
      → read_waits p' ≡ 0
      → write_waits p' ≡ 0
      → Inv n maxin l (change pc i p')
  enter-Inv p' m = ground arith

  step-Inv :
      (p p' : Pc) (l' : Mrswlock)
      → Moved p p'
      → step l p ≡ some (l', p')
      → Inv n maxin l' (change pc i p')
  unfolding step
  step-Inv idle p' l' m e = cc
  step-Inv (reader true true) p' l' m e = ground arith
  step-Inv (reader true false) p' l' m e = ground arith
  step-Inv (reader false true) p' l' m e = ground arith
  step-Inv (reader false false) p' l' m e = ground arith
  step-Inv reader_waking p' l' m e = ground arith
  step-Inv reader_asleep p' l' m e = ground arith
  step-Inv reading p' l' m e = ground arith
  step-Inv (writer true) p' l' m e = ground arith
  step-Inv (writer false) p' l' m e = ground arith
  step-Inv writer_asleep p' l' m e = ground arith
  step-Inv writing p' l' m e = ground arith
  step-Inv posting_writer p' l' m e = ground arith
  step-Inv posting_reader p' l' m e = ground arith

Inv-start : (n maxin : ℕ) → Inv n maxin (init maxin) (λ _. idle)
unfolding init
Inv-start n maxin = record {
  limit = refl;
  exclusive =
      inl (none_of writes refl, sym (none_of reads refl), omega (arith, none_of reads refl));
  readers = sym (none_of read_waits refl);
  writers = sym (none_of write_waits refl);
  writer_woken = λ e h. absurd (omega arith);
  reader_woken = λ e f h. absurd (omega arith);
}
  where
    none_of : (w : Pc → ℕ) → w idle ≡ 0 → total w n (λ _. idle) ≡ 0
    none_of w e = total-zero w (λ _. idle) (λ _. e) n

pub Step-Inv :
    {n maxin : ℕ} {s t : System}
    → 0 < maxin
    → Step n s t
    → Inv n maxin s.lock s.pc
    → Inv n maxin t.lock t.pc
Step-Inv {s} some_room (call_rlock i lt e) inv =
    enter-Inv some_room inv i lt _ (moved some_room inv i lt idle _ e) refl refl refl refl
Step-Inv some_room (call_wlock i lt e) inv =
    enter-Inv some_room inv i lt _ (moved some_room inv i lt idle _ e) refl refl refl refl
Step-Inv {s} some_room (run i {l} {p} lt e) inv =
    step-Inv some_room inv i lt (s.pc i) p l (moved some_room inv i lt (s.pc i) p refl) e

pub Reach-Inv : {n maxin : ℕ} {s : System} → 0 < maxin → Reach n maxin s → Inv n maxin s.lock s.pc
Reach-Inv {n} {maxin} some_room here = Inv-start n maxin
Reach-Inv some_room (later r st) = Step-Inv some_room st (Reach-Inv some_room r)
