-- ===== src/Mrswlock/Progress.antt =====
-- Freedom from deadlock and from lost wake-ups of the lock of src/fly_mrswlock.h.
use libfly.Prelude.{
  ℕ, ◌+◌, ◌-◌, ◌≤◌, ◌<◌, ◌≡◌, refl, ◌≢◌, true, false, some, arith, total, total-pos, le-total, ap,
}
use native.Mathlib.Decide.{dec_lt}
use libfly.Mrswlock.{
  Mrswlock, Pc, idle, reader, reader_waking, reader_asleep, reading, writer, writer_asleep, writing,
  posting_writer, posting_reader, step,
}
use libfly.Mrswlock.System.{System, Reach}
use libfly.Mrswlock.Invariant.{
  reads, writes, read_waits, write_waits, wakes_writer, wakes_reader, Inv, Reach-Inv,
}

-- A thread at `p` can make a step.
abbrev pub CanStep : Mrswlock → Pc → Type 0
CanStep l p = (out : Mrswlock × Pc) × (step l p ≡ some out)

-- All program counters but `idle` and the two sleeps.
abbrev awake : Pc → ℕ
awake p = reads p + writes p + wakes_writer p + wakes_reader p

awake-CanStep : (l : Mrswlock) (p : Pc) → 0 < awake p → CanStep l p
unfolding step
awake-CanStep l idle h = absurd (omega arith)
awake-CanStep l (reader a b) h = (_, refl)
awake-CanStep l reader_waking h = (_, refl)
awake-CanStep l reader_asleep h = absurd (omega arith)
awake-CanStep l reading h = (_, refl)
awake-CanStep l (writer a) h = (_, refl)
awake-CanStep l writer_asleep h = absurd (omega arith)
awake-CanStep l writing h = (_, refl)
awake-CanStep l posting_writer h = (_, refl)
awake-CanStep l posting_reader h = (_, refl)

reader_asleep-CanStep : (l : Mrswlock) → 0 < l.rsem → CanStep l reader_asleep
unfolding step
reader_asleep-CanStep l h = ((record l { rsem = l.rsem - 1 }, reader true false), ground arith)

writer_asleep-CanStep : (l : Mrswlock) → 0 < l.wsem → CanStep l writer_asleep
unfolding step
writer_asleep-CanStep l h = ((record l { wsem = l.wsem - 1 }, writer true), ground arith)

module _ {n maxin : ℕ} {l : Mrswlock} {pc : ℕ → Pc} (some_room : 0 < maxin)
    (inv : Inv n maxin l pc) where
  open inv use {exclusive, readers, writers, writer_woken, reader_woken}

  abbrev Someone : Type 0
  Someone = (j : ℕ) × (j < n) × CanStep l (pc j)

  someone : (w : Pc → ℕ) → ((p : Pc) → w p ≤ awake p) → 0 < total w n pc → Someone
  someone w small h =
      let (j, lt, p) = total-pos w n pc h in
      (j, lt, awake-CanStep l (pc j) (omega (arith, small (pc j))))

  -- While the lock is held, its holder can give it back.
  holder : 0 < l.nbin → Someone
  holder h = elim (dec_lt 0 (total reads n pc)) [
    | yes r ↦ someone reads (λ p. omega arith) r
    | no not_read ↦ someone writes (λ p. omega arith) (omega (arith, exclusive))
  ]

  -- A writer that `nbwwaiting` counts is awake, or it sleeps and can be woken.
  waiting_writer : l.nbin ≡ 0 → 0 < l.nbwwaiting → Someone
  waiting_writer free h = elim (dec_lt 0 (total wakes_writer n pc)) [
    | yes w ↦ someone wakes_writer (λ p. omega arith) w
    | no none_awake ↦
        let (j, lt, p) = total-pos write_waits n pc (omega (arith, writers)) in
        (j, lt, woken (pc j) p (omega (arith, writer_woken free h)))
  ]
    where
      woken : (p : Pc) → 0 < write_waits p → 0 < l.wsem → CanStep l p
      woken writer_asleep h k = writer_asleep-CanStep l k
      woken (writer true) h k = awake-CanStep l (writer true) (omega arith)
      woken p h k = absurd (omega arith)

  sleeping_reader : (i : ℕ) → i < n → pc i ≡ reader_asleep → l.nbin ≡ 0 → Someone
  sleeping_reader i lt e free = elim (dec_lt 0 l.nbwwaiting) [
    | yes w ↦ waiting_writer free w
    | no none_waits ↦ elim (dec_lt 0 l.rsem) [
      | yes token ↦ (i, lt, rw e (reader_asleep-CanStep l token))
      | no empty ↦
          someone wakes_reader (λ p. omega arith)
            (omega (
              arith,
              reader_woken free (omega arith)
                  (omega (arith, readers, le-total read_waits n pc i lt, ap read_waits e)),
            ))
    ]
  ]

  waits-Someone : (i : ℕ) → i < n → (p : Pc) → pc i ≡ p → p ≢ idle → Someone
  waits-Someone i lt idle e ne = absurd (ne refl)
  waits-Someone i lt reader_asleep e ne = elim (dec_lt 0 l.nbin) [
    | yes held ↦ holder held
    | no free ↦ sleeping_reader i lt e (omega arith)
  ]
  waits-Someone i lt writer_asleep e ne = elim (dec_lt 0 l.nbin) [
    | yes held ↦ holder held
    | no free ↦
        waiting_writer (omega arith)
          (omega (arith, writers, le-total write_waits n pc i lt, ap write_waits e))
  ]
  waits-Someone i lt p e ne = (i, lt, rw e (awake-CanStep l p (omega arith)))

-- No deadlock and no lost wake-up: in a reachable state of a lock with a positive limit, if some
-- thread is inside the lock's functions or holds the lock, then some thread can make a step.
pub no_deadlock :
    {n maxin : ℕ} {s : System}
    → 0 < maxin
    → Reach n maxin s
    → (i : ℕ) → i < n
    → s.pc i ≢ idle
    → (j : ℕ) × (j < n) × CanStep s.lock (s.pc j)
no_deadlock {s} some_room r i lt ne =
    waits-Someone some_room (Reach-Inv some_room r) i lt (s.pc i) refl ne
