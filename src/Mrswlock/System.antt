-- ===== src/Mrswlock/System.antt =====
-- Any number of threads that use one lock, interleaved in any order.
use libfly.Prelude.{ℕ, ◌<◌, ◌≡◌, false, some, change}
use libfly.Mrswlock.{Mrswlock, init, Pc, idle, reader, writer, step}

-- An index from `n` on names no thread: it is never picked, and stays `idle`.
pub record System : Type 0 where
  pub lock : Mrswlock
  pub pc : ℕ → Pc

-- A thread outside calls `rlock` or `wlock`, or a thread inside makes its next step.
pub data Step (n : ℕ) (s : System) : System → Type 0 where
  call_rlock :
      (i : ℕ)
      → i < n
      → s.pc i ≡ idle
      → Step n s (record s { pc = change s.pc i (reader false false) })
  call_wlock :
      (i : ℕ) → i < n → s.pc i ≡ idle → Step n s (record s { pc = change s.pc i (writer false) })
  run :
      (i : ℕ) {l : Mrswlock} {p : Pc}
      → i < n
      → step s.lock (s.pc i) ≡ some (l, p)
      → Step n s (record { lock = l; pc = change s.pc i p })

abbrev pub start : ℕ → System
start maxin = record { lock = init maxin; pc = λ _. idle }

pub data Reach (n maxin : ℕ) : System → Type 0 where
  here : Reach n maxin (start maxin)
  later : {s t : System} → Reach n maxin s → Step n s t → Reach n maxin t
