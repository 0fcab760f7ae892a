-- ===== src/Sched/Update.antt =====
-- `fly_sched_update` and `fly_sched_get_wthread` of src/fly_sched.c: the walks over the workers.
mod Examples
use libfly.Prelude.{
  ℕ, zero, suc, ◌+◌, ◌≤◌, ◌<◌, ◌≡◌, refl, ◌≢◌, sym, ap, ◌∙◌, ◌⊎◌, inl, inr, Bool, true, false, not,
  ◌&&◌, Option, Bool-cases, first_and_later, none, some, List, [], ◌∷◌, arith, ◌==◌, if◌then◌else◌,
  length, ◌%◌,
}
use mathlib.Core.Path.{subst}
use libfly.Prelude.Options.{◌>>=◌}
use libfly.Thread.{Thread, get_state, is_blocked, is_client_block, before_sleep, after_sleep}
use libfly.Worker.{Worker, WorkerThread, worker_update, work_available, thread_work_available}

-- What the status files of the two threads of each worker give.
abbrev pub Reads : Type 0
Reads = ℕ → Option (List ℕ) × Option (List ℕ)

-- `fly_sched_update`, from worker `i` on.
unfoldable pub sched_update : (i : ℕ) → Reads → List Worker → Option (List Worker)
sched_update i reads [] = some []
sched_update i reads (w ∷ ws) = do
  w' ← worker_update (reads i).0 (reads i).1 w
  ws' ← sched_update (i + 1) reads ws
  some (w' ∷ ws')

-- The thread that calls: of a worker, the main one or the backup one.
pub data Caller : Type 0 where
  main backup : (worker : ℕ) → Caller

-- `fly_worker_get_curr_thread`; `is_me` is what `pthread_equal` answers for the two threads.
unfoldable pub get_curr_thread : (i : ℕ) → (is_me : Bool × Bool) → Option Caller
get_curr_thread i is_me =
    if is_me.0 then some (main i) else if is_me.1 then some (backup i) else none

-- `fly_sched_get_wthread`, from worker `i` on with `left` rounds to go.
unfoldable pub get_wthread : (left i : ℕ) → (ℕ → Bool × Bool) → Option Caller
get_wthread zero i is_me = none
get_wthread (suc left) i is_me =
    let rest = get_wthread left (i + 1) is_me in
    elim (get_curr_thread i (is_me i)) [ none ↦ rest | some c ↦ some c ]

-- No thread of the workers from worker `i` up to worker `k` calls.
abbrev NoneCalls : (i k : ℕ) (is_me : ℕ → Bool × Bool) → Type 0
NoneCalls i k is_me = (j : ℕ) → i ≤ j → j < k → ((is_me j).0 ≡ false) × ((is_me j).1 ≡ false)

-- The first worker from worker `i` up to worker `n` with a thread that calls; its main thread comes
-- before its backup thread.
pub data FirstCaller (i n : ℕ) (is_me : ℕ → Bool × Bool) : Option Caller → Type 0 where
  is_main :
      (k : ℕ)
      → i ≤ k
      → k < n
      → (is_me k).0 ≡ true
      → NoneCalls i k is_me
      → FirstCaller i n is_me (some (main k))
  is_backup :
      (k : ℕ)
      → i ≤ k
      → k < n
      → (is_me k).0 ≡ false
      → (is_me k).1 ≡ true
      → NoneCalls i k is_me
      → FirstCaller i n is_me (some (backup k))
  absent : NoneCalls i n is_me → FirstCaller i n is_me none

extend :
    (i k : ℕ) (is_me : ℕ → Bool × Bool)
    → ((is_me i).0 ≡ false) × ((is_me i).1 ≡ false)
    → NoneCalls (i + 1) k is_me
    → NoneCalls i k is_me
extend i k is_me e rest =
    first_and_later {P = λ j. ((is_me j).0 ≡ false) × ((is_me j).1 ≡ false)} i k e rest

later :
    (i n : ℕ) (is_me : ℕ → Bool × Bool) (c : Option Caller)
    → ((is_me i).0 ≡ false) × ((is_me i).1 ≡ false)
    → FirstCaller (i + 1) n is_me c
    → FirstCaller i n is_me c
later i n is_me c e (is_main k le lt h rest) =
    is_main k (omega arith) lt h (extend i k is_me e rest)
later i n is_me c e (is_backup k le lt h h' rest) =
    is_backup k (omega arith) lt h h' (extend i k is_me e rest)
later i n is_me c e (absent rest) = absent (extend i n is_me e rest)

this_or_later :
    (i n : ℕ) (is_me : ℕ → Bool × Bool) (rest : Option Caller)
    → i < n
    → FirstCaller (i + 1) n is_me rest
    → FirstCaller i n is_me (elim (get_curr_thread i (is_me i)) [ none ↦ rest | some c ↦ some c ])
unfolding get_curr_thread
this_or_later i n is_me rest lt r =
    let here : NoneCalls i i is_me = λ j le lt. absurd (omega arith) in
    elim (Bool-cases (is_me i).0) [
      | inl e ↦
          let first : FirstCaller i n is_me (some (main i)) = is_main i (omega arith) lt e here in
          rw e first
      | inr e ↦ elim (Bool-cases (is_me i).1) [
        | inl e' ↦
            let first : FirstCaller i n is_me (some (backup i)) =
              is_backup i (omega arith) lt e e' here in
            rw (e, e') first
        | inr e' ↦ rw (e, e') (later i n is_me rest (e, e') r)
      ]
    ]

-- The walk over the `n` workers from worker `i` on gives the thread that calls, of the first worker
-- that has one and its main thread before its backup thread, and nothing where none has one.
get_wthread-FirstCaller :
    (n i : ℕ) (is_me : ℕ → Bool × Bool) → FirstCaller i (i + n) is_me (get_wthread n i is_me)
unfolding get_wthread
get_wthread-FirstCaller zero i is_me = absent (λ j le lt. absurd (omega arith))
get_wthread-FirstCaller (suc n) i is_me =
    this_or_later i (i + suc n) is_me (get_wthread n (i + 1) is_me) (omega arith) (
      subst (λ k. FirstCaller (i + 1) k is_me (get_wthread n (i + 1) is_me)) (omega arith)
        (get_wthread-FirstCaller n (i + 1) is_me))
