-- ===== src/Worker/Examples.antt =====
-- A worker of src/fly_worker.c with a blocked main thread, and threads that are asked to exit.
use libfly.Prelude.{ℕ, ◌≡◌, refl, true, false, none, some, List, [], ◌∷◌, arith}
use libfly.Malloc.{Memory}
use libfly.Thread.{Thread, state_letter, before_sleep, find_newline, skip_blanks}
use libfly.Worker.{Answers, WorkerThread, Worker, ThreadState, work_available, worker_update}
use libfly.Worker.Update.{worker_update-work_available}
use libfly.Worker.Exit.{
  Event, own, wake, request, starting, asleep, returned, run, exit_lost, exit_returns,
}

abbrev thread : Thread
thread = record { func = 1; param = 2; state = 2; fd = none }

abbrev with_posts : (sem : ℕ) → WorkerThread
with_posts sem = record { thread = thread; sem = sem; tstate = ThreadState.running; begun = true }

abbrev main_blocked : Worker
main_blocked = record { mthread = with_posts 0; bthread = with_posts 2; mblocked = 1; bblocked = 0 }

-- The semaphore of the backup thread cannot be had.
abbrev good : Answers
good = record { attr_ok = true; sem = 0; create = 0; begins = true }

abbrev no_sem : Answers
no_sem = record { attr_ok = true; sem = 22; create = 0; begins = true }

abbrev memory : Memory
memory = record { answers = true ∷ true ∷ []; live = 5 }

-- A status file of a process called `a`, with letter `S`; and the two threads of `main_blocked`.
abbrev status : List ℕ
status =
    b'N' ∷ b'a' ∷ b'm' ∷ b'e' ∷ b':' ∷ b'a' ∷ 0x0a ∷ b'S' ∷ b't' ∷ b'a' ∷ b't' ∷ b'e' ∷ b':' ∷ 0x09
    ∷ b'S' ∷ []

status_letter : state_letter status ≡ some b'S'
unfolding state_letter find_newline skip_blanks
status_letter = refl

abbrev main_waits : Worker
main_waits = record main_blocked {
  mthread = record (with_posts 0) { thread = before_sleep thread };
}

worker_update-work_available_example :
    (w' : Worker) × (worker_update (some status) (some status) main_waits ≡ some w')
    × ((work_available w').mthread.sem ≡ 1)
    × ((work_available w').bthread.sem ≡ 2)
unfolding before_sleep
worker_update-work_available_example =
    worker_update-work_available status status b'S' b'S' main_waits status_letter status_letter
      (omega arith) (omega arith)

abbrev events : List Event
events = own true ∷ wake ∷ own false ∷ own true ∷ []

exit_lost_example :
    (run events (record (with_posts 1) { tstate = ThreadState.exiting }) starting).1 ≡ starting
exit_lost_example = exit_lost events (record (with_posts 1) { tstate = ThreadState.exiting }) refl

exit_returns_example : (run (request ∷ events) (with_posts 0) asleep).1 ≡ returned
exit_returns_example = exit_returns events (with_posts 0) asleep (λ e. cc) (omega arith)
