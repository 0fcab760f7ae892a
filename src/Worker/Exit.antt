-- ===== src/Worker/Exit.antt =====
-- The function of a worker's thread, `fly_worker_thread_func` of src/fly_worker.c, while others start
-- the worker, wake it and ask it to exit.
use mathlib.Core.Path.{subst}
use libfly.Prelude.{
  ℕ, zero, suc, ◌-◌, ◌≤◌, ◌<◌, ◌≡◌, ◌≢◌, refl, sym, ap, ◌∙◌, Bool, true, false, List, [], ◌∷◌,
  arith, if◌then◌else◌,
}
use libfly.Worker.{WorkerThread, ThreadState, worker_thread_request_exit, thread_work_available}

-- Where the thread stands.
pub data Pc : Type 0 where
  starting : Pc  -- `while (wt->tstate != FLY_WORKER_RUNNING)`
  looping : Pc  -- `while (wt->tstate == FLY_WORKER_RUNNING)`
  scheduling : Pc  -- in `fly_schedule`
  asleep : Pc  -- in `fly_worker_thread_wait_work`, at the end of `fly_schedule`
  returned : Pc  -- the function has returned

unfoldable pub on_start : ThreadState → Pc
on_start ThreadState.running = looping
on_start ThreadState.idle = starting
on_start ThreadState.exiting = starting
on_start ThreadState.finished = starting

unfoldable pub on_loop : ThreadState → WorkerThread → WorkerThread × Pc
on_loop ThreadState.running t = (t, scheduling)
on_loop ThreadState.idle t = (record t { tstate = ThreadState.finished }, returned)
on_loop ThreadState.exiting t = (record t { tstate = ThreadState.finished }, returned)
on_loop ThreadState.finished t = (record t { tstate = ThreadState.finished }, returned)

-- `sem_wait`: without a post the thread stays where it is.
unfoldable pub on_sem : ℕ → WorkerThread → WorkerThread × Pc
on_sem zero t = (t, asleep)
on_sem (suc n) t = (record t { sem = n }, looping)

-- The next step of the thread. `sleepy` says whether `fly_schedule` ends by waiting for work.
unfoldable pub turn : (sleepy : Bool) → WorkerThread → Pc → WorkerThread × Pc
unfolding on_start on_loop on_sem
turn sleepy t starting = (t, on_start t.tstate)
turn sleepy t looping = on_loop t.tstate t
turn sleepy t scheduling = (t, if sleepy then asleep else looping)
turn sleepy t asleep = on_sem t.sem t
turn sleepy t returned = (t, returned)

-- The thread's own step, and what other threads do to it: `fly_worker_thread_work_available` and
-- `fly_worker_thread_request_exit`.
pub data Event : Type 0 where
  own : (sleepy : Bool) → Event
  wake request : Event

unfoldable pub after : Event → WorkerThread → Pc → WorkerThread × Pc
unfolding turn thread_work_available worker_thread_request_exit
after (own sleepy) t p = turn sleepy t p
after wake t p = (thread_work_available t, p)
after request t p = (worker_thread_request_exit t, p)

unfoldable pub run : List Event → WorkerThread → Pc → WorkerThread × Pc
unfolding after
run [] t p = (t, p)
run (e ∷ es) t p = let (t', p') = after e t p in run es t' p'

-- The number of steps that the thread itself makes.
abbrev pub owns : List Event → ℕ
owns [] = 0
owns (own sleepy ∷ es) = suc (owns es)
owns (wake ∷ es) = owns es
owns (request ∷ es) = owns es

-- A thread that is asked to exit before it has left its first loop stays in that loop, whatever
-- number of steps, wake-ups and requests follow, so that `fly_worker_wait` never joins it.
pub exit_lost :
    (es : List Event) (t : WorkerThread)
    → t.tstate ≡ ThreadState.exiting
    → (run es t starting).1 ≡ starting
unfolding run on_start
exit_lost [] t e = refl
exit_lost (own sleepy ∷ es) t e = ap (λ st. (run es t (on_start st)).1) e ∙ exit_lost es t e
exit_lost (wake ∷ es) t e = exit_lost es (thread_work_available t) e
exit_lost (request ∷ es) t e = exit_lost es (worker_thread_request_exit t) refl

-- The steps that a thread has still to make once it is asked to exit.
abbrev pub steps_left : Pc → ℕ
steps_left starting = 0
steps_left looping = 1
steps_left asleep = 2
steps_left scheduling = 3
steps_left returned = 0

-- The thread has left its first loop and was asked to exit, with a post that it has not used.
record Leaving (t : WorkerThread) (p : Pc) : Type 0 where
  begun : p ≢ starting
  asked : 0 < steps_left p → t.tstate ≡ ThreadState.exiting
  posted : 1 < steps_left p → 0 < t.sem

-- What one step of the thread makes of that.
record Left (before : Pc) (t : WorkerThread) (p : Pc) : Type 0 where
  leaving : Leaving t p
  fewer : steps_left p ≤ steps_left before - 1

own-Left :
    (sleepy : Bool) (t : WorkerThread) (p : Pc)
    → Leaving t p
    → Left p (turn sleepy t p).0 (turn sleepy t p).1
unfolding turn on_loop on_sem
own-Left sleepy t starting h = absurd (h.begun refl)
own-Left sleepy t looping h =
    let e : t.tstate ≡ ThreadState.exiting = h.asked (omega arith) in
    subst (λ out. Left looping out.0 out.1) (ap (λ st. on_loop st t) (sym e))
      (record {
        leaving = record {
          begun = λ q. cc;
          asked = λ q. absurd (omega arith);
          posted = λ q. absurd (omega arith);
        };
        fewer = omega arith;
      })
own-Left true t scheduling h = record {
  leaving = record {
    begun = λ q. cc;
    asked = λ q. h.asked (omega arith);
    posted = λ q. h.posted (omega arith);
  };
  fewer = omega arith;
}
own-Left false t scheduling h = record {
  leaving = record {
    begun = λ q. cc;
    asked = λ q. h.asked (omega arith);
    posted = λ q. absurd (omega arith);
  };
  fewer = omega arith;
}
own-Left sleepy t asleep h =
    let e : t.sem ≡ suc (t.sem - 1) = omega (arith, h.posted (omega arith)) in
    subst (λ out. Left asleep out.0 out.1) (ap (λ count. on_sem count t) (sym e))
      (record {
        leaving = record {
          begun = λ q. cc;
          asked = λ q. h.asked (omega arith);
          posted = λ q. absurd (omega arith);
        };
        fewer = omega arith;
      })
own-Left sleepy t returned h = record { leaving = h; fewer = omega arith }

returns-Leaving :
    (es : List Event) (t : WorkerThread) (p : Pc)
    → Leaving t p
    → steps_left p ≤ owns es
    → (run es t p).1 ≡ returned
unfolding run
returns-Leaving [] t starting h enough = absurd (h.begun refl)
returns-Leaving [] t looping h enough = absurd (omega arith)
returns-Leaving [] t scheduling h enough = absurd (omega arith)
returns-Leaving [] t asleep h enough = absurd (omega arith)
returns-Leaving [] t returned h enough = refl
returns-Leaving (own sleepy ∷ es) t p h enough =
    let l = own-Left sleepy t p h in
    returns-Leaving es (turn sleepy t p).0 (turn sleepy t p).1 l.leaving (omega (arith, l.fewer))
returns-Leaving (wake ∷ es) t p h enough =
    returns-Leaving es (thread_work_available t) p
      (record {
        begun = h.begun;
        asked = h.asked;
        posted = λ q. unfold thread_work_available in omega arith;
      })
      enough
returns-Leaving (request ∷ es) t p h enough =
    returns-Leaving es (worker_thread_request_exit t) p
      (record {
        begun = h.begun;
        asked = λ q. refl;
        posted = λ q. unfold worker_thread_request_exit in omega arith;
      })
      enough

-- A thread that has left its first loop and is then asked to exit has returned once it has made three
-- steps of its own, however often it is woken or asked again in between, and whether or not it was
-- about to sleep.
pub exit_returns :
    (es : List Event) (t : WorkerThread) (p : Pc)
    → p ≢ starting
    → 3 ≤ owns es
    → (run (request ∷ es) t p).1 ≡ returned
unfolding run worker_thread_request_exit
exit_returns es t p begun enough =
    returns-Leaving es (worker_thread_request_exit t) p
      (record { begun = begun; asked = λ q. refl; posted = λ q. omega arith })
      (omega (arith, at_most_three p))
  where
    at_most_three : (q : Pc) → steps_left q ≤ 3
    at_most_three starting = omega arith
    at_most_three looping = omega arith
    at_most_three scheduling = omega arith
    at_most_three asleep = omega arith
    at_most_three returned = omega arith
