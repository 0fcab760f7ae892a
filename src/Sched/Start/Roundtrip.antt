-- ===== src/Sched/Start/Roundtrip.antt =====
-- `fly_sched_init` of src/fly_sched.c in all its outcomes where the threads of the workers begin, and
-- `fly_sched_uninit` after it.
use mathlib.Core.Path.{subst}
use libfly.Prelude.{
  ℕ, ◌+◌, ◌≤◌, ◌≡◌, refl, ◌≢◌, ◌⊎◌, inl, inr, Option, none, some, [], arith, ◌==◌, length,
  Bool-cases, ap, ◌∙◌, sym,
}
use libfly.Malloc.{Memory, free}
use libfly.Mrswlock
use libfly.Thread.{Thread, thread_uninit, thread_wait}
use libfly.Sched.Start.{
  SchedAnswers, SchedVar, Locks, max_rlock, lock_init, init_locks, uninit_locks, clear_list,
  sched_thread_init, sched_thread_uninit, sched_init, sched_uninit, set_nbworkers, simple_init,
  fly_uninit,
}
use libfly.Sched.Start.Balance.{
  Begins, AllBegun, Runs, workers_init-live, workers_uninit-live, sched_thread_init-live,
  sched_thread_init-Runs,
}

abbrev pub no_locks : Locks
no_locks = record { ready = none; running = none; done = none }

abbrev pub all_locks : Locks
all_locks =
    let l = Mrswlock.init max_rlock in record { ready = some l; running = some l; done = some l }

-- The scheduler has started: its blocks are the array of workers, two for each worker, and two for
-- its own thread.
pub record IsStarted (before after : SchedVar) : Type 0 where
  pub locks : after.locks ≡ all_locks
  pub initialized : after.initialized ≡ 1
  pub workers : length after.workers ≡ before.nbworkers
  pub begun : AllBegun after.workers
  pub no_jobs : (after.ready_jobs ≡ []) × (after.running_jobs ≡ []) × (after.done_jobs ≡ [])
  pub thread : Runs after.thread
  pub live : after.mem.live ≡ before.mem.live + (before.nbworkers + before.nbworkers + 3)

-- The scheduler has not started, and holds nothing.
pub record IsStopped (before after : SchedVar) : Type 0 where
  pub locks : after.locks ≡ no_locks
  pub live : after.mem.live ≡ before.mem.live

-- `fly_sched_init` where every thread of a worker is made by `pthread_create` and reads that it runs
-- before it is asked to exit, whatever the allocator and the operating system answer else: it returns.
-- Either it returns success and the scheduler has its three locks, `nbworkers` workers whose threads
-- can be joined, three empty lists and its running thread, and holds two blocks for each worker and
-- three more, or it returns an error, no lock is left initialised and it holds the blocks that it held
-- before.
pub sched_init-cases :
    (os : SchedAnswers) (s : SchedVar)
    → Begins os
    → (err : ℕ) × (t : SchedVar) × (sched_init os s ≡ some (err, t))
      × (((err ≡ 0) × IsStarted s t) ⊎ ((err ≢ 0) × IsStopped s t))
unfolding sched_init init_locks lock_init uninit_locks
sched_init-cases os s begins =
    let made = workers_init-live s.nbworkers os s.mem begins in
    let thread = sched_thread_init os made.memory in
    let thread_live = sched_thread_init-live os made.memory in
    elim (Bool-cases (made.err == 0)) [
      | inl ok ↦
          let e : made.err ≡ 0 = ground arith in
          let n : length made.workers ≡ s.nbworkers = made.all e in
          let took : made.memory.live ≡ s.mem.live + (s.nbworkers + s.nbworkers + 1) =
            omega (arith, made.balance, e) in
          elim (Bool-cases (thread.0 == 0)) [
            | inl ok' ↦
                let e' : thread.0 ≡ 0 = ground arith in
                rw (made.runs, ok, ok')
                  (
                    _,
                    _,
                    refl,
                    inl (
                      e',
                      record {
                        locks = refl;
                        initialized = refl;
                        workers = n;
                        begun = made.begun;
                        no_jobs = (refl, refl, refl);
                        thread = sched_thread_init-Runs os made.memory e';
                        live = omega (arith, thread_live, e', took);
                      },
                    ),
                  )
            | inr failed ↦
                let f : thread.0 ≢ 0 = ground arith in
                let kept : thread.2.live ≡ made.memory.live = omega (arith, thread_live, f) in
                let (out, runs, given) =
                  workers_uninit-live made.workers thread.2 made.begun
                    (omega (arith, kept, took, n)) in
                rw (made.runs, ok, failed, runs)
                  (
                    _,
                    _,
                    refl,
                    inr (f, record { locks = refl; live = omega (arith, given, kept, took, n) }),
                  )
          ]
      | inr failed ↦
          let f : made.err ≢ 0 = ground arith in
          rw (made.runs, failed)
            (_, _, refl, inr (f, record { locks = refl; live = omega (arith, made.balance, f) }))
    ]

sched_thread_uninit-live :
    (thread : Option Thread) (m : Memory)
    → Runs thread
    → 2 ≤ m.live
    → (m' : Memory) × (sched_thread_uninit thread m ≡ some m') × (m'.live + 2 ≡ m.live)
unfolding sched_thread_uninit thread_wait thread_uninit free
sched_thread_uninit-live thread m (t, here, running) h =
    (free (free m), rw (here, running) refl, omega arith)

-- What a call that returned has returned.
abbrev pub returned : (err : ℕ) → SchedVar → Option (ℕ × SchedVar) → ℕ × SchedVar
returned err t none = (err, t)
returned err t (some out) = out

sched_init-uninit :
    (os : SchedAnswers) (s t : SchedVar)
    → Begins os
    → sched_init os s ≡ some (0, t)
    → (t' : SchedVar) × (sched_uninit t ≡ some (0, t')) × IsStopped s t'
unfolding sched_uninit clear_list uninit_locks
sched_init-uninit os s t begins ok =
    let (err, t1, runs, cases) = sched_init-cases os s begins in
    let same : some (err, t1) ≡ some (0, t) = sym runs ∙ ok in
    let same_err : err ≡ 0 = ap (λ out. (returned 0 t out).0) same in
    let same_state : t1 ≡ t = ap (λ out. (returned 0 t out).1) same in
    elim cases [
      | inl (e, started1) ↦
          let started : IsStarted s t = subst (IsStarted s) same_state started1 in
          let (m1, joined, one) =
            sched_thread_uninit-live t.thread t.mem started.thread (omega (arith, started.live)) in
          let (out, stopped, all) =
            workers_uninit-live t.workers m1 started.begun
              (omega (arith, one, started.live, started.workers)) in
          rw (joined, stopped, started.no_jobs.0, started.no_jobs.1, started.no_jobs.2)
            (
              _,
              refl,
              record {
                locks = refl;
                live = omega (arith, all, one, started.live, started.workers);
              },
            )
      | inr (f, stopped) ↦ absurd (f same_err)
    ]

-- A `fly_simple_init` that returns success, for any number of workers, where every thread of a worker
-- is made and reads that it runs before it is asked to exit, and `fly_uninit` right behind it:
-- `fly_uninit` joins all threads and returns success, no lock is left initialised, and as many blocks
-- are held as before.
pub simple_init-fly_uninit :
    (nb : ℕ) (os : SchedAnswers) (s t : SchedVar)
    → Begins os
    → simple_init nb os s ≡ some (0, t)
    → (t' : SchedVar) × (fly_uninit t ≡ some (0, t')) × IsStopped s t'
unfolding simple_init set_nbworkers fly_uninit
simple_init-fly_uninit nb os s t begins ok =
    let (t', runs, stopped) = sched_init-uninit os (record s { nbworkers = nb }) t begins ok in
    (t', runs, record { locks = stopped.locks; live = stopped.live })
