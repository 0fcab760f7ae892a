-- ===== src/Sched/Start/Balance.antt =====
-- The memory that the workers and the thread of src/fly_sched.c take, where the threads of the workers
-- begin.
use Prim.Native.Nat.{bit_or}
use libfly.Prelude.{
  ℕ, zero, suc, ◌+◌, ◌≤◌, ◌<◌, ◌≡◌, refl, ◌≢◌, ◌⊎◌, inl, inr, Option, some, true, List, [], ◌∷◌,
  ◌++◌, arith, ◌==◌, length, length-append, Bool-cases,
}
use libfly.Malloc.{Memory, malloc, free}
use libfly.Thread.{Thread, running, thread_init, thread_begin, thread_uninit}
use libfly.Worker.{Worker, worker_init, worker_start}
use libfly.Worker.Life.{
  Balanced, Begun, Begin, malloc-cases, thread_init-Balanced, worker_init-Balanced,
  worker_start-Begun, worker_uninit-Begun,
}
use libfly.Sched.Start.{
  SchedAnswers, cleared, start_workers, stop_workers, workers_uninit, workers_init,
  sched_thread_init,
}

-- Every thread of a worker is made, and reads that it runs before it is asked to exit.
abbrev pub Begins : SchedAnswers → Type 0
Begins os = (i : ℕ) → Begin (os.workers i).0 (os.workers i).1

-- The threads of all these workers can be joined.
abbrev pub AllBegun : List Worker → Type 0
AllBegun [] = Unit
AllBegun (w ∷ ws) = Begun w × AllBegun ws

AllBegun-snoc : (ws : List Worker) (w : Worker) → AllBegun ws → Begun w → AllBegun (ws ++ w ∷ [])
AllBegun-snoc [] w all last = (last, tt)
AllBegun-snoc (x ∷ ws) w all last = (all.0, AllBegun-snoc ws w all.1 last)

-- What the loop leaves: all workers started, or fewer and an error; two blocks for each that it counts.
record Started (left : ℕ) (ws : List Worker) (m : Memory) (out : Option (ℕ × List Worker × Memory))
    : Type 0 where
  err : ℕ
  ready : List Worker
  memory : Memory
  runs : out ≡ some (err, ready, memory)
  begun : AllBegun ready
  count :
      ((err ≡ 0) × (length ready ≡ length ws + left))
      ⊎ ((err ≢ 0) × (length ready < length ws + left))
  more : length ws ≤ length ready
  live : memory.live + (length ws + length ws) ≡ m.live + (length ready + length ready)

start_workers-Started :
    (left i : ℕ) (os : SchedAnswers) (ws : List Worker) (m : Memory)
    → Begins os
    → AllBegun ws
    → Started left ws m (start_workers left i os ws m)
unfolding start_workers
start_workers-Started zero i os ws m begins all = record {
  err = 0;
  ready = ws;
  memory = m;
  runs = refl;
  begun = all;
  count = inl (refl, omega arith);
  more = omega arith;
  live = refl;
}
start_workers-Started (suc left) i os ws m begins all =
    let main = (os.workers i).0 in
    let backup = (os.workers i).1 in
    let made = worker_init main backup os.worker_func i cleared m in
    let balance = worker_init-Balanced main backup os.worker_func i cleared m in
    let starts = worker_start-Begun main backup made.1 (begins i) in
    let w' = (worker_start main backup made.1).1 in
    let rest =
      start_workers-Started left (i + 1) os (ws ++ w' ∷ []) made.2 begins
        (AllBegun-snoc ws w' all starts.1) in
    let longer = length-append ws (w' ∷ []) in
    elim (Bool-cases (made.0 == 0)) [
      | inl made_ok ↦ record {
        err = rest.err;
        ready = rest.ready;
        memory = rest.memory;
        runs = rw (made_ok, starts.0) rest.runs;
        begun = rest.begun;
        count = ground (arith, rest.count, longer);
        more = omega (arith, rest.more, longer);
        live = ground (arith, rest.live, balance, longer);
      }
      | inr not_made ↦ record {
        err = made.0;
        ready = ws;
        memory = made.2;
        runs = rw not_made refl;
        begun = all;
        count = ground arith;
        more = omega arith;
        live = ground (arith, balance);
      }
    ]

stop_workers-live :
    (err : ℕ) (ws : List Worker) (m : Memory)
    → AllBegun ws
    → length ws + length ws ≤ m.live
    → (out : ℕ × Memory) × (stop_workers err ws m ≡ some out)
      × (out.1.live + (length ws + length ws) ≡ m.live)
unfolding stop_workers free
stop_workers-live err [] m all h = ((err, m), refl, omega arith)
stop_workers-live err (w ∷ ws) m all h =
    let m1 = free (free m) in
    let fewer : m1.live + 2 ≡ m.live = omega arith in
    let (out, runs, live) = stop_workers-live (bit_or err 0) ws m1 all.1 (omega (arith, fewer)) in
    (out, rw (worker_uninit-Begun w m all.0) runs, omega (arith, live, fewer))

pub workers_uninit-live :
    (ws : List Worker) (m : Memory)
    → AllBegun ws
    → length ws + length ws + 1 ≤ m.live
    → (out : ℕ × Memory) × (workers_uninit ws m ≡ some out)
      × (out.1.live + (length ws + length ws + 1) ≡ m.live)
unfolding workers_uninit free
workers_uninit-live ws m all h =
    let (out, runs, live) = stop_workers-live 0 ws m all (omega arith) in
    ((out.0, free out.1), rw runs refl, omega (arith, live))

-- The array and two blocks a worker, or nothing.
pub record WorkersReady (n : ℕ) (m : Memory) (out : Option (ℕ × List Worker × Memory))
    : Type 0 where
  pub err : ℕ
  pub workers : List Worker
  pub memory : Memory
  pub runs : out ≡ some (err, workers, memory)
  pub balance : Balanced (n + n + 1) err m memory
  pub begun : AllBegun workers
  pub all : err ≡ 0 → length workers ≡ n

pub workers_init-live :
    (n : ℕ) (os : SchedAnswers) (m : Memory) → Begins os → WorkersReady n m (workers_init n os m)
unfolding workers_init
workers_init-live n os m begins =
    let started = start_workers-Started n 0 os [] (malloc m).1 begins tt in
    elim (malloc-cases m) [
      | inl (got, live) ↦ elim (Bool-cases (length started.ready == n)) [
        | inl all ↦ record {
          err = started.err;
          workers = started.ready;
          memory = started.memory;
          runs = rw (got, started.runs, all) refl;
          balance = ground (arith, started.count, started.live, live);
          begun = started.begun;
          all = λ ok. ground arith;
        }
        | inr fewer ↦
            let (out, runs, given) =
              workers_uninit-live started.ready started.memory started.begun
                (omega (arith, started.live, live)) in
            record {
              err = started.err;
              workers = started.ready;
              memory = out.1;
              runs = rw (got, started.runs, fewer, runs) refl;
              balance = ground (arith, started.count, started.live, live, given);
              begun = started.begun;
              all = λ ok. ground (arith, started.count);
            }
      ]
      | inr (refused, live) ↦ record {
        err = 1;
        workers = [];
        memory = (malloc m).1;
        runs = rw refused refl;
        balance = inr (ground arith, live);
        begun = tt;
        all = λ ok. absurd (ground arith);
      }
    ]

-- The thread of the scheduler runs.
abbrev pub Runs : Option Thread → Type 0
Runs thread = (t : Thread) × (thread ≡ some t) × ((t.state == running) ≡ true)

pub sched_thread_init-live :
    (os : SchedAnswers) (m : Memory)
    → Balanced 2 (sched_thread_init os m).0 m (sched_thread_init os m).2
unfolding sched_thread_init thread_uninit free
sched_thread_init-live os m = ground (
  arith,
  malloc-cases m,
  thread_init-Balanced os.thread.attr_ok os.sched_func 0 os.garbage (malloc m).1,
)

pub sched_thread_init-Runs :
    (os : SchedAnswers) (m : Memory)
    → (sched_thread_init os m).0 ≡ 0
    → Runs (sched_thread_init os m).1
unfolding sched_thread_init thread_begin
sched_thread_init-Runs os m =
    let made = thread_init os.thread.attr_ok os.sched_func 0 os.garbage (malloc m).1 in
    elim (Bool-cases ((malloc m).0)) [
      | inl got ↦ elim (Bool-cases (made.0 == 0)) [
        | inl ok ↦ elim (Bool-cases (os.thread.create == 0)) [
          | inl created ↦ rw (got, ok, created) (λ _. (thread_begin os.fd made.1, refl, refl))
          | inr failed ↦ rw (got, ok, failed) (λ e. absurd (ground arith))
        ]
        | inr failed ↦ rw (got, failed) (λ e. absurd (ground arith))
      ]
      | inr refused ↦ rw refused (λ e. absurd (ground arith))
    ]
