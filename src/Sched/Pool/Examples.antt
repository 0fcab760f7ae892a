-- ===== src/Sched/Pool/Examples.antt =====
-- One worker, a parallel for of one call (job 1) and a task (job 2): both are added, both threads are
-- woken, thread 0 runs both jobs, and both threads go to sleep.
use libfly.Prelude.{
  ℕ, zero, suc, ◌+◌, ◌<◌, ◌≤◌, ◌≡◌, ◌≢◌, refl, Bool, true, false, some, List, [], ◌∷◌, map, arith,
  change, weigh, total, ◌==◌, if◌then◌else◌, Bool-cases, inl, inr, length,
}
use libfly.Prelude.Int.{pos, ◌-ℤ◌, int_sub, to_int, ◌+ℤ◌, ◌*ℤ◌, mod_ℤ, range}
use libfly.Errors.{success}
use libfly.FlyList.View.{erase, pop_back}
use libfly.Malloc.{Memory, malloc}
use libfly.Job.{
  Job, JobState, task, make_batches, batches_loop, batch_size, add_batch, extend_last,
  get_exec_batch,
}
use libfly.Job.Examples.{calls_of, roomy}
use libfly.Sched.{Task, Call, task_call, is_for}
use libfly.Sched.Calls.{ptr_call}
use libfly.Sched.Drain.{job_calls, all_calls}
use libfly.Sched.Run.{ptr_loop, ptr_calls, running_loop}
use libfly.Sched.Workers.{turn, take, outside}
use libfly.Sched.Pool.{
  Pool, executing, waiting, act, start, Reach, here, later, add, wake_up, run, search, move, look,
  enter, call, check, post, wake,
}
use libfly.Sched.Pool.Counts.{times, moves, inside, ends}
use libfly.Sched.Pool.Ready.{IsAsleep, asleep-none_ready}
use libfly.Sched.Pool.Places.{one_place}
use libfly.Sched.Pool.Kept.{never_lost}
use libfly.Sched.Pool.Someone.{IsCut}
use libfly.Sched.Pool.Awake.{open-somebody_awake}
use libfly.Sched.Pool.TaskOnly.{Only, task_posted-its_calls}
use libfly.Sched.Pool.Quiet.{Quiet, quiet-all_run, quiet-task_posted}
use libfly.Sched.Pool.Onward.{Steps}
use libfly.Sched.Pool.Settle.{settles}
use libfly.Sched.Pool.Once.{pool-exactly_once}

abbrev the_loop : Job
the_loop = record (calls_of 1) {
  batches = record { start = pos 0; end = pos 1; execed = false } ∷ [];
  nbbatches = 1;
  state = JobState.ready;
}

abbrev the_task : Job
the_task = record the_loop { jtype = task; arg = 3 }

abbrev jobs : ℕ → Job
jobs j = if j == 2 then the_task else the_loop

abbrev tasks : ℕ → Task
tasks _ = record { func = 7; param = 8; result = 0; sched_data = 2 }

-- The threads take their steps in this order: `true` is thread 1.
abbrev runs : List Bool → Pool → Pool
runs [] s = s
runs (false ∷ is) s = runs is (act jobs tasks true 0 (s.pc 0) s)
runs (true ∷ is) s = runs is (act jobs tasks true 1 (s.pc 1) s)

runs-Reach :
    (is : List Bool) {s : Pool} → Reach jobs tasks 1 true s → Reach jobs tasks 1 true (runs is s)
runs-Reach [] r = r
runs-Reach (false ∷ is) r = runs-Reach is (later r (run true 0 (omega arith) (λ _. refl)))
runs-Reach (true ∷ is) r = runs-Reach is (later r (run true 1 (omega arith) (λ _. refl)))

-- Both jobs are added, and both threads are posted.
abbrev woken : Pool
woken = record (start jobs tasks) {
  ready_jobs = 1 ∷ 2 ∷ [];
  added = change (change (λ _. false) 1 true) 2 true;
  pending = change (change (λ _. 2) 0 1) 0 0;
  sem = change (change (λ _. 0) 0 1) 1 1;
}

woken-Reach : Reach jobs tasks 1 true woken
unfolding change
woken-Reach =
    later
      (later
        (later (later here (add 1 (λ e. absurd (omega (arith, e))) refl refl))
          (add 2 (λ e. absurd (omega (arith, e))) refl refl))
        (wake_up 0 0 (omega arith) (omega arith) (inl refl)))
      (wake_up 0 1 (omega arith) (omega arith) (inr refl))

-- Thread 0 has run the task and is at the call of the parallel for.
abbrev at_call : List Bool
at_call = false ∷ false ∷ false ∷ false ∷ false ∷ false ∷ false ∷ false ∷ false ∷ []

abbrev to_sleep : List Bool
to_sleep =
    false ∷ false ∷ false ∷ false ∷ false ∷ false ∷ false ∷ false ∷ false ∷ false ∷ false ∷ false
    ∷ true ∷ true ∷ true ∷ true ∷ true ∷ []

abbrev calling_it : Pool
calling_it = runs at_call woken

abbrev asleep : Pool
asleep = runs to_sleep calling_it

calling_it-Reach : Reach jobs tasks 1 true calling_it
calling_it-Reach = runs-Reach at_call woken-Reach

asleep-Reach : Reach jobs tasks 1 true asleep
asleep-Reach = runs-Reach to_sleep calling_it-Reach

both_asleep : (i : ℕ) → i < 2 → IsAsleep asleep i
unfolding act search move look enter call check post wake change get_exec_batch job_calls ptr_calls
    ptr_loop turn take running_loop erase pop_back ◌-ℤ◌ ◌+ℤ◌
both_asleep zero lt = (refl, refl)
both_asleep (suc zero) lt = (refl, refl)
both_asleep (suc (suc i)) lt = absurd (omega arith)

none_pending : (w : ℕ) → w < 1 → asleep.pending w ≡ 0
unfolding act search move look enter call check post wake change get_exec_batch job_calls ptr_calls
    ptr_loop turn take running_loop erase pop_back ◌-ℤ◌ ◌+ℤ◌
none_pending zero lt = refl
none_pending (suc w) lt = absurd (omega arith)

asleep-Quiet : Quiet 1 asleep
asleep-Quiet = record { asleep = both_asleep; no_pending = none_pending }

all-IsCut : (j : ℕ) → is_for (jobs j) ≡ true → IsCut (jobs j)
all-IsCut j loops = elim (Bool-cases (j == 2)) [
  | inl is_two ↦ rw is_two ((refl, tt), refl, omega arith)
  | inr other ↦ rw other ((refl, tt), refl, omega arith)
]

loop_posted : 0 < (asleep.shared 1).sem
unfolding act search move look enter call check post wake change get_exec_batch job_calls ptr_calls
    ptr_loop turn take running_loop erase pop_back ◌-ℤ◌ ◌+ℤ◌
loop_posted = omega arith

task_posted : 0 < (asleep.shared 2).sem
unfolding act search move look enter call check post wake change get_exec_batch job_calls ptr_calls
    ptr_loop turn take running_loop erase pop_back ◌-ℤ◌ ◌+ℤ◌
task_posted = omega arith

asleep-none_ready_example : asleep.ready_jobs ≡ []
asleep-none_ready_example =
    asleep-none_ready jobs tasks {nbworkers = 1} {s = asleep} 0 (omega arith) asleep-Reach
      (both_asleep 0 (omega arith)) (both_asleep 1 (omega arith)) (none_pending 0 (omega arith))

one_place_example :
    (times 1 calling_it.ready_jobs
        + total (moves 1) 2 calling_it.pc
        + times 1 calling_it.running_jobs
      ≤ 1)
    × (0 < times 1 calling_it.ready_jobs + total (moves 1) 2 calling_it.pc
        → total (inside 1) 2 calling_it.pc ≡ 0)
    × (calling_it.added 1 ≡ false → total (inside 1) 2 calling_it.pc ≡ 0)
one_place_example = one_place jobs tasks {nbworkers = 1} 1 {s = calling_it} calling_it-Reach

never_lost_example :
    0
    < times 1 calling_it.ready_jobs
      + total (moves 1) 2 calling_it.pc
      + times 1 calling_it.running_jobs
      + total (ends 1) 2 calling_it.pc
      + (calling_it.shared 1).sem
unfolding act search move look enter call check post wake change get_exec_batch job_calls ptr_calls
    ptr_loop turn take running_loop erase pop_back ◌-ℤ◌ ◌+ℤ◌
never_lost_example =
    never_lost jobs tasks {nbworkers = 1} 1 refl {s = calling_it} calling_it-Reach refl

open-somebody_awake_example : (i : ℕ) × (i < 2) × (calling_it.pc i ≢ waiting)
unfolding act search move look enter call check post wake change get_exec_batch job_calls ptr_calls
    ptr_loop turn take running_loop erase pop_back ◌-ℤ◌ ◌+ℤ◌ weigh
open-somebody_awake_example =
    open-somebody_awake jobs tasks {nbworkers = 1} all-IsCut {s = calling_it} 1 refl
      calling_it-Reach (omega arith) (λ e. absurd (omega (arith, e)))

task_posted-its_calls_example :
    (0 < length (asleep.shared 2).calls) × Only (task_call 7 8) (asleep.shared 2).calls
task_posted-its_calls_example =
    task_posted-its_calls jobs tasks {nbworkers = 1} 2 refl {s = asleep} asleep-Reach task_posted

one_each : Call → ℕ
one_each c = 1

quiet-all_run_example :
    (0 < (asleep.shared 1).sem)
    × (weigh one_each (asleep.shared 1).calls
        ≡ weigh one_each (all_calls (jobs 1) (jobs 1).batches))
unfolding act search move look enter call check post wake change get_exec_batch job_calls ptr_calls
    ptr_loop turn take running_loop erase pop_back ◌-ℤ◌ ◌+ℤ◌
quiet-all_run_example =
    quiet-all_run jobs tasks {nbworkers = 1} {s = asleep} (omega arith) asleep-Quiet 1 one_each
      all-IsCut refl asleep-Reach refl

quiet-task_posted_example : 0 < (asleep.shared 2).sem
unfolding act search move look enter call check post wake change get_exec_batch job_calls ptr_calls
    ptr_loop turn take running_loop erase pop_back ◌-ℤ◌ ◌+ℤ◌
quiet-task_posted_example =
    quiet-task_posted jobs tasks {nbworkers = 1} {s = asleep} (omega arith) asleep-Quiet 2 refl
      asleep-Reach refl

abbrev left : Memory
left = record { answers = true ∷ true ∷ true ∷ true ∷ []; live = 3 }

cut_once : make_batches (calls_of 1) 1 roomy ≡ some (success, the_loop, left)
unfolding make_batches batches_loop batch_size add_batch extend_last malloc int_sub to_int ◌-ℤ◌
    mod_ℤ ◌+ℤ◌ ◌*ℤ◌
cut_once = refl

pool-exactly_once_example :
    weigh one_each (asleep.shared 1).calls
    ≡ weigh one_each (map (ptr_call the_loop) (range (pos 0) 1))
unfolding ◌-ℤ◌
pool-exactly_once_example =
    pool-exactly_once jobs tasks 1 (calls_of 1) 1 1 roomy left cut_once refl (refl, omega arith)
      (omega arith) tt (omega arith) refl {nbworkers = 1} {s = asleep} one_each asleep-Reach
      loop_posted

-- Thread 1 takes the parallel for from the running list, and still has it when it has been posted.
abbrev held : Pool
held = runs (true ∷ true ∷ false ∷ false ∷ false ∷ false ∷ false ∷ false ∷ false ∷ []) calling_it

test_held : (held.pc 1 ≡ executing false 1 outside) × ((held.shared 1).sem ≡ 1)
unfolding act search move look enter call check post wake change get_exec_batch job_calls ptr_calls
    ptr_loop turn take running_loop erase pop_back ◌-ℤ◌ ◌+ℤ◌
test_held = (refl, refl)

settles_example :
    (t : Pool) × Steps jobs tasks 1 woken t
    × Quiet 1 t
    × (t.added ≡ woken.added)
    × (0 < (t.shared 1).sem)
unfolding change
settles_example = settles jobs tasks 1 woken 1 all-IsCut (omega arith) woken-Reach refl
