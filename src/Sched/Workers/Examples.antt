-- ===== src/Sched/Workers/Examples.antt =====
-- Two threads and a parallel for of one call: thread 0 runs it and posts, thread 1 posts again.
use libfly.Prelude.{weigh, ℕ, ◌≡◌, refl, true, false, some, [], ◌∷◌, map, arith, change}
use libfly.Prelude.Int.{pos, ◌-ℤ◌, int_sub, to_int, ◌+ℤ◌, ◌*ℤ◌, mod_ℤ, range}
use libfly.Errors.{success}
use libfly.Malloc.{Memory, malloc}
use libfly.Job.{
  Job, Batch, JobState, make_batches, batches_loop, batch_size, add_batch, extend_last,
  get_exec_batch,
}
use libfly.Job.Examples.{calls_of, roomy}
use libfly.Sched.{Call, for_call}
use libfly.Sched.Calls.{ptr_call}
use libfly.Sched.Run.{ptr_loop, ptr_calls}
use libfly.Sched.Drain.{job_calls}
use libfly.Sched.Workers.{
  Shared, outside, calling, checking, completing, turn, take, System, run, Reach, here, later,
}
use libfly.Sched.Workers.Once.{parallel_for-exactly_once}

abbrev only : Batch
only = record { start = pos 0; end = pos 1; execed = true }

abbrev one_call : Job
one_call = record (calls_of 1) {
  batches = record { start = pos 0; end = pos 1; execed = false } ∷ [];
  nbbatches = 1;
  state = JobState.ready;
}

abbrev left : Memory
left = record { answers = true ∷ true ∷ true ∷ true ∷ []; live = 3 }

cut_once : make_batches (calls_of 1) 1 roomy ≡ some (success, one_call, left)
unfolding make_batches batches_loop batch_size add_batch extend_last malloc int_sub to_int ◌-ℤ◌
    mod_ℤ ◌+ℤ◌ ◌*ℤ◌
cut_once = refl

abbrev the_call : Call
the_call = for_call 100 (pos 0) (pos 200)

abbrev taken : Shared
taken = record { batches = only ∷ []; batches_done = 0; sem = 0; calls = [] }

abbrev called : Shared
called = record taken { calls = the_call ∷ [] }

abbrev counted : Shared
counted = record called { batches_done = 1 }

abbrev posted : System
posted = record {
  shared = record counted { sem = 1 };
  pc =
      change
        (change
          (change (change (change (λ _. outside) 0 (calling (the_call ∷ []))) 0 (calling [])) 0
            checking)
          0 completing)
        0 outside;
}

posted-Reach : Reach 2 one_call posted
unfolding turn take change get_exec_batch job_calls ptr_calls ptr_loop ◌-ℤ◌ ◌+ℤ◌
posted-Reach =
    later
      (later
        (later
          (later (later here (run 0 {l = taken} {p = calling (the_call ∷ [])} (omega arith) refl))
            (run 0 {l = called} {p = calling []} (omega arith) refl))
          (run 0 {l = counted} {p = checking} (omega arith) refl))
        (run 0 {l = counted} {p = completing} (omega arith) refl))
      (run 0 {l = posted.shared} {p = outside} (omega arith) refl)

one_each : Call → ℕ
one_each c = 1

parallel_for-exactly_once_example :
    weigh one_each (the_call ∷ []) ≡ weigh one_each (map (ptr_call one_call) (range (pos 0) 1))
unfolding ◌-ℤ◌
parallel_for-exactly_once_example =
    parallel_for-exactly_once (calls_of 1) one_call 1 1 roomy left cut_once refl (refl, omega arith)
      (omega arith) tt (omega arith) {n = 2} {s = posted} one_each refl posted-Reach (omega arith)
