-- ===== src/Client/Refused.antt =====
-- `fly_push_task` of src/fly.c where the scheduler has no memory for the job.
use libfly.Prelude.{
  ℕ, ◌+◌, ◌≡◌, refl, ap, ◌∙◌, Bool, true, false, none, some, List, [], ◌∷◌, arith, change,
  change_at,
}
use libfly.Errors.{no_resources}
use libfly.Malloc.{malloc, free}
use libfly.Job.{Job, JobState, task, create_job_task, new_job, destroy_job, free_batches}
use libfly.Sched.{Sched, set_job}
use libfly.Sched.Adding.{add_job-task_refused}
use libfly.Client.{returns, push_task, push_job, add_job_and_wait, add_from, destroy_at}

module _ (fresh t : ℕ) (s : Sched) (rest : List Bool) where
  abbrev pushed : Job
  pushed = record (s.jobs fresh) {
    batches = [];
    nbbatches = 1;
    batches_done = 0;
    func = (s.tasks t).func;
    arg = t;
    jtype = task;
    recurse = 0;
    state = JobState.idle;
    sem = 0;
  }

  -- The scheduler with the new job, before it is added.
  abbrev with_job : List Bool → Sched
  with_job answers = record s {
    jobs = change s.jobs fresh pushed;
    tasks = change s.tasks t (record (s.tasks t) { sched_data = fresh });
    mem = record { answers = answers; live = s.mem.live + 1 };
  }

  created :
      s.mem.answers ≡ true ∷ false ∷ rest
      → create_job_task true (s.jobs fresh) (s.tasks t).func t s.mem
        ≡ (some pushed, record { answers = false ∷ rest; live = s.mem.live + 1 })
  unfolding create_job_task new_job malloc
  created answers = rw answers

  refused :
      (apply : (func param : ℕ) → ℕ)
      → add_job_and_wait apply 0 true none fresh false (with_job (false ∷ rest))
        ≡ returns (no_resources, with_job rest)
  unfolding add_job_and_wait add_from
  refused apply = rw (
      add_job-task_refused fresh (with_job (false ∷ rest)) rest
        (ap (λ (x : Job). x.jtype) (change_at s.jobs fresh pushed)) refl)

  destroyed : (destroy_at fresh (with_job rest)).mem.live ≡ s.mem.live
  unfolding destroy_at destroy_job free_batches free
  destroyed =
      ap (λ (x : Job). (free (free_batches x.batches (with_job rest).mem)).live)
        (change_at s.jobs fresh pushed)
      ∙ omega arith

-- A task that a client thread pushes, where the job can be had but not its cell in the ready list:
-- the result is `FLYENORES`, the ready and the running list do not change and all memory is given
-- back, but the task still points to the job, which is destroyed.
pub push_task-refused :
    (apply : (func param : ℕ) → ℕ) (fresh t : ℕ) (s : Sched) (rest : List Bool)
    → s.mem.answers ≡ true ∷ false ∷ rest
    → (s' : Sched) × (push_task apply true none fresh t s ≡ returns (no_resources, s'))
      × (s'.ready_jobs ≡ s.ready_jobs)
      × (s'.running_jobs ≡ s.running_jobs)
      × (s'.mem.live ≡ s.mem.live)
      × ((s'.tasks t).sched_data ≡ fresh)
unfolding push_task push_job set_job
push_task-refused apply fresh t s rest answers = (
  destroy_at fresh (with_job fresh t s rest rest),
  rw (created fresh t s rest answers) (rw (refused fresh t s rest apply)),
  unfold destroy_at in refl,
  unfold destroy_at in refl,
  destroyed fresh t s rest,
  unfold destroy_at in ap (λ x. x.sched_data) (change_at s.tasks t _),
)
