-- ===== src/Sched/Complete.antt =====
-- What the end of `fly_sched_exec_job` of src/fly_sched.c does to a job that is done, and a parallel
-- for whose batches have all run.
use libfly.Prelude.{ℕ, ◌+◌, ◌≡◌, refl, sym, ap, ◌∙◌, List, change_at, Bool-cases, inl, inr}
use libfly.FlyList.View.{erase, member, erase-absent}
use libfly.Job.{Job, JobState}
use libfly.Malloc.{Memory}
use libfly.Sched.{Sched, list_remove, remove_running, move_to_done, set_job}
use libfly.Sched.Run.{complete}

pub list_remove-erase : (xs : List ℕ) (j : ℕ) (m : Memory) → (list_remove xs j m).0 ≡ erase j xs
unfolding list_remove
list_remove-erase xs j m = elim (Bool-cases (member j xs)) [
  | inl found ↦ rw found
  | inr absent ↦ rw absent (sym (erase-absent j xs absent))
]

-- The job `j` of `s` is finished in `t`: done and posted once more, and out of the running list.
pub record Finished (s t : Sched) (j : ℕ) : Type 0 where
  pub state : (t.jobs j).state ≡ JobState.done
  pub posted : (t.jobs j).sem ≡ (s.jobs j).sem + 1
  pub running : t.running_jobs ≡ erase j s.running_jobs
  pub ready : t.ready_jobs ≡ s.ready_jobs
  pub all_done : (t.jobs j).batches_done ≡ (t.jobs j).nbbatches

-- The end of `fly_sched_exec_job` for a job whose batches are all done: the job becomes done, its
-- semaphore is posted once, its first entry leaves the running list, the ready list stays, and no
-- function of the client is called.
pub complete_lem :
    (s : Sched) (j : ℕ)
    → (s.jobs j).batches_done ≡ (s.jobs j).nbbatches
    → Finished s (complete j s) j × ((complete j s).calls ≡ s.calls)
unfolding complete set_job remove_running move_to_done
complete_lem s j e = (
  record {
    state =
        ap (λ (x : Job). x.state) (change_at _ j _)
        ∙ ap (λ (x : Job). x.state) (change_at s.jobs j _);
    posted =
        ap (λ (x : Job). x.sem) (change_at _ j _)
        ∙ ap (λ (x : Job). x.sem + 1) (change_at s.jobs j _);
    running = list_remove-erase s.running_jobs j s.mem;
    ready = refl;
    all_done =
        ap (λ (x : Job). x.batches_done) (change_at _ j _)
        ∙ ap (λ (x : Job). x.batches_done) (change_at s.jobs j _)
        ∙ e
        ∙ sym (
            ap (λ (x : Job). x.nbbatches) (change_at _ j _)
            ∙ ap (λ (x : Job). x.nbbatches) (change_at s.jobs j _));
  },
  refl,
)
