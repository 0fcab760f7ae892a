-- ===== src/Client/Collect.antt =====
-- A job that is completed by `fly_sched_exec_job` (src/fly_sched.c) and collected by `fly_wait_job`
-- (src/fly_job.c).
use libfly.Prelude.{ℕ, suc, ◌≡◌, ap, ◌∙◌, Bool, true, false, List, [], ◌∷◌, ◌++◌, arith, change_at}
use mathlib.Core.List.{append-nil}
use libfly.Errors.{success}
use libfly.FlyList.View.{erase, member, erase-append}
use libfly.Malloc.{malloc, free}
use libfly.Job.{Job}
use libfly.Sched.{
  Sched, set_job, list_append, list_remove, remove_running, move_to_done, job_collected,
}
use libfly.Sched.Run.{complete}
use libfly.Sched.Complete.{complete_lem, list_remove-erase}
use libfly.Client.{returns, wait_on, wait_job}

pub erase-last : (j : ℕ) (xs : List ℕ) → member j xs ≡ false → erase j (xs ++ j ∷ []) ≡ xs
erase-last j xs absent =
    erase-append j xs (j ∷ []) absent ∙ ap (λ ys. xs ++ ys) (alone j) ∙ append-nil xs
  where
    alone : (k : ℕ) → erase k (k ∷ []) ≡ []
    alone k = unfold erase in ground arith

complete-done_jobs :
    (s : Sched) (j : ℕ) (rest : List Bool)
    → member j s.running_jobs ≡ true
    → s.mem.answers ≡ true ∷ rest
    → (complete j s).done_jobs ≡ s.done_jobs ++ j ∷ []
unfolding complete set_job remove_running move_to_done list_append list_remove malloc free
complete-done_jobs s j rest running room = rw (running, room)

unfoldable pub collected : (n j : ℕ) → Sched → Sched
collected n j s = (job_collected j (set_job s j (record (s.jobs j) { sem = n }))).1

pub wait_job-runs :
    (s : Sched) (j n : ℕ)
    → (s.jobs j).sem ≡ suc n
    → wait_job true j s ≡ returns (success, collected n j s)
unfolding wait_job wait_on collected job_collected
wait_job-runs s j n e = ap (λ count. wait_on count j s) e

-- A running job that is completed and then waited for, where the cell in the list of done jobs can be
-- had: the wait succeeds and does not sleep, the job is in that list no more, and its semaphore is
-- where it was.
pub wait_job-complete :
    (s : Sched) (j : ℕ) (rest : List Bool)
    → (s.jobs j).batches_done ≡ (s.jobs j).nbbatches
    → member j s.running_jobs ≡ true
    → member j s.done_jobs ≡ false
    → s.mem.answers ≡ true ∷ rest
    → (t : Sched) × (wait_job true j (complete j s) ≡ returns (success, t))
      × (t.done_jobs ≡ s.done_jobs)
      × ((t.jobs j).sem ≡ (s.jobs j).sem)
unfolding collected job_collected set_job
wait_job-complete s j rest all running absent room =
    let t = complete j s in
    let posted : (t.jobs j).sem ≡ suc (s.jobs j).sem =
      omega (arith, (complete_lem s j all).0.posted) in
    (
      collected (s.jobs j).sem j t,
      wait_job-runs t j (s.jobs j).sem posted,
      list_remove-erase t.done_jobs j t.mem
          ∙ ap (erase j) (complete-done_jobs s j rest running room)
          ∙ erase-last j s.done_jobs absent,
      ap (λ (x : Job). x.sem) (change_at t.jobs j _),
    )
