-- ===== src/Sched/Drain.antt =====
-- A parallel for run to its end by calls of `fly_sched_exec_job` of src/fly_sched.c, from any
-- threads, one call after the other.
use mathlib.Core.List.{append_assoc, append-nil}
use libfly.Prelude.{
  ℕ, zero, suc, ◌+◌, ◌≡◌, refl, sym, ap, ◌∙◌, ◌⊎◌, inl, inr, true, false, none, some, List, [], ◌∷◌,
  ◌++◌, map, arith, ◌==◌, if◌then◌else◌, length, length-append, change, change-change, change_same,
  change_at,
}
use libfly.Job.{Job, Batch, parallel_for, parallel_for_arr, is_done, get_exec_batch}
use libfly.Job.Indices.{Fresh}
use libfly.Sched.{Sched, Call}
use libfly.Sched.Run.{
  ptr_calls, arr_calls, exec_batch, batch_exec, pfptrj_exec, pfarrj_exec, complete, exec_by_type,
  exec_job,
}

abbrev pub mark : Batch → Batch
mark b = record b { execed = true }

-- The first batch that is not taken is the one that is handed out.
pub get_exec_batch-first :
    (ys : List Batch) (b : Batch) (bs : List Batch)
    → b.execed ≡ false
    → get_exec_batch (map mark ys ++ b ∷ bs) ≡ some (mark b, map mark ys ++ mark b ∷ bs)
unfolding get_exec_batch
get_exec_batch-first [] b bs fresh = rw fresh
get_exec_batch-first (y ∷ ys) b bs fresh = rw (get_exec_batch-first ys b bs fresh)

-- Where all are taken there is none to hand out.
pub get_exec_batch-taken : (ys : List Batch) → get_exec_batch (map mark ys) ≡ none
unfolding get_exec_batch
get_exec_batch-taken [] = refl
get_exec_batch-taken (y ∷ ys) = rw (get_exec_batch-taken ys)

-- The calls of one batch.
unfoldable pub job_calls : Job → Batch → List Call
job_calls job b = if job.jtype == parallel_for then ptr_calls job b else arr_calls job b

unfoldable pub all_calls : Job → List Batch → List Call
all_calls job [] = []
all_calls job (b ∷ bs) = job_calls job b ++ all_calls job bs

module _ (apply : (func param : ℕ) → ℕ) where
  -- `n` calls of `fly_sched_exec_job`, with what they return.
  unfoldable pub exec_times : ℕ → ℕ → Sched → List ℕ × Sched
  exec_times zero j s = ([], s)
  exec_times (suc n) j s =
      let (r, s1) = exec_job apply j s in let (rs, s2) = exec_times n j s1 in (r ∷ rs, s2)

batch_exec-ok :
    (calls_of : Job → Batch → List Call) (j : ℕ) (s : Sched) (job : Job) (b : Batch)
    (bs : List Batch)
    → s.jobs j ≡ job
    → get_exec_batch job.batches ≡ some (b, bs)
    → batch_exec calls_of j s ≡ (
      0,
      record s {
        jobs = change s.jobs j (record job { batches = bs; batches_done = job.batches_done + 1 });
        calls = s.calls ++ calls_of job b;
      },
    )
unfolding batch_exec exec_batch
batch_exec-ok calls_of j s job b bs here first =
    let first' : get_exec_batch (s.jobs j).batches ≡ some (b, bs) = rw here first in
    rw first' (rw here)

pub map-append_mark : (xs ys : List Batch) → map mark (xs ++ ys) ≡ map mark xs ++ map mark ys
map-append_mark [] ys = refl
map-append_mark (x ∷ xs) ys = ap (λ zs. mark x ∷ zs) (map-append_mark xs ys)

all_calls-append :
    (job : Job) (xs ys : List Batch)
    → all_calls job (xs ++ ys) ≡ all_calls job xs ++ all_calls job ys
unfolding all_calls
all_calls-append job [] ys = refl
all_calls-append job (x ∷ xs) ys =
    rw (all_calls-append job xs ys)
      (sym (append_assoc (job_calls job x) (all_calls job xs) (all_calls job ys)))

exec_times-step :
    (apply : (func param : ℕ) → ℕ) (n j : ℕ) (s : Sched) (r : ℕ) (t : Sched)
    → exec_job apply j s ≡ (r, t)
    → exec_times apply (suc n) j s ≡ (r ∷ (exec_times apply n j t).0, (exec_times apply n j t).1)
unfolding exec_times
exec_times-step apply n j s r t e =
    ap
      (λ (out : ℕ × Sched).
        (out.0 ∷ (exec_times apply n j out.1).0, (exec_times apply n j out.1).1))
      e

unfoldable pub zeros : ℕ → List ℕ
zeros zero = []
zeros (suc n) = 0 ∷ zeros n

module _ (apply : (func param : ℕ) → ℕ) (s : Sched) (j : ℕ) where
  abbrev pub job : Job
  job = s.jobs j

  abbrev pub job_mid : (taken left : List Batch) → Job
  job_mid taken left = record job { batches = map mark taken ++ left; batches_done = length taken }

  -- The batches `taken` have run, and `left` have not.
  abbrev pub mid : (taken left : List Batch) → Sched
  mid taken left = record s {
    jobs = change s.jobs j (job_mid taken left);
    calls = s.calls ++ all_calls job taken;
  }

  abbrev pub ForType : ℕ → Type 0
  ForType t = (t ≡ parallel_for) ⊎ (t ≡ parallel_for_arr)

  -- What `fly_sched_exec_job` does first with a parallel for that has a batch left.
  exec_by_type-ok :
      (t : Sched) (job' : Job) (b : Batch) (bs : List Batch)
      → t.jobs j ≡ job'
      → ForType job'.jtype
      → get_exec_batch job'.batches ≡ some (b, bs)
      → exec_by_type apply j t ≡ (
        0,
        record t {
          jobs =
              change t.jobs j (record job' { batches = bs; batches_done = job'.batches_done + 1 });
          calls = t.calls ++ job_calls job' b;
        },
      )
  unfolding exec_by_type pfptrj_exec pfarrj_exec job_calls
  exec_by_type-ok t job' b bs here (inl e) first =
      let test : ((t.jobs j).jtype == parallel_for) ≡ true = rw (here, e) in
      let test' : (job'.jtype == parallel_for) ≡ true = rw e in
      rw (test, test') (batch_exec-ok ptr_calls j t job' b bs here first)
  exec_by_type-ok t job' b bs here (inr e) first =
      let test : ((t.jobs j).jtype == parallel_for) ≡ false = rw (here, e) in
      let test' : (job'.jtype == parallel_for) ≡ false = rw e in
      let arr : ((t.jobs j).jtype == parallel_for_arr) ≡ true = rw (here, e) in
      rw (test, test', arr) (batch_exec-ok arr_calls j t job' b bs here first)

  exec_by_type-mid :
      (taken : List Batch) (b : Batch) (left : List Batch)
      → ForType job.jtype
      → b.execed ≡ false
      → exec_by_type apply j (mid taken (b ∷ left)) ≡ (0, mid (taken ++ b ∷ []) left)
  unfolding job_calls ptr_calls arr_calls
  exec_by_type-mid taken b left is_for fresh =
      exec_by_type-ok (mid taken (b ∷ left)) (job_mid taken (b ∷ left)) (mark b)
        (map mark taken ++ mark b ∷ left) (change_at s.jobs j _) is_for
        (get_exec_batch-first taken b left fresh)
      ∙ rw (change-change s.jobs j, marks, more_calls, length-append taken (b ∷ []))
          (rw (append_assoc s.calls (all_calls job taken) (job_calls job b)))
    where
      marks : map mark (taken ++ b ∷ []) ++ left ≡ map mark taken ++ mark b ∷ left
      marks = rw (map-append_mark taken (b ∷ [])) (append_assoc (map mark taken) (mark b ∷ []) left)

      more_calls : all_calls job (taken ++ b ∷ []) ≡ all_calls job taken ++ job_calls job b
      more_calls =
          all_calls-append job taken (b ∷ [])
          ∙ (unfold all_calls in rw (append-nil (job_calls job b)))

  -- All batches but the last leave the job running.
  pub exec_job-mid :
      (taken : List Batch) (b c : Batch) (left : List Batch)
      → ForType job.jtype
      → b.execed ≡ false
      → job.nbbatches ≡ length taken + length (b ∷ c ∷ left)
      → exec_job apply j (mid taken (b ∷ c ∷ left)) ≡ (0, mid (taken ++ b ∷ []) (c ∷ left))
  unfolding exec_job is_done
  exec_job-mid taken b c left is_for fresh count =
      let more : (length (taken ++ b ∷ []) == job.nbbatches) ≡ false =
        ground (arith, length-append taken (b ∷ [])) in
      rw (
        exec_by_type-mid taken b (c ∷ left) is_for fresh,
        change_at s.jobs j (job_mid (taken ++ b ∷ []) (c ∷ left)),
        more,
      )

  pub exec_job_last :
      (taken : List Batch) (b : Batch)
      → ForType job.jtype
      → b.execed ≡ false
      → job.nbbatches ≡ length taken + 1
      → exec_job apply j (mid taken (b ∷ [])) ≡ (0, complete j (mid (taken ++ b ∷ []) []))
  unfolding exec_job is_done
  exec_job_last taken b is_for fresh count =
      let all : (length (taken ++ b ∷ []) == job.nbbatches) ≡ true =
        ground (arith, length-append taken (b ∷ [])) in
      rw (
        exec_by_type-mid taken b [] is_for fresh,
        change_at s.jobs j (job_mid (taken ++ b ∷ []) []),
        all,
      )

  pub exec_times-mid :
      (taken : List Batch) (b : Batch) (left : List Batch)
      → ForType job.jtype
      → Fresh (b ∷ left)
      → job.nbbatches ≡ length taken + length (b ∷ left)
      → exec_times apply (length (b ∷ left)) j (mid taken (b ∷ left))
        ≡ (zeros (length (b ∷ left)), complete j (mid (taken ++ b ∷ left) []))
  unfolding exec_times zeros
  exec_times-mid taken b [] is_for fresh count =
      exec_times-step apply 0 j (mid taken (b ∷ [])) 0 _
        (exec_job_last taken b is_for fresh.0 (omega arith))
  exec_times-mid taken b (c ∷ left) is_for fresh count =
      let rest =
        exec_times-mid (taken ++ b ∷ []) c left is_for fresh.1
          (omega (arith, length-append taken (b ∷ []))) in
      exec_times-step apply (length (c ∷ left)) j (mid taken (b ∷ c ∷ left)) 0 _
        (exec_job-mid taken b c left is_for fresh.0 count)
      ∙ ap (λ (out : List ℕ × Sched). (0 ∷ out.0, out.1)) rest
      ∙ ap (λ bs. (0 ∷ zeros (length (c ∷ left)), complete j (mid bs [])))
          (append_assoc taken (b ∷ []) (c ∷ left))

  pub start-mid : job.batches_done ≡ 0 → mid [] job.batches ≡ s
  unfolding all_calls
  start-mid none_done = rw (
    append-nil,
    change_same s.jobs j (job_mid [] job.batches)
        (ap (λ d. record job { batches_done = d }) (sym none_done)),
  )
