-- ===== src/Sched/Calls.antt =====
-- The calls that the loops of src/fly_sched.c make, index by index.
use libfly.Prelude.{ℕ, zero, suc, ◌+◌, ◌≡◌, refl, List, [], ◌∷◌, map}
use libfly.Prelude.Int.{ℤ, pos, rounds, ◌+ℤ◌, ◌-ℤ◌, ◌*ℤ◌, range, int_laws, +ℤ-zero, *ℤ-next}
use mathlib.Core.List.{map-append}
use libfly.Job.{Job, Batch, parallel_for, parallel_for_arr}
use libfly.Job.Indices.{indices, all_indices}
use libfly.Sched.{Call, for_call}
use libfly.Sched.Run.{ptr_loop, arr_loop, ptr_calls, arr_calls}
use libfly.Sched.Drain.{job_calls, all_calls}

-- What the client's function is given for index `k`: the pointer of `fly_parallel_for`, or the
-- address of element `k` of the array of `fly_parallel_for_arr`.
abbrev pub ptr_call : Job → ℤ → Call
ptr_call job k = for_call job.func k (pos job.arg)

abbrev pub arr_call : Job → ℤ → Call
arr_call job k = for_call job.func k (pos job.arg +ℤ (k *ℤ pos job.elsize))

-- The address of the next element.
next_element : (a k : ℤ) (e : ℕ) → a +ℤ (k *ℤ pos e) +ℤ pos e ≡ a +ℤ ((k +ℤ pos 1) *ℤ pos e)
next_element a k e = rw (*ℤ-next k e) (omega int_laws)

+ℤ-next : (a : ℤ) (i : ℕ) → a +ℤ pos (i + 1) ≡ a +ℤ pos i +ℤ pos 1
+ℤ-next a i = omega int_laws

ptr_loop-map :
    (left i func : ℕ) (start : ℤ) (param : ℕ)
    → ptr_loop left i func start param
      ≡ map (λ k. for_call func k (pos param)) (range (start +ℤ pos i) left)
unfolding ptr_loop range
ptr_loop-map zero i func start param = refl
ptr_loop-map (suc left) i func start param =
    rw (ptr_loop-map left (i + 1) func start param, +ℤ-next start i)

arr_loop-map :
    (left i func : ℕ) (a start : ℤ) (elsize : ℕ)
    → arr_loop left i func start (a +ℤ ((start +ℤ pos i) *ℤ pos elsize)) elsize
      ≡ map (λ k. for_call func k (a +ℤ (k *ℤ pos elsize))) (range (start +ℤ pos i) left)
unfolding arr_loop range
arr_loop-map zero i func a start elsize = refl
arr_loop-map (suc left) i func a start elsize = rw (
  next_element a (start +ℤ pos i) elsize,
  ← +ℤ-next start i,
  arr_loop-map left (i + 1) func a start elsize,
)

module _ (job : Job) where
  ptr_calls-map : (b : Batch) → ptr_calls job b ≡ map (ptr_call job) (indices b)
  unfolding ptr_calls
  ptr_calls-map b =
      rw (ptr_loop-map (rounds (b.end -ℤ b.start)) 0 job.func b.start job.arg, +ℤ-zero b.start)

  arr_calls-map : (b : Batch) → arr_calls job b ≡ map (arr_call job) (indices b)
  unfolding arr_calls
  arr_calls-map b =
      let loop =
        arr_loop-map (rounds (b.end -ℤ b.start)) 0 job.func (pos job.arg) b.start job.elsize in
      rw (+ℤ-zero b.start) at loop

  -- All calls of a parallel for, in the order of its batches.
  pub all_calls-ptr :
      (bs : List Batch)
      → job.jtype ≡ parallel_for
      → all_calls job bs ≡ map (ptr_call job) (all_indices bs)
  unfolding all_calls all_indices job_calls
  all_calls-ptr [] e = refl
  all_calls-ptr (b ∷ bs) e = rw (map-append, all_calls-ptr bs e, ← ptr_calls-map b) (rw e)

  pub all_calls-arr :
      (bs : List Batch)
      → job.jtype ≡ parallel_for_arr
      → all_calls job bs ≡ map (arr_call job) (all_indices bs)
  unfolding all_calls all_indices job_calls
  all_calls-arr [] e = refl
  all_calls-arr (b ∷ bs) e = rw (map-append, all_calls-arr bs e, ← arr_calls-map b) (rw e)
