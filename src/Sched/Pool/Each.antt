-- ===== src/Sched/Pool/Each.antt =====
-- What one step of a thread of Sched.Pool does to the jobs and the other threads.
use libfly.Prelude.{
  ℕ, ◌+◌, ◌≤◌, ◌<◌, ◌≡◌, refl, ap, ◌∙◌, Bool, true, not, List, [], ◌∷◌, ◌++◌, inl, ◌⊎◌, change,
  arith, total,
}
use libfly.Job.{Job}
use libfly.Sched.{Task, is_for}
use libfly.Sched.Pool.{PoolPc, moving, Pool, leave}
use libfly.Sched.Workers.{Shared}
use libfly.Sched.Pool.Counts.{is_it, times, shift, at_leave, moves, inside}
use libfly.Sched.Pool.Parts.{part-change, part-other, done_of}
use libfly.Sched.Pool.Turns.{
  Turn, nothing_ready, got_ready, moved, none_running, got_running, took, none_free, task_called,
  unknown, called, batch_ended, found_done, found_open, completed, removed, finished, posted,
  asleep, woken,
}
use libfly.Sched.Pool.Alert.{dozing}
use libfly.Sched.Pool.Counts.{weigh-pop_back}
use libfly.Sched.Pool.Project.{claim-shared}

module _ (jobs : ℕ → Job) (tasks : ℕ → Task) (n : ℕ) where
  wide_awake :
      (s : Pool) (i : ℕ) {p : PoolPc} (q : PoolPc)
      → i < n
      → s.pc i ≡ p
      → dozing q ≤ dozing p
      → total dozing n s.pc ≡ 0
      → total dozing n (change s.pc i q) ≡ 0
  wide_awake s i q lt e le inv = omega (arith, inv, shift dozing s.pc q lt e)

  pub turn-dozing :
      (ok : Bool) (i : ℕ) (s : Pool) (p : PoolPc) (t : Pool)
      → i < n
      → s.pc i ≡ p
      → Turn jobs tasks ok i s p t
      → total dozing n s.pc ≡ 0
      → total dozing n t.pc ≡ 0
  turn-dozing ok i s p t lt e (nothing_ready none_left) inv =
      wide_awake s i _ lt e (omega arith) inv
  turn-dozing ok i s p t lt e (got_ready rest j first) inv = wide_awake s i _ lt e (omega arith) inv
  turn-dozing ok i s p t lt e (moved j running pending cases all more few) inv =
      wide_awake s i _ lt e (omega arith) inv
  turn-dozing ok i s p t lt e (none_running none_left) inv = wide_awake s i _ lt e (omega arith) inv
  turn-dozing ok i s p t lt e (got_running j found some) inv =
      wide_awake s i _ lt e (omega arith) inv
  turn-dozing ok i s p t lt e (took sl j b bs loops first) inv =
      wide_awake s i _ lt e (omega arith) inv
  turn-dozing ok i s p t lt e (none_free sl j loops none_left) inv =
      wide_awake s i _ lt e (omega arith) inv
  turn-dozing ok i s p t lt e (task_called sl j c no_loop is its) inv =
      wide_awake s i _ lt e (omega arith) inv
  turn-dozing ok i s p t lt e (unknown sl j not) inv = wide_awake s i _ lt e (omega arith) inv
  turn-dozing ok i s p t lt e (called sl j c cs) inv = wide_awake s i _ lt e (omega arith) inv
  turn-dozing ok i s p t lt e (batch_ended sl j) inv = wide_awake s i _ lt e (omega arith) inv
  turn-dozing ok i s p t lt e (found_done sl j done) inv = wide_awake s i _ lt e (omega arith) inv
  turn-dozing ok i s p t lt e (completed sl j) inv = wide_awake s i _ lt e (omega arith) inv
  turn-dozing ok i s p t lt e (removed sl j) inv = wide_awake s i _ lt e (omega arith) inv
  turn-dozing ok i s p t lt e (finished sl j l) inv = wide_awake s i _ lt e (omega arith) inv
  turn-dozing ok i s p t lt e (woken c post) inv = wide_awake s i _ lt e (omega arith) inv
  turn-dozing ok i s p t lt e (asleep no_post) inv = inv
  turn-dozing ok i s p t lt e (found_open sl j more) inv =
      wide_awake s i (leave sl) lt e (omega (arith, at_leave dozing sl refl refl)) inv
  turn-dozing ok i s p t lt e (posted sl j) inv =
      wide_awake s i (leave sl) lt e (omega (arith, at_leave dozing sl refl refl)) inv

  pub turn-added :
      (ok : Bool) (i : ℕ) (s : Pool) (p : PoolPc) (t : Pool)
      → Turn jobs tasks ok i s p t
      → t.added ≡ s.added
  turn-added ok i s p t (nothing_ready none_left) = refl
  turn-added ok i s p t (got_ready rest j first) = refl
  turn-added ok i s p t (moved j running pending cases all more few) = refl
  turn-added ok i s p t (none_running none_left) = refl
  turn-added ok i s p t (got_running j found some) = refl
  turn-added ok i s p t (took sl j b bs loops first) = refl
  turn-added ok i s p t (none_free sl j loops none_left) = refl
  turn-added ok i s p t (task_called sl j c no_loop is its) = refl
  turn-added ok i s p t (unknown sl j not) = refl
  turn-added ok i s p t (called sl j c cs) = refl
  turn-added ok i s p t (batch_ended sl j) = refl
  turn-added ok i s p t (found_done sl j done) = refl
  turn-added ok i s p t (found_open sl j more) = refl
  turn-added ok i s p t (completed sl j) = refl
  turn-added ok i s p t (removed sl j) = refl
  turn-added ok i s p t (finished sl j l) = refl
  turn-added ok i s p t (posted sl j) = refl
  turn-added ok i s p t (woken c post) = refl
  turn-added ok i s p t (asleep no_post) = refl

  -- How often job `k` waits to be run does not grow.
  module _ (k : ℕ) where
    abbrev pub waits : Pool → ℕ
    waits s = times k s.ready_jobs + total (moves k) n s.pc

    no_move :
        (s : Pool) (i : ℕ) {p : PoolPc} (q : PoolPc)
        → i < n
        → s.pc i ≡ p
        → moves k q ≡ 0
        → times k s.ready_jobs + total (moves k) n (change s.pc i q) ≤ waits s
    no_move s i q lt e not_moving = omega (arith, shift (moves k) s.pc q lt e, not_moving)

    pub turn-waits :
        (ok : Bool) (i : ℕ) (s : Pool) (p : PoolPc) (t : Pool)
        → i < n
        → s.pc i ≡ p
        → Turn jobs tasks ok i s p t
        → waits t ≤ waits s
    turn-waits ok i s p t lt e (nothing_ready none_left) = no_move s i _ lt e refl
    turn-waits ok i s p t lt e (got_ready rest j (x, xs, ready, popped)) =
        let one_less : times k s.ready_jobs ≡ is_it k j + times k rest =
          ap (times k) ready
          ∙ weigh-pop_back (is_it k) x xs
          ∙ ap (λ (out : ℕ × List ℕ). is_it k out.0 + times k out.1) popped in
        omega (arith, one_less, shift (moves k) s.pc (moving j) lt e)
    turn-waits ok i s p t lt e (moved j running pending cases all more few) =
        no_move s i _ lt e refl
    turn-waits ok i s p t lt e (none_running none_left) = no_move s i _ lt e refl
    turn-waits ok i s p t lt e (got_running j found some) = no_move s i _ lt e refl
    turn-waits ok i s p t lt e (took sl j b bs loops first) = no_move s i _ lt e refl
    turn-waits ok i s p t lt e (none_free sl j loops none_left) = no_move s i _ lt e refl
    turn-waits ok i s p t lt e (task_called sl j c no_loop is its) = no_move s i _ lt e refl
    turn-waits ok i s p t lt e (unknown sl j not) = no_move s i _ lt e refl
    turn-waits ok i s p t lt e (called sl j c cs) = no_move s i _ lt e refl
    turn-waits ok i s p t lt e (batch_ended sl j) = no_move s i _ lt e refl
    turn-waits ok i s p t lt e (found_done sl j done) = no_move s i _ lt e refl
    turn-waits ok i s p t lt e (found_open sl j more) =
        no_move s i (leave sl) lt e (at_leave (moves k) sl refl refl)
    turn-waits ok i s p t lt e (completed sl j) = no_move s i _ lt e refl
    turn-waits ok i s p t lt e (removed sl j) = no_move s i _ lt e refl
    turn-waits ok i s p t lt e (finished sl j l) = no_move s i _ lt e refl
    turn-waits ok i s p t lt e (posted sl j) =
        no_move s i (leave sl) lt e (at_leave (moves k) sl refl refl)
    turn-waits ok i s p t lt e (woken c post) = no_move s i _ lt e refl
    turn-waits ok i s p t lt e (asleep no_post) = omega arith

    pub turn-done :
        (ok : Bool) (i : ℕ) (s : Pool) (p : PoolPc) (t : Pool)
        → is_for (jobs k) ≡ true
        → Turn jobs tasks ok i s p t
        → ((t.shared k).batches_done ≡ (s.shared k).batches_done) ⊎ (0 < inside k p)
    turn-done ok i s p t loops' (nothing_ready none_left) = inl refl
    turn-done ok i s p t loops' (got_ready rest j first) =
        inl (ap (λ (x : Shared). x.batches_done) (claim-shared jobs tasks n k loops' s j))
    turn-done ok i s p t loops' (moved j running pending cases all more few) = inl refl
    turn-done ok i s p t loops' (none_running none_left) = inl refl
    turn-done ok i s p t loops' (got_running j found some) = inl refl
    turn-done ok i s p t loops' (took sl j b bs loops first) =
        inl (part-change done_of s.shared j (record (s.shared j) { batches = bs }) k refl)
    turn-done ok i s p t loops' (none_free sl j loops none_left) =
        inl (part-change done_of s.shared j (s.shared j) k refl)
    turn-done ok i s p t loops' (task_called sl j c no_loop is its) = inl (
        part-change done_of s.shared j
          (record (s.shared j) { calls = (s.shared j).calls ++ c ∷ [] }) k refl)
    turn-done ok i s p t loops' (unknown sl j not) = inl refl
    turn-done ok i s p t loops' (called sl j c cs) = inl (
        part-change done_of s.shared j
          (record (s.shared j) { calls = (s.shared j).calls ++ c ∷ [] }) k refl)
    turn-done ok i s p t loops' (batch_ended sl j) =
        part-other done_of s.shared j
          (record (s.shared j) { batches_done = (s.shared j).batches_done + 1 }) k
    turn-done ok i s p t loops' (found_done sl j done) = inl refl
    turn-done ok i s p t loops' (found_open sl j more) = inl refl
    turn-done ok i s p t loops' (completed sl j) = inl refl
    turn-done ok i s p t loops' (removed sl j) = inl refl
    turn-done ok i s p t loops' (finished sl j l) = inl refl
    turn-done ok i s p t loops' (posted sl j) =
        inl (
          part-change done_of s.shared j (record (s.shared j) { sem = (s.shared j).sem + 1 }) k
            refl)
    turn-done ok i s p t loops' (woken c post) = inl refl
    turn-done ok i s p t loops' (asleep no_post) = inl refl
