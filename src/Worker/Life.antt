-- ===== src/Worker/Life.antt =====
-- The memory that a worker of src/fly_worker.c holds, from `fly_worker_init` to `fly_worker_uninit`.
use libfly.Prelude.{
  ℕ, ◌+◌, ◌≡◌, refl, ◌≢◌, ◌⊎◌, inl, inr, Bool, some, true, false, List, [], ◌∷◌, arith,
}
use libfly.Malloc.{Memory, malloc, free}
use libfly.Thread.{Thread, thread_init, thread_uninit, thread_wait}
use libfly.Worker.{
  Answers, WorkerThread, Worker, worker_thread_init, worker_thread_uninit, worker_init,
  worker_start, worker_thread_start, worker_uninit, worker_wait, worker_thread_wait, request_exit,
  worker_thread_request_exit,
}

-- A call that returned `err` has taken `took` blocks if it succeeded, and none if it failed.
abbrev pub Balanced : (took err : ℕ) → (before after : Memory) → Type 0
Balanced took err before after =
    ((err ≡ 0) × (after.live ≡ before.live + took)) ⊎ ((err ≢ 0) × (after.live ≡ before.live))

pub malloc-cases :
    (m : Memory)
    → (((malloc m).0 ≡ true) × ((malloc m).1.live ≡ m.live + 1))
      ⊎ (((malloc m).0 ≡ false) × ((malloc m).1.live ≡ m.live))
unfolding malloc
malloc-cases m = of_answers m.answers m.live
  where
    of_answers :
        (answers : List Bool) (live : ℕ)
        → (((malloc (record { answers = answers; live = live })).0 ≡ true)
            × ((malloc (record { answers = answers; live = live })).1.live ≡ live + 1))
          ⊎ (((malloc (record { answers = answers; live = live })).0 ≡ false)
              × ((malloc (record { answers = answers; live = live })).1.live ≡ live))
    of_answers [] live = inr (refl, refl)
    of_answers (true ∷ rest) live = inl (refl, refl)
    of_answers (false ∷ rest) live = inr (refl, refl)

pub thread_init-Balanced :
    (attr_ok : Bool) (func param : ℕ) (t : Thread) (m : Memory)
    → Balanced 1 (thread_init attr_ok func param t m).0 m (thread_init attr_ok func param t m).2
unfolding thread_init free
thread_init-Balanced attr_ok func param t m = ground (arith, malloc-cases m)

worker_thread_init-Balanced :
    (os : Answers) (func param : ℕ) (t : WorkerThread) (m : Memory)
    → Balanced 1 (worker_thread_init os func param t m).0 m (worker_thread_init os func param t m).2
unfolding worker_thread_init thread_uninit free
worker_thread_init-Balanced os func param t m =
    ground (arith, thread_init-Balanced os.attr_ok func param t.thread m)

-- `fly_worker_init`, whatever fails in it: if it returns success the worker holds one block for each
-- of its two threads, and else no block is held.
pub worker_init-Balanced :
    (main backup : Answers) (func param : ℕ) (w : Worker) (m : Memory)
    → Balanced 2
        (worker_init main backup func param w m).0
        m
        (worker_init main backup func param w m).2
unfolding worker_init worker_thread_uninit thread_uninit free
worker_init-Balanced main backup func param w m = ground (
  arith,
  worker_thread_init-Balanced main func param w.mthread m,
  worker_thread_init-Balanced backup func param w.bthread
      (worker_thread_init main func param w.mthread m).2,
)

-- Both threads exist and have left their first loop.
abbrev pub Begun : Worker → Type 0
Begun w = (w.mthread.begun ≡ true) × (w.bthread.begun ≡ true)

-- Both threads are made, and read that they run before they are asked to exit.
abbrev pub Begin : (main backup : Answers) → Type 0
Begin main backup =
    (main.create ≡ 0) × (main.begins ≡ true) × (backup.create ≡ 0) × (backup.begins ≡ true)

pub worker_start-Begun :
    (main backup : Answers) (w : Worker)
    → Begin main backup
    → ((worker_start main backup w).0 ≡ 0) × Begun (worker_start main backup w).1
unfolding worker_start worker_thread_start
worker_start-Begun main backup w (made, begins, made', begins') =
    rw (made, begins, made', begins') (refl, (refl, refl))

pub worker_uninit-Begun :
    (w : Worker) (m : Memory)
    → Begun w
    → worker_uninit w m ≡ some (0, request_exit w, free (free m))
unfolding worker_uninit worker_wait worker_thread_wait thread_wait request_exit
    worker_thread_request_exit worker_thread_uninit thread_uninit
worker_uninit-Begun w m (main, backup) = rw (main, backup) refl
