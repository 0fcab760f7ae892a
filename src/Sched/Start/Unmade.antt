-- ===== src/Sched/Start/Unmade.antt =====
-- `fly_sched_init` of src/fly_sched.c where `pthread_create` fails for a thread of a worker.
use libfly.Prelude.{◌≡◌, ◌≢◌, ◌⊎◌, true}
use libfly.Worker.{Answers, Worker}

-- The attributes and the semaphore of a thread can be set up.
abbrev pub SetUp : Answers → Type 0
SetUp os = (os.attr_ok ≡ true) × (os.sem ≡ 0)

-- Of the two threads of a worker, `pthread_create` does not make one.
abbrev pub Unmade : (main backup : Answers) → Type 0
Unmade main backup = (main.create ≢ 0) ⊎ (backup.create ≢ 0)
