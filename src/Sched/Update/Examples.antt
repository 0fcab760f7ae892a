-- ===== src/Sched/Update/Examples.antt =====
-- A call of `fly_sched_get_wthread` of src/fly_sched.c from a backup thread.
use libfly.Prelude.{ℕ, Bool, false, ◌==◌}

-- The backup thread of the second worker calls.
abbrev second_backup : ℕ → Bool × Bool
second_backup i = (false, i == 1)
