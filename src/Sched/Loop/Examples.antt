-- ===== src/Sched/Loop/Examples.antt =====
-- The scheduler's thread of src/fly_sched.c is asked to stop while it sleeps.
use libfly.Prelude.{◌≡◌, refl, [], ◌∷◌, ◌++◌, List, arith}
use libfly.Sched.Loop.{
  joined, launched, Turn, thread, owner, advance, advance_all, thread_step, owner_step, spin,
  test_loop,
}
use libfly.Sched.Loop.Join.{stop-joined}

abbrev until_stop : List Turn
until_stop = owner ∷ thread ∷ owner ∷ thread ∷ thread ∷ owner ∷ []

stop-joined_example :
    (advance_all
      ((thread ∷ owner ∷ thread ∷ thread ∷ []) ++ owner ∷ [])
      (advance_all until_stop launched)).owner
    ≡ joined
unfolding advance_all advance thread_step owner_step spin test_loop
stop-joined_example =
    stop-joined until_stop (thread ∷ owner ∷ thread ∷ thread ∷ []) refl (omega arith)
