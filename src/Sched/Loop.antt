-- ===== src/Sched/Loop.antt =====
-- The scheduler's own thread in src/fly_sched.c: `fly_sched_thread_func`, and the thread that starts
-- it in `fly_sched_thread_init` and stops it in `fly_sched_thread_uninit`, in small steps.
pub mod Join
mod Examples
use libfly.Prelude.{
  ℕ, zero, suc, ◌+◌, ◌-◌, ◌≤◌, ◌<◌, ◌≡◌, refl, ◌≢◌, sym, ap, ◌∙◌, List, [], ◌∷◌, ◌++◌, arith,
}

-- FLY_SCHED_THREAD_IDLE, FLY_SCHED_THREAD_RUNNING and FLY_SCHED_THREAD_STOPPING
pub data LoopState : Type 0 where
  idle running stopping : LoopState

-- Where the scheduler's thread stands.
pub data LoopPc : Type 0 where
  entering : LoopPc  -- before `threadstate` is set
  testing : LoopPc  -- at the condition of the loop
  updating : LoopPc  -- at `fly_sched_update`
  sleeping : LoopPc  -- at `fly_thread_sleep`
  returned : LoopPc

-- Where the thread stands that starts and stops it.
pub data OwnerPc : Type 0 where
  spinning : OwnerPc  -- in the loop at the end of `fly_sched_thread_init`
  using_it : OwnerPc  -- between the two calls
  joining : OwnerPc  -- at `fly_thread_wait`, behind `threadstate = FLY_SCHED_THREAD_STOPPING`
  joined : OwnerPc

pub record Pair : Type 0 where
  pub threadstate : LoopState
  pub thread : LoopPc
  pub owner : OwnerPc

-- `fly_thread_start` has just returned in `fly_sched_thread_init`.
abbrev pub launched : Pair
launched = record { threadstate = idle; thread = entering; owner = spinning }

unfoldable pub test_loop : LoopState → LoopPc
test_loop running = updating
test_loop idle = returned
test_loop stopping = returned

-- The next step of the scheduler's thread.
unfoldable pub thread_step : LoopPc → Pair → Pair
unfolding test_loop
thread_step entering p = record p { threadstate = running; thread = testing }
thread_step testing p = record p { thread = test_loop p.threadstate }
thread_step updating p = record p { thread = sleeping }
thread_step sleeping p = record p { thread = testing }
thread_step returned p = p

unfoldable pub spin : LoopState → OwnerPc
spin running = using_it
spin idle = spinning
spin stopping = spinning

-- `pthread_join` returns once the thread has returned.
unfoldable pub join : LoopPc → OwnerPc
join returned = joined
join entering = joining
join testing = joining
join updating = joining
join sleeping = joining

-- The next step of its owner.
unfoldable pub owner_step : OwnerPc → Pair → Pair
unfolding spin join
owner_step spinning p = record p { owner = spin p.threadstate }
owner_step using_it p = record p { threadstate = stopping; owner = joining }
owner_step joining p = record p { owner = join p.thread }
owner_step joined p = p

-- Whose turn it is.
pub data Turn : Type 0 where
  thread owner : Turn

unfoldable pub advance : Turn → Pair → Pair
unfolding thread_step owner_step
advance thread p = thread_step p.thread p
advance owner p = owner_step p.owner p

unfoldable pub advance_all : List Turn → Pair → Pair
unfolding advance
advance_all [] p = p
advance_all (t ∷ ts) p = advance_all ts (advance t p)

abbrev pub thread_turns : List Turn → ℕ
thread_turns [] = 0
thread_turns (thread ∷ ts) = suc (thread_turns ts)
thread_turns (owner ∷ ts) = thread_turns ts
