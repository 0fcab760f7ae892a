-- ===== src/Mrswlock.antt =====
-- src/fly_mrswlock.h: the multiple readers, single writer lock.
-- The mutex `plock` makes each section between its lock and unlock one atomic step; a semaphore is
-- its count; a thread is a program counter with the locals of `rlock` or `wlock` that are live.
pub mod System
pub mod Safety
pub mod Progress
mod Invariant
mod Examples
use libfly.Prelude.{
  ℕ, zero, suc, ◌+◌, ◌-◌, Bool, true, false, not, ◌&&◌, Option, none, some, ltb, ◌==◌,
  if◌then◌else◌,
}

-- `struct fly_mrswlock`, less the mutex.
pub record Mrswlock : Type 0 where
  pub rsem : ℕ
  pub wsem : ℕ
  pub nbin : ℕ
  pub nbrwaiting : ℕ
  pub nbwwaiting : ℕ
  pub maxin : ℕ

unfoldable pub init : ℕ → Mrswlock
init maxin = record { rsem = 0; wsem = 0; nbin = 0; nbrwaiting = 0; nbwwaiting = 0; maxin = maxin }

-- Where a thread stands.
pub data Pc : Type 0 where
  idle : Pc  -- outside the lock's functions, without the lock
  reader : (waiting wakewriters : Bool) → Pc  -- `rlock`, head of the loop
  reader_waking : Pc  -- `rlock`, at `sem_post(&lock->wsem)`
  reader_asleep : Pc  -- `rlock`, at `sem_wait(&lock->rsem)`
  reading : Pc  -- between `rlock` and `runlock`
  writer : (waiting : Bool) → Pc  -- `wlock`, head of the loop
  writer_asleep : Pc  -- `wlock`, at `sem_wait(&lock->wsem)`
  writing : Pc  -- between `wlock` and `wunlock`
  posting_writer : Pc  -- `runlock` or `wunlock`, at `sem_post(&lock->wsem)`
  posting_reader : Pc  -- `runlock` or `wunlock`, at `sem_post(&lock->rsem)`

-- `while (!hasit)` of `rlock`: one round, up to `pthread_mutex_unlock`. Behind the unlock, where
-- `wakewriters` is set it is cleared and `wsem` posted, and else `rsem` is waited for.
unfoldable pub rlock_round : Mrswlock → (waiting wakewriters : Bool) → Mrswlock × Pc
rlock_round l waiting wakewriters =
    if ltb l.nbin l.maxin && not wakewriters
    then (if l.nbwwaiting == 0
        then (
          record l {
            nbin = l.nbin + 1;
            nbrwaiting = if waiting then l.nbrwaiting - 1 else l.nbrwaiting;
          },
          reading,
        )
        else (l, reader waiting true))
    else (
      record l { nbrwaiting = if waiting then l.nbrwaiting else l.nbrwaiting + 1 },
      if wakewriters then reader_waking else reader_asleep,
    )

-- `while (!hasit)` of `wlock`: one round, up to `sem_wait`.
unfoldable pub wlock_round : Mrswlock → (waiting : Bool) → Mrswlock × Pc
wlock_round l waiting =
    if l.nbin == 0
    then (
      record l { nbin = l.maxin; nbwwaiting = if waiting then l.nbwwaiting - 1 else l.nbwwaiting },
      writing,
    )
    else (
      record l { nbwwaiting = if waiting then l.nbwwaiting else l.nbwwaiting + 1 },
      writer_asleep,
    )

-- The end of `runlock` and `wunlock`, on the counts read under the mutex.
unfoldable pub wake_next : (nbwwaiting nbrwaiting : ℕ) → Pc
wake_next nbwwaiting nbrwaiting =
    if ltb 0 nbwwaiting then posting_writer else if ltb 0 nbrwaiting then posting_reader else idle

-- `-` is the C decrement where `nbin` is at least 1.
unfoldable pub runlock : Mrswlock → Mrswlock × Pc
unfolding wake_next
runlock l = (record l { nbin = l.nbin - 1 }, wake_next l.nbwwaiting l.nbrwaiting)

unfoldable pub wunlock : Mrswlock → Mrswlock × Pc
unfolding wake_next
wunlock l = (record l { nbin = 0 }, wake_next l.nbwwaiting l.nbrwaiting)

abbrev sem_post : ℕ → ℕ
sem_post n = n + 1

-- `none`: the caller sleeps.
abbrev sem_wait : ℕ → Option ℕ
sem_wait zero = none
sem_wait (suc n) = some n

-- The next step of a thread inside the lock's functions, or of one that gives the lock back.
-- `none`: it sleeps on a semaphore, or it is outside.
unfoldable pub step : Mrswlock → Pc → Option (Mrswlock × Pc)
unfolding rlock_round wlock_round runlock wunlock
step l idle = none
step l (reader waiting wakewriters) = some (rlock_round l waiting wakewriters)
step l reader_waking = some (record l { wsem = sem_post l.wsem }, reader true false)
step l reader_asleep = elim (sem_wait l.rsem) [
  | none ↦ none
  | some n ↦ some (record l { rsem = n }, reader true false)
]
step l reading = some (runlock l)
step l (writer waiting) = some (wlock_round l waiting)
step l writer_asleep = elim (sem_wait l.wsem) [
  | none ↦ none
  | some n ↦ some (record l { wsem = n }, writer true)
]
step l writing = some (wunlock l)
step l posting_writer = some (record l { wsem = sem_post l.wsem }, idle)
step l posting_reader = some (record l { rsem = sem_post l.rsem }, idle)
