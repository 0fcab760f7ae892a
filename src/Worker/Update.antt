-- ===== src/Worker/Update.antt =====
-- `fly_worker_update` and the wake-up behind it in src/fly_worker.c: which of a worker's two threads
-- gets the work.
use libfly.Prelude.{ℕ, ◌+◌, ◌<◌, ◌≡◌, Bool, not, ◌&&◌, some, List, arith, if◌then◌else◌}
use libfly.Thread.{Thread, state_letter}
use libfly.Thread.Blocked.{sleeps, tracked, is_client_block-letter}
use libfly.Worker.{WorkerThread, Worker, worker_update, work_available, thread_work_available}

-- A thread that a client function blocks, by the letter of its status file.
abbrev pub client_blocks : WorkerThread → (letter : ℕ) → Bool
client_blocks t letter = sleeps letter && not (tracked t.thread.state)

abbrev updated : Worker → (mt bt : Thread) (mblocked bblocked : ℕ) → Worker
updated w mt bt mblocked bblocked = record {
  mthread = record w.mthread { thread = mt };
  bthread = record w.bthread { thread = bt };
  mblocked = mblocked;
  bblocked = bblocked;
}

-- Both status files of a worker hold a letter, and its threads have any combination of the state bits:
-- the update returns, and a wake-up behind it posts the
-- backup thread where a client function blocks the main thread and none blocks the backup thread. In
-- every other case it posts the main thread.
pub worker_update-work_available :
    (main backup : List ℕ) (lm lb : ℕ) (w : Worker)
    → state_letter main ≡ some lm
    → state_letter backup ≡ some lb
    → w.mthread.thread.state < 128
    → w.bthread.thread.state < 128
    → (w' : Worker) × (worker_update (some main) (some backup) w ≡ some w')
      × ((work_available w').mthread.sem
          ≡ w.mthread.sem
            + (if client_blocks w.mthread lm && not (client_blocks w.bthread lb) then 0 else 1))
      × ((work_available w').bthread.sem
          ≡ w.bthread.sem
            + (if client_blocks w.mthread lm && not (client_blocks w.bthread lb) then 1 else 0))
unfolding worker_update work_available thread_work_available
worker_update-work_available main backup lm lb w em eb hm hb =
    let (mt, um, _) = is_client_block-letter main lm w.mthread.thread em hm in
    let (bt, ub, _) = is_client_block-letter backup lb w.bthread.thread eb hb in
    let block : Bool → ℕ = λ b. if b then 1 else 0 in
    (
      updated w mt bt (block (client_blocks w.mthread lm)) (block (client_blocks w.bthread lb)),
      rw (um, ub),
      ground arith,
      ground arith,
    )
