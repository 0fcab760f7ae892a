-- ===== src/Sched/Loop/Join.antt =====
-- The scheduler's thread of src/fly_sched.c never misses the request to stop, and returns.
use mathlib.Core.Path.{subst}
use libfly.Prelude.{ℕ, ◌≤◌, ◌≡◌, refl, ◌≢◌, sym, ap, ◌∙◌, List, [], ◌∷◌, ◌++◌, arith}
use libfly.Sched.Loop.{
  LoopState, idle, running, stopping, LoopPc, entering, testing, updating, sleeping, returned,
  OwnerPc, spinning, using_it, joining, joined, Pair, launched, test_loop, thread_step, spin, join,
  owner_step, Turn, thread, owner, advance, advance_all, thread_turns,
}

-- What holds of the two at every moment, by where they stand.
abbrev Agrees : OwnerPc → LoopPc → LoopState → Type 0
Agrees spinning entering st = st ≡ idle
Agrees spinning testing st = st ≡ running
Agrees spinning updating st = st ≡ running
Agrees spinning sleeping st = st ≡ running
Agrees spinning returned st = ⊥
Agrees using_it entering st = ⊥
Agrees using_it testing st = st ≡ running
Agrees using_it updating st = st ≡ running
Agrees using_it sleeping st = st ≡ running
Agrees using_it returned st = ⊥
Agrees joining entering st = ⊥
Agrees joining testing st = st ≡ stopping
Agrees joining updating st = st ≡ stopping
Agrees joining sleeping st = st ≡ stopping
Agrees joining returned st = st ≡ stopping
Agrees joined entering st = ⊥
Agrees joined testing st = ⊥
Agrees joined updating st = ⊥
Agrees joined sleeping st = ⊥
Agrees joined returned st = st ≡ stopping

abbrev pair : LoopState → LoopPc → OwnerPc → Pair
pair st th ow = record { threadstate = st; thread = th; owner = ow }

abbrev Agree : Pair → Type 0
Agree p = Agrees p.owner p.thread p.threadstate

thread_step-Agrees :
    (th : LoopPc) (ow : OwnerPc) (st : LoopState)
    → Agrees ow th st
    → Agree (thread_step th (pair st th ow))
unfolding thread_step test_loop
thread_step-Agrees entering spinning st h = refl
thread_step-Agrees testing spinning st h = subst (λ x. Agrees spinning (test_loop x) x) (sym h) refl
thread_step-Agrees updating spinning st h = h
thread_step-Agrees sleeping spinning st h = h
thread_step-Agrees returned spinning st h = absurd h
thread_step-Agrees entering using_it st h = absurd h
thread_step-Agrees testing using_it st h = subst (λ x. Agrees using_it (test_loop x) x) (sym h) refl
thread_step-Agrees updating using_it st h = h
thread_step-Agrees sleeping using_it st h = h
thread_step-Agrees returned using_it st h = absurd h
thread_step-Agrees entering joining st h = absurd h
thread_step-Agrees testing joining st h = subst (λ x. Agrees joining (test_loop x) x) (sym h) refl
thread_step-Agrees updating joining st h = h
thread_step-Agrees sleeping joining st h = h
thread_step-Agrees returned joining st h = h
thread_step-Agrees entering joined st h = absurd h
thread_step-Agrees testing joined st h = absurd h
thread_step-Agrees updating joined st h = absurd h
thread_step-Agrees sleeping joined st h = absurd h
thread_step-Agrees returned joined st h = h

owner_step-Agrees :
    (th : LoopPc) (ow : OwnerPc) (st : LoopState)
    → Agrees ow th st
    → Agree (owner_step ow (pair st th ow))
unfolding owner_step spin join
owner_step-Agrees entering spinning st h = subst (λ x. Agrees (spin x) entering x) (sym h) refl
owner_step-Agrees testing spinning st h = subst (λ x. Agrees (spin x) testing x) (sym h) refl
owner_step-Agrees updating spinning st h = subst (λ x. Agrees (spin x) updating x) (sym h) refl
owner_step-Agrees sleeping spinning st h = subst (λ x. Agrees (spin x) sleeping x) (sym h) refl
owner_step-Agrees returned spinning st h = absurd h
owner_step-Agrees entering using_it st h = absurd h
owner_step-Agrees testing using_it st h = refl
owner_step-Agrees updating using_it st h = refl
owner_step-Agrees sleeping using_it st h = refl
owner_step-Agrees returned using_it st h = absurd h
owner_step-Agrees entering joining st h = absurd h
owner_step-Agrees testing joining st h = h
owner_step-Agrees updating joining st h = h
owner_step-Agrees sleeping joining st h = h
owner_step-Agrees returned joining st h = h
owner_step-Agrees entering joined st h = absurd h
owner_step-Agrees testing joined st h = absurd h
owner_step-Agrees updating joined st h = absurd h
owner_step-Agrees sleeping joined st h = absurd h
owner_step-Agrees returned joined st h = h

advance_all-Agree : (ts : List Turn) (p : Pair) → Agree p → Agree (advance_all ts p)
unfolding advance_all advance
advance_all-Agree [] p h = h
advance_all-Agree (thread ∷ ts) p h =
    advance_all-Agree ts (thread_step p.thread p)
      (thread_step-Agrees p.thread p.owner p.threadstate h)
advance_all-Agree (owner ∷ ts) p h =
    advance_all-Agree ts (owner_step p.owner p) (owner_step-Agrees p.thread p.owner p.threadstate h)

-- The steps that the thread has still to make once it is asked to stop.
abbrev steps_left : LoopPc → ℕ
steps_left entering = 0
steps_left testing = 1
steps_left sleeping = 2
steps_left updating = 3
steps_left returned = 0

joined_stays : (ts : List Turn) → (advance_all ts (pair stopping returned joined)).owner ≡ joined
unfolding advance_all advance thread_step owner_step
joined_stays [] = refl
joined_stays (thread ∷ ts) = joined_stays ts
joined_stays (owner ∷ ts) = joined_stays ts

-- A pair with the owner at its join: how many turns of the thread bring it to the end.
joining-joined :
    (ts : List Turn) (th : LoopPc)
    → th ≢ entering
    → steps_left th ≤ thread_turns ts
    → (advance_all (ts ++ owner ∷ []) (pair stopping th joining)).owner ≡ joined
unfolding advance_all advance thread_step owner_step join test_loop
joining-joined ts entering h enough = absurd (h refl)
joining-joined [] testing h enough = absurd (omega arith)
joining-joined [] updating h enough = absurd (omega arith)
joining-joined [] sleeping h enough = absurd (omega arith)
joining-joined [] returned h enough = refl
joining-joined (thread ∷ ts) testing h enough = joining-joined ts returned (λ e. cc) (omega arith)
joining-joined (thread ∷ ts) updating h enough = joining-joined ts sleeping (λ e. cc) (omega arith)
joining-joined (thread ∷ ts) sleeping h enough = joining-joined ts testing (λ e. cc) (omega arith)
joining-joined (thread ∷ ts) returned h enough = joining-joined ts returned (λ e. cc) (omega arith)
joining-joined (owner ∷ ts) testing h enough = joining-joined ts testing h enough
joining-joined (owner ∷ ts) updating h enough = joining-joined ts updating h enough
joining-joined (owner ∷ ts) sleeping h enough = joining-joined ts sleeping h enough
joining-joined (owner ∷ ts) returned h enough = joined_stays (ts ++ owner ∷ [])

at_join-begun :
    (th : LoopPc) (st : LoopState)
    → Agrees joining th st
    → (st ≡ stopping) × (th ≢ entering) × (steps_left th ≤ 3)
at_join-begun entering st h = absurd h
at_join-begun testing st h = (h, λ e. cc, omega arith)
at_join-begun updating st h = (h, λ e. cc, omega arith)
at_join-begun sleeping st h = (h, λ e. cc, omega arith)
at_join-begun returned st h = (h, λ e. cc, omega arith)

-- The owner of the scheduler's thread that has come to its join, after any turns of the two: once the
-- thread has had three more turns, the next turn of the owner ends the join. The request to stop is
-- never lost, since the owner waits for the thread to run before it goes on.
pub stop-joined :
    (ts us : List Turn)
    → (advance_all ts launched).owner ≡ joining
    → 3 ≤ thread_turns us
    → (advance_all (us ++ owner ∷ []) (advance_all ts launched)).owner ≡ joined
stop-joined ts us at_join enough =
    let p = advance_all ts launched in
    let agree = advance_all-Agree ts launched refl in
    let (stops, begun, few) =
      at_join-begun p.thread p.threadstate
        (subst (λ o. Agrees o p.thread p.threadstate) at_join agree) in
    ap (λ st. (advance_all (us ++ owner ∷ []) (pair st p.thread p.owner)).owner) stops
    ∙ ap (λ o. (advance_all (us ++ owner ∷ []) (pair stopping p.thread o)).owner) at_join
    ∙ joining-joined us p.thread begun (omega arith)
