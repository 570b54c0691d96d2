-- ===== src/Ordinary/Child/Cleanup.antt =====
-- run_step of check_ordinary.py, when it ends.
use samgita.Prelude.{
  ℕ, ◌+◌, ◌*◌, ◌≤◌, ◌<◌, not, ◌&&◌, if◌then◌else◌, Bool, true, false, Option, none, some, leb, List,
  [], ◌∷◌, length, ◌≡◌, inl, inr, refl, sym, ◌∙◌, arith, Option-cases, Bool-cases,
}
use mathlib.Core.Path.{subst}
use samgita.Ordinary.Child.{
  Round, exits, runs, interrupts, Action, terminate, kill, reap, Raised, expired, interrupt,
  Answers, End, returned, raised, poll, last_wait, cleanup, run_step,
}

-- The child is waited for at most once, and no signal goes to its group after that.
abbrev pub is_ordered : List Action → Bool
is_ordered [] = true
is_ordered (reap ∷ []) = true
is_ordered (reap ∷ a ∷ actions) = false
is_ordered (terminate ∷ actions) = is_ordered actions
is_ordered (kill ∷ actions) = is_ordered actions

abbrev pub reaps : List Action → Bool
reaps [] = false
reaps (reap ∷ actions) = true
reaps (terminate ∷ actions) = reaps actions
reaps (kill ∷ actions) = reaps actions

some_injective {ℓ} : {A : Type ℓ} {x y : A} → ◌≡◌ {A = Option A} (some x) (some y) → x ≡ y
some_injective h = cc

-- How the wait loop stops: at the child's exit, at a round at or past the deadline, or at a signal to the
-- runner, whichever comes first.
pub data Stops (deadline : ℕ) : List Round → Option Raised → Type 0 where
  exited : (rounds : List Round) → Stops deadline (exits ∷ rounds) none
  past_deadline :
      (now : ℕ) (rounds : List Round)
      → deadline ≤ now
      → Stops deadline (runs now ∷ rounds) (some expired)
  signalled : (rounds : List Round) → Stops deadline (interrupts ∷ rounds) (some interrupt)
  waits :
      (now : ℕ) (rounds : List Round) (outcome : Option Raised)
      → now < deadline
      → Stops deadline rounds outcome
      → Stops deadline (runs now ∷ rounds) outcome

poll-Stops :
    (deadline : ℕ) (rounds : List Round) (outcome : Option Raised)
    → poll deadline rounds ≡ some outcome
    → Stops deadline rounds outcome
unfolding poll
poll-Stops deadline [] outcome h = absurd cc
poll-Stops deadline (exits ∷ rounds) outcome h =
    subst (Stops deadline (exits ∷ rounds)) (some_injective h) (exited rounds)
poll-Stops deadline (interrupts ∷ rounds) outcome h =
    subst (Stops deadline (interrupts ∷ rounds)) (some_injective h) (signalled rounds)
poll-Stops deadline (runs now ∷ rounds) outcome h = elim (Bool-cases (leb deadline now)) [
  | inl past ↦
      subst (Stops deadline (runs now ∷ rounds)) (some_injective (rw past at h))
        (past_deadline now rounds (ground arith))
  | inr early ↦
      waits now rounds outcome (ground arith) (poll-Stops deadline rounds outcome (rw early at h))
]

abbrev pub kills : List Action → Bool
kills [] = false
kills (kill ∷ actions) = true
kills (terminate ∷ actions) = kills actions
kills (reap ∷ actions) = kills actions

-- What leaves run_step: a last wait that is not in time, an interrupted sleep, or what ended the loop.
abbrev pub leaving : Answers → Raised → Raised
leaving answers e =
    if answers.reaped_in_time
    then (if answers.group_found && answers.sleep_interrupted then interrupt else e)
    else expired

abbrev pub Ended : Answers → Raised → End → Type 0
Ended answers e (returned actions) = ⊥
Ended answers e (raised actions left) =
    (left ≡ leaving answers e)
    × ((rest : List Action) × (actions ≡ terminate ∷ rest))
    × (is_ordered actions ≡ true)
    × (kills actions ≡ (answers.group_found && not answers.sleep_interrupted))
    × (reaps actions ≡ answers.reaped_in_time)

-- By how the loop stopped.
abbrev pub Cleaned : Answers → Option Raised → End → Type 0
Cleaned answers none end = end ≡ returned (reap ∷ [])
Cleaned answers (some e) end = Ended answers e end

cleanup_each :
    (found broken fast : Bool) (e : Raised)
    → Ended
        (record { group_found = found; sleep_interrupted = broken; reaped_in_time = fast })
        e
        (cleanup
          (record { group_found = found; sleep_interrupted = broken; reaped_in_time = fast })
          e)
unfolding cleanup last_wait
cleanup_each true true true e = (refl, (reap ∷ [], refl), refl, refl, refl)
cleanup_each true true false e = (refl, ([], refl), refl, refl, refl)
cleanup_each true false true e = (refl, (kill ∷ reap ∷ [], refl), refl, refl, refl)
cleanup_each true false false e = (refl, (kill ∷ [], refl), refl, refl, refl)
cleanup_each false true true e = (refl, (reap ∷ [], refl), refl, refl, refl)
cleanup_each false true false e = (refl, ([], refl), refl, refl, refl)
cleanup_each false false true e = (refl, (reap ∷ [], refl), refl, refl, refl)
cleanup_each false false false e = (refl, ([], refl), refl, refl, refl)

cleanup-Ended : (answers : Answers) (e : Raised) → Ended answers e (cleanup answers e)
cleanup-Ended answers e =
    cleanup_each answers.group_found answers.sleep_interrupted answers.reaped_in_time e

-- When run_step ends, its wait loop has stopped at the first of the child's exit, a round at or past the
-- deadline and a signal to the runner. At an exit it returns with the child reaped and no signal sent. At
-- the others it raises: it has sent SIGTERM to the group first, SIGKILL exactly if the group was there and
-- the sleep was not interrupted, no signal after the child was reaped, and it has reaped the child exactly if
-- that ends within the last wait. What it raises is the timeout of that wait, or else the interrupt of
-- the sleep, or else what ended the loop.
pub run_step-Cleaned :
    (started timeout : ℕ) (rounds : List Round) (answers : Answers) (end : End)
    → run_step started timeout rounds answers ≡ some end
    → (outcome : Option Raised) × Stops (started + timeout) rounds outcome
      × Cleaned answers outcome end
unfolding run_step
run_step-Cleaned started timeout rounds answers end h =
    elim (Option-cases (poll (started + timeout) rounds)) [
      | inl going ↦ absurd (cc (h, reduced going))
      | inr (outcome, stopped) ↦
          (outcome, poll-Stops (started + timeout) rounds outcome stopped, ended outcome stopped)
    ]
  where
    reduced :
        poll (started + timeout) rounds ≡ none → run_step started timeout rounds answers ≡ none
    reduced going = rw (run_step, going) refl

    ended :
        (outcome : Option Raised)
        → poll (started + timeout) rounds ≡ some outcome
        → Cleaned answers outcome end
    ended none stopped = some_injective (sym h ∙ rw (run_step, stopped) refl)
    ended (some e) stopped =
        let same : ◌≡◌ {A = Option End} (some (cleanup answers e)) (some end) =
          sym (rw (run_step, stopped) refl) ∙ h in
        subst (Ended answers e) (some_injective same) (cleanup-Ended answers e)

-- Rounds whose clock moves on by a sleep of five hundredths at least.
abbrev pub Ticks : ℕ → List Round → Type 0
Ticks now [] = Unit
Ticks now (exits ∷ rounds) = Unit
Ticks now (interrupts ∷ rounds) = Unit
Ticks now (runs next ∷ rounds) = (now ≤ next) × Ticks (next + 5) rounds

poll-total :
    (deadline now : ℕ) (rounds : List Round)
    → Ticks now rounds
    → now ≤ deadline + 4
    → deadline + 5 ≤ now + 5 * length rounds
    → (outcome : Option Raised) × (poll deadline rounds ≡ some outcome)
unfolding poll
poll-total deadline now [] h l k = absurd (omega arith)
poll-total deadline now (exits ∷ rounds) h l k = (none, refl)
poll-total deadline now (interrupts ∷ rounds) h l k = (some interrupt, refl)
poll-total deadline now (runs next ∷ rounds) (h, hs) l k = elim (Bool-cases (leb deadline next)) [
  | inl late ↦ (some expired, rw late refl)
  | inr early ↦
      let (outcome, found) =
        poll-total deadline (next + 5) rounds hs (ground arith) (omega arith) in
      (outcome, rw early found)
]

-- With a clock that moves on by each sleep of five hundredths, rounds whose sleeps add up to the timeout
-- and one sleep more are enough.
pub run_step-total :
    (started timeout : ℕ) (rounds : List Round) (answers : Answers)
    → Ticks started rounds
    → timeout + 5 ≤ 5 * length rounds
    → (end : End) × (run_step started timeout rounds answers ≡ some end)
unfolding run_step
run_step-total started timeout rounds answers h k =
    let (outcome, stopped) =
      poll-total (started + timeout) started rounds h (omega arith) (omega arith) in
    go outcome stopped
  where
    go :
        (outcome : Option Raised)
        → poll (started + timeout) rounds ≡ some outcome
        → (end : End) × (run_step started timeout rounds answers ≡ some end)
    go none stopped = (returned (reap ∷ []), rw (run_step, stopped) refl)
    go (some e) stopped = (cleanup answers e, rw (run_step, stopped) refl)
