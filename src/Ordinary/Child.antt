-- ===== src/Ordinary/Child.antt =====
-- run_step of check_ordinary.py: a child in a session of its own, awaited to a deadline, and its cleanup.
-- The answers of the system are arguments; a list of rounds that ends stands for a loop still running. A
-- signal to the runner is followed in the wait loop and in the sleep, not in the last wait for the child.
pub mod Cleanup
use samgita.Prelude.{
  ℕ, ◌+◌, Bool, true, false, Option, none, some, if◌then◌else◌, leb, List, [], ◌∷◌, ◌++◌,
}

-- A round of the wait loop: the child has exited, or it has not and the clock shows a time, or a signal
-- to the runner raises InterruptedError.
pub data Round : Type 0 where
  exits : Round
  runs : (now : ℕ) → Round
  interrupts : Round

-- What is done to the child: signals to its group, and the wait that reaps it.
pub data Action : Type 0 where
  terminate kill reap : Action

-- The exceptions that leave run_step: TimeoutExpired, of the deadline or of the last wait, and the interrupt.
pub data Raised : Type 0 where
  expired interrupt : Raised

-- The answers to the cleanup: SIGTERM found the group, the sleep of five seconds was interrupted, and
-- the child was reaped within five seconds.
pub record Answers : Type 0 where
  pub group_found : Bool
  pub sleep_interrupted : Bool
  pub reaped_in_time : Bool

pub data End : Type 0 where
  returned : (actions : List Action) → End
  raised : (actions : List Action) → Raised → End

-- The wait loop: `some none` when the child has exited, `some` of an exception when one is raised.
unfoldable pub poll : ℕ → List Round → Option (Option Raised)
poll deadline [] = none
poll deadline (exits ∷ rounds) = some none
poll deadline (runs now ∷ rounds) =
    let again = poll deadline rounds in if leb deadline now then some (some expired) else again
poll deadline (interrupts ∷ rounds) = some (some interrupt)

-- The finally clause. A wait that is not in time raises in place of what is being raised.
last_wait : Answers → List Action → Raised → End
last_wait answers actions e =
    if answers.reaped_in_time then raised (actions ++ reap ∷ []) e else raised actions expired

-- The handler. A group that is gone by the second signal changes nothing.
unfoldable pub cleanup : Answers → Raised → End
unfolding last_wait
cleanup answers e =
    if answers.group_found
    then if answers.sleep_interrupted
      then last_wait answers (terminate ∷ []) interrupt
      else last_wait answers (terminate ∷ kill ∷ []) e
    else last_wait answers (terminate ∷ []) e

-- The whole call; `some (returned …)` goes with the status that the child exited with.
unfoldable pub run_step : (started timeout : ℕ) → List Round → Answers → Option End
unfolding poll cleanup
run_step started timeout rounds answers = elim (poll (started + timeout) rounds) [
  | none ↦ none
  | some none ↦ some (returned (reap ∷ []))
  | some (some e) ↦ some (cleanup answers e)
]
