-- ===== src/Ordinary/Execution.antt =====
-- `execute` and `main` of check_ordinary.py. The file system and the children come as functions of the
-- number of steps done: what `source_snapshot` returns then, and what running the next step gives.
pub mod Shown
pub mod Order
use samgita.Prelude.{
  ℕ, suc, ◌+◌, Bool, true, false, not, Option, none, some, String, str_eq, Text, ◌==◌,
  if◌then◌else◌, ◌&&◌, length, List, [], ◌∷◌, ◌++◌,
}
use samgita.Ordinary.Selection.{Step}
use samgita.Ordinary.Counts.{check_test_count}

-- The digests of the source files, by path.
abbrev pub Snapshot : Type 0
Snapshot = List (String × String)

unfoldable pub same_source : Snapshot → Snapshot → Bool
same_source [] [] = true
same_source ((p, d) ∷ s) ((q, e) ∷ t) = str_eq p q && str_eq d e && same_source s t
same_source _ _ = false

-- A child's exit: its status, minus a signal's number, subprocess.TimeoutExpired, or an exception of
-- the runner itself, as when a signal interrupts it.
pub data Exit : Type 0 where
  status : ℕ → Exit
  by_signal : ℕ → Exit
  timed_out : Exit
  interrupted : Exit

pub record Attempt : Type 0 where
  pub exit : Exit
  pub log : Text

pub data Code : Type 0 where
  code : ℕ → Code
  minus : ℕ → Code

pub record Row : Type 0 where
  pub name : String
  pub exit_code : Code
  pub count_error : Bool

pub data Status : Type 0 where
  passed : Status
  stopped : (at : String) → Status
  source_changed : Status
  failed : Status

-- An attempt's exit code, 124 for a timeout; `none` if an exception leaves the loop.
unfoldable pub exit_code : Exit → Option Code
exit_code (status n) = some (code n)
exit_code (by_signal n) = some (minus n)
exit_code timed_out = some (code 124)
exit_code interrupted = none

is_zero : Code → Bool
is_zero (code n) = n == 0
is_zero (minus n) = false

-- One entry of results.json. The log is only read for a step that exited with 0.
unfoldable pub entry : Step → Code → Text → Row
unfolding is_zero
entry step c log = record {
  name = step.name;
  exit_code = c;
  count_error = is_zero c && not (check_test_count step.name log);
}

unfoldable pub is_good : Row → Bool
unfolding is_zero
is_good row = is_zero row.exit_code && not row.count_error

pub record End : Type 0 where
  pub results : List Row
  pub status : Status

-- source.json, written in the `finally` block, and what the call then does.
pub record Evidence : Type 0 where
  pub identical : Bool
  pub completed : ℕ
  pub planned : ℕ
  pub outcome : End

-- A change of the sources after the last step.
pub finish : Bool → Status → Status
finish false passed = source_changed
finish _ other = other

module _ (snapshot : ℕ → Snapshot) (attempt : ℕ → Step → Attempt) (before : Snapshot) where
  -- What follows an attempt: leave the loop, stop at a bad entry, or go on.
  after_attempt : Step → Option Code → Text → List Row → (List Row → End) → End
  after_attempt step none log results next = record { results = results; status = failed }
  after_attempt step (some c) log results next =
      let results' = results ++ entry step c log ∷ [] in
      if is_good (entry step c log)
      then next results'
      else record { results = results'; status = stopped step.name }

  -- The loop over the steps; `n` steps are done.
  unfoldable pub run_steps : ℕ → List Step → List Row → End
  unfolding after_attempt
  run_steps n [] results = record { results = results; status = passed }
  run_steps n (step ∷ steps) results =
      let next = run_steps (suc n) steps in
      if same_source (snapshot n) before
      then after_attempt step (exit_code (attempt n step).exit) (attempt n step).log results next
      else record { results = results; status = source_changed }

  -- `after` is the snapshot that the `finally` block takes.
  unfoldable pub execute : Snapshot → List Step → Evidence
  unfolding finish
  execute after steps =
      let end = run_steps 0 steps [] in
      let identical = same_source after before in
      record {
        identical = identical;
        completed = length end.results;
        planned = length steps;
        outcome = record end { status = finish identical end.status };
      }
