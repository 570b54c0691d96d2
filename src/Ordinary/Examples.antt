-- ===== src/Ordinary/Examples.antt =====
-- The ordinary runner on three steps, and its theorems there.
use samgita.Prelude.{
  Option, ◌+◌, some, false, arith, ℕ, ◌≡◌, refl, true, codes, List, [], ◌∷◌, All, length,
}
use samgita.Ordinary.Child.{
  Round, runs, Answers, End, Raised, raised, terminate, kill, reap, expired, run_step,
}
use samgita.Ordinary.Child.Cleanup.{Stops, Cleaned, run_step-Cleaned, run_step-total}
use samgita.Ordinary.Selection.{Step, root, step, commands}
use samgita.Ordinary.Counts.{check_test_count}
use samgita.Ordinary.Execution.{
  Snapshot, Attempt, is_good, exit_code, entry, same_source, status, passed, stopped, finish,
  Status, execute, run_steps,
}
use samgita.Ordinary.Execution.Shown.{Succeed}
use samgita.Ordinary.Execution.Order.{Ran, names, step_names, execute-Ran, execute-passed}

abbrev steps : List Step
steps =
    step "root-format" root ("mix" ∷ "format" ∷ []) 120
    ∷ step "query-uncertainty" root ("mix" ∷ "test" ∷ []) 30
    ∷ []

abbrev sources : Snapshot
sources = ("mix.exs", "d0") ∷ []

abbrev green : ℕ → Step → Attempt
green n s = record { exit = status 0; log = codes "ok\n29 tests, 0 failures\n" }

abbrev red : ℕ → Step → Attempt
red n s = record { exit = status 0; log = codes "28 tests, 0 failures\n" }

-- A step that exits with 0 but shows another count stops the run.
red_stops :
    (execute (λ n. sources) red sources sources steps).outcome.status ≡ stopped "query-uncertainty"
unfolding execute run_steps entry is_good check_test_count same_source exit_code
red_stops = refl

green_passes : (execute (λ n. sources) green sources sources steps).outcome.status ≡ passed
unfolding execute run_steps entry is_good check_test_count same_source exit_code
green_passes = refl

execute-Ran_example :
    (s : Status) × Ran steps (execute (λ n. sources) red sources sources steps).outcome.results s
    × ((execute (λ n. sources) red sources sources steps).outcome.status
        ≡ finish (same_source sources sources) s)
    × ((execute (λ n. sources) red sources sources steps).completed
        ≡ length (execute (λ n. sources) red sources sources steps).outcome.results)
    × ((execute (λ n. sources) red sources sources steps).planned ≡ 2)
execute-Ran_example = execute-Ran (λ n. sources) red sources sources steps

execute-passed_example :
    (names (execute (λ n. sources) green sources sources steps).outcome.results ≡ step_names steps)
    × All
        (λ r. is_good r ≡ true)
        (execute (λ n. sources) green sources sources steps).outcome.results
    × Succeed (λ n. sources) green sources 0 steps
    × ((execute (λ n. sources) green sources sources steps).completed
        ≡ (execute (λ n. sources) green sources sources steps).planned)
    × (same_source sources sources ≡ true)
execute-passed_example = execute-passed (λ n. sources) green sources sources steps green_passes

-- The selection has eighteen steps.
eighteen_steps : length commands ≡ 18
unfolding commands
eighteen_steps = refl

-- A child that outlives a deadline of ten hundredths, and is gone after the two signals.
abbrev late : List Round
late = runs 0 ∷ runs 5 ∷ runs 10 ∷ []

abbrev answers : Answers
answers = record { group_found = true; sleep_interrupted = false; reaped_in_time = true }

abbrev late_end : End
late_end = raised (terminate ∷ kill ∷ reap ∷ []) expired

late-ends : run_step 0 10 late answers ≡ some late_end
unfolding run_step
late-ends = refl

run_step-Cleaned_example :
    (outcome : Option Raised) × Stops (0 + 10) late outcome × Cleaned answers outcome late_end
run_step-Cleaned_example = run_step-Cleaned 0 10 late answers late_end late-ends

run_step-total_example : (end : End) × (run_step 0 10 late answers ≡ some end)
run_step-total_example =
    run_step-total 0 10 late answers (omega arith, (omega arith, (omega arith, tt))) (omega arith)
