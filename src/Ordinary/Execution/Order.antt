-- ===== src/Ordinary/Execution/Order.antt =====
-- What results.json holds when check_ordinary.py ends.
use samgita.Prelude.{
  ℕ, suc, Bool, true, false, Option, none, some, String, Text, ◌≡◌, refl, sym, ap, ◌∙◌, length,
  List, [], ◌∷◌, ◌++◌, map, append_assoc, append-nil, Bool-cases, inl, inr, ◌⊎◌, All, arith,
}
use mathlib.Core.Path.{subst}
use samgita.Ordinary.Selection.{Step}
use samgita.Ordinary.Execution.Shown.{Succeed, run_steps-Succeed}
use samgita.Ordinary.Execution.{
  Snapshot, Attempt, Code, Row, End, Status, passed, stopped, source_changed, failed, entry,
  is_good, same_source, exit_code, after_attempt, run_steps, Evidence, finish, execute,
}

-- How a list of steps leads to the entries of results.json and a status: each entry but a last bad one
-- is good and belongs to the step in its place, and nothing runs after the loop is left.
pub data Ran : List Step → List Row → Status → Type 0 where
  all_done : Ran [] [] passed
  left :
      (step : Step) (steps : List Step) (status : Status)
      → (status ≡ source_changed) ⊎ (status ≡ failed)
      → Ran (step ∷ steps) [] status
  step_failed :
      (step : Step) (steps : List Step) (row : Row)
      → row.name ≡ step.name
      → is_good row ≡ false
      → Ran (step ∷ steps) (row ∷ []) (stopped step.name)
  step_passed :
      (step : Step) (steps : List Step) (row : Row) (rows : List Row) (status : Status)
      → row.name ≡ step.name
      → is_good row ≡ true
      → Ran steps rows status
      → Ran (step ∷ steps) (row ∷ rows) status

-- The loop only appends to the entries that it has.
abbrev Adds : List Step → List Row → End → Type 0
Adds steps results end =
    (rows : List Row) × (end.results ≡ results ++ rows) × Ran steps rows end.status

module _ (snapshot : ℕ → Snapshot) (attempt : ℕ → Step → Attempt) (before : Snapshot) where
  after_attempt-Adds :
      (step : Step) (steps : List Step) (c : Option Code) (log : Text) (results : List Row)
      (next : List Row → End)
      → ((r : List Row) → Adds steps r (next r))
      → Adds (step ∷ steps) results (after_attempt snapshot attempt before step c log results next)
  unfolding after_attempt
  after_attempt-Adds step steps none log results next h =
      ([], sym (append-nil results), left step steps failed (inr refl))
  after_attempt-Adds step steps (some c) log results next h =
      elim (Bool-cases (is_good (entry step c log))) [
        | inl good ↦
            let (rows, e, ran) = h (results ++ entry step c log ∷ []) in
            rw good (
              entry step c log ∷ rows,
              e ∙ append_assoc results (entry step c log ∷ []) rows,
              step_passed step steps (entry step c log) rows _ (unfold entry in refl) good ran,
            )
        | inr bad ↦ rw bad (
          entry step c log ∷ [],
          refl,
          step_failed step steps (entry step c log) (unfold entry in refl) bad,
        )
      ]

  run_steps-Adds :
      (n : ℕ) (steps : List Step) (results : List Row)
      → Adds steps results (run_steps snapshot attempt before n steps results)
  unfolding run_steps
  run_steps-Adds n [] results = ([], sym (append-nil results), all_done)
  run_steps-Adds n (step ∷ steps) results =
      let more =
        after_attempt-Adds step steps (exit_code (attempt n step).exit) (attempt n step).log results
          (run_steps snapshot attempt before (suc n) steps) (run_steps-Adds (suc n) steps) in
      elim (Bool-cases (same_source (snapshot n) before)) [
        | inl same ↦ rw same more
        | inr changed ↦
            rw changed ([], sym (append-nil results), left step steps source_changed (inl refl))
      ]

abbrev pub names : List Row → List String
names rows = map (λ (r : Row). r.name) rows

abbrev pub step_names : List Step → List String
step_names steps = map (λ (s : Step). s.name) steps

Ran-passed :
    {steps : List Step} {rows : List Row} {status : Status}
    → Ran steps rows status
    → status ≡ passed
    → (names rows ≡ step_names steps)
      × All (λ r. is_good r ≡ true) rows
      × (length rows ≡ length steps)
Ran-passed all_done e = (refl, tt, refl)
Ran-passed (left step steps status (inl c)) e = cc
Ran-passed (left step steps status (inr c)) e = cc
Ran-passed (step_failed step steps row n bad) e = cc
Ran-passed (step_passed step steps row rows status n good ran) e =
    let (same, all_good, l) = Ran-passed ran e in (cc, (good, all_good), ap suc l)

module _ (snapshot : ℕ → Snapshot) (attempt : ℕ → Step → Attempt) (before after : Snapshot)
    (steps : List Step) where
  abbrev evidence : Evidence
  evidence = execute snapshot attempt before after steps

  loop-Ran :
      Ran steps
        (run_steps snapshot attempt before 0 steps []).results
        (run_steps snapshot attempt before 0 steps []).status
  loop-Ran =
      let (rows, e, ran) = run_steps-Adds snapshot attempt before 0 steps [] in
      subst (λ r. Ran steps r (run_steps snapshot attempt before 0 steps []).status) (sym e) ran

  finish-passed :
      (identical : Bool) (s : Status)
      → finish identical s ≡ passed
      → (s ≡ passed) × (identical ≡ true)
  unfolding finish
  finish-passed false s h = ground arith
  finish-passed true s h = (h, refl)

  -- However the sources and the children behave: the entries written are those of the first steps, in
  -- order, each good but perhaps the last, at which the run stopped; the status is the loop's, unless
  -- that passed and the sources differ at the end; and the counts are those of the entries and steps.
  pub execute-Ran :
      (status : Status) × Ran steps evidence.outcome.results status
      × (evidence.outcome.status ≡ finish (same_source after before) status)
      × (evidence.completed ≡ length evidence.outcome.results)
      × (evidence.planned ≡ length steps)
  unfolding execute
  execute-Ran = ((run_steps snapshot attempt before 0 steps []).status, loop-Ran, refl, refl, refl)

  -- When the run passes, every planned step has an entry, in order, with exit code 0 and no count error;
  -- each step ran on the sources of the beginning, its child exited with 0, and its log has the line with
  -- the reviewed test count, if its name has one; and the sources are at the end what they were before.
  pub execute-passed :
      evidence.outcome.status ≡ passed
      → (names evidence.outcome.results ≡ step_names steps)
        × All (λ r. is_good r ≡ true) evidence.outcome.results
        × Succeed snapshot attempt before 0 steps
        × (evidence.completed ≡ evidence.planned)
        × (same_source after before ≡ true)
  unfolding execute
  execute-passed h =
      let (p, same) = finish-passed (same_source after before) _ h in
      let (n, g, l) = Ran-passed loop-Ran p in
      (n, g, run_steps-Succeed snapshot attempt before 0 steps [] p, l, same)
