-- ===== src/Ordinary/Execution/Shown.antt =====
-- What a run of check_ordinary.py that passes has shown of each step.
use samgita.Prelude.{
  ℕ, suc, true, Option, none, some, String, Text, ◌≡◌, refl, ap, ◌∙◌, List, [], ◌∷◌, ◌++◌,
  Bool-cases, inl, inr, ◌⊎◌, arith, any, text_eq, text_eq→eq,
}
use samgita.Ordinary.Selection.{Step}
use samgita.Ordinary.Counts.{lines, expected_line, check_test_count}
use samgita.Ordinary.Execution.{
  Snapshot, Attempt, Exit, Code, code, minus, Row, End, passed, entry, is_good, is_zero,
  same_source, exit_code, after_attempt, run_steps,
}

-- A line of a log that is the reviewed one of a step, where it has one.
abbrev pub Listed : Text → List Text → Type 0
Listed line [] = ⊥
Listed line (l ∷ ls) = (l ≡ line) ⊎ Listed line ls

abbrev pub Shows : Option Text → List Text → Type 0
Shows none ls = Unit
Shows (some line) ls = Listed line ls

Listed-any : (line : Text) (ls : List Text) → any (λ l. text_eq l line) ls ≡ true → Listed line ls
Listed-any line [] h = absurd cc
Listed-any line (l ∷ ls) h = elim (Bool-cases (text_eq l line)) [
  | inl same ↦ inl (text_eq→eq l line same)
  | inr other ↦ inr (Listed-any line ls (rw other at h))
]

check_test_count-Shows :
    (name : String) (log : Text)
    → check_test_count name log ≡ true
    → Shows (expected_line name) (lines log)
unfolding check_test_count
check_test_count-Shows name log h = go (expected_line name) h
  where
    go :
        (expected : Option Text)
        → (elim expected [ none ↦ true | some line ↦ any (λ l. text_eq l line) (lines log) ]) ≡ true
        → Shows expected (lines log)
    go none k = tt
    go (some line) k = Listed-any line (lines log) k

code_of : Option Code → ℕ
code_of (some (code n)) = n
code_of _ = 0

-- A good entry is of a child that exited with 0, and whose log shows the count.
good-Shows :
    (step : Step) (exit : Exit) (c : Code) (log : Text)
    → exit_code exit ≡ some c
    → is_good (entry step c log) ≡ true
    → (exit ≡ Exit.status 0) × Shows (expected_line step.name) (lines log)
unfolding exit_code is_good entry is_zero code_of
good-Shows step (Exit.status n) (minus m) log e h = absurd cc
good-Shows step (Exit.status n) (code m) log e h =
    let same : n ≡ m = ap code_of e in
    let zero_exit : m ≡ 0 = ground (arith, h) in
    let counted : check_test_count step.name log ≡ true = ground (arith, h, zero_exit) in
    (ap Exit.status (same ∙ zero_exit), check_test_count-Shows step.name log counted)
good-Shows step (Exit.by_signal n) (code m) log e h = absurd cc
good-Shows step (Exit.by_signal n) (minus m) log e h = absurd (ground arith)
good-Shows step Exit.timed_out (minus m) log e h = absurd cc
good-Shows step Exit.timed_out (code m) log e h =
    let same : 124 ≡ m = ap code_of e in absurd (ground (arith, h, same))
good-Shows step Exit.interrupted c log e h = absurd cc

module _ (snapshot : ℕ → Snapshot) (attempt : ℕ → Step → Attempt) (before : Snapshot) where
  -- Every step, from the n-th on, ran on the sources of the beginning, exited with 0, and showed in its
  -- log the reviewed line that its name has, if any.
  abbrev pub Succeed : ℕ → List Step → Type 0
  Succeed n [] = Unit
  Succeed n (step ∷ steps) =
      (same_source (snapshot n) before ≡ true)
      × ((attempt n step).exit ≡ Exit.status 0)
      × Shows (expected_line step.name) (lines (attempt n step).log)
      × Succeed (suc n) steps

  after_attempt-passed :
      (step : Step) (c : Option Code) (log : Text) (results : List Row) (next : List Row → End)
      → (after_attempt snapshot attempt before step c log results next).status ≡ passed
      → (code' : Code) × (c ≡ some code')
        × (is_good (entry step code' log) ≡ true)
        × ((next (results ++ entry step code' log ∷ [])).status ≡ passed)
  unfolding after_attempt
  after_attempt-passed step none log results next h = absurd cc
  after_attempt-passed step (some c) log results next h =
      elim (Bool-cases (is_good (entry step c log))) [
        | inl good ↦ (c, refl, good, rw good at h)
        | inr bad ↦ absurd (let stop = rw bad at h in cc)
      ]

  -- The loop passes only if every step succeeds.
  pub run_steps-Succeed :
      (n : ℕ) (steps : List Step) (results : List Row)
      → (run_steps snapshot attempt before n steps results).status ≡ passed
      → Succeed n steps
  unfolding run_steps
  run_steps-Succeed n [] results h = tt
  run_steps-Succeed n (step ∷ steps) results h =
      elim (Bool-cases (same_source (snapshot n) before)) [
        | inr changed ↦ absurd (let stop = rw changed at h in cc)
        | inl same ↦
            let (c, found, good, more) =
              after_attempt-passed step (exit_code (attempt n step).exit) (attempt n step).log
                results (run_steps snapshot attempt before (suc n) steps) (rw same at h) in
            let shown = good-Shows step (attempt n step).exit c (attempt n step).log found good in
            (
              same,
              shown.0,
              shown.1,
              run_steps-Succeed (suc n) steps (results ++ entry step c (attempt n step).log ∷ [])
                  more,
            )
      ]
