-- ===== src/Ordinary/Selection.antt =====
-- `commands` of check_ordinary.py: the steps of the reviewed selection.
use samgita.Prelude.{ℕ, String, List, [], ◌∷◌, ◌++◌, map}
use samgita.Ordinary.Files.{driver_tests, extra_driver_tests}
use Prim.Native.String.{◌++◌ as concat}

-- The working directories: the root, or the application of that name.
pub data Place : Type 0 where
  root driver websocket : Place

pub record Step : Type 0 where
  pub name : String
  pub cwd : Place
  pub command : List String
  pub timeout : ℕ

abbrev pub step : String → Place → List String → ℕ → Step
step name cwd command timeout = record {
  name = name;
  cwd = cwd;
  command = command;
  timeout = timeout;
}

files : List String
files = map (λ name. concat "test/" name) driver_tests

extra_files : List String
extra_files = map (λ name. concat "test/" name) extra_driver_tests

abbrev websocket_tests : List String
websocket_tests =
    "test/integration_test.exs:384" ∷ "test/integration_test.exs:442"
    ∷ "test/integration_test.exs:498" ∷ []

websocket_step : String → Step
websocket_step seed =
    step (concat "websocket-" seed) websocket
      (("mix" ∷ "test" ∷ websocket_tests) ++ "--seed" ∷ seed ∷ "--max-cases" ∷ "8" ∷ []) 120

ordinary_step : String → Step
unfolding files
ordinary_step seed =
    step (concat "ordinary-" seed) driver
      (("mix" ∷ "test" ∷ files) ++ "--warnings-as-errors" ∷ "--seed" ∷ seed ∷ []) 320

extra_step : String → Step
unfolding extra_files
extra_step seed =
    step (concat "ordinary-extra-" seed) driver
      (("mix" ∷ "test" ∷ extra_files) ++ "--warnings-as-errors" ∷ "--seed" ∷ seed ∷ []) 120

driver_steps : List Step
unfolding files extra_files
driver_steps =
    step "driver-format" driver
      (("mix" ∷ "format" ∷ "--check-formatted" ∷ files)
        ++ extra_files
        ++ "test/query_uncertainty_test.exs" ∷ [])
      120
    ∷ step "driver-compile" driver ("mix" ∷ "compile" ∷ "--warnings-as-errors" ∷ []) 320
    ∷ step "stdio-cleanup-phases" driver
        ("mix" ∷ "test" ∷ "test/stdio_owner_lifecycle_test.exs" ∷ "--warnings-as-errors" ∷ "--seed"
          ∷ "501432" ∷ [])
        30
    ∷ step "query-uncertainty" driver
        ("mix" ∷ "test" ∷ "test/query_uncertainty_test.exs" ∷ "--warnings-as-errors" ∷ "--seed"
          ∷ "501432" ∷ [])
        30
    ∷ []

root_steps : List Step
root_steps =
    step "independent-consumer" root ("python3" ∷ "-B" ∷ "scripts/codex/verify_consumer.py" ∷ [])
      600
    ∷ step "inventory-consistency" root
        ("python3" ∷ "-B" ∷ "scripts/codex/inventory.py" ∷ "--check" ∷ []) 120
    ∷ step "umbrella-compile" root ("mix" ∷ "compile" ∷ "--warnings-as-errors" ∷ []) 320
    ∷ step "root-format" root ("mix" ∷ "format" ∷ "--check-formatted" ∷ []) 120
    ∷ step "strict-credo" root ("mix" ∷ "credo" ∷ "--strict" ∷ []) 320
    ∷ step "dialyzer" root ("mix" ∷ "dialyzer" ∷ "--force-check" ∷ []) 1200
    ∷ step "assets-build" root ("mix" ∷ "assets.build" ∷ []) 320
    ∷ []

unfoldable pub commands : List Step
unfolding websocket_step ordinary_step extra_step driver_steps root_steps
commands =
    map websocket_step ("455834" ∷ "501432" ∷ "987654" ∷ [])
    ++ driver_steps
    ++ map ordinary_step ("501432" ∷ "987654" ∷ [])
    ++ map extra_step ("501432" ∷ "987654" ∷ [])
    ++ root_steps
