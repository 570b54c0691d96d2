-- ===== src/CrashTail/Examples.antt =====
-- The crash controller on a small world, and its theorems there.
use samgita.Prelude.{
  ℕ, ◌≡◌, refl, true, false, Option, none, some, str_eq, if◌then◌else◌, Text, codes, ok, [], ◌∷◌,
  ◌++◌, ◌==◌, is_digit, is_space, int,
}
use samgita.Json.Equality.{equal}
use samgita.Json.{get, Value, number, text, list, nil, cons, Fields, end, field}
use samgita.CrashTail.Proc.{
  equal_facts, after_last_paren, after_last_paren-name, facts, argv, homes,
}
use samgita.CrashTail.Spec.{World, read_spec, preconditions}
use samgita.CrashTail.Checks.{facts_at, validate}
use samgita.CrashTail.Run.{quiet, run}

abbrev zeros : Text
zeros = codes " 0 0 0 0 0 0 0 0 0 0 0 0 0 0 0"

abbrev nul : Text
nul = 0 ∷ []

abbrev environ : Text
environ = codes "HOME=/h" ++ nul ++ codes "CODEX_HOME=/c" ++ nul

-- The native process has pid 7 and gets the descriptor 70, the helper has pid 5 and gets 50.
abbrev by_pid {ℓ} : {A : Type ℓ} → A → A → ℕ → Option A
by_pid native helper pid = if pid == 7 then some native else if pid == 5 then some helper else none

abbrev world : World
world = record {
  has_pidfds = true;
  own_pid = 9;
  digest = λ path.
      if str_eq path "/b" then some "bbb" else if str_eq path "/s" then some "sss" else none;
  pidfd_open = by_pid 70 50;
  alive = λ moment fd. true;
  stat = λ moment.
      by_pid (codes "7 (co) dex) S 5 7 7" ++ zeros ++ codes " 700 1")
        (codes "5 (python) S 3 5 5" ++ zeros ++ codes " 500 1");
  cmdline =
      by_pid (codes "/b" ++ nul ++ codes "run" ++ nul)
        (codes "/p" ++ nul ++ codes "/s" ++ nul ++ codes "/b" ++ nul ++ codes "run" ++ nul);
  environ = by_pid environ environ;
  executable = by_pid (1, 10) (1, 20);
  expected_executable = λ pid path.
      if str_eq path "/b" then some (1, 10) else if str_eq path "/p" then some (1, 20) else none;
  exe_digest = by_pid "bbb" "ppp";
  cwd = by_pid (1, 30) (1, 30);
  expected_cwd = λ pid path. if str_eq path "/w" then some (1, 30) else none;
  sends = λ fd. true;
  exits = λ fd. true;
  has_proc = λ pid. false;
}

abbrev native_argv : Value
native_argv = list (cons (text "/b") (cons (text "run") nil))

abbrev helper_argv : Value
helper_argv = list (cons (text "/p") (cons (text "/s") (cons (text "/b") (cons (text "run") nil))))

abbrev spec : Fields
spec = field "parent_pid" (number 3) (
    field "native_pid" (number 7) (
      field "helper_pid" (number 5) (
        field "native_start" (text "700") (
          field "helper_start" (text "500") (
            field "native_argv" native_argv (
              field "helper_argv" helper_argv (
                field "home" (text "/h") (
                  field "codex_home" (text "/c") (
                    field "cwd" (text "/w") (
                      field "binary" (text "/b") (
                        field "binary_sha256" (text "bbb") (
                          field "helper" (text "/s") (
                            field "helper_sha256" (text "sss")
                              (field "python" (text "/p") end))))))))))))))

-- The run ends well, with one signal, to the descriptor of process 7.
run-spec :
    run world spec quiet
    ≡ (ok tt, record { signals = 70 ∷ []; opened = 50 ∷ 70 ∷ []; closed = 50 ∷ 70 ∷ [] })
unfolding run facts_at read_spec get preconditions is_digit equal validate facts is_space
    equal_facts int argv homes
run-spec = refl

after_last_paren-name_example :
    after_last_paren (codes "7 (a) b" ++ codes ")" ++ codes " S 1") ≡ some (codes " S 1")
after_last_paren-name_example = after_last_paren-name (codes "7 (a) b") (codes " S 1") refl
