-- ===== src/CrashTail/Checks.antt =====
-- The checks of `run` between the opening of both pidfds and the signal.
use samgita.Prelude.{
  ℕ, Bool, true, false, Option, none, some, String, Text, codes, text_eq, str_eq, ◌&&◌, ◌==◌,
  Result, ok, raise, ◌>>=◌, ◌>>◌, List, [], ◌∷◌,
}
use samgita.Json.{text, Items, nil, cons}
use samgita.CrashTail.Proc.{Failure, require, Facts, facts, equal_facts, argv, Homes, homes}
use samgita.CrashTail.Spec.{Moment, first_look, last_look, World, found, Spec}

abbrev strings : List Text → Items → Bool
strings [] nil = true
strings (t ∷ ts) (cons (text s) vs) = text_eq t (codes s) && strings ts vs
strings _ _ = false

pair_eq : ℕ × ℕ → ℕ × ℕ → Bool
pair_eq p q = p.0 == q.0 && p.1 == q.1

equal_home : Option Text → String → Bool
equal_home none s = false
equal_home (some t) s = text_eq t (codes s)

owned_homes : Spec → Homes → Bool
unfolding equal_home
owned_homes s h = equal_home h.home s.home && equal_home h.codex_home s.codex_home

unfoldable pub expected_facts : Spec → Facts
expected_facts s = record {
  ppid = s.helper_pid;
  pgrp = s.native_pid;
  session = s.native_pid;
  start = codes s.native_start;
}

-- left and right, where the right is not called if the left is false.
unfoldable pub and_also : Result Failure Bool → Result Failure Bool → Result Failure Bool
and_also (raise e) right = raise e
and_also (ok false) right = ok false
and_also (ok true) right = right

-- facts(pid)
unfoldable pub facts_at : World → Moment → ℕ → Result Failure Facts
facts_at w moment pid = do stat ← found (w.stat moment pid); facts stat

unfoldable pub check_identity : World → Spec → Result Failure (Facts × Facts)
unfolding expected_facts facts_at
check_identity w s = do
  native ← facts_at w first_look s.native_pid
  helper ← facts_at w first_look s.helper_pid
  require (equal_facts native (expected_facts s)) "Owned native process identity"
  require (helper.ppid == s.parent_pid && text_eq helper.start (codes s.helper_start))
      "Owned helper process identity"
  ok (native, helper)

-- argv(pid) == expected
pub has_argv : World → ℕ → Items → Result Failure Bool
has_argv w pid expected = do
  cmdline ← found (w.cmdline pid)
  arguments ← argv cmdline
  ok (strings arguments expected)

unfoldable pub check_arguments : World → Spec → Result Failure (Unit {0})
unfolding and_also has_argv
check_arguments w s = do
  same ← and_also (has_argv w s.native_pid s.native_argv) (has_argv w s.helper_pid s.helper_argv)
  require same "Owned pair argv identity"

pub same_executable : World → ℕ → String → Result Failure Bool
unfolding pair_eq
same_executable w pid path = do
  actual ← found (w.executable pid)
  wanted ← found (w.expected_executable pid path)
  ok (pair_eq actual wanted)

unfoldable pub check_images : World → Spec → Result Failure (Unit {0})
unfolding and_also same_executable
check_images w s = do
  same ←
      and_also (same_executable w s.native_pid s.binary) (same_executable w s.helper_pid s.python)
  require same "Owned pair executable identity"
  image ← found (w.exe_digest s.native_pid)
  require (str_eq image s.binary_sha256) "Owned running native binary hash"

-- homes(pid) == expected_homes
pub has_homes : World → Spec → ℕ → Result Failure Bool
unfolding owned_homes
has_homes w s pid = do
  environ ← found (w.environ pid)
  its_homes ← homes environ
  ok (owned_homes s its_homes)

-- os.path.samefile
pub in_cwd : World → Spec → ℕ → Result Failure Bool
unfolding pair_eq
in_cwd w s pid = do
  actual ← found (w.cwd pid)
  wanted ← found (w.expected_cwd pid s.cwd)
  ok (pair_eq actual wanted)

unfoldable pub check_places : World → Spec → Result Failure (Unit {0})
unfolding and_also has_homes in_cwd
check_places w s = do
  same_homes ← and_also (has_homes w s s.native_pid) (has_homes w s s.helper_pid)
  require same_homes "Owned pair home identity"
  same_cwd ← and_also (in_cwd w s s.native_pid) (in_cwd w s s.helper_pid)
  require same_cwd "Owned pair cwd identity"

-- facts(pid) == before
unfoldable pub same_facts : World → ℕ → Facts → Result Failure Bool
unfolding facts_at
same_facts w pid before = do again ← facts_at w last_look pid; ok (equal_facts again before)

unfoldable pub check_unchanged :
    World → Spec → Facts × Facts → (fd helper_fd : ℕ) → Result Failure (Unit {0})
unfolding and_also same_facts
check_unchanged w s before fd helper_fd = do
  same ← and_also (same_facts w s.native_pid before.0) (same_facts w s.helper_pid before.1)
  require (same && w.alive last_look fd && w.alive last_look helper_fd)
      "Owned pair changed during validation"

-- The checks between the opening of both pidfds and the signal.
unfoldable pub validate : World → Spec → (fd helper_fd : ℕ) → Result Failure (Unit {0})
unfolding check_identity check_arguments check_images check_places check_unchanged
validate w s fd helper_fd = do
  require (w.alive first_look fd && w.alive first_look helper_fd) "Owned pair exited before crash"
  before ← check_identity w s
  check_arguments w s
  check_images w s
  check_places w s
  check_unchanged w s before fd helper_fd
