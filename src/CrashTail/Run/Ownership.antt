-- ===== src/CrashTail/Run/Ownership.antt =====
-- What the crash controller has established when it signals, and what it leaves behind.
use samgita.Prelude.{
  ℕ, Bool, true, false, Option, none, some, String, codes, ◌&&◌, ◌==◌, text_eq, Result, ok, raise,
  ◌>>=◌, ◌≡◌, refl, ap, ◌∙◌, >>=-eq-ok, arith, eq_iff, text_eq→eq,
}
use mathlib.Core.Path.{subst}
use samgita.CrashTail.Proc.{Failure, require, Facts, equal_facts}
use samgita.CrashTail.Spec.{first_look, last_look, World, Spec, found}
use samgita.CrashTail.Checks.{
  expected_facts, facts_at, check_identity, check_arguments, check_images, check_places,
  check_unchanged, validate, and_also, has_argv, same_executable, has_homes, in_cwd, same_facts,
}

-- What the checks have established of the processes of two descriptors and of the two pids.
pub record IsOwned (w : World) (s : Spec) (fd helper_fd : ℕ) : Type 0 where
  pub native_opened : w.pidfd_open s.native_pid ≡ some fd
  pub helper_opened : w.pidfd_open s.helper_pid ≡ some helper_fd
  -- Both processes live at the first poll, before any other read, and at the last, after all of them.
  pub native_alive : (w.alive first_look fd ≡ true) × (w.alive last_look fd ≡ true)
  pub helper_alive : (w.alive first_look helper_fd ≡ true) × (w.alive last_look helper_fd ≡ true)
  -- The facts of the native pid are both times those of the spec; those of the helper do not change.
  pub native_first : facts_at w first_look s.native_pid ≡ ok (expected_facts s)
  pub native_last : facts_at w last_look s.native_pid ≡ ok (expected_facts s)
  pub helper_facts : Facts
  pub helper_first : facts_at w first_look s.helper_pid ≡ ok helper_facts
  pub helper_last : facts_at w last_look s.helper_pid ≡ ok helper_facts
  pub helper_parent : helper_facts.ppid ≡ s.parent_pid
  pub helper_started : helper_facts.start ≡ codes s.helper_start
  -- The arguments, the executables, the homes, the working directories and the image.
  pub native_argv : has_argv w s.native_pid s.native_argv ≡ ok true
  pub helper_argv : has_argv w s.helper_pid s.helper_argv ≡ ok true
  pub native_executable : same_executable w s.native_pid s.binary ≡ ok true
  pub helper_executable : same_executable w s.helper_pid s.python ≡ ok true
  pub native_homes : has_homes w s s.native_pid ≡ ok true
  pub helper_homes : has_homes w s s.helper_pid ≡ ok true
  pub native_cwd : in_cwd w s s.native_pid ≡ ok true
  pub helper_cwd : in_cwd w s s.helper_pid ≡ ok true
  pub pinned : w.exe_digest s.native_pid ≡ some s.binary_sha256

require-ok : (b : Bool) (m : String) → require b m ≡ ok tt → b ≡ true
require-ok true m h = refl
require-ok false m h = cc

found-ok {ℓ} : {A : Type ℓ} (o : Option A) {a : A} → found o ≡ ok a → o ≡ some a
found-ok none h = cc
found-ok (some b) h = cc

equal_facts→eq : (f g : Facts) → equal_facts f g ≡ true → f ≡ g
unfolding equal_facts
equal_facts→eq f g h = ground (arith, text_eq→eq f.start g.start)

ok-injective {ℓ} : {A : Type ℓ} {a b : A} → ◌≡◌ {A = Result Failure A} (ok a) (ok b) → a ≡ b
ok-injective h = cc

and_also-ok :
    (left right : Result Failure Bool)
    → and_also left right ≡ ok true
    → (left ≡ ok true) × (right ≡ ok true)
unfolding and_also
and_also-ok (raise e) right h = absurd cc
and_also-ok (ok false) right h = absurd (cc)
and_also-ok (ok true) right h = (refl, h)

-- A conjunction of two calls that is required.
both-ok :
    (left right : Result Failure Bool) (m : String)
    → (and_also left right >>= λ same. require same m) ≡ ok tt
    → (left ≡ ok true) × (right ≡ ok true)
both-ok left right m h =
    let (same, called, required) = >>=-eq-ok (and_also left right) (λ same. require same m) h in
    and_also-ok left right (called ∙ ap ok (require-ok same m required))

check_identity-ok :
    (w : World) (s : Spec) (before : Facts × Facts)
    → check_identity w s ≡ ok before
    → (facts_at w first_look s.native_pid ≡ ok (expected_facts s))
      × (facts_at w first_look s.helper_pid ≡ ok before.1)
      × (before.0 ≡ expected_facts s)
      × (before.1.ppid ≡ s.parent_pid)
      × (before.1.start ≡ codes s.helper_start)
unfolding check_identity
check_identity-ok w s before h =
    let (f, e1, h1) = >>=-eq-ok (facts_at w first_look s.native_pid) _ h in
    let (g, e2, h2) = >>=-eq-ok (facts_at w first_look s.helper_pid) _ h1 in
    let (_, e3, h3) =
      >>=-eq-ok (require (equal_facts f (expected_facts s)) "Owned native process identity") _ h2 in
    let (_, e4, h4) =
      >>=-eq-ok
        (require (g.ppid == s.parent_pid && text_eq g.start (codes s.helper_start))
          "Owned helper process identity")
        _ h3 in
    let b = require-ok _ _ e4 in
    let same : f ≡ expected_facts s = equal_facts→eq _ _ (require-ok _ _ e3) in
    let found_pair : (f, g) ≡ before = ok-injective h4 in
    subst
      (λ (p : Facts × Facts).
        (facts_at w first_look s.native_pid ≡ ok (expected_facts s))
        × (facts_at w first_look s.helper_pid ≡ ok p.1)
        × (p.0 ≡ expected_facts s)
        × (p.1.ppid ≡ s.parent_pid)
        × (p.1.start ≡ codes s.helper_start))
      found_pair (e1 ∙ ap ok same, e2, same, ground (arith, b), text_eq→eq _ _ (ground (arith, b)))

check_images-ok :
    (w : World) (s : Spec)
    → check_images w s ≡ ok tt
    → (same_executable w s.native_pid s.binary ≡ ok true)
      × (same_executable w s.helper_pid s.python ≡ ok true)
      × (w.exe_digest s.native_pid ≡ some s.binary_sha256)
unfolding check_images
check_images-ok w s h =
    let left = same_executable w s.native_pid s.binary in
    let right = same_executable w s.helper_pid s.python in
    let (same, e1, h1) = >>=-eq-ok (and_also left right) _ h in
    let (_, e2, h2) = >>=-eq-ok (require same "Owned pair executable identity") _ h1 in
    let (image, e3, h3) = >>=-eq-ok (found (w.exe_digest s.native_pid)) _ h2 in
    let pair = and_also-ok left right (e1 ∙ ap ok (require-ok _ _ e2)) in
    (pair.0, pair.1, found-ok _ e3 ∙ ap some ((eq_iff image s.binary_sha256).0 (require-ok _ _ h3)))

check_places-ok :
    (w : World) (s : Spec)
    → check_places w s ≡ ok tt
    → (has_homes w s s.native_pid ≡ ok true)
      × (has_homes w s s.helper_pid ≡ ok true)
      × (in_cwd w s s.native_pid ≡ ok true)
      × (in_cwd w s s.helper_pid ≡ ok true)
unfolding check_places
check_places-ok w s h =
    let left = has_homes w s s.native_pid in
    let right = has_homes w s s.helper_pid in
    let (same, e1, h1) = >>=-eq-ok (and_also left right) _ h in
    let (_, e2, h2) = >>=-eq-ok (require same "Owned pair home identity") _ h1 in
    let homes_of = and_also-ok left right (e1 ∙ ap ok (require-ok _ _ e2)) in
    let cwds = both-ok (in_cwd w s s.native_pid) (in_cwd w s s.helper_pid) _ h2 in
    (homes_of.0, homes_of.1, cwds.0, cwds.1)

same_facts-ok :
    (w : World) (pid : ℕ) (before : Facts)
    → same_facts w pid before ≡ ok true
    → facts_at w last_look pid ≡ ok before
unfolding same_facts
same_facts-ok w pid before h =
    let (again, read, same) = >>=-eq-ok (facts_at w last_look pid) _ h in
    read ∙ ap ok (equal_facts→eq again before (ok-injective same))

check_unchanged-ok :
    (w : World) (s : Spec) (before : Facts × Facts) (fd helper_fd : ℕ)
    → check_unchanged w s before fd helper_fd ≡ ok tt
    → (facts_at w last_look s.native_pid ≡ ok before.0)
      × (facts_at w last_look s.helper_pid ≡ ok before.1)
      × (w.alive last_look fd ≡ true)
      × (w.alive last_look helper_fd ≡ true)
unfolding check_unchanged
check_unchanged-ok w s before fd helper_fd h =
    let left = same_facts w s.native_pid before.0 in
    let right = same_facts w s.helper_pid before.1 in
    let (same, e1, h1) = >>=-eq-ok (and_also left right) _ h in
    let b = require-ok _ _ h1 in
    let all_same : same ≡ true = ground (arith, b) in
    let pair = and_also-ok left right (e1 ∙ ap ok all_same) in
    (
      same_facts-ok w s.native_pid before.0 pair.0,
      same_facts-ok w s.helper_pid before.1 pair.1,
      ground (arith, b),
      ground (arith, b),
    )

pub validate-IsOwned :
    (w : World) (s : Spec) (fd helper_fd : ℕ)
    → w.pidfd_open s.native_pid ≡ some fd
    → w.pidfd_open s.helper_pid ≡ some helper_fd
    → validate w s fd helper_fd ≡ ok tt
    → IsOwned w s fd helper_fd
unfolding validate check_arguments
validate-IsOwned w s fd helper_fd native_opened helper_opened h =
    let (_, polled, h1) =
      >>=-eq-ok
        (require (w.alive first_look fd && w.alive first_look helper_fd)
          "Owned pair exited before crash")
        _ h in
    let (before, id, h2) = >>=-eq-ok (check_identity w s) _ h1 in
    let (_, arguments, h3) = >>=-eq-ok (check_arguments w s) _ h2 in
    let (_, images, h4) = >>=-eq-ok (check_images w s) _ h3 in
    let (_, places, h5) = >>=-eq-ok (check_places w s) _ h4 in
    let b = require-ok _ _ polled in
    let i = check_identity-ok w s before id in
    let a =
      both-ok (has_argv w s.native_pid s.native_argv) (has_argv w s.helper_pid s.helper_argv) _
        arguments in
    let m = check_images-ok w s images in
    let p = check_places-ok w s places in
    let u = check_unchanged-ok w s before fd helper_fd h5 in
    record {
      native_opened = native_opened;
      helper_opened = helper_opened;
      native_alive = (ground (arith, b), u.2);
      helper_alive = (ground (arith, b), u.3);
      native_first = i.0;
      native_last = u.0 ∙ ap ok i.2;
      helper_facts = before.1;
      helper_first = i.1;
      helper_last = u.1;
      helper_parent = i.3;
      helper_started = i.4;
      native_argv = a.0;
      helper_argv = a.1;
      native_executable = m.0;
      helper_executable = m.1;
      native_homes = p.0;
      helper_homes = p.1;
      native_cwd = p.2;
      helper_cwd = p.3;
      pinned = m.2;
    }
