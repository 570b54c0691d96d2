-- ===== src/Release/Staging/Order.antt =====
-- The order of the effects of prepare of release.py.
use samgita.Prelude.{
  none, String, Text, List, [], ◌∷◌, ◌++◌, ◌≡◌, ◌⊎◌, inl, inr, refl, append_assoc, append-nil, map,
  ok, raise, sym, Result,
}
use mathlib.Core.Path.{subst}
use samgita.Release.Version.{Fault}
use samgita.Release.Changes.{app, Sources, source_of, Checkout, version_changes, Updates}
use samgita.Release.Staging.{
  Effect, make_output, make_target, write_staged, Run, Disk, attempt, attempt_all, package_files,
  staged_manifest, copy, stage_package, stage_packages, inputs_exist, checkout_writes, prepare,
}
use samgita.Release.Staging.Attempts.{
  Stages, IsStaged, attempt-IsStaged, attempt_all-IsStaged, refuse-IsStaged, copies-Stages,
  Attempted, attempt_all-raised, attempt_all-Attempted,
}

-- The effects that stage a package: its directory, its inputs in their order, its manifest.
abbrev pub package_plan : Disk → Sources → String → List String → List Effect
package_plan disk updated name files =
    (make_target name ∷ map (copy disk name) files) ++ elim (source_of (app name) updated) [
      | raise fault ↦ []
      | ok source ↦ write_staged name (staged_manifest name source) ∷ []
    ]

abbrev pub packages_plan : Disk → Sources → List (String × List String) → List Effect
packages_plan disk updated [] = []
packages_plan disk updated ((name, files) ∷ rest) =
    package_plan disk updated name files ++ packages_plan disk updated rest

stage_package-IsStaged :
    (disk : Disk) (updated : Sources) (name : String) (files : List String) (planned : List Effect)
    (r : Run)
    → IsStaged planned r
    → IsStaged
        (planned ++ package_plan disk updated name files)
        (stage_package disk updated name files r)
unfolding stage_package
stage_package-IsStaged disk updated name files planned r h = go (source_of (app name) updated) refl
  where
    first : List Effect
    first = make_target name ∷ map (copy disk name) files

    copied : Run
    copied = attempt_all disk.fails first r

    copied-IsStaged : IsStaged (planned ++ first) copied
    copied-IsStaged =
        attempt_all-IsStaged disk.fails first planned r (refl, copies-Stages disk name files) h

    go :
        (read : Result Fault Text)
        → source_of (app name) updated ≡ read
        → IsStaged
            (planned ++ package_plan disk updated name files)
            (stage_package disk updated name files r)
    go (raise fault) read =
        rw (stage_package, read) (refuse-IsStaged fault (planned ++ first) _ copied copied-IsStaged)
    go (ok source) read =
        let last = write_staged name (staged_manifest name source) in
        rw (stage_package, read)
          (subst (λ p. IsStaged p (attempt disk.fails last copied))
            (append_assoc planned first (last ∷ []))
            (attempt-IsStaged disk.fails last (planned ++ first) copied refl copied-IsStaged))

stage_packages-IsStaged :
    (disk : Disk) (updated : Sources) (files : List (String × List String)) (planned : List Effect)
    (r : Run)
    → IsStaged planned r
    → IsStaged (planned ++ packages_plan disk updated files) (stage_packages disk updated files r)
unfolding stage_packages
stage_packages-IsStaged disk updated [] planned r h = rw (append-nil planned) h
stage_packages-IsStaged disk updated ((name, items) ∷ rest) planned r h =
    subst
      (λ p. IsStaged p (stage_packages disk updated rest (stage_package disk updated name items r)))
      (append_assoc planned (package_plan disk updated name items)
        (packages_plan disk updated rest))
      (stage_packages-IsStaged disk updated rest (planned ++ package_plan disk updated name items)
        (stage_package disk updated name items r)
        (stage_package-IsStaged disk updated name items planned r h))

-- The staging of a release in full.
abbrev pub staging_plan : Disk → Updates → List Effect
staging_plan disk updates = make_output ∷ packages_plan disk updates.manifests package_files

-- The checkout is written only after every effect of the staging was done: whatever fails, either only
-- staging was attempted, or all of it and then the first of the writes of the updates.
pub checkout_is_last :
    (disk : Disk) (checkout : Checkout) (version : String)
    → Stages (prepare disk checkout version).log
      ⊎ ((updates : Updates) × (version_changes checkout version ≡ ok updates)
          × Attempted
              (staging_plan disk updates)
              (checkout_writes updates)
              (prepare disk checkout version))
unfolding prepare
checkout_is_last disk checkout version =
    go (version_changes checkout version) refl (inputs_exist disk package_files) refl
  where
    output : Run
    output = attempt disk.fails make_output (record { log = []; raised = none })

    output-IsStaged : IsStaged (make_output ∷ []) output
    output-IsStaged =
        attempt-IsStaged disk.fails make_output [] (record { log = []; raised = none }) refl
          (tt, inl (refl, refl))

    staged : Updates → Run
    staged updates = stage_packages disk updates.manifests package_files output

    written :
        (updates : Updates)
        → version_changes checkout version ≡ ok updates
        → Stages (attempt_all disk.fails (checkout_writes updates) (staged updates)).log
          ⊎ ((u : Updates) × (version_changes checkout version ≡ ok u)
              × Attempted
                  (staging_plan disk u)
                  (checkout_writes u)
                  (attempt_all disk.fails (checkout_writes updates) (staged updates)))
    written updates changes =
        let (stages, outcome) =
          stage_packages-IsStaged disk updates.manifests package_files (make_output ∷ []) output
            output-IsStaged in
        elim outcome [
          | inl (going, planned) ↦ inr (
            updates,
            changes,
            subst
                (λ before.
                  Attempted before (checkout_writes updates)
                    (attempt_all disk.fails (checkout_writes updates) (staged updates)))
                planned
                (attempt_all-Attempted disk.fails (checkout_writes updates) (staged updates) going),
          )
          | inr (fault, raised) ↦ inl (
              subst (λ r. Stages r.log)
                (sym (
                  attempt_all-raised disk.fails (checkout_writes updates) (staged updates) fault
                    raised))
                stages)
        ]

    go :
        (changes : Result Fault Updates)
        → version_changes checkout version ≡ changes
        → (inputs : Result Fault (Unit {0})) → inputs_exist disk package_files ≡ inputs
        → Stages (prepare disk checkout version).log
          ⊎ ((updates : Updates) × (version_changes checkout version ≡ ok updates)
              × Attempted
                  (staging_plan disk updates)
                  (checkout_writes updates)
                  (prepare disk checkout version))
    go (raise fault) changes inputs exist = inl (rw (prepare, changes) tt)
    go (ok updates) changes (raise fault) missing = inl (rw (prepare, changes, missing) tt)
    go (ok updates) changes (ok done) exist =
        let ran : prepare disk checkout version
            ≡ attempt_all disk.fails (checkout_writes updates) (staged updates) =
          rw (prepare, changes, exist) refl in
        subst
          (λ r.
            Stages r.log
            ⊎ ((u : Updates) × (version_changes checkout version ≡ ok u)
                × Attempted (staging_plan disk u) (checkout_writes u) r))
          (sym ran) (written updates changes)
