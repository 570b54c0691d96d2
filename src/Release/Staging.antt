-- ===== src/Release/Staging.antt =====
-- prepare of release.py: the packages are staged, then the checkout is written.
pub mod Attempts
pub mod Order
use samgita.Prelude.{
  ℕ, Bool, Option, none, some, String, Text, codes, str_eq, if◌then◌else◌, Result, ok, raise, List,
  [], ◌∷◌, ◌++◌, length, all, map,
}
use samgita.Json.{Fields}
use samgita.Release.Version.{Fault, missing_input, os_error}
use samgita.Release.Replace.{replace}
use samgita.Release.Changes.{
  Manifest, app, Sources, Checkout, siblings, source_of, Updates, version_changes,
}

-- The effects on the disk: those on the output directory, then those on the checkout.
pub data Effect : Type 0 where
  make_output : Effect
  make_target : (name : String) → Effect
  copy_tree copy_file : (name item : String) → Effect
  write_staged : (name : String) → (source : Text) → Effect
  write_manifest : Manifest → (source : Text) → Effect
  write_asset : (name : String) → (metadata : Fields) → Effect

-- The effects attempted so far, the one that failed included, and what was raised.
pub record Run : Type 0 where
  pub log : List Effect
  pub raised : Option Fault

-- What the disk answers: apps/NAME/ITEM exists, it is a directory, and the effect of that number fails.
pub record Disk : Type 0 where
  pub exists : String → String → Bool
  pub is_dir : String → String → Bool
  pub fails : ℕ → Bool

unfoldable pub attempt : (ℕ → Bool) → Effect → Run → Run
attempt fails e r = elim r.raised [
  | some fault ↦ r
  | none ↦ record {
    log = r.log ++ e ∷ [];
    raised = if fails (length r.log) then some os_error else none;
  }
]

unfoldable pub attempt_all : (ℕ → Bool) → List Effect → Run → Run
unfolding attempt
attempt_all fails [] r = r
attempt_all fails (e ∷ es) r = attempt_all fails es (attempt fails e r)

unfoldable pub refuse : Fault → Run → Run
refuse fault r = elim r.raised [
  | some earlier ↦ r
  | none ↦ record { log = r.log; raised = some fault }
]

-- PACKAGE_FILES
abbrev common : List String
common = "lib" ∷ "mix.exs" ∷ "README.md" ∷ "LICENSE" ∷ ".formatter.exs" ∷ []

abbrev pub package_files : List (String × List String)
package_files =
    ("samgita_protocol", common ++ "priv" ∷ [])
    ∷ ("samgita_protocol_websocket", common)
    ∷ ("samgita_protocol_codex", common ++ "priv" ∷ "config" ∷ [])
    ∷ ("samgita_codex_driver", common ++ "priv" ∷ "config" ∷ [])
    ∷ []

sibling_of : String → List (String × String) → Option String
sibling_of name [] = none
sibling_of name ((n, dependency) ∷ rest) =
    if str_eq n name then some dependency else sibling_of name rest

-- The manifest of a package, without the path of its sibling.
unfoldable pub staged_manifest : String → Text → Text
unfolding sibling_of replace
staged_manifest name source = elim (sibling_of name siblings) [
  | none ↦ source
  | some dependency ↦ replace (codes ", path: \"../" ++ (codes dependency ++ codes "\"")) [] source
]

unfoldable pub copy : Disk → String → String → Effect
copy disk name item = if disk.is_dir name item then copy_tree name item else copy_file name item

unfoldable pub stage_package : Disk → Sources → String → List String → Run → Run
unfolding attempt_all attempt refuse source_of copy staged_manifest
stage_package disk updated name files r =
    let copied = attempt_all disk.fails (make_target name ∷ map (copy disk name) files) r in
    elim (source_of (app name) updated) [
      | raise fault ↦ refuse fault copied
      | ok source ↦ attempt disk.fails (write_staged name (staged_manifest name source)) copied
    ]

unfoldable pub stage_packages : Disk → Sources → List (String × List String) → Run → Run
unfolding stage_package
stage_packages disk updated [] r = r
stage_packages disk updated ((name, files) ∷ rest) r =
    stage_packages disk updated rest (stage_package disk updated name files r)

-- The loop that looks for the inputs.
unfoldable pub inputs_exist : Disk → List (String × List String) → Result Fault (Unit {0})
inputs_exist disk [] = ok tt
inputs_exist disk ((name, files) ∷ rest) =
    let others = inputs_exist disk rest in
    if all (disk.exists name) files then others else raise missing_input

-- The last loop, over all updates.
unfoldable pub checkout_writes : Updates → List Effect
checkout_writes updates =
    map (λ entry. write_manifest entry.0 entry.1) updates.manifests
    ++ map (λ entry. write_asset entry.0 entry.1) updates.assets

unfoldable pub prepare : Disk → Checkout → String → Run
unfolding version_changes inputs_exist attempt attempt_all stage_packages checkout_writes
prepare disk checkout version = elim (version_changes checkout version) [
  | raise fault ↦ record { log = []; raised = some fault }
  | ok updates ↦ elim (inputs_exist disk package_files) [
    | raise fault ↦ record { log = []; raised = some fault }
    | ok done ↦
        (let output = attempt disk.fails make_output (record { log = []; raised = none }) in
          let staged = stage_packages disk updates.manifests package_files output in
          attempt_all disk.fails (checkout_writes updates) staged)
  ]
]
