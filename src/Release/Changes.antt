-- ===== src/Release/Changes.antt =====
-- version_changes of release.py: the checks of a coordinated release, and every edit that it makes.
pub mod Coordinated
use samgita.Prelude.{
  Bool, true, false, Option, none, some, String, Text, codes, str_eq, text_eq, if◌then◌else◌, ◌==◌,
  Result, ok, raise, ◌>>=◌, List, [], ◌∷◌, ◌++◌,
}
use samgita.Json.{Value, text, Fields, end, field, get}
use samgita.Release.Version.{
  Fault, version_missing, version_precedes, unexpected_declarations, unexpected_asset,
  sibling_dependency, key_error, version_parts, precedes,
}
use samgita.Release.Declarations.{pieces, versions_of, substitute}
use samgita.Release.Replace.{count, replace}

-- mix.exs, and apps/NAME/mix.exs
pub data Manifest : Type 0 where
  umbrella : Manifest
  app : String → Manifest

unfoldable pub same_manifest : Manifest → Manifest → Bool
same_manifest umbrella umbrella = true
same_manifest (app a) (app b) = str_eq a b
same_manifest _ _ = false

abbrev pub Sources : Type 0
Sources = List (Manifest × Text)

-- What the function reads: the manifests in their order, and the object in the package.json beside one.
pub record Checkout : Type 0 where
  pub root : Text
  pub apps : List (String × Text)
  pub package_json : String → Option Fields

unfoldable pub app_sources : List (String × Text) → Sources
app_sources [] = []
app_sources ((name, source) ∷ rest) = (app name, source) ∷ app_sources rest

unfoldable pub sources : Checkout → Sources
unfolding app_sources
sources checkout = (umbrella, checkout.root) ∷ app_sources checkout.apps

-- SIBLINGS
abbrev pub siblings : List (String × String)
siblings =
    ("samgita_protocol_websocket", "samgita_protocol")
    ∷ ("samgita_protocol_codex", "samgita_protocol")
    ∷ ("samgita_codex_driver", "samgita_protocol_codex")
    ∷ []

-- VERSION.search(sources["mix.exs"]).group(2)
unfoldable pub canonical_of : Checkout → Result Fault Text
unfolding versions_of
canonical_of checkout = elim (versions_of (pieces checkout.root)) [
  | [] ↦ raise version_missing
  | canonical ∷ rest ↦ ok canonical
]

-- [canonical] * expected_count
unfoldable pub expected : Manifest → Text → List Text
expected umbrella canonical = canonical ∷ canonical ∷ []
expected (app name) canonical = canonical ∷ []

unfoldable pub texts_eq : List Text → List Text → Bool
texts_eq [] [] = true
texts_eq (s ∷ ss) (t ∷ ts) = if text_eq s t then texts_eq ss ts else false
texts_eq _ _ = false

-- The loop over the sources.
unfoldable pub change_manifests : Text → Text → Sources → Result Fault Sources
unfolding texts_eq expected
change_manifests version canonical [] = ok []
change_manifests version canonical ((path, source) ∷ rest) =
    let others = change_manifests version canonical rest in
    if texts_eq (versions_of (pieces source)) (expected path canonical)
    then (do changed ← others; ok ((path, substitute version source) ∷ changed))
    else raise unexpected_declarations

-- metadata[key] = value, for a key that is there
unfoldable pub put_field : String → Value → Fields → Fields
put_field key value end = end
put_field key value (field k v rest) =
    if str_eq k key then field k value rest else field k v (put_field key value rest)

-- metadata["version"] == canonical
is_canonical : Text → Value → Bool
is_canonical canonical (text s) = text_eq (codes s) canonical
is_canonical canonical _ = false

-- The loop over the package.json files.
change_assets :
    String
    → Text
    → (String → Option Fields)
    → List (String × Text)
    → Result Fault (List (String × Fields))
unfolding is_canonical
change_assets version canonical package_json [] = ok []
change_assets version canonical package_json ((name, source) ∷ rest) =
    let others = change_assets version canonical package_json rest in
    elim (package_json name) [
      | none ↦ others
      | some metadata ↦ elim (get "version" metadata) [
        | none ↦ others
        | some value ↦
            if is_canonical canonical value
            then (do
              changed ← others
              ok ((name, put_field "version" (text version) metadata) ∷ changed))
            else raise unexpected_asset
      ]
    ]

-- {:DEPENDENCY, "~> VERSION", path: "../DEPENDENCY"}
unfoldable pub requirement : String → Text → Text
requirement dependency version =
    codes "{:"
    ++ (codes dependency
        ++ (codes ", \"~> "
            ++ (version ++ (codes "\", path: \"../" ++ (codes dependency ++ codes "\"}")))))

unfoldable pub source_of : Manifest → Sources → Result Fault Text
source_of path [] = raise key_error
source_of path ((p, source) ∷ rest) =
    if same_manifest p path then ok source else source_of path rest

-- updated[path] = source, for a path that is there
unfoldable pub put_source : Manifest → Text → Sources → Sources
put_source path source [] = []
put_source path source ((p, old) ∷ rest) =
    if same_manifest p path then (p, source) ∷ rest else (p, old) ∷ put_source path source rest

-- One round of the loop over the siblings.
unfoldable pub change_sibling : Text → Text → String → String → Sources → Result Fault Sources
unfolding source_of put_source count replace requirement
change_sibling version canonical name dependency updated = do
  source ← source_of (app name) updated
  if count (requirement dependency canonical) source == 1
      then ok (
          put_source (app name)
            (replace (requirement dependency canonical) (requirement dependency version) source)
            updated)
      else raise sibling_dependency

unfoldable pub change_siblings :
    Text → Text → List (String × String) → Sources → Result Fault Sources
unfolding change_sibling
change_siblings version canonical [] updated = ok updated
change_siblings version canonical ((name, dependency) ∷ rest) updated = do
  changed ← change_sibling version canonical name dependency updated
  change_siblings version canonical rest changed

pub record Updates : Type 0 where
  pub manifests : Sources
  pub assets : List (String × Fields)

unfoldable pub version_changes : Checkout → String → Result Fault Updates
unfolding version_parts canonical_of precedes change_manifests change_assets change_siblings sources
version_changes checkout version = do
  requested ← version_parts (codes version)
  canonical ← canonical_of checkout
  current ← version_parts canonical
  if precedes requested current then raise version_precedes else (do
    changed ← change_manifests (codes version) canonical (sources checkout)
    assets ← change_assets version canonical checkout.package_json checkout.apps
    manifests ← change_siblings (codes version) canonical siblings changed
    ok (record { manifests = manifests; assets = assets }))
