-- ===== src/Release/Examples.antt =====
-- The release script on a small checkout, and its theorems there.
use samgita.Prelude.{
  split, ◌≡◌, refl, true, false, is_space, is_numeral, is_digit, int, none, String, Text, codes, ok,
  [], ◌∷◌, ◌++◌, All, ◌⊎◌, ◌↔◌, ◌==◌,
}
use samgita.Release.Version.{
  Parts, parts, show, version_parts, version_parts-show, release_channel, release_channel-show,
  prerelease, precedes,
}
use samgita.Release.Declarations.{pieces, versions_of, substitute}
use samgita.Release.Changes.{
  Checkout, Updates, same_manifest, requirement, sources, canonical_of, version_changes,
}
use samgita.Release.Changes.Coordinated.{
  Declares, version_changes-IsCoordinated, version_changes-same,
}
use samgita.Release.Staging.{Disk, prepare, checkout_writes}
use samgita.Release.Staging.Attempts.{Stages, Attempted}
use samgita.Release.Staging.Order.{staging_plan, checkout_is_last}

abbrev line : Text
line = codes "  version: \"0.2.0\",\n"

abbrev manifest_of : String → Text
manifest_of dependency = line ++ requirement dependency (codes "0.2.0")

abbrev small : Checkout
small = record {
  root = line ++ line;
  apps =
      ("samgita_codex_driver", manifest_of "samgita_protocol_codex")
      ∷ ("samgita_protocol_codex", manifest_of "samgita_protocol")
      ∷ ("samgita_protocol_websocket", manifest_of "samgita_protocol")
      ∷ [];
  package_json = λ name. none;
}

abbrev unchanged : Updates
unchanged = record { manifests = sources small; assets = [] }

versions-small : versions_of (pieces small.root) ≡ codes "0.2.0" ∷ codes "0.2.0" ∷ []
unfolding versions_of pieces is_space
versions-small = refl

-- The new version stands in both declarations.
substitute-small :
    substitute (codes "1.0.0") small.root
    ≡ codes "  version: \"1.0.0\",\n" ++ codes "  version: \"1.0.0\",\n"
unfolding substitute is_space
substitute-small = refl

changes-small : version_changes small "0.2.0" ≡ ok unchanged
unfolding version_changes sources requirement split is_numeral is_digit pieces is_space int
    same_manifest substitute
changes-small = refl

canonical-small : canonical_of small ≡ ok (codes "0.2.0")
unfolding canonical_of pieces is_space
canonical-small = refl

version_parts-show_example : version_parts (show (parts 0 12 305)) ≡ ok (parts 0 12 305)
version_parts-show_example = version_parts-show (parts 0 12 305)

version_changes-same_example : unchanged.manifests ≡ sources small
version_changes-same_example =
    version_changes-same small "0.2.0" unchanged changes-small canonical-small

release_channel-show_example :
    (release_channel (show (parts 0 2 0)) ≡ ok prerelease) ↔ ((parts 0 2 0).major ≡ 0)
release_channel-show_example = release_channel-show (parts 0 2 0)

version_changes-IsCoordinated_example :
    (canonical : Text) × (requested : Parts) × (current : Parts) × (version_parts (codes "0.2.0")
      ≡ ok requested)
    × (version_parts canonical ≡ ok current)
    × (precedes requested current ≡ false)
    × All (Declares canonical) (sources small)
version_changes-IsCoordinated_example =
    version_changes-IsCoordinated small "0.2.0" unchanged changes-small

-- The disk on which the sixth effect fails.
abbrev full_disk : Disk
full_disk = record { exists = λ name item. true; is_dir = λ name item. false; fails = λ n. n == 5 }

checkout_is_last_example :
    Stages (prepare full_disk small "0.2.0").log
    ⊎ ((updates : Updates) × (version_changes small "0.2.0" ≡ ok updates)
        × Attempted
            (staging_plan full_disk updates)
            (checkout_writes updates)
            (prepare full_disk small "0.2.0"))
checkout_is_last_example = checkout_is_last full_disk small "0.2.0"
