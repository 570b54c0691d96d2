-- ===== src/Inventory/Examples.antt =====
-- The inventory on small manifests and schemas, and its theorems there.
use samgita.Prelude.{
  ◌≡◌, refl, true, false, some, String, codes, has, ok, raise, List, [], ◌∷◌, All,
}
use samgita.Json.{Items, null, text, list, dict, nil, cons, Fields, end, field, get, truthy}
use samgita.Json.Equality.{equal}
use samgita.Inventory.Contracts.{pointer_token}
use samgita.Inventory.Variants.{matching_variant}
use samgita.Inventory.Alternatives.{matching_variant-null}
use samgita.Inventory.Pointers.{unescape, unescape-pointer_token}
use samgita.Inventory.Progress.{Row, merge_row, get-merge_row, merge_row-fresh}
use samgita.Inventory.Gate.{IsComplete, gate, gate-IsComplete, lacks_evidence}

unescape-pointer_token_example :
    (unescape (pointer_token (codes "a/~1b")) ≡ codes "a/~1b")
    × (has b'/' (pointer_token (codes "a/~1b")) ≡ false)
unescape-pointer_token_example = unescape-pointer_token (codes "a/~1b")

abbrev tested : Fields
tested = field "planned" (list nil) (field "verified" (list (cons (text "t") nil)) end)

abbrev row_fields : String → String → Fields
row_fields sha state = field "schema_sha256" (text sha) (
    field "state" (text state)
      (field "evidence" (list (cons (text "log") nil)) (field "tests" (dict tested) end)))

abbrev recorded : Row
recorded = record { id = "schema:A#/x"; fields = row_fields "s1" "verified" }

abbrev changed : Row
changed = record { id = "schema:A#/x"; fields = row_fields "s2" "missing" }

-- A row with the recorded digest takes the recorded state.
merge-same :
    get "state"
      (merge_row
        (recorded ∷ [])
        (record { id = "schema:A#/x"; fields = row_fields "s1" "missing" })).fields
    ≡ some (text "verified")
unfolding merge_row get equal
merge-same = refl

merge_row-fresh_example : merge_row (recorded ∷ []) changed ≡ changed
merge_row-fresh_example =
    merge_row-fresh (recorded ∷ []) changed "s2" (unfold get in refl)
      (unfold get equal in (λ e. refl, tt))

get-merge_row_example :
    get "schema_sha256" (merge_row (recorded ∷ []) changed).fields
    ≡ get "schema_sha256" changed.fields
get-merge_row_example = get-merge_row (recorded ∷ []) changed "schema_sha256" refl

abbrev sections : List (String × List Row)
sections = ("entries", recorded ∷ []) ∷ ("schema_contracts", []) ∷ []

gate-sections : gate true sections ≡ ok tt
unfolding gate get truthy
gate-sections = refl

gate-IsComplete_example : All IsComplete sections
gate-IsComplete_example = gate-IsComplete sections gate-sections

-- A verified row without tests is refused.
gate-no_tests :
    gate false (
      (
        "entries",
        record {
          id = "r";
          fields = field "state" (text "verified") (
              field "evidence"
                (text "e")
                (field "tests" (dict (field "verified" (list nil) end)) end));
        }
            ∷ [],
      )
      ∷ [])
    ≡ raise (lacks_evidence "r")
unfolding gate get truthy
gate-no_tests = refl

abbrev listed : Items
listed = cons null (cons (text "auto") nil)

matching_variant-null_example : matching_variant null (list listed) ≡ ok null
matching_variant-null_example = matching_variant-null listed
