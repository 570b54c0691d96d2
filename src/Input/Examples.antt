-- ===== src/Input/Examples.antt =====
-- The search for references on a schema with a cycle, and its theorems there.
use samgita.Prelude.{◌↔◌, true, ok, some, codes, String, Result, List, [], ◌∷◌, ◌≡◌, refl}
use samgita.Json.{Value, text, list, dict, nil, cons, Fields, end, field, get}
use samgita.Input.Reach.{is_seen, Fault, references_of, request_methods, size}
use samgita.Input.Reach.Total.{request_methods-total}
use samgita.Input.Reach.Sound.{Refers}
use samgita.Input.Reach.Complete.{references_of_iff}

abbrev refer : String → Value
refer s = dict (field "$ref" (text s) end)

-- A and B refer to each other.
abbrev cyclic : Fields
cyclic =
    field "A" (refer "#/definitions/B") (field "B" (list (cons (refer "#/definitions/A") nil)) end)

abbrev method : Value
method = dict (field "enum" (list (cons (text "turn/start") nil)) end)

abbrev branch : Value
branch = dict (
    field "properties" (dict (field "params" (refer "#/definitions/A") (field "method" method end)))
      end)

abbrev document : Value
document = dict (field "oneOf" (list (cons branch nil)) (field "definitions" (dict cyclic) end))

methods-found : request_methods document (codes "B") ≡ some (ok ("turn/start" ∷ []))
unfolding request_methods get size
methods-found = refl

request_methods-total_example :
    (result : Result Fault (List String)) × (request_methods document (codes "B") ≡ some result)
request_methods-total_example = request_methods-total document (codes "B")

references-found :
    references_of cyclic (refer "#/definitions/A") ≡ some (ok (codes "B" ∷ codes "A" ∷ []))
unfolding references_of get
references-found = refl

references_of_iff_example :
    (is_seen (codes "A") (codes "B" ∷ codes "A" ∷ []) ≡ true)
    ↔ Refers cyclic (refer "#/definitions/A") (codes "A")
references_of_iff_example =
    references_of_iff cyclic (refer "#/definitions/A") (codes "B" ∷ codes "A" ∷ []) (codes "A")
      references-found
