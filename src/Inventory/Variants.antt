-- ===== src/Inventory/Variants.antt =====
-- `matching_variant` of inventory.py: the alternative of an older schema that a new one continues.
use samgita.Prelude.{
  Bool, true, false, String, if◌then◌else◌, ◌||◌, ◌&&◌, Result, ok, ◌>>=◌, List, [], ◌∷◌,
}
use samgita.Json.{Value, null, dict, Items, nil, cons, Fields, end, get_or, truthy}
use samgita.Json.Equality.{equal}
use samgita.Inventory.Access.{Fault, attribute, iterate, contains}

-- value.get("properties", {}).get(tag, {}).get("enum")
unfoldable pub discriminator : String → Value → Result Fault Value
unfolding attribute
discriminator tag value = do
  properties ← attribute (dict end) "properties" value
  tagged ← attribute (dict end) tag properties
  attribute null "enum" tagged

-- `choice.get(key) and choice.get(key) == prior.get(key)`, on two dicts
same_at : String → Fields → Fields → Bool
same_at key choice prior =
    truthy (get_or null key choice) && equal (get_or null key choice) (get_or null key prior)

-- The loop over the tags, for a prior alternative that is a dict.
same_tag : List String → Fields → Fields → Result Fault Bool
same_tag [] choice prior = ok false
same_tag (tag ∷ tags) choice prior = do
  found ← discriminator tag (dict choice)
  let rest = same_tag tags choice prior
  if truthy found
      then (do other ← discriminator tag (dict prior); if equal found other then ok true else rest)
      else rest

abbrev tags : List String
tags = "type" ∷ "method" ∷ "kind" ∷ []

-- The loop over the older alternatives. `null` is Python's None.
first_match : Fields → Items → Result Fault Value
unfolding same_at same_tag
first_match choice nil = ok null
first_match choice (cons (dict prior) older) =
    let rest = first_match choice older in
    if same_at "title" choice prior || same_at "$ref" choice prior
    then ok (dict prior)
    else (do same ← same_tag tags choice prior; if same then ok (dict prior) else rest)
first_match choice (cons prior older) = first_match choice older

unfoldable pub matching_variant : Value → Value → Result Fault Value
unfolding first_match contains
matching_variant choice older = do
  known ← contains choice older
  if known then ok choice else elim choice [
    | dict fields ↦ (do xs ← iterate older; first_match fields xs)
    | _ ↦ ok null
  ]
