-- ===== src/Inventory/Walk.antt =====
-- `walk` of `schema_contracts` in inventory.py: every dict below a schema gives its rows, beside the
-- place that the stable schema has for it.
use samgita.Prelude.{
  ℕ, suc, none, some, String, member, Text, codes, str, if◌then◌else◌, Result, ok, ◌>>=◌, List, [],
  ◌∷◌, ◌++◌,
}
use samgita.Json.{Value, null, list, dict, Items, nil, cons, Fields, end, field, get_in, item}
use samgita.Inventory.Access.{Fault}
use samgita.Inventory.Variants.{matching_variant}
use samgita.Inventory.Contracts.{Contract, own_rows, pointer_token}

abbrev not_walked : List String
not_walked = "description" ∷ "default" ∷ "enum" ∷ "examples" ∷ []

abbrev named_groups : List String
named_groups = "properties" ∷ "definitions" ∷ "$defs" ∷ "patternProperties" ∷ []

abbrev alternative_keys : List String
alternative_keys = "oneOf" ∷ "anyOf" ∷ "allOf" ∷ []

-- What the older schema has at an index of a list.
prior_item : String → Value → ℕ → Value → Result Fault Value
prior_item key (list xs) index value =
    if member key alternative_keys
    then matching_variant value (list xs)
    else elim (item xs index) [ none ↦ ok null | some v ↦ ok v ]
prior_item key _ index value = ok null

abbrev pub Rows : Type 0
Rows = Result Fault (List Contract)

abbrev join : Rows → Rows → Rows
join first second = do rows ← first; more ← second; ok (rows ++ more)

module _ (digest : Value → String) (filename : String) where
  abbrev own : Fields → Value → Text → Rows
  own = own_rows digest filename

  -- `walk` on a dict is `join (own fields …) (walk_children fields …)`; on anything but a dict it
  -- does nothing.
  unfoldable mutual
    unfolding prior_item

    pub walk_children : Fields → Value → Text → Rows
    walk_children end previous pointer = ok []
    walk_children (field key (dict fields) rest) previous pointer =
        let old = get_in key previous in
        let path = pointer ++ codes "/" ++ codes key in
        let named = walk_named fields old path in
        let single = join (own fields old path) (walk_children fields old path) in
        join
          (if member key not_walked
            then ok []
            else if member key named_groups
            then named
            else single)
          (walk_children rest previous pointer)
    walk_children (field key (list items) rest) previous pointer =
        let path = pointer ++ codes "/" ++ codes key in
        let each = walk_items items key (get_in key previous) path 0 in
        join (if member key not_walked then ok [] else each) (walk_children rest previous pointer)
    walk_children (field key child rest) previous pointer = walk_children rest previous pointer

    pub walk_named : Fields → Value → Text → Rows
    walk_named end old path = ok []
    walk_named (field name (dict fields) rest) old path =
        let prior = get_in name old in
        let below = path ++ codes "/" ++ pointer_token (codes name) in
        join (join (own fields prior below) (walk_children fields prior below))
          (walk_named rest old path)
    walk_named (field name value rest) old path = walk_named rest old path

    pub walk_items : Items → String → Value → Text → ℕ → Rows
    walk_items nil key old path index = ok []
    walk_items (cons (dict fields) rest) key old path index =
        let below = path ++ codes "/" ++ str index in
        join
          (do
            prior ← prior_item key old index (dict fields)
            join (own fields prior below) (walk_children fields prior below))
          (walk_items rest key old path (suc index))
    walk_items (cons value rest) key old path index = do
      prior ← prior_item key old index value
      walk_items rest key old path (suc index)

  unfoldable pub walk : Value → Value → Text → Rows
  walk (dict fields) previous pointer =
      join (own fields previous pointer) (walk_children fields previous pointer)
  walk _ previous pointer = ok []

  unfoldable pub schema_contracts : Value → Value → Rows
  unfolding walk
  schema_contracts full stable = walk full stable []
