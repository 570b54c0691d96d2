-- ===== src/Inventory/Contracts.antt =====
-- The rows of `schema_contracts` of inventory.py that one dict of a schema gives: one for each field
-- and each alternative, with what the stable schema says at the same place.
use package.text.Mathlib.Text.{is_lt}
use Prim.Native.String.{compare}
use samgita.Prelude.{
  ℕ, suc, Bool, true, false, Option, none, some, String, Text, codes, str, if◌then◌else◌, ◌||◌,
  Result, ok, raise, ◌>>=◌, List, [], ◌∷◌, ◌++◌, ◌==◌,
}
use samgita.Json.{
  Value, null, text, list, dict, Items, nil, cons, Fields, end, field, get, get_or, is_null,
}
use samgita.Json.Equality.{equal}
use samgita.Inventory.Access.{Fault, attribute_error, attribute, iterate, contains}
use samgita.Inventory.Variants.{matching_variant}

pub data Details : Type 0 where
  schema_field : (required nullable has_default : Bool) → (default_value : Value) → Details
  schema_variant : Details

-- A row, without what `fresh` gives to every row alike. Its id is "schema:FILE#POINTER".
pub record Contract : Type 0 where
  pub schema : String
  pub pointer : Text
  pub wire_name : String
  pub details : Details
  pub experimental : Bool
  pub schema_sha256 : String

-- str(text).replace("~", "~0").replace("/", "~1")
unfoldable pub pointer_token : Text → Text
pointer_token [] = []
pointer_token (c ∷ t) =
    (if c == b'~' then codes "~0" else if c == b'/' then codes "~1" else c ∷ []) ++ pointer_token t

-- sorted(properties.items()): the keys of a dict differ, so the values are never compared.
insert_sorted : String → Value → Fields → Fields
insert_sorted k v end = field k v end
insert_sorted k v (field j w rest) =
    if is_lt (compare k j) then field k v (field j w rest) else field j w (insert_sorted k v rest)

sorted_items : Fields → Fields
unfolding insert_sorted
sorted_items end = end
sorted_items (field k v rest) = insert_sorted k v (sorted_items rest)

-- value.items()
items_of : Value → Result Fault Fields
items_of (dict fields) = ok fields
items_of _ = raise attribute_error

any_null_branch : Items → Bool
any_null_branch nil = false
any_null_branch (cons (dict fields) xs) =
    equal (get_or null "type" fields) (text "null") || any_null_branch xs
any_null_branch (cons _ xs) = any_null_branch xs

-- isinstance(types, list) and "null" in types
lists_null : Value → Result Fault Bool
lists_null (list xs) = contains (text "null") (list xs)
lists_null _ = ok false

constraints_of : Value → Fields
constraints_of (dict fields) = fields
constraints_of _ = end

nullable_of : Fields → Result Fault Bool
unfolding any_null_branch lists_null
nullable_of constraints = do
  let types = get_or (list nil) "type" constraints
  listed ← lists_null types
  let nullable = equal types (text "null") || listed
  one ← iterate (get_or (list nil) "oneOf" constraints)
  if any_null_branch one then ok true else (do
    other ← iterate (get_or (list nil) "anyOf" constraints)
    ok (nullable || any_null_branch other))

abbrev is_some {ℓ} : {A : Type ℓ} → Option A → Bool
is_some none = false
is_some (some a) = true

-- previous.get(key, default) if isinstance(previous, dict) else default
previous_get : Value → String → Value → Value
previous_get default' key (dict fields) = get_or default' key fields
previous_get default' key _ = default'

-- previous.get("properties", {}).get(name) if isinstance(previous, dict) else None
prior_field : String → Value → Result Fault Value
prior_field name (dict fields) = attribute null name (get_or (dict end) "properties" fields)
prior_field name _ = ok null

-- The digest of a value's canonical encoding, and the schema's file name.
module _ (digest : Value → String) (filename : String) where
  field_row : Fields → Value → Text → String → Value → Result Fault Contract
  unfolding nullable_of prior_field constraints_of
  field_row node previous pointer name value = do
    let path = pointer ++ codes "/properties/" ++ pointer_token (codes name)
    prior ← prior_field name previous
    let constraints = constraints_of value
    nullable ← nullable_of constraints
    required ← contains (text name) (get_or (list nil) "required" node)
    ok (record {
      schema = filename;
      pointer = path;
      wire_name = name;
      details =
          schema_field required nullable (is_some (get "default" constraints))
            (get_or null "default" constraints);
      experimental = is_null prior;
      schema_sha256 = digest value;
    })

  field_rows : Fields → Value → Text → Fields → Result Fault (List Contract)
  unfolding field_row
  field_rows node previous pointer end = ok []
  field_rows node previous pointer (field name value rest) = do
    row ← field_row node previous pointer name value
    rows ← field_rows node previous pointer rest
    ok (row ∷ rows)

  variant_rows : String → Value → Text → ℕ → Items → Result Fault (List Contract)
  variant_rows key older pointer index nil = ok []
  variant_rows key older pointer index (cons choice rest) = do
    prior ← matching_variant choice older
    rows ← variant_rows key older pointer (suc index) rest
    ok (
        record {
          schema = filename;
          pointer = pointer ++ codes "/" ++ codes key ++ codes "/" ++ str index;
          wire_name = key;
          details = schema_variant;
          experimental = is_null prior;
          schema_sha256 = digest choice;
        }
        ∷ rows)

  variants_at : Fields → Value → Text → List String → Result Fault (List Contract)
  unfolding variant_rows previous_get
  variants_at node previous pointer [] = ok []
  variants_at node previous pointer (key ∷ keys) = do
    alternatives ← iterate (get_or (list nil) key node)
    rows ← variant_rows key (previous_get (list nil) key previous) pointer 0 alternatives
    more ← variants_at node previous pointer keys
    ok (rows ++ more)

  -- The two loops of `walk` that append the rows of a dict itself.
  unfoldable pub own_rows : Fields → Value → Text → Result Fault (List Contract)
  unfolding items_of sorted_items field_rows variants_at
  own_rows node previous pointer = do
    properties ← items_of (get_or (dict end) "properties" node)
    fields ← field_rows node previous pointer (sorted_items properties)
    variants ← variants_at node previous pointer ("oneOf" ∷ "anyOf" ∷ "allOf" ∷ "enum" ∷ [])
    ok (fields ++ variants)
