-- ===== src/Inventory/Access.antt =====
-- Python's access to values of json.loads, with the exceptions that it raises.
use package.text.Mathlib.Text.{find?}
use samgita.Prelude.{Bool, true, false, Option, none, some, String, ◌||◌, Result, ok, raise}
use samgita.Json.{Value, text, list, dict, Items, nil, cons, Fields, end, field, get_or}
use samgita.Json.Equality.{equal}

pub data Fault : Type 0 where
  attribute_error type_error : Fault

-- value.get(key, default)
unfoldable pub attribute : Value → String → Value → Result Fault Value
attribute default' key (dict fields) = ok (get_or default' key fields)
attribute default' key _ = raise attribute_error

abbrev chars : String → Items
chars String.[] = nil
chars (String.◌∷◌ c s) = cons (text (String.◌∷◌ c String.[])) (chars s)

abbrev keys : Fields → Items
keys end = nil
keys (field k v rest) = cons (text k) (keys rest)

-- iter(value)
unfoldable pub iterate : Value → Result Fault Items
iterate (list xs) = ok xs
iterate (dict fields) = ok (keys fields)
iterate (text s) = ok (chars s)
iterate _ = raise type_error

unfoldable pub member_of : Value → Items → Bool
member_of v nil = false
member_of v (cons x xs) = equal v x || member_of v xs

abbrev is_some {ℓ} : {A : Type ℓ} → Option A → Bool
is_some none = false
is_some (some a) = true

-- `value in container`. A list or a dict has no hash, so a dict is not asked for it.
unfoldable pub contains : Value → Value → Result Fault Bool
contains v (list xs) = ok (member_of v xs)
contains (list xs) (dict fields) = raise type_error
contains (dict gs) (dict fields) = raise type_error
contains v (dict fields) = ok (member_of v (keys fields))
contains (text s) (text t) = ok (is_some (find? t s))
contains v _ = raise type_error
