-- ===== src/Json/Build.antt =====
-- Dicts and lists as they are written in the source.
use samgita.Prelude.{String, List, [], ◌∷◌, str_eq, if◌then◌else◌}
use samgita.Json.{Value, text, dict, list, Fields, end, field, Items, nil, cons}

abbrev pub items : List Value → Items
items [] = nil
items (v ∷ vs) = cons v (items vs)

abbrev pub array : List Value → Value
array vs = list (items vs)

abbrev pub strings : List String → Value
strings ss = list (go ss)
  where
    go : List String → Items
    go [] = nil
    go (s ∷ rest) = cons (text s) (go rest)

abbrev pub fields : List (String × Value) → Fields
fields [] = end
fields ((key, v) ∷ rest) = field key v (fields rest)

abbrev pub object : List (String × Value) → Value
object rows = dict (fields rows)

-- d[key] = value
abbrev pub set : String → Value → Fields → Fields
set key v end = field key v end
set key v (field k w rest) =
    let after = set key v rest in if str_eq k key then (field k v rest) else (field k w after)

-- d.pop(key), of a key that is there
abbrev pub pop : String → Fields → Fields
pop key end = end
pop key (field k w rest) =
    let after = pop key rest in if str_eq k key then rest else (field k w after)
