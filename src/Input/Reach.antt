-- ===== src/Input/Reach.antt =====
-- request_methods of generate_input_semantics.py: the methods whose parameters refer to a definition.
pub mod Total
pub mod Sound
pub mod Rounds
pub mod Complete
use Prim.Native.String.{compare}
use package.text.Mathlib.Text.{is_lt}
use samgita.Prelude.{
  ℕ, zero, suc, ◌+◌, Bool, false, Option, none, some, String, Text, codes, text_eq, strip_prefix,
  if◌then◌else◌, ◌||◌, Result, ok, raise, ◌>>=◌, List, [], ◌∷◌,
}
use samgita.Json.{Value, text, list, dict, Items, nil, cons, Fields, end, field, get}

pub data Fault : Type 0 where
  key_error attribute_error type_error : Fault

-- value[key]
index : String → Value → Result Fault Value
index key (dict fields) = elim (get key fields) [ none ↦ raise key_error | some v ↦ ok v ]
index key _ = raise type_error

-- reference in seen
unfoldable pub is_seen : Text → List Text → Bool
is_seen r [] = false
is_seen r (s ∷ seen) = text_eq s r || is_seen r seen

-- document["definitions"].get(reference); the key that reference spells
unfoldable pub definition_of : Text → Fields → Option Value
definition_of r end = none
definition_of r (field k v rest) = if text_eq (codes k) r then some v else definition_of r rest

-- pending.extend(values): the last one is popped first.
unfoldable pub push_items : Items → List Value → List Value
push_items nil pending = pending
push_items (cons v vs) pending = push_items vs (v ∷ pending)

unfoldable pub push_values : Fields → List Value → List Value
push_values end pending = pending
push_values (field k v fs) pending = push_values fs (v ∷ pending)

-- value.get("$ref", "").removeprefix("#/definitions/")
pub reference : Fields → Result Fault Text
reference fields = elim (get "$ref" fields) [
  | none ↦ ok []
  | some v ↦ elim v [
    | text s ↦
        ok (elim (strip_prefix (codes "#/definitions/") (codes s)) [ none ↦ codes s | some r ↦ r ])
    | _ ↦ raise attribute_error
  ]
]

pub record Search : Type 0 where
  pub pending : List Value
  pub seen : List Text

-- The if in the dict branch: a reference that is new is seen, and its definition is pending.
pub follow : Fields → Text → Search → Result Fault Search
unfolding is_seen definition_of
follow definitions [] s = ok s
follow definitions (c ∷ r) s =
    if is_seen (c ∷ r) s.seen then ok s else elim (definition_of (c ∷ r) definitions) [
      | none ↦ raise key_error
      | some d ↦ ok (record { pending = d ∷ s.pending; seen = (c ∷ r) ∷ s.seen })
    ]

-- The body of the loop, for a value that was popped; pending is the rest.
unfoldable pub visit : Fields → Value → Search → Result Fault Search
unfolding reference follow push_values push_items
visit definitions (dict fields) s = do
  r ← reference fields
  t ← follow definitions r s
  ok (record { pending = push_values fields t.pending; seen = t.seen })
visit definitions (list items) s =
    ok (record { pending = push_items items s.pending; seen = s.seen })
visit definitions _ s = ok s

-- The loop with fuel; none when it is out of fuel.
unfoldable pub search : ℕ → Fields → Search → Option (Result Fault (List Text))
unfolding visit
search zero definitions s = none
search (suc fuel) definitions s = elim s.pending [
  | [] ↦ some (ok s.seen)
  | v ∷ rest ↦ elim (visit definitions v (record { pending = rest; seen = s.seen })) [
    | raise e ↦ some (raise e)
    | ok next ↦ search fuel definitions next
  ]
]

-- Enough fuel: the values in pending and in every definition, and one round to see that pending is empty.
unfoldable mutual
  pub size : Value → ℕ
  size (dict fields) = suc (size_values fields)
  size (list items) = suc (size_list items)
  size _ = 1

  pub size_values : Fields → ℕ
  size_values end = 0
  size_values (field k v fs) = size v + size_values fs

  pub size_list : Items → ℕ
  size_list nil = 0
  size_list (cons v vs) = size v + size_list vs

unfoldable pub references_of : Fields → Value → Option (Result Fault (List Text))
unfolding search size
references_of definitions params =
    search (suc (size params + size_values definitions)) definitions
      (record { pending = params ∷ []; seen = [] })

-- document["definitions"], which is only read at a reference: without it each reference is a KeyError.
definitions_in : Value → Fields
definitions_in (dict fields) = elim (get "definitions" fields) [
  | none ↦ end
  | some v ↦ elim v [ dict definitions ↦ definitions | _ ↦ end ]
]
definitions_in _ = end

-- The elements of oneOf and enum, which are lists in the schemas.
elements : Value → Result Fault Items
elements (list items) = ok items
elements _ = raise type_error

-- branch["properties"]["method"]["enum"], if the definition was seen
methods_if : Text → Value → List Text → Result Fault Items
unfolding index elements is_seen
methods_if definition properties seen =
    let methods = (do
      method ← index "method" properties
      enum ← index "enum" method
      elements enum) in
    if is_seen definition seen then methods else ok nil

abbrev append_items : Items → Items → Items
append_items nil ys = ys
append_items (cons x xs) ys = cons x (append_items xs ys)

-- branch["properties"] and its "params"
parts : Value → Result Fault (Value × Value)
unfolding index
parts branch = do
  properties ← index "properties" branch
  params ← index "params" properties
  ok (properties, params)

-- One branch; none if its search is out of fuel.
unfoldable pub branch_methods : Fields → Text → Value → Option (Result Fault Items)
unfolding parts methods_if references_of
branch_methods definitions definition branch = elim (parts branch) [
  | raise e ↦ some (raise e)
  | ok both ↦ elim (references_of definitions both.1) [
    | none ↦ none
    | some found ↦ some (do seen ← found; methods_if definition both.0 seen)
  ]
]

-- The loop over the branches.
unfoldable pub reachable : Fields → Text → Items → Option (Result Fault Items)
unfolding branch_methods
reachable definitions definition nil = some (ok nil)
reachable definitions definition (cons branch rest) =
    let others = reachable definitions definition rest in
    elim (branch_methods definitions definition branch) [
      | none ↦ none
      | some first ↦ elim first [
        | raise e ↦ some (raise e)
        | ok methods ↦ elim others [
          | none ↦ none
          | some result ↦ some (do more ← result; ok (append_items methods more))
        ]
      ]
    ]

-- sorted(reachable), of texts
insert_sorted : String → List String → List String
insert_sorted s [] = s ∷ []
insert_sorted s (t ∷ ts) = if is_lt (compare s t) then s ∷ t ∷ ts else t ∷ insert_sorted s ts

sorted : Items → Result Fault (List String)
unfolding insert_sorted
sorted nil = ok []
sorted (cons (text s) rest) = do others ← sorted rest; ok (insert_sorted s others)
sorted (cons _ rest) = raise type_error

branches_of : Value → Result Fault Items
unfolding index elements
branches_of document = do choices ← index "oneOf" document; elements choices

unfoldable pub request_methods : Value → Text → Option (Result Fault (List String))
unfolding branches_of definitions_in reachable sorted
request_methods document definition = elim (branches_of document) [
  | raise e ↦ some (raise e)
  | ok branches ↦ elim (reachable (definitions_in document) definition branches) [
    | none ↦ none
    | some result ↦ some (do methods ← result; sorted methods)
  ]
]
