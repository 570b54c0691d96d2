-- ===== src/Json.antt =====
-- The values that json.loads returns, with the operations on them that scripts/codex uses. A dict is
-- its items in insertion order; numbers are integers, since no comparison of the scripts meets others.
pub mod Equality
pub mod Build
use samgita.Prelude.{
  ℕ, Bool, true, false, Option, none, some, String, str_eq, if◌then◌else◌, ◌&&◌, ◌||◌, ◌+◌, suc,
  zero,
}

-- `negative n` is -(n + 1).
mutual
  pub data Value : Type 0 where
    null : Value
    boolean : Bool → Value
    number : ℕ → Value
    negative : ℕ → Value
    text : String → Value
    dict : Fields → Value
    list : Items → Value

  pub data Fields : Type 0 where
    end : Fields
    field : String → Value → Fields → Fields

  pub data Items : Type 0 where
    nil : Items
    cons : Value → Items → Items

-- d.get(key)
unfoldable pub get : String → Fields → Option Value
get key end = none
get key (field k v rest) = if str_eq k key then some v else get key rest

abbrev pub get_or : Value → String → Fields → Value
get_or default' key fields = elim (get key fields) [ none ↦ default' | some v ↦ v ]

-- previous.get(key) if isinstance(previous, dict) else None
unfoldable pub get_in : String → Value → Value
unfolding get
get_in key (dict fields) = get_or null key fields
get_in key _ = null

abbrev pub size_items : Items → ℕ
size_items nil = 0
size_items (cons x xs) = suc (size_items xs)

abbrev pub size_fields : Fields → ℕ
size_fields end = 0
size_fields (field k v fs) = suc (size_fields fs)

-- list[index], where the index is in range.
unfoldable pub item : Items → ℕ → Option Value
item nil i = none
item (cons x xs) zero = some x
item (cons x xs) (suc i) = item xs i

-- bool(value)
unfoldable pub truthy : Value → Bool
truthy null = false
truthy (boolean b) = b
truthy (number n) = elim n [ zero ↦ false | suc m ↦ true ]
truthy (negative n) = true
truthy (text s) = if str_eq s "" then false else true
truthy (list nil) = false
truthy (list (cons x xs)) = true
truthy (dict end) = false
truthy (dict (field k v fs)) = true

unfoldable pub is_null : Value → Bool
is_null null = true
is_null _ = false
