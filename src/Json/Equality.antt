-- ===== src/Json/Equality.antt =====
-- `==` on the values of json.loads: True equals 1 and False equals 0, and dicts do not regard order.
use samgita.Prelude.{ℕ, Bool, true, false, none, some, str_eq, ◌==◌, ◌&&◌}
use samgita.Json.{
  Value, null, boolean, number, negative, text, list, dict, Items, nil, cons, Fields, end, field,
  get, size_fields,
}

abbrev from_bool : Bool → ℕ
from_bool true = 1
from_bool false = 0

unfoldable mutual
  pub equal : Value → Value → Bool
  equal null null = true
  equal (boolean a) (boolean b) = from_bool a == from_bool b
  equal (boolean a) (number n) = from_bool a == n
  equal (number n) (boolean b) = n == from_bool b
  equal (number n) (number m) = n == m
  equal (negative n) (negative m) = n == m
  equal (text s) (text t) = str_eq s t
  equal (list xs) (list ys) = equal_items xs ys
  equal (dict fs) (dict gs) = size_fields fs == size_fields gs && equal_fields fs gs
  equal _ _ = false

  pub equal_items : Items → Items → Bool
  equal_items nil nil = true
  equal_items (cons x xs) (cons y ys) = equal x y && equal_items xs ys
  equal_items _ _ = false

  pub equal_fields : Fields → Fields → Bool
  equal_fields end gs = true
  equal_fields (field k v fs) gs =
      elim (get k gs) [ none ↦ false | some w ↦ equal v w ] && equal_fields fs gs
