-- ===== src/Prelude/Returns.antt =====
-- Calls that return or raise: `E` is the type of the exceptions of the caller.
use mathlib.Core.Path.{◌≡◌, refl}

pub data Result {ℓ κ} (E : Type κ) (A : Type ℓ) : Type (ℓ ⊔ κ) where
  ok : A → Result E A
  raise : E → Result E A

infixl 5 ◌>>=◌ ◌>>◌
abbrev pub ◌>>=◌ {ℓ κ ι} :
    {E : Type κ} {A : Type ℓ} {B : Type ι} → Result E A → (A → Result E B) → Result E B
ok a >>= f = f a
raise e >>= f = raise e

abbrev pub ◌>>◌ {κ ι} : {E : Type κ} {B : Type ι} → Result E (Unit {0}) → Result E B → Result E B
m >> k = m >>= λ _. k

-- A call that succeeds had a first part that succeeded.
pub >>=-eq-ok {ℓ κ ι} :
    {E : Type κ} {X : Type ℓ} {Y : Type ι} (call : Result E X) (next : X → Result E Y) {y : Y}
    → ◌≡◌ {A = Result E Y} (call >>= next) (ok y)
    → (x : X) × (call ≡ ok x) × (next x ≡ ok y)
>>=-eq-ok (raise e) next returned = cc
>>=-eq-ok (ok x) next returned = (x, refl, returned)
