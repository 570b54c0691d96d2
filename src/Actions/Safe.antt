-- ===== src/Actions/Safe.antt =====
-- An action at one state: the checks that precede a part give it their conditions.
use samgita.Prelude.{◌≡◌, refl, Bool, true, false, Option, none, some, if◌then◌else◌}
use samgita.Actions.{Error, Outcome, ok, raise, Action, assert, gets, require, lift, ◌>>=◌}
use samgita.Actions.Maintains.{Maintains, bind-Maintains, lift-Maintains}

pub record Safe {S A : Type 0} (P : S → Type 0) (s : S) (m : Action S A) : Type 0 where
  pub at : P s → P (m s).1

module _ {S A : Type 0} {P : S → Type 0} {s : S} where
  pub Safe-assert :
      (b : Bool) (m : Action S A) → (b ≡ true → Safe P s m) → Safe P s (assert b >>= λ _. m)
  unfolding ◌>>=◌ assert
  Safe-assert true m k = record { at = λ h. (k refl).at h }
  Safe-assert false m k = record { at = λ h. h }

module _ {S A B : Type 0} {P : S → Type 0} {s : S} where
  pub Safe-require :
      (r : Option B) (e : Error) (m : B → Action S A)
      → ((b : B) → r ≡ some b → Safe P s (m b))
      → Safe P s (require r e >>= m)
  unfolding ◌>>=◌ require
  Safe-require none e m k = record { at = λ h. h }
  Safe-require (some b) e m k = record { at = λ h. (k b refl).at h }

  pub Safe-lift :
      (r : Outcome B) (m : B → Action S A) → ((b : B) → Safe P s (m b)) → Safe P s (lift r >>= m)
  unfolding ◌>>=◌ lift
  Safe-lift (ok b) m k = record { at = λ h. (k b).at h }
  Safe-lift (raise e) m k = record { at = λ h. h }

  pub Safe-gets : (f : S → B) (m : B → Action S A) → Safe P s (m (f s)) → Safe P s (gets f >>= m)
  unfolding ◌>>=◌ gets
  Safe-gets f m k = record { at = λ h. k.at h }

  pub Safe-bind :
      (m : Action S B) (k : B → Action S A)
      → Safe P s m
      → ((b : B) → Maintains P (k b))
      → Safe P s (m >>= k)
  unfolding ◌>>=◌ lift
  Safe-bind m k first rest = record {
    at = λ h.
        let (r, s') = m s in (bind-Maintains (lift r) k (lift-Maintains r) rest).at s' (first.at h);
  }

module _ {S A : Type 0} {P : S → Type 0} {s : S} where
  pub Safe-if :
      (b : Bool) (m n : Action S A)
      → (b ≡ true → Safe P s m)
      → (b ≡ false → Safe P s n)
      → Safe P s (if b then m else n)
  Safe-if true m n k l = k refl
  Safe-if false m n k l = l refl

  pub Safe-Maintains : (m : Action S A) → Maintains P m → Safe P s m
  Safe-Maintains m k = record { at = λ h. k.at s h }

module _ {S A : Type 0} {P : S → Type 0} where
  pub Maintains-Safe : (m : Action S A) → ((s : S) → Safe P s m) → Maintains P m
  Maintains-Safe m safe = record { at = λ s h. (safe s).at h }
