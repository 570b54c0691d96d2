-- ===== src/Actions/Returns.antt =====
-- An action that returned: what its first part gave, and that the rest returned.
use samgita.Prelude.{◌≡◌, refl, Bool, true, false, Option, none, some}
use samgita.Actions.{Error, Outcome, ok, raise, Action, proceed, lift, gets, require, assert, ◌>>=◌}

module _ {S A : Type 0} (s : S) (v : A) where
  pub assert-ok :
      (b : Bool) (k : Unit → Action S A)
      → ((assert b >>= k) s).0 ≡ ok v
      → (b ≡ true) × ((k tt s).0 ≡ ok v)
  unfolding ◌>>=◌ assert
  assert-ok true k h = (refl, h)
  assert-ok false k h = cc

module _ {S A B : Type 0} (s : S) (v : A) where
  pub lift-ok :
      (r : Outcome B) (k : B → Action S A)
      → ((lift r >>= k) s).0 ≡ ok v
      → (b : B) × (r ≡ ok b) × ((k b s).0 ≡ ok v)
  unfolding ◌>>=◌ lift
  lift-ok (ok b) k h = (b, refl, h)
  lift-ok (raise e) k h = cc

  pub require-ok :
      (o : Option B) (e : Error) (k : B → Action S A)
      → ((require o e >>= k) s).0 ≡ ok v
      → (b : B) × (o ≡ some b) × ((k b s).0 ≡ ok v)
  unfolding ◌>>=◌ require
  require-ok none e k h = cc
  require-ok (some b) e k h = (b, refl, h)

  pub gets-ok :
      (f : S → B) (k : B → Action S A) → ((gets f >>= k) s).0 ≡ ok v → (k (f s) s).0 ≡ ok v
  unfolding ◌>>=◌ gets
  gets-ok f k h = h

  proceed-ok :
      (r : Outcome B) (k : B → Action S A) (s' : S)
      → (proceed r k s').0 ≡ ok v
      → (b : B) × (r ≡ ok b) × ((k b s').0 ≡ ok v)
  proceed-ok (ok b) k s' h = (b, refl, h)
  proceed-ok (raise e) k s' h = cc

  pub bind-ok :
      (m : Action S B) (k : B → Action S A)
      → ((m >>= k) s).0 ≡ ok v
      → (b : B) × ((m s).0 ≡ ok b) × ((k b (m s).1).0 ≡ ok v)
  unfolding ◌>>=◌
  bind-ok m k h = let (r, s') = m s in proceed-ok r k s' h

pub assert-last : {S : Type 0} (s : S) (b : Bool) → (assert b s).0 ≡ ok tt → b ≡ true
unfolding assert
assert-last s true h = refl
assert-last s false h = cc

-- What a block does after a first part that returned.
module _ {S A B : Type 0} (s : S) where
  pub lift-eq : (r : Outcome B) (k : B → Action S A) (b : B) → r ≡ ok b → (lift r >>= k) s ≡ k b s
  unfolding ◌>>=◌ lift
  lift-eq r k b h = rw h refl

  pub gets-eq : (f : S → B) (k : B → Action S A) → (gets f >>= k) s ≡ k (f s) s
  unfolding ◌>>=◌ gets
  gets-eq f k = refl

  pub require-eq :
      (o : Option B) (e : Error) (k : B → Action S A) (b : B)
      → o ≡ some b
      → (require o e >>= k) s ≡ k b s
  unfolding ◌>>=◌ require
  require-eq o e k b h = rw h refl

  pub bind-eq :
      (m : Action S B) (k : B → Action S A) (b : B) → (m s).0 ≡ ok b → (m >>= k) s ≡ k b (m s).1
  unfolding ◌>>=◌
  bind-eq m k b h = rw h refl
