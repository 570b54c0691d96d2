-- ===== src/Actions.antt =====
-- Methods of the HTTP fixtures: an object that they mutate, and the exceptions that they raise. What was
-- written before a raise stays written, so the state comes back beside the exception too.
pub mod Maintains
pub mod Returns
pub mod Safe
use samgita.Prelude.{Bool, true, false, Option, none, some, if◌then◌else◌}

pub data Error : Type 0 where
  assertion_error key_error value_error attribute_error type_error index_error : Error
  full broken_pipe timeout_expired : Error

pub data Outcome {ℓ} (A : Type ℓ) : Type ℓ where
  ok : A → Outcome A
  raise : Error → Outcome A

abbrev pub Action {ℓ} : Type ℓ → Type ℓ → Type ℓ
Action S A = S → Outcome A × S

module _ {ℓ} {S A : Type ℓ} where
  unfoldable pub pure : A → Action S A
  pure a s = (ok a, s)

  unfoldable pub fail : Error → Action S A
  fail e s = (raise e, s)

  unfoldable pub lift : Outcome A → Action S A
  lift r s = (r, s)

  unfoldable pub gets : (S → A) → Action S A
  gets f s = (ok (f s), s)

-- obj[key], of a lookup
unfoldable pub require {ℓ} : {S A : Type ℓ} → Option A → Error → Action S A
require none e s = (raise e, s)
require (some a) e s = (ok a, s)

module _ {ℓ} {S A B : Type ℓ} where
  abbrev proceed : Outcome A → (A → Action S B) → Action S B
  proceed (raise e) rest after = (raise e, after)
  proceed (ok a) rest after = rest a after

  infixl 10 ◌>>=◌ ◌>>◌
  unfoldable pub ◌>>=◌ : Action S A → (A → Action S B) → Action S B
  ◌>>=◌ first rest before = let (outcome, after) = first before in proceed outcome rest after

  abbrev pub ◌>>◌ : Action S A → Action S B → Action S B
  m >> n = m >>= λ _. n

module _ {S : Type 0} where
  unfoldable pub modify : (S → S) → Action S Unit
  modify f s = (ok tt, f s)

  -- The assert statement.
  unfoldable pub assert : Bool → Action S Unit
  assert true s = (ok tt, s)
  assert false s = (raise assertion_error, s)

  unfoldable pub when : Bool → Action S Unit → Action S Unit
  when true m s = m s
  when false m s = (ok tt, s)

  -- try: m, finally: n, where n does not raise.
  abbrev pub finally : {A : Type 0} → Action S A → (S → S) → Action S A
  finally m f s = let (r, s') = m s in (r, f s')

  abbrev recover : {A : Type 0} → Outcome A → Action S A → Action S A
  recover (raise broken_pipe) handler s = handler s
  recover r handler s = (r, s)

  -- try: m, except (BrokenPipeError, ConnectionResetError): handler
  unfoldable pub except_broken : {A : Type 0} → Action S A → Action S A → Action S A
  except_broken m handler s = let (r, s') = m s in recover r handler s'
