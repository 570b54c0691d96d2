-- ===== src/Actions/Maintains.antt =====
-- What holds before an action and after it, however it ends: for each way to build an action, when it does so.
use samgita.Prelude.{Bool, true, false, Option, none, some, if◌then◌else◌}
use samgita.Actions.{
  Error, Outcome, ok, raise, Action, pure, fail, lift, gets, require, ◌>>=◌, assert, when, recover,
  except_broken, broken_pipe,
}

pub record Maintains {κ} {S A : Type κ} (Inv : S → Type κ) (action : Action S A) : Type κ where
  pub at : (before : S) → Inv before → Inv (action before).1

-- Actions that leave the state as it is.
module _ {κ} {S A : Type κ} {Inv : S → Type κ} where
  pub require-Maintains : (o : Option A) (e : Error) → Maintains Inv (require o e)
  unfolding require
  require-Maintains (some a) e = record { at = λ before inv. inv }
  require-Maintains none e = record { at = λ before inv. inv }

  pub gets-Maintains : (view : S → A) → Maintains Inv (gets view)
  unfolding gets
  gets-Maintains view = record { at = λ before inv. inv }

  pub lift-Maintains : (outcome : Outcome A) → Maintains Inv (lift outcome)
  unfolding lift
  lift-Maintains outcome = record { at = λ before inv. inv }

  pub fail-Maintains : (e : Error) → Maintains Inv (fail {A = A} e)
  unfolding fail
  fail-Maintains e = record { at = λ before inv. inv }

  pub pure-Maintains : (value : A) → Maintains Inv (pure value)
  unfolding pure
  pure-Maintains value = record { at = λ before inv. inv }

-- Actions made of others.
module _ {κ} {S A : Type κ} {Inv : S → Type κ} where
  pub if-Maintains :
      (test : Bool) (yes' no' : Action S A)
      → Maintains Inv yes'
      → Maintains Inv no'
      → Maintains Inv (if test then yes' else no')
  if-Maintains false yes' no' y n = n
  if-Maintains true yes' no' y n = y

module _ {κ} {S A B : Type κ} {Inv : S → Type κ} where
  next-Maintains :
      (outcome : Outcome A) (rest : A → Action S B)
      → ((a : A) → Maintains Inv (rest a))
      → Maintains Inv (lift outcome >>= rest)
  unfolding lift ◌>>=◌
  next-Maintains (raise e) rest each = record { at = λ before inv. inv }
  next-Maintains (ok a) rest each = each a

  pub bind-Maintains :
      (first : Action S A) (rest : A → Action S B)
      → Maintains Inv first
      → ((a : A) → Maintains Inv (rest a))
      → Maintains Inv (first >>= rest)
  unfolding lift ◌>>=◌
  bind-Maintains first rest once each = record {
    at = λ before inv.
        let (outcome, between) = first before in
        (next-Maintains outcome rest each).at between (once.at before inv);
  }

module _ {S : Type 0} {Inv : S → Type 0} where
  pub assert-Maintains : (test : Bool) → Maintains Inv (assert test)
  unfolding assert
  assert-Maintains false = record { at = λ before inv. inv }
  assert-Maintains true = record { at = λ before inv. inv }

  pub when-Maintains :
      (test : Bool) (action : Action S Unit)
      → Maintains Inv action
      → Maintains Inv (when test action)
  unfolding when
  when-Maintains false action once = record { at = λ before inv. inv }
  when-Maintains true action once = record { at = λ before inv. once.at before inv }

  recover-Maintains :
      {A : Type 0} (outcome : Outcome A) (handler : Action S A)
      → Maintains Inv handler
      → Maintains Inv (recover outcome handler)
  recover-Maintains (raise broken_pipe) handler once = record {
    at = λ before inv. once.at before inv;
  }
  recover-Maintains (raise _) handler once = record { at = λ before inv. inv }
  recover-Maintains (ok a) handler once = record { at = λ before inv. inv }

  pub except-Maintains :
      {A : Type 0} (action handler : Action S A)
      → Maintains Inv action
      → Maintains Inv handler
      → Maintains Inv (except_broken action handler)
  unfolding except_broken
  except-Maintains action handler once caught = record {
    at = λ before inv.
        (recover-Maintains (action before).0 handler caught).at (action before).1
          (once.at before inv);
  }

pub ruleset maintains = (
  bind-Maintains, if-Maintains, when-Maintains, except-Maintains, assert-Maintains,
  require-Maintains, gets-Maintains, lift-Maintains, fail-Maintains, pure-Maintains,
)
