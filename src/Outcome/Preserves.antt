-- ===== src/Outcome/Preserves.antt =====
-- When an action leaves its state with a property that it found there, whether it returns or raises.
use fastdjango.Base.{◌≡◌, refl, Bool, true, false, if◌then◌else◌}
use fastdjango.Errors.{Exception}
use fastdjango.Outcome.{Outcome, ok, raise, Exec, pure, throw, lift, continue, ◌>>=◌, handle, catch}

pub record Preserves {ℓ} {State A : Type ℓ} (Good : State → Type ℓ) (action : Exec State A)
    : Type ℓ where
  pub holds_after : (before : State) → Good before → Good (action before).1

module _ {ℓ} {State A : Type ℓ} {Good : State → Type ℓ} where
  -- nothing is written
  pub Preserves-read : (answer : State → Outcome A) → Preserves Good (λ s. (answer s, s))
  Preserves-read answer = record { holds_after = λ before good. good }

  pub Preserves-lift : (answer : Outcome A) → Preserves Good (lift answer)
  Preserves-lift answer = Preserves-read (λ _. answer)

  pub Preserves-pure : (a : A) → Preserves Good (pure a)
  Preserves-pure a = Preserves-lift (ok a)

  pub Preserves-throw : (e : Exception) → Preserves Good (throw {A = A} e)
  Preserves-throw e = Preserves-lift (raise e)

  -- a test, as the two ways to write it
  pub Preserves-elim :
      (test : Bool) (yes_body no_body : Exec State A)
      → Preserves Good yes_body
      → Preserves Good no_body
      → Preserves Good (elim test [ true ↦ yes_body | false ↦ no_body ])
  Preserves-elim true yes_body no_body y n = y
  Preserves-elim false yes_body no_body y n = n

  pub Preserves-if :
      (test : Bool) (yes_body no_body : Exec State A)
      → Preserves Good yes_body
      → Preserves Good no_body
      → Preserves Good (if test then yes_body else no_body)
  Preserves-if true yes_body no_body y n = y
  Preserves-if false yes_body no_body y n = n

  handled :
      (answer : Outcome A) (handler : Exception → Exec State A) (s : State)
      → ((e : Exception) → Preserves Good (handler e))
      → Good s
      → Good (handle handler answer s).1
  handled (raise e) handler s handlers good = (handlers e).holds_after s good
  handled (ok a) handler s handlers good = good

  -- `try` with its `except` clauses
  pub Preserves-catch :
      (body : Exec State A) (handler : Exception → Exec State A)
      → Preserves Good body
      → ((e : Exception) → Preserves Good (handler e))
      → Preserves Good (catch body handler)
  Preserves-catch body handler tried handlers = record {
    holds_after = λ before good.
        handled (body before).0 handler (body before).1 handlers (tried.holds_after before good);
  }

module _ {ℓ} {State A B : Type ℓ} {Good : State → Type ℓ} where
  continued :
      (answer : Outcome A) (rest : A → Exec State B) (s : State)
      → ((a : A) → Preserves Good (rest a))
      → Good s
      → Good (continue answer rest s).1
  continued (raise e) rest s later good = good
  continued (ok a) rest s later good = (later a).holds_after s good

  -- a computation without effect, and what follows for each value that it returns
  pub Preserves-known :
      (answer : Outcome A) (rest : A → Exec State B)
      → ((a : A) → answer ≡ ok a → Preserves Good (rest a))
      → Preserves Good (lift answer >>= rest)
  Preserves-known (ok a) rest later = record { holds_after = (later a refl).holds_after }
  Preserves-known (raise e) rest later = record { holds_after = λ before good. good }

  -- one statement after another
  pub Preserves-bind :
      (body : Exec State A) (rest : A → Exec State B)
      → Preserves Good body
      → ((a : A) → Preserves Good (rest a))
      → Preserves Good (body >>= rest)
  Preserves-bind body rest first later = record {
    holds_after = λ before good.
        continued (body before).0 rest (body before).1 later (first.holds_after before good);
  }
