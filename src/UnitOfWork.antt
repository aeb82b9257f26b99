-- ===== src/UnitOfWork.antt =====
-- `SQLAlchemyUnitOfWork` of src/fastapi_template/infrastructure/sqlalchemy/unit_of_work.py, and
-- `async with uow as uow: body`.
pub mod Scope
pub mod Preservation
use fastdjango.Base.{ℕ, ◌+◌, Bool, true, false, Option, none, some, codes, Text}
use fastdjango.Errors.{Exception, runtime}
use fastdjango.Outcome.{Outcome, ok, raise, Exec, pure, throw, ◌>>◌}
use fastdjango.Engine.{Engine}

abbrev pub inactive_uow_error : Text
inactive_uow_error = codes "Unit of work is not active."

abbrev pub nested_uow_error : Text
nested_uow_error = codes "Nested UnitOfWork scopes are not supported."

-- What one request sees: the committed database, the scope's context variable with the transaction's
-- view of the database, and how often the clock and the random sources have been asked.
pub record World (Db : Type 0) : Type 0 where
  pub committed : Db
  pub scope : Option Db
  pub draws : ℕ

-- The world inside a scope: what is committed, what the transaction holds, and the calls so far.
abbrev pub in_transaction : {Db : Type 0} → Db → Db → ℕ → World Db
in_transaction committed db draws = record { committed = committed; scope = some db; draws = draws }

module _ {Db : Type 0} where
  -- the number of this call of a clock or of a random source
  unfoldable pub draw : Exec (World Db) ℕ
  draw w = (ok w.draws, record w { draws = w.draws + 1 })

  -- A repository's method, on `uow.user_repository` or `uow.refresh_session_repository`.
  abbrev in_scope : {A : Type 0} → Exec Db A → Option Db → Exec (World Db) A
  in_scope m none = throw (runtime inactive_uow_error)
  in_scope m (some db) = λ w. ((m db).0, record w { scope = some (m db).1 })

  unfoldable pub on_scope : {A : Type 0} → Exec Db A → Exec (World Db) A
  on_scope m w = in_scope m w.scope w

  -- the property `_current_scope`, read for its exception
  unfoldable pub current_scope : Exec (World Db) (Unit {0})
  unfolding on_scope
  current_scope = on_scope (pure tt)

  abbrev raise_or : Option Exception → World Db → Exec (World Db) (Unit {0})
  raise_or none after w = (ok tt, after)
  raise_or (some e) after w = (raise e, w)

module _ {Db : Type 0} (engine : Engine Db) where
  abbrev enter_from : Option Db → Exec (World Db) (Unit {0})
  enter_from (some _) = throw (runtime nested_uow_error)
  enter_from none =
      λ w. raise_or (engine.begin w.committed) (record w { scope = some w.committed }) w

  -- `__aenter__`
  unfoldable pub aenter : Exec (World Db) (Unit {0})
  aenter w = enter_from w.scope w

  -- `_finish_transaction`: a commit publishes the transaction's database, unless it raises.
  unfoldable pub finish_transaction : Db → Bool → Exec (World Db) (Unit {0})
  finish_transaction db true w = raise_or (engine.rollback db) w w
  finish_transaction db false w = raise_or (engine.commit db) (record w { committed = db }) w

  -- `_close_scope`: the context variable is reset once the session has been closed.
  unfoldable pub close_scope : Db → Exec (World Db) (Unit {0})
  close_scope db w = raise_or (engine.close db) (record w { scope = none }) w

  abbrev close_after : Db → Outcome (Unit {0}) → Exec (World Db) (Unit {0})
  unfolding close_scope
  close_after db (ok _) = close_scope db
  close_after db (raise e) = do close_scope db; throw e

  abbrev exit_from : Bool → Option Db → Exec (World Db) (Unit {0})
  unfolding close_after finish_transaction
  exit_from has_error none = throw (runtime inactive_uow_error)
  exit_from has_error (some db) = λ w.
      close_after db (finish_transaction db has_error w).0 (finish_transaction db has_error w).1

  -- `__aexit__`, which suppresses no exception
  unfoldable pub aexit : Bool → Exec (World Db) (Unit {0})
  unfolding exit_from
  aexit has_error w = exit_from has_error w.scope w

  abbrev leave : {A : Type 0} → Outcome A → Exec (World Db) A
  unfolding aexit
  leave (ok a) = do aexit false; pure a
  leave (raise e) = do aexit true; throw e

  -- `async with uow as uow: body`
  unfoldable pub with_uow : {A : Type 0} → Exec (World Db) A → Exec (World Db) A
  unfolding aenter leave
  with_uow body = do aenter; λ w. leave (body w).0 (body w).1
