-- ===== src/UnitOfWork/Scope.antt =====
-- `async with uow`: what it publishes, what it rolls back, and when the scope ends.
use fastdjango.Base.{◌≡◌, refl, none, some, arith, Option-cases, inl, inr}
use fastdjango.Errors.{Exception, runtime}
use fastdjango.Outcome.{ok, raise, Exec}
use fastdjango.Engine.{Engine}
use fastdjango.UnitOfWork.{
  World, nested_uow_error, aenter, finish_transaction, close_scope, aexit, with_uow,
}

-- The connection works: opening, committing, rolling back and closing raise nothing.
pub record IsHealthy {Db : Type 0} (engine : Engine Db) : Type 0 where
  pub begins : (db : Db) → engine.begin db ≡ none
  pub commits : (db : Db) → engine.commit db ≡ none
  pub rolls_back : (db : Db) → engine.rollback db ≡ none
  pub closes : (db : Db) → engine.close db ≡ none

module _ {Db : Type 0} (engine : Engine Db) where
  abbrev pub entered : World Db → World Db
  entered w = record w { scope = some w.committed }

  -- A body that returns is committed.
  pub with_uow-returns :
      {A : Type 0} (body : Exec (World Db) A) (w : World Db) (a : A) (w' : World Db) (db : Db)
      → IsHealthy engine
      → w.scope ≡ none
      → body (entered w) ≡ (ok a, w')
      → w'.scope ≡ some db
      → with_uow engine body w ≡ (ok a, record w' { committed = db; scope = none })
  unfolding with_uow aenter aexit finish_transaction close_scope
  with_uow-returns body w a w' db h out run inside =
      rw (out, h.begins, run, inside, h.commits, h.closes)

  -- A body that raises is rolled back, and the exception goes on.
  pub with_uow-raises :
      {A : Type 0} (body : Exec (World Db) A) (w : World Db) (e : Exception) (w' : World Db)
      (db : Db)
      → IsHealthy engine
      → w.scope ≡ none
      → body (entered w) ≡ (raise e, w')
      → w'.scope ≡ some db
      → with_uow engine body w ≡ (raise e, record w' { scope = none })
  unfolding with_uow aenter aexit finish_transaction close_scope
  with_uow-raises body w e w' db h out run inside =
      rw (out, h.begins, run, inside, h.rolls_back, h.closes)

  -- Whatever the body does, if it never writes past the transaction and closing a session raises
  -- nothing, then a `with` block that raises has committed nothing.
  pub with_uow-atomic :
      {A : Type 0} (body : Exec (World Db) A) (w : World Db) (e : Exception)
      → ((v : World Db) → (body v).1.committed ≡ v.committed)
      → ((db : Db) → engine.close db ≡ none)
      → (with_uow engine body w).0 ≡ raise e
      → (with_uow engine body w).1.committed ≡ w.committed
  unfolding with_uow aenter aexit finish_transaction close_scope
  with_uow-atomic body w e keeps closes raised = elim (Option-cases (body (entered w)).1.scope) [
    | inl out ↦ ground (arith, keeps (entered w))
    | inr (db, inside) ↦ ground (arith, keeps (entered w), closes db)
  ]

  -- A `with` block that returns has run its body to its end on the committed database, what the
  -- transaction held at that point is committed, and the scope has ended.
  pub with_uow-commits :
      {A : Type 0} (body : Exec (World Db) A) (w : World Db) (a : A)
      → (with_uow engine body w).0 ≡ ok a
      → ((body (entered w)).0 ≡ ok a)
        × ((body (entered w)).1.scope ≡ some (with_uow engine body w).1.committed)
        × ((with_uow engine body w).1.scope ≡ none)
  unfolding with_uow aenter aexit finish_transaction close_scope
  with_uow-commits body w a returned = ground arith

  -- On a healthy connection, outside a scope, a `with` block inside another one is refused, and the
  -- outer block is rolled back and closed.
  pub with_uow-nested :
      {A : Type 0} (body : Exec (World Db) A) (w : World Db)
      → IsHealthy engine
      → w.scope ≡ none
      → with_uow engine (with_uow engine body) w
        ≡ (raise (runtime nested_uow_error), record w { scope = none })
  unfolding with_uow aenter
  with_uow-nested body w h out =
      with_uow-raises (with_uow engine body) w (runtime nested_uow_error) (entered w) w.committed h
        out refl refl

  -- Outside a scope, if the session opens, the body returns and the commit works, but closing the
  -- session raises, then the data is committed, the exception reaches the caller, and the scope stays
  -- set: the next `with` block of this context is refused as nested.
  pub with_uow-unclosed :
      {A B : Type 0} (body : Exec (World Db) A) (next : Exec (World Db) B) (w : World Db) (a : A)
      (w' : World Db) (db : Db) (e : Exception)
      → w.scope ≡ none
      → engine.begin w.committed ≡ none
      → body (entered w) ≡ (ok a, w')
      → w'.scope ≡ some db
      → engine.commit db ≡ none
      → engine.close db ≡ some e
      → (with_uow engine body w ≡ (raise e, record w' { committed = db }))
        × (with_uow engine next (record w' { committed = db })
            ≡ (raise (runtime nested_uow_error), record w' { committed = db }))
  unfolding with_uow aenter aexit finish_transaction close_scope
  with_uow-unclosed body next w a w' db e out begins run inside commits unclosed =
      (rw (out, begins, run, inside, commits, unclosed), rw inside)
