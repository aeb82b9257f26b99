-- ===== src/UnitOfWork/Preservation.antt =====
-- Requests outside and inside a unit of work keep the invariant of the tables.
use fastdjango.Base.{List}
use fastdjango.Model.{UserModel}
use mathlib.Core.Path.{subst}
use fastdjango.Base.{◌≡◌, refl, Bool, true, false, Option, none, some, arith}
use fastdjango.Errors.{Exception}
use fastdjango.Outcome.{Exec, Outcome, ok, raise}
use fastdjango.Outcome.Preserves.{Preserves, Preserves-bind, Preserves-pure, Preserves-throw}
use fastdjango.Engine.{Engine}
use fastdjango.Engine.Guarded.{IsGuarded}
use fastdjango.UnitOfWork.{
  World, draw, on_scope, in_scope, current_scope, raise_or, enter_from, aenter, finish_transaction,
  close_scope, close_after, exit_from, aexit, leave, with_uow,
}

-- The invariant of what is committed, and of what a transaction sees.
pub record IsSound {Db : Type 0} (engine : Engine Db) (old : List UserModel) (w : World Db)
    : Type 0 where
  pub committed_guarded : IsGuarded engine old w.committed
  pub scope_guarded : (db : Db) → w.scope ≡ some db → IsGuarded engine old db

module _ {Db : Type 0} (engine : Engine Db) (old : List UserModel) where
  pub draw-Preserves : Preserves (IsSound engine old) draw
  unfolding draw
  draw-Preserves = record {
    holds_after =
        λ w h. record { committed_guarded = h.committed_guarded; scope_guarded = h.scope_guarded };
  }

  in_scope-Preserves :
      {A : Type 0} (m : Exec Db A) (scope : Option Db) (w : World Db)
      → Preserves (IsGuarded engine old) m
      → w.scope ≡ scope
      → IsSound engine old w
      → IsSound engine old (in_scope m scope w).1
  in_scope-Preserves m none w k e h = h
  in_scope-Preserves m (some db) w k e h = record {
    committed_guarded = h.committed_guarded;
    scope_guarded = λ after inside.
        subst (IsGuarded engine old) (ground arith) (k.holds_after db (h.scope_guarded db e));
  }

  pub on_scope-Preserves :
      {A : Type 0} (m : Exec Db A)
      → Preserves (IsGuarded engine old) m
      → Preserves (IsSound engine old) (on_scope m)
  unfolding on_scope
  on_scope-Preserves m k = record { holds_after = λ w h. in_scope-Preserves m w.scope w k refl h }

  pub current_scope-Preserves : Preserves (IsSound engine old) current_scope
  unfolding current_scope
  current_scope-Preserves = on_scope-Preserves _ (Preserves-pure _)

  raise_or-keeps :
      (r : Option Exception) (after w : World Db)
      → IsSound engine old after
      → IsSound engine old w
      → IsSound engine old (raise_or r after w).1
  raise_or-keeps none after w h k = h
  raise_or-keeps (some e) after w h k = k

  enter_from-keeps :
      (scope : Option Db) (w : World Db)
      → IsSound engine old w
      → IsSound engine old (enter_from engine scope w).1
  enter_from-keeps (some db) w h = h
  enter_from-keeps none w h =
      raise_or-keeps (engine.begin w.committed) (record w { scope = some w.committed }) w
        (record {
          committed_guarded = h.committed_guarded;
          scope_guarded = λ db e. subst (IsGuarded engine old) (ground arith) h.committed_guarded;
        })
        h

  aenter-Preserves : Preserves (IsSound engine old) (aenter engine)
  unfolding aenter
  aenter-Preserves = record { holds_after = λ w h. enter_from-keeps w.scope w h }

  finish_transaction-keeps :
      (db : Db) (has_error : Bool) (w : World Db)
      → IsGuarded engine old db
      → IsSound engine old w
      → IsSound engine old (finish_transaction engine db has_error w).1
  unfolding finish_transaction
  finish_transaction-keeps db true w c h = raise_or-keeps (engine.rollback db) w w h h
  finish_transaction-keeps db false w c h =
      raise_or-keeps (engine.commit db) (record w { committed = db }) w
        (record { committed_guarded = c; scope_guarded = h.scope_guarded }) h

  close_scope-Preserves : (db : Db) → Preserves (IsSound engine old) (close_scope engine db)
  unfolding close_scope
  close_scope-Preserves db = record {
    holds_after = λ w h.
        raise_or-keeps (engine.close db) (record w { scope = none }) w
          (record { committed_guarded = h.committed_guarded; scope_guarded = λ db e. ground arith })
          h;
  }

  close_after-Preserves :
      (db : Db) (r : Outcome (Unit {0})) → Preserves (IsSound engine old) (close_after engine db r)
  unfolding close_after
  close_after-Preserves db (ok _) = close_scope-Preserves db
  close_after-Preserves db (raise e) =
      Preserves-bind _ _ (close_scope-Preserves db) (λ _. Preserves-throw e)

  exit_from-keeps :
      (has_error : Bool) (scope : Option Db) (w : World Db)
      → w.scope ≡ scope
      → IsSound engine old w
      → IsSound engine old (exit_from engine has_error scope w).1
  unfolding exit_from
  exit_from-keeps has_error none w e h = h
  exit_from-keeps has_error (some db) w e h =
      (close_after-Preserves db (finish_transaction engine db has_error w).0).holds_after
        (finish_transaction engine db has_error w).1
        (finish_transaction-keeps db has_error w (h.scope_guarded db e) h)

  aexit-Preserves : (has_error : Bool) → Preserves (IsSound engine old) (aexit engine has_error)
  unfolding aexit
  aexit-Preserves has_error = record {
    holds_after = λ w h. exit_from-keeps has_error w.scope w refl h;
  }

  leave-Preserves : {A : Type 0} (r : Outcome A) → Preserves (IsSound engine old) (leave engine r)
  unfolding leave
  leave-Preserves (ok a) = Preserves-bind _ _ (aexit-Preserves false) (λ _. Preserves-pure a)
  leave-Preserves (raise e) = Preserves-bind _ _ (aexit-Preserves true) (λ _. Preserves-throw e)

  -- A `with` block keeps the invariant if its body does.
  pub with_uow-Preserves :
      {A : Type 0} (body : Exec (World Db) A)
      → Preserves (IsSound engine old) body
      → Preserves (IsSound engine old) (with_uow engine body)
  unfolding with_uow
  with_uow-Preserves body k = Preserves-bind _ _ aenter-Preserves (λ _. record {
    holds_after = λ w h. (leave-Preserves (body w).0).holds_after (body w).1 (k.holds_after w h);
  })
