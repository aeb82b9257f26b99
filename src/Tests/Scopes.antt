-- ===== src/Tests/Scopes.antt =====
-- Units of work that commit, fail, nest, and do not close.
use fastdjango.Base.{arith, ◌≡◌, refl, none, some, []}
use fastdjango.Errors.{error, runtime, user_permission_denied_error, database_error}
use fastdjango.Outcome.{ok, raise, Exec, throw, ◌>>◌}
use fastdjango.Engine.{Engine}
use fastdjango.Engine.Memory.{Tables, memory, memory-IsHealthy}
use fastdjango.UnitOfWork.{World, nested_uow_error, on_scope, with_uow}
use fastdjango.UnitOfWork.Scope.{
  entered, with_uow-atomic, with_uow-commits, with_uow-nested, with_uow-unclosed,
}
use fastdjango.Tests.Fixtures.{tables, world}

abbrev emptied : Tables
emptied = record { users = []; refresh_sessions = [] }

-- a body that deletes everything
abbrev clear : Exec (World Tables) (Unit {0})
unfolding on_scope
clear = on_scope (λ _. (ok tt, emptied))

-- a body that deletes everything and then raises
abbrev clear_and_fail : Exec (World Tables) (Unit {0})
clear_and_fail = do clear; throw (error user_permission_denied_error)

clear_and_fail-keeps : (v : World Tables) → (clear_and_fail v).1.committed ≡ v.committed
unfolding on_scope
clear_and_fail-keeps v = ground arith

with_uow-atomic_example : (with_uow memory clear_and_fail world).1.committed ≡ tables
unfolding with_uow clear
with_uow-atomic_example =
    with_uow-atomic memory clear_and_fail world (error user_permission_denied_error)
      clear_and_fail-keeps (λ _. refl) refl

with_uow-commits_example :
    ((clear (entered memory world)).0 ≡ ok tt)
    × ((clear (entered memory world)).1.scope ≡ some (with_uow memory clear world).1.committed)
    × ((with_uow memory clear world).1.scope ≡ none)
unfolding with_uow clear
with_uow-commits_example = with_uow-commits memory clear world tt refl

with_uow-nested_example :
    with_uow memory (with_uow memory clear) world
    ≡ (raise (runtime nested_uow_error), record world { scope = none })
with_uow-nested_example = with_uow-nested memory clear world memory-IsHealthy refl

-- a connection that breaks when it is closed
abbrev unclosable : Engine Tables
unclosable = record memory { close = λ _. some (error database_error) }

with_uow-unclosed_example :
    (with_uow unclosable clear world
      ≡ (raise (error database_error), record world { committed = emptied; scope = some emptied }))
    × (with_uow unclosable clear (record world { committed = emptied; scope = some emptied }) ≡ (
      raise (runtime nested_uow_error),
      record world { committed = emptied; scope = some emptied },
    ))
unfolding on_scope
with_uow-unclosed_example =
    with_uow-unclosed unclosable clear clear world tt (record world { scope = some emptied })
      emptied (error database_error) refl refl refl refl refl refl
