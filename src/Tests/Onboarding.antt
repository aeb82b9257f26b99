-- ===== src/Tests/Onboarding.antt =====
-- A registration, and the first login after it.
use fastdjango.Base.{◌≡◌, refl, same_text, is_in, some}
use fastdjango.Outcome.{ok}
use fastdjango.Model.{User}
use fastdjango.Engine.Memory.{Tables, memory, memory-IsRelational, memory-IsHealthy}
use fastdjango.UnitOfWork.{in_transaction}
use fastdjango.Accounts.{authenticate_user}
use fastdjango.PasswordService.{is_weak_password}
use fastdjango.UseCases.Accounts.{register_user}
use fastdjango.UseCases.Onboarding.{register_user-authenticates}
use fastdjango.Tests.Fixtures.{platform, passwords, world}
use fastdjango.Tests.Refreshing.{tables-IsConsistent}
use fastdjango.Tests.Accounts.{cat, cat_normalizes, platform-IsIdempotent}

abbrev later : Tables
later = (register_user platform memory passwords cat world).1.committed

register_user-authenticates_example :
    (user : User) × ((register_user platform memory passwords cat world).0 ≡ ok user)
    × (authenticate_user platform memory cat.username cat.password (in_transaction later later 40)
        ≡ (ok (some user), in_transaction later later 40))
unfolding is_weak_password is_in same_text
register_user-authenticates_example =
    register_user-authenticates platform memory passwords memory-IsRelational memory-IsHealthy world
      refl tables-IsConsistent cat cat cat_normalizes refl refl platform-IsIdempotent 40 refl
