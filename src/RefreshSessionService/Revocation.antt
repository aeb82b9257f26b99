-- ===== src/RefreshSessionService/Revocation.antt =====
-- The check of the owner in `revoke_refresh_token`.
use fastdjango.Base.{ℕ, ◌+◌, ◌≡◌, false, ◌==◌, int_eq, eq_refl}
use fastdjango.Errors.{error, invalid_refresh_token_error}
use fastdjango.Outcome.{ok, raise}
use fastdjango.Model.{User, RefreshSession}
use fastdjango.Platform.{Platform}
use fastdjango.Engine.{Engine}
use fastdjango.SessionRepository.{revoke}
use fastdjango.UnitOfWork.{in_transaction}
use fastdjango.Clock.{at_utc}
use fastdjango.RefreshSessionService.{revoke_owned}

module _ {Db : Type 0} (platform : Platform) (engine : Engine Db) (committed db : Db) where
  pub revoke_owned-foreign :
      (draws : ℕ) (session : RefreshSession) (user : User)
      → (session.user.id == user.id) ≡ false
      → revoke_owned platform engine user session (in_transaction committed db draws)
        ≡ (raise (error invalid_refresh_token_error), in_transaction committed db draws)
  unfolding revoke_owned
  revoke_owned-foreign draws session user foreign = rw (revoke_owned, foreign)

  pub revoke_owned-own :
      (after : Db) (draws : ℕ) (session : RefreshSession) (user : User)
      → session.user.id ≡ user.id
      → revoke engine session.id (at_utc (platform.now draws)) db ≡ (ok tt, after)
      → revoke_owned platform engine user session (in_transaction committed db draws)
        ≡ (ok tt, in_transaction committed after (draws + 1))
  unfolding revoke_owned
  revoke_owned-own after draws session user own written =
      rw (revoke_owned, own, eq_refl user.id, written)
