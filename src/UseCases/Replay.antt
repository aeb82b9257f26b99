-- ===== src/UseCases/Replay.antt =====
-- `RefreshTokenUseCase.execute`, called twice with one token.
use fastdjango.Base.{◌+◌, ◌≡◌, refl, ap, true, none, Text}
use fastdjango.Errors.{error, invalid_refresh_token_error}
use fastdjango.Outcome.{Outcome, ok, raise}
use fastdjango.Model.{UserModel, RefreshSessionModel, RefreshTokenDto, TokenDto}
use fastdjango.Platform.{Platform}
use fastdjango.Engine.{Engine, IsRelational}
use fastdjango.UnitOfWork.{World}
use fastdjango.UnitOfWork.Scope.{IsHealthy}
use fastdjango.RefreshSessionService.{RefreshSessionServiceSettings}
use fastdjango.RefreshSessionService.Rotation.{next_token}
use fastdjango.Jwt.{Jwt, JwtServiceSettings}
use fastdjango.Jwt.Issue.{Issues}
use fastdjango.UseCases.Tokens.{refresh_token}
use fastdjango.UseCases.Refresh.{
  CanRotate, at_rest, rotated_db, refresh_token-rotates, refresh_token-unknown, rotated_db_lem,
}

module _ {Db : Type 0} (platform : Platform) (engine : Engine Db) (jwt : Jwt)
    (sessions : RefreshSessionServiceSettings) (tokens : JwtServiceSettings)
    (laws : IsRelational engine) (healthy : IsHealthy engine) (w : World Db) (out : w.scope ≡ none)
    (d : RefreshTokenDto) (m : RefreshSessionModel) (u : UserModel) (access : Text) where
  abbrev refresh : World Db → Outcome TokenDto × World Db
  refresh = refresh_token platform engine jwt sessions tokens d

  -- A refresh token works once. On a healthy relational database, if the token's session can be rotated,
  -- its user is active and the access token can be signed, then the first use returns the new pair, and
  -- a second use of the same token is refused as invalid and changes nothing.
  pub refresh_token-replayed :
      CanRotate platform engine sessions w d m u
      → u.is_active ≡ true
      → Issues platform jwt tokens u.id (w.draws + 1 + 1 + 1) access
      → ((refresh w).0
          ≡ ok (record {
            access_token = access;
            refresh_token = next_token platform sessions w.draws;
          }))
        × (refresh (refresh w).1 ≡ (raise (error invalid_refresh_token_error), (refresh w).1))
  refresh_token-replayed r live issues =
      let first_use =
        refresh_token-rotates platform engine jwt sessions tokens laws healthy w out d m u r access
          live issues in
      let stored = rotated_db_lem platform engine jwt sessions tokens laws healthy w out d m u r in
      (
        ap (λ r. r.0) first_use,
        rw first_use (
            refresh_token-unknown platform engine jwt sessions tokens laws healthy
              (at_rest (rotated_db platform engine sessions w d m) (w.draws + 1 + 1 + 1 + 1)) refl d
              stored.3),
      )
