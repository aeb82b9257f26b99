-- ===== src/RefreshSessionService/Rotation.antt =====
-- `rotate_refresh_token` inside a transaction on a consistent database, on each of its branches.
use fastdjango.Base.{ℕ, ◌+◌, ◌≡◌, refl, true, false, Text, text_eq}
use fastdjango.Errors.{error, invalid_refresh_token_error, expired_refresh_token_error}
use fastdjango.Outcome.{ok, raise}
use fastdjango.Model.{
  RefreshSession, is_active_at, UserModel, RefreshSessionModel, ReplaceRefreshSessionTokenDto,
}
use fastdjango.Platform.{Platform}
use fastdjango.Engine.{Engine, IsRelational}
use fastdjango.Engine.Queries.{IsConsistent}
use fastdjango.UserRepository.{user_from_model}
use fastdjango.SessionRepository.{refresh_session_from_model, replaced}
use fastdjango.SessionRepository.Lookup.{
  HasHash, HasKey, get_by_token_hash-none, get_by_token_hash-some,
}
use fastdjango.SessionRepository.Rows.{IsFreshHash}
use fastdjango.SessionRepository.Rotation.{updated, replace_token_hash-some}
use fastdjango.UnitOfWork.{World, in_transaction}
use fastdjango.Clock.{at_utc}
use fastdjango.RefreshSessionService.{
  RefreshSessionServiceSettings, get_active_refresh_session, rotate_refresh_token,
}

-- The entity of a row and of its owner's row.
abbrev pub session_of : RefreshSessionModel → UserModel → RefreshSession
session_of m u = refresh_session_from_model m (user_from_model u)

-- The token that a rotation draws which starts at this call of the clock, and the update that it asks for.
abbrev pub next_token : Platform → RefreshSessionServiceSettings → ℕ → Text
next_token platform settings draws =
    platform.token_urlsafe settings.refresh_token_nbytes (draws + 1)

abbrev pub rotation_dto :
    Platform
    → RefreshSessionServiceSettings
    → ℕ
    → Text
    → RefreshSessionModel
    → ReplaceRefreshSessionTokenDto
rotation_dto platform settings draws token m = record {
  session_id = m.id;
  expected_refresh_token_hash = platform.sha256_hexdigest token;
  refresh_token_hash = platform.sha256_hexdigest (next_token platform settings draws);
  last_used_at = at_utc (platform.now (draws + 1 + 1));
  rotation_counter = m.rotation_counter + 1;
}

module _ {Db : Type 0} (platform : Platform) (engine : Engine Db) (laws : IsRelational engine)
    (committed db : Db) (draws : ℕ) where
  abbrev here : ℕ → World Db
  here n = in_transaction committed db n

  pub get_active_refresh_session-unknown :
      (h : Text)
      → IsFreshHash h (engine.refresh_sessions db)
      → get_active_refresh_session platform engine h (here draws)
        ≡ (raise (error invalid_refresh_token_error), here draws)
  unfolding get_active_refresh_session
  get_active_refresh_session-unknown h f = rw (get_by_token_hash-none engine laws db h f)

  module _ (h : Text) (m : RefreshSessionModel) (u : UserModel)
      (found : HasHash h m (engine.refresh_sessions db))
      (owned : HasKey m.user_id u (engine.users db)) where
    pub get_active_refresh_session-active :
        is_active_at (session_of m u) (at_utc (platform.now draws)) ≡ ok true
        → get_active_refresh_session platform engine h (here draws)
          ≡ (ok (session_of m u), here (draws + 1))
    unfolding get_active_refresh_session
    get_active_refresh_session-active active =
        rw (get_by_token_hash-some engine laws db h m u found owned, active)

    pub get_active_refresh_session-inactive :
        is_active_at (session_of m u) (at_utc (platform.now draws)) ≡ ok false
        → get_active_refresh_session platform engine h (here draws)
          ≡ (raise (error expired_refresh_token_error), here (draws + 1))
    unfolding get_active_refresh_session
    get_active_refresh_session-inactive active =
        rw (get_by_token_hash-some engine laws db h m u found owned, active)

  module _ (settings : RefreshSessionServiceSettings) where
    pub rotate_refresh_token-unknown :
        (token : Text)
        → IsFreshHash (platform.sha256_hexdigest token) (engine.refresh_sessions db)
        → rotate_refresh_token platform engine settings token (here draws)
          ≡ (raise (error invalid_refresh_token_error), here draws)
    unfolding rotate_refresh_token
    rotate_refresh_token-unknown token f =
        rw (get_active_refresh_session-unknown (platform.sha256_hexdigest token) f)

    module _ (token : Text) (m : RefreshSessionModel) (u : UserModel)
        (found : HasHash (platform.sha256_hexdigest token) m (engine.refresh_sessions db))
        (owned : HasKey m.user_id u (engine.users db)) where
      pub rotate_refresh_token-inactive :
          is_active_at (session_of m u) (at_utc (platform.now draws)) ≡ ok false
          → rotate_refresh_token platform engine settings token (here draws)
            ≡ (raise (error expired_refresh_token_error), here (draws + 1))
      unfolding rotate_refresh_token
      rotate_refresh_token-inactive active = rw (
          get_active_refresh_session-inactive (platform.sha256_hexdigest token) m u found owned
            active)

      pub rotate_refresh_token-active :
          is_active_at (session_of m u) (at_utc (platform.now draws)) ≡ ok true
          → IsConsistent engine db
          → IsFreshHash
              (platform.sha256_hexdigest (next_token platform settings draws))
              (engine.refresh_sessions db)
          → rotate_refresh_token platform engine settings token (here draws) ≡ (
            ok (record {
              refresh_token = next_token platform settings draws;
              session = session_of (replaced (rotation_dto platform settings draws token m) m) u;
            }),
            in_transaction committed
                (updated engine db (rotation_dto platform settings draws token m))
                (draws + 1 + 1 + 1),
          )
      unfolding rotate_refresh_token
      rotate_refresh_token-active active c fresh = rw (
        get_active_refresh_session-active (platform.sha256_hexdigest token) m u found owned active,
        replace_token_hash-some engine laws db (rotation_dto platform settings draws token m) c
            fresh m u refl found owned,
      )
