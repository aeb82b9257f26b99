-- ===== src/RefreshSessionService.antt =====
-- `RefreshSessionService` of src/fastapi_template/core/authentication/services/refresh_session.py.
pub mod Rotation
pub mod Revocation
pub mod Preservation
use fastdjango.Base.{ℕ, ◌+◌, ◌*◌, Bool, true, false, [], Option, none, some, Text, ◌==◌, int_eq}
use fastdjango.Errors.{error, invalid_refresh_token_error, expired_refresh_token_error}
use fastdjango.Outcome.{Exec, pure, throw, lift, ◌>>=◌, ◌>>◌}
use fastdjango.Model.{User, RefreshSession, is_active_at, add_timedelta}
use fastdjango.Platform.{Platform}
use fastdjango.Engine.{Engine}
use fastdjango.SessionRepository
use fastdjango.UnitOfWork.{World, on_scope, current_scope}
use fastdjango.Clock.{now_utc, token_urlsafe, uuid7}

pub record RefreshSessionServiceSettings : Type 0 where
  pub refresh_token_nbytes : ℕ
  pub refresh_token_ttl_days : ℕ

-- timedelta(days=…), in microseconds
abbrev pub refresh_token_ttl : RefreshSessionServiceSettings → ℕ
refresh_token_ttl settings = settings.refresh_token_ttl_days * 86400000000

pub record RefreshSessionResult : Type 0 where
  pub refresh_token : Text
  pub session : RefreshSession

-- `ip_address_trace or ""`
abbrev pub trace_or_empty : Option Text → Text
trace_or_empty none = []
trace_or_empty (some trace) = trace

module _ {Db : Type 0} (platform : Platform) (engine : Engine Db) where
  -- the checks of `_get_active_refresh_session` on what the repository found
  abbrev accept : RefreshSession → Bool → Exec (World Db) RefreshSession
  accept session true = pure session
  accept session false = throw (error expired_refresh_token_error)

  unfoldable pub require_active : Option RefreshSession → Exec (World Db) RefreshSession
  unfolding now_utc is_active_at
  require_active none = throw (error invalid_refresh_token_error)
  require_active (some session) = do
    now ← now_utc platform
    active ← lift (is_active_at session now)
    accept session active

  unfoldable pub get_active_refresh_session : Text → Exec (World Db) RefreshSession
  unfolding on_scope require_active SessionRepository.get_by_token_hash
  get_active_refresh_session refresh_token_hash = do
    session ← on_scope (SessionRepository.get_by_token_hash engine refresh_token_hash)
    require_active session

  abbrev result_of : Text → Option RefreshSession → Exec (World Db) RefreshSessionResult
  result_of token none = throw (error invalid_refresh_token_error)
  result_of token (some session) = pure (record { refresh_token = token; session = session })

  -- the check of the owner, and the revocation
  unfoldable pub revoke_owned : User → RefreshSession → Exec (World Db) (Unit {0})
  unfolding current_scope now_utc on_scope SessionRepository.revoke
  revoke_owned user session = elim (session.user.id == user.id) [
    | false ↦ throw (error invalid_refresh_token_error)
    | true ↦ do
      current_scope
      revoked_at ← now_utc platform
      on_scope (SessionRepository.revoke engine session.id revoked_at)
  ]

  unfoldable pub revoke_refresh_token : Text → User → Exec (World Db) (Unit {0})
  unfolding current_scope get_active_refresh_session revoke_owned
  revoke_refresh_token refresh_token user = do
    current_scope
    session ← get_active_refresh_session (platform.sha256_hexdigest refresh_token)
    revoke_owned user session

  module _ (settings : RefreshSessionServiceSettings) where
    unfoldable pub create_refresh_session :
        User → Text → Option Text → Exec (World Db) RefreshSessionResult
    unfolding current_scope token_urlsafe now_utc uuid7 add_timedelta on_scope
        SessionRepository.create
    create_refresh_session user user_agent ip_address_trace = do
      refresh_token ← token_urlsafe platform settings.refresh_token_nbytes
      created_at ← now_utc platform
      current_scope
      id ← uuid7 platform
      expires_at ← lift (add_timedelta created_at (refresh_token_ttl settings))
      session ← on_scope (
          SessionRepository.create engine (record {
            id = id;
            user = user;
            refresh_token_hash = platform.sha256_hexdigest refresh_token;
            user_agent = user_agent;
            ip_address_trace = trace_or_empty ip_address_trace;
            created_at = created_at;
            last_used_at = none;
            expires_at = expires_at;
            revoked_at = none;
            rotation_counter = 0;
          }))
      pure (record { refresh_token = refresh_token; session = session })

    unfoldable pub rotate_refresh_token : Text → Exec (World Db) RefreshSessionResult
    unfolding current_scope get_active_refresh_session token_urlsafe now_utc on_scope
        SessionRepository.replace_token_hash
    rotate_refresh_token refresh_token = do
      let expected_refresh_token_hash = platform.sha256_hexdigest refresh_token
      current_scope
      session ← get_active_refresh_session expected_refresh_token_hash
      new_refresh_token ← token_urlsafe platform settings.refresh_token_nbytes
      used_at ← now_utc platform
      rotated_session ← on_scope (
          SessionRepository.replace_token_hash engine (record {
            session_id = session.id;
            expected_refresh_token_hash = expected_refresh_token_hash;
            refresh_token_hash = platform.sha256_hexdigest new_refresh_token;
            last_used_at = used_at;
            rotation_counter = session.rotation_counter + 1;
          }))
      result_of new_refresh_token rotated_session
