-- ===== src/SessionRepository.antt =====
-- `SQLAlchemyRefreshSessionRepository` of src/fastapi_template/core/authentication/infrastructure,
-- with its mapper.
pub mod Lookup
pub mod Rows
pub mod Rotation
pub mod Race
pub mod Revocation
pub mod Preservation
use fastdjango.Base.{ℕ, Bool, ◌&&◌, Option, none, some, Text, ◌==◌, nat_eq, text_eq, int_eq}
use fastdjango.Errors.{error, attribute_error}
use fastdjango.Outcome.{Outcome, ok, raise, Exec, pure, ◌>>=◌, ◌>>◌}
use fastdjango.Model.{
  DateTime, utc, User, UserModel, RefreshSession, RefreshSessionModel, CreateRefreshSessionDto,
  ReplaceRefreshSessionTokenDto,
}
use fastdjango.Engine.{Engine, first}
use fastdjango.UserRepository.{user_from_model, scalar_one_or_none, scalar_one}

unfoldable pub ensure_aware_datetime : DateTime → DateTime
ensure_aware_datetime t = elim t.tzinfo [ none ↦ record t { tzinfo = some utc } | some _ ↦ t ]

unfoldable pub optional_aware_datetime : Option DateTime → Option DateTime
unfolding ensure_aware_datetime
optional_aware_datetime none = none
optional_aware_datetime (some t) = some (ensure_aware_datetime t)

-- The mapper, once the owner is known.
unfoldable pub refresh_session_from_model : RefreshSessionModel → User → RefreshSession
unfolding ensure_aware_datetime optional_aware_datetime
refresh_session_from_model m user = record {
  id = m.id;
  refresh_token_hash = m.refresh_token_hash;
  user = user;
  user_agent = m.user_agent;
  ip_address_trace = m.ip_address_trace;
  created_at = ensure_aware_datetime m.created_at;
  expires_at = ensure_aware_datetime m.expires_at;
  last_used_at = optional_aware_datetime m.last_used_at;
  revoked_at = optional_aware_datetime m.revoked_at;
  rotation_counter = m.rotation_counter;
}

-- The row that `create` adds.
unfoldable pub new_session_model : CreateRefreshSessionDto → RefreshSessionModel
new_session_model d = record {
  id = d.id;
  refresh_token_hash = d.refresh_token_hash;
  user_id = d.user.id;
  user_agent = d.user_agent;
  ip_address_trace = d.ip_address_trace;
  created_at = d.created_at;
  last_used_at = d.last_used_at;
  expires_at = d.expires_at;
  revoked_at = d.revoked_at;
  rotation_counter = d.rotation_counter;
}

-- `user_from_model(model=model.user)` where no row was found for the relationship
abbrev from_owner : RefreshSessionModel → Option UserModel → Outcome RefreshSession
unfolding user_from_model refresh_session_from_model
from_owner m none = raise (error attribute_error)
from_owner m (some u) = ok (refresh_session_from_model m (user_from_model u))

-- the WHERE clause and the values of the update
unfoldable pub is_expected : ReplaceRefreshSessionTokenDto → RefreshSessionModel → Bool
is_expected d m = m.id == d.session_id && m.refresh_token_hash == d.expected_refresh_token_hash

unfoldable pub replaced : ReplaceRefreshSessionTokenDto → RefreshSessionModel → RefreshSessionModel
replaced d m = record m {
  refresh_token_hash = d.refresh_token_hash;
  last_used_at = some d.last_used_at;
  rotation_counter = d.rotation_counter;
}

module _ {Db : Type 0} (engine : Engine Db) where
  -- selectinload(RefreshSessionModel.user), and the mapping with `model.user`
  unfoldable pub load_session : RefreshSessionModel → Exec Db RefreshSession
  unfolding from_owner
  load_session m db = (from_owner m (first (engine.select_users (λ u. u.id == m.user_id) db)), db)

  unfoldable pub create : CreateRefreshSessionDto → Exec Db RefreshSession
  unfolding new_session_model refresh_session_from_model
  create d = do
    engine.insert_session (new_session_model d)
    pure (refresh_session_from_model (new_session_model d) d.user)

  abbrev load_if_found : Option RefreshSessionModel → Exec Db (Option RefreshSession)
  unfolding load_session
  load_if_found none = pure none
  load_if_found (some m) = do session ← load_session m; pure (some session)

  unfoldable pub get_by_token_hash : Text → Exec Db (Option RefreshSession)
  unfolding load_if_found
  get_by_token_hash refresh_token_hash = do
    model ← λ db. (
      scalar_one_or_none
          (engine.select_sessions (λ m. m.refresh_token_hash == refresh_token_hash) db),
      db,
    )
    load_if_found model

  -- `if update_result.rowcount != 1: return None`
  abbrev reload_if_updated : ReplaceRefreshSessionTokenDto → ℕ → Exec Db (Option RefreshSession)
  unfolding load_session
  reload_if_updated d rowcount = elim (rowcount == 1) [
    | Bool.false ↦ pure none
    | Bool.true ↦ do
      model ← λ db. (
        scalar_one (engine.select_sessions (λ m. m.refresh_token_hash == d.refresh_token_hash) db),
        db,
      )
      session ← load_session model
      pure (some session)
  ]

  unfoldable pub replace_token_hash :
      ReplaceRefreshSessionTokenDto → Exec Db (Option RefreshSession)
  unfolding is_expected replaced reload_if_updated
  replace_token_hash d = do
    rowcount ← engine.update_sessions (is_expected d) (replaced d)
    reload_if_updated d rowcount

  abbrev write_revoked : DateTime → Option RefreshSessionModel → Exec Db (Unit {0})
  write_revoked revoked_at none = pure tt
  write_revoked revoked_at (some m) =
      engine.write_session (record m { revoked_at = some revoked_at })

  unfoldable pub revoke : ℕ → DateTime → Exec Db (Unit {0})
  revoke session_id revoked_at = do
    model ← λ db. (scalar_one_or_none (engine.select_sessions (λ m. m.id == session_id) db), db)
    write_revoked revoked_at model
