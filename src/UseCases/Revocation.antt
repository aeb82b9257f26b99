-- ===== src/UseCases/Revocation.antt =====
-- `RevokeTokenUseCase.execute`: the owner ends a session, and only the owner.
use fastdjango.Base.{
  ℕ, ◌+◌, ◌≡◌, refl, true, false, ◌&&◌, none, [], ◌∷◌, ◌==◌, nat_eq, text_eq, int_eq, keep, List,
}
use fastdjango.Base.Int.{ℤ}
use fastdjango.Errors.{
  error, invalid_refresh_token_error, expired_refresh_token_error,
  authenticated_user_not_found_error,
}
use fastdjango.Outcome.{ok, raise}
use fastdjango.Model.{is_active_at, UserModel, RefreshSessionModel, RefreshTokenDto, DateTime}
use fastdjango.Platform.{Platform}
use fastdjango.Engine.{Engine, IsRelational}
use fastdjango.Engine.Queries.{IsConsistent}
use fastdjango.UserRepository.{user_from_model}
use fastdjango.SessionRepository.{refresh_session_from_model, optional_aware_datetime}
use fastdjango.UserRepository.Lookup.{get_active_by_id_lem}
use fastdjango.SessionRepository.Lookup.{HasHash, HasKey}
use fastdjango.SessionRepository.Revocation.{revoked, revoked_rows, revoke_lem}
use fastdjango.UnitOfWork.{World, in_transaction}
use fastdjango.UnitOfWork.Scope.{IsHealthy, entered, with_uow-returns, with_uow-raises}
use fastdjango.Clock.{at_utc}
use fastdjango.RefreshSessionService.{RefreshSessionServiceSettings}
use fastdjango.RefreshSessionService.Rotation.{session_of, get_active_refresh_session-active}
use fastdjango.RefreshSessionService.Revocation.{revoke_owned-foreign, revoke_owned-own}
use fastdjango.Jwt.{Jwt, JwtServiceSettings}
use fastdjango.UseCases.Tokens.{revoke_token, revoke_token_body, refresh_token}
use fastdjango.UseCases.Refresh.{at_rest, refresh_token-not_active}

-- The active users with this key: one at most.
abbrev pub active_users : ℤ → List UserModel → List UserModel
active_users id rows = keep (λ m. m.id == id && m.is_active) rows

-- `user` is active and asks to end the session of the token in `d`: row `m`, of the user in row `u`,
-- active at this call of the clock.
pub record CanRevoke {Db : Type 0} (platform : Platform) (engine : Engine Db) (w : World Db)
    (d : RefreshTokenDto) (m : RefreshSessionModel) (u user : UserModel) : Type 0 where
  pub authenticated : active_users user.id (engine.users w.committed) ≡ user ∷ []
  pub found :
      HasHash (platform.sha256_hexdigest d.refresh_token) m (engine.refresh_sessions w.committed)
  pub owned : HasKey m.user_id u (engine.users w.committed)
  pub active : is_active_at (session_of m u) (at_utc (platform.now w.draws)) ≡ ok true
  pub consistent : IsConsistent engine w.committed

module _ {Db : Type 0} (platform : Platform) (engine : Engine Db) (laws : IsRelational engine)
    (healthy : IsHealthy engine) (w : World Db) (out : w.scope ≡ none) (d : RefreshTokenDto) where
  -- On a healthy relational database with consistent tables, a caller who is no active user is refused,
  -- and nothing is written.
  pub revoke_token-unauthenticated :
      (user_id : ℤ)
      → IsConsistent engine w.committed
      → active_users user_id (engine.users w.committed) ≡ []
      → revoke_token platform engine d user_id w
        ≡ (raise (error authenticated_user_not_found_error), at_rest w.committed w.draws)
  unfolding revoke_token revoke_token_body
  revoke_token-unauthenticated user_id c nobody =
      with_uow-raises engine (revoke_token_body platform engine d user_id) w
        (error authenticated_user_not_found_error) (entered engine w) w.committed healthy out
        (rw (get_active_by_id_lem engine laws w.committed user_id c, nobody)) refl

  module _ (m : RefreshSessionModel) (u user : UserModel)
      (r : CanRevoke platform engine w d m u user) where
    -- On a healthy relational database, an active user who holds the token of another user's active
    -- session is refused, and nothing is written.
    pub revoke_token-foreign :
        (u.id == user.id) ≡ false
        → revoke_token platform engine d user.id w
          ≡ (raise (error invalid_refresh_token_error), at_rest w.committed (w.draws + 1))
    unfolding revoke_token revoke_token_body refresh_session_from_model user_from_model
    revoke_token-foreign foreign =
        with_uow-raises engine (revoke_token_body platform engine d user.id) w
          (error invalid_refresh_token_error) (in_transaction w.committed w.committed (w.draws + 1))
          w.committed healthy out
          (rw (
            get_active_by_id_lem engine laws w.committed user.id r.consistent,
            r.authenticated,
            get_active_refresh_session-active platform engine laws w.committed w.committed w.draws
                (platform.sha256_hexdigest d.refresh_token) m u r.found r.owned r.active,
            revoke_owned-foreign platform engine w.committed w.committed (w.draws + 1)
                (session_of m u) (user_from_model user) foreign,
          ))
          refl

    abbrev ended_at : DateTime
    ended_at = at_utc (platform.now (w.draws + 1))

    abbrev after : Db
    after = (engine.write_session (revoked ended_at m) w.committed).1

    module _ (own : u.id ≡ user.id) where
      -- On a healthy relational database, an active user ends an own active session: of all rows, the
      -- session's one alone changes, to the time of the revocation, and this is committed.
      pub revoke_token-revokes :
          (revoke_token platform engine d user.id w ≡ (ok tt, at_rest after (w.draws + 1 + 1)))
          × (engine.users after ≡ engine.users w.committed)
          × (engine.refresh_sessions after
              ≡ revoked_rows ended_at m (engine.refresh_sessions w.committed))
      unfolding revoke_token revoke_token_body refresh_session_from_model user_from_model
      revoke_token-revokes =
          let (written, users, sessions, _) =
            revoke_lem engine laws w.committed (platform.sha256_hexdigest d.refresh_token) m
              ended_at r.consistent r.found in
          (
            with_uow-returns engine (revoke_token_body platform engine d user.id) w tt
                (in_transaction w.committed after (w.draws + 1 + 1)) after healthy out
                (rw (
                  get_active_by_id_lem engine laws w.committed user.id r.consistent,
                  r.authenticated,
                  get_active_refresh_session-active platform engine laws w.committed w.committed
                      w.draws (platform.sha256_hexdigest d.refresh_token) m u r.found r.owned
                      r.active,
                  revoke_owned-own platform engine w.committed w.committed after (w.draws + 1)
                      (session_of m u) (user_from_model user) own written,
                ))
                refl,
            users,
            sessions,
          )

      -- On a healthy relational database, once its owner has revoked it, an active session gives no
      -- more tokens: a refresh is refused as expired, at whatever time, and changes nothing.
      pub refresh_token-revoked :
          (jwt : Jwt) (sessions : RefreshSessionServiceSettings) (tokens : JwtServiceSettings)
          (draws : ℕ)
          → refresh_token platform engine jwt sessions tokens d
              (record (revoke_token platform engine d user.id w).1 { draws = draws })
            ≡ (
              raise (error expired_refresh_token_error),
              record (revoke_token platform engine d user.id w).1 { draws = draws + 1 },
            )
      unfolding is_active_at refresh_session_from_model optional_aware_datetime
      refresh_token-revoked jwt sessions tokens draws =
          let (_, users, _, still) =
            revoke_lem engine laws w.committed (platform.sha256_hexdigest d.refresh_token) m
              ended_at r.consistent r.found in
          rw revoke_token-revokes.0 (
            refresh_token-not_active platform engine jwt sessions tokens laws healthy
              (at_rest after draws) refl d (revoked ended_at m) u still (rw users r.owned) refl)
