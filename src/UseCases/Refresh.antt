-- ===== src/UseCases/Refresh.antt =====
-- `RefreshTokenUseCase.execute`: rotation in one transaction, and the refusals that change nothing.
use mathlib.Core.Path.{subst}
use fastdjango.Base.{
  ◌≤◌, ◌⊎◌, ◌==◌, ◌&&◌, nat_eq, int_eq, Option, Option-cases, some, inl, inr, arith, sym, ap, ℕ,
  ◌+◌, ◌≡◌, refl, true, false, none, Text, text_eq,
}
use fastdjango.Errors.{error, invalid_refresh_token_error, expired_refresh_token_error}
use fastdjango.Outcome.{ok, raise}
use fastdjango.Model.{
  DateTime, TzInfo, utc, east, west, is_after, is_active_at, UserModel, RefreshSessionModel,
  RefreshTokenDto,
}
use fastdjango.Platform.{Platform}
use fastdjango.Engine.{Engine, IsRelational, update_where}
use fastdjango.Engine.Queries.{IsConsistent}
use fastdjango.SessionRepository.{
  is_expected, replaced, ensure_aware_datetime, optional_aware_datetime, refresh_session_from_model,
}
use fastdjango.SessionRepository.Lookup.{HasHash, HasKey}
use fastdjango.SessionRepository.Rows.{
  IsFreshHash, IsFreshHash-ne, IsFreshHash-rotated_rows_old, rotated_rows,
}
use fastdjango.SessionRepository.Rotation.{updated, updated_rows, updated-IsConsistent}
use fastdjango.UnitOfWork.{World, in_transaction}
use fastdjango.UnitOfWork.Scope.{IsHealthy, entered, with_uow-returns, with_uow-raises}
use fastdjango.Clock.{at_utc}
use fastdjango.RefreshSessionService.{RefreshSessionServiceSettings}
use fastdjango.RefreshSessionService.Rotation.{
  session_of, next_token, rotation_dto, rotate_refresh_token-unknown, rotate_refresh_token-inactive,
  rotate_refresh_token-active,
}
use fastdjango.Jwt.{Jwt, JwtServiceSettings}
use fastdjango.Jwt.Issue.{Issues, issue_access_token-Issues}
use fastdjango.UseCases.Tokens.{refresh_token, refresh_token_body}

-- A time is not after `now`, which counts in UTC; a stored time without a zone is one in UTC.
abbrev pub IsPastAt : Option TzInfo → ℕ → ℕ → Type 0
IsPastAt none wall now = wall ≤ now
IsPastAt (some utc) wall now = wall ≤ now
IsPastAt (some (east n)) wall now = wall ≤ now + n
IsPastAt (some (west n)) wall now = wall + n ≤ now

-- The session in this row has been revoked, or has expired.
abbrev pub IsOver : RefreshSessionModel → ℕ → Type 0
IsOver m now =
    ((t : DateTime) × (m.revoked_at ≡ some t)) ⊎ IsPastAt m.expires_at.tzinfo m.expires_at.wall now

past_lem :
    (t : DateTime) (now : ℕ) (tz : Option TzInfo)
    → t.tzinfo ≡ tz
    → IsPastAt tz t.wall now
    → is_after (ensure_aware_datetime t) (at_utc now) ≡ ok false
unfolding is_after ensure_aware_datetime
past_lem t now none e h = ground arith
past_lem t now (some utc) e h = ground arith
past_lem t now (some (east n)) e h = ground arith
past_lem t now (some (west n)) e h = ground arith

IsOver_lem :
    (m : RefreshSessionModel) (u : UserModel) (now : ℕ)
    → IsOver m now
    → is_active_at (session_of m u) (at_utc now) ≡ ok false
unfolding is_active_at refresh_session_from_model optional_aware_datetime
IsOver_lem m u now (inl (t, revoked)) = rw revoked
IsOver_lem m u now (inr past) = elim (Option-cases m.revoked_at) [
  | inl never ↦ rw never (past_lem m.expires_at now m.expires_at.tzinfo refl past)
  | inr (t, revoked) ↦ rw revoked
]

-- The token in `d` belongs to the session in row `m`, of the user in row `u`; that session is active at
-- this call of the clock, the tables are consistent, and the token that the rotation will draw is new.
pub record CanRotate {Db : Type 0} (platform : Platform) (engine : Engine Db)
    (sessions : RefreshSessionServiceSettings) (w : World Db) (d : RefreshTokenDto)
    (m : RefreshSessionModel) (u : UserModel) : Type 0 where
  pub found :
      HasHash (platform.sha256_hexdigest d.refresh_token) m (engine.refresh_sessions w.committed)
  pub owned : HasKey m.user_id u (engine.users w.committed)
  pub active : is_active_at (session_of m u) (at_utc (platform.now w.draws)) ≡ ok true
  pub consistent : IsConsistent engine w.committed
  pub fresh :
      IsFreshHash
        (platform.sha256_hexdigest (next_token platform sessions w.draws))
        (engine.refresh_sessions w.committed)

-- The database after the rotation of the session in row `m`.
abbrev pub rotated_db :
    {Db : Type 0}
    → Platform
    → Engine Db
    → RefreshSessionServiceSettings
    → World Db
    → RefreshTokenDto
    → RefreshSessionModel
    → Db
rotated_db platform engine sessions w d m =
    updated engine w.committed (rotation_dto platform sessions w.draws d.refresh_token m)

-- The world outside a scope: what is committed, and the calls so far.
abbrev pub at_rest : {Db : Type 0} → Db → ℕ → World Db
at_rest db draws = record { committed = db; scope = none; draws = draws }

module _ {Db : Type 0} (platform : Platform) (engine : Engine Db) (jwt : Jwt)
    (sessions : RefreshSessionServiceSettings) (tokens : JwtServiceSettings)
    (laws : IsRelational engine) (healthy : IsHealthy engine) (w : World Db) (out : w.scope ≡ none)
    (d : RefreshTokenDto) where
  abbrev old_hash : Text
  old_hash = platform.sha256_hexdigest d.refresh_token

  -- On a healthy relational database, a token that no session holds is refused as invalid, and
  -- nothing is written.
  pub refresh_token-unknown :
      IsFreshHash old_hash (engine.refresh_sessions w.committed)
      → refresh_token platform engine jwt sessions tokens d w
        ≡ (raise (error invalid_refresh_token_error), record w { scope = none })
  unfolding refresh_token refresh_token_body
  refresh_token-unknown f =
      with_uow-raises engine (refresh_token_body platform engine jwt sessions tokens d) w
        (error invalid_refresh_token_error) (entered engine w) w.committed healthy out
        (rw (
          rotate_refresh_token-unknown platform engine laws w.committed w.committed w.draws sessions
            d.refresh_token f))
        refl

  module _ (m : RefreshSessionModel) (u : UserModel)
      (found : HasHash old_hash m (engine.refresh_sessions w.committed))
      (owned : HasKey m.user_id u (engine.users w.committed)) where
    pub refresh_token-not_active :
        is_active_at (session_of m u) (at_utc (platform.now w.draws)) ≡ ok false
        → refresh_token platform engine jwt sessions tokens d w ≡ (
          raise (error expired_refresh_token_error),
          record w { scope = none; draws = w.draws + 1 },
        )
    unfolding refresh_token refresh_token_body
    refresh_token-not_active inactive =
        with_uow-raises engine (refresh_token_body platform engine jwt sessions tokens d) w
          (error expired_refresh_token_error) (in_transaction w.committed w.committed (w.draws + 1))
          w.committed healthy out
          (rw (
            rotate_refresh_token-inactive platform engine laws w.committed w.committed w.draws
              sessions d.refresh_token m u found owned inactive))
          refl

    -- On a healthy relational database, a token whose session has a time of revocation, or whose time of
    -- expiry is not after this reading of the clock, is refused as expired, and nothing is written.
    pub refresh_token-inactive :
        IsOver m (platform.now w.draws)
        → refresh_token platform engine jwt sessions tokens d w ≡ (
          raise (error expired_refresh_token_error),
          record w { scope = none; draws = w.draws + 1 },
        )
    refresh_token-inactive over =
        refresh_token-not_active (IsOver_lem m u (platform.now w.draws) over)

  module _ (m : RefreshSessionModel) (u : UserModel)
      (r : CanRotate platform engine sessions w d m u) where
    -- what is committed once the token has been used
    abbrev stored : Db
    stored = (refresh_token platform engine jwt sessions tokens d w).1.committed

    abbrev after : Db
    after = rotated_db platform engine sessions w d m

    -- On a healthy relational database, if the token's session can be rotated, its user is active and
    -- the access token can be signed, then the rotation is committed and the new pair comes back.
    pub refresh_token-rotates :
        (access : Text)
        → u.is_active ≡ true
        → Issues platform jwt tokens u.id (w.draws + 1 + 1 + 1) access
        → refresh_token platform engine jwt sessions tokens d w ≡ (
          ok (record {
            access_token = access;
            refresh_token = next_token platform sessions w.draws;
          }),
          at_rest after (w.draws + 1 + 1 + 1 + 1),
        )
    unfolding refresh_token refresh_token_body
    refresh_token-rotates access live issues =
        with_uow-returns engine (refresh_token_body platform engine jwt sessions tokens d) w
          (record { access_token = access; refresh_token = next_token platform sessions w.draws })
          (in_transaction w.committed after (w.draws + 1 + 1 + 1 + 1)) after healthy out
          (rw (
            rotate_refresh_token-active platform engine laws w.committed w.committed w.draws
                sessions d.refresh_token m u r.found r.owned r.active r.consistent r.fresh,
            live,
            issue_access_token-Issues platform jwt tokens u.id access w.committed after
                (w.draws + 1 + 1 + 1) issues,
          ))
          refl

    -- What a possible rotation stores: the same users; the rows of the sessions, of which the
    -- session's one has the new hash, the time of use and the next counter; consistent tables; and no
    -- row with the old hash.
    pub rotated_db_lem :
        (engine.users after ≡ engine.users w.committed)
        × (engine.refresh_sessions after
            ≡ rotated_rows
                (rotation_dto platform sessions w.draws d.refresh_token m)
                (engine.refresh_sessions w.committed))
        × IsConsistent engine after
        × IsFreshHash old_hash (engine.refresh_sessions after)
    rotated_db_lem =
        let dto = rotation_dto platform sessions w.draws d.refresh_token m in
        let rows = updated_rows engine laws w.committed dto r.consistent r.fresh in
        (
          rows.0,
          rows.1,
          updated-IsConsistent engine laws w.committed dto r.consistent r.fresh,
          rw rows.1 (
              IsFreshHash-rotated_rows_old dto m (engine.refresh_sessions w.committed) refl
                (IsFreshHash-ne dto.refresh_token_hash old_hash m
                  (engine.refresh_sessions w.committed) r.fresh r.found)
                r.found),
        )

    -- On a healthy relational database, if the token's session can be rotated, its user is active and
    -- the access token can be signed: the users that are committed are the same; of the sessions, the
    -- row with the session's key and the old hash has the hash of the new token, the time of this use
    -- and the next counter, and is the same in all else, as are the other rows; the tables are
    -- consistent; and no row has the old hash.
    pub refresh_token-stores :
        (access : Text)
        → u.is_active ≡ true
        → Issues platform jwt tokens u.id (w.draws + 1 + 1 + 1) access
        → (engine.users stored ≡ engine.users w.committed)
          × (engine.refresh_sessions stored
              ≡ update_where
                  (λ r. r.id == m.id && r.refresh_token_hash == old_hash)
                  (λ r. record r {
                    refresh_token_hash =
                        platform.sha256_hexdigest (next_token platform sessions w.draws);
                    last_used_at = some (at_utc (platform.now (w.draws + 1 + 1)));
                    rotation_counter = m.rotation_counter + 1;
                  })
                  (engine.refresh_sessions w.committed))
          × IsConsistent engine stored
          × IsFreshHash old_hash (engine.refresh_sessions stored)
    unfolding is_expected replaced
    refresh_token-stores access live issues =
        subst
          (λ db.
            (engine.users db ≡ engine.users w.committed)
            × (engine.refresh_sessions db
                ≡ rotated_rows (rotation_dto platform sessions w.draws d.refresh_token m)
                    (engine.refresh_sessions w.committed))
            × IsConsistent engine db
            × IsFreshHash old_hash (engine.refresh_sessions db))
          (sym (ap (λ r. r.1.committed) (refresh_token-rotates access live issues))) rotated_db_lem

    -- On a healthy relational database, if the token's session can be rotated but its user is inactive,
    -- the token is refused as invalid and the rotation is rolled back.
    pub refresh_token-inactive_user :
        u.is_active ≡ false
        → refresh_token platform engine jwt sessions tokens d w
          ≡ (raise (error invalid_refresh_token_error), at_rest w.committed (w.draws + 1 + 1 + 1))
    unfolding refresh_token refresh_token_body
    refresh_token-inactive_user gone =
        with_uow-raises engine (refresh_token_body platform engine jwt sessions tokens d) w
          (error invalid_refresh_token_error)
          (in_transaction w.committed after (w.draws + 1 + 1 + 1)) after healthy out
          (rw (
            rotate_refresh_token-active platform engine laws w.committed w.committed w.draws
                sessions d.refresh_token m u r.found r.owned r.active r.consistent r.fresh,
            gone,
          ))
          refl
