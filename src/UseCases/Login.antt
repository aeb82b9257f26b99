-- ===== src/UseCases/Login.antt =====
-- Logging in: `UserCredentialService.authenticate_user` and `IssueTokenUseCase.execute`.
use fastdjango.Base.{
  ◌+◌, ◌≡◌, refl, true, false, some, none, Text, ◌∷◌, [], ◌==◌, text_eq, int_eq, nat_eq, keep, List,
  ℕ,
}
use fastdjango.Errors.{error, invalid_credentials_error}
use fastdjango.Outcome.{ok, raise}
use fastdjango.Model.{
  UserModel, RefreshSessionModel, IssueTokenDto, TokenRequestContextDto, add_timedelta, DateTime,
}
use fastdjango.Platform.{Platform}
use fastdjango.Engine.{Engine, IsRelational, admits_session}
use fastdjango.Engine.Queries.{IsConsistent}
use fastdjango.UserRepository.{user_from_model}
use fastdjango.UserRepository.Lookup.{get_by_username_lem}
use fastdjango.UnitOfWork.{World, in_transaction}
use fastdjango.UnitOfWork.Scope.{IsHealthy, entered, with_uow-returns, with_uow-raises}
use fastdjango.Clock.{at_utc}
use fastdjango.RefreshSessionService.{
  RefreshSessionServiceSettings, refresh_token_ttl, trace_or_empty,
}
use fastdjango.Accounts.{normalize_username, authenticate_user}
use fastdjango.Jwt.{Jwt, JwtServiceSettings}
use fastdjango.Jwt.Issue.{Issues, issue_access_token-Issues}
use fastdjango.UseCases.Tokens.{issue_token, issue_token_body}
use fastdjango.UseCases.Refresh.{at_rest}

-- The rows with this user name.
abbrev pub named : Platform → Text → List UserModel → List UserModel
named platform username rows = keep (λ m. m.username == normalize_username platform username) rows

-- Why a pair of user name and password is refused: no such user, an inactive one, a wrong password.
pub data IsRefused (platform : Platform) (rows : List UserModel) (d : IssueTokenDto) : Type 0 where
  unknown : named platform d.username rows ≡ [] → IsRefused platform rows d
  inactive :
      (u : UserModel)
      → named platform d.username rows ≡ u ∷ []
      → u.is_active ≡ false
      → IsRefused platform rows d
  wrong :
      (u : UserModel)
      → named platform d.username rows ≡ u ∷ []
      → u.is_active ≡ true
      → platform.verify_password d.password u.password_hash ≡ ok false
      → IsRefused platform rows d

module _ {Db : Type 0} (platform : Platform) (engine : Engine Db) (laws : IsRelational engine)
    (committed db : Db) (draws : ℕ) (c : IsConsistent engine db) where
  abbrev here : World Db
  here = in_transaction committed db draws

  pub authenticate_user-IsRefused :
      (d : IssueTokenDto)
      → IsRefused platform (engine.users db) d
      → authenticate_user platform engine d.username d.password here ≡ (ok none, here)
  unfolding authenticate_user
  authenticate_user-IsRefused d (unknown e) =
      rw (get_by_username_lem engine laws db (normalize_username platform d.username) c, e)
  authenticate_user-IsRefused d (inactive u e gone) =
      rw (get_by_username_lem engine laws db (normalize_username platform d.username) c, e, gone)
  authenticate_user-IsRefused d (wrong u e live bad) =
      rw (
        get_by_username_lem engine laws db (normalize_username platform d.username) c,
        e,
        live,
        bad,
      )

  pub authenticate_user-accepted :
      (d : IssueTokenDto) (u : UserModel)
      → named platform d.username (engine.users db) ≡ u ∷ []
      → u.is_active ≡ true
      → platform.verify_password d.password u.password_hash ≡ ok true
      → authenticate_user platform engine d.username d.password here
        ≡ (ok (some (user_from_model u)), here)
  unfolding authenticate_user
  authenticate_user-accepted d u e live good =
      rw (
        get_by_username_lem engine laws db (normalize_username platform d.username) c,
        e,
        live,
        good,
      )

-- The token that a login draws, and the session that it stores.
abbrev pub first_token : Platform → RefreshSessionServiceSettings → ℕ → Text
first_token platform sessions draws = platform.token_urlsafe sessions.refresh_token_nbytes draws

abbrev pub new_session :
    Platform
    → RefreshSessionServiceSettings
    → ℕ
    → TokenRequestContextDto
    → UserModel
    → DateTime
    → RefreshSessionModel
new_session platform sessions draws context u expires_at = record {
  id = platform.uuid7 (draws + 1 + 1);
  refresh_token_hash = platform.sha256_hexdigest (first_token platform sessions draws);
  user_id = u.id;
  user_agent = context.user_agent;
  ip_address_trace = trace_or_empty context.ip_address_trace;
  created_at = at_utc (platform.now (draws + 1));
  last_used_at = none;
  expires_at = expires_at;
  revoked_at = none;
  rotation_counter = 0;
}

module _ {Db : Type 0} (platform : Platform) (engine : Engine Db) (jwt : Jwt)
    (sessions : RefreshSessionServiceSettings) (tokens : JwtServiceSettings)
    (laws : IsRelational engine) (healthy : IsHealthy engine) (w : World Db) (out : w.scope ≡ none)
    (c : IsConsistent engine w.committed) (d : IssueTokenDto)
    (context : TokenRequestContextDto) where
  -- On a healthy relational database with consistent tables, an unknown user name, an inactive user and
  -- a wrong password are refused in one and the same way: the outcome is the same exception, the
  -- clock and the random sources are not asked, and nothing is written.
  pub issue_token-IsRefused :
      IsRefused platform (engine.users w.committed) d
      → issue_token platform engine jwt sessions tokens d context w
        ≡ (raise (error invalid_credentials_error), at_rest w.committed w.draws)
  unfolding issue_token issue_token_body
  issue_token-IsRefused refused =
      with_uow-raises engine (issue_token_body platform engine jwt sessions tokens d context) w
        (error invalid_credentials_error) (entered engine w) w.committed healthy out
        (rw (
          authenticate_user-IsRefused platform engine laws w.committed w.committed w.draws c d
            refused))
        refl

  module _ (u : UserModel) (expires_at : DateTime) where
    abbrev stored : RefreshSessionModel
    stored = new_session platform sessions w.draws context u expires_at

    -- On a healthy relational database with consistent tables, the right password of an active user
    -- gives a token pair and one new session of that user, which expires after the configured time and
    -- holds the hash of the refresh token; it is committed. The session's key and hash have to be new,
    -- its end has to be a date, and the access token has to be signed.
    pub issue_token-accepted :
        (access : Text)
        → named platform d.username (engine.users w.committed) ≡ u ∷ []
        → u.is_active ≡ true
        → platform.verify_password d.password u.password_hash ≡ ok true
        → add_timedelta (at_utc (platform.now (w.draws + 1))) (refresh_token_ttl sessions)
          ≡ ok expires_at
        → admits_session stored (engine.users w.committed) (engine.refresh_sessions w.committed)
          ≡ true
        → Issues platform jwt tokens u.id (w.draws + 1 + 1 + 1) access
        → (db : Db) × (issue_token platform engine jwt sessions tokens d context w ≡ (
          ok (record {
            access_token = access;
            refresh_token = first_token platform sessions w.draws;
          }),
          at_rest db (w.draws + 1 + 1 + 1 + 1),
        ))
          × (engine.users db ≡ engine.users w.committed)
          × (engine.refresh_sessions db ≡ stored ∷ engine.refresh_sessions w.committed)
    unfolding issue_token issue_token_body
    issue_token-accepted access found live good ends admitted issues =
        let (inserted, users, rows) = laws.insert_session-admitted stored w.committed admitted in
        let db = (engine.insert_session stored w.committed).1 in
        (
          db,
          with_uow-returns engine (issue_token_body platform engine jwt sessions tokens d context) w
              (record {
                access_token = access;
                refresh_token = first_token platform sessions w.draws;
              })
              (in_transaction w.committed db (w.draws + 1 + 1 + 1 + 1)) db healthy out
              (rw (
                authenticate_user-accepted platform engine laws w.committed w.committed w.draws c d
                    u found live good,
                ends,
                inserted,
                issue_access_token-Issues platform jwt tokens u.id access w.committed db
                    (w.draws + 1 + 1 + 1) issues,
              ))
              refl,
          users,
          rows,
        )
