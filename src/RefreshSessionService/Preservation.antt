-- ===== src/RefreshSessionService/Preservation.antt =====
-- The clock, the random sources and the services keep the invariant of the tables.
use fastdjango.Base.{List}
use fastdjango.Model.{UserModel}
use fastdjango.Base.{ℕ, ◌+◌, Bool, true, false, Option, none, some, Text, ◌==◌, int_eq}
use fastdjango.Base.Int.{ℤ}
use fastdjango.Outcome.Preserves.{
  Preserves, Preserves-bind, Preserves-pure, Preserves-throw, Preserves-lift, Preserves-elim,
}
use fastdjango.Model.{User, RefreshSession, add_timedelta, is_active_at}
use fastdjango.Platform.{Platform}
use fastdjango.Engine.{Engine, IsRelational}
use fastdjango.SessionRepository.Preservation.{
  create-Preserves, get_by_token_hash-Preserves, replace_token_hash-Preserves, revoke-Preserves,
}
use fastdjango.UserRepository.Preservation.{get_by_username-Preserves}
use fastdjango.UnitOfWork.Preservation.{
  IsSound, draw-Preserves, on_scope-Preserves, current_scope-Preserves,
}
use fastdjango.Clock.{now_utc, token_urlsafe, uuid7}
use fastdjango.Accounts.{verified, authenticate_user}
use fastdjango.Jwt.{
  Jwt, JwtServiceSettings, Claims, access_payload, access_token_expire, issue_access_token,
}
use fastdjango.PasswordService.{hash_password}
use fastdjango.RefreshSessionService.{
  RefreshSessionServiceSettings, refresh_token_ttl, trace_or_empty, accept, require_active,
  get_active_refresh_session, result_of, revoke_owned, revoke_refresh_token, create_refresh_session,
  rotate_refresh_token,
}

module _ {Db : Type 0} (platform : Platform) (engine : Engine Db) (old : List UserModel) where
  pub now_utc-Preserves : Preserves (IsSound engine old) (now_utc platform)
  unfolding now_utc
  now_utc-Preserves = Preserves-bind _ _ (draw-Preserves engine old) (λ n. Preserves-pure _)

  pub token_urlsafe-Preserves :
      (nbytes : ℕ) → Preserves (IsSound engine old) (token_urlsafe platform nbytes)
  unfolding token_urlsafe
  token_urlsafe-Preserves nbytes =
      Preserves-bind _ _ (draw-Preserves engine old) (λ n. Preserves-pure _)

  pub uuid7-Preserves : Preserves (IsSound engine old) (uuid7 platform)
  unfolding uuid7
  uuid7-Preserves = Preserves-bind _ _ (draw-Preserves engine old) (λ n. Preserves-pure _)

  pub hash_password-Preserves :
      (password : Text) → Preserves (IsSound engine old) (hash_password platform password)
  unfolding hash_password
  hash_password-Preserves password =
      Preserves-bind _ _ (draw-Preserves engine old) (λ n. Preserves-pure _)

  pub issue_access_token-Preserves :
      (jwt : Jwt) (tokens : JwtServiceSettings) (user_id : ℤ) (claims : Claims)
      → Preserves (IsSound engine old) (issue_access_token platform jwt tokens user_id claims)
  unfolding issue_access_token
  issue_access_token-Preserves jwt tokens user_id claims =
      Preserves-bind _ _ now_utc-Preserves (λ iat.
        Preserves-bind _ _ (Preserves-lift (add_timedelta iat (access_token_expire tokens))) (λ exp.
          Preserves-lift (
            jwt.encode (access_payload tokens user_id iat exp claims) tokens.secret_key
              tokens.algorithm)))

  verified-Preserves :
      (password : Text) (found : Option User)
      → Preserves (IsSound engine old) (verified platform engine password found)
  unfolding verified
  verified-Preserves password none = Preserves-pure none
  verified-Preserves password (some user) =
      Preserves-elim user.is_active _ _
        (Preserves-bind _ _ (Preserves-lift _) (λ valid. Preserves-pure _)) (Preserves-pure none)

  pub authenticate_user-Preserves :
      (username password : Text)
      → Preserves (IsSound engine old) (authenticate_user platform engine username password)
  unfolding authenticate_user
  authenticate_user-Preserves username password =
      Preserves-bind _ _ (on_scope-Preserves engine old _ (get_by_username-Preserves engine old _))
        (verified-Preserves password)

  accept-Preserves :
      (session : RefreshSession) (active : Bool)
      → Preserves (IsSound engine old) (accept platform engine session active)
  accept-Preserves session true = Preserves-pure session
  accept-Preserves session false = Preserves-throw _

  require_active-Preserves :
      (found : Option RefreshSession)
      → Preserves (IsSound engine old) (require_active platform engine found)
  unfolding require_active
  require_active-Preserves none = Preserves-throw _
  require_active-Preserves (some session) = Preserves-bind _ _ now_utc-Preserves (λ now.
      Preserves-bind _ _ (Preserves-lift (is_active_at session now)) (accept-Preserves session))

  get_active_refresh_session-Preserves :
      (h : Text) → Preserves (IsSound engine old) (get_active_refresh_session platform engine h)
  unfolding get_active_refresh_session
  get_active_refresh_session-Preserves h =
      Preserves-bind _ _
        (on_scope-Preserves engine old _ (get_by_token_hash-Preserves engine old h))
        require_active-Preserves

module _ {Db : Type 0} (platform : Platform) (engine : Engine Db) (old : List UserModel)
    (laws : IsRelational engine) where
  revoke_owned-Preserves :
      (user : User) (session : RefreshSession)
      → Preserves (IsSound engine old) (revoke_owned platform engine user session)
  unfolding revoke_owned
  revoke_owned-Preserves user session =
      Preserves-elim (session.user.id == user.id) _ _
        (Preserves-bind _ _ (current_scope-Preserves engine old) (λ _.
          Preserves-bind _ _ (now_utc-Preserves platform engine old) (λ at.
            on_scope-Preserves engine old _ (revoke-Preserves engine old laws session.id at))))
        (Preserves-throw _)

  pub revoke_refresh_token-Preserves :
      (token : Text) (user : User)
      → Preserves (IsSound engine old) (revoke_refresh_token platform engine token user)
  unfolding revoke_refresh_token
  revoke_refresh_token-Preserves token user =
      Preserves-bind _ _ (current_scope-Preserves engine old) (λ _.
        Preserves-bind _ _ (get_active_refresh_session-Preserves platform engine old _)
          (revoke_owned-Preserves user))

  pub create_refresh_session-Preserves :
      (settings : RefreshSessionServiceSettings) (user : User) (agent : Text) (trace : Option Text)
      → Preserves
          (IsSound engine old)
          (create_refresh_session platform engine settings user agent trace)
  unfolding create_refresh_session
  create_refresh_session-Preserves settings user agent trace =
      Preserves-bind _ _ (token_urlsafe-Preserves platform engine old settings.refresh_token_nbytes)
        λ token. Preserves-bind _ _ (now_utc-Preserves platform engine old) λ created.
          Preserves-bind _ _ (current_scope-Preserves engine old) λ _.
            Preserves-bind _ _ (uuid7-Preserves platform engine old) λ id.
              Preserves-bind _ _
                (Preserves-lift (add_timedelta created (refresh_token_ttl settings)))
                λ expires.
                  Preserves-bind _ _
                    (on_scope-Preserves engine old _ (
                      create-Preserves engine old laws (record {
                        id = id;
                        user = user;
                        refresh_token_hash = platform.sha256_hexdigest token;
                        user_agent = agent;
                        ip_address_trace = trace_or_empty trace;
                        created_at = created;
                        last_used_at = none;
                        expires_at = expires;
                        revoked_at = none;
                        rotation_counter = 0;
                      })))
                    λ session. Preserves-pure (record { refresh_token = token; session = session })

  result_of-Preserves :
      (token : Text) (found : Option RefreshSession)
      → Preserves (IsSound engine old) (result_of platform engine token found)
  result_of-Preserves token none = Preserves-throw _
  result_of-Preserves token (some session) = Preserves-pure _

  pub rotate_refresh_token-Preserves :
      (settings : RefreshSessionServiceSettings) (token : Text)
      → Preserves (IsSound engine old) (rotate_refresh_token platform engine settings token)
  unfolding rotate_refresh_token
  rotate_refresh_token-Preserves settings token =
      Preserves-bind _ _ (current_scope-Preserves engine old) (λ _.
        Preserves-bind _ _ (get_active_refresh_session-Preserves platform engine old _) (λ session.
          Preserves-bind _ _
            (token_urlsafe-Preserves platform engine old settings.refresh_token_nbytes)
            (λ fresh. Preserves-bind _ _ (now_utc-Preserves platform engine old) (λ used.
              Preserves-bind _ _
                (on_scope-Preserves engine old _ (
                  replace_token_hash-Preserves engine old laws (record {
                    session_id = session.id;
                    expected_refresh_token_hash = platform.sha256_hexdigest token;
                    refresh_token_hash = platform.sha256_hexdigest fresh;
                    last_used_at = used;
                    rotation_counter = session.rotation_counter + 1;
                  })))
                (result_of-Preserves fresh)))))
