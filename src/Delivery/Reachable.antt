-- ===== src/Delivery/Reachable.antt =====
-- What the API can make of the database: requests to its endpoints, one after another.
use fastdjango.Base.{List}
use fastdjango.Model.{UserModel}
use fastdjango.Base.{◌≡◌, [], refl, Option, none, some, Text, arith}
use fastdjango.Base.Int.{ℤ}
use fastdjango.Errors.{Exception}
use fastdjango.Outcome.{Exec}
use fastdjango.Outcome.Preserves.{
  Preserves, Preserves-bind, Preserves-pure, Preserves-throw, Preserves-lift, Preserves-catch,
}
use fastdjango.Model.{User, RegisterUserDto, IssueTokenDto, RefreshTokenDto}
use fastdjango.Platform.{Platform}
use fastdjango.Dtos.{register_user_dto}
use fastdjango.Engine.{Engine, IsRelational}
use fastdjango.Engine.Queries.{IsConsistent}
use fastdjango.Engine.Guarded.{IsGuarded, IsGrown}
use fastdjango.UnitOfWork.{World}
use fastdjango.UnitOfWork.Preservation.{IsSound}
use fastdjango.Jwt.{Jwt, JwtServiceSettings}
use fastdjango.PasswordService.{PasswordServiceSettings}
use fastdjango.RefreshSessionService.{RefreshSessionServiceSettings}
use fastdjango.UseCases.Preservation.{
  get_active_user_by_id-Preserves, staff_user_lookup-Preserves, register_user-Preserves,
  revoke_token-Preserves, issue_token-Preserves, refresh_token-Preserves,
}
use fastdjango.Delivery.Requests.{
  Request, RequestInfoServiceSettings, get_user_agent, get_user_ip_trace,
}
use fastdjango.Delivery.Controllers.{
  with_handler, issue_token_endpoint, refresh_token_endpoint, revoke_token_endpoint,
  create_user_endpoint, found_or, get_current_user_endpoint, staff_user_lookup_endpoint,
  user_schema,
}

module _ {Db : Type 0} (platform : Platform) (engine : Engine Db) (jwt : Jwt)
    (passwords : PasswordServiceSettings) (sessions : RefreshSessionServiceSettings)
    (tokens : JwtServiceSettings) where
  -- One request to an endpoint that has passed the guards before it, with any body and any user of
  -- the request's state, whether it is answered or refused.
  pub data Serves (w : World Db) : World Db → Type 0 where
    issued :
        (ip_address : Text → Option Text) (info : RequestInfoServiceSettings) (request : Request)
        (body : IssueTokenDto)
        → Serves w
            (issue_token_endpoint platform engine jwt sessions tokens ip_address info request body
              w).1
    refreshed :
        (body : RefreshTokenDto)
        → Serves w (refresh_token_endpoint platform engine jwt sessions tokens body w).1
    revoked :
        (user_id : ℤ) (body : RefreshTokenDto)
        → Serves w (revoke_token_endpoint platform engine user_id body w).1
    created :
        (body : RegisterUserDto)
        → Serves w (create_user_endpoint platform engine passwords body w).1
    read_self : (user_id : ℤ) → Serves w (get_current_user_endpoint engine user_id w).1
    looked_up :
        (actor_user_id user_id : ℤ)
        → Serves w (staff_user_lookup_endpoint engine actor_user_id user_id w).1

  -- Any number of requests.
  pub data Reaches (w : World Db) : World Db → Type 0 where
    start : Reaches w w
    then_serves : {v u : World Db} → Reaches w v → Serves v u → Reaches w u

module _ {Db : Type 0} (engine : Engine Db) (old : List UserModel) where
  with_handler-Preserves :
      {A : Type 0} (h : Exception → Exception) (m : Exec (World Db) A)
      → Preserves (IsSound engine old) m
      → Preserves (IsSound engine old) (with_handler h m)
  with_handler-Preserves h m k = Preserves-catch m _ k (λ e. Preserves-throw (h e))

  found_or-Preserves :
      (e : Exception) (found : Option User)
      → Preserves (IsSound engine old) (found_or engine e found)
  found_or-Preserves e none = Preserves-throw e
  found_or-Preserves e (some user) = Preserves-pure _

module _ {Db : Type 0} (platform : Platform) (engine : Engine Db) (old : List UserModel)
    (laws : IsRelational engine) (jwt : Jwt) (passwords : PasswordServiceSettings)
    (sessions : RefreshSessionServiceSettings) (tokens : JwtServiceSettings) where
  create_user-Preserves :
      (body : RegisterUserDto)
      → Preserves (IsSound engine old) (create_user_endpoint platform engine passwords body)
  unfolding create_user_endpoint
  create_user-Preserves body = with_handler-Preserves engine old _ _ (
      Preserves-bind _ _ (Preserves-lift (register_user_dto platform body)) (λ registration.
        Preserves-bind _ _ (register_user-Preserves platform engine old laws passwords registration)
          (λ user. Preserves-pure (user_schema user))))

  read_self-Preserves :
      (user_id : ℤ) → Preserves (IsSound engine old) (get_current_user_endpoint engine user_id)
  unfolding get_current_user_endpoint
  read_self-Preserves user_id =
      Preserves-bind _ _ (get_active_user_by_id-Preserves engine old user_id)
        (found_or-Preserves engine old _)

  looked_up-Preserves :
      (actor_user_id user_id : ℤ)
      → Preserves (IsSound engine old) (staff_user_lookup_endpoint engine actor_user_id user_id)
  unfolding staff_user_lookup_endpoint
  looked_up-Preserves actor_user_id user_id = with_handler-Preserves engine old _ _ (
      Preserves-bind _ _ (staff_user_lookup-Preserves engine old user_id actor_user_id)
        (found_or-Preserves engine old _))

  issue_token-endpoint-Preserves :
      (ip_address : Text → Option Text) (info : RequestInfoServiceSettings) (request : Request)
      (body : IssueTokenDto)
      → Preserves
          (IsSound engine old)
          (issue_token_endpoint platform engine jwt sessions tokens ip_address info request body)
  unfolding issue_token_endpoint
  issue_token-endpoint-Preserves ip_address info request body =
      with_handler-Preserves engine old _ _ (
        issue_token-Preserves platform engine old laws jwt sessions tokens body (record {
          user_agent = get_user_agent ip_address info request;
          ip_address_trace = get_user_ip_trace ip_address info request;
        }))

  refresh_token-endpoint-Preserves :
      (body : RefreshTokenDto)
      → Preserves
          (IsSound engine old)
          (refresh_token_endpoint platform engine jwt sessions tokens body)
  unfolding refresh_token_endpoint
  refresh_token-endpoint-Preserves body =
      with_handler-Preserves engine old _ _
        (refresh_token-Preserves platform engine old laws jwt sessions tokens body)

  revoke_token-endpoint-Preserves :
      (user_id : ℤ) (body : RefreshTokenDto)
      → Preserves (IsSound engine old) (revoke_token_endpoint platform engine user_id body)
  unfolding revoke_token_endpoint
  revoke_token-endpoint-Preserves user_id body =
      with_handler-Preserves engine old _ _
        (revoke_token-Preserves platform engine old laws body user_id)

  serves_keeps :
      (w u : World Db)
      → Serves platform engine jwt passwords sessions tokens w u
      → IsSound engine old w
      → IsSound engine old u
  serves_keeps w _ (issued ip_address info request body) =
      (issue_token-endpoint-Preserves ip_address info request body).holds_after w
  serves_keeps w _ (refreshed body) = (refresh_token-endpoint-Preserves body).holds_after w
  serves_keeps w _ (revoked user_id body) =
      (revoke_token-endpoint-Preserves user_id body).holds_after w
  serves_keeps w _ (created body) = (create_user-Preserves body).holds_after w
  serves_keeps w _ (read_self user_id) = (read_self-Preserves user_id).holds_after w
  serves_keeps w _ (looked_up actor_user_id user_id) =
      (looked_up-Preserves actor_user_id user_id).holds_after w

  Reaches-IsSound :
      (w u : World Db)
      → Reaches platform engine jwt passwords sessions tokens w u
      → IsSound engine old w
      → IsSound engine old u
  Reaches-IsSound w _ start h = h
  Reaches-IsSound w u (then_serves {v} r s) h = serves_keeps v u s (Reaches-IsSound w v r h)

module _ {Db : Type 0} (platform : Platform) (engine : Engine Db) (laws : IsRelational engine)
    (jwt : Jwt) (passwords : PasswordServiceSettings) (sessions : RefreshSessionServiceSettings)
    (tokens : JwtServiceSettings) where
  -- On a relational database, whatever requests reach the endpoints one after another, with any bodies,
  -- and however each of them ends, if the tables were consistent: no user's row has changed or gone; the
  -- rows that were added in front of them are neither staff nor superuser, so that nobody has gained
  -- privileges; and the tables are consistent. The first request starts outside a scope.
  pub Reaches-IsGuarded :
      (w u : World Db)
      → w.scope ≡ none
      → IsConsistent engine w.committed
      → Reaches platform engine jwt passwords sessions tokens w u
      → IsGrown (engine.users w.committed) (engine.users u.committed)
        × IsConsistent engine u.committed
  Reaches-IsGuarded w u out c r =
      let start_guarded : IsGuarded engine (engine.users w.committed) w.committed = record {
        consistent = c;
        grown = ([], refl, tt);
      } in
      let sound =
        Reaches-IsSound platform engine (engine.users w.committed) laws jwt passwords sessions
          tokens w u r
          (record { committed_guarded = start_guarded; scope_guarded = λ db e. ground arith }) in
      (sound.committed_guarded.grown, sound.committed_guarded.consistent)
