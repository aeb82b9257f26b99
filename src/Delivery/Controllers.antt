-- ===== src/Delivery/Controllers.antt =====
-- `BaseAsyncController` of src/fastapi_template/foundation/delivery/controller.py, and the endpoints with
-- their `handle_exception` in src/fastapi_template/core/*/delivery/fastapi/controllers.
use fastdjango.Base.{Bool, [], ℕ, Option, none, some, Text, codes, if◌then◌else◌}
use fastdjango.Base.Int.{ℤ}
use fastdjango.Errors.{
  Exception, error, http, isinstance, exception, health_check_error, invalid_credentials_error,
  invalid_refresh_token_error, expired_refresh_token_error, refresh_token_error,
  authenticated_user_not_found_error, weak_password_error, user_already_exists_error,
  user_permission_denied_error,
}
use fastdjango.Outcome.{Exec, pure, throw, lift, catch, ◌>>=◌, ◌>>◌}
use fastdjango.Model.{User, RegisterUserDto, IssueTokenDto, TokenDto, RefreshTokenDto}
use fastdjango.Platform.{Platform}
use fastdjango.Dtos.{register_user_dto}
use fastdjango.Engine.{Engine}
use fastdjango.UnitOfWork.{World}
use fastdjango.RefreshSessionService.{RefreshSessionServiceSettings}
use fastdjango.PasswordService.{PasswordServiceSettings}
use fastdjango.Jwt.{Jwt, JwtServiceSettings}
use fastdjango.UseCases.Tokens.{issue_token, refresh_token, revoke_token}
use fastdjango.UseCases.Accounts.{register_user, get_active_user_by_id, staff_user_lookup}
use fastdjango.Delivery.Requests.{
  Request, RequestInfoServiceSettings, get_user_agent, get_user_ip_trace,
}
use fastdjango.Delivery.Bearer.{bearer_authentication_error}

-- HTTPException(status_code=…, detail=…)
abbrev pub http_exception_of : ℕ → Text → Exception
http_exception_of status_code detail =
    http (record { status_code = status_code; detail = detail; headers = [] })

-- `_add_exception_handler`: what the endpoint raises is what `handle_exception` raises for it.
abbrev pub with_handler : {S A : Type 0} → (Exception → Exception) → Exec S A → Exec S A
with_handler handle_exception endpoint = catch endpoint (λ e. throw (handle_exception e))

-- `handle_exception` of `IssueTokenController`
unfoldable pub issue_token_handler : Exception → Exception
unfolding isinstance
issue_token_handler e =
    if isinstance e invalid_credentials_error
    then http_exception_of 401 (codes "Invalid username or password")
    else e

-- of `RefreshTokenController`
unfoldable pub refresh_token_handler : Exception → Exception
unfolding isinstance
refresh_token_handler e =
    if isinstance e invalid_refresh_token_error
    then http_exception_of 401 (codes "Invalid refresh token")
    else if isinstance e expired_refresh_token_error
    then http_exception_of 401 (codes "Refresh token expired or revoked")
    else if isinstance e refresh_token_error
    then http_exception_of 401 (codes "Refresh token error")
    else e

-- of `RevokeTokenController`
unfoldable pub revoke_token_handler : Exception → Exception
unfolding isinstance bearer_authentication_error
revoke_token_handler e =
    if isinstance e invalid_refresh_token_error
    then http_exception_of 401 (codes "Invalid refresh token")
    else if isinstance e expired_refresh_token_error
    then http_exception_of 401 (codes "Refresh token expired or revoked")
    else if isinstance e refresh_token_error
    then http_exception_of 401 (codes "Refresh token error")
    else if isinstance e authenticated_user_not_found_error
    then bearer_authentication_error (codes "User not found")
    else e

-- of `CreateUserController`
unfoldable pub create_user_handler : Exception → Exception
unfolding isinstance
create_user_handler e =
    if isinstance e weak_password_error
    then http_exception_of 400 (codes "Password does not meet the strength requirements")
    else if isinstance e user_already_exists_error
    then http_exception_of 409 (codes "A user with the given username or email already exists")
    else e

-- of `StaffUserLookupController`
unfoldable pub staff_user_lookup_handler : Exception → Exception
unfolding isinstance bearer_authentication_error
staff_user_lookup_handler e =
    if isinstance e authenticated_user_not_found_error
    then bearer_authentication_error (codes "User not found")
    else if isinstance e user_permission_denied_error
    then http_exception_of 403 (codes "Permission denied")
    else e

-- The public fields of a user.
pub record UserSchema : Type 0 where
  pub id : ℤ
  pub username : Text
  pub email : Text
  pub first_name : Text
  pub last_name : Text
  pub is_staff : Bool
  pub is_superuser : Bool

abbrev pub user_schema : User → UserSchema
user_schema user = record {
  id = user.id;
  username = user.username;
  email = user.email;
  first_name = user.first_name;
  last_name = user.last_name;
  is_staff = user.is_staff;
  is_superuser = user.is_superuser;
}

module _ {Db : Type 0} (platform : Platform) (engine : Engine Db) where
  module _ (jwt : Jwt) (sessions : RefreshSessionServiceSettings)
      (tokens : JwtServiceSettings) where
    -- POST /api/v1/auth/token
    unfoldable pub issue_token_endpoint :
        (Text → Option Text)
        → RequestInfoServiceSettings
        → Request
        → IssueTokenDto
        → Exec (World Db) TokenDto
    unfolding issue_token issue_token_handler get_user_agent get_user_ip_trace
    issue_token_endpoint ip_address info request body = with_handler issue_token_handler (
        issue_token platform engine jwt sessions tokens body (record {
          user_agent = get_user_agent ip_address info request;
          ip_address_trace = get_user_ip_trace ip_address info request;
        }))

    -- POST /api/v1/auth/token/refresh
    unfoldable pub refresh_token_endpoint : RefreshTokenDto → Exec (World Db) TokenDto
    unfolding refresh_token refresh_token_handler
    refresh_token_endpoint body =
        with_handler refresh_token_handler (refresh_token platform engine jwt sessions tokens body)

  -- POST /api/v1/auth/token/revoke, for the user of the request's state
  unfoldable pub revoke_token_endpoint : ℤ → RefreshTokenDto → Exec (World Db) (Unit {0})
  unfolding revoke_token revoke_token_handler
  revoke_token_endpoint user_id body =
      with_handler revoke_token_handler (revoke_token platform engine body user_id)

  -- POST /api/v1/users: the request's body has been validated by the same rules as the DTO.
  unfoldable pub create_user_endpoint :
      PasswordServiceSettings → RegisterUserDto → Exec (World Db) UserSchema
  unfolding register_user register_user_dto create_user_handler
  create_user_endpoint passwords body = with_handler create_user_handler (do
    registration ← lift (register_user_dto platform body)
    user ← register_user platform engine passwords registration
    pure (user_schema user))

module _ {Db : Type 0} (engine : Engine Db) where
  abbrev pub found_or : Exception → Option User → Exec (World Db) UserSchema
  found_or e none = throw e
  found_or e (some user) = pure (user_schema user)

  -- GET /api/v1/users/me
  unfoldable pub get_current_user_endpoint : ℤ → Exec (World Db) UserSchema
  unfolding get_active_user_by_id bearer_authentication_error
  get_current_user_endpoint user_id = do
    user ← get_active_user_by_id engine user_id
    found_or (bearer_authentication_error (codes "User not found")) user

  -- GET /api/v1/users/{user_id}
  unfoldable pub staff_user_lookup_endpoint : ℤ → ℤ → Exec (World Db) UserSchema
  unfolding staff_user_lookup staff_user_lookup_handler
  staff_user_lookup_endpoint actor_user_id user_id = with_handler staff_user_lookup_handler (do
    user ← staff_user_lookup engine user_id actor_user_id
    found_or (http_exception_of 404 (codes "User not found")) user)

module _ {S : Type 0} (check_database : Exec S (Unit {0})) where
  -- `SystemHealthUseCase.execute`
  unfoldable pub system_health : Exec S (Unit {0})
  unfolding isinstance
  system_health =
      catch check_database
        λ e. if isinstance e exception then throw (error health_check_error) else throw e

  -- GET /api/v1/health
  unfoldable pub health_check_endpoint : Exec S Text
  unfolding system_health isinstance
  health_check_endpoint =
      catch (do system_health; pure (codes "ok"))
        λ e.
          if isinstance e health_check_error
          then throw (http_exception_of 503 (codes "Service is unavailable"))
          else throw e
