-- ===== src/UseCases/Tokens.antt =====
-- `IssueTokenUseCase`, `RefreshTokenUseCase` and `RevokeTokenUseCase` of
-- src/fastapi_template/core/authentication/use_cases.
use fastdjango.Base.{true, false, [], Option, none, some, Text}
use fastdjango.Base.Int.{ℤ}
use fastdjango.Errors.{
  error, invalid_credentials_error, invalid_refresh_token_error, authenticated_user_not_found_error,
}
use fastdjango.Outcome.{Exec, pure, throw, ◌>>=◌}
use fastdjango.Model.{User, TokenDto, IssueTokenDto, TokenRequestContextDto, RefreshTokenDto}
use fastdjango.Platform.{Platform}
use fastdjango.Engine.{Engine}
use fastdjango.UserRepository
use fastdjango.UnitOfWork.{World, on_scope, with_uow}
use fastdjango.RefreshSessionService.{
  RefreshSessionServiceSettings, RefreshSessionResult, create_refresh_session, rotate_refresh_token,
  revoke_refresh_token,
}
use fastdjango.Accounts.{authenticate_user}
use fastdjango.Jwt.{Jwt, JwtServiceSettings, issue_access_token}

module _ {Db : Type 0} (platform : Platform) (engine : Engine Db) where
  unfoldable pub revoke_for : Text → Option User → Exec (World Db) (Unit {0})
  unfolding revoke_refresh_token
  revoke_for refresh_token none = throw (error authenticated_user_not_found_error)
  revoke_for refresh_token (some user) = revoke_refresh_token platform engine refresh_token user

  unfoldable pub revoke_token_body : RefreshTokenDto → ℤ → Exec (World Db) (Unit {0})
  unfolding on_scope UserRepository.get_active_by_id revoke_for
  revoke_token_body d user_id = do
    user ← on_scope (UserRepository.get_active_by_id engine user_id)
    revoke_for d.refresh_token user

  -- `RevokeTokenUseCase.execute`
  unfoldable pub revoke_token : RefreshTokenDto → ℤ → Exec (World Db) (Unit {0})
  unfolding with_uow revoke_token_body
  revoke_token d user_id = with_uow engine (revoke_token_body d user_id)

module _ {Db : Type 0} (platform : Platform) (engine : Engine Db) (jwt : Jwt)
    (sessions : RefreshSessionServiceSettings) (tokens : JwtServiceSettings) where
  unfoldable pub build_token_result : User → Text → Exec (World Db) TokenDto
  unfolding issue_access_token
  build_token_result user refresh_token = do
    access_token ← issue_access_token platform jwt tokens user.id []
    pure (record { access_token = access_token; refresh_token = refresh_token })

  unfoldable pub issue_for : TokenRequestContextDto → Option User → Exec (World Db) TokenDto
  unfolding create_refresh_session build_token_result
  issue_for context none = throw (error invalid_credentials_error)
  issue_for context (some user) = do
    refresh_session ←
        create_refresh_session platform engine sessions user context.user_agent
          context.ip_address_trace
    build_token_result user refresh_session.refresh_token

  unfoldable pub issue_token_body :
      IssueTokenDto → TokenRequestContextDto → Exec (World Db) TokenDto
  unfolding authenticate_user issue_for
  issue_token_body d context = do
    user ← authenticate_user platform engine d.username d.password
    issue_for context user

  -- `IssueTokenUseCase.execute`
  unfoldable pub issue_token : IssueTokenDto → TokenRequestContextDto → Exec (World Db) TokenDto
  unfolding with_uow issue_token_body
  issue_token d context = with_uow engine (issue_token_body d context)

  unfoldable pub refresh_for : RefreshSessionResult → Exec (World Db) TokenDto
  unfolding build_token_result
  refresh_for rotated_session = elim rotated_session.session.user.is_active [
    | false ↦ throw (error invalid_refresh_token_error)
    | true ↦ build_token_result rotated_session.session.user rotated_session.refresh_token
  ]

  unfoldable pub refresh_token_body : RefreshTokenDto → Exec (World Db) TokenDto
  unfolding rotate_refresh_token refresh_for
  refresh_token_body d = do
    rotated_session ← rotate_refresh_token platform engine sessions d.refresh_token
    refresh_for rotated_session

  -- `RefreshTokenUseCase.execute`
  unfoldable pub refresh_token : RefreshTokenDto → Exec (World Db) TokenDto
  unfolding with_uow refresh_token_body
  refresh_token d = with_uow engine (refresh_token_body d)
