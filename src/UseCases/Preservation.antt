-- ===== src/UseCases/Preservation.antt =====
-- The use cases keep the invariant of the tables.
use fastdjango.Base.{List}
use fastdjango.Model.{UserModel}
use fastdjango.Base.{
  ◌≡◌, Bool-cases, Option-cases, inl, inr, arith, true, false, [], Option, none, some, Text,
}
use fastdjango.Base.Int.{ℤ}
use fastdjango.Errors.{Exception, isinstance, user_repository_conflict_error}
use fastdjango.Outcome.Preserves.{
  Preserves, Preserves-bind, Preserves-known, Preserves-pure, Preserves-throw, Preserves-lift,
  Preserves-elim, Preserves-if, Preserves-catch,
}
use fastdjango.Outcome.{ok}
use fastdjango.Dtos.{fits_names, persist_user_dto}
use fastdjango.Engine.Guarded.{IsPlain}
use fastdjango.UserRepository.{new_user_model}
use fastdjango.Model.{
  PersistUserDto, User, RegisterUserDto, IssueTokenDto, TokenRequestContextDto, RefreshTokenDto,
}
use fastdjango.Platform.{Platform}
use fastdjango.Engine.{Engine, IsRelational}
use fastdjango.UserRepository.Preservation.{
  create-Preserves, get_by_id-Preserves, get_active_by_id-Preserves,
  get_by_username_or_email-Preserves,
}
use fastdjango.UnitOfWork.Preservation.{IsSound, on_scope-Preserves, with_uow-Preserves}
use fastdjango.Jwt.{Jwt, JwtServiceSettings}
use fastdjango.Accounts.{check_access, normalize_register_user_data}
use fastdjango.PasswordService.{PasswordServiceSettings, validate}
use fastdjango.RefreshSessionService.{RefreshSessionServiceSettings, RefreshSessionResult}
use fastdjango.RefreshSessionService.Preservation.{
  hash_password-Preserves, issue_access_token-Preserves, authenticate_user-Preserves,
  revoke_refresh_token-Preserves, create_refresh_session-Preserves, rotate_refresh_token-Preserves,
}
use fastdjango.UseCases.Accounts.{
  get_active_user_by_id, lookup_for, staff_user_lookup_body, staff_user_lookup, persist_user_data,
  conflict_handler, create_unless, register_user_body, register_user,
}
use fastdjango.UseCases.Tokens.{
  revoke_for, revoke_token_body, revoke_token, build_token_result, issue_for, issue_token_body,
  issue_token, refresh_for, refresh_token_body, refresh_token,
}

module _ {Db : Type 0} (engine : Engine Db) (old : List UserModel) where
  pub get_active_user_by_id-Preserves :
      (user_id : ℤ) → Preserves (IsSound engine old) (get_active_user_by_id engine user_id)
  unfolding get_active_user_by_id
  get_active_user_by_id-Preserves user_id =
      with_uow-Preserves engine old _
        (on_scope-Preserves engine old _ (get_active_by_id-Preserves engine old user_id))

  lookup_for-Preserves :
      (user_id : ℤ) (actor : Option User)
      → Preserves (IsSound engine old) (lookup_for engine user_id actor)
  unfolding lookup_for
  lookup_for-Preserves user_id none = Preserves-throw _
  lookup_for-Preserves user_id (some actor) =
      Preserves-bind _ _ (Preserves-lift (check_access actor true false))
        (λ _. on_scope-Preserves engine old _ (get_by_id-Preserves engine old user_id))

  pub staff_user_lookup-Preserves :
      (user_id actor_user_id : ℤ)
      → Preserves (IsSound engine old) (staff_user_lookup engine user_id actor_user_id)
  unfolding staff_user_lookup staff_user_lookup_body
  staff_user_lookup-Preserves user_id actor_user_id = with_uow-Preserves engine old _ (
      Preserves-bind _ _
        (on_scope-Preserves engine old _ (get_active_by_id-Preserves engine old actor_user_id))
        (lookup_for-Preserves user_id))

module _ {Db : Type 0} (platform : Platform) (engine : Engine Db) (old : List UserModel)
    (laws : IsRelational engine) where
  conflict_handler-Preserves :
      (e : Exception) → Preserves (IsSound engine old) (conflict_handler platform engine e)
  unfolding conflict_handler
  conflict_handler-Preserves e =
      Preserves-if (isinstance e user_repository_conflict_error) _ _ (Preserves-throw _)
        (Preserves-throw e)

  -- What a registration persists has no privileges.
  persisted-IsPlain :
      (d : RegisterUserDto) (persisted : PersistUserDto) (password_hash : Text)
      → persist_user_data platform d ≡ ok persisted
      → IsPlain (new_user_model persisted password_hash)
  unfolding persist_user_data persist_user_dto
  persisted-IsPlain d persisted password_hash made =
      elim (Bool-cases (fits_names d.username d.first_name d.last_name)) [
        | inl fits ↦ elim (Option-cases (platform.validate_email d.email)) [
          | inl refused ↦ ground arith
          | inr (email, valid) ↦ (ground arith, ground arith)
        ]
        | inr long ↦ ground arith
      ]

  create_unless-Preserves :
      (d : RegisterUserDto) (password_hash : Text) (existing : Option User)
      → Preserves (IsSound engine old) (create_unless platform engine d password_hash existing)
  unfolding create_unless
  create_unless-Preserves d password_hash (some user) = Preserves-throw _
  create_unless-Preserves d password_hash none =
      Preserves-catch _ _
        (Preserves-known (persist_user_data platform d) _ (λ persisted made.
          on_scope-Preserves engine old _ (
            create-Preserves engine old laws platform persisted password_hash
              (persisted-IsPlain d persisted password_hash made))))
        conflict_handler-Preserves

  pub register_user-Preserves :
      (settings : PasswordServiceSettings) (d : RegisterUserDto)
      → Preserves (IsSound engine old) (register_user platform engine settings d)
  unfolding register_user register_user_body
  register_user-Preserves settings d =
      Preserves-bind _ _ (Preserves-lift (normalize_register_user_data platform d)) λ n.
        Preserves-bind _ _ (Preserves-lift (validate platform settings n)) λ _.
          Preserves-bind _ _ (hash_password-Preserves platform engine old n.password)
            λ password_hash. with_uow-Preserves engine old _ (
              Preserves-bind _ _
                (on_scope-Preserves engine old _
                  (get_by_username_or_email-Preserves engine old n.username n.email))
                (create_unless-Preserves n password_hash))

  revoke_for-Preserves :
      (token : Text) (found : Option User)
      → Preserves (IsSound engine old) (revoke_for platform engine token found)
  unfolding revoke_for
  revoke_for-Preserves token none = Preserves-throw _
  revoke_for-Preserves token (some user) =
      revoke_refresh_token-Preserves platform engine old laws token user

  pub revoke_token-Preserves :
      (d : RefreshTokenDto) (user_id : ℤ)
      → Preserves (IsSound engine old) (revoke_token platform engine d user_id)
  unfolding revoke_token revoke_token_body
  revoke_token-Preserves d user_id = with_uow-Preserves engine old _ (
      Preserves-bind _ _
        (on_scope-Preserves engine old _ (get_active_by_id-Preserves engine old user_id))
        (revoke_for-Preserves d.refresh_token))

  module _ (jwt : Jwt) (sessions : RefreshSessionServiceSettings)
      (tokens : JwtServiceSettings) where
    build_token_result-Preserves :
        (user : User) (token : Text)
        → Preserves
            (IsSound engine old)
            (build_token_result platform engine jwt sessions tokens user token)
    unfolding build_token_result
    build_token_result-Preserves user token =
        Preserves-bind _ _ (issue_access_token-Preserves platform engine old jwt tokens user.id [])
          (λ access. Preserves-pure (record { access_token = access; refresh_token = token }))

    issue_for-Preserves :
        (context : TokenRequestContextDto) (found : Option User)
        → Preserves
            (IsSound engine old)
            (issue_for platform engine jwt sessions tokens context found)
    unfolding issue_for
    issue_for-Preserves context none = Preserves-throw _
    issue_for-Preserves context (some user) =
        Preserves-bind _ _
          (create_refresh_session-Preserves platform engine old laws sessions user
            context.user_agent context.ip_address_trace)
          (λ session. build_token_result-Preserves user session.refresh_token)

    pub issue_token-Preserves :
        (d : IssueTokenDto) (context : TokenRequestContextDto)
        → Preserves (IsSound engine old) (issue_token platform engine jwt sessions tokens d context)
    unfolding issue_token issue_token_body
    issue_token-Preserves d context = with_uow-Preserves engine old _ (
        Preserves-bind _ _ (authenticate_user-Preserves platform engine old d.username d.password)
          (issue_for-Preserves context))

    refresh_for-Preserves :
        (r : RefreshSessionResult)
        → Preserves (IsSound engine old) (refresh_for platform engine jwt sessions tokens r)
    unfolding refresh_for
    refresh_for-Preserves r =
        Preserves-elim r.session.user.is_active _ _
          (build_token_result-Preserves r.session.user r.refresh_token) (Preserves-throw _)

    pub refresh_token-Preserves :
        (d : RefreshTokenDto)
        → Preserves (IsSound engine old) (refresh_token platform engine jwt sessions tokens d)
    unfolding refresh_token refresh_token_body
    refresh_token-Preserves d = with_uow-Preserves engine old _ (
        Preserves-bind _ _
          (rotate_refresh_token-Preserves platform engine old laws sessions d.refresh_token)
          refresh_for-Preserves)
