-- ===== src/Accounts.antt =====
-- The remaining services of src/fastapi_template/core/user/services: `UserIdentityService`,
-- `UserPermissionService` and `UserCredentialService`.
use fastdjango.Base.{
  Bool, true, false, not, ◌&&◌, Option, none, some, Text, ◌++◌, ◌∷◌, strip, partition,
  if◌then◌else◌,
}
use fastdjango.Errors.{error, user_permission_denied_error}
use fastdjango.Outcome.{Outcome, ok, raise, Exec, pure, lift, ◌>>=◌}
use fastdjango.Model.{User, RegisterUserDto}
use fastdjango.Platform.{Platform}
use fastdjango.Dtos.{register_user_dto}
use fastdjango.Engine.{Engine}
use fastdjango.UserRepository
use fastdjango.UnitOfWork.{World, on_scope}

module _ (platform : Platform) where
  unfoldable pub normalize_username : Text → Text
  unfolding strip
  normalize_username username = platform.nfkc (strip username)

  unfoldable pub normalize_email : Text → Text
  unfolding strip partition
  normalize_email email =
      let parts = partition b'@' (strip email) in
      if parts.found then parts.before ++ b'@' ∷ platform.casefold parts.after else strip email

  unfoldable pub normalize_register_user_data : RegisterUserDto → Outcome RegisterUserDto
  unfolding normalize_username normalize_email register_user_dto
  normalize_register_user_data d = register_user_dto platform (record {
    username = normalize_username d.username;
    email = normalize_email d.email;
    first_name = d.first_name;
    last_name = d.last_name;
    password = d.password;
  })

-- `UserPermissionService.check_access`
unfoldable pub check_access : User → Bool → Bool → Outcome (Unit {0})
check_access user require_staff require_superuser =
    if require_staff && not user.is_staff
    then raise (error user_permission_denied_error)
    else if require_superuser && not user.is_superuser
    then raise (error user_permission_denied_error)
    else ok tt

module _ {Db : Type 0} (platform : Platform) (engine : Engine Db) where
  abbrev if_valid : User → Bool → Option User
  if_valid user true = some user
  if_valid user false = none

  -- the checks of `authenticate_user` on the user that was found
  unfoldable pub verified : Text → Option User → Exec (World Db) (Option User)
  verified password none = pure none
  verified password (some user) = elim user.is_active [
    | false ↦ pure none
    | true ↦ do
      is_valid_password ← lift (platform.verify_password password user.password_hash)
      pure (if_valid user is_valid_password)
  ]

  unfoldable pub authenticate_user : Text → Text → Exec (World Db) (Option User)
  unfolding normalize_username on_scope verified UserRepository.get_by_username
  authenticate_user username password = do
    user ← on_scope (UserRepository.get_by_username engine (normalize_username platform username))
    verified password user
