-- ===== src/UseCases/Accounts.antt =====
-- `RegisterUserUseCase`, `StaffUserLookupUseCase` and `GetActiveUserByIdUseCase` of
-- src/fastapi_template/core/user/use_cases.
use fastdjango.Base.{true, false, Option, none, some, Text, if◌then◌else◌}
use fastdjango.Base.Int.{ℤ}
use fastdjango.Errors.{
  Exception, error, isinstance, user_already_exists_error, user_repository_conflict_error,
  authenticated_user_not_found_error,
}
use fastdjango.Outcome.{Outcome, Exec, throw, lift, catch, ◌>>=◌, ◌>>◌}
use fastdjango.Model.{User, RegisterUserDto, PersistUserDto}
use fastdjango.Platform.{Platform}
use fastdjango.Dtos.{persist_user_dto}
use fastdjango.Engine.{Engine}
use fastdjango.UserRepository
use fastdjango.UnitOfWork.{World, on_scope, with_uow}
use fastdjango.Accounts.{normalize_register_user_data, check_access}
use fastdjango.PasswordService.{PasswordServiceSettings, validate, hash_password}

unfoldable pub persist_user_data : Platform → RegisterUserDto → Outcome PersistUserDto
unfolding persist_user_dto
persist_user_data platform d = persist_user_dto platform (record {
  email = d.email;
  username = d.username;
  first_name = d.first_name;
  last_name = d.last_name;
  is_active = true;
  is_staff = false;
  is_superuser = false;
})

module _ {Db : Type 0} (engine : Engine Db) where
  -- `GetActiveUserByIdUseCase.execute`
  unfoldable pub get_active_user_by_id : ℤ → Exec (World Db) (Option User)
  unfolding with_uow on_scope UserRepository.get_active_by_id
  get_active_user_by_id user_id =
      with_uow engine (on_scope (UserRepository.get_active_by_id engine user_id))

  unfoldable pub lookup_for : ℤ → Option User → Exec (World Db) (Option User)
  unfolding check_access on_scope UserRepository.get_by_id
  lookup_for user_id none = throw (error authenticated_user_not_found_error)
  lookup_for user_id (some actor) = do
    lift (check_access actor true false)
    on_scope (UserRepository.get_by_id engine user_id)

  unfoldable pub staff_user_lookup_body : ℤ → ℤ → Exec (World Db) (Option User)
  unfolding on_scope UserRepository.get_active_by_id lookup_for
  staff_user_lookup_body user_id actor_user_id = do
    actor ← on_scope (UserRepository.get_active_by_id engine actor_user_id)
    lookup_for user_id actor

  -- `StaffUserLookupUseCase.execute`
  unfoldable pub staff_user_lookup : ℤ → ℤ → Exec (World Db) (Option User)
  unfolding with_uow staff_user_lookup_body
  staff_user_lookup user_id actor_user_id =
      with_uow engine (staff_user_lookup_body user_id actor_user_id)

module _ {Db : Type 0} (platform : Platform) (engine : Engine Db) where
  -- `except UserRepositoryConflictError`
  unfoldable pub conflict_handler : Exception → Exec (World Db) User
  unfolding isinstance
  conflict_handler e =
      if isinstance e user_repository_conflict_error
      then throw (error user_already_exists_error)
      else throw e

  -- what `execute` does once it knows whether such a user exists
  unfoldable pub create_unless : RegisterUserDto → Text → Option User → Exec (World Db) User
  unfolding on_scope UserRepository.create persist_user_data conflict_handler
  create_unless d password_hash (some existing_user) = throw (error user_already_exists_error)
  create_unless d password_hash none =
      catch
        (do
          persisted ← lift (persist_user_data platform d)
          on_scope (UserRepository.create engine platform persisted password_hash))
        conflict_handler

  unfoldable pub register_user_body : RegisterUserDto → Text → Exec (World Db) User
  unfolding on_scope UserRepository.get_by_username_or_email create_unless
  register_user_body d password_hash = do
    existing_user ← on_scope (UserRepository.get_by_username_or_email engine d.username d.email)
    create_unless d password_hash existing_user

  -- `RegisterUserUseCase.execute`
  unfoldable pub register_user : PasswordServiceSettings → RegisterUserDto → Exec (World Db) User
  unfolding normalize_register_user_data validate hash_password with_uow register_user_body
  register_user settings d = do
    normalized_data ← lift (normalize_register_user_data platform d)
    lift (validate platform settings normalized_data)
    password_hash ← hash_password platform normalized_data.password
    with_uow engine (register_user_body normalized_data password_hash)
