-- ===== src/UserRepository.antt =====
-- `SQLAlchemyUserRepository` of src/fastapi_template/core/user/infrastructure/sqlalchemy, with
-- its mapper.
pub mod Lookup
pub mod Creation
pub mod Preservation
use fastdjango.Base.{
  Bool, ◌&&◌, ◌||◌, List, [], ◌∷◌, Option, none, some, Text, codes, ◌==◌, text_eq, int_eq, any,
  is_in, if◌then◌else◌, contains_text,
}
use fastdjango.Base.Int.{ℤ, pos}
use fastdjango.Errors.{
  Exception, error, integrity, Violation, user_repository_conflict_error, multiple_results_found,
  no_result_found,
}
use fastdjango.Outcome.{Outcome, ok, raise, Exec, pure, ◌>>=◌, ◌>>◌}
use fastdjango.Model.{User, UserModel, PersistUserDto}
use fastdjango.Platform.{Platform}
use fastdjango.Engine.{Engine, first}

unfoldable pub user_from_model : UserModel → User
user_from_model m = record {
  id = m.id;
  username = m.username;
  email = m.email;
  first_name = m.first_name;
  last_name = m.last_name;
  password_hash = m.password_hash;
  is_active = m.is_active;
  is_staff = m.is_staff;
  is_superuser = m.is_superuser;
}

-- `if model is None: return None` and the mapping
unfoldable pub mapped : Option UserModel → Option User
unfolding user_from_model
mapped none = none
mapped (some m) = some (user_from_model m)

-- `Result.scalar_one_or_none` and `Result.scalar_one`
abbrev pub scalar_one_or_none {ℓ} : {A : Type ℓ} → List A → Outcome (Option A)
scalar_one_or_none [] = ok none
scalar_one_or_none (m ∷ []) = ok (some m)
scalar_one_or_none (m ∷ m' ∷ rest) = raise (error multiple_results_found)

abbrev pub scalar_one {ℓ} : {A : Type ℓ} → List A → Outcome A
scalar_one [] = raise (error no_result_found)
scalar_one (m ∷ []) = ok m
scalar_one (m ∷ m' ∷ rest) = raise (error multiple_results_found)

-- POSTGRES_USER_UNIQUE_CONSTRAINT_NAMES and SQLITE_USER_UNIQUE_MESSAGES
abbrev pub postgres_user_unique_constraint_names : List Text
postgres_user_unique_constraint_names = codes "uq_users_email" ∷ codes "uq_users_username" ∷ []

abbrev pub sqlite_user_unique_messages : List Text
sqlite_user_unique_messages =
    codes "unique constraint failed: users.email"
    ∷ codes "unique constraint failed: users.username"
    ∷ []

module _ (platform : Platform) where
  unfoldable pub is_duplicate_user_integrity_error : Violation → Bool
  unfolding is_in
  is_duplicate_user_integrity_error v = elim v.constraint_name [
    | none ↦ any (λ text. contains_text text (platform.lower v.message)) sqlite_user_unique_messages
    | some name ↦
        is_in name postgres_user_unique_constraint_names
        || any (λ text. contains_text text (platform.lower v.message)) sqlite_user_unique_messages
  ]

  -- `except IntegrityError`: a duplicate becomes the repository's error, all else goes on.
  abbrev pub translated : Exception → Exception
  unfolding is_duplicate_user_integrity_error
  translated (integrity v) =
      if is_duplicate_user_integrity_error v
      then error user_repository_conflict_error
      else integrity v
  translated e = e

  abbrev pub created : Outcome UserModel → Outcome User
  unfolding translated user_from_model
  created (ok m) = ok (user_from_model m)
  created (raise e) = raise (translated e)

-- UserModel(…), before the database gives it a key
abbrev pub new_user_model : PersistUserDto → Text → UserModel
new_user_model d password_hash = record {
  id = pos 0;
  username = d.username;
  email = d.email;
  first_name = d.first_name;
  last_name = d.last_name;
  password_hash = password_hash;
  is_active = d.is_active;
  is_staff = d.is_staff;
  is_superuser = d.is_superuser;
}

module _ {Db : Type 0} (engine : Engine Db) where
  -- session.get(UserModel, user_id)
  abbrev get : ℤ → Exec Db (Option UserModel)
  get user_id db = (engine.get_user user_id db, db)

  unfoldable pub get_by_id : ℤ → Exec Db (Option User)
  unfolding mapped
  get_by_id user_id = do model ← get user_id; pure (mapped model)

  -- select(UserModel).where(…) and scalar_one_or_none
  abbrev select_one : (UserModel → Bool) → Exec Db (Option User)
  unfolding mapped
  select_one p = do
    model ← λ db. (scalar_one_or_none (engine.select_users p db), db)
    pure (mapped model)

  unfoldable pub get_active_by_id : ℤ → Exec Db (Option User)
  unfolding select_one
  get_active_by_id user_id = select_one (λ m. m.id == user_id && m.is_active)

  unfoldable pub get_by_username : Text → Exec Db (Option User)
  unfolding select_one
  get_by_username username = select_one (λ m. m.username == username)

  -- with .limit(1) and scalars().first(): any one of the matching rows
  unfoldable pub get_by_username_or_email : Text → Text → Exec Db (Option User)
  unfolding mapped
  get_by_username_or_email username email db = (
    ok (mapped (first (engine.select_users (λ m. m.username == username || m.email == email) db))),
    db,
  )

  unfoldable pub create : Platform → PersistUserDto → Text → Exec Db User
  unfolding created
  create platform d password_hash db =
      let inserted = engine.insert_user (new_user_model d password_hash) db in
      (created platform inserted.0, inserted.1)

  abbrev write_flags : Bool → Bool → Option UserModel → Exec Db (Option User)
  unfolding user_from_model
  write_flags is_staff is_superuser none = pure none
  write_flags is_staff is_superuser (some m) = do
    let model = record m { is_staff = is_staff; is_superuser = is_superuser }
    engine.write_user model
    pure (some (user_from_model model))

  unfoldable pub set_access_flags : ℤ → Bool → Bool → Exec Db (Option User)
  unfolding write_flags
  set_access_flags user_id is_staff is_superuser = do
    model ← get user_id
    write_flags is_staff is_superuser model
