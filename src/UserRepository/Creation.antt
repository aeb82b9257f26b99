-- ===== src/UserRepository/Creation.antt =====
-- `create` inserts one row, or reports a duplicate as the repository's own error.
use fastdjango.Base.{
  ◌≡◌, refl, true, false, some, Text, ◌∷◌, codes, ◌==◌, int_eq, any, same_text, is_in,
  contains_text, starts_with, inl, inr, Option-cases, Bool-cases,
}
use fastdjango.Base.Int.{ℤ}
use fastdjango.Errors.{Violation, error, user_repository_conflict_error}
use fastdjango.Outcome.{ok, raise}
use fastdjango.Model.{UserModel, PersistUserDto}
use fastdjango.Platform.{Platform}
use fastdjango.Engine.{Engine, IsRelational, ReportsDuplicate, admits_user}
use fastdjango.UserRepository.{
  user_from_model, postgres_user_unique_constraint_names, sqlite_user_unique_messages,
  is_duplicate_user_integrity_error, new_user_model, create,
}

-- `str.lower` at the two messages that SQLite has for a duplicate user.
pub record LowersMessages (platform : Platform) : Type 0 where
  pub email :
      platform.lower (codes "UNIQUE constraint failed: users.email")
      ≡ codes "unique constraint failed: users.email"
  pub username :
      platform.lower (codes "UNIQUE constraint failed: users.username")
      ≡ codes "unique constraint failed: users.username"

module _ (platform : Platform) where
  reported_by_name :
      (v : Violation) (name : Text)
      → v.constraint_name ≡ some name
      → is_in name postgres_user_unique_constraint_names ≡ true
      → is_duplicate_user_integrity_error platform v ≡ true
  unfolding is_duplicate_user_integrity_error
  reported_by_name v name e h = rw (e, h)

  reported_by_message :
      (v : Violation)
      → any (λ text. contains_text text (platform.lower v.message)) sqlite_user_unique_messages
        ≡ true
      → is_duplicate_user_integrity_error platform v ≡ true
  unfolding is_duplicate_user_integrity_error
  reported_by_message v h = elim (Option-cases v.constraint_name) [
    | inl e ↦ rw (e, h)
    | inr (name, e) ↦ elim (Bool-cases (is_in name postgres_user_unique_constraint_names)) [
      | inl t ↦ rw (e, t)
      | inr f ↦ rw (e, f, h)
    ]
  ]

  -- Both databases' reports of a duplicate are recognised.
  pub ReportsDuplicate-is_duplicate :
      (v : Violation)
      → LowersMessages platform
      → ReportsDuplicate v
      → is_duplicate_user_integrity_error platform v ≡ true
  unfolding is_in contains_text starts_with same_text
  ReportsDuplicate-is_duplicate v l (inl e) = reported_by_name v _ e refl
  ReportsDuplicate-is_duplicate v l (inr (inl e)) = reported_by_name v _ e refl
  ReportsDuplicate-is_duplicate v l (inr (inr (inl e))) =
      reported_by_message v (rw (e, l.email) refl)
  ReportsDuplicate-is_duplicate v l (inr (inr (inr e))) =
      reported_by_message v (rw (e, l.username) refl)

module _ {Db : Type 0} (platform : Platform) (engine : Engine Db) (laws : IsRelational engine)
    (db : Db) (d : PersistUserDto) (password_hash : Text) where
  abbrev row : UserModel
  row = new_user_model d password_hash

  -- On a relational database whose reports are lowered as Python does it, inserting a user whose name or
  -- address is stored raises the repository's conflict error, never the driver's, and changes no row.
  pub create-duplicate :
      LowersMessages platform
      → admits_user row (engine.users db) ≡ false
      → ((create engine platform d password_hash db).0
          ≡ raise (error user_repository_conflict_error))
        × (engine.users (create engine platform d password_hash db).1 ≡ engine.users db)
        × (engine.refresh_sessions (create engine platform d password_hash db).1
            ≡ engine.refresh_sessions db)
  unfolding create
  create-duplicate l h =
      let (v, reports, raised, same_users, same_sessions) = laws.insert_user-refused row db h in
      (rw (raised, ReportsDuplicate-is_duplicate platform v l reports), same_users, same_sessions)

  pub create-new :
      admits_user row (engine.users db) ≡ true
      → (id : ℤ) × (any (λ r. r.id == id) (engine.users db) ≡ false)
        × ((create engine platform d password_hash db).0
            ≡ ok (user_from_model (record row { id = id })))
        × (engine.users (create engine platform d password_hash db).1
            ≡ record row { id = id } ∷ engine.users db)
        × (engine.refresh_sessions (create engine platform d password_hash db).1
            ≡ engine.refresh_sessions db)
  unfolding create
  create-new h =
      let (id, new_id, inserted, users, same_sessions) = laws.insert_user-admitted row db h in
      (id, new_id, rw inserted, users, same_sessions)
