-- ===== src/UserRepository/Lookup.antt =====
-- The getters of the user repository are searches in the table of users.
use fastdjango.Base.{
  ◌≡◌, true, false, ◌&&◌, ◌||◌, none, some, Text, ◌==◌, text_eq, int_eq, any, keep, keep-nil,
}
use fastdjango.Base.Int.{ℤ}
use fastdjango.Outcome.{ok}
use fastdjango.Model.{User}
use fastdjango.Engine.{Engine, IsRelational, first, is_integer}
use fastdjango.Engine.Consistency.{users-AtMostOne_active, users-AtMostOne_username}
use fastdjango.Engine.Queries.{
  IsConsistent, scalar-select_users, select_users-nil, select_users-first,
}
use fastdjango.UserRepository.{
  mapped, user_from_model, get_by_id, get_active_by_id, get_by_username, get_by_username_or_email,
}

module _ {Db : Type 0} (engine : Engine Db) (laws : IsRelational engine) (db : Db) where
  pub get_by_id_lem :
      (id : ℤ)
      → is_integer id ≡ true
      → get_by_id engine id db
        ≡ (ok (mapped (first (keep (λ m. m.id == id) (engine.users db)))), db)
  unfolding get_by_id
  get_by_id_lem id h = rw (laws.get_user_lem id db h)

  pub get_active_by_id_lem :
      (id : ℤ)
      → IsConsistent engine db
      → get_active_by_id engine id db
        ≡ (ok (mapped (first (keep (λ m. m.id == id && m.is_active) (engine.users db)))), db)
  unfolding get_active_by_id
  get_active_by_id_lem id c = rw (
      scalar-select_users engine laws db (λ m. m.id == id && m.is_active)
        (users-AtMostOne_active (engine.users db) id c.users_consistent))

  pub get_by_username_lem :
      (username : Text)
      → IsConsistent engine db
      → get_by_username engine username db
        ≡ (ok (mapped (first (keep (λ m. m.username == username) (engine.users db)))), db)
  unfolding get_by_username
  get_by_username_lem username c = rw (
      scalar-select_users engine laws db (λ m. m.username == username)
        (users-AtMostOne_username (engine.users db) username c.users_consistent))

  pub get_by_username_or_email-none :
      (username email : Text)
      → any (λ m. m.username == username || m.email == email) (engine.users db) ≡ false
      → get_by_username_or_email engine username email db ≡ (ok none, db)
  unfolding get_by_username_or_email
  get_by_username_or_email-none username email h = rw (
      select_users-nil engine laws db (λ m. m.username == username || m.email == email)
        (keep-nil (λ m. m.username == username || m.email == email) (engine.users db) h))

  pub get_by_username_or_email-some :
      (username email : Text)
      → any (λ m. m.username == username || m.email == email) (engine.users db) ≡ true
      → (user : User) × (get_by_username_or_email engine username email db ≡ (ok (some user), db))
  unfolding get_by_username_or_email
  get_by_username_or_email-some username email h =
      let (m, e) =
        select_users-first engine laws db (λ m. m.username == username || m.email == email) h in
      (user_from_model m, rw e)
