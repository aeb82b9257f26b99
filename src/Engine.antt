-- ===== src/Engine.antt =====
-- The database as the repositories and the unit of work reach it, through an `AsyncSession`.
-- SQLAlchemy and the server are not part of the repository: their operations are fields of a
-- record that the model takes as a parameter, and `IsRelational` names what the code relies on.
mod Select
pub mod Consistency
pub mod Queries
pub mod Preservation
pub mod Statements
pub mod Guarded
pub mod Memory
pub use Select.{Permᴰ-nil, Permᴰ-singleton, Permᴰ-All}
use mathlib.Core.List.{Permᴰ}
use fastdjango.Base.{
  ℕ, ◌≡◌, ◌⊎◌, Bool, true, false, not, ◌&&◌, ◌||◌, List, [], ◌∷◌, map, Option, none, some, Text,
  codes, ◌==◌, nat_eq, text_eq, int_eq, any, keep, length, ltb, All, if◌then◌else◌,
}
use fastdjango.Base.Int.{ℤ, pos, negsuc}
use fastdjango.Errors.{Exception, Violation, integrity}
use fastdjango.Model.{UserModel, RefreshSessionModel}
use fastdjango.Outcome.{Outcome, ok, raise}

-- `Db` is the database as one connection sees it inside its transaction.
pub record Engine (Db : Type 0) : Type 0 where
  -- the rows, which no code reads directly: the statements below are specified by them
  pub users : Db → List UserModel
  pub refresh_sessions : Db → List RefreshSessionModel
  -- session.execute(select(UserModel).where(…)), session.execute(select(RefreshSessionModel).where(…))
  pub select_users : (UserModel → Bool) → Db → List UserModel
  pub select_sessions : (RefreshSessionModel → Bool) → Db → List RefreshSessionModel
  -- session.get(UserModel, id), which raises where the driver cannot send the key
  pub get_user : ℤ → Db → Outcome (Option UserModel)
  -- session.add(UserModel(…)); session.flush(): the row comes back with the id that it was given
  pub insert_user : UserModel → Db → Outcome UserModel × Db
  -- assignments to a loaded row, written by session.flush()
  pub write_user : UserModel → Db → Outcome (Unit {0}) × Db
  -- session.add(RefreshSessionModel(…)); session.flush()
  pub insert_session : RefreshSessionModel → Db → Outcome (Unit {0}) × Db
  -- session.execute(update(RefreshSessionModel).where(…).values(…)), with its rowcount
  pub update_sessions :
      (RefreshSessionModel → Bool)
      → (RefreshSessionModel → RefreshSessionModel)
      → Db
      → Outcome ℕ × Db
  -- an assignment to a loaded row, flushed at the latest by the commit
  pub write_session : RefreshSessionModel → Db → Outcome (Unit {0}) × Db
  -- session_factory() and session.begin(); the transaction's commit and rollback; session.close():
  -- each returns, or raises an exception; a commit that raises has published nothing
  pub begin : Db → Option Exception
  pub commit : Db → Option Exception
  pub rollback : Db → Option Exception
  pub close : Db → Option Exception

-- The keys that an INTEGER column and both drivers take: four bytes.
abbrev pub is_integer : ℤ → Bool
is_integer (pos n) = ltb n 2147483648
is_integer (negsuc n) = ltb n 2147483648

-- The constraints of `users`: both unique columns are new.
unfoldable pub admits_user : UserModel → List UserModel → Bool
admits_user m rows = not (any (λ r. r.username == m.username || r.email == m.email) rows)

-- The constraints of `refresh_sessions`: primary key, unique hash and foreign key.
unfoldable pub admits_session :
    RefreshSessionModel → List UserModel → List RefreshSessionModel → Bool
admits_session m owners rows =
    not (any (λ r. r.id == m.id || r.refresh_token_hash == m.refresh_token_hash) rows)
    && any (λ u. u.id == m.user_id) owners

-- A table of users in which no two rows share the key or a unique column.
unfoldable pub consistent_users : List UserModel → Bool
unfolding admits_user
consistent_users [] = true
consistent_users (m ∷ rows) =
    admits_user m rows && not (any (λ r. r.id == m.id) rows) && consistent_users rows

-- A table of sessions that meets its constraints.
unfoldable pub consistent_sessions : List UserModel → List RefreshSessionModel → Bool
unfolding admits_session
consistent_sessions owners [] = true
consistent_sessions owners (m ∷ rows) =
    admits_session m owners rows && consistent_sessions owners rows

abbrev pub first {ℓ} : {A : Type ℓ} → List A → Option A
first [] = none
first (x ∷ xs) = some x

-- The rows after an update of those that meet `p`.
abbrev pub update_where {ℓ} : {A : Type ℓ} → (A → Bool) → (A → A) → List A → List A
update_where p f [] = []
update_where p f (x ∷ xs) = (if p x then f x else x) ∷ update_where p f xs

-- How PostgreSQL and SQLite report a duplicate of a unique column of `users`: the name of the
-- constraint, or the text of SQLite's message.
abbrev pub ReportsDuplicate : Violation → Type 0
ReportsDuplicate v =
    (v.constraint_name ≡ some (codes "uq_users_email"))
    ⊎ (v.constraint_name ≡ some (codes "uq_users_username"))
    ⊎ (v.message ≡ codes "UNIQUE constraint failed: users.email")
    ⊎ (v.message ≡ codes "UNIQUE constraint failed: users.username")

-- An update of one row by its key leaves the unique columns and the owner alone.
abbrev pub KeepsUserKeys : UserModel → List UserModel → Type 0
KeepsUserKeys m = All (λ r. r.id ≡ m.id → (r.username ≡ m.username) × (r.email ≡ m.email))

abbrev pub KeepsSessionKeys : RefreshSessionModel → List RefreshSessionModel → Type 0
KeepsSessionKeys m =
    All λ r. r.id ≡ m.id → (r.refresh_token_hash ≡ m.refresh_token_hash) × (r.user_id ≡ m.user_id)

-- What the documentation of SQL and SQLAlchemy promises of the statements that the code issues,
-- on a database that can be reached. A new row stands first among the rows.
pub record IsRelational {Db : Type 0} (engine : Engine Db) : Type 0 where
  -- a SELECT returns the matching rows, in some order
  pub select_users_lem :
      (p : UserModel → Bool) (db : Db) → Permᴰ (engine.select_users p db) (keep p (engine.users db))
  pub select_sessions_lem :
      (p : RefreshSessionModel → Bool) (db : Db)
      → Permᴰ (engine.select_sessions p db) (keep p (engine.refresh_sessions db))
  pub get_user_lem :
      (id : ℤ) (db : Db)
      → is_integer id ≡ true
      → engine.get_user id db ≡ ok (first (keep (λ u. u.id == id) (engine.users db)))
  pub get_user-found :
      (id : ℤ) (db : Db) (found : Option UserModel)
      → engine.get_user id db ≡ ok found
      → found ≡ first (keep (λ u. u.id == id) (engine.users db))
  -- an INSERT gives a new key, or is refused by a unique constraint and changes nothing
  pub insert_user-admitted :
      (m : UserModel) (db : Db)
      → admits_user m (engine.users db) ≡ true
      → (id : ℤ) × (any (λ r. r.id == id) (engine.users db) ≡ false)
        × ((engine.insert_user m db).0 ≡ ok (record m { id = id }))
        × (engine.users (engine.insert_user m db).1 ≡ record m { id = id } ∷ engine.users db)
        × (engine.refresh_sessions (engine.insert_user m db).1 ≡ engine.refresh_sessions db)
  pub insert_user-refused :
      (m : UserModel) (db : Db)
      → admits_user m (engine.users db) ≡ false
      → (v : Violation) × ReportsDuplicate v
        × ((engine.insert_user m db).0 ≡ raise (integrity v))
        × (engine.users (engine.insert_user m db).1 ≡ engine.users db)
        × (engine.refresh_sessions (engine.insert_user m db).1 ≡ engine.refresh_sessions db)
  pub write_user_lem :
      (m : UserModel) (db : Db)
      → KeepsUserKeys m (engine.users db)
      → ((engine.write_user m db).0 ≡ ok tt)
        × (engine.users (engine.write_user m db).1
            ≡ update_where (λ r. r.id == m.id) (λ _. m) (engine.users db))
        × (engine.refresh_sessions (engine.write_user m db).1 ≡ engine.refresh_sessions db)
  pub insert_session-admitted :
      (m : RefreshSessionModel) (db : Db)
      → admits_session m (engine.users db) (engine.refresh_sessions db) ≡ true
      → ((engine.insert_session m db).0 ≡ ok tt)
        × (engine.users (engine.insert_session m db).1 ≡ engine.users db)
        × (engine.refresh_sessions (engine.insert_session m db).1 ≡ m ∷ engine.refresh_sessions db)
  pub insert_session-refused :
      (m : RefreshSessionModel) (db : Db)
      → admits_session m (engine.users db) (engine.refresh_sessions db) ≡ false
      → (v : Violation) × ((engine.insert_session m db).0 ≡ raise (integrity v))
        × (engine.users (engine.insert_session m db).1 ≡ engine.users db)
        × (engine.refresh_sessions (engine.insert_session m db).1 ≡ engine.refresh_sessions db)
  -- an UPDATE whose outcome meets the constraints is done, and counts the rows that it matched
  pub update_sessions-admitted :
      (p : RefreshSessionModel → Bool) (f : RefreshSessionModel → RefreshSessionModel) (db : Db)
      → consistent_sessions (engine.users db) (update_where p f (engine.refresh_sessions db)) ≡ true
      → ((engine.update_sessions p f db).0 ≡ ok (length (keep p (engine.refresh_sessions db))))
        × (engine.users (engine.update_sessions p f db).1 ≡ engine.users db)
        × (engine.refresh_sessions (engine.update_sessions p f db).1
            ≡ update_where p f (engine.refresh_sessions db))
  pub update_sessions-refused :
      (p : RefreshSessionModel → Bool) (f : RefreshSessionModel → RefreshSessionModel) (db : Db)
      → consistent_sessions (engine.users db) (update_where p f (engine.refresh_sessions db))
        ≡ false
      → (v : Violation) × ((engine.update_sessions p f db).0 ≡ raise (integrity v))
        × (engine.users (engine.update_sessions p f db).1 ≡ engine.users db)
        × (engine.refresh_sessions (engine.update_sessions p f db).1 ≡ engine.refresh_sessions db)
  pub write_session_lem :
      (m : RefreshSessionModel) (db : Db)
      → KeepsSessionKeys m (engine.refresh_sessions db)
      → ((engine.write_session m db).0 ≡ ok tt)
        × (engine.users (engine.write_session m db).1 ≡ engine.users db)
        × (engine.refresh_sessions (engine.write_session m db).1
            ≡ update_where (λ r. r.id == m.id) (λ _. m) (engine.refresh_sessions db))
