-- ===== src/Engine/Statements.antt =====
-- Every statement that the database carries out, and every one that it refuses, leaves consistent
-- tables.
use fastdjango.Base.{◌≡◌, Bool, nat_eq, int_eq, Bool-cases, inl, inr}
use fastdjango.Model.{UserModel, RefreshSessionModel}
use fastdjango.Engine.{
  Engine, IsRelational, admits_user, admits_session, consistent_sessions, update_where,
  KeepsUserKeys, KeepsSessionKeys,
}
use fastdjango.Engine.Queries.{IsConsistent}
use fastdjango.Engine.Preservation.{
  more_owners, added_users, written_sessions, written_users, written_owners,
}

module _ {Db : Type 0} (engine : Engine Db) where
  -- The tables are consistent if they are those of a consistent database.
  pub IsConsistent-same :
      (db after : Db)
      → engine.users after ≡ engine.users db
      → engine.refresh_sessions after ≡ engine.refresh_sessions db
      → IsConsistent engine db
      → IsConsistent engine after
  IsConsistent-same db after u s c = record {
    users_consistent = rw u c.users_consistent;
    sessions_consistent = rw (u, s) c.sessions_consistent;
  }

module _ {Db : Type 0} (engine : Engine Db) (laws : IsRelational engine) (db : Db)
    (c : IsConsistent engine db) where
  pub IsConsistent-insert_user : (m : UserModel) → IsConsistent engine (engine.insert_user m db).1
  IsConsistent-insert_user m = elim (Bool-cases (admits_user m (engine.users db))) [
    | inl h ↦
        let (id, fresh, run, rows, sessions) = laws.insert_user-admitted m db h in
        record {
          users_consistent =
              rw rows (added_users id m (engine.users db) h fresh c.users_consistent);
          sessions_consistent =
              rw (rows, sessions)
                (more_owners (record m { id = id }) (engine.users db) (engine.refresh_sessions db)
                  c.sessions_consistent);
        }
    | inr h ↦
        let (v, reported, run, rows, sessions) = laws.insert_user-refused m db h in
        IsConsistent-same engine db _ rows sessions c
  ]

  pub IsConsistent-write_user :
      (m : UserModel)
      → KeepsUserKeys m (engine.users db)
      → IsConsistent engine (engine.write_user m db).1
  IsConsistent-write_user m k =
      let (run, rows, sessions) = laws.write_user_lem m db k in
      record {
        users_consistent = rw rows (written_users m (engine.users db) k c.users_consistent);
        sessions_consistent =
            rw (rows, sessions)
              (written_owners m (engine.users db) (engine.refresh_sessions db)
                c.sessions_consistent);
      }

  pub IsConsistent-insert_session :
      (m : RefreshSessionModel) → IsConsistent engine (engine.insert_session m db).1
  unfolding consistent_sessions
  IsConsistent-insert_session m =
      elim (Bool-cases (admits_session m (engine.users db) (engine.refresh_sessions db))) [
        | inl h ↦
            let (run, rows, sessions) = laws.insert_session-admitted m db h in
            record {
              users_consistent = rw rows c.users_consistent;
              sessions_consistent = rw (rows, sessions, h) c.sessions_consistent;
            }
        | inr h ↦
            let (v, run, rows, sessions) = laws.insert_session-refused m db h in
            IsConsistent-same engine db _ rows sessions c
      ]

  pub IsConsistent-update_sessions :
      (p : RefreshSessionModel → Bool) (f : RefreshSessionModel → RefreshSessionModel)
      → IsConsistent engine (engine.update_sessions p f db).1
  IsConsistent-update_sessions p f =
      elim (Bool-cases
        (consistent_sessions (engine.users db) (update_where p f (engine.refresh_sessions db)))) [
          | inl h ↦
              let (run, rows, sessions) = laws.update_sessions-admitted p f db h in
              record {
                users_consistent = rw rows c.users_consistent;
                sessions_consistent = rw (rows, sessions) h;
              }
          | inr h ↦
              let (v, run, rows, sessions) = laws.update_sessions-refused p f db h in
              IsConsistent-same engine db _ rows sessions c
        ]

  pub IsConsistent-write_session :
      (m : RefreshSessionModel)
      → KeepsSessionKeys m (engine.refresh_sessions db)
      → IsConsistent engine (engine.write_session m db).1
  IsConsistent-write_session m k =
      let (run, rows, sessions) = laws.write_session_lem m db k in
      record {
        users_consistent = rw rows c.users_consistent;
        sessions_consistent =
            rw (rows, sessions)
              (written_sessions m (engine.users db) (engine.refresh_sessions db) k
                c.sessions_consistent);
      }
