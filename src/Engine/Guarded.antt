-- ===== src/Engine/Guarded.antt =====
-- What the statements of the API leave of the table of users: its rows, with new ones in front that have no
-- privileges.
use fastdjango.Base.{
  ◌≡◌, ◌∙◌, ap, Bool, false, List, ◌∷◌, ◌++◌, All, nat_eq, int_eq, Bool-cases, inl, inr,
}
use fastdjango.Model.{UserModel, RefreshSessionModel}
use fastdjango.Engine.{
  Engine, IsRelational, admits_user, admits_session, consistent_sessions, update_where,
  KeepsSessionKeys,
}
use fastdjango.Engine.Queries.{IsConsistent}
use fastdjango.Engine.Statements.{
  IsConsistent-insert_user, IsConsistent-insert_session, IsConsistent-update_sessions,
  IsConsistent-write_session,
}

-- Neither staff nor superuser.
abbrev pub IsPlain : UserModel → Type 0
IsPlain m = (m.is_staff ≡ false) × (m.is_superuser ≡ false)

-- The rows are the old ones, unchanged and in their order, after new ones without privileges.
abbrev pub IsGrown : List UserModel → List UserModel → Type 0
IsGrown old rows = (added : List UserModel) × (rows ≡ added ++ old) × All IsPlain added

pub record IsGuarded {Db : Type 0} (engine : Engine Db) (old : List UserModel) (db : Db)
    : Type 0 where
  pub consistent : IsConsistent engine db
  pub grown : IsGrown old (engine.users db)

module _ {Db : Type 0} (engine : Engine Db) (old : List UserModel) (laws : IsRelational engine)
    (db : Db) (g : IsGuarded engine old db) where
  same_users :
      (after : Db)
      → IsConsistent engine after
      → engine.users after ≡ engine.users db
      → IsGuarded engine old after
  same_users after c same =
      let (added, rows, plain) = g.grown in
      record { consistent = c; grown = (added, same ∙ rows, plain) }

  pub IsGuarded-insert_user :
      (m : UserModel) → IsPlain m → IsGuarded engine old (engine.insert_user m db).1
  IsGuarded-insert_user m without =
      let after = IsConsistent-insert_user engine laws db g.consistent m in
      elim (Bool-cases (admits_user m (engine.users db))) [
        | inl h ↦
            let (id, fresh, run, rows, sessions) = laws.insert_user-admitted m db h in
            let (added, before, plain) = g.grown in
            record {
              consistent = after;
              grown = (
                record m { id = id } ∷ added,
                rows ∙ ap (λ users. record m { id = id } ∷ users) before,
                (without, plain),
              );
            }
        | inr h ↦
            let (v, reported, run, rows, sessions) = laws.insert_user-refused m db h in
            same_users _ after rows
      ]

  pub IsGuarded-insert_session :
      (m : RefreshSessionModel) → IsGuarded engine old (engine.insert_session m db).1
  IsGuarded-insert_session m =
      let after = IsConsistent-insert_session engine laws db g.consistent m in
      elim (Bool-cases (admits_session m (engine.users db) (engine.refresh_sessions db))) [
        | inl h ↦
            let (run, rows, sessions) = laws.insert_session-admitted m db h in
            same_users _ after rows
        | inr h ↦
            let (v, run, rows, sessions) = laws.insert_session-refused m db h in
            same_users _ after rows
      ]

  pub IsGuarded-update_sessions :
      (p : RefreshSessionModel → Bool) (f : RefreshSessionModel → RefreshSessionModel)
      → IsGuarded engine old (engine.update_sessions p f db).1
  IsGuarded-update_sessions p f =
      let after = IsConsistent-update_sessions engine laws db g.consistent p f in
      elim (Bool-cases
        (consistent_sessions (engine.users db) (update_where p f (engine.refresh_sessions db)))) [
          | inl h ↦
              let (run, rows, sessions) = laws.update_sessions-admitted p f db h in
              same_users _ after rows
          | inr h ↦
              let (v, run, rows, sessions) = laws.update_sessions-refused p f db h in
              same_users _ after rows
        ]

  pub IsGuarded-write_session :
      (m : RefreshSessionModel)
      → KeepsSessionKeys m (engine.refresh_sessions db)
      → IsGuarded engine old (engine.write_session m db).1
  IsGuarded-write_session m k =
      let after = IsConsistent-write_session engine laws db g.consistent m k in
      let (run, rows, sessions) = laws.write_session_lem m db k in same_users _ after rows
