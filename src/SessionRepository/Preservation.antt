-- ===== src/SessionRepository/Preservation.antt =====
-- The methods of the session repository keep the invariant of the tables.
use fastdjango.Base.{List}
use fastdjango.Model.{UserModel}
use fastdjango.Base.{
  ◌≡◌, refl, true, Option, none, some, ap, ℕ, Text, ◌==◌, nat_eq, text_eq, keep, All-weaken, arith,
}
use fastdjango.Outcome.Preserves.{
  Preserves, Preserves-read, Preserves-bind, Preserves-pure, Preserves-elim,
}
use fastdjango.Model.{
  DateTime, RefreshSessionModel, CreateRefreshSessionDto, ReplaceRefreshSessionTokenDto,
}
use fastdjango.Engine.{Engine, IsRelational, first, KeepsSessionKeys}
use fastdjango.Engine.Queries.{scalar-select_sessions}
use fastdjango.Engine.Consistency.{sessions-AtMostOne_id}
use fastdjango.Engine.Preservation.{only_match}
use fastdjango.Engine.Guarded.{
  IsGuarded, IsGuarded-insert_session, IsGuarded-update_sessions, IsGuarded-write_session,
}
use fastdjango.SessionRepository.{
  load_session, load_if_found, get_by_token_hash, create, new_session_model, is_expected, replaced,
  reload_if_updated, replace_token_hash, write_revoked, revoke,
}

module _ {Db : Type 0} (engine : Engine Db) (old : List UserModel) where
  load_session-Preserves :
      (m : RefreshSessionModel) → Preserves (IsGuarded engine old) (load_session engine m)
  unfolding load_session
  load_session-Preserves m = Preserves-read _

  load_if_found-Preserves :
      (found : Option RefreshSessionModel)
      → Preserves (IsGuarded engine old) (load_if_found engine found)
  unfolding load_if_found
  load_if_found-Preserves none = Preserves-pure _
  load_if_found-Preserves (some m) =
      Preserves-bind _ _ (load_session-Preserves m) (λ session. Preserves-pure _)

  pub get_by_token_hash-Preserves :
      (h : Text) → Preserves (IsGuarded engine old) (get_by_token_hash engine h)
  unfolding get_by_token_hash
  get_by_token_hash-Preserves h = Preserves-bind _ _ (Preserves-read _) load_if_found-Preserves

  reload_if_updated-Preserves :
      (d : ReplaceRefreshSessionTokenDto) (rowcount : ℕ)
      → Preserves (IsGuarded engine old) (reload_if_updated engine d rowcount)
  unfolding reload_if_updated
  reload_if_updated-Preserves d rowcount =
      Preserves-elim (rowcount == 1) _ _
        (Preserves-bind _ _ (Preserves-read _)
          (λ m. Preserves-bind _ _ (load_session-Preserves m) (λ session. Preserves-pure _)))
        (Preserves-pure _)

module _ {Db : Type 0} (engine : Engine Db) (old : List UserModel)
    (laws : IsRelational engine) where
  pub create-Preserves :
      (d : CreateRefreshSessionDto) → Preserves (IsGuarded engine old) (create engine d)
  unfolding create
  create-Preserves d =
      Preserves-bind _ _
        (record {
          holds_after = λ db c. IsGuarded-insert_session engine old laws db c (new_session_model d);
        })
        (λ _. Preserves-pure _)

  pub replace_token_hash-Preserves :
      (d : ReplaceRefreshSessionTokenDto)
      → Preserves (IsGuarded engine old) (replace_token_hash engine d)
  unfolding replace_token_hash
  replace_token_hash-Preserves d =
      Preserves-bind (engine.update_sessions (is_expected d) (replaced d)) _
        (record {
          holds_after =
              λ db c. IsGuarded-update_sessions engine old laws db c (is_expected d) (replaced d);
        })
        (reload_if_updated-Preserves engine old d)

  -- The row that an identifier finds is the only one with its identifier.
  found_session :
      (id : ℕ) (m : RefreshSessionModel) (db : Db)
      → IsGuarded engine old db
      → first (keep (λ s. s.id == id) (engine.refresh_sessions db)) ≡ some m
      → KeepsSessionKeys m (engine.refresh_sessions db)
  found_session id m db c found =
      let (key, only) =
        only_match (λ s. s.id == id) (engine.refresh_sessions db) m
          (sessions-AtMostOne_id (engine.users db) (engine.refresh_sessions db) id
            c.consistent.sessions_consistent)
          found in
      All-weaken (λ r. (r.id == id) ≡ true → r ≡ m)
        (λ r. r.id ≡ m.id → (r.refresh_token_hash ≡ m.refresh_token_hash) × (r.user_id ≡ m.user_id))
        (engine.refresh_sessions db)
        (λ r same k.
          let e : r ≡ m = same (ground (arith, ap (λ k. k == id) k)) in
          (ap (λ r. r.refresh_token_hash) e, ap (λ r. r.user_id) e))
        only

  write_revoked-keeps :
      (id : ℕ) (revoked_at : DateTime) (found : Option RefreshSessionModel) (db : Db)
      → IsGuarded engine old db
      → first (keep (λ s. s.id == id) (engine.refresh_sessions db)) ≡ found
      → IsGuarded engine old (write_revoked engine revoked_at found db).1
  write_revoked-keeps id revoked_at none db c found = c
  write_revoked-keeps id revoked_at (some m) db c found =
      IsGuarded-write_session engine old laws db c (record m { revoked_at = some revoked_at })
        (found_session id m db c found)

  pub revoke-Preserves :
      (id : ℕ) (revoked_at : DateTime)
      → Preserves (IsGuarded engine old) (revoke engine id revoked_at)
  unfolding revoke
  revoke-Preserves id revoked_at = record {
    holds_after = λ db c.
        rw
          (scalar-select_sessions engine laws db (λ m. m.id == id)
            (sessions-AtMostOne_id (engine.users db) (engine.refresh_sessions db) id
              c.consistent.sessions_consistent))
          (write_revoked-keeps id revoked_at
            (first (keep (λ s. s.id == id) (engine.refresh_sessions db))) db c refl);
  }
