-- ===== src/SessionRepository/Rotation.antt =====
-- `replace_token_hash` on a consistent database: the optimistic update, and what it returns.
use fastdjango.Base.{◌≡◌, [], none, some, ◌==◌, text_eq, int_eq, keep, length}
use fastdjango.Outcome.{ok}
use fastdjango.Model.{UserModel, RefreshSessionModel, ReplaceRefreshSessionTokenDto}
use fastdjango.Engine.{Engine, IsRelational}
use fastdjango.Engine.Queries.{IsConsistent, select_users-one, select_sessions-one}
use fastdjango.UserRepository.{user_from_model}
use fastdjango.SessionRepository.{
  is_expected, replaced, refresh_session_from_model, replace_token_hash,
}
use fastdjango.SessionRepository.Lookup.{HasHash, HasKey}
use fastdjango.SessionRepository.Rows.{
  IsFreshHash, rotated_rows, keep-is_expected, keep-rotated_rows_new,
  consistent_sessions-rotated_rows,
}

-- The database after the update of a rotation.
abbrev pub updated : {Db : Type 0} → Engine Db → Db → ReplaceRefreshSessionTokenDto → Db
updated engine db d = (engine.update_sessions (is_expected d) (replaced d) db).1

module _ {Db : Type 0} (engine : Engine Db) (laws : IsRelational engine) (db : Db) where
  module _ (d : ReplaceRefreshSessionTokenDto) (c : IsConsistent engine db)
      (fresh : IsFreshHash d.refresh_token_hash (engine.refresh_sessions db)) where
    update_lem :
        ((engine.update_sessions (is_expected d) (replaced d) db).0
          ≡ ok (length (keep (is_expected d) (engine.refresh_sessions db))))
        × (engine.users (updated engine db d) ≡ engine.users db)
        × (engine.refresh_sessions (updated engine db d)
            ≡ rotated_rows d (engine.refresh_sessions db))
    update_lem = laws.update_sessions-admitted (is_expected d) (replaced d) db (
        consistent_sessions-rotated_rows d (engine.users db) (engine.refresh_sessions db) fresh
          c.sessions_consistent)

    pub updated_rows :
        (engine.users (updated engine db d) ≡ engine.users db)
        × (engine.refresh_sessions (updated engine db d)
            ≡ rotated_rows d (engine.refresh_sessions db))
    updated_rows = (update_lem.1, update_lem.2)

    pub updated-IsConsistent : IsConsistent engine (updated engine db d)
    updated-IsConsistent = record {
      users_consistent = rw update_lem.1 c.users_consistent;
      sessions_consistent =
          rw (update_lem.1, update_lem.2)
            (consistent_sessions-rotated_rows d (engine.users db) (engine.refresh_sessions db) fresh
              c.sessions_consistent);
    }

    -- The stored hash still matches: the row is replaced and read back.
    pub replace_token_hash-some :
        (m : RefreshSessionModel) (u : UserModel)
        → d.session_id ≡ m.id
        → HasHash d.expected_refresh_token_hash m (engine.refresh_sessions db)
        → HasKey m.user_id u (engine.users db)
        → replace_token_hash engine d db ≡ (
          ok (some (refresh_session_from_model (replaced d m) (user_from_model u))),
          updated engine db d,
        )
    unfolding replace_token_hash
    replace_token_hash-some m u e found owned =
        let matched = keep-is_expected d m (engine.refresh_sessions db) e found in
        let stored : HasHash d.refresh_token_hash (replaced d m)
            (engine.refresh_sessions (updated engine db d)) =
          rw (update_lem.2, keep-rotated_rows_new d (engine.refresh_sessions db) fresh, matched) in
        let owner : HasKey m.user_id u (engine.users (updated engine db d)) =
          rw update_lem.1 owned in
        rw (
          update_lem.0,
          matched,
          select_sessions-one engine laws (updated engine db d)
              (λ r. r.refresh_token_hash == d.refresh_token_hash) (replaced d m) stored,
          select_users-one engine laws (updated engine db d) (λ r. r.id == m.user_id) u owner,
        )

    -- No row holds the expected hash under that key: nothing is returned.
    pub replace_token_hash-none :
        keep (is_expected d) (engine.refresh_sessions db) ≡ []
        → replace_token_hash engine d db ≡ (ok none, updated engine db d)
    unfolding replace_token_hash
    replace_token_hash-none e = rw (update_lem.0, e)
