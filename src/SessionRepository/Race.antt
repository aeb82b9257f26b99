-- ===== src/SessionRepository/Race.antt =====
-- Rotations of one token that race: each has read the session, and their updates reach the database one
-- after another.
use fastdjango.Base.{
  ◌≡◌, refl, sym, ◌∙◌, List, [], ◌∷◌, map, Option, none, some, All, Text, nat_eq, text_eq, int_eq,
  keep, arith,
}
use mathlib.Core.Path.{subst}
use fastdjango.Outcome.{Outcome, ok}
use fastdjango.Model.{UserModel, RefreshSession, RefreshSessionModel, ReplaceRefreshSessionTokenDto}
use fastdjango.Engine.{Engine, IsRelational, update_where}
use fastdjango.Engine.Statements.{IsConsistent-same}
use fastdjango.Engine.Queries.{IsConsistent}
use fastdjango.UserRepository.{user_from_model}
use fastdjango.SessionRepository.{
  is_expected, replaced, refresh_session_from_model, replace_token_hash,
}
use fastdjango.SessionRepository.Lookup.{HasHash, owner-HasKey}
use fastdjango.SessionRepository.Rows.{IsFreshHash, IsFreshHash-ne, IsFreshHash-rotated_rows_old}
use fastdjango.SessionRepository.Rotation.{
  updated, updated_rows, updated-IsConsistent, replace_token_hash-some,
}

-- What the rotations return, and the database after them.
unfoldable pub contend :
    {Db : Type 0}
    → Engine Db
    → List ReplaceRefreshSessionTokenDto
    → Db
    → List (Outcome (Option RefreshSession)) × Db
unfolding replace_token_hash
contend engine [] db = ([], db)
contend engine (d ∷ ds) db =
    let first = replace_token_hash engine d db in
    let rest = contend engine ds first.1 in (first.0 ∷ rest.0, rest.1)

-- An update whose hash is not stored matches no row and changes none.
unmatched :
    (d : ReplaceRefreshSessionTokenDto) (rows : List RefreshSessionModel)
    → IsFreshHash d.expected_refresh_token_hash rows
    → (keep (is_expected d) rows ≡ []) × (update_where (is_expected d) (replaced d) rows ≡ rows)
unfolding is_expected
unmatched d [] f = (refl, refl)
unmatched d (r ∷ rows) f =
    let rest = unmatched d rows (ground arith) in (ground (arith, rest.0), ground (arith, rest.1))

module _ {Db : Type 0} (engine : Engine Db) (laws : IsRelational engine) (h : Text) where
  -- A rotation that comes too late returns nothing and changes no table.
  late :
      (d : ReplaceRefreshSessionTokenDto) (db : Db)
      → IsConsistent engine db
      → IsFreshHash h (engine.refresh_sessions db)
      → d.expected_refresh_token_hash ≡ h
      → ((replace_token_hash engine d db).0 ≡ ok none)
        × (engine.users (replace_token_hash engine d db).1 ≡ engine.users db)
        × (engine.refresh_sessions (replace_token_hash engine d db).1 ≡ engine.refresh_sessions db)
  unfolding replace_token_hash
  late d db c f e =
      let rows : List RefreshSessionModel = engine.refresh_sessions db in
      let (nothing, same) = unmatched d rows (subst (λ t. IsFreshHash t rows) (sym e) f) in
      let (run, users, sessions) =
        laws.update_sessions-admitted (is_expected d) (replaced d) db
          (rw same c.sessions_consistent) in
      (rw (run, nothing), rw (run, nothing) users, rw (run, nothing) (sessions ∙ same))

  late_ones :
      (ds : List ReplaceRefreshSessionTokenDto) (db : Db)
      → IsConsistent engine db
      → IsFreshHash h (engine.refresh_sessions db)
      → All (λ d. d.expected_refresh_token_hash ≡ h) ds
      → ((contend engine ds db).0 ≡ map (λ _. ok none) ds)
        × (engine.users (contend engine ds db).1 ≡ engine.users db)
        × (engine.refresh_sessions (contend engine ds db).1 ≡ engine.refresh_sessions db)
  unfolding contend
  late_ones [] db c f e = (refl, refl, refl)
  late_ones (d ∷ ds) db c f e =
      let (returned, users, sessions) = late d db c f e.0 in
      let after : Db = (replace_token_hash engine d db).1 in
      let (others, users', sessions') =
        late_ones ds after (IsConsistent-same engine db after users sessions c) (rw sessions f)
          e.1 in
      (rw (returned, others), users' ∙ users, sessions' ∙ sessions)

  -- On a relational database with consistent tables: if several rotations have read the session `m` of
  -- one token, and their updates reach the database one after another, the first with a new hash, then
  -- the first rotates the session, every other one returns `None`, whatever hash and counter it would
  -- have stored, and the tables stay as the first one left them.
  pub contend_lem :
      (m : RefreshSessionModel) (d : ReplaceRefreshSessionTokenDto)
      (ds : List ReplaceRefreshSessionTokenDto) (db : Db)
      → IsConsistent engine db
      → HasHash h m (engine.refresh_sessions db)
      → d.session_id ≡ m.id
      → IsFreshHash d.refresh_token_hash (engine.refresh_sessions db)
      → All (λ d. d.expected_refresh_token_hash ≡ h) (d ∷ ds)
      → (u : UserModel) × ((contend engine (d ∷ ds) db).0
          ≡ ok (some (refresh_session_from_model (replaced d m) (user_from_model u)))
            ∷ map (λ _. ok none) ds)
        × (engine.users (contend engine (d ∷ ds) db).1 ≡ engine.users db)
        × (engine.refresh_sessions (contend engine (d ∷ ds) db).1
            ≡ update_where (is_expected d) (replaced d) (engine.refresh_sessions db))
  unfolding contend
  contend_lem m d ds db c found own fresh same =
      let (u, owned) = owner-HasKey engine laws db h m c found in
      let here : HasHash d.expected_refresh_token_hash m (engine.refresh_sessions db) =
        subst (λ t. HasHash t m (engine.refresh_sessions db)) (sym same.0) found in
      let run = replace_token_hash-some engine laws db d c fresh m u own here owned in
      let (users, sessions) = updated_rows engine laws db d c fresh in
      let gone =
        IsFreshHash-rotated_rows_old d m (engine.refresh_sessions db) own
          (IsFreshHash-ne d.refresh_token_hash d.expected_refresh_token_hash m
            (engine.refresh_sessions db) fresh here)
          here in
      let (others, users', sessions') =
        late_ones ds (updated engine db d) (updated-IsConsistent engine laws db d c fresh)
          (rw sessions (
            subst
              (λ t.
                IsFreshHash t
                  (update_where (is_expected d) (replaced d) (engine.refresh_sessions db)))
              same.0 gone))
          same.1 in
      (u, rw (run, others), rw run (users' ∙ users), rw run (sessions' ∙ sessions))
