-- ===== src/SessionRepository/Lookup.antt =====
-- `get_by_token_hash` is a search in the table of sessions, with the owner of what it finds.
use fastdjango.Base.{
  ◌≡◌, true, false, List, [], ◌∷◌, none, some, Text, ◌==◌, nat_eq, text_eq, int_eq, any, keep,
  keep-nil, keep-All, any-false, AtMostOne, inl, inr, arith,
}
use fastdjango.Base.Int.{ℤ}
use fastdjango.Outcome.{ok}
use fastdjango.Model.{UserModel, RefreshSessionModel}
use fastdjango.Engine.{Engine, IsRelational}
use fastdjango.Engine.Consistency.{sessions-owned, users-AtMostOne_key}
use fastdjango.Engine.Queries.{IsConsistent, scalar-select_sessions, select_users-one}
use fastdjango.UserRepository.{user_from_model}
use fastdjango.SessionRepository.{refresh_session_from_model, load_session, get_by_token_hash}

-- `m` is the one row with this hash.
abbrev pub HasHash : Text → RefreshSessionModel → List RefreshSessionModel → Type 0
HasHash h m rows = keep (λ r. r.refresh_token_hash == h) rows ≡ m ∷ []

-- `u` is the one row with this key.
abbrev pub HasKey : ℤ → UserModel → List UserModel → Type 0
HasKey id u rows = keep (λ r. r.id == id) rows ≡ u ∷ []

-- A key that some row has is the key of one row.
pub any-HasKey :
    (id : ℤ) (rows : List UserModel)
    → AtMostOne (λ r. r.id == id) rows
    → any (λ r. r.id == id) rows ≡ true
    → (u : UserModel) × HasKey id u rows
any-HasKey id rows (inl e) h = ground (arith, any-false (λ r. r.id == id) rows e)
any-HasKey id rows (inr found) h = found

module _ {Db : Type 0} (engine : Engine Db) (laws : IsRelational engine) (db : Db) where
  pub owner-HasKey :
      (h : Text) (m : RefreshSessionModel)
      → IsConsistent engine db
      → HasHash h m (engine.refresh_sessions db)
      → (u : UserModel) × HasKey m.user_id u (engine.users db)
  owner-HasKey h m c e =
      any-HasKey m.user_id (engine.users db)
        (users-AtMostOne_key (engine.users db) m.user_id c.users_consistent)
        (keep-All (λ r. any (λ u. u.id == r.user_id) (engine.users db) ≡ true)
          (λ r. r.refresh_token_hash == h) (engine.refresh_sessions db) m
          (sessions-owned (engine.users db) (engine.refresh_sessions db) c.sessions_consistent) e)

  pub load_session_lem :
      (m : RefreshSessionModel) (u : UserModel)
      → HasKey m.user_id u (engine.users db)
      → load_session engine m db ≡ (ok (refresh_session_from_model m (user_from_model u)), db)
  unfolding load_session
  load_session_lem m u e = rw (select_users-one engine laws db (λ r. r.id == m.user_id) u e)

  pub get_by_token_hash-none :
      (h : Text)
      → any (λ r. r.refresh_token_hash == h) (engine.refresh_sessions db) ≡ false
      → get_by_token_hash engine h db ≡ (ok none, db)
  unfolding get_by_token_hash
  get_by_token_hash-none h absent =
      let nothing = keep-nil (λ r. r.refresh_token_hash == h) (engine.refresh_sessions db) absent in
      rw (
        scalar-select_sessions engine laws db (λ r. r.refresh_token_hash == h) (inl nothing),
        nothing,
      )

  pub get_by_token_hash-some :
      (h : Text) (m : RefreshSessionModel) (u : UserModel)
      → HasHash h m (engine.refresh_sessions db)
      → HasKey m.user_id u (engine.users db)
      → get_by_token_hash engine h db
        ≡ (ok (some (refresh_session_from_model m (user_from_model u))), db)
  unfolding get_by_token_hash
  get_by_token_hash-some h m u found owned = rw (
    scalar-select_sessions engine laws db (λ r. r.refresh_token_hash == h) (inr (m, found)),
    found,
    select_users-one engine laws db (λ r. r.id == m.user_id) u owned,
  )
