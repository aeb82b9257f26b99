-- ===== src/SessionRepository/Revocation.antt =====
-- `revoke` writes one row: the session keeps its hash and its owner, and is revoked.
use fastdjango.Base.{
  ◌≡◌, refl, sym, ◌∙◌, ap, AtMostOne, keep-passes, keep-nil, true, false, List, [], ◌∷◌, some, Text,
  ◌==◌, eq_iff, eq_refl, nat_eq, text_eq, int_eq, any, keep, keep-All, any-false, any-All,
  All-weaken, All, Separate, Bool-cases, inl, inr, arith,
}
use fastdjango.Outcome.{ok}
use fastdjango.Model.{RefreshSessionModel, DateTime}
use fastdjango.Engine.{Engine, IsRelational, update_where, KeepsSessionKeys}
use fastdjango.Engine.Consistency.{same_session, sessions-Separate, sessions-AtMostOne_id}
use fastdjango.Engine.Queries.{IsConsistent, scalar-select_sessions}
use fastdjango.SessionRepository.{revoke}
use fastdjango.SessionRepository.Lookup.{HasHash}

-- The row after its revocation, and the table.
abbrev pub revoked : DateTime → RefreshSessionModel → RefreshSessionModel
revoked at m = record m { revoked_at = some at }

abbrev pub revoked_rows :
    DateTime → RefreshSessionModel → List RefreshSessionModel → List RefreshSessionModel
revoked_rows at m rows = update_where (λ r. r.id == m.id) (λ _. revoked at m) rows

-- The row of a hash is the only one with its key.
pub only_row :
    (h : Text) (m : RefreshSessionModel) (rows : List RefreshSessionModel)
    → Separate same_session rows
    → HasHash h m rows
    → All (λ r. r.id ≡ m.id → r ≡ m) rows
only_row h m [] s e = tt
only_row h m (x ∷ xs) s e = elim (Bool-cases (x.refresh_token_hash == h)) [
  | inl t ↦
      let same : x ≡ m = ground arith in
      (
        λ _. same,
        All-weaken (λ r. same_session x r ≡ false) (λ r. r.id ≡ m.id → r ≡ m) xs
            (λ r apart id. ground (arith, eq_iff r.id x.id, ap (λ r. r.id) same))
            (any-All (same_session x) xs s.0),
      )
  | inr f ↦
      let rest : HasHash h m xs = ground arith in
      let apart : same_session x m ≡ false =
        keep-All (λ r. same_session x r ≡ false) (λ r. r.refresh_token_hash == h) xs m
          (any-All (same_session x) xs s.0) rest in
      (λ id. ground (arith, eq_iff m.id x.id, sym id), only_row h m xs s.1 rest)
]

-- The row of a hash is found by its key.
pub HasHash-id :
    (h : Text) (m : RefreshSessionModel) (rows : List RefreshSessionModel)
    → All (λ r. r.id ≡ m.id → r ≡ m) rows
    → AtMostOne (λ r. r.id == m.id) rows
    → HasHash h m rows
    → keep (λ r. r.id == m.id) rows ≡ m ∷ []
HasHash-id h m rows only (inl nothing) e =
    let absent = any-All (λ r. r.id == m.id) rows (any-false (λ r. r.id == m.id) rows nothing) in
    let gone : (m.id == m.id) ≡ false =
      keep-All (λ r. (r.id == m.id) ≡ false) (λ r. r.refresh_token_hash == h) rows m absent e in
    ground (arith, eq_refl m.id)
HasHash-id h m rows only (inr (x, found)) e =
    let same : x ≡ m =
      keep-All (λ r. r.id ≡ m.id → r ≡ m) (λ r. r.id == m.id) rows x only found
        ((eq_iff x.id m.id).0 (keep-passes (λ r. r.id == m.id) rows x found)) in
    found ∙ ap (λ r. r ∷ []) same

module _ (at : DateTime) (h : Text) (m : RefreshSessionModel) where
  IsFreshHash-revoked_rows :
      (rows : List RefreshSessionModel)
      → All (λ r. r.id ≡ m.id → r ≡ m) rows
      → any (λ r. r.refresh_token_hash == h) rows ≡ false
      → any (λ r. r.refresh_token_hash == h) (revoked_rows at m rows) ≡ false
  IsFreshHash-revoked_rows [] only f = refl
  IsFreshHash-revoked_rows (x ∷ xs) only f = elim (Bool-cases (x.id == m.id)) [
    | inl t ↦
        let same = ap (λ r. r.refresh_token_hash) (only.0 ((eq_iff x.id m.id).0 t)) in
        ground (arith, IsFreshHash-revoked_rows xs only.1, ap (λ t. t == h) same)
    | inr n ↦ ground (arith, IsFreshHash-revoked_rows xs only.1)
  ]

  -- The hash stays with the row.
  pub HasHash-revoked_rows :
      (rows : List RefreshSessionModel)
      → All (λ r. r.id ≡ m.id → r ≡ m) rows
      → HasHash h m rows
      → HasHash h (revoked at m) (revoked_rows at m rows)
  HasHash-revoked_rows [] only e = ground arith
  HasHash-revoked_rows (x ∷ xs) only e =
      let mine = keep-passes (λ r. r.refresh_token_hash == h) (x ∷ xs) m e in
      elim (Bool-cases (x.id == m.id)) [
        | inl t ↦
            let same = ap (λ r. r.refresh_token_hash) (only.0 ((eq_iff x.id m.id).0 t)) in
            let kept : (x.refresh_token_hash == h) ≡ true = ap (λ t. t == h) same ∙ mine in
            let none_left : keep (λ r. r.refresh_token_hash == h) xs ≡ [] = ground arith in
            let fresh =
              keep-nil (λ r. r.refresh_token_hash == h) (revoked_rows at m xs)
                (IsFreshHash-revoked_rows xs only.1
                  (any-false (λ r. r.refresh_token_hash == h) xs none_left)) in
            rw (t, mine, fresh)
        | inr n ↦ elim (Bool-cases (x.refresh_token_hash == h)) [
          | inl t ↦
              let same : x ≡ m = ground arith in
              ground (arith, ap (λ r. r.id == m.id) same, eq_refl m.id)
          | inr f ↦ rw (n, f) (HasHash-revoked_rows xs only.1 (ground arith))
        ]
      ]

  -- The row is written as it is asked for, since no other row has its key.
  pub KeepsSessionKeys-revoked :
      (rows : List RefreshSessionModel)
      → All (λ r. r.id ≡ m.id → r ≡ m) rows
      → KeepsSessionKeys (revoked at m) rows
  KeepsSessionKeys-revoked rows only =
      All-weaken (λ r. r.id ≡ m.id → r ≡ m)
        (λ r. r.id ≡ m.id → (r.refresh_token_hash ≡ m.refresh_token_hash) × (r.user_id ≡ m.user_id))
        rows
        (λ r same id. (ap (λ r. r.refresh_token_hash) (same id), ap (λ r. r.user_id) (same id)))
        only

module _ {Db : Type 0} (engine : Engine Db) (laws : IsRelational engine) (db : Db) (h : Text)
    (m : RefreshSessionModel) (at : DateTime) (c : IsConsistent engine db)
    (found : HasHash h m (engine.refresh_sessions db)) where
  abbrev rows : List RefreshSessionModel
  rows = engine.refresh_sessions db

  only : All (λ r. r.id ≡ m.id → r ≡ m) rows
  only = only_row h m rows (sessions-Separate (engine.users db) rows c.sessions_consistent) found

  unique : AtMostOne (λ r. r.id == m.id) rows
  unique = sessions-AtMostOne_id (engine.users db) rows m.id c.sessions_consistent

  pub revoke_lem :
      (revoke engine m.id at db ≡ (ok tt, (engine.write_session (revoked at m) db).1))
      × (engine.users (engine.write_session (revoked at m) db).1 ≡ engine.users db)
      × (engine.refresh_sessions (engine.write_session (revoked at m) db).1
          ≡ revoked_rows at m rows)
      × HasHash h
          (revoked at m)
          (engine.refresh_sessions (engine.write_session (revoked at m) db).1)
  unfolding revoke
  revoke_lem =
      let (written, users, sessions) =
        laws.write_session_lem (revoked at m) db (KeepsSessionKeys-revoked at h m rows only) in
      (
        rw
            (
              scalar-select_sessions engine laws db (λ r. r.id == m.id) unique,
              HasHash-id h m rows only unique found,
            )
            (ap (λ r. (r, (engine.write_session (revoked at m) db).1)) written),
        users,
        sessions,
        rw sessions (HasHash-revoked_rows at h m rows only found),
      )
