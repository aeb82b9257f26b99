-- ===== src/Engine/Preservation.antt =====
-- Every statement leaves consistent tables, whether the database carries it out or refuses it.
use fastdjango.Base.{
  ◌≡◌, refl, ap, Bool, true, false, List, [], ◌∷◌, ◌==◌, eq_iff, nat_eq, text_eq, int_eq, any, keep,
  All, All-weaken, AtMostOne, keep-passes, some, any-All, any-false, Bool-cases, inl, inr, arith,
}
use fastdjango.Base.Int.{ℤ}
use fastdjango.Model.{UserModel, RefreshSessionModel}
use fastdjango.Engine.{
  admits_user, admits_session, consistent_users, consistent_sessions, update_where, KeepsUserKeys,
  KeepsSessionKeys, first,
}
use fastdjango.Engine.Consistency.{same_session, same_account}

-- Sessions keep their owners when a user is added.
pub more_owners :
    (u : UserModel) (owners : List UserModel) (rows : List RefreshSessionModel)
    → consistent_sessions owners rows ≡ true
    → consistent_sessions (u ∷ owners) rows ≡ true
unfolding consistent_sessions admits_session
more_owners u owners [] c = refl
more_owners u owners (m ∷ rows) c = ground (arith, more_owners u owners rows)

-- A user with a new key, name and address keeps the table of users consistent.
pub added_users :
    (id : ℤ) (m : UserModel) (rows : List UserModel)
    → admits_user m rows ≡ true
    → any (λ r. r.id == id) rows ≡ false
    → consistent_users rows ≡ true
    → consistent_users (record m { id = id } ∷ rows) ≡ true
unfolding consistent_users admits_user
added_users id m rows a f c = ground arith

-- Sessions with the same keys conflict with the same rows.
any-same_keys :
    (x y : RefreshSessionModel) (rows : List RefreshSessionModel)
    → x.id ≡ y.id
    → x.refresh_token_hash ≡ y.refresh_token_hash
    → any (same_session x) rows ≡ any (same_session y) rows
any-same_keys x y rows i h = rw (i, h)

-- Accounts with the same name and address conflict with the same rows.
any-same_names :
    (x y : UserModel) (rows : List UserModel)
    → x.username ≡ y.username
    → x.email ≡ y.email
    → any (same_account x) rows ≡ any (same_account y) rows
any-same_names x y rows i h = rw (i, h)

module _ (m : RefreshSessionModel) where
  write_row : List RefreshSessionModel → List RefreshSessionModel
  write_row rows = update_where (λ r. r.id == m.id) (λ _. m) rows

  -- A write that keeps the keys is seen by no search for a key.
  any-write_row :
      (x : RefreshSessionModel) (rows : List RefreshSessionModel)
      → KeepsSessionKeys m rows
      → any (same_session x) (write_row rows) ≡ any (same_session x) rows
  unfolding write_row
  any-write_row x [] k = refl
  any-write_row x (r ∷ rows) k = ground (
    arith,
    any-write_row x rows,
    eq_iff r.id m.id,
    eq_iff x.id r.id,
    eq_iff x.id m.id,
    eq_iff m.id x.id,
    eq_iff r.id x.id,
  )

  pub written_sessions :
      (owners : List UserModel) (rows : List RefreshSessionModel)
      → KeepsSessionKeys m rows
      → consistent_sessions owners rows ≡ true
      → consistent_sessions owners (update_where (λ r. r.id == m.id) (λ _. m) rows) ≡ true
  unfolding consistent_sessions admits_session write_row
  written_sessions owners [] k c = refl
  written_sessions owners (r ∷ rows) k c = elim (Bool-cases (r.id == m.id)) [
    | inl e ↦
        let id : r.id ≡ m.id = ground (arith, eq_iff r.id m.id) in
        let same = any-write_row r rows k.1 in
        let seen = any-same_keys r m (write_row rows) id (k.0 id).0 in
        let owned = ap (λ key. any (λ u. u.id == key) owners) (k.0 id).1 in
        ground (arith, written_sessions owners rows k.1)
    | inr e ↦ ground (arith, written_sessions owners rows k.1, any-write_row r rows k.1)
  ]

module _ (m : UserModel) where
  write_user_row : List UserModel → List UserModel
  write_user_row rows = update_where (λ r. r.id == m.id) (λ _. m) rows

  -- A write that keeps the keys is seen by no search for a key, a name or an address.
  any-write_key :
      (id : ℤ) (rows : List UserModel)
      → any (λ r. r.id == id) (write_user_row rows) ≡ any (λ r. r.id == id) rows
  unfolding write_user_row
  any-write_key id [] = refl
  any-write_key id (r ∷ rows) = ground (arith, any-write_key id rows, eq_iff r.id m.id)

  any-write_names :
      (x : UserModel) (rows : List UserModel)
      → KeepsUserKeys m rows
      → any (same_account x) (write_user_row rows) ≡ any (same_account x) rows
  unfolding write_user_row
  any-write_names x [] k = refl
  any-write_names x (r ∷ rows) k = ground (arith, any-write_names x rows, eq_iff r.id m.id)

  pub written_users :
      (rows : List UserModel)
      → KeepsUserKeys m rows
      → consistent_users rows ≡ true
      → consistent_users (update_where (λ r. r.id == m.id) (λ _. m) rows) ≡ true
  unfolding consistent_users admits_user write_user_row
  written_users [] k c = refl
  written_users (r ∷ rows) k c = elim (Bool-cases (r.id == m.id)) [
    | inl e ↦
        let id : r.id ≡ m.id = ground (arith, eq_iff r.id m.id) in
        let same = any-write_names r rows k.1 in
        let key = any-write_key r.id rows in
        let seen = any-same_names r m (write_user_row rows) (k.0 id).0 (k.0 id).1 in
        let found = ap (λ key. any (λ u. u.id == key) (write_user_row rows)) id in
        ground (arith, written_users rows k.1)
    | inr e ↦
        ground (arith, written_users rows k.1, any-write_names r rows k.1, any-write_key r.id rows)
  ]

  -- Sessions keep their owners when a user is written.
  pub written_owners :
      (owners : List UserModel) (rows : List RefreshSessionModel)
      → consistent_sessions owners rows ≡ true
      → consistent_sessions (update_where (λ r. r.id == m.id) (λ _. m) owners) rows ≡ true
  unfolding consistent_sessions admits_session write_user_row
  written_owners owners [] c = refl
  written_owners owners (s ∷ rows) c =
      ground (arith, written_owners owners rows, any-write_key s.user_id owners)

-- The row that a query for a key found is the only one with its key.
keys_of_one {ℓ} :
    {A : Type ℓ} (p : A → Bool) (rows : List A) (x : A)
    → keep p rows ≡ x ∷ []
    → All (λ r. p r ≡ true → r ≡ x) rows
keys_of_one p [] x e = tt
keys_of_one p (r ∷ rows) x e = elim (Bool-cases (p r)) [
  | inl h ↦ (
    λ _. ground arith,
    All-weaken (λ r. p r ≡ false) (λ r. p r ≡ true → r ≡ x) rows (λ r no. ground arith)
        (any-All p rows (any-false p rows (ground arith))),
  )
  | inr h ↦ (ground arith, keys_of_one p rows x (ground arith))
]

-- Where one row at most can match, the first row of a query is the only one that matches.
pub only_match {ℓ} :
    {A : Type ℓ} (p : A → Bool) (rows : List A) (x : A)
    → AtMostOne p rows
    → first (keep p rows) ≡ some x
    → (p x ≡ true) × All (λ r. p r ≡ true → r ≡ x) rows
only_match p rows x (inl e) h = ground arith
only_match p rows x (inr (y, e)) h =
    let same : y ≡ x = ground arith in
    let one : keep p rows ≡ x ∷ [] = ground arith in
    (keep-passes p rows x one, keys_of_one p rows x one)
