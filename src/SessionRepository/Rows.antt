-- ===== src/SessionRepository/Rows.antt =====
-- What the update of a rotation does to the rows of `refresh_sessions`.
use fastdjango.Base.{
  ◌≡◌, ◌≢◌, refl, true, false, List, [], ◌∷◌, map, Text, ◌==◌, eq_iff, eq_refl, nat_eq, text_eq,
  int_eq, any, keep, keep-nil, any-false, any-true, any-weaken, inl, inr, Bool-cases, arith,
  if◌then◌else◌,
}
use mathlib.Core.Path.{subst}
use fastdjango.Model.{UserModel, RefreshSessionModel, ReplaceRefreshSessionTokenDto}
use fastdjango.Engine.{consistent_sessions, update_where}
use fastdjango.Engine.Consistency.{same_session}
use fastdjango.SessionRepository.{is_expected, replaced}
use fastdjango.SessionRepository.Lookup.{HasHash}

-- No row has this hash.
abbrev pub IsFreshHash : Text → List RefreshSessionModel → Type 0
IsFreshHash h rows = any (λ r. r.refresh_token_hash == h) rows ≡ false

-- A fresh hash is no stored one.
pub IsFreshHash-ne :
    (new old : Text) (m : RefreshSessionModel) (rows : List RefreshSessionModel)
    → IsFreshHash new rows
    → HasHash old m rows
    → new ≢ old
IsFreshHash-ne new old m rows f h same =
    cc
      (any-true (λ r. r.refresh_token_hash == old) rows m h, subst (λ t. IsFreshHash t rows) same f)

module _ (d : ReplaceRefreshSessionTokenDto) where
  abbrev pub rotated_rows : List RefreshSessionModel → List RefreshSessionModel
  rotated_rows rows = update_where (is_expected d) (replaced d) rows

  -- The row that the update is meant for is the only one that it matches.
  pub keep-is_expected :
      (m : RefreshSessionModel) (rows : List RefreshSessionModel)
      → d.session_id ≡ m.id
      → HasHash d.expected_refresh_token_hash m rows
      → keep (is_expected d) rows ≡ m ∷ []
  unfolding is_expected
  keep-is_expected m [] e h = h
  keep-is_expected m (x ∷ xs) e h =
      elim (Bool-cases (x.refresh_token_hash == d.expected_refresh_token_hash)) [
        | inl t ↦
            let alone : keep (λ r. r.refresh_token_hash == d.expected_refresh_token_hash) xs ≡ [] =
              ground arith in
            let rest =
              any-weaken (is_expected d)
                (λ r. r.refresh_token_hash == d.expected_refresh_token_hash) xs
                (λ r p. ground arith)
                (any-false (λ r. r.refresh_token_hash == d.expected_refresh_token_hash) xs alone) in
            let same : x ≡ m = ground arith in
            ground (arith, keep-nil (is_expected d) xs rest, eq_iff x.id d.session_id)
        | inr t ↦ ground (arith, keep-is_expected m xs)
      ]

  -- With a new hash, the rows with that hash after the update are the ones that were updated.
  pub keep-rotated_rows_new :
      (rows : List RefreshSessionModel)
      → IsFreshHash d.refresh_token_hash rows
      → keep (λ r. r.refresh_token_hash == d.refresh_token_hash) (rotated_rows rows)
        ≡ map (replaced d) (keep (is_expected d) rows)
  unfolding replaced
  keep-rotated_rows_new [] h = refl
  keep-rotated_rows_new (x ∷ xs) h =
      ground (arith, keep-rotated_rows_new xs, eq_refl d.refresh_token_hash)

  -- A hash that is neither stored nor the new one is not stored after the update.
  pub IsFreshHash-rotated_rows :
      (h : Text) (rows : List RefreshSessionModel)
      → d.refresh_token_hash ≢ h
      → IsFreshHash h rows
      → IsFreshHash h (rotated_rows rows)
  unfolding replaced
  IsFreshHash-rotated_rows h [] n f = refl
  IsFreshHash-rotated_rows h (x ∷ xs) n f =
      ground (arith, IsFreshHash-rotated_rows h xs n, eq_iff d.refresh_token_hash h)

  pub IsFreshHash-rotated_rows_old :
      (m : RefreshSessionModel) (rows : List RefreshSessionModel)
      → d.session_id ≡ m.id
      → d.refresh_token_hash ≢ d.expected_refresh_token_hash
      → HasHash d.expected_refresh_token_hash m rows
      → IsFreshHash d.expected_refresh_token_hash (rotated_rows rows)
  unfolding replaced is_expected
  IsFreshHash-rotated_rows_old m [] e n h = refl
  IsFreshHash-rotated_rows_old m (x ∷ xs) e n h = ground (
    arith,
    IsFreshHash-rotated_rows_old m xs,
    any-false (λ r. r.refresh_token_hash == d.expected_refresh_token_hash) xs,
    IsFreshHash-rotated_rows d.expected_refresh_token_hash xs n,
    eq_iff x.id d.session_id,
    eq_iff d.refresh_token_hash d.expected_refresh_token_hash,
  )

  separate-rotated_rows :
      (x : RefreshSessionModel) (rows : List RefreshSessionModel)
      → any (same_session x) rows ≡ false
      → (x.refresh_token_hash == d.refresh_token_hash) ≡ false
      → IsFreshHash d.refresh_token_hash rows
      → any (same_session (if is_expected d x then replaced d x else x)) (rotated_rows rows) ≡ false
  unfolding replaced is_expected
  separate-rotated_rows x [] s f h = refl
  separate-rotated_rows x (y ∷ ys) s f h = ground (
    arith,
    separate-rotated_rows x ys,
    eq_iff x.id d.session_id,
    eq_iff y.id d.session_id,
    eq_iff y.id x.id,
    eq_iff x.refresh_token_hash d.refresh_token_hash,
    eq_iff d.refresh_token_hash x.refresh_token_hash,
  )

  -- Rotation to a new hash keeps the table consistent.
  pub consistent_sessions-rotated_rows :
      (owners : List UserModel) (rows : List RefreshSessionModel)
      → IsFreshHash d.refresh_token_hash rows
      → consistent_sessions owners rows ≡ true
      → consistent_sessions owners (rotated_rows rows) ≡ true
  unfolding consistent_sessions replaced is_expected
  consistent_sessions-rotated_rows owners [] f c = refl
  consistent_sessions-rotated_rows owners (x ∷ xs) f c =
      ground (arith, separate-rotated_rows x xs, consistent_sessions-rotated_rows owners xs)
