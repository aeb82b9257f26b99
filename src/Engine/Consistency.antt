-- ===== src/Engine/Consistency.antt =====
-- What a consistent table determines: a key, a user name and a token hash each belong to one row at
-- most, and every session has its owner.
use fastdjango.Base.{
  ℕ, ◌≡◌, Bool, true, ◌&&◌, ◌||◌, List, [], ◌∷◌, Text, ◌==◌, eq_iff, nat_eq, text_eq, int_eq, any,
  AtMostOne, Separate, AtMostOne-Separate, All, arith,
}
use fastdjango.Base.Int.{ℤ}
use fastdjango.Model.{UserModel, RefreshSessionModel}
use fastdjango.Engine.{consistent_users, consistent_sessions}

abbrev pub same_session : RefreshSessionModel → RefreshSessionModel → Bool
same_session m r = r.id == m.id || r.refresh_token_hash == m.refresh_token_hash

abbrev pub same_account : UserModel → UserModel → Bool
same_account m r = r.username == m.username || r.email == m.email

abbrev pub same_key : UserModel → UserModel → Bool
same_key m r = r.id == m.id

pub sessions-Separate :
    (owners : List UserModel) (rows : List RefreshSessionModel)
    → consistent_sessions owners rows ≡ true
    → Separate same_session rows
unfolding consistent_sessions
sessions-Separate owners [] c = tt
sessions-Separate owners (m ∷ rows) c = (ground arith, sessions-Separate owners rows (ground arith))

-- Every session belongs to a row of `users`.
pub sessions-owned :
    (owners : List UserModel) (rows : List RefreshSessionModel)
    → consistent_sessions owners rows ≡ true
    → All (λ m. any (λ u. u.id == m.user_id) owners ≡ true) rows
unfolding consistent_sessions
sessions-owned owners [] c = tt
sessions-owned owners (m ∷ rows) c = (ground arith, sessions-owned owners rows (ground arith))

pub users-Separate :
    (rows : List UserModel)
    → consistent_users rows ≡ true
    → Separate same_key rows × Separate same_account rows
unfolding consistent_users
users-Separate [] c = (tt, tt)
users-Separate (m ∷ rows) c =
    let rest = users-Separate rows (ground arith) in
    ((ground arith, rest.0), (ground arith, rest.1))

pub sessions-AtMostOne_hash :
    (owners : List UserModel) (rows : List RefreshSessionModel) (h : Text)
    → consistent_sessions owners rows ≡ true
    → AtMostOne (λ m. m.refresh_token_hash == h) rows
sessions-AtMostOne_hash owners rows h c =
    AtMostOne-Separate (λ m. m.refresh_token_hash == h) same_session rows
      (λ x y p q. ground (
        arith,
        eq_iff x.refresh_token_hash h,
        eq_iff y.refresh_token_hash h,
        eq_iff y.refresh_token_hash x.refresh_token_hash,
      ))
      (sessions-Separate owners rows c)

pub sessions-AtMostOne_id :
    (owners : List UserModel) (rows : List RefreshSessionModel) (id : ℕ)
    → consistent_sessions owners rows ≡ true
    → AtMostOne (λ m. m.id == id) rows
sessions-AtMostOne_id owners rows id c =
    AtMostOne-Separate (λ m. m.id == id) same_session rows
      (λ x y p q. ground (arith, eq_iff x.id id, eq_iff y.id id, eq_iff y.id x.id))
      (sessions-Separate owners rows c)

pub users-AtMostOne_active :
    (rows : List UserModel) (id : ℤ)
    → consistent_users rows ≡ true
    → AtMostOne (λ m. m.id == id && m.is_active) rows
users-AtMostOne_active rows id c =
    AtMostOne-Separate (λ m. m.id == id && m.is_active) same_key rows
      (λ x y p q. ground (arith, eq_iff x.id id, eq_iff y.id id, eq_iff y.id x.id))
      (users-Separate rows c).0

pub users-AtMostOne_key :
    (rows : List UserModel) (id : ℤ)
    → consistent_users rows ≡ true
    → AtMostOne (λ m. m.id == id) rows
users-AtMostOne_key rows id c =
    AtMostOne-Separate (λ m. m.id == id) same_key rows
      (λ x y p q. ground (arith, eq_iff x.id id, eq_iff y.id id, eq_iff y.id x.id))
      (users-Separate rows c).0

pub users-AtMostOne_username :
    (rows : List UserModel) (name : Text)
    → consistent_users rows ≡ true
    → AtMostOne (λ m. m.username == name) rows
users-AtMostOne_username rows name c =
    AtMostOne-Separate (λ m. m.username == name) same_account rows
      (λ x y p q.
        ground
          (arith, eq_iff x.username name, eq_iff y.username name, eq_iff y.username x.username))
      (users-Separate rows c).1
