-- ===== src/Engine/Queries.antt =====
-- The queries of the repositories on a consistent database, as searches in the rows.
use mathlib.Core.List.{Permᴰ}
use mathlib.Core.List.Permᴰ
use fastdjango.Base.{
  ◌≡◌, refl, Bool, true, List, [], ◌∷◌, some, any, keep, any-false, AtMostOne, inl, inr, arith,
}
use fastdjango.Outcome.{ok}
use fastdjango.Model.{UserModel, RefreshSessionModel}
use fastdjango.Engine.{
  Engine, IsRelational, consistent_users, consistent_sessions, first, Permᴰ-nil, Permᴰ-singleton,
}
use fastdjango.UserRepository.{scalar_one_or_none}

-- Both tables meet their constraints.
pub record IsConsistent {Db : Type 0} (engine : Engine Db) (db : Db) : Type 0 where
  pub users_consistent : consistent_users (engine.users db) ≡ true
  pub sessions_consistent :
      consistent_sessions (engine.users db) (engine.refresh_sessions db) ≡ true

-- A result set that holds one row at most is read as that row.
scalar-Permᴰ {ℓ} :
    {A : Type ℓ} (p : A → Bool) (xs found : List A)
    → Permᴰ found (keep p xs)
    → AtMostOne p xs
    → scalar_one_or_none found ≡ ok (first (keep p xs))
scalar-Permᴰ p xs found h (inl e) = rw (Permᴰ-nil h e, e)
scalar-Permᴰ p xs found h (inr (x, e)) = rw (Permᴰ-singleton h x e, e)

module _ {Db : Type 0} (engine : Engine Db) (laws : IsRelational engine) (db : Db) where
  pub scalar-select_users :
      (p : UserModel → Bool)
      → AtMostOne p (engine.users db)
      → scalar_one_or_none (engine.select_users p db) ≡ ok (first (keep p (engine.users db)))
  scalar-select_users p = scalar-Permᴰ p _ _ (laws.select_users_lem p db)

  pub scalar-select_sessions :
      (p : RefreshSessionModel → Bool)
      → AtMostOne p (engine.refresh_sessions db)
      → scalar_one_or_none (engine.select_sessions p db)
        ≡ ok (first (keep p (engine.refresh_sessions db)))
  scalar-select_sessions p = scalar-Permᴰ p _ _ (laws.select_sessions_lem p db)

  pub select_users-one :
      (p : UserModel → Bool) (u : UserModel)
      → keep p (engine.users db) ≡ u ∷ []
      → engine.select_users p db ≡ u ∷ []
  select_users-one p u = Permᴰ-singleton (laws.select_users_lem p db) u

  pub select_users-nil :
      (p : UserModel → Bool) → keep p (engine.users db) ≡ [] → engine.select_users p db ≡ []
  select_users-nil p = Permᴰ-nil (laws.select_users_lem p db)

  pub select_sessions-one :
      (p : RefreshSessionModel → Bool) (m : RefreshSessionModel)
      → keep p (engine.refresh_sessions db) ≡ m ∷ []
      → engine.select_sessions p db ≡ m ∷ []
  select_sessions-one p m = Permᴰ-singleton (laws.select_sessions_lem p db) m

  -- A query that some row meets has a first row.
  pub select_users-first :
      (p : UserModel → Bool)
      → any p (engine.users db) ≡ true
      → (u : UserModel) × (first (engine.select_users p db) ≡ some u)
  select_users-first p h = go (engine.select_users p db) (laws.select_users_lem p db)
    where
      go :
          (found : List UserModel)
          → Permᴰ found (keep p (engine.users db))
          → (u : UserModel) × (first found ≡ some u)
      go (u ∷ rest) r = (u, refl)
      go [] r = ground (arith, any-false p (engine.users db) (Permᴰ-nil (Permᴰ.symm r) refl))
