-- ===== src/UserRepository/Preservation.antt =====
-- The methods of the user repository keep the invariant of the tables.
use fastdjango.Base.{List}
use fastdjango.Engine.Guarded.{IsGuarded, IsPlain, IsGuarded-insert_user}
use fastdjango.Base.{
  ◌≡◌, sym, ap, true, Bool, none, some, ◌==◌, int_eq, All-weaken, Text, inl, inr, arith,
}
use fastdjango.Base.Int.{ℤ}
use fastdjango.Outcome.{ok, Outcome-cases}
use fastdjango.Outcome.Preserves.{Preserves, Preserves-read, Preserves-bind, Preserves-pure}
use fastdjango.Model.{UserModel, PersistUserDto}
use fastdjango.Platform.{Platform}
use fastdjango.Engine.{Engine, IsRelational, KeepsUserKeys}
use fastdjango.Engine.Queries.{IsConsistent}
use fastdjango.Engine.Consistency.{users-AtMostOne_key}
use fastdjango.Engine.Preservation.{only_match}
use fastdjango.Engine.Statements.{IsConsistent-write_user}
use fastdjango.UserRepository.{
  get_by_id, get_active_by_id, get_by_username, get_by_username_or_email, create, set_access_flags,
  new_user_model, select_one, write_flags,
}

module _ {Db : Type 0} (engine : Engine Db) (old : List UserModel) where
  select_one-Preserves :
      (p : UserModel → Bool) → Preserves (IsGuarded engine old) (select_one engine p)
  unfolding select_one
  select_one-Preserves p = Preserves-bind _ _ (Preserves-read _) (λ model. Preserves-pure _)

  pub get_by_id-Preserves : (id : ℤ) → Preserves (IsGuarded engine old) (get_by_id engine id)
  unfolding get_by_id
  get_by_id-Preserves id = Preserves-bind _ _ (Preserves-read _) (λ model. Preserves-pure _)

  pub get_active_by_id-Preserves :
      (id : ℤ) → Preserves (IsGuarded engine old) (get_active_by_id engine id)
  unfolding get_active_by_id
  get_active_by_id-Preserves id = select_one-Preserves _

  pub get_by_username-Preserves :
      (username : Text) → Preserves (IsGuarded engine old) (get_by_username engine username)
  unfolding get_by_username
  get_by_username-Preserves username = select_one-Preserves _

  pub get_by_username_or_email-Preserves :
      (username email : Text)
      → Preserves (IsGuarded engine old) (get_by_username_or_email engine username email)
  unfolding get_by_username_or_email
  get_by_username_or_email-Preserves username email = Preserves-read _

module _ {Db : Type 0} (engine : Engine Db) (old : List UserModel)
    (laws : IsRelational engine) where
  -- A row without privileges is added.
  pub create-Preserves :
      (platform : Platform) (d : PersistUserDto) (password_hash : Text)
      → IsPlain (new_user_model d password_hash)
      → Preserves (IsGuarded engine old) (create engine platform d password_hash)
  unfolding create
  create-Preserves platform d password_hash plain = record {
    holds_after =
        λ db g. IsGuarded-insert_user engine old laws db g (new_user_model d password_hash) plain;
  }

module _ {Db : Type 0} (engine : Engine Db) (laws : IsRelational engine) where
  -- The row that a key finds is the only one with its key.
  found_user :
      (user_id : ℤ) (m : UserModel) (db : Db)
      → IsConsistent engine db
      → engine.get_user user_id db ≡ ok (some m)
      → KeepsUserKeys m (engine.users db)
  found_user user_id m db c found =
      let (key, only) =
        only_match (λ u. u.id == user_id) (engine.users db) m
          (users-AtMostOne_key (engine.users db) user_id c.users_consistent)
          (sym (laws.get_user-found user_id db (some m) found)) in
      All-weaken (λ r. (r.id == user_id) ≡ true → r ≡ m)
        (λ r. r.id ≡ m.id → (r.username ≡ m.username) × (r.email ≡ m.email)) (engine.users db)
        (λ r same id.
          let e : r ≡ m = same (ground (arith, ap (λ k. k == user_id) id)) in
          (ap (λ r. r.username) e, ap (λ r. r.email) e))
        only

  -- A row that was found by its key is written back with its names.
  pub set_access_flags-Preserves :
      (user_id : ℤ) (is_staff is_superuser : Bool)
      → Preserves (IsConsistent engine) (set_access_flags engine user_id is_staff is_superuser)
  unfolding set_access_flags write_flags
  set_access_flags-Preserves user_id is_staff is_superuser = record {
    holds_after = λ db c. elim (Outcome-cases (engine.get_user user_id db)) [
      | inr (e, raised) ↦ rw raised c
      | inl (none, out) ↦ rw out c
      | inl (some m, found) ↦
          let keys = found_user user_id m db c found in
          let row : UserModel = record m { is_staff = is_staff; is_superuser = is_superuser } in
          let (run, _, _) = laws.write_user_lem row db keys in
          rw (found, run) (IsConsistent-write_user engine laws db c row keys)
    ];
  }
