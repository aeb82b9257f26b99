-- ===== src/UseCases/Onboarding.antt =====
-- Who registers can log in.
use mathlib.Core.Path.{subst}
use fastdjango.Base.{
  ◌≡◌, refl, ap, sym, true, false, Option-cases, keep-nil, any-weaken, keep, inl, inr, some, none,
  ◌∷◌, [], ◌==◌, text_eq, int_eq, eq_refl, arith, List, ℕ,
}
use fastdjango.Outcome.{ok}
use fastdjango.Model.{User, UserModel, RegisterUserDto}
use fastdjango.Platform.{Platform}
use fastdjango.Dtos.{register_user_dto}
use fastdjango.Engine.{Engine, IsRelational, admits_user}
use fastdjango.Engine.Preservation.{more_owners, added_users}
use fastdjango.Engine.Queries.{IsConsistent}
use fastdjango.UserRepository.{user_from_model, new_user_model}
use fastdjango.UnitOfWork.{World, in_transaction}
use fastdjango.UnitOfWork.Scope.{IsHealthy}
use fastdjango.Accounts.{
  normalize_username, normalize_email, normalize_register_user_data, authenticate_user,
}
use fastdjango.PasswordService.{PasswordServiceSettings, is_weak_password}
use fastdjango.UseCases.Accounts.{register_user}
use fastdjango.UseCases.Registration.{
  IsIdempotent, account, is_account, is_taken, register_user-inserts,
}
use fastdjango.UseCases.Login.{named, authenticate_user-accepted}

-- Normalisation determines the user name, and keeps the password.
normalized_names :
    (platform : Platform) (d n : RegisterUserDto)
    → normalize_register_user_data platform d ≡ ok n
    → (n.username ≡ normalize_username platform d.username) × (n.password ≡ d.password)
unfolding normalize_register_user_data register_user_dto
normalized_names platform d n h =
    elim (Option-cases (platform.validate_email (normalize_email platform d.email))) [
      | inl e ↦ ground arith
      | inr (email, e) ↦ ground arith
    ]

-- The row that is added is the only one with its user name.
only_name :
    (n : RegisterUserDto) (row : UserModel) (rows : List UserModel)
    → row.username ≡ n.username
    → is_taken n rows ≡ false
    → keep (λ m. m.username == n.username) (row ∷ rows) ≡ row ∷ []
only_name n row rows e free =
    let rest =
      keep-nil (λ m. m.username == n.username) rows
        (any-weaken (λ m. m.username == n.username) (is_account n) rows (λ m h. ground arith)
          free) in
    ground (arith, rest, ap (λ t. t == n.username) e, eq_refl n.username)

module _ {Db : Type 0} (platform : Platform) (engine : Engine Db)
    (settings : PasswordServiceSettings) (laws : IsRelational engine) (healthy : IsHealthy engine)
    (w : World Db) (out : w.scope ≡ none) (c : IsConsistent engine w.committed)
    (d n : RegisterUserDto) (normal : normalize_register_user_data platform d ≡ ok n)
    (strong : is_weak_password platform settings n ≡ false)
    (free : is_taken n (engine.users w.committed) ≡ false) (idem : IsIdempotent platform) where
  abbrev registered : Db
  registered = (register_user platform engine settings d w).1.committed

  -- On a healthy relational database with consistent tables, if the address check keeps the addresses
  -- that it returns and the password hash accepts the password that it was made of: after normalised
  -- data with a strong password, a new user name and a new address has been registered, the user name and
  -- the password as they were entered authenticate the new user.
  pub register_user-authenticates :
      (draws : ℕ)
      → platform.verify_password d.password (platform.hash_password w.draws d.password) ≡ ok true
      → (user : User) × ((register_user platform engine settings d w).0 ≡ ok user)
        × (authenticate_user platform engine d.username d.password
              (in_transaction registered registered draws)
            ≡ (ok (some user), in_transaction registered registered draws))
  unfolding admits_user
  register_user-authenticates draws verifies =
      let (name, password) = normalized_names platform d n normal in
      let (id, fresh, run, rows, sessions) =
        register_user-inserts platform engine settings laws healthy w out d n normal strong free
          idem in
      let row : UserModel =
        record (new_user_model (account n) (platform.hash_password w.draws n.password)) {
          id = id;
        } in
      let after =
        (engine.insert_user (new_user_model (account n) (platform.hash_password w.draws n.password))
          w.committed).1 in
      let consistent : IsConsistent engine after = record {
        users_consistent = rw rows (
            added_users id (new_user_model (account n) (platform.hash_password w.draws n.password))
              (engine.users w.committed) (rw free refl) fresh c.users_consistent);
        sessions_consistent =
            rw (rows, sessions)
              (more_owners row (engine.users w.committed) (engine.refresh_sessions w.committed)
                c.sessions_consistent);
      } in
      let only : named platform d.username (engine.users after) ≡ row ∷ [] = rw rows (
        subst (λ name. keep (λ m. m.username == name) (row ∷ engine.users w.committed) ≡ row ∷ [])
          name (only_name n row (engine.users w.committed) refl free)) in
      (
        user_from_model row,
        ap (λ r. r.0) run,
        subst
            (λ db.
              authenticate_user platform engine d.username d.password (in_transaction db db draws)
              ≡ (ok (some (user_from_model row)), in_transaction db db draws))
            (sym (ap (λ r. r.1.committed) run))
            (authenticate_user-accepted platform engine laws after after draws consistent
              (record { username = d.username; password = d.password }) row only refl
              (rw password verifies)),
      )
