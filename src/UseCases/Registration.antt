-- ===== src/UseCases/Registration.antt =====
-- `RegisterUserUseCase.execute`: a new account without privileges, or one of two refusals.
use fastdjango.Base.{
  ◌+◌, ◌≤◌, ◌⊎◌, ◌∙◌, ap, eq_iff, length, is_in, ◌≡◌, refl, Bool, true, false, Option-cases,
  keep-nil, inl, inr, List, ◌||◌, some, none, Text, ◌∷◌, ◌==◌, text_eq, int_eq, any, arith,
}
use fastdjango.Base.Int.{ℤ}
use fastdjango.Errors.{error, user_already_exists_error, weak_password_error}
use fastdjango.Outcome.{Outcome, ok, raise}
use fastdjango.Model.{User, UserModel, RegisterUserDto, PersistUserDto}
use fastdjango.Platform.{Platform}
use fastdjango.Dtos.{fits_names, register_user_dto, persist_user_dto}
use fastdjango.Engine.{Engine, IsRelational, admits_user}
use fastdjango.UserRepository.{user_from_model, new_user_model, create}
use fastdjango.Engine.Queries.{select_users-nil, select_users-first}
use fastdjango.UnitOfWork.{World, in_transaction}
use fastdjango.UnitOfWork.Scope.{IsHealthy, with_uow-returns, with_uow-raises}
use fastdjango.Accounts.{normalize_username, normalize_email, normalize_register_user_data}
use fastdjango.PasswordService.{PasswordServiceSettings, is_weak_password, validate, hash_password}
use fastdjango.UseCases.Accounts.{
  persist_user_data, create_unless, register_user_body, register_user,
}
use fastdjango.UseCases.Refresh.{at_rest}

-- The address check returns an address that it accepts unchanged.
abbrev pub IsIdempotent : Platform → Type 0
IsIdempotent platform =
    (x y : Text) → platform.validate_email x ≡ some y → platform.validate_email y ≡ some y

-- What is stored of a request to register: an active account without privileges.
abbrev pub account : RegisterUserDto → PersistUserDto
account n = record {
  email = n.email;
  username = n.username;
  first_name = n.first_name;
  last_name = n.last_name;
  is_active = true;
  is_staff = false;
  is_superuser = false;
}

-- The row and the entity of a new account, field by field.
abbrev pub new_row : RegisterUserDto → Text → ℤ → UserModel
new_row n password_hash id = record {
  id = id;
  username = n.username;
  email = n.email;
  first_name = n.first_name;
  last_name = n.last_name;
  password_hash = password_hash;
  is_active = true;
  is_staff = false;
  is_superuser = false;
}

abbrev pub new_user : RegisterUserDto → Text → ℤ → User
new_user n password_hash id = record {
  id = id;
  username = n.username;
  email = n.email;
  first_name = n.first_name;
  last_name = n.last_name;
  password_hash = password_hash;
  is_active = true;
  is_staff = false;
  is_superuser = false;
}

-- The password is too short, too long, numeric, or the user name or the address in other letters.
abbrev pub IsWeak : Platform → PasswordServiceSettings → RegisterUserDto → Type 0
IsWeak platform settings n =
    (length n.password + 1 ≤ settings.min_length)
    ⊎ (settings.max_length + 1 ≤ length n.password)
    ⊎ (platform.is_numeric n.password ≡ true)
    ⊎ (platform.casefold n.password ≡ platform.casefold n.username)
    ⊎ (platform.casefold n.password ≡ platform.casefold n.email)

-- This row has the user name or the address of the request.
abbrev pub is_account : RegisterUserDto → UserModel → Bool
is_account n m = m.username == n.username || m.email == n.email

abbrev pub is_taken : RegisterUserDto → List UserModel → Bool
is_taken n rows = any (is_account n) rows

module _ (platform : Platform) where
  weak_lem :
      (settings : PasswordServiceSettings) (n : RegisterUserDto)
      → IsWeak platform settings n
      → is_weak_password platform settings n ≡ true
  unfolding is_weak_password is_in
  weak_lem settings n (inl short) = ground arith
  weak_lem settings n (inr (inl long)) = ground arith
  weak_lem settings n (inr (inr (inl numeric))) = ground arith
  weak_lem settings n (inr (inr (inr (inl name)))) =
      ground (arith, eq_iff (platform.casefold n.password) (platform.casefold n.username))
  weak_lem settings n (inr (inr (inr (inr email)))) =
      ground (arith, eq_iff (platform.casefold n.password) (platform.casefold n.email))

  register_user_dto-valid :
      (d n : RegisterUserDto)
      → register_user_dto platform d ≡ ok n
      → IsIdempotent platform
      → (fits_names n.username n.first_name n.last_name ≡ true)
        × (platform.validate_email n.email ≡ some n.email)
  unfolding register_user_dto
  register_user_dto-valid d n h idem = elim (Option-cases (platform.validate_email d.email)) [
    | inl e ↦ ground arith
    | inr (email, e) ↦ ground (arith, idem d.email email e)
  ]

  -- If the address check keeps the addresses that it returns, data that normalisation has accepted
  -- passes the second validation unchanged, as an active account without privileges.
  pub persist_user_data-normalized :
      (d n : RegisterUserDto)
      → normalize_register_user_data platform d ≡ ok n
      → IsIdempotent platform
      → persist_user_data platform n ≡ ok (account n)
  unfolding persist_user_data persist_user_dto normalize_register_user_data
  persist_user_data-normalized d n h idem =
      let given : RegisterUserDto = record {
        username = normalize_username platform d.username;
        email = normalize_email platform d.email;
        first_name = d.first_name;
        last_name = d.last_name;
        password = d.password;
      } in
      let valid = register_user_dto-valid given n h idem in rw (valid.0, valid.1)

module _ {Db : Type 0} (platform : Platform) (engine : Engine Db)
    (settings : PasswordServiceSettings) (laws : IsRelational engine) (healthy : IsHealthy engine)
    (w : World Db) (out : w.scope ≡ none) (d n : RegisterUserDto)
    (normal : normalize_register_user_data platform d ≡ ok n) where
  abbrev stored_hash : Text
  stored_hash = platform.hash_password w.draws n.password

  abbrev opened : World Db
  opened = in_transaction w.committed w.committed (w.draws + 1)

  -- If the data can be normalised, a password that is too short, too long, numeric, or equal to the user
  -- name or to the address after case folding is refused before the database or the password hash is
  -- touched.
  pub register_user-weak :
      IsWeak platform settings n
      → register_user platform engine settings d w ≡ (raise (error weak_password_error), w)
  unfolding register_user validate
  register_user-weak weak = rw (normal, weak_lem platform settings n weak)

  module _ (strong : is_weak_password platform settings n ≡ false) where
    -- On a healthy relational database, normalised data with a strong password but a user name or an address that a user
    -- has already is refused, and nothing is written.
    pub register_user-taken :
        is_taken n (engine.users w.committed) ≡ true
        → register_user platform engine settings d w
          ≡ (raise (error user_already_exists_error), at_rest w.committed (w.draws + 1))
    unfolding register_user validate hash_password register_user_body create_unless
    register_user-taken taken =
        let (m, e) = select_users-first engine laws w.committed (is_account n) taken in
        rw (normal, strong)
          (with_uow-raises engine (register_user_body platform engine n stored_hash)
            (record w { draws = w.draws + 1 }) (error user_already_exists_error) opened w.committed
            healthy out (rw e) refl)

    module _ (free : is_taken n (engine.users w.committed) ≡ false)
        (idem : IsIdempotent platform) where
      abbrev inserted : Db
      inserted = (engine.insert_user (new_user_model (account n) stored_hash) w.committed).1

      -- The outcome, and the rows that the database has inserted.
      pub register_user-inserts :
          (id : ℤ) × (any (λ r. r.id == id) (engine.users w.committed) ≡ false)
          × (register_user platform engine settings d w ≡ (
            ok (user_from_model (record (new_user_model (account n) stored_hash) { id = id })),
            at_rest inserted (w.draws + 1),
          ))
          × (engine.users inserted
              ≡ record (new_user_model (account n) stored_hash) { id = id }
                ∷ engine.users w.committed)
          × (engine.refresh_sessions inserted ≡ engine.refresh_sessions w.committed)
      unfolding register_user validate hash_password register_user_body create_unless admits_user
          create
      register_user-inserts =
          let (id, fresh, made, rows, sessions) =
            laws.insert_user-admitted (new_user_model (account n) stored_hash) w.committed
              (rw free refl) in
          (
            id,
            fresh,
            rw (normal, strong)
                (with_uow-returns engine (register_user_body platform engine n stored_hash)
                  (record w { draws = w.draws + 1 })
                  (user_from_model (record (new_user_model (account n) stored_hash) { id = id }))
                  (in_transaction w.committed inserted (w.draws + 1)) inserted healthy out
                  (rw (
                    select_users-nil engine laws w.committed (is_account n)
                        (keep-nil (is_account n) (engine.users w.committed) free),
                    persist_user_data-normalized platform d n normal idem,
                    made,
                  ))
                  refl),
            rows,
            sessions,
          )

      abbrev finished : Outcome User × World Db
      finished = register_user platform engine settings d w

      -- On a healthy relational database, if the address check keeps the addresses that it returns,
      -- normalised data with a strong password, a new user name and a new address gives one
      -- new row with a new key: the names and the address of the data, active, neither staff nor
      -- superuser, with the hash of the password; it is committed in front of the rows that were there,
      -- no session changes, and its entity comes back.
      pub register_user-creates :
          (id : ℤ) × (any (λ r. r.id == id) (engine.users w.committed) ≡ false)
          × (finished.0 ≡ ok (new_user n stored_hash id))
          × (engine.users finished.1.committed
              ≡ new_row n stored_hash id ∷ engine.users w.committed)
          × (engine.refresh_sessions finished.1.committed ≡ engine.refresh_sessions w.committed)
          × (finished.1.scope ≡ none)
      unfolding user_from_model
      register_user-creates =
          let (id, fresh, run, rows, sessions) = register_user-inserts in
          (
            id,
            fresh,
            ap (λ r. r.0) run,
            ap (λ r. engine.users r.1.committed) run ∙ rows,
            ap (λ r. engine.refresh_sessions r.1.committed) run ∙ sessions,
            ap (λ r. r.1.scope) run,
          )
