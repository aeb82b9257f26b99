-- ===== src/PasswordService.antt =====
-- `PasswordService` of src/fastapi_template/core/user/services/password.py.
use fastdjango.Base.{ℕ, Bool, true, false, ◌||◌, [], ◌∷◌, Text, ltb, length, is_in}
use fastdjango.Errors.{error, weak_password_error}
use fastdjango.Outcome.{Outcome, ok, raise, Exec, pure, ◌>>=◌}
use fastdjango.Model.{RegisterUserDto}
use fastdjango.Platform.{Platform}
use fastdjango.UnitOfWork.{World, draw}

pub record PasswordServiceSettings : Type 0 where
  pub min_length : ℕ
  pub max_length : ℕ

module _ (platform : Platform) where
  unfoldable pub is_weak_password : PasswordServiceSettings → RegisterUserDto → Bool
  unfolding is_in
  is_weak_password settings d =
      ltb (length d.password) settings.min_length
      || ltb settings.max_length (length d.password)
      || platform.is_numeric d.password
      || is_in (platform.casefold d.password)
          (platform.casefold d.username ∷ platform.casefold d.email ∷ [])

  abbrev reject_if : Bool → Outcome (Unit {0})
  reject_if true = raise (error weak_password_error)
  reject_if false = ok tt

  unfoldable pub validate : PasswordServiceSettings → RegisterUserDto → Outcome (Unit {0})
  unfolding is_weak_password
  validate settings d = reject_if (is_weak_password settings d)

  unfoldable pub hash_password : {Db : Type 0} → Text → Exec (World Db) Text
  unfolding draw
  hash_password password = do salt ← draw; pure (platform.hash_password salt password)
