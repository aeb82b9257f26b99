-- ===== src/Dtos.antt =====
-- What pydantic checks where a DTO of src/fastapi_template/core/user/dtos is built.
use fastdjango.Base.{ℕ, Bool, ◌&&◌, Option, none, some, Text, leb, length, if◌then◌else◌}
use fastdjango.Errors.{error, validation_error}
use fastdjango.Outcome.{Outcome, ok, raise}
use fastdjango.Model.{RegisterUserDto, PersistUserDto}
use fastdjango.Platform.{Platform}

abbrev pub password_max_length : ℕ
password_max_length = 128

abbrev pub user_name_max_length : ℕ
user_name_max_length = 150

unfoldable pub fits_names : Text → Text → Text → Bool
fits_names username first_name last_name =
    leb (length username) user_name_max_length
    && leb (length first_name) user_name_max_length
    && leb (length last_name) user_name_max_length

module _ (platform : Platform) where
  abbrev with_email : {A : Type 0} → Option Text → (Text → A) → Outcome A
  with_email none build = raise (error validation_error)
  with_email (some email) build = ok (build email)

  -- RegisterUserDTO(…): the fields of `d` are the arguments
  unfoldable pub register_user_dto : RegisterUserDto → Outcome RegisterUserDto
  unfolding fits_names
  register_user_dto d =
      if fits_names d.username d.first_name d.last_name
        && leb (length d.password) password_max_length
      then with_email (platform.validate_email d.email) (λ email. record d { email = email })
      else raise (error validation_error)

  -- PersistUserDTO(…)
  unfoldable pub persist_user_dto : PersistUserDto → Outcome PersistUserDto
  unfolding fits_names
  persist_user_dto d =
      if fits_names d.username d.first_name d.last_name
      then with_email (platform.validate_email d.email) (λ email. record d { email = email })
      else raise (error validation_error)
