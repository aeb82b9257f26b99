-- ===== src/Errors.antt =====
-- The exceptions: the classes of src/fastapi_template/core/**/exceptions and application_error.py
-- with their base classes, and the built-in and library classes that the code raises, catches or
-- lets through.
pub mod Bases
use fastdjango.Base.{ℕ, Bool, List, [], ◌∷◌, Option, Text, ◌==◌, nat_eq, any}

pub data ErrorClass : Type 0 where
  exception application_error : ErrorClass
  authentication_error refresh_token_error invalid_credentials_error : ErrorClass
  invalid_refresh_token_error expired_refresh_token_error : ErrorClass
  user_error user_already_exists_error user_repository_conflict_error : ErrorClass
  weak_password_error authenticated_user_not_found_error : ErrorClass
  user_permission_denied_error health_check_error : ErrorClass
  http_exception integrity_error runtime_error type_error : ErrorClass
  value_error validation_error overflow_error attribute_error : ErrorClass
  multiple_results_found no_result_found database_error : ErrorClass
  invalid_token_error expired_signature_error : ErrorClass

abbrev application_line : List ErrorClass
application_line = application_error ∷ exception ∷ []

abbrev authentication_line : List ErrorClass
authentication_line = authentication_error ∷ application_line

abbrev refresh_token_line : List ErrorClass
refresh_token_line = refresh_token_error ∷ authentication_line

abbrev user_line : List ErrorClass
user_line = user_error ∷ application_line

-- A class with its base classes, nearest first.
unfoldable pub mro : ErrorClass → List ErrorClass
mro exception = exception ∷ []
mro application_error = application_line
mro authentication_error = authentication_line
mro refresh_token_error = refresh_token_line
mro invalid_credentials_error = invalid_credentials_error ∷ authentication_line
mro invalid_refresh_token_error = invalid_refresh_token_error ∷ refresh_token_line
mro expired_refresh_token_error = expired_refresh_token_error ∷ refresh_token_line
mro user_error = user_line
mro user_already_exists_error = user_already_exists_error ∷ user_line
mro user_repository_conflict_error = user_repository_conflict_error ∷ user_line
mro weak_password_error = weak_password_error ∷ user_line
mro authenticated_user_not_found_error = authenticated_user_not_found_error ∷ user_line
mro user_permission_denied_error = user_permission_denied_error ∷ application_line
mro health_check_error = health_check_error ∷ application_line
mro integrity_error = integrity_error ∷ database_error ∷ exception ∷ []
mro validation_error = validation_error ∷ value_error ∷ exception ∷ []
mro expired_signature_error = expired_signature_error ∷ invalid_token_error ∷ exception ∷ []
mro other = other ∷ exception ∷ []

-- A number for each class, to compare classes by.
abbrev rank : ErrorClass → ℕ
rank exception = 0
rank application_error = 1
rank authentication_error = 2
rank refresh_token_error = 3
rank invalid_credentials_error = 4
rank invalid_refresh_token_error = 5
rank expired_refresh_token_error = 6
rank user_error = 7
rank user_already_exists_error = 8
rank user_repository_conflict_error = 9
rank weak_password_error = 10
rank authenticated_user_not_found_error = 11
rank user_permission_denied_error = 12
rank health_check_error = 13
rank http_exception = 14
rank integrity_error = 15
rank runtime_error = 16
rank type_error = 17
rank value_error = 18
rank overflow_error = 19
rank attribute_error = 20
rank multiple_results_found = 21
rank no_result_found = 22
rank database_error = 23
rank invalid_token_error = 24
rank expired_signature_error = 25
rank validation_error = 26

-- `HTTPException`: the status code, the detail and the headers.
pub record HttpError : Type 0 where
  pub status_code : ℕ
  pub detail : Text
  pub headers : List (Text × Text)

-- What the code reads of an `IntegrityError`: `orig.diag.constraint_name` if that is a `str`, and
-- `str(orig)`.
pub record Violation : Type 0 where
  pub constraint_name : Option Text
  pub message : Text

pub data Exception : Type 0 where
  error : ErrorClass → Exception
  runtime : Text → Exception
  http : HttpError → Exception
  integrity : Violation → Exception

unfoldable pub class_of : Exception → ErrorClass
class_of (error c) = c
class_of (runtime message) = runtime_error
class_of (http e) = http_exception
class_of (integrity v) = integrity_error

unfoldable pub isinstance : Exception → ErrorClass → Bool
unfolding class_of mro
isinstance e c = any (λ d. rank d == rank c) (mro (class_of e))
