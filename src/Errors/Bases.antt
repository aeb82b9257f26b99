-- ===== src/Errors/Bases.antt =====
-- Base classes: `except Exception` catches everything that the code raises.
use fastdjango.Base.{◌≡◌, refl, true, any, ◌==◌, nat_eq}
use fastdjango.Errors.{
  Exception, isinstance, class_of, mro, rank, ErrorClass, exception, application_error,
  authentication_error, refresh_token_error, invalid_credentials_error, invalid_refresh_token_error,
  expired_refresh_token_error, user_error, user_already_exists_error,
  user_repository_conflict_error, weak_password_error, authenticated_user_not_found_error,
  user_permission_denied_error, health_check_error, http_exception, integrity_error, runtime_error,
  type_error, value_error, validation_error, overflow_error, attribute_error,
  multiple_results_found, no_result_found, database_error, invalid_token_error,
  expired_signature_error,
}

base_exception : (c : ErrorClass) → any (λ d. rank d == rank exception) (mro c) ≡ true
unfolding mro
base_exception exception = refl
base_exception application_error = refl
base_exception authentication_error = refl
base_exception refresh_token_error = refl
base_exception invalid_credentials_error = refl
base_exception invalid_refresh_token_error = refl
base_exception expired_refresh_token_error = refl
base_exception user_error = refl
base_exception user_already_exists_error = refl
base_exception user_repository_conflict_error = refl
base_exception weak_password_error = refl
base_exception authenticated_user_not_found_error = refl
base_exception user_permission_denied_error = refl
base_exception health_check_error = refl
base_exception http_exception = refl
base_exception integrity_error = refl
base_exception runtime_error = refl
base_exception type_error = refl
base_exception value_error = refl
base_exception validation_error = refl
base_exception overflow_error = refl
base_exception attribute_error = refl
base_exception multiple_results_found = refl
base_exception no_result_found = refl
base_exception database_error = refl
base_exception invalid_token_error = refl
base_exception expired_signature_error = refl

pub isinstance-exception : (e : Exception) → isinstance e exception ≡ true
unfolding isinstance
isinstance-exception e = base_exception (class_of e)
