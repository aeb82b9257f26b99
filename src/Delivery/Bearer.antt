-- ===== src/Delivery/Bearer.antt =====
-- `JWTAuth` and `bearer_authentication_error` of
-- src/fastapi_template/core/authentication/delivery/fastapi/auth.
use fastdjango.Base.{ℕ, Bool, [], ◌∷◌, Option, none, some, Text, codes, if◌then◌else◌}
use fastdjango.Base.Int.{ℤ, pos}
use fastdjango.Errors.{
  Exception, error, http, isinstance, type_error, value_error, overflow_error,
  expired_signature_error, invalid_token_error,
}
use fastdjango.Outcome.{Outcome, ok, raise, Exec, pure, throw, lift, catch, ◌>>=◌}
use fastdjango.Platform.{Platform}
use fastdjango.UnitOfWork.{World}
use fastdjango.Jwt.{
  Jwt, JwtServiceSettings, Value, null, boolean, int, float, str, finite, infinite, nan, Claims,
  get, parse_int, decode_token,
}

unfoldable pub bearer_authentication_error : Text → Exception
bearer_authentication_error detail = http (record {
  status_code = 401;
  detail = detail;
  headers = (codes "WWW-Authenticate", codes "Bearer") ∷ [];
})

abbrev int_or_error : Option ℤ → Outcome ℤ
int_or_error (some n) = ok n
int_or_error none = raise (error value_error)

-- `int(value)`
unfoldable pub int_of : (ℕ → Option ℕ) → Value → Outcome ℤ
unfolding parse_int
int_of decimal (boolean b) = ok (pos (if b then 1 else 0))
int_of decimal (int n) = ok n
int_of decimal (float (finite n)) = ok n
int_of decimal (float infinite) = raise (error overflow_error)
int_of decimal (float nan) = raise (error value_error)
int_of decimal (str s) = int_or_error (parse_int decimal s)
int_of decimal _ = raise (error type_error)

abbrev invalid_subject : Exception → Exception
unfolding isinstance bearer_authentication_error
invalid_subject e =
    if isinstance e type_error
    then bearer_authentication_error (codes "Token payload has invalid 'sub' field")
    else if isinstance e value_error
    then bearer_authentication_error (codes "Token payload has invalid 'sub' field")
    else e

abbrev subject_or : Outcome ℤ → Outcome ℤ
unfolding invalid_subject
subject_or (ok n) = ok n
subject_or (raise e) = raise (invalid_subject e)

-- `_get_subject_user_id`: a claim that is missing or null is refused.
unfoldable pub get_subject_user_id : (ℕ → Option ℕ) → Option Value → Outcome ℤ
unfolding bearer_authentication_error int_of subject_or
get_subject_user_id decimal none =
    raise (bearer_authentication_error (codes "Token payload missing 'sub' field"))
get_subject_user_id decimal (some null) =
    raise (bearer_authentication_error (codes "Token payload missing 'sub' field"))
get_subject_user_id decimal (some value) = subject_or (int_of decimal value)

-- What `request.state` holds afterwards.
pub record AuthenticatedState : Type 0 where
  pub jwt_payload : Claims
  pub user_id : ℤ

module _ {Db : Type 0} (platform : Platform) (jwt : Jwt) (settings : JwtServiceSettings) where
  -- the two `except` clauses of `_get_token_payload`, in their order
  unfoldable pub invalid_token : Exception → Exec (World Db) Claims
  unfolding isinstance bearer_authentication_error
  invalid_token e =
      if isinstance e expired_signature_error
      then throw (bearer_authentication_error (codes "Token has expired"))
      else if isinstance e invalid_token_error
      then throw (bearer_authentication_error (codes "Invalid token"))
      else throw e

  unfoldable pub get_token_payload : Text → Exec (World Db) Claims
  unfolding decode_token invalid_token
  get_token_payload token = catch (decode_token platform jwt settings token) invalid_token

  -- `JWTAuth.__call__`: the credentials are what `HTTPBearer` finds in the request's header.
  unfoldable pub authenticate : Bool → Option Text → Exec (World Db) (Option AuthenticatedState)
  unfolding bearer_authentication_error get_token_payload get get_subject_user_id
  authenticate required none =
      if required
      then throw (bearer_authentication_error (codes "Not authenticated"))
      else pure none
  authenticate required (some credentials) = do
    payload ← get_token_payload credentials
    user_id ← lift (get_subject_user_id platform.decimal (get (codes "sub") payload))
    pure (some (record { jwt_payload = payload; user_id = user_id }))
