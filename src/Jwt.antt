-- ===== src/Jwt.antt =====
-- `JWTService` of src/fastapi_template/core/authentication/services/jwt.py. PyJWT is a parameter.
mod Payload
mod Numbers
pub mod Issue
pub mod RoundTrip
pub use Payload.{Value, null, boolean, int, float, str, date, container}
pub use Payload.{Float, finite, infinite, nan, Claims}
unfoldable pub use Payload.{get, put, is_str}
unfoldable pub use Numbers.{str_of_int, parse_int}
use fastdjango.Base.{
  ℕ, ◌*◌, ◌/◌, ◌+◌, Bool, true, false, ◌≡◌, ◌<◌, ◌≤◌, List, [], ◌∷◌, Option, none, some, Text,
  codes,
}
use fastdjango.Base.Int.{ℤ}
use fastdjango.Errors.{error, invalid_token_error, expired_signature_error}
use fastdjango.Outcome.{Outcome, ok, raise, Exec, pure, throw, lift, ◌>>=◌}
use fastdjango.Model.{DateTime, add_timedelta}
use fastdjango.Platform.{Platform}
use fastdjango.UnitOfWork.{World, draw}
use fastdjango.Clock.{now_utc}

pub record JwtServiceSettings : Type 0 where
  pub secret_key : Text
  pub algorithm : Text
  pub typ : Text
  pub access_token_expire_minutes : ℕ

-- timedelta(minutes=…), in microseconds
abbrev pub access_token_expire : JwtServiceSettings → ℕ
access_token_expire settings = settings.access_token_expire_minutes * 60000000

-- PyJWT: `encode(payload, key, algorithm)`, and `decode(jwt, key, algorithms, options)` at a time.
pub record Jwt : Type 0 where
  pub encode : Claims → Text → Text → Outcome Text
  pub decode : Text → Text → List Text → List Text → ℕ → Outcome Claims

abbrev pub required_claims : List Text
required_claims = codes "exp" ∷ codes "iat" ∷ codes "sub" ∷ codes "typ" ∷ []

-- `payload` of `issue_access_token`
unfoldable pub access_payload : JwtServiceSettings → ℤ → DateTime → DateTime → Claims → Claims
unfolding put str_of_int
access_payload settings user_id issued expires payload_kwargs =
    put (codes "typ") (str settings.typ) (
      put (codes "iat") (date issued) (
        put (codes "exp") (date expires)
          (put (codes "sub") (str (str_of_int user_id)) payload_kwargs)))

module _ {Db : Type 0} (platform : Platform) (jwt : Jwt) (settings : JwtServiceSettings) where
  unfoldable pub issue_access_token : ℤ → Claims → Exec (World Db) Text
  unfolding now_utc add_timedelta access_payload
  issue_access_token user_id payload_kwargs = do
    iat ← now_utc platform
    exp ← lift (add_timedelta iat (access_token_expire settings))
    lift (
        jwt.encode (access_payload settings user_id iat exp payload_kwargs) settings.secret_key
          settings.algorithm)

  abbrev checked : Claims → Bool → Exec (World Db) Claims
  checked payload true = pure payload
  checked payload false = throw (error invalid_token_error)

  unfoldable pub decode_token : Text → Exec (World Db) Claims
  unfolding draw get is_str
  decode_token token = do
    n ← draw
    payload ← lift (
        jwt.decode token settings.secret_key (settings.algorithm ∷ []) required_claims
          (platform.now n))
    checked payload (is_str settings.typ (get (codes "typ") payload))
