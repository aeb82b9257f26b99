-- ===== src/Delivery/Replies.antt =====
-- What the clients of the endpoints see: one reply for every refused login, 401 for every failed
-- authentication, 503 for every failure of the database.
use fastdjango.Base.{
  ℕ, ◌+◌, ◌≡◌, refl, Bool, true, false, List, [], ◌∷◌, Option, none, some, Text, codes, ◌==◌,
  nat_eq, Bool-cases, inl, inr, ◌⊎◌, ◌&&◌, text_eq, same_text, Option-cases,
}
use fastdjango.Base.Int.{ℤ}
use fastdjango.Errors.{
  Exception, http, isinstance, class_of, mro, invalid_token_error, expired_signature_error,
}
use fastdjango.Errors.Bases.{isinstance-exception}
use fastdjango.Outcome.{Outcome-cases, Outcome, ok, raise, Exec}
use fastdjango.Model.{IssueTokenDto}
use fastdjango.Platform.{Platform}
use fastdjango.Engine.{Engine, IsRelational}
use fastdjango.Engine.Queries.{IsConsistent}
use fastdjango.UnitOfWork.{World}
use fastdjango.UnitOfWork.Scope.{IsHealthy}
use fastdjango.RefreshSessionService.{RefreshSessionServiceSettings}
use fastdjango.Jwt.{Jwt, JwtServiceSettings, Claims, get, str, parse_int, is_str, decode_token}
use fastdjango.UseCases.Refresh.{at_rest}
use fastdjango.UseCases.Login.{IsRefused, issue_token-IsRefused}
use fastdjango.Delivery.Requests.{
  Request, RequestInfoServiceSettings, get_user_agent, get_user_ip_trace,
}
use fastdjango.Delivery.Bearer.{
  bearer_authentication_error, int_of, get_subject_user_id, get_token_payload, authenticate,
  invalid_token,
}
use fastdjango.Delivery.Controllers.{
  http_exception_of, issue_token_handler, issue_token_endpoint, health_check_endpoint,
}

module _ {Db : Type 0} (platform : Platform) (engine : Engine Db) (jwt : Jwt)
    (sessions : RefreshSessionServiceSettings) (tokens : JwtServiceSettings)
    (laws : IsRelational engine) (healthy : IsHealthy engine) (w : World Db) (out : w.scope ≡ none)
    (c : IsConsistent engine w.committed) where
  -- On a healthy relational database with consistent tables, whatever the reason for which a login is
  -- refused and whatever the request's headers and address are, the reply is the same: status 401 with
  -- one text; and nothing is written.
  pub issue_token_endpoint-IsRefused :
      (ip_address : Text → Option Text) (info : RequestInfoServiceSettings) (request : Request)
      (body : IssueTokenDto)
      → IsRefused platform (engine.users w.committed) body
      → issue_token_endpoint platform engine jwt sessions tokens ip_address info request body w ≡ (
        raise (http_exception_of 401 (codes "Invalid username or password")),
        at_rest w.committed w.draws,
      )
  unfolding issue_token_endpoint issue_token_handler isinstance mro class_of
  issue_token_endpoint-IsRefused ip_address info request body refused = rw (
      issue_token-IsRefused platform engine jwt sessions tokens laws healthy w out c body
        (record {
          user_agent = get_user_agent ip_address info request;
          ip_address_trace = get_user_ip_trace ip_address info request;
        })
        refused)

-- What PyJWT documents of `decode`: it raises exceptions of its own only, and the claim `sub` of what it
-- returns is a text.
pub record RaisesTokenErrors (jwt : Jwt) : Type 0 where
  pub raises :
      (token key : Text) (algorithms required : List Text) (now : ℕ) (e : Exception)
      → jwt.decode token key algorithms required now ≡ raise e
      → isinstance e invalid_token_error ≡ true
  pub subject :
      (token key : Text) (algorithms required : List Text) (now : ℕ) (claims : Claims)
      → jwt.decode token key algorithms required now ≡ ok claims
      → (s : Text) × (get (codes "sub") claims ≡ some (str s))

abbrev is_bearer : List (Text × Text) → Bool
is_bearer ((name, value) ∷ []) = name == codes "WWW-Authenticate" && value == codes "Bearer"
is_bearer _ = false

-- This outcome fails, if at all, with status 401 and the bearer challenge.
abbrev pub is_challenge : {A : Type 0} → Outcome A → Bool
is_challenge (ok a) = true
is_challenge (raise (http e)) = e.status_code == 401 && is_bearer e.headers
is_challenge (raise e) = false

module _ {S : Type 0} (check_database : Exec S (Unit {0})) where
  -- Whatever exception the check of the database raises, the reply is status 503.
  pub health_check_endpoint-fails :
      (s : S) (e : Exception)
      → (check_database s).0 ≡ raise e
      → health_check_endpoint check_database s
        ≡ (raise (http_exception_of 503 (codes "Service is unavailable")), (check_database s).1)
  unfolding health_check_endpoint
  health_check_endpoint-fails s e failed = rw (failed, isinstance-exception e)

-- A text as the subject is a number, or is refused.
subject_cases :
    (decimal : ℕ → Option ℕ) (s : Text)
    → ((n : ℤ) × (get_subject_user_id decimal (some (str s)) ≡ ok n))
      ⊎ (get_subject_user_id decimal (some (str s))
          ≡ raise (bearer_authentication_error (codes "Token payload has invalid 'sub' field")))
unfolding get_subject_user_id int_of isinstance mro class_of
subject_cases decimal s = elim (Option-cases (parse_int decimal s)) [
  | inl p ↦ inr (rw (get_subject_user_id, int_of, p))
  | inr (n, p) ↦ inl (n, rw (get_subject_user_id, int_of, p))
]

-- The exception that the `except` clauses raise for one of PyJWT's.
invalid_token_challenges :
    {Db : Type 0} (platform : Platform) (jwt : Jwt) (tokens : JwtServiceSettings) (e : Exception)
    (w : World Db)
    → isinstance e invalid_token_error ≡ true
    → (x : Exception) × (invalid_token platform jwt tokens e w ≡ (raise x, w))
      × (is_challenge {A = Claims} (raise x) ≡ true)
unfolding invalid_token bearer_authentication_error same_text
invalid_token_challenges platform jwt tokens e w known =
    elim (Bool-cases (isinstance e expired_signature_error)) [
      | inl expired ↦
          (bearer_authentication_error (codes "Token has expired"), rw expired refl, refl)
      | inr other ↦
          (bearer_authentication_error (codes "Invalid token"), rw (other, known) refl, refl)
    ]

module _ {Db : Type 0} (platform : Platform) (jwt : Jwt) (tokens : JwtServiceSettings)
    (honest : RaisesTokenErrors jwt) where
  -- If PyJWT raises its own exceptions only and returns a text as the subject, then whatever the
  -- credentials are, an authentication that fails does so with status 401 and the bearer challenge.
  pub authenticate-is_challenge :
      (required : Bool) (credentials : Option Text) (w : World Db)
      → is_challenge (authenticate platform jwt tokens required credentials w).0 ≡ true
  unfolding authenticate get_token_payload decode_token isinstance mro class_of
      bearer_authentication_error same_text
  authenticate-is_challenge true none w = refl
  authenticate-is_challenge false none w = refl
  authenticate-is_challenge required (some token) w =
      let required_names = codes "exp" ∷ codes "iat" ∷ codes "sub" ∷ codes "typ" ∷ [] in
      elim (Outcome-cases (
        jwt.decode token tokens.secret_key (tokens.algorithm ∷ []) required_names
          (platform.now w.draws))) [
            | inr (e, raised) ↦
                let (x, handled, challenged) =
                  invalid_token_challenges platform jwt tokens e (record w { draws = w.draws + 1 })
                    (honest.raises token tokens.secret_key (tokens.algorithm ∷ []) required_names
                      (platform.now w.draws) e raised) in
                rw (raised, handled) challenged
            | inl (claims, decoded) ↦
                let (s, subject) =
                  honest.subject token tokens.secret_key (tokens.algorithm ∷ []) required_names
                    (platform.now w.draws) claims decoded in
                elim (Bool-cases (is_str tokens.typ (get (codes "typ") claims))) [
                  | inl typed ↦ elim (subject_cases platform.decimal s) [
                    | inl (n, known) ↦ rw (decoded, typed, subject, known) refl
                    | inr refused ↦ rw (decoded, typed, subject, refused) refl
                  ]
                  | inr untyped ↦ rw (decoded, untyped) refl
                ]
          ]
