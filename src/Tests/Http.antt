-- ===== src/Tests/Http.antt =====
-- Requests and their replies.
use fastdjango.Base.{
  arith, ◌≡◌, sym, ap, refl, Bool, true, none, some, Option, Text, same_text, same_int, codes, [],
  ◌∷◌, int_eq, ℕ, List,
}
use fastdjango.Base.Int.{pos}
use fastdjango.Errors.{error, database_error}
use fastdjango.Outcome.{Outcome, ok, raise, Exec, pure, throw}
use fastdjango.Engine.Memory.{memory, memory-IsRelational, memory-IsHealthy}
use fastdjango.UserRepository.{user_from_model}
use fastdjango.Jwt.{Jwt, str, get, Claims, Value}
use fastdjango.UseCases.Refresh.{at_rest}
use fastdjango.Delivery.Requests.{Request, RequestInfoServiceSettings, get_user_ip_trace}
use fastdjango.Delivery.Bearer.{authenticate}
use fastdjango.Delivery.Controllers.{
  http_exception_of, issue_token_endpoint, health_check_endpoint, staff_user_lookup_endpoint,
  user_schema,
}
use fastdjango.Delivery.Replies.{
  RaisesTokenErrors, is_challenge, authenticate-is_challenge, issue_token_endpoint-IsRefused,
  health_check_endpoint-fails,
}
use fastdjango.Delivery.Lookups.{lookup_reply, found_reply, staff_user_lookup_endpoint_lem}
use fastdjango.Delivery.Throttling.{
  Response, ip_key, throttle, pre_body, pre_body_rules, pre_body_lem,
}
use fastdjango.Delivery.Traces.{IsTraceOrNone, get_user_ip_trace-IsTrace}
use fastdjango.Tests.Fixtures.{platform, jwt, sessions, tokens, bob, tables, world}
use fastdjango.Tests.Refreshing.{tables-IsConsistent}
use fastdjango.Tests.Logins.{wrong_login, wrong_login-IsRefused}

abbrev info : RequestInfoServiceSettings
info = record {
  ip_header = codes "x-forwarded-for";
  trust_forwarded_ip_header = true;
  user_agent_header = codes "user-agent";
}

abbrev request : Request
request = record {
  header = λ name. some (codes "10.0.0.1, 10.0.0.2");
  client = some (codes "127.0.0.1");
  method = codes "POST";
  path = codes "/api/v1/auth/token";
  credentials = some (codes "guess");
}

issue_token_endpoint-IsRefused_example :
    issue_token_endpoint platform memory jwt sessions tokens some info request wrong_login world
    ≡ (raise (http_exception_of 401 (codes "Invalid username or password")), at_rest tables 5)
issue_token_endpoint-IsRefused_example =
    issue_token_endpoint-IsRefused platform memory jwt sessions tokens memory-IsRelational
      memory-IsHealthy world refl tables-IsConsistent some info request wrong_login
      wrong_login-IsRefused

-- a package that accepts each token as the user with that number
abbrev trusting : Jwt
trusting = record jwt {
  decode = λ token key algorithms required now.
      ok ((codes "sub", str token) ∷ (codes "typ", str (codes "at+jwt")) ∷ []);
}

abbrev subject_of : Outcome Claims → Option Value
unfolding get
subject_of (ok claims) = get (codes "sub") claims
subject_of (raise e) = none

trusting-RaisesTokenErrors : RaisesTokenErrors trusting
unfolding same_text get subject_of
trusting-RaisesTokenErrors = record {
  raises = λ token key algorithms required now e h. ground arith;
  subject = λ token key algorithms required now claims h. (token, sym (ap subject_of h));
}

authenticate-is_challenge_example :
    is_challenge (authenticate platform trusting tokens true request.credentials world).0 ≡ true
authenticate-is_challenge_example =
    authenticate-is_challenge platform trusting tokens trusting-RaisesTokenErrors true
      request.credentials world

abbrev unreachable : Exec ℕ (Unit {0})
unreachable = throw (error database_error)

health_check_endpoint-fails_example :
    health_check_endpoint unreachable 3
    ≡ (raise (http_exception_of 503 (codes "Service is unavailable")), 3)
health_check_endpoint-fails_example =
    health_check_endpoint-fails unreachable 3 (error database_error) refl

staff_user_lookup_endpoint_lem_example :
    staff_user_lookup_endpoint memory (pos 1) (pos 2) world
    ≡ (ok (user_schema (user_from_model bob)), at_rest tables 5)
unfolding same_int user_from_model lookup_reply found_reply
staff_user_lookup_endpoint_lem_example =
    staff_user_lookup_endpoint_lem memory memory-IsRelational memory-IsHealthy world refl
      tables-IsConsistent (pos 1) (pos 2) refl

get_user_ip_trace-IsTrace_example : IsTraceOrNone some info (get_user_ip_trace some info request)
get_user_ip_trace-IsTrace_example = get_user_ip_trace-IsTrace some info request

-- a limiter that has had enough
abbrev exhausted : Text → ℕ → Exec (List Text) Bool
exhausted key cost asked = (ok true, key ∷ asked)

abbrev key_of : Request → Text
unfolding ip_key
key_of r = ip_key (λ s. s) some info r

abbrev app : Exec (List Text) (Option Response)
app = pure none

pre_body_lem_example :
    pre_body (λ s. s) (pre_body_rules (throttle exhausted key_of 1)) true request app [] ≡ (
      ok (some (record { status_code = 429; detail = codes "Too many requests"; headers = [] })),
      key_of request ∷ [],
    )
unfolding same_text
pre_body_lem_example =
    pre_body_lem (λ s. s) exhausted key_of request app [] true (key_of request ∷ []) refl refl
