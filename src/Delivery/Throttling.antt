-- ===== src/Delivery/Throttling.antt =====
-- Rate limits: `BaseThrottler`, `IPThrottler`, `UserThrottler` and `PreBodyIPThrottlingMiddleware` of
-- src/fastapi_template/core/**/throttling. The limiter of the package `throttled` is a parameter.
use fastdjango.Base.{
  ℕ, ◌≡◌, refl, Bool, true, false, List, [], ◌∷◌, ◌++◌, Option, none, some, Text, codes, ◌==◌,
  text_eq, ◌&&◌, if◌then◌else◌, inl, inr, map, any, arith, Bool-cases,
}
use fastdjango.Base.Int.{ℤ}
use fastdjango.Errors.{http}
use fastdjango.Outcome.{Outcome, ok, raise, Exec, pure, throw, ◌>>=◌}
use fastdjango.Jwt.{str_of_int}
use fastdjango.Delivery.Requests.{Request, RequestInfoServiceSettings, get_user_ip_trace}
use fastdjango.Delivery.Controllers.{http_exception_of}

-- f"{value}" of an optional text
abbrev or_none : Option Text → Text
or_none none = codes "None"
or_none (some s) = s

abbrev throttler_key : Request → Text → Text
throttler_key r who = codes "throttler:" ++ r.method ++ codes ":" ++ r.path ++ codes ":" ++ who

-- `IPThrottler._build_key`
unfoldable pub ip_key :
    (Text → Text) → (Text → Option Text) → RequestInfoServiceSettings → Request → Text
unfolding get_user_ip_trace
ip_key lower ip_address settings r =
    lower (throttler_key r (or_none (get_user_ip_trace ip_address settings r)))

-- `UserThrottler._build_key`, for the user of the request's state
unfoldable pub user_key : (Text → Text) → ℤ → Request → Text
unfolding str_of_int
user_key lower user_id r = lower (throttler_key r (str_of_int user_id))

-- An answer that goes out before the application has seen the request.
pub record Response : Type 0 where
  pub status_code : ℕ
  pub detail : Text
  pub headers : List (Text × Text)

-- `PreBodyIPThrottlingRule`
pub record PreBodyRule (S : Type 0) : Type 0 where
  pub method : Text
  pub path : Text
  pub throttler : Request → Exec S (Unit {0})

module _ {S : Type 0} (limit : Text → ℕ → Exec S Bool) where
  abbrev reject_if : Bool → Exec S (Unit {0})
  reject_if true = throw (http_exception_of 429 (codes "Too many requests"))
  reject_if false = pure tt

  -- `BaseThrottler.__call__`
  unfoldable pub throttle : (Request → Text) → ℕ → Request → Exec S (Unit {0})
  throttle build_key cost r = do limited ← limit (build_key r) cost; reject_if limited

module _ {S : Type 0} (upper : Text → Text) where
  -- `_rules_by_key.get(…)`: of two rules with one key, the later one stands in the dictionary.
  unfoldable pub rule_for : Request → List (PreBodyRule S) → Option (PreBodyRule S)
  rule_for r [] = none
  rule_for r (rule ∷ rules) = elim (rule_for r rules) [
    | some found ↦ some found
    | none ↦ if upper rule.method == upper r.method && rule.path == r.path then some rule else none
  ]

  -- What the middleware does with the throttler's outcome; an exception that is no `HTTPException`
  -- goes on.
  abbrev answer_or : Exec S (Option Response) → Outcome (Unit {0}) → Exec S (Option Response)
  answer_or app (ok _) = app
  answer_or app (raise (http e)) =
      pure (some (record { status_code = e.status_code; detail = e.detail; headers = e.headers }))
  answer_or app (raise e) = throw e

  abbrev guarded :
      Exec S (Option Response) → Request → Option (PreBodyRule S) → Exec S (Option Response)
  guarded app r none = app
  guarded app r (some rule) = λ s. answer_or app (rule.throttler r s).0 (rule.throttler r s).1

  -- `PreBodyIPThrottlingMiddleware.__call__`: `app` is the rest of the application, which answers by itself.
  unfoldable pub pre_body :
      List (PreBodyRule S) → Bool → Request → Exec S (Option Response) → Exec S (Option Response)
  unfolding rule_for
  pre_body rules is_http r app = if is_http then guarded app r (rule_for r rules) else app

-- `PRE_BODY_IP_THROTTLED_ROUTES` and the rules that `FastAPIFactory` makes of them
abbrev pub pre_body_ip_throttled_routes : List (Text × Text)
pre_body_ip_throttled_routes =
    (codes "POST", codes "/api/v1/auth/token")
    ∷ (codes "POST", codes "/api/v1/auth/token/refresh")
    ∷ (codes "POST", codes "/api/v1/auth/token/revoke")
    ∷ (codes "POST", codes "/api/v1/users")
    ∷ []

unfoldable pub pre_body_rules : {S : Type 0} → (Request → Exec S (Unit {0})) → List (PreBodyRule S)
pre_body_rules throttler =
    map (λ route. record { method = route.0; path = route.1; throttler = throttler })
      pre_body_ip_throttled_routes

-- A request for one of these routes.
abbrev pub asks_for : (Text → Text) → Request → List (Text × Text) → Bool
asks_for upper r routes = any (λ route. upper route.0 == upper r.method && route.1 == r.path) routes

module _ {S : Type 0} (upper : Text → Text) (throttler : Request → Exec S (Unit {0}))
    (r : Request) where
  abbrev rules_of : List (Text × Text) → List (PreBodyRule S)
  rules_of routes =
      map (λ route. record { method = route.0; path = route.1; throttler = throttler }) routes

  rule_for-no_route :
      (routes : List (Text × Text))
      → asks_for upper r routes ≡ false
      → rule_for upper r (rules_of routes) ≡ none
  unfolding rule_for
  rule_for-no_route [] h = refl
  rule_for-no_route (route ∷ routes) h =
      let here : (upper route.0 == upper r.method && route.1 == r.path) ≡ false = ground arith in
      rw (rule_for-no_route routes (ground arith), here)

  rule_for-rules_of :
      (routes : List (Text × Text))
      → asks_for upper r routes ≡ true
      → (rule : PreBodyRule S) × (rule_for upper r (rules_of routes) ≡ some rule)
        × (rule.throttler ≡ throttler)
  unfolding rule_for
  rule_for-rules_of [] h = ground arith
  rule_for-rules_of (route ∷ routes) h = elim (Bool-cases (asks_for upper r routes)) [
    | inl later ↦ let (rule, found, same) = rule_for-rules_of routes later in (rule, rw found, same)
    | inr no_later ↦
        let here : (upper route.0 == upper r.method && route.1 == r.path) ≡ true = ground arith in
        (
          record { method = route.0; path = route.1; throttler = throttler },
          rw (rule_for-no_route routes no_later, here),
          refl,
        )
  ]

module _ {S : Type 0} (upper : Text → Text) (limit : Text → ℕ → Exec S Bool)
    (build_key : Request → Text) where
  -- On the application's rules, for a request of one of the throttled routes: the limiter is asked once,
  -- for cost 1; if it refuses, the answer has status 429 and the rest of the application does not run;
  -- if not, the rest of the application runs next.
  pub pre_body_lem :
      (r : Request) (app : Exec S (Option Response)) (s : S) (limited : Bool) (s' : S)
      → asks_for upper r pre_body_ip_throttled_routes ≡ true
      → limit (build_key r) 1 s ≡ (ok limited, s')
      → pre_body upper (pre_body_rules (throttle limit build_key 1)) true r app s ≡ (
          if limited
          then (
            ok (
                some
                  (record { status_code = 429; detail = codes "Too many requests"; headers = [] })),
            s',
          )
          else app s')
  unfolding pre_body throttle pre_body_rules
  pre_body_lem r app s true s' asks asked =
      let (rule, found, same) =
        rule_for-rules_of upper (throttle limit build_key 1) r pre_body_ip_throttled_routes asks in
      rw (found, same, asked)
  pre_body_lem r app s false s' asks asked =
      let (rule, found, same) =
        rule_for-rules_of upper (throttle limit build_key 1) r pre_body_ip_throttled_routes asks in
      rw (found, same, asked)
