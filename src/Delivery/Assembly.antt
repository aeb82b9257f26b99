-- ===== src/Delivery/Assembly.antt =====
-- `FastAPIFactory` of src/fastapi_template/entrypoints/fastapi/factory.py, with the `register` methods of the
-- controllers: an application is what the factory hands to the framework, in the order of its calls.
-- `_dispose_runtime_resources` of the same file ends it.
use fastdjango.Base.{
  ℕ, ◌∙◌, inl, inr, Option-cases, arith, ◌≡◌, refl, Bool, true, not, ◌||◌, ◌&&◌, List, [], ◌∷◌,
  ◌++◌, Option, none, some, Text, codes, ◌==◌, text_eq, same_text, any, if◌then◌else◌,
}
use fastdjango.Errors.{Exception}
use fastdjango.Outcome.{Outcome, ok, raise}
use fastdjango.SessionFactory.{FactoryState, dispose}
use fastdjango.Delivery.Throttling.{pre_body_ip_throttled_routes}
use fastdjango.Delivery.Stores.{Client, StoreState, dispose_store, dispose_store-forgets}

pub data Environment : Type 0 where
  local development staging production test ci : Environment

-- What a route depends on before its handler runs.
pub data Guard : Type 0 where
  jwt_auth staff_jwt_auth user_throttler : Guard

pub record Route : Type 0 where
  pub method : Text
  pub path : Text
  pub guards : List Guard

pub data Middleware : Type 0 where
  pre_body_ip_throttling trusted_host cors : Middleware

pub record App : Type 0 where
  pub docs_url : Option Text
  pub middlewares : List Middleware
  pub routes : List Route

abbrev post : Text
post = codes "POST"

abbrev get : Text
get = codes "GET"

-- What the `register` method of each controller adds. A websocket route, which has no method, stands under
-- an empty one.
abbrev health_check_route : Route
health_check_route = record { method = get; path = codes "/api/v1/health"; guards = [] }

abbrev health_check_websocket_route : Route
health_check_websocket_route = record { method = []; path = codes "/api/v1/health/ws"; guards = [] }

abbrev issue_token_route : Route
issue_token_route = record { method = post; path = codes "/api/v1/auth/token"; guards = [] }

abbrev refresh_token_route : Route
refresh_token_route = record {
  method = post;
  path = codes "/api/v1/auth/token/refresh";
  guards = [];
}

abbrev revoke_token_route : Route
revoke_token_route = record {
  method = post;
  path = codes "/api/v1/auth/token/revoke";
  guards = jwt_auth ∷ user_throttler ∷ [];
}

abbrev create_user_route : Route
create_user_route = record { method = post; path = codes "/api/v1/users"; guards = [] }

abbrev current_user_route : Route
current_user_route = record {
  method = get;
  path = codes "/api/v1/users/me";
  guards = jwt_auth ∷ [];
}

abbrev staff_user_lookup_route : Route
staff_user_lookup_route = record {
  method = get;
  path = codes "/api/v1/users/{user_id}";
  guards = staff_jwt_auth ∷ [];
}

unfoldable pub register_health_controller : List Route
register_health_controller = health_check_route ∷ health_check_websocket_route ∷ []

unfoldable pub register_authentication_controllers : List Route
register_authentication_controllers =
    issue_token_route ∷ refresh_token_route ∷ revoke_token_route ∷ []

unfoldable pub register_user_controllers : List Route
register_user_controllers = create_user_route ∷ current_user_route ∷ staff_user_lookup_route ∷ []

unfoldable pub register_controllers : List Route
unfolding register_health_controller register_authentication_controllers register_user_controllers
register_controllers =
    register_health_controller ++ register_authentication_controllers ++ register_user_controllers

unfoldable pub add_middlewares : Bool → Bool → List Middleware
add_middlewares add_trusted_hosts_middleware add_cors_middleware =
    (if add_trusted_hosts_middleware then trusted_host ∷ [] else [])
    ++ (if add_cors_middleware then cors ∷ [] else [])

unfoldable pub docs_url_of : Environment → Option Text
docs_url_of production = none
docs_url_of _ = some (codes "/docs")

unfoldable pub create_app : Environment → Bool → Bool → App
unfolding add_middlewares register_controllers docs_url_of
create_app environment add_trusted_hosts_middleware add_cors_middleware = record {
  docs_url = docs_url_of environment;
  middlewares =
      pre_body_ip_throttling ∷ add_middlewares add_trusted_hosts_middleware add_cors_middleware;
  routes = register_controllers;
}

abbrev is_throttled : Route → Bool
is_throttled route =
    any (λ t. t.0 == route.method && t.1 == route.path) pre_body_ip_throttled_routes

abbrev every : (Route → Bool) → List Route → Bool
every p [] = true
every p (route ∷ routes) = p route && every p routes

abbrev accepts_post : Route → Bool
accepts_post route = route.method == post

-- Every route of the application that accepts POST stands in the table of the routes that are throttled
-- before their body is read.
pub create_app-throttles :
    (environment : Environment) (trusted_hosts allows_cors : Bool)
    → every
        (λ route. not (accepts_post route) || is_throttled route)
        (create_app environment trusted_hosts allows_cors).routes
      ≡ true
unfolding create_app same_text
create_app-throttles environment trusted_hosts allows_cors = refl

-- The outcome of `served`, unless disposing raises.
abbrev unless_raised : Outcome (Unit {0}) → Outcome (Unit {0}) → Outcome (Unit {0})
unless_raised served (ok _) = served
unless_raised served (raise e) = raise e

-- `finally`: the store is disposed of first; if that raises, nothing after it runs.
abbrev finish :
    (ℕ → Option Exception)
    → Outcome (Unit {0})
    → FactoryState
    → Outcome (Unit {0}) × StoreState
    → Outcome (Unit {0}) × StoreState × FactoryState
unfolding dispose
finish fails served f (ok _, store) =
    (unless_raised served (dispose fails f).0, store, (dispose fails f).1)
finish fails served f (raise e, store) = (raise e, store, f)

-- `served` is what the framework passes in at the `yield`.
unfoldable pub dispose_runtime_resources :
    (ℕ → Option Client)
    → (ℕ → Option Exception)
    → Outcome (Unit {0})
    → StoreState × FactoryState
    → Outcome (Unit {0}) × StoreState × FactoryState
unfolding dispose_store finish
dispose_runtime_resources existing_redis_client fails served (store, f) =
    finish fails served f (dispose_store existing_redis_client store)

forgets_engine :
    (f : FactoryState)
    → ((dispose (λ _. none) f).0 ≡ ok tt) × ((dispose (λ _. none) f).1.engine ≡ none)
unfolding dispose
forgets_engine f = elim (Option-cases f.engine) [
  | inl e ↦ (rw e refl, rw e refl)
  | inr (engine, e) ↦ (rw e refl, rw e refl)
]

finish-ok :
    (served : Outcome (Unit {0})) (f : FactoryState) (r : Outcome (Unit {0}) × StoreState)
    → r.0 ≡ ok tt
    → ((finish (λ _. none) served f r).0 ≡ served)
      × ((finish (λ _. none) served f r).2.engine ≡ none)
unfolding finish
finish-ok served f (ok _, store) h = (rw (forgets_engine f).0 refl, (forgets_engine f).1)
finish-ok served f (raise e, store) h = ground arith

finish-raises :
    (fails : ℕ → Option Exception) (served : Outcome (Unit {0})) (f : FactoryState)
    (r : Outcome (Unit {0}) × StoreState) (e : Exception)
    → r.0 ≡ raise e
    → ((finish fails served f r).0 ≡ raise e)
      × ((finish fails served f r).1.store ≡ r.1.store)
      × ((finish fails served f r).2 ≡ f)
unfolding finish
finish-raises fails served f (ok _, store) e h = ground arith
finish-raises fails served f (raise e', store) e h = (h, refl, refl)

module _ (existing_redis_client : ℕ → Option Client) (served : Outcome (Unit {0}))
    (store : StoreState) (f : FactoryState) where
  -- If no disposal raises, the database engine is disposed of too and the application ends the
  -- way it was served.
  pub dispose_runtime_resources-ok :
      (dispose_store existing_redis_client store).0 ≡ ok tt
      → ((dispose_runtime_resources existing_redis_client (λ _. none) served (store, f)).0 ≡ served)
        × ((dispose_runtime_resources existing_redis_client (λ _. none) served (store, f)).2.engine
            ≡ none)
  unfolding dispose_runtime_resources
  dispose_runtime_resources-ok h = finish-ok served f (dispose_store existing_redis_client store) h

  -- If the store's disposal raises, so does the end of the application, whatever it was served with; the
  -- store is forgotten, and the database engine, if there is one, is never disposed of.
  pub dispose_runtime_resources-raises :
      (fails : ℕ → Option Exception) (e : Exception)
      → (dispose_store existing_redis_client store).0 ≡ raise e
      → ((dispose_runtime_resources existing_redis_client fails served (store, f)).0 ≡ raise e)
        × ((dispose_runtime_resources existing_redis_client fails served (store, f)).1.store ≡ none)
        × ((dispose_runtime_resources existing_redis_client fails served (store, f)).2 ≡ f)
  unfolding dispose_runtime_resources
  dispose_runtime_resources-raises fails e h =
      let (raised, kept_store, kept) =
        finish-raises fails served f (dispose_store existing_redis_client store) e h in
      (raised, kept_store ∙ dispose_store-forgets existing_redis_client store, kept)
