-- ===== src/Delivery/Stores.antt =====
-- `AsyncThrottlerFactory` of src/fastapi_template/infrastructure/throttled/async_throttler_factory.py: the life of
-- the shared store. A store is the number of its creation; the Redis client that it has opened, if it has,
-- is a parameter of the disposal.
use fastdjango.Base.{
  ℕ, ◌+◌, ◌≡◌, refl, Bool, true, false, List, [], ◌∷◌, Option, none, some, Option-cases, inl, inr,
  arith,
}
use fastdjango.Errors.{Exception}
use fastdjango.Outcome.{Outcome, ok, raise}

pub data CloseMethod : Type 0 where
  aclose close disconnect : CloseMethod

-- Which methods of the client can be called, and what a call raises, if it does.
pub record Client : Type 0 where
  pub has_aclose : Bool
  pub has_close : Bool
  pub has_disconnect : Bool
  pub fails : Option Exception

pub record StoreState : Type 0 where
  pub store : Option ℕ
  pub created : ℕ
  pub closed : List (ℕ × CloseMethod)

-- `__post_init__`
unfoldable pub new_store_state : StoreState
new_store_state = record { store = some 0; created = 1; closed = [] }

abbrev pub with_store : StoreState → Option ℕ → ℕ × StoreState
with_store f (some store) = (store, f)
with_store f none = (f.created, record f { store = some f.created; created = f.created + 1 })

-- `_get_store`, which `__call__` passes to the limiter
unfoldable pub get_store : StoreState → ℕ × StoreState
get_store f = with_store f f.store

-- `_close_method`
unfoldable pub close_method : Client → Option CloseMethod
close_method client = elim client.has_aclose [
  | true ↦ some aclose
  | false ↦ elim client.has_close [
    | true ↦ some close
    | false ↦ elim client.has_disconnect [ true ↦ some disconnect | false ↦ none ]
  ]
]

abbrev raised : Option Exception → Outcome (Unit {0})
raised none = ok tt
raised (some e) = raise e

abbrev close_with : ℕ → Client → Option CloseMethod → StoreState → Outcome (Unit {0}) × StoreState
close_with store client none f = (ok tt, f)
close_with store client (some method) f =
    (raised client.fails, record f { closed = (store, method) ∷ f.closed })

abbrev close_client : ℕ → Option Client → StoreState → Outcome (Unit {0}) × StoreState
unfolding close_method
close_client store none f = (ok tt, f)
close_client store (some client) f = close_with store client (close_method client) f

abbrev dispose_of : (ℕ → Option Client) → Option ℕ → StoreState → Outcome (Unit {0}) × StoreState
unfolding close_client
dispose_of existing_redis_client none f = (ok tt, f)
dispose_of existing_redis_client (some store) f = close_client store (existing_redis_client store) f

-- `dispose`: the store is forgotten first.
unfoldable pub dispose_store : (ℕ → Option Client) → StoreState → Outcome (Unit {0}) × StoreState
unfolding dispose_of
dispose_store existing_redis_client f =
    dispose_of existing_redis_client f.store (record f { store = none })

module _ (existing_redis_client : ℕ → Option Client) where
  forgotten :
      (store : Option ℕ) (f : StoreState)
      → f.store ≡ none
      → (dispose_of existing_redis_client store f).1.store ≡ none
  unfolding dispose_of
  forgotten none f h = h
  forgotten (some store) f h = elim (Option-cases (existing_redis_client store)) [
    | inl e ↦ rw e h
    | inr (client, e) ↦ elim (Option-cases (close_method client)) [
      | inl g ↦ ground arith
      | inr (method, g) ↦ ground arith
    ]
  ]

  -- The store is forgotten, whether or not closing raises.
  pub dispose_store-forgets :
      (f : StoreState) → (dispose_store existing_redis_client f).1.store ≡ none
  unfolding dispose_store
  dispose_store-forgets f = forgotten f.store (record f { store = none }) refl

  idle :
      (f : StoreState)
      → f.store ≡ none
      → (dispose_store existing_redis_client f ≡ (ok tt, f)) × ((get_store f).0 ≡ f.created)
  unfolding dispose_store get_store dispose_of
  idle f h = (rw h, rw h)

-- Whether or not closing raises, a second disposal closes nothing and returns, and the next limiter gets
-- a new store.
pub dispose_store-again :
    (existing_redis_client again : ℕ → Option Client) (f : StoreState)
    → (dispose_store again (dispose_store existing_redis_client f).1
        ≡ (ok tt, (dispose_store existing_redis_client f).1))
      × ((get_store (dispose_store existing_redis_client f).1).0
          ≡ (dispose_store existing_redis_client f).1.created)
dispose_store-again existing_redis_client again f =
    idle again (dispose_store existing_redis_client f).1
      (dispose_store-forgets existing_redis_client f)
