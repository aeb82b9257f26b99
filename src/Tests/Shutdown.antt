-- ===== src/Tests/Shutdown.antt =====
-- The end of an application that has a store and an engine, when the store's client does not close.
use fastdjango.Base.{ℕ, ◌≡◌, refl, Option, none, some, true, false}
use fastdjango.Errors.{database_error, error}
use fastdjango.Outcome.{ok, raise}
use fastdjango.SessionFactory.{FactoryState, new_factory, open_session}
use fastdjango.Delivery.Stores.{Client, new_store_state, dispose_store}
use fastdjango.Delivery.Assembly.{dispose_runtime_resources, dispose_runtime_resources-raises}

abbrev broken_client : Client
broken_client = record {
  has_aclose = true;
  has_close = true;
  has_disconnect = false;
  fails = some (error database_error);
}

abbrev broken : ℕ → Option Client
broken store = some broken_client

abbrev opened : FactoryState
opened = (open_session new_factory).1

broken-raises : (dispose_store broken new_store_state).0 ≡ raise (error database_error)
unfolding dispose_store new_store_state
broken-raises = refl

dispose_runtime_resources-raises_example :
    ((dispose_runtime_resources broken (λ _. none) (ok tt) (new_store_state, opened)).0
      ≡ raise (error database_error))
    × ((dispose_runtime_resources broken (λ _. none) (ok tt) (new_store_state, opened)).1.store
        ≡ none)
    × ((dispose_runtime_resources broken (λ _. none) (ok tt) (new_store_state, opened)).2 ≡ opened)
dispose_runtime_resources-raises_example =
    dispose_runtime_resources-raises broken (ok tt) new_store_state opened (λ _. none)
      (error database_error) broken-raises
