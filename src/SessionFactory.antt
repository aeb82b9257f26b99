-- ===== src/SessionFactory.antt =====
-- `DatabaseSettings` and `SQLAlchemySessionFactory` of
-- src/fastapi_template/infrastructure/sqlalchemy/session.py. An engine is the number of its creation.
pub mod Url
pub mod Lifecycle
use fastdjango.Base.{
  ℕ, ◌+◌, List, [], ◌∷◌, ◌++◌, Option, none, some, Text, codes, starts_with, if◌then◌else◌,
}
use fastdjango.Errors.{Exception}
use fastdjango.Outcome.{Outcome, ok, raise}

-- `s[len(prefix):]`
unfoldable pub drop_prefix : Text → Text → Text
drop_prefix [] s = s
drop_prefix (c ∷ prefix) [] = []
drop_prefix (c ∷ prefix) (d ∷ s) = drop_prefix prefix s

-- `s.replace(prefix, new, 1)` of a text that starts with the prefix
unfoldable pub replace_prefix : Text → Text → Text → Text
unfolding drop_prefix
replace_prefix prefix new s = new ++ drop_prefix prefix s

-- `async_url`, from the secret value of `url`
unfoldable pub async_url : Text → Text
unfolding starts_with replace_prefix
async_url raw_url =
    if starts_with raw_url (codes "postgres://")
    then replace_prefix (codes "postgres://") (codes "postgresql+psycopg://") raw_url
    else if starts_with raw_url (codes "postgresql://")
    then replace_prefix (codes "postgresql://") (codes "postgresql+psycopg://") raw_url
    else if starts_with raw_url (codes "sqlite:///")
    then replace_prefix (codes "sqlite:///") (codes "sqlite+aiosqlite:///") raw_url
    else raw_url

-- The fields of the factory: the cached engine, and the engine that the cached session factory is bound
-- to; and outside it, the engines created and disposed of so far.
pub record FactoryState : Type 0 where
  pub engine : Option ℕ
  pub session_factory : Option ℕ
  pub created : ℕ
  pub disposed : List ℕ

abbrev pub new_factory : FactoryState
new_factory = record { engine = none; session_factory = none; created = 0; disposed = [] }

abbrev pub with_factory : FactoryState → Option ℕ → ℕ × FactoryState
with_factory f none = (
  f.created,
  record f { engine = some f.created; session_factory = some f.created; created = f.created + 1 },
)
with_factory f (some engine) = (engine, f)

-- `__call__`: the engine that the new session uses
unfoldable pub open_session : FactoryState → ℕ × FactoryState
open_session f = with_factory f f.session_factory

-- The rest of `dispose` with an engine: if disposing of the engine raises, the fields stay.
abbrev pub dispose_engine : FactoryState → ℕ → Option Exception → Outcome (Unit {0}) × FactoryState
dispose_engine f engine (some e) = (raise e, f)
dispose_engine f engine none =
    (ok tt, record f { disposed = engine ∷ f.disposed; engine = none; session_factory = none })

abbrev pub dispose_of :
    (ℕ → Option Exception) → FactoryState → Option ℕ → Outcome (Unit {0}) × FactoryState
dispose_of fails f none = (ok tt, f)
dispose_of fails f (some engine) = dispose_engine f engine (fails engine)

-- `fails` is what `engine.dispose()` raises, if it does.
unfoldable pub dispose : (ℕ → Option Exception) → FactoryState → Outcome (Unit {0}) × FactoryState
dispose fails f = dispose_of fails f f.engine
