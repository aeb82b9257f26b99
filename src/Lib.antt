-- ===== src/Lib.antt =====
-- A verification library of the FastAPI template: its core, from the use cases down to the statements
-- that the repositories send to the database.
--
-- How the parts interact. A use case (src/fastapi_template/core/*/use_cases) opens one unit of work
-- (src/fastapi_template/infrastructure/sqlalchemy/unit_of_work.py), calls services
-- (src/fastapi_template/core/*/services), and these call the two repositories
-- (src/fastapi_template/core/*/infrastructure/sqlalchemy/repositories) through the scope that the unit of
-- work has opened. The repositories map rows to entities and report what they do not find as None.
--
-- Which file models which part.
--   Base, Outcome      helpers: lists, texts as lists of code points, Python's integers, and programs:
--                      `Exec S A` takes a state to an outcome (a value or an exception) and a state
--   Errors             the exception classes with their base classes, and isinstance
--   Model, Dtos        entities, DTOs with the validation of their fields, rows, and dates
--   Platform           the clock, the random sources, the hashes, the Unicode tables and the address
--                      check as parameters
--   Engine             the database session as a record of operations, the schema's constraints, and the
--                      laws of relational statements; Engine/Memory is an implementation of it
--   UserRepository, SessionRepository   the repositories, a definition for each method
--   SessionFactory     the database URL (src/fastapi_template/infrastructure/sqlalchemy/session.py) and the
--                      life of the cached engine
--   UnitOfWork         scopes, commit, rollback and close, and the context variable (World.scope)
--   Clock              the calls of the clock and of the random sources
--   RefreshSessionService, PasswordService, Accounts, Jwt   the services
--   UseCases           the use cases, an `execute` each
--   Delivery           the HTTP side: Requests (addresses of clients), Bearer (authentication), Controllers
--                      (endpoints and exception handlers), Throttling (limits and the middleware)
--                      Reachable (sequences of requests), Identity (access tokens there and back),
--                      Stores (the limiter's store), Websocket (the health check's messages),
--                      Assembly (the application of entrypoints/fastapi/factory.py and its end)
--   Updater            management/dependency_updater: Tags and Choice (which container tag is the latest),
--                      Images (references), Registry (pages of tags; `urlopen`, with the
--                      redirects that it follows, is a parameter), Lookups (GitHub and
--                      PyPI), Containers (replacement in files), Requirements and Sync (pyproject.toml),
--                      Workflows (GitHub Actions), Run and Cli, for which the results of look-ups are given
--   Versions           the comparison of versions in
--                      management/dependency_updater/sync_pyproject_dependency_versions.py
--   Tests              concrete inputs
--
-- State. A `World` holds the committed database, the scope's view of it, and the number of calls of the
-- clock and of the random sources so far; each call returns what the platform gives for its number. A
-- statement of the database returns an outcome and the next state of the transaction, so an exception in
-- the middle of a method leaves what was written before it. A commit that raises has published nothing: a
-- connection that is lost while the server commits, of which the client learns nothing, is left out. Dates
-- count microseconds from the year 1; adding a time past the year 9999 raises, as in Python.
--
-- The dependency updater reads and writes a `Repository`: the texts of the files, the commands that have
-- been run and the printed lines. Its regular expressions are written out as functions that read a text from
-- left to right; where a match has been replaced, the scan skips the rest of the match.
--
-- Termination. The loops over a registry's pages count down from the 20 rounds of the source. All other
-- loops of the modelled code are structural recursions; only the decimal printing of a number counts down
-- on fuel, which starts at the number itself: each digit divides it by ten.
--
-- Not modelled: the packages behind the parameters (the database driver, pydantic's address check,
-- password hashing, JSON Web Tokens, Unicode data), logging, tracing, dependency injection, and the
-- options of the middlewares; routing and JSON, which the web framework does; of the dependency updater,
-- the search for files and for image references in them, the reading of TOML, the threads,
-- and what a spinner draws; and migrations/.
pub mod Base
pub mod Errors
pub mod Outcome
pub mod Model
pub mod Platform
pub mod Dtos
pub mod Engine
pub mod UserRepository
pub mod SessionRepository
pub mod UnitOfWork
pub mod SessionFactory
pub mod Clock
pub mod RefreshSessionService
pub mod PasswordService
pub mod Accounts
pub mod Jwt
pub mod UseCases
pub mod Delivery
pub mod Versions
pub mod Updater
pub mod Tests
