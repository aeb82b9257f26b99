-- ===== src/Tests/Settings.antt =====
-- Database URLs, the session factory and versions.
use fastdjango.Base.{
  ◌⊎◌, true, ◌≡◌, ◌↔◌, refl, codes, [], ◌∷◌, some, none, ℕ, Option, leb, ◌&&◌, if◌then◌else◌, ◌-◌,
}
use fastdjango.Base.Int.{pos, negsuc}
use fastdjango.Errors.{Exception, error, database_error}
use fastdjango.SessionFactory.{FactoryState, async_url, new_factory, open_session, dispose}
use fastdjango.SessionFactory.Url.{async_url_lem, is_rewritten}
use fastdjango.SessionFactory.Lifecycle.{
  Reachable, start, opens, disposes, IsBalanced, Reachable-IsBalanced,
}
use fastdjango.Versions.{compare_keys, compare_versions}
use fastdjango.Versions.Comparison.{part, compare_keys-equal}

async_url_lem_example :
    (async_url (codes "postgres://db/app") ≡ codes "postgresql+psycopg://db/app")
    × (async_url (codes "postgresql://db/app") ≡ codes "postgresql+psycopg://db/app")
    × (async_url (codes "sqlite:///db/app") ≡ codes "sqlite+aiosqlite:///db/app")
    × ((is_rewritten (codes "mysql://db") ≡ true)
        ⊎ (async_url (codes "mysql://db") ≡ codes "mysql://db"))
    × (async_url (async_url (codes "mysql://db")) ≡ async_url (codes "mysql://db"))
async_url_lem_example = async_url_lem (codes "db/app") (codes "mysql://db")

-- two sessions, a disposal that raises, one that does not, and a session
abbrev stuck : ℕ → Option Exception
stuck engine = some (error database_error)

abbrev opened : FactoryState
opened = (open_session (open_session new_factory).1).1

abbrev reopened : FactoryState
reopened = (open_session (dispose (λ _. none) (dispose stuck opened).1).1).1

reopened-Reachable : Reachable reopened
reopened-Reachable = opens (dispose (λ _. none) (dispose stuck opened).1).1 (
    disposes (λ _. none) (dispose stuck opened).1
      (disposes stuck opened (opens (open_session new_factory).1 (opens new_factory start))))

Reachable-IsBalanced_example : IsBalanced reopened
Reachable-IsBalanced_example = Reachable-IsBalanced reopened reopened-Reachable

compare_keys-equal_example :
    (compare_keys (2 ∷ []) (2 ∷ 0 ∷ 0 ∷ []) ≡ pos 0)
    ↔ ((i : ℕ) → part (2 ∷ []) i ≡ part (2 ∷ 0 ∷ 0 ∷ []) i)
compare_keys-equal_example = compare_keys-equal (2 ∷ []) (2 ∷ 0 ∷ 0 ∷ [])

abbrev ascii_decimal : ℕ → Option ℕ
ascii_decimal c = if leb b'0' c && leb c b'9' then some (c - 48) else none

-- "1.9.3" is below "1.10", whatever follows the numbers
compare_versions_test :
    compare_versions ascii_decimal (codes "1.9.3rc1") (codes "1.10") ≡ some (negsuc 0)
unfolding compare_versions
compare_versions_test = refl
