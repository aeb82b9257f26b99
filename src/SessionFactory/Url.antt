-- ===== src/SessionFactory/Url.antt =====
-- The rewriting of database URLs.
use fastdjango.Base.{
  ◌≡◌, ◌⊎◌, refl, Bool-cases, inl, inr, Text, codes, starts_with, ◌++◌, Bool, ◌||◌, true, arith,
}
use fastdjango.SessionFactory.{replace_prefix, async_url, drop_prefix}

-- Rewriting a rewritten URL changes nothing.
async_url-async_url : (url : Text) → async_url (async_url url) ≡ async_url url
unfolding async_url starts_with replace_prefix
async_url-async_url url = elim (Bool-cases (starts_with url (codes "postgres://"))) [
  | inl short ↦ rw short refl
  | inr not_short ↦ elim (Bool-cases (starts_with url (codes "postgresql://"))) [
    | inl long ↦ rw (not_short, long) refl
    | inr not_long ↦ elim (Bool-cases (starts_with url (codes "sqlite:///"))) [
      | inl sqlite ↦ rw (not_short, not_long, sqlite) refl
      | inr other ↦ rw (not_short, not_long, other, not_short, not_long, other) refl
    ]
  ]
]

-- The URL starts with one of the three schemes that have another driver.
abbrev pub is_rewritten : Text → Bool
is_rewritten url =
    starts_with url (codes "postgres://")
    || starts_with url (codes "postgresql://")
    || starts_with url (codes "sqlite:///")

-- A URL of any other scheme stays as it is.
unchanged : (url : Text) → (is_rewritten url ≡ true) ⊎ (async_url url ≡ url)
unfolding async_url
unchanged url = elim (Bool-cases (starts_with url (codes "postgres://"))) [
  | inl short ↦ inl (ground arith)
  | inr not_short ↦ elim (Bool-cases (starts_with url (codes "postgresql://"))) [
    | inl long ↦ inl (ground arith)
    | inr not_long ↦ elim (Bool-cases (starts_with url (codes "sqlite:///"))) [
      | inl sqlite ↦ inl (ground arith)
      | inr other ↦ inr (rw (not_short, not_long, other) refl)
    ]
  ]
]

-- Whatever follows the scheme: postgres:// and postgresql:// become postgresql+psycopg://, and sqlite:///
-- becomes sqlite+aiosqlite:///, with the rest kept; a URL with none of the three is kept; and
-- rewriting a rewritten URL changes nothing.
pub async_url_lem :
    (rest url : Text)
    → (async_url (codes "postgres://" ++ rest) ≡ codes "postgresql+psycopg://" ++ rest)
      × (async_url (codes "postgresql://" ++ rest) ≡ codes "postgresql+psycopg://" ++ rest)
      × (async_url (codes "sqlite:///" ++ rest) ≡ codes "sqlite+aiosqlite:///" ++ rest)
      × ((is_rewritten url ≡ true) ⊎ (async_url url ≡ url))
      × (async_url (async_url url) ≡ async_url url)
unfolding async_url starts_with replace_prefix drop_prefix
async_url_lem rest url = (refl, refl, refl, unchanged url, async_url-async_url url)
