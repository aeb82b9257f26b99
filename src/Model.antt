-- ===== src/Model.antt =====
-- The data that the components exchange: entities (core/user/entities, core/authentication/entities),
-- DTOs (core/*/dtos), the rows of the two tables (core/*/infrastructure/sqlalchemy/models) and dates.
use fastdjango.Base.{ℕ, ◌+◌, Bool, Option, none, some, Text, ltb, if◌then◌else◌, leb}
use fastdjango.Base.Int.{ℤ}
use fastdjango.Errors.{error, type_error, overflow_error}
use fastdjango.Outcome.{Outcome, ok, raise}

-- A fixed offset from UTC, in microseconds.
pub data TzInfo : Type 0 where
  utc : TzInfo
  east west : ℕ → TzInfo

-- Python's `datetime`: the wall time in microseconds, and `tzinfo`.
pub record DateTime : Type 0 where
  pub wall : ℕ
  pub tzinfo : Option TzInfo

abbrev pub ahead : TzInfo → ℕ
ahead (east n) = n
ahead _ = 0

abbrev pub behind : TzInfo → ℕ
behind (west n) = n
behind _ = 0

-- `a > b`, which raises if one has a time zone and the other has none.
unfoldable pub is_after : DateTime → DateTime → Outcome Bool
is_after a b = elim a.tzinfo [
  | none ↦ elim b.tzinfo [ none ↦ ok (ltb b.wall a.wall) | some _ ↦ raise (error type_error) ]
  | some y ↦ elim b.tzinfo [
    | none ↦ raise (error type_error)
    | some z ↦ ok (ltb (b.wall + behind z + ahead y) (a.wall + behind y + ahead z))
  ]
]

-- The last microsecond of the year 9999, counted from the first of the year 1.
abbrev pub max_wall : ℕ
max_wall = 315537897599999999

-- `datetime + timedelta`, which raises past the year 9999.
unfoldable pub add_timedelta : DateTime → ℕ → Outcome DateTime
add_timedelta t delta =
    if leb (t.wall + delta) max_wall
    then ok (record t { wall = t.wall + delta })
    else raise (error overflow_error)

pub record User : Type 0 where
  pub id : ℤ
  pub username : Text
  pub email : Text
  pub first_name : Text
  pub last_name : Text
  pub password_hash : Text
  pub is_active : Bool
  pub is_staff : Bool
  pub is_superuser : Bool

pub record RefreshSession : Type 0 where
  pub id : ℕ
  pub refresh_token_hash : Text
  pub user : User
  pub user_agent : Text
  pub ip_address_trace : Text
  pub created_at : DateTime
  pub expires_at : DateTime
  pub last_used_at : Option DateTime
  pub revoked_at : Option DateTime
  pub rotation_counter : ℕ

-- `revoked_at is None and expires_at > now`
unfoldable pub is_active_at : RefreshSession → DateTime → Outcome Bool
unfolding is_after
is_active_at session now = elim session.revoked_at [
  | some _ ↦ ok Bool.false
  | none ↦ is_after session.expires_at now
]

pub record RegisterUserDto : Type 0 where
  pub email : Text
  pub username : Text
  pub first_name : Text
  pub last_name : Text
  pub password : Text

pub record PersistUserDto : Type 0 where
  pub email : Text
  pub username : Text
  pub first_name : Text
  pub last_name : Text
  pub is_active : Bool
  pub is_staff : Bool
  pub is_superuser : Bool

pub record CreateRefreshSessionDto : Type 0 where
  pub id : ℕ
  pub user : User
  pub refresh_token_hash : Text
  pub user_agent : Text
  pub ip_address_trace : Text
  pub created_at : DateTime
  pub last_used_at : Option DateTime
  pub expires_at : DateTime
  pub revoked_at : Option DateTime
  pub rotation_counter : ℕ

pub record ReplaceRefreshSessionTokenDto : Type 0 where
  pub session_id : ℕ
  pub expected_refresh_token_hash : Text
  pub refresh_token_hash : Text
  pub last_used_at : DateTime
  pub rotation_counter : ℕ

pub record IssueTokenDto : Type 0 where
  pub username : Text
  pub password : Text

pub record TokenRequestContextDto : Type 0 where
  pub user_agent : Text
  pub ip_address_trace : Option Text

pub record RefreshTokenDto : Type 0 where
  pub refresh_token : Text

pub record TokenDto : Type 0 where
  pub access_token : Text
  pub refresh_token : Text

-- A row of `users`.
pub record UserModel : Type 0 where
  pub id : ℤ
  pub username : Text
  pub email : Text
  pub first_name : Text
  pub last_name : Text
  pub password_hash : Text
  pub is_active : Bool
  pub is_staff : Bool
  pub is_superuser : Bool

-- A row of `refresh_sessions`.
pub record RefreshSessionModel : Type 0 where
  pub id : ℕ
  pub refresh_token_hash : Text
  pub user_id : ℤ
  pub user_agent : Text
  pub ip_address_trace : Text
  pub created_at : DateTime
  pub last_used_at : Option DateTime
  pub expires_at : DateTime
  pub revoked_at : Option DateTime
  pub rotation_counter : ℕ
