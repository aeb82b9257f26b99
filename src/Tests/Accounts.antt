-- ===== src/Tests/Accounts.antt =====
-- Registering, logging in and revoking.
use fastdjango.Base.{
  none, ◌≡◌, refl, false, any, same_text, codes, [], ◌∷◌, ◌==◌, int_eq, strip, lstrip, is_space,
  partition, is_in,
}
use fastdjango.Base.Int.{ℤ}
use fastdjango.Outcome.{Outcome, ok}
use fastdjango.Model.{User, RegisterUserDto}
use fastdjango.Dtos.{register_user_dto, fits_names}
use fastdjango.Engine.Memory.{Tables, memory, memory-IsRelational, memory-IsHealthy}
use fastdjango.Accounts.{normalize_register_user_data, normalize_username, normalize_email}
use fastdjango.PasswordService.{is_weak_password}
use fastdjango.UseCases.Accounts.{persist_user_data, register_user}
use fastdjango.UnitOfWork.{World}
use fastdjango.UseCases.Registration.{
  IsIdempotent, account, persist_user_data-normalized, register_user-creates, new_user, new_row,
}
use fastdjango.Tests.Fixtures.{platform, passwords, tables, world}

abbrev pub cat : RegisterUserDto
cat = record {
  email = codes "cat@x.org";
  username = codes "cat";
  first_name = [];
  last_name = [];
  password = codes "long enough";
}

pub platform-IsIdempotent : IsIdempotent platform
platform-IsIdempotent x y h = refl

pub cat_normalizes : normalize_register_user_data platform cat ≡ ok cat
unfolding normalize_register_user_data register_user_dto fits_names normalize_username
    normalize_email strip lstrip is_space partition
cat_normalizes = refl

persist_user_data-normalized_example : persist_user_data platform cat ≡ ok (account cat)
persist_user_data-normalized_example =
    persist_user_data-normalized platform cat cat cat_normalizes platform-IsIdempotent

abbrev registered : Outcome User × World Tables
registered = register_user platform memory passwords cat world

register_user-creates_example :
    (id : ℤ) × (any (λ r. r.id == id) (memory.users tables) ≡ false)
    × (registered.0 ≡ ok (new_user cat (codes "plong enough") id))
    × (memory.users registered.1.committed
        ≡ new_row cat (codes "plong enough") id ∷ memory.users tables)
    × (memory.refresh_sessions registered.1.committed ≡ memory.refresh_sessions tables)
    × (registered.1.scope ≡ none)
unfolding is_weak_password is_in same_text
register_user-creates_example =
    register_user-creates platform memory passwords memory-IsRelational memory-IsHealthy world refl
      cat cat cat_normalizes refl refl platform-IsIdempotent
