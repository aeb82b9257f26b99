-- ===== src/Tests/Registering.antt =====
-- Registrations that are refused.
use fastdjango.Base.{
  inl, arith, ◌≡◌, refl, same_text, same_int, codes, [], is_in, strip, lstrip, is_space, partition,
  map, leb, ◌&&◌, ◌+◌, ℕ, if◌then◌else◌,
}
use fastdjango.Errors.{
  error, weak_password_error, user_already_exists_error, user_repository_conflict_error,
}
use fastdjango.Outcome.{raise}
use fastdjango.Model.{RegisterUserDto}
use fastdjango.Platform.{Platform}
use fastdjango.Dtos.{register_user_dto, fits_names}
use fastdjango.Engine.{admits_user}
use fastdjango.Engine.Memory.{memory, memory-IsRelational, memory-IsHealthy}
use fastdjango.UserRepository.{create}
use fastdjango.UserRepository.Creation.{LowersMessages, create-duplicate}
use fastdjango.PasswordService.{is_weak_password}
use fastdjango.UseCases.Accounts.{register_user}
use fastdjango.UseCases.Refresh.{at_rest}
use fastdjango.UseCases.Registration.{account, register_user-weak, register_user-taken}
use fastdjango.Accounts.{normalize_register_user_data, normalize_username, normalize_email}
use fastdjango.Tests.Fixtures.{platform, passwords, tables, world}

abbrev cat : RegisterUserDto
cat = record {
  email = codes "ann@x.org";
  username = codes "cat";
  first_name = [];
  last_name = [];
  password = codes "long enough";
}

abbrev weak_cat : RegisterUserDto
weak_cat = record cat { password = codes "short" }

passes : Unit {0}
unfolding normalize_register_user_data register_user_dto fits_names normalize_username
    normalize_email strip lstrip is_space partition is_weak_password is_in same_text same_int
passes = tt

register_user-taken_example :
    register_user platform memory passwords cat world
    ≡ (raise (error user_already_exists_error), at_rest tables 6)
unfolding passes
register_user-taken_example =
    register_user-taken platform memory passwords memory-IsRelational memory-IsHealthy world refl
      cat cat refl refl refl

register_user-weak_example :
    register_user platform memory passwords weak_cat world
    ≡ (raise (error weak_password_error), world)
unfolding passes
register_user-weak_example =
    register_user-weak platform memory passwords memory-IsRelational memory-IsHealthy world refl
      weak_cat weak_cat refl (inl (omega arith))

abbrev lower_code : ℕ → ℕ
lower_code c = if leb b'A' c && leb c b'Z' then c + 32 else c

abbrev lowering : Platform
lowering = record platform { lower = map lower_code }

lowering-LowersMessages : LowersMessages lowering
lowering-LowersMessages = record { email = refl; username = refl }

create-duplicate_example :
    ((create memory lowering (account cat) (codes "hash") tables).0
      ≡ raise (error user_repository_conflict_error))
    × (memory.users (create memory lowering (account cat) (codes "hash") tables).1
        ≡ memory.users tables)
    × (memory.refresh_sessions (create memory lowering (account cat) (codes "hash") tables).1
        ≡ memory.refresh_sessions tables)
unfolding admits_user same_text
create-duplicate_example =
    create-duplicate lowering memory memory-IsRelational tables (account cat) (codes "hash")
      lowering-LowersMessages refl
