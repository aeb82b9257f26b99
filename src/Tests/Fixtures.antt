-- ===== src/Tests/Fixtures.antt =====
-- A deployment with readable stand-ins for the clock, the random sources and the packages, two users
-- and a session.
use fastdjango.Base.{
  ◌*◌, ◌-◌, true, false, ◌&&◌, [], ◌∷◌, none, some, codes, leb, ◌==◌, text_eq, if◌then◌else◌,
}
use fastdjango.Base.Int.{pos}
use fastdjango.Errors.{error, invalid_token_error}
use fastdjango.Outcome.{ok, raise}
use fastdjango.Model.{UserModel, RefreshSessionModel, RefreshTokenDto}
use fastdjango.Platform.{Platform}
use fastdjango.Engine.Memory.{Tables}
use fastdjango.UnitOfWork.{World}
use fastdjango.Clock.{at_utc}
use fastdjango.RefreshSessionService.{RefreshSessionServiceSettings}
use fastdjango.PasswordService.{PasswordServiceSettings}
use fastdjango.Jwt.{Jwt, JwtServiceSettings}

abbrev pub platform : Platform
platform = record {
  now = λ n. 1000000 * n;
  token_urlsafe = λ nbytes n. b't' ∷ n ∷ [];
  uuid7 = λ n. n;
  sha256_hexdigest = λ s. b'h' ∷ s;
  hash_password = λ n s. b'p' ∷ s;
  verify_password = λ s stored. ok ((b'p' ∷ s) == stored);
  nfkc = λ s. s;
  casefold = λ s. s;
  lower = λ s. s;
  is_numeric = λ s. false;
  decimal = λ c. if leb b'0' c && leb c b'9' then some (c - 48) else none;
  validate_email = λ s. some s;
}

abbrev pub jwt : Jwt
jwt = record {
  encode = λ payload key algorithm. ok (codes "signed");
  decode = λ token key algorithms required now. raise (error invalid_token_error);
}

abbrev pub sessions : RefreshSessionServiceSettings
sessions = record { refresh_token_nbytes = 32; refresh_token_ttl_days = 30 }

abbrev pub tokens : JwtServiceSettings
tokens = record {
  secret_key = codes "secret";
  algorithm = codes "HS256";
  typ = codes "at+jwt";
  access_token_expire_minutes = 15;
}

abbrev pub passwords : PasswordServiceSettings
passwords = record { min_length = 8; max_length = 128 }

abbrev pub ann : UserModel
ann = record {
  id = pos 1;
  username = codes "ann";
  email = codes "ann@x.org";
  first_name = codes "Ann";
  last_name = codes "Lee";
  password_hash = codes "pcorrect horse";
  is_active = true;
  is_staff = true;
  is_superuser = false;
}

abbrev pub bob : UserModel
bob = record ann {
  id = pos 2;
  username = codes "bob";
  email = codes "bob@x.org";
  is_active = false;
  is_staff = false;
}

abbrev pub session : RefreshSessionModel
session = record {
  id = 3;
  refresh_token_hash = codes "htoken";
  user_id = pos 1;
  user_agent = codes "agent";
  ip_address_trace = [];
  created_at = at_utc 0;
  last_used_at = none;
  expires_at = at_utc 1000000000;
  revoked_at = none;
  rotation_counter = 0;
}

abbrev pub tables : Tables
tables = record { users = bob ∷ ann ∷ []; refresh_sessions = session ∷ [] }

abbrev pub world : World Tables
world = record { committed = tables; scope = none; draws = 5 }

abbrev pub token : RefreshTokenDto
token = record { refresh_token = codes "token" }
