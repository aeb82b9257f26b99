-- ===== src/Platform.antt =====
-- What the services take from the run-time environment and from third-party packages: the clock, the
-- random sources, the hash functions and Python's Unicode tables. Each is a parameter; a field that
-- may answer differently at each call takes the number of the call.
use fastdjango.Base.{ℕ, Bool, Option, Text}
use fastdjango.Outcome.{Outcome}

pub record Platform : Type 0 where
  -- datetime.now(tz=UTC), in microseconds
  pub now : ℕ → ℕ
  -- secrets.token_urlsafe(nbytes), uuid.uuid7()
  pub token_urlsafe : ℕ → ℕ → Text
  pub uuid7 : ℕ → ℕ
  -- hashlib.sha256(s.encode()).hexdigest()
  pub sha256_hexdigest : Text → Text
  -- PasswordHash.recommended() of pwdlib: a salted hash, and a check that raises at a text that is
  -- the hash of no known algorithm
  pub hash_password : ℕ → Text → Text
  pub verify_password : Text → Text → Outcome Bool
  -- unicodedata.normalize("NFKC", s), and methods of `str`
  pub nfkc : Text → Text
  pub casefold : Text → Text
  pub lower : Text → Text
  pub is_numeric : Text → Bool
  -- unicodedata.decimal of a character
  pub decimal : ℕ → Option ℕ
  -- pydantic's EmailStr: the normalised address, if the text is one
  pub validate_email : Text → Option Text
