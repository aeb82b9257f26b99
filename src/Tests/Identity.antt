-- ===== src/Tests/Identity.antt =====
-- A token for the user 1, issued and read.
use fastdjango.Base.{
  ◌≡◌, sym, refl, true, Option, some, Text, [], ◌∷◌, codes, same_text, text_eq, arith, ℕ,
}
use fastdjango.Base.Int.{ℤ, pos}
use fastdjango.Outcome.{ok}
use fastdjango.Clock.{at_utc}
use fastdjango.UnitOfWork.{draw}
use fastdjango.Jwt.{
  Jwt, Claims, Value, str, date, get, put, str_of_int, access_payload, issue_access_token,
}
use fastdjango.Jwt.RoundTrip.{IsDecimal}
use fastdjango.Delivery.Bearer.{AuthenticatedState, authenticate}
use fastdjango.Delivery.Identity.{Verifies, issue_access_token-authenticates}
use fastdjango.Tests.Fixtures.{platform, tokens, world}

abbrev text_of : Option Value → Text
text_of (some (str s)) = s
text_of _ = []

-- a package whose tokens are the subjects
abbrev open_jwt : Jwt
unfolding get
open_jwt = record {
  encode = λ payload key algorithm. ok (text_of (get (codes "sub") payload));
  decode = λ token key algorithms required now.
      ok ((codes "sub", str token) ∷ (codes "typ", str (codes "at+jwt")) ∷ []);
}

payload : ℤ → ℕ → ℕ → Claims
payload user_id issued expires =
    (codes "sub", str (str_of_int user_id))
    ∷ (codes "exp", date (at_utc expires))
    ∷ (codes "iat", date (at_utc issued))
    ∷ (codes "typ", str (codes "at+jwt"))
    ∷ []

payload_lem :
    (user_id : ℤ) (issued expires : ℕ)
    → access_payload tokens user_id (at_utc issued) (at_utc expires) []
      ≡ payload user_id issued expires
unfolding payload put access_payload same_text
payload_lem user_id issued expires = refl

kept :
    (user_id : ℤ) (issued expires : ℕ) (name s : Text)
    → get name (payload user_id issued expires) ≡ some (str s)
    → get name ((codes "sub", str (str_of_int user_id)) ∷ (codes "typ", str (codes "at+jwt")) ∷ [])
      ≡ some (str s)
unfolding get payload
kept user_id issued expires name s h = ground arith

open_jwt-Verifies : Verifies open_jwt tokens
unfolding open_jwt get put access_payload same_text
open_jwt-Verifies = record {
  accepts = λ user_id issued expires now token signed from until.
      let subject : token ≡ str_of_int user_id = ground arith in
      (
        (codes "sub", str token) ∷ (codes "typ", str (codes "at+jwt")) ∷ [],
        refl,
        λ name s h.
            rw subject (
              kept user_id issued expires name s (rw (sym (payload_lem user_id issued expires)) h)),
      );
}

ascii-IsDecimal : IsDecimal platform.decimal
ascii-IsDecimal = λ d h. ground arith

issue_access_token-authenticates_example :
    (state : AuthenticatedState) × (authenticate platform open_jwt tokens true
        (some (codes "1"))
        (record world { draws = 6 })
      ≡ (ok (some state), record world { draws = 7 }))
    × (state.user_id ≡ pos 1)
unfolding issue_access_token draw access_payload get put same_text str_of_int
issue_access_token-authenticates_example =
    issue_access_token-authenticates platform open_jwt tokens (pos 1) (codes "1") world
      (record world { draws = 6 }) true ascii-IsDecimal open_jwt-Verifies (omega arith) refl
      (omega arith) (omega arith)
