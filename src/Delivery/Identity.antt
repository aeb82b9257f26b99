-- ===== src/Delivery/Identity.antt =====
-- Access tokens from `issue_access_token` to `JWTAuth.__call__`.
use fastdjango.Base.{
  ℕ, ◌+◌, ◌≤◌, ◌<◌, ◌≡◌, refl, Bool, [], ◌∷◌, some, Text, codes, same_text, eq_refl, text_eq,
  Bool-cases, inl, inr, arith, leb,
}
use fastdjango.Base.Int.{ℤ}
use fastdjango.Outcome.{ok}
use fastdjango.Model.{max_wall}
use fastdjango.Platform.{Platform}
use fastdjango.UnitOfWork.{World, draw}
use fastdjango.Clock.{at_utc}
use fastdjango.Jwt.{
  Jwt, JwtServiceSettings, Claims, str, get, put, is_str, str_of_int, required_claims,
  access_token_expire, access_payload, issue_access_token, decode_token,
}
use fastdjango.Jwt.RoundTrip.{IsDecimal, magnitude, power_of_ten, parse_int-str_of_int}
use fastdjango.Delivery.Bearer.{
  AuthenticatedState, get_subject_user_id, int_of, get_token_payload, authenticate,
}

-- What PyJWT documents: a token that it signed is decoded with the same key and algorithm, from the time
-- of its issue until its expiry, which counts in whole seconds, and its texts come back.
pub record Verifies (jwt : Jwt) (tokens : JwtServiceSettings) : Type 0 where
  pub accepts :
      (user_id : ℤ) (issued expires now : ℕ) (token : Text)
      → jwt.encode
          (access_payload tokens user_id (at_utc issued) (at_utc expires) [])
          tokens.secret_key
          tokens.algorithm
        ≡ ok token
      → issued ≤ now
      → now + 1000000 ≤ expires
      → (claims : Claims) × (jwt.decode token tokens.secret_key
            (tokens.algorithm ∷ [])
            required_claims
            now
          ≡ ok claims)
        × ((name s : Text)
            → get name (access_payload tokens user_id (at_utc issued) (at_utc expires) [])
              ≡ some (str s)
            → get name claims ≡ some (str s))

payload_subject :
    (tokens : JwtServiceSettings) (user_id : ℤ) (issued expires : ℕ)
    → get (codes "sub") (access_payload tokens user_id (at_utc issued) (at_utc expires) [])
      ≡ some (str (str_of_int user_id))
unfolding get put access_payload same_text
payload_subject tokens user_id issued expires = refl

payload_typ :
    (tokens : JwtServiceSettings) (user_id : ℤ) (issued expires : ℕ)
    → get (codes "typ") (access_payload tokens user_id (at_utc issued) (at_utc expires) [])
      ≡ some (str tokens.typ)
unfolding get put access_payload same_text
payload_typ tokens user_id issued expires = refl

module _ {Db : Type 0} (platform : Platform) (jwt : Jwt) (tokens : JwtServiceSettings) (user_id : ℤ)
    (access : Text) where
  -- A token that was issued has been signed with an expiry.
  issued_signed :
      (w : World Db)
      → (issue_access_token platform jwt tokens user_id [] w).0 ≡ ok access
      → jwt.encode
          (access_payload tokens user_id
            (at_utc (platform.now w.draws))
            (at_utc (platform.now w.draws + access_token_expire tokens))
            [])
          tokens.secret_key
          tokens.algorithm
        ≡ ok access
  unfolding issue_access_token
  issued_signed w h =
      elim (Bool-cases (leb (platform.now w.draws + access_token_expire tokens) max_wall)) [
        | inl e ↦ ground arith
        | inr e ↦ ground arith
      ]

  -- If PyJWT decodes what it signed, from the issue until the expiry, and the digits of ASCII count as
  -- decimal digits: an access token that was issued for a user whose identifier fits 32 bits
  -- authenticates exactly that user, at any time from then until a second before it expires.
  pub issue_access_token-authenticates :
      (w v : World Db) (required : Bool)
      → IsDecimal platform.decimal
      → Verifies jwt tokens
      → magnitude user_id < 4294967296
      → (issue_access_token platform jwt tokens user_id [] w).0 ≡ ok access
      → platform.now w.draws ≤ platform.now v.draws
      → platform.now v.draws + 1000000 ≤ platform.now w.draws + access_token_expire tokens
      → (state : AuthenticatedState) × (authenticate platform jwt tokens required (some access) v
          ≡ (ok (some state), record v { draws = v.draws + 1 }))
        × (state.user_id ≡ user_id)
  unfolding authenticate get_token_payload decode_token draw get_subject_user_id int_of is_str
      power_of_ten
  issue_access_token-authenticates w v required decimal verifies small issued after before =
      let expires : ℕ = platform.now w.draws + access_token_expire tokens in
      let (claims, decoded, kept) =
        verifies.accepts user_id (platform.now w.draws) expires (platform.now v.draws) access
          (issued_signed w issued) after before in
      let subject =
        kept (codes "sub") (str_of_int user_id)
          (payload_subject tokens user_id (platform.now w.draws) expires) in
      let typ =
        kept (codes "typ") tokens.typ (payload_typ tokens user_id (platform.now w.draws) expires) in
      let read =
        parse_int-str_of_int platform.decimal 9 user_id decimal (omega arith) (omega arith) in
      (
        record { jwt_payload = claims; user_id = user_id },
        rw (decoded, typ, eq_refl tokens.typ, subject, read),
        refl,
      )
