-- ===== src/Jwt/Issue.antt =====
-- `issue_access_token` where it succeeds.
use fastdjango.Base.{ℕ, ◌+◌, ◌≡◌, [], Text}
use fastdjango.Base.Int.{ℤ}
use fastdjango.Outcome.{ok}
use fastdjango.Model.{add_timedelta}
use fastdjango.Platform.{Platform}
use fastdjango.UnitOfWork.{in_transaction}
use fastdjango.Clock.{at_utc}
use fastdjango.Jwt.{
  Jwt, JwtServiceSettings, access_token_expire, access_payload, issue_access_token,
}

-- An access token for this user can be issued at this call of the clock: its expiry lies before the
-- year 10000, and PyJWT signs the payload.
pub record Issues (platform : Platform) (jwt : Jwt) (tokens : JwtServiceSettings) (user_id : ℤ)
    (draws : ℕ) (access : Text) : Type 0 where
  pub in_range :
      add_timedelta (at_utc (platform.now draws)) (access_token_expire tokens)
      ≡ ok (at_utc (platform.now draws + access_token_expire tokens))
  pub signed :
      jwt.encode
        (access_payload tokens user_id
          (at_utc (platform.now draws))
          (at_utc (platform.now draws + access_token_expire tokens))
          [])
        tokens.secret_key
        tokens.algorithm
      ≡ ok access

pub issue_access_token-Issues :
    {Db : Type 0} (platform : Platform) (jwt : Jwt) (tokens : JwtServiceSettings) (user_id : ℤ)
    (access : Text) (committed db : Db) (draws : ℕ)
    → Issues platform jwt tokens user_id draws access
    → issue_access_token platform jwt tokens user_id [] (in_transaction committed db draws)
      ≡ (ok access, in_transaction committed db (draws + 1))
unfolding issue_access_token
issue_access_token-Issues platform jwt tokens user_id access committed db draws i =
    rw (i.in_range, i.signed)
