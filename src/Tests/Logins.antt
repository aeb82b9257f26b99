-- ===== src/Tests/Logins.antt =====
-- Logging in and revoking.
use fastdjango.Base.{
  ◌≡◌, refl, true, none, same_text, same_int, codes, [], ◌∷◌, int_eq, strip, lstrip, is_space,
}
use fastdjango.Errors.{
  error, invalid_refresh_token_error, expired_refresh_token_error, invalid_credentials_error,
  authenticated_user_not_found_error,
}
use fastdjango.Outcome.{ok, raise}
use fastdjango.Model.{
  UserModel, DateTime, is_active_at, add_timedelta, IssueTokenDto, TokenRequestContextDto,
}
use fastdjango.Engine.{consistent_users, consistent_sessions, admits_session}
use fastdjango.Engine.Memory.{Tables, memory, memory-IsRelational, memory-IsHealthy}
use fastdjango.SessionRepository.{refresh_session_from_model}
use fastdjango.SessionRepository.Revocation.{revoked, revoked_rows}
use fastdjango.UnitOfWork.{World}
use fastdjango.Clock.{at_utc}
use fastdjango.Accounts.{normalize_username}
use fastdjango.UseCases.Tokens.{issue_token, refresh_token, revoke_token}
use fastdjango.UseCases.Refresh.{at_rest}
use fastdjango.UseCases.Login.{
  IsRefused, wrong, issue_token-IsRefused, issue_token-accepted, new_session, first_token,
}
use fastdjango.UseCases.Revocation.{
  CanRevoke, revoke_token-unauthenticated, revoke_token-foreign, revoke_token-revokes,
  refresh_token-revoked,
}
use fastdjango.Tests.Fixtures.{
  platform, jwt, sessions, tokens, ann, bob, session, tables, world, token,
}
use fastdjango.Tests.Refreshing.{tables-IsConsistent, tokens-Issues}

names : Unit {0}
unfolding normalize_username strip lstrip is_space same_text same_int
names = tt

abbrev right_login : IssueTokenDto
right_login = record { username = codes " ann "; password = codes "correct horse" }

abbrev pub wrong_login : IssueTokenDto
wrong_login = record { username = codes "ann"; password = codes "correct house" }

abbrev context : TokenRequestContextDto
context = record { user_agent = codes "agent"; ip_address_trace = none }

pub wrong_login-IsRefused : IsRefused platform (memory.users tables) wrong_login
unfolding names
wrong_login-IsRefused = wrong ann refl refl refl

issue_token-IsRefused_example :
    issue_token platform memory jwt sessions tokens wrong_login context world
    ≡ (raise (error invalid_credentials_error), world)
issue_token-IsRefused_example =
    issue_token-IsRefused platform memory jwt sessions tokens memory-IsRelational memory-IsHealthy
      world refl tables-IsConsistent wrong_login context wrong_login-IsRefused

abbrev month_later : DateTime
month_later = at_utc 2592006000000

issue_token-accepted_example :
    (db : Tables) × (issue_token platform memory jwt sessions tokens right_login context world ≡ (
      ok (record {
        access_token = codes "signed";
        refresh_token = first_token platform sessions 5;
      }),
      at_rest db 9,
    ))
    × (memory.users db ≡ memory.users tables)
    × (memory.refresh_sessions db
        ≡ new_session platform sessions 5 context ann month_later ∷ memory.refresh_sessions tables)
unfolding names add_timedelta admits_session
issue_token-accepted_example =
    issue_token-accepted platform memory jwt sessions tokens memory-IsRelational memory-IsHealthy
      world refl tables-IsConsistent right_login context ann month_later (codes "signed") refl refl
      refl refl refl tokens-Issues

revoke_token-unauthenticated_example :
    revoke_token platform memory token bob.id world
    ≡ (raise (error authenticated_user_not_found_error), world)
unfolding names
revoke_token-unauthenticated_example =
    revoke_token-unauthenticated platform memory memory-IsRelational memory-IsHealthy world refl
      token bob.id tables-IsConsistent refl

session-CanRevoke : CanRevoke platform memory world token session ann ann
unfolding names is_active_at refresh_session_from_model
session-CanRevoke = record {
  authenticated = refl;
  found = refl;
  owned = refl;
  active = refl;
  consistent = tables-IsConsistent;
}

abbrev ended : Tables
ended = record tables { refresh_sessions = revoked (at_utc 6000000) session ∷ [] }

revoke_token-revokes_example :
    (revoke_token platform memory token ann.id world ≡ (ok tt, at_rest ended 7))
    × (memory.users ended ≡ memory.users tables)
    × (memory.refresh_sessions ended
        ≡ revoked_rows (at_utc 6000000) session (memory.refresh_sessions tables))
unfolding names
revoke_token-revokes_example =
    revoke_token-revokes platform memory memory-IsRelational memory-IsHealthy world refl token
      session ann ann session-CanRevoke refl

refresh_token-revoked_example :
    refresh_token platform memory jwt sessions tokens token
      (record (revoke_token platform memory token ann.id world).1 { draws = 99 })
    ≡ (
      raise (error expired_refresh_token_error),
      record (revoke_token platform memory token ann.id world).1 { draws = 100 },
    )
refresh_token-revoked_example =
    refresh_token-revoked platform memory memory-IsRelational memory-IsHealthy world refl token
      session ann ann session-CanRevoke refl jwt sessions tokens 99

-- the same world, in which Bob is active
abbrev active_bob : UserModel
active_bob = record bob { is_active = true }

abbrev two_users : World Tables
two_users = record world { committed = record tables { users = active_bob ∷ ann ∷ [] } }

token-CanRevoke : CanRevoke platform memory two_users token session ann active_bob
unfolding names is_active_at refresh_session_from_model consistent_users consistent_sessions
token-CanRevoke = record {
  authenticated = refl;
  found = refl;
  owned = refl;
  active = refl;
  consistent = record { users_consistent = refl; sessions_consistent = refl };
}

revoke_token-foreign_example :
    revoke_token platform memory token bob.id two_users
    ≡ (raise (error invalid_refresh_token_error), at_rest two_users.committed 6)
unfolding names
revoke_token-foreign_example =
    revoke_token-foreign platform memory memory-IsRelational memory-IsHealthy two_users refl token
      session ann active_bob token-CanRevoke refl
