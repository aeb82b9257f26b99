-- ===== src/Tests/Refreshing.antt =====
-- Refreshing and replaying a token.
use fastdjango.Base.{
  inr, some, arith, ◌+◌, ◌&&◌, ◌==◌, nat_eq, int_eq, text_eq, ◌≡◌, refl, same_text, same_int, codes,
  [], ◌∷◌,
}
use fastdjango.Errors.{error, invalid_refresh_token_error, expired_refresh_token_error}
use fastdjango.Outcome.{ok, raise}
use fastdjango.Model.{is_active_at, add_timedelta, RefreshTokenDto, RefreshSessionModel}
use fastdjango.Engine.{update_where, consistent_users, consistent_sessions}
use fastdjango.Engine.Memory.{Tables, memory, memory-IsRelational, memory-IsHealthy}
use fastdjango.Engine.Queries.{IsConsistent}
use fastdjango.SessionRepository.{refresh_session_from_model}
use fastdjango.SessionRepository.Rows.{IsFreshHash}
use fastdjango.UnitOfWork.{World}
use fastdjango.Clock.{at_utc}
use fastdjango.RefreshSessionService.Rotation.{next_token}
use fastdjango.Jwt.Issue.{Issues}
use fastdjango.UseCases.Tokens.{refresh_token}
use fastdjango.UseCases.Refresh.{
  CanRotate, at_rest, rotated_db, refresh_token-rotates, refresh_token-stores,
  refresh_token-unknown, refresh_token-inactive, refresh_token-inactive_user,
}
use fastdjango.UseCases.Replay.{refresh_token-replayed}
use fastdjango.Tests.Fixtures.{
  platform, jwt, sessions, tokens, ann, bob, session, tables, world, token,
}

program : Unit {0}
unfolding same_text same_int is_active_at add_timedelta consistent_users consistent_sessions
    refresh_session_from_model
program = tt

pub tables-IsConsistent : IsConsistent memory tables
unfolding program
tables-IsConsistent = record { users_consistent = refl; sessions_consistent = refl }

session-CanRotate : CanRotate platform memory sessions world token session ann
unfolding program
session-CanRotate = record {
  found = refl;
  owned = refl;
  active = refl;
  consistent = tables-IsConsistent;
  fresh = refl;
}

pub tokens-Issues : Issues platform jwt tokens ann.id 8 (codes "signed")
unfolding program
tokens-Issues = record { in_range = refl; signed = refl }

refresh_token-replayed_example :
    ((refresh_token platform memory jwt sessions tokens token world).0
      ≡ ok (record { access_token = codes "signed"; refresh_token = b't' ∷ 6 ∷ [] }))
    × (refresh_token platform memory jwt sessions tokens token
          (refresh_token platform memory jwt sessions tokens token world).1
        ≡ (
          raise (error invalid_refresh_token_error),
          (refresh_token platform memory jwt sessions tokens token world).1,
        ))
refresh_token-replayed_example =
    refresh_token-replayed platform memory jwt sessions tokens memory-IsRelational memory-IsHealthy
      world refl token session ann (codes "signed") session-CanRotate refl tokens-Issues

refresh_token-rotates_example : refresh_token platform memory jwt sessions tokens token world ≡ (
  ok (record { access_token = codes "signed"; refresh_token = b't' ∷ 6 ∷ [] }),
  at_rest (rotated_db platform memory sessions world token session) 9,
)
refresh_token-rotates_example =
    refresh_token-rotates platform memory jwt sessions tokens memory-IsRelational memory-IsHealthy
      world refl token session ann session-CanRotate (codes "signed") refl tokens-Issues

abbrev used : Tables
used = (refresh_token platform memory jwt sessions tokens token world).1.committed

refresh_token-stores_example :
    (memory.users used ≡ memory.users tables)
    × (memory.refresh_sessions used
        ≡ update_where
            (λ r.
              r.id == session.id
              && r.refresh_token_hash == platform.sha256_hexdigest token.refresh_token)
            (λ r. record r {
              refresh_token_hash = platform.sha256_hexdigest (next_token platform sessions 5);
              last_used_at = some (at_utc (platform.now 7));
              rotation_counter = session.rotation_counter + 1;
            })
            (memory.refresh_sessions tables))
    × IsConsistent memory used
    × IsFreshHash (platform.sha256_hexdigest token.refresh_token) (memory.refresh_sessions used)
refresh_token-stores_example =
    refresh_token-stores platform memory jwt sessions tokens memory-IsRelational memory-IsHealthy
      world refl token session ann session-CanRotate (codes "signed") refl tokens-Issues

abbrev unknown : RefreshTokenDto
unknown = record { refresh_token = codes "guess" }

refresh_token-unknown_example :
    refresh_token platform memory jwt sessions tokens unknown world
    ≡ (raise (error invalid_refresh_token_error), world)
unfolding program
refresh_token-unknown_example =
    refresh_token-unknown platform memory jwt sessions tokens memory-IsRelational memory-IsHealthy
      world refl unknown refl

-- the same world, so late that the session has expired
abbrev late_world : World Tables
late_world = record world { draws = 1000 }

refresh_token-inactive_example :
    refresh_token platform memory jwt sessions tokens token late_world
    ≡ (raise (error expired_refresh_token_error), record late_world { draws = 1001 })
unfolding program
refresh_token-inactive_example =
    refresh_token-inactive platform memory jwt sessions tokens memory-IsRelational memory-IsHealthy
      late_world refl token session ann refl refl (inr (omega arith))

-- the same world, with the session of an inactive user
abbrev bobs_session : RefreshSessionModel
bobs_session = record session { user_id = bob.id }

abbrev bobs_world : World Tables
bobs_world = record world { committed = record tables { refresh_sessions = bobs_session ∷ [] } }

bobs_session-CanRotate : CanRotate platform memory sessions bobs_world token bobs_session bob
unfolding program
bobs_session-CanRotate = record {
  found = refl;
  owned = refl;
  active = refl;
  consistent = record { users_consistent = refl; sessions_consistent = refl };
  fresh = refl;
}

refresh_token-inactive_user_example :
    refresh_token platform memory jwt sessions tokens token bobs_world
    ≡ (raise (error invalid_refresh_token_error), at_rest bobs_world.committed 8)
refresh_token-inactive_user_example =
    refresh_token-inactive_user platform memory jwt sessions tokens memory-IsRelational
      memory-IsHealthy bobs_world refl token bobs_session bob bobs_session-CanRotate refl
