-- ===== src/Clock.antt =====
-- `datetime.now(tz=UTC)` and the random sources, as actions.
use fastdjango.Base.{ℕ, some, Text}
use fastdjango.Model.{DateTime, utc}
use fastdjango.Outcome.{Exec, pure, ◌>>=◌}
use fastdjango.Platform.{Platform}
use fastdjango.UnitOfWork.{World, draw}

abbrev pub at_utc : ℕ → DateTime
at_utc t = record { wall = t; tzinfo = some utc }

module _ {Db : Type 0} (platform : Platform) where
  unfoldable pub now_utc : Exec (World Db) DateTime
  unfolding draw
  now_utc = do n ← draw; pure (at_utc (platform.now n))

  unfoldable pub token_urlsafe : ℕ → Exec (World Db) Text
  unfolding draw
  token_urlsafe nbytes = do n ← draw; pure (platform.token_urlsafe nbytes n)

  unfoldable pub uuid7 : Exec (World Db) ℕ
  unfolding draw
  uuid7 = do n ← draw; pure (platform.uuid7 n)
