-- ===== src/Tests/Sequences.antt =====
-- A run of requests.
use fastdjango.Base.{refl}
use fastdjango.Base.Int.{pos}
use fastdjango.Engine.Memory.{Tables, memory, memory-IsRelational}
use fastdjango.Engine.Queries.{IsConsistent}
use fastdjango.UnitOfWork.{World}
use fastdjango.Delivery.Controllers.{
  create_user_endpoint, refresh_token_endpoint, staff_user_lookup_endpoint,
}
use fastdjango.Delivery.Reachable.{
  refreshed, created, looked_up, start, then_serves, Reaches-IsGuarded,
}
use fastdjango.Tests.Fixtures.{platform, jwt, passwords, sessions, tokens, world, token}
use fastdjango.Engine.Guarded.{IsGrown}
use fastdjango.Tests.Accounts.{cat}
use fastdjango.Tests.Refreshing.{tables-IsConsistent}

abbrev rotated : World Tables
rotated = (refresh_token_endpoint platform memory jwt sessions tokens token world).1

abbrev registered : World Tables
registered = (create_user_endpoint platform memory passwords cat rotated).1

abbrev read : World Tables
read = (staff_user_lookup_endpoint memory (pos 1) (pos 2) registered).1

Reaches-IsGuarded_example :
    IsGrown (memory.users world.committed) (memory.users read.committed)
    × IsConsistent memory read.committed
Reaches-IsGuarded_example =
    Reaches-IsGuarded platform memory memory-IsRelational jwt passwords sessions tokens world read
      refl tables-IsConsistent
      (then_serves (then_serves (then_serves start (refreshed token)) (created cat))
        (looked_up (pos 1) (pos 2)))
