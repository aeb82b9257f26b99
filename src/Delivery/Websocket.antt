-- ===== src/Delivery/Websocket.antt =====
-- `HealthCheckWebSocketController` of
-- src/fastapi_template/core/health/delivery/fastapi/controllers/health_check_websocket.py, on a socket whose
-- messages stand in their order, the last one first.
use fastdjango.Base.{ℕ, ◌≡◌, List, [], ◌∷◌, Text, codes, if◌then◌else◌}
use fastdjango.Errors.{Exception, isinstance, health_check_error}
use fastdjango.Errors.Bases.{isinstance-exception}
use fastdjango.Outcome.{Outcome, ok, raise, Exec, throw, ◌>>◌}
use fastdjango.Delivery.Controllers.{system_health}

pub data Message : Type 0 where
  accepted : Message
  sent : Text → Message
  closed : ℕ → Message

module _ {S : Type 0} (check_database : Exec S (Unit {0})) where
  emit : Message → Exec (S × List Message) (Unit {0})
  emit m (s, messages) = (ok tt, (s, m ∷ messages))

  -- the use case, which writes no message
  abbrev run_use_case : Exec (S × List Message) (Unit {0})
  unfolding system_health
  run_use_case (s, messages) =
      ((system_health check_database s).0, ((system_health check_database s).1, messages))

  -- WS_1011_INTERNAL_ERROR, and the code of a close without one
  abbrev internal_error : ℕ
  internal_error = 1011

  abbrev normal_closure : ℕ
  normal_closure = 1000

  abbrev unavailable : Exec (S × List Message) (Unit {0})
  unfolding emit
  unavailable = do emit (sent (codes "unavailable")); emit (closed internal_error)

  abbrev available : Exec (S × List Message) (Unit {0})
  unfolding emit
  available = do emit (sent (codes "ok")); emit (closed normal_closure)

  -- after `try: execute()`: the `except` clause returns from the handler
  abbrev answer : Outcome (Unit {0}) → Exec (S × List Message) (Unit {0})
  unfolding available unavailable isinstance
  answer (ok _) = available
  answer (raise e) = if isinstance e health_check_error then unavailable else throw e

  unfoldable pub health_check_websocket : Exec (S × List Message) (Unit {0})
  unfolding emit run_use_case answer
  health_check_websocket = do emit accepted; λ s. answer (run_use_case s).0 (run_use_case s).1

  -- If the check of the database returns, the socket is accepted, gets the status `ok` and is closed.
  pub health_check_websocket-ok :
      (s : S)
      → (check_database s).0 ≡ ok tt
      → health_check_websocket (s, [])
        ≡ (ok tt, ((check_database s).1, closed 1000 ∷ sent (codes "ok") ∷ accepted ∷ []))
  unfolding health_check_websocket system_health
  health_check_websocket-ok s h = rw h

  -- If the check raises, whatever it raises, the status is `unavailable` and the code of the close 1011.
  pub health_check_websocket-fails :
      (s : S) (e : Exception)
      → (check_database s).0 ≡ raise e
      → health_check_websocket (s, [])
        ≡ (ok tt, ((check_database s).1, closed 1011 ∷ sent (codes "unavailable") ∷ accepted ∷ []))
  unfolding health_check_websocket system_health isinstance
  health_check_websocket-fails s e h = rw (h, isinstance-exception e)
