-- ===== src/Examples/Shutdown.antt =====
-- The theorems about the subscriber's task, applied to a lost connection.
use fleet_tracking_backend.Prelude.{◌≡◌, refl, Bool, true, false, some, List, [], ◌∷◌}
use fleet_tracking_backend.Mqtt.Client.{Delivery, consume, process_message}
use fleet_tracking_backend.Mqtt.Task.{connected, backing_off, connection_lost, slept, run, next}
use fleet_tracking_backend.Mqtt.Task.Shutdown.{CancelEnds, connections, run-consume, cancel_once}
use fleet_tracking_backend.Examples.Reference.{reference}
use fleet_tracking_backend.Examples.Parts.{one_fix}
use fleet_tracking_backend.Examples.Fleet.{fleet}
use fleet_tracking_backend.Examples.Live.{fleet_prefix, delivery}

-- The fix is stored, the connection lost, and a cancellation cuts the sleep short; the message comes
-- again on the next connection, which is lost too.
abbrev two_connections : List (List Delivery × Bool)
two_connections = (delivery ∷ [], true) ∷ (delivery ∷ [], false) ∷ []

run-consume_example :
    run reference one_fix fleet_prefix
      (record { phase = connected; database = fleet })
      (connections reference one_fix fleet_prefix two_connections)
    ≡ some (record {
      phase = connected;
      database = consume reference one_fix fleet_prefix fleet (delivery ∷ delivery ∷ []);
    })
run-consume_example = run-consume reference one_fix fleet_prefix fleet two_connections

cancel_once_example :
    CancelEnds reference one_fix fleet_prefix backing_off
      (connection_lost ∷ slept ∷ [])
      (record { phase = connected; database = fleet })
unfolding run next consume process_message
cancel_once_example =
    cancel_once reference one_fix fleet_prefix backing_off fleet (connection_lost ∷ slept ∷ [])
      (record { phase = connected; database = fleet }) tt (tt, (tt, tt)) refl
