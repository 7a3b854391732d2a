-- ===== src/Mqtt/Task.antt =====
-- `mqtt_subscriber_task` of app/mqtt/client.py with `_run_client`, and how the lifespan of
-- app/main.py ends it: the reconnect loop as a state machine. The connection itself is aiomqtt's; it
-- is seen through the events that it raises.
pub mod Shutdown
use fleet_tracking_backend.Prelude.{Bool, true, false, Option, none, some, List, [], ◌∷◌}
use fleet_tracking_backend.Store.{Database}
use fleet_tracking_backend.Store.Session.{Session}
use fleet_tracking_backend.Mqtt.Topic.{Text}
use fleet_tracking_backend.Mqtt.Payload.{Decoder}
use fleet_tracking_backend.Mqtt.Client.{Delivery, survive, process_message}

-- Where the task stands: inside `_run_client`; asleep after a lost connection; ended by a
-- CancelledError; ended by an exception that is neither that nor a MqttError.
pub data Phase : Type 0 where
  connected backing_off cancelled crashed : Phase

-- What the task meets: a message; `task.cancel()` while a message is handled, before or after its
-- commit has reached the database; a MqttError; the end of the sleep; `task.cancel()` at any other
-- time; any other exception out of `_run_client`.
pub data Event : Type 0 where
  delivered : Delivery → Event
  interrupted : (committed : Bool) → Delivery → Event
  connection_lost slept cancel failed : Event

pub record Task : Type 0 where
  pub phase : Phase
  pub database : Database

module _ (s : Session) (c : Decoder) (prefix : Text) where
  -- The body of the `while True`; none where the event cannot come up. A CancelledError in the sleep is
  -- suppressed, and the loop goes on; one in the handling of a message is no `Exception`, so the
  -- consuming loop lets it through.
  dispatch : Phase → Event → Database → Option Task
  unfolding survive
  dispatch connected (delivered x) d =
      some (record { phase = connected; database = survive d (process_message s c prefix d x) })
  dispatch connected (interrupted false x) d = some (record { phase = cancelled; database = d })
  dispatch connected (interrupted true x) d =
      some (record { phase = cancelled; database = survive d (process_message s c prefix d x) })
  dispatch connected connection_lost d = some (record { phase = backing_off; database = d })
  dispatch connected cancel d = some (record { phase = cancelled; database = d })
  dispatch connected failed d = some (record { phase = crashed; database = d })
  dispatch connected slept d = none
  dispatch backing_off slept d = some (record { phase = connected; database = d })
  dispatch backing_off cancel d = some (record { phase = connected; database = d })
  dispatch backing_off (delivered x) d = none
  dispatch backing_off (interrupted committed x) d = none
  dispatch backing_off connection_lost d = none
  dispatch backing_off failed d = none
  dispatch cancelled e d = none
  dispatch crashed e d = none

  unfoldable pub next : Task → Event → Option Task
  unfolding dispatch
  next t e = dispatch t.phase e t.database

  and_then : Option Task → (Task → Option Task) → Option Task
  and_then none f = none
  and_then (some t) f = f t

  unfoldable pub run : Task → List Event → Option Task
  unfolding next and_then
  run t [] = some t
  run t (e ∷ es) = and_then (next t e) (λ t'. run t' es)
