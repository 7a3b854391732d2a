-- ===== src/Mqtt/Client.antt =====
-- `_process_message` and the loop of `_run_client` in app/mqtt/client.py.
pub mod Keeps
use fleet_tracking_backend.Prelude.{
  ℕ, Option, none, some, List, [], ◌∷◌, ◌==◌, not, if◌then◌else◌, Bool,
}
use fleet_tracking_backend.Errors.{Result, ok, err, ◌>>=◌}
use fleet_tracking_backend.Store.{Database, Assigned}
use fleet_tracking_backend.Store.Session.{Session}
use fleet_tracking_backend.Mqtt.Topic.{Text, parse_topic}
use fleet_tracking_backend.Mqtt.Payload.{GpsMessage, Decoder, parse_payload}
use fleet_tracking_backend.Mqtt.Handler.{handle_gps_message}

-- A message as the broker hands it over, with what the server assigns should a fix be stored.
pub record Delivery : Type 0 where
  pub topic : Text
  pub payload : List ℕ
  pub assigned : Assigned

-- `except Exception`: the loop goes on with what was committed before the message.
unfoldable pub survive : Database → Result Database → Database
survive d (ok d') = d'
survive d (err e) = d

module _ (s : Session) (c : Decoder) (prefix : Text) where
  for_message : Database → Assigned → ℕ → Option GpsMessage → Result Database
  for_message d a id none = ok d
  for_message d a id (some m) =
      if not (m.vehicle_id == id) then ok d else do (stored, d') ← handle_gps_message s d a m; ok d'

  for_topic : Database → Delivery → Option ℕ → Result Database
  unfolding for_message
  for_topic d x none = ok d
  for_topic d x (some id) = do
    message ← parse_payload c x.payload
    for_message d x.assigned id message

  unfoldable pub process_message : Database → Delivery → Result Database
  unfolding for_topic
  process_message d x = for_topic d x (parse_topic prefix x.topic)

  -- `async for message in client.messages`
  unfoldable pub consume : Database → List Delivery → Database
  unfolding survive
  consume d [] = d
  consume d (x ∷ xs) = consume (survive d (process_message d x)) xs
