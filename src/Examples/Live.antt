-- ===== src/Examples/Live.antt =====
-- The theorems about messages, reads and logins, applied to the fleet.
use fleet_tracking_backend.Prelude.{
  ◌↔◌, ◌≤◌, ◌≡◌, ◌≢◌, refl, true, none, some, [], ◌∷◌, ◌++◌, arith, inl, inr, Member, All-Member,
  ◌/◌,
}
use fleet_tracking_backend.Prelude.Int.{pos}
use fleet_tracking_backend.Errors.{ok}
use fleet_tracking_backend.Store.{Assigned, User}
use fleet_tracking_backend.Store.Session.{one_or_none, scalar_one_or_none, scalar, get}
use fleet_tracking_backend.Invariant.{IsValid}
use fleet_tracking_backend.Mqtt.Topic.{
  Text, slash, parse_topic, topic_of, digit_count, decimal, max_digits,
}
use fleet_tracking_backend.Mqtt.Topic.RoundTrip.{parse_topic-topic_of, parse_topic-slashed}
use fleet_tracking_backend.Mqtt.Payload.{GpsMessage, parse_payload}
use fleet_tracking_backend.Mqtt.Payload.Bounds.{HoldsFix, parse_payload_accepts}
use fleet_tracking_backend.Mqtt.Handler.Outcomes.{HandleEnds, handle_gps_message_outcome}
use fleet_tracking_backend.Mqtt.Handler.Latest.{LatestEnds, latest_fix_outcome}
use fleet_tracking_backend.Mqtt.Client.{Delivery, consume}
use fleet_tracking_backend.Mqtt.Client.Keeps.{ProcessEnds, process_message_outcome, consume-IsValid}
use fleet_tracking_backend.Tracking.Status.{utc, as_utc}
use fleet_tracking_backend.Tracking.Me.{
  HistoryParams, get_current_location, live, window, live_for, found_vehicle,
}
use fleet_tracking_backend.Tracking.Me.Isolation.{
  LiveEnds, get_current_location_outcome, location_isolated,
}
use fleet_tracking_backend.Tracking.Me.Assigned.{AssignmentReads, assignment_reads}
use fleet_tracking_backend.Tracking.Me.Window.{IsWindow}
use fleet_tracking_backend.Tracking.Me.History.{HistoryEnds, get_history_outcome}
use fleet_tracking_backend.Auth.Tokens.{TokenSettings, second}
use fleet_tracking_backend.Auth.Tokens.Lifetime.{TokenWorth, token_worth}
use fleet_tracking_backend.Auth.Passwords.{verify_password}
use fleet_tracking_backend.Auth.Service.{
  issue_token_pair, login, authenticate_user, with_password, TokenPair,
}
use fleet_tracking_backend.Auth.Service.Login.{
  LoginEnds, authenticate_user_outcome, SignedIn, login_signs_in, AdminGate, admin_gate,
}
use fleet_tracking_backend.Examples.Reference.{reference}
use fleet_tracking_backend.Examples.Parts.{codec, plain, one_fix}
use fleet_tracking_backend.Examples.Fleet.{
  fleet, fleet-IsValid, ravi, busy_fleet, busy_fleet-IsValid, assigned_priya, express, flier,
  last_seen,
}

abbrev pub fleet_prefix : Text
fleet_prefix = b'f' ∷ b'l' ∷ b'e' ∷ b'e' ∷ b't' ∷ []

parse_topic-topic_of_example : parse_topic fleet_prefix (topic_of fleet_prefix 1205) ≡ some 1205
unfolding digit_count decimal
parse_topic-topic_of_example =
    parse_topic-topic_of fleet_prefix 1205
      (omega arith, (omega arith, (omega arith, (omega arith, (omega arith, tt))))) (omega arith)
      (omega arith)

parse_topic-slashed_example :
    parse_topic (fleet_prefix ++ (slash ∷ fleet_prefix)) (topic_of fleet_prefix 1) ≡ none
parse_topic-slashed_example =
    parse_topic-slashed fleet_prefix fleet_prefix (topic_of fleet_prefix 1)

abbrev third : Assigned
third = record { id = 3; now = 1_020_000_500 }

abbrev newer : GpsMessage
newer = record {
  vehicle_id = 1;
  lat = pos 13_000_000;
  lng = pos 80_200_000;
  speed = 42_504_999;
  timestamp = utc 1_020_000_000;
}

handle_gps_message_outcome_example : HandleEnds reference fleet fleet-IsValid third newer
handle_gps_message_outcome_example =
    handle_gps_message_outcome reference fleet fleet-IsValid third newer
      (omega arith, (omega arith, tt))

abbrev pub delivery : Delivery
delivery = record {
  topic = fleet_prefix ++ (slash ∷ b'1' ∷ slash ∷ b'g' ∷ b'p' ∷ b's' ∷ []);
  payload = b'x' ∷ [];
  assigned = third;
}

process_message_outcome_example :
    ProcessEnds reference one_fix fleet_prefix fleet fleet-IsValid delivery
process_message_outcome_example =
    process_message_outcome reference one_fix fleet_prefix fleet fleet-IsValid delivery
      (omega arith, (omega arith, tt))

abbrev garbage : Delivery
garbage = record { topic = fleet_prefix; payload = []; assigned = record { id = 4; now = 0 } }

consume-IsValid_example :
    IsValid (consume reference one_fix fleet_prefix fleet (delivery ∷ garbage ∷ []))
consume-IsValid_example =
    consume-IsValid reference one_fix fleet_prefix fleet (delivery ∷ garbage ∷ []) fleet-IsValid
      ((omega arith, (omega arith, tt)), ((omega arith, (omega arith, tt)), tt))
      ((omega arith, tt), (tt, tt))

get_current_location_outcome_example : LiveEnds reference fleet fleet-IsValid 1_030_000_000 ravi
get_current_location_outcome_example =
    get_current_location_outcome reference fleet fleet-IsValid 1_030_000_000 ravi (inr (inl refl))

abbrev whole_day : HistoryParams
whole_day = record { date_from = some (utc 0); date_to = none; limit = 1; offset = 1 }

get_history_outcome_example :
    IsWindow 1_030_000_000 whole_day 0 1_030_000_000
    × HistoryEnds reference fleet 1_030_000_000 ravi whole_day 1 0 1_030_000_000
unfolding window as_utc
get_history_outcome_example =
    get_history_outcome reference fleet 1_030_000_000 ravi whole_day 1 0 1_030_000_000 refl refl

abbrev pub settings : TokenSettings
settings = record {
  secret_key = b'k' ∷ [];
  access_token_expire_minutes = 30;
  refresh_token_expire_days = 7;
}

short_2 : digit_count (decimal 2) ≤ max_digits
unfolding digit_count decimal
short_2 = omega arith

made_before : 1_000_000 / second ≤ 9_000_000 / second
made_before = omega arith

token_worth_example : TokenWorth codec settings 2 1_000_000 9_000_000 short_2 made_before
token_worth_example = token_worth codec settings 2 1_000_000 9_000_000 short_2 made_before

authenticate_user_outcome_example : LoginEnds reference fleet plain "ravi@fleet.com" "wrong"
authenticate_user_outcome_example =
    authenticate_user_outcome reference fleet plain "ravi@fleet.com" "wrong" fleet-IsValid

ravi_pair : TokenPair
ravi_pair = issue_token_pair reference codec settings 1_000_000 ravi

ravi_signs_in :
    login reference codec settings plain fleet 1_000_000 "ravi@fleet.com" "h2" ≡ ok ravi_pair
unfolding login authenticate_user with_password scalar_one_or_none one_or_none verify_password
    ravi_pair
ravi_signs_in = refl

short_members : (u : User) → Member u fleet.users → digit_count (decimal u.id) ≤ max_digits
unfolding digit_count decimal
short_members u m =
    All-Member (λ (x : User). digit_count (decimal x.id) ≤ max_digits) fleet.users u
      (omega arith, (omega arith, (omega arith, tt))) m

login_signs_in_example :
    (u : User) × Member u fleet.users
    × (u.email ≡ "ravi@fleet.com")
    × (verify_password plain "h2" u.hashed_password ≡ true)
    × SignedIn reference fleet plain codec settings 1_000_000 9_000_000 ravi_pair u
login_signs_in_example =
    login_signs_in reference fleet plain codec settings 1_000_000 9_000_000 "ravi@fleet.com" "h2"
      ravi_pair fleet-IsValid ravi_signs_in short_members made_before (omega arith) (omega arith)

seen_by_ravi :
    get_current_location reference busy_fleet 1_030_000_000 ravi
    ≡ ok (live 1_030_000_000 express (some last_seen))
unfolding get_current_location live_for found_vehicle get scalar
seen_by_ravi = refl

seen_by_priya :
    get_current_location reference busy_fleet 1_030_000_000 assigned_priya
    ≡ ok (live 1_030_000_000 flier none)
unfolding get_current_location live_for found_vehicle get scalar
seen_by_priya = refl

location_isolated_example :
    (live 1_030_000_000 express (some last_seen)).vehicle_id
    ≢ (live 1_030_000_000 flier none).vehicle_id
location_isolated_example =
    location_isolated reference busy_fleet busy_fleet-IsValid 1_030_000_000 ravi assigned_priya
      (live 1_030_000_000 express (some last_seen)) (live 1_030_000_000 flier none) (inr (inl refl))
      (inr (inr (inl refl))) (omega arith) seen_by_ravi seen_by_priya

abbrev fix_at_origin : GpsMessage
fix_at_origin = record {
  vehicle_id = 1;
  lat = pos 1;
  lng = pos 1;
  speed = 42_500_000;
  timestamp = utc 1_020_000_000;
}

parse_payload_accepts_example :
    (parse_payload one_fix (b'x' ∷ []) ≡ ok (some fix_at_origin))
    ↔ HoldsFix one_fix (b'x' ∷ []) fix_at_origin
parse_payload_accepts_example = parse_payload_accepts one_fix (b'x' ∷ []) fix_at_origin

latest_fix_outcome_example : LatestEnds reference fleet fleet-IsValid 1
latest_fix_outcome_example = latest_fix_outcome reference fleet fleet-IsValid 1

admin_gate_example : AdminGate reference fleet plain codec settings 1_000_000 9_000_000 ravi
admin_gate_example =
    admin_gate reference fleet plain codec settings 1_000_000 9_000_000 ravi fleet-IsValid
      (inr (inl refl)) short_2 made_before (omega arith) (omega arith)

one_apart : ravi.route_id ≢ some 0
one_apart e = cc

assignment_reads_example : AssignmentReads reference fleet fleet-IsValid ravi
assignment_reads_example =
    assignment_reads reference fleet fleet-IsValid ravi (inr (inl refl)) one_apart one_apart
