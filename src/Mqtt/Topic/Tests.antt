-- ===== src/Mqtt/Topic/Tests.antt =====
-- Topics that are accepted and refused.
use fleet_tracking_backend.Prelude.{◌≡◌, refl, none, some, [], ◌∷◌}
use fleet_tracking_backend.Mqtt.Topic.{Text, parse_topic, topic_of, slash, gps}

abbrev fleet : Text
fleet = b'f' ∷ b'l' ∷ b'e' ∷ b'e' ∷ b't' ∷ []

published : parse_topic fleet (topic_of fleet 1205) ≡ some 1205
unfolding parse_topic topic_of
published = refl

abbrev around : Text → Text
around id = b'f' ∷ b'l' ∷ b'e' ∷ b'e' ∷ b't' ∷ slash ∷ id

-- `int` accepts a sign, spaces at both ends and single underscores.
spaced :
    parse_topic fleet (around (b' ' ∷ b'+' ∷ b'1' ∷ b'_' ∷ b'2' ∷ b' ' ∷ slash ∷ gps)) ≡ some 12
unfolding parse_topic
spaced = refl

doubled : parse_topic fleet (around (b'1' ∷ b'_' ∷ b'_' ∷ b'2' ∷ slash ∷ gps)) ≡ none
unfolding parse_topic
doubled = refl

zeroth : parse_topic fleet (around (b'0' ∷ slash ∷ gps)) ≡ none
unfolding parse_topic
zeroth = refl

negative : parse_topic fleet (around (b'-' ∷ b'1' ∷ slash ∷ gps)) ≡ none
unfolding parse_topic
negative = refl

deeper : parse_topic fleet (around (b'1' ∷ slash ∷ b'x' ∷ slash ∷ gps)) ≡ none
unfolding parse_topic
deeper = refl
