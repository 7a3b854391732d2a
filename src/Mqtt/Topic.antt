-- ===== src/Mqtt/Topic.antt =====
-- `parse_topic` of app/mqtt/payload.py, and the topic that simulator/runner.py publishes to.
-- A text is the list of its code points. `int()` is modelled on the ASCII characters, without the
-- digits and spaces of other scripts.
mod Tests
pub mod RoundTrip
use fleet_tracking_backend.Prelude.{
  ℕ, zero, suc, ◌+◌, ◌-◌, ◌*◌, ◌/◌, ◌%◌, Bool, true, false, not, ◌&&◌, ◌||◌, Option, none, some,
  List, [], ◌∷◌, ◌++◌, ltb, leb, ◌==◌, if◌then◌else◌,
}
use fleet_tracking_backend.Prelude.Int.{ℤ, pos, negsuc}

abbrev pub Text : Type 0
Text = List ℕ

abbrev pub slash : ℕ
slash = b'/'

-- `text.split(separator)`
add_to_first : ℕ → List Text → List Text
add_to_first c [] = (c ∷ []) ∷ []
add_to_first c (part ∷ parts) = (c ∷ part) ∷ parts

unfoldable pub split : ℕ → Text → List Text
unfolding add_to_first
split separator [] = [] ∷ []
split separator (c ∷ cs) =
    let rest = split separator cs in if c == separator then [] ∷ rest else add_to_first c rest

unfoldable pub same_text : Text → Text → Bool
same_text [] [] = true
same_text [] (d ∷ ds) = false
same_text (c ∷ cs) [] = false
same_text (c ∷ cs) (d ∷ ds) = c == d && same_text cs ds

unfoldable pub is_space : ℕ → Bool
is_space c = (leb 9 c && leb c 13) || (leb 28 c && leb c 32)

unfoldable pub is_digit : ℕ → Bool
is_digit c = leb b'0' c && leb c b'9'

all_spaces : Text → Bool
all_spaces [] = true
all_spaces (c ∷ cs) = is_space c && all_spaces cs

-- Digits, with single underscores between them, up to trailing spaces; the flag tells that a digit
-- stands in front.
digits : ℕ → Bool → Text → Option ℕ
unfolding is_digit is_space all_spaces
digits acc after_digit [] = if after_digit then some acc else none
digits acc after_digit (c ∷ cs) =
    let more = digits (if is_digit c then acc * 10 + (c - b'0') else acc) (is_digit c) cs in
    if is_digit c || (c == b'_' && after_digit)
    then more
    else (if after_digit && is_space c && all_spaces cs then some acc else none)

negated : ℕ → ℤ
negated zero = pos 0
negated (suc n) = negsuc n

as_positive : Option ℕ → Option ℤ
as_positive none = none
as_positive (some n) = some (pos n)

as_negative : Option ℕ → Option ℤ
unfolding negated
as_negative none = none
as_negative (some n) = some (negated n)

-- An optional sign, then the digits.
signed : Text → Option ℤ
unfolding digits as_positive as_negative
signed [] = none
signed (c ∷ cs) =
    if c == b'-'
    then as_negative (digits 0 false cs)
    else (if c == b'+'
        then as_positive (digits 0 false cs)
        else as_positive (digits 0 false (c ∷ cs)))

after_spaces : Text → Option ℤ
unfolding signed is_space
after_spaces [] = none
after_spaces (c ∷ cs) = let rest = after_spaces cs in if is_space c then rest else signed (c ∷ cs)

unfoldable pub digit_count : Text → ℕ
unfolding is_digit
digit_count [] = 0
digit_count (c ∷ cs) = (if is_digit c then 1 else 0) + digit_count cs

-- CPython refuses to convert more digits.
abbrev pub max_digits : ℕ
max_digits = 4300

-- `int(text)`; none stands for its ValueError.
unfoldable pub parse_int : Text → Option ℤ
unfolding after_spaces digit_count
parse_int s = if ltb max_digits (digit_count s) then none else after_spaces s

-- `vehicle_id if vehicle_id >= 1 else None`
at_least_one : Option ℤ → Option ℕ
at_least_one none = none
at_least_one (some (negsuc n)) = none
at_least_one (some (pos zero)) = none
at_least_one (some (pos (suc n))) = some (suc n)

abbrev pub gps : Text
gps = b'g' ∷ b'p' ∷ b's' ∷ []

id_of_parts : Text → List Text → Option ℕ
unfolding same_text parse_int at_least_one
id_of_parts prefix [] = none
id_of_parts prefix (p ∷ []) = none
id_of_parts prefix (p ∷ q ∷ []) = none
id_of_parts prefix (p ∷ q ∷ r ∷ []) =
    if not (same_text p prefix) || not (same_text r gps) then none else at_least_one (parse_int q)
id_of_parts prefix (p ∷ q ∷ r ∷ t ∷ ts) = none

unfoldable pub parse_topic : Text → Text → Option ℕ
unfolding split id_of_parts
parse_topic prefix topic = id_of_parts prefix (split slash topic)

-- `str(n)`: the decimal digits, the lowest one last.
print_from : ℕ → ℕ → Text → Text
print_from zero n rest = rest
print_from (suc fuel) n rest =
    let more = print_from fuel (n / 10) ((b'0' + n % 10) ∷ rest) in
    if n / 10 == 0 then (b'0' + n % 10) ∷ rest else more

unfoldable pub decimal : ℕ → Text
unfolding print_from
decimal n = print_from (suc n) n []

-- `f"{settings.MQTT_TOPIC_PREFIX}/{vid}/gps"`
unfoldable pub topic_of : Text → ℕ → Text
unfolding decimal
topic_of prefix id = prefix ++ (slash ∷ (decimal id ++ (slash ∷ gps)))
