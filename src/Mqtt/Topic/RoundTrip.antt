-- ===== src/Mqtt/Topic/RoundTrip.antt =====
-- `parse_topic` on the topics that simulator/runner.py publishes to.
use fleet_tracking_backend.Prelude.{
  ℕ, zero, suc, ◌+◌, ◌-◌, ◌*◌, ◌/◌, ◌%◌, ◌≤◌, ◌<◌, ◌≡◌, ◌≢◌, refl, sym, ap, ◌∙◌, Bool, true, false,
  inl, inr, subst, All-map, none, some, List, [], ◌∷◌, ◌++◌, ltb, ◌==◌, arith, All, Bool-cases,
}
use fleet_tracking_backend.Prelude.Int.{pos}
use fleet_tracking_backend.Mqtt.Topic.{
  Text, split, add_to_first, same_text, is_digit, is_space, digits, signed, after_spaces,
  digit_count, parse_int, id_of_parts, parse_topic, print_from, decimal, topic_of, slash, gps,
  as_positive, max_digits,
}

is_digit-digit : (k : ℕ) → k < 10 → is_digit (b'0' + k) ≡ true
unfolding is_digit
is_digit-digit k h = ground arith

-- One digit is one step.
digits-digit :
    (acc : ℕ) (b : Bool) (k : ℕ) (rest : Text)
    → k < 10
    → digits acc b ((b'0' + k) ∷ rest) ≡ digits (acc * 10 + k) true rest
unfolding digits
digits-digit acc b k rest h =
    let e : is_digit (b'0' + k) ≡ true = is_digit-digit k h in
    let f : b'0' + k - b'0' ≡ k = omega arith in rw (e, f)

-- Reading what was printed continues with its value.
digits-print_from :
    (fuel n : ℕ) (rest : Text)
    → n < fuel
    → digits 0 false (print_from fuel n rest) ≡ digits n true rest
unfolding print_from
digits-print_from zero n rest h = absurd (omega arith)
digits-print_from (suc fuel) n rest h = elim (Bool-cases (n / 10 == 0)) [
  | inl small ↦
      let e : 0 * 10 + n % 10 ≡ n = ground arith in
      rw small
        (digits-digit 0 false (n % 10) rest (omega arith) ∙ ap (λ (k : ℕ). digits k true rest) e)
  | inr large ↦
      let e : n / 10 * 10 + n % 10 ≡ n = omega arith in
      rw large (
        digits-print_from fuel (n / 10) ((b'0' + n % 10) ∷ rest) (ground arith)
        ∙ (digits-digit (n / 10) true (n % 10) rest (omega arith)
            ∙ ap (λ (k : ℕ). digits k true rest) e))
]

-- What was printed is digits, then the rest.
print_from-digits :
    (fuel n : ℕ) (rest : Text)
    → n < fuel
    → All (λ c. is_digit c ≡ true) rest
    → (k : ℕ) × (more : Text) × (print_from fuel n rest ≡ (b'0' + k) ∷ more)
      × (k < 10)
      × All (λ c. is_digit c ≡ true) more
unfolding print_from
print_from-digits zero n rest h a = absurd (omega arith)
print_from-digits (suc fuel) n rest h a = elim (Bool-cases (n / 10 == 0)) [
  | inl small ↦ (n % 10, rest, rw small, omega arith, a)
  | inr large ↦
      let (k, more, e, f, g) =
        print_from-digits fuel (n / 10) ((b'0' + n % 10) ∷ rest) (ground arith)
          (is_digit-digit (n % 10) (omega arith), a) in
      (k, more, rw large e, f, g)
]

-- A digit is no space and no sign.
after_spaces-digit :
    (k : ℕ) (more : Text)
    → k < 10
    → after_spaces ((b'0' + k) ∷ more) ≡ as_positive (digits 0 false ((b'0' + k) ∷ more))
unfolding after_spaces signed is_space
after_spaces-digit k more h =
    let no_space : is_space (b'0' + k) ≡ false = ground arith in
    let no_minus : (b'0' + k == b'-') ≡ false = ground arith in
    let no_plus : (b'0' + k == b'+') ≡ false = ground arith in rw (no_space, no_minus, no_plus)

split-append :
    (xs ys : Text)
    → All (λ c. c ≢ slash) xs
    → split slash (xs ++ (slash ∷ ys)) ≡ xs ∷ split slash ys
unfolding split add_to_first
split-append [] ys h = refl
split-append (x ∷ xs) ys h =
    let no_slash : (x == slash) ≡ false = ground (arith, h.0) in
    rw (no_slash, split-append xs ys h.1)

split-none : (xs : Text) → All (λ c. c ≢ slash) xs → split slash xs ≡ xs ∷ []
unfolding split add_to_first
split-none [] h = refl
split-none (x ∷ xs) h =
    let no_slash : (x == slash) ≡ false = ground (arith, h.0) in rw (no_slash, split-none xs h.1)

same_text_refl : (xs : Text) → same_text xs xs ≡ true
unfolding same_text
same_text_refl [] = refl
same_text_refl (x ∷ xs) = ground (arith, same_text_refl xs)

not_slash : (c : ℕ) → is_digit c ≡ true → c ≢ slash
unfolding is_digit
not_slash c h e = ground arith

-- The printed number is read back by `int()`, if it has no more digits than CPython converts.
pub parse_int-decimal :
    (n : ℕ) → digit_count (decimal n) ≤ max_digits → parse_int (decimal n) ≡ some (pos n)
unfolding parse_int decimal
parse_int-decimal n short =
    let (k, more, e, f, g) = print_from-digits (suc n) n [] (omega arith) tt in
    let fits : ltb max_digits (digit_count (print_from (suc n) n [])) ≡ false = ground arith in
    rw fits (
      ap after_spaces e
      ∙ after_spaces-digit k more f
      ∙ ap (λ t. as_positive (digits 0 false t)) (sym e)
      ∙ ap as_positive (digits-print_from (suc n) n [] (omega arith) ∙ digits-nil n))
  where
    digits-nil : (n : ℕ) → digits n true [] ≡ some n
    digits-nil n = refl

decimal-no_slash : (n : ℕ) → All (λ c. c ≢ slash) (decimal n)
unfolding decimal
decimal-no_slash n =
    let (k, more, e, f, g) = print_from-digits (suc n) n [] (omega arith) tt in
    subst (All (λ c. c ≢ slash)) (sym e) (
      not_slash (b'0' + k) (is_digit-digit k f),
      All-map (λ c. is_digit c ≡ true) (λ c. c ≢ slash) more not_slash g,
    )

gps-no_slash : All (λ c. c ≢ slash) gps
gps-no_slash = (omega arith, (omega arith, (omega arith, tt)))

-- A vehicle's topic is read back as its number: for a prefix without a slash, and a number from 1 up
-- that has at most as many digits as CPython converts.
pub parse_topic-topic_of :
    (prefix : Text) (id : ℕ)
    → All (λ c. c ≢ slash) prefix
    → 0 < id
    → digit_count (decimal id) ≤ max_digits
    → parse_topic prefix (topic_of prefix id) ≡ some id
unfolding parse_topic topic_of
parse_topic-topic_of prefix zero clean h short = elim h [ ]
parse_topic-topic_of prefix (suc n) clean h short =
    ap (id_of_parts prefix) (
      split-append prefix (decimal (suc n) ++ (slash ∷ gps)) clean
      ∙ ap (◌∷◌ prefix) (
          split-append (decimal (suc n)) gps (decimal-no_slash (suc n))
          ∙ ap (◌∷◌ (decimal (suc n))) (split-none gps gps-no_slash)))
    ∙ parts
  where
    parts : id_of_parts prefix (prefix ∷ decimal (suc n) ∷ gps ∷ []) ≡ some (suc n)
    parts = rw (same_text_refl prefix, parse_int-decimal (suc n) short)

-- A text without a slash differs from one that has a slash.
same_text-slashed :
    (p before after : Text)
    → All (λ c. c ≢ slash) p
    → same_text p (before ++ (slash ∷ after)) ≡ false
unfolding same_text
same_text-slashed [] [] after h = refl
same_text-slashed [] (b ∷ before) after h = refl
same_text-slashed (c ∷ p) [] after h = ground (arith, h.0)
same_text-slashed (c ∷ p) (b ∷ before) after h =
    ground (arith, same_text-slashed p before after h.1)

abbrev FirstClean : List Text → Type 0
FirstClean [] = Unit
FirstClean (p ∷ parts) = All (λ c. c ≢ slash) p

add_to_first-FirstClean :
    (c : ℕ) (parts : List Text) → c ≢ slash → FirstClean parts → FirstClean (add_to_first c parts)
unfolding add_to_first
add_to_first-FirstClean c [] ne h = (ne, tt)
add_to_first-FirstClean c (p ∷ parts) ne h = (ne, h)

split-FirstClean : (t : Text) → FirstClean (split slash t)
unfolding split
split-FirstClean [] = tt
split-FirstClean (c ∷ t) = elim (Bool-cases (c == slash)) [
  | inl e ↦ rw e tt
  | inr e ↦
      rw e (add_to_first-FirstClean c (split slash t) (λ q. ground arith) (split-FirstClean t))
]

refused :
    (before after : Text) (parts : List Text)
    → FirstClean parts
    → id_of_parts (before ++ (slash ∷ after)) parts ≡ none
unfolding id_of_parts
refused before after [] h = refl
refused before after (p ∷ []) h = refl
refused before after (p ∷ q ∷ []) h = refl
refused before after (p ∷ q ∷ r ∷ []) h = rw (same_text-slashed p before after h)
refused before after (p ∷ q ∷ r ∷ t ∷ ts) h = refl

-- With a slash in the configured prefix no topic is accepted, so every message is discarded.
pub parse_topic-slashed :
    (before after topic : Text) → parse_topic (before ++ (slash ∷ after)) topic ≡ none
unfolding parse_topic
parse_topic-slashed before after topic =
    refused before after (split slash topic) (split-FirstClean topic)
