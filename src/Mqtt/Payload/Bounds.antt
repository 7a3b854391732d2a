-- ===== src/Mqtt/Payload/Bounds.antt =====
-- What a message that passes `GPSMessage.model_validate` satisfies.
use fleet_tracking_backend.Prelude.{
  ℕ, zero, suc, ◌≤◌, ◌<◌, ◌≡◌, ◌↔◌, refl, sym, subst, ap, ◌∙◌, true, ◌&&◌, Option, none, some, List,
  arith, inl, inr, Bool-cases, if◌then◌else◌,
}
use fleet_tracking_backend.Prelude.Int.{ℤ, pos, negsuc, leb_ℤ, ◌≤ℤ◌}
use fleet_tracking_backend.Errors.{ok}
use fleet_tracking_backend.Tracking.Status.{Datetime, aware, naive}
use fleet_tracking_backend.Mqtt.Payload.{
  GpsMessage, Loaded, loaded, decode_error, other_error, Decoder, ◌>>=◌, natural, within, positive,
  timezone_aware, max_lat, max_lng, max_speed, model_validate, validate_object, validate_loaded,
  parse_payload,
}

-- A bind that has a value: its two steps have values too.
data Bound {A B : Type 0} (o : Option A) (f : A → Option B) (b : B) : Type 0 where
  at_value : (a : A) → o ≡ some a → f a ≡ some b → Bound o f b

bound : {A B : Type 0} (o : Option A) (f : A → Option B) {b : B} → (o >>= f) ≡ some b → Bound o f b
bound none f h = cc
bound (some a) f h = at_value a refl h

some_inj : {A : Type 0} {a b : A} → some a ≡ some b → a ≡ b
some_inj e = cc

within-le : (low high x y : ℤ) → within low high x ≡ some y → (x ≡ y) × (low ≤ℤ y) × (y ≤ℤ high)
unfolding within
within-le low high x y h = elim (Bool-cases (leb_ℤ low x && leb_ℤ x high)) [
  | inl inside ↦
      let inj : some x ≡ some y = sym (ap (λ b. if b then some x else none) inside) ∙ h in
      let same : x ≡ y = cc in
      let above : low ≤ℤ x = ground arith in
      let below : x ≤ℤ high = ground arith in
      (same, subst (λ z. low ≤ℤ z) same above, subst (λ z. z ≤ℤ high) same below)
  | inr outside ↦
      let bad : none ≡ some y = sym (ap (λ b. if b then some x else none) outside) ∙ h in cc
]

positive-pos : (x : ℤ) (n : ℕ) → positive x ≡ some n → (x ≡ pos n) × (0 < n)
unfolding positive
positive-pos (negsuc k) n h = cc
positive-pos (pos zero) n h = cc
positive-pos (pos (suc k)) n h = let same : suc k ≡ n = cc in (ap pos same, omega (arith, same))

natural-pos : (x : ℤ) (n : ℕ) → natural x ≡ some n → x ≡ pos n
unfolding natural
natural-pos (pos k) n h = let same : k ≡ n = cc in ap pos same
natural-pos (negsuc k) n h = cc

aware_of :
    (t u : Datetime)
    → timezone_aware t ≡ some u
    → (at clock : ℕ) × (t ≡ aware at clock) × (u ≡ aware at clock)
unfolding timezone_aware
aware_of (aware t l) u h = (t, l, refl, let e : aware t l ≡ u = cc in sym e)
aware_of (naive t) u h = cc

within-of : (low high x : ℤ) → low ≤ℤ x → x ≤ℤ high → within low high x ≡ some x
unfolding within
within-of low high x h k =
    let inside : (leb_ℤ low x && leb_ℤ x high) ≡ true = ground arith in rw inside

positive-of : (n : ℕ) → 0 < n → positive (pos n) ≡ some n
unfolding positive
positive-of zero h = absurd (omega arith)
positive-of (suc n) h = refl

pos-le : (m n : ℕ) → pos m ≤ℤ pos n → m ≤ n
pos-le m n h = omega (arith, h)

ok_inj : {A : Type 0} {a b : A} → ok a ≡ ok b → a ≡ b
ok_inj e = cc

module _ (c : Decoder) where
  -- The fields of a message are those of the object, in the ranges that the model declares.
  abbrev pub IsRead : c.Object → GpsMessage → Type 0
  IsRead o m =
      (c.int_field "vehicle_id" o ≡ some (pos m.vehicle_id))
      × (0 < m.vehicle_id)
      × (c.float_field "lat" o ≡ some m.lat)
      × (negsuc 89_999_999 ≤ℤ m.lat)
      × (m.lat ≤ℤ pos max_lat)
      × (c.float_field "lng" o ≡ some m.lng)
      × (negsuc 179_999_999 ≤ℤ m.lng)
      × (m.lng ≤ℤ pos max_lng)
      × (c.float_field "speed" o ≡ some (pos m.speed))
      × (m.speed ≤ max_speed)
      × (c.datetime_field "timestamp" o ≡ some m.timestamp)
      × ((at clock : ℕ) × (m.timestamp ≡ aware at clock))

  model_validate-IsRead : (o : c.Object) (m : GpsMessage) → model_validate c o ≡ some m → IsRead o m
  unfolding model_validate
  model_validate-IsRead o m h = elim (bound (c.int_field "vehicle_id" o) _ h) [
    | at_value x₁ e₁ h₁ ↦ elim (bound (positive x₁) _ h₁) [
      | at_value id e₂ h₂ ↦
          let (q₁, id_positive) = positive-pos x₁ id e₂ in
          elim (bound (c.float_field "lat" o) _ h₂) [
            | at_value x₂ e₃ h₃ ↦ elim (bound (within (negsuc 89_999_999) (pos max_lat) x₂) _ h₃) [
              | at_value lat e₄ h₄ ↦
                  let (q₂, lat_low, lat_high) =
                    within-le (negsuc 89_999_999) (pos max_lat) x₂ lat e₄ in
                  elim (bound (c.float_field "lng" o) _ h₄) [
                    | at_value x₃ e₅ h₅ ↦
                        elim (bound (within (negsuc 179_999_999) (pos max_lng) x₃) _ h₅) [
                          | at_value lng e₆ h₆ ↦
                              let (q₃, lng_low, lng_high) =
                                within-le (negsuc 179_999_999) (pos max_lng) x₃ lng e₆ in
                              elim (bound (c.float_field "speed" o) _ h₆) [
                                | at_value x₄ e₇ h₇ ↦
                                    elim (bound (within (pos 0) (pos max_speed) x₄) _ h₇) [
                                      | at_value x₅ e₈ h₈ ↦
                                          let (q₄, speed_low, speed_high) =
                                            within-le (pos 0) (pos max_speed) x₄ x₅ e₈ in
                                          elim (bound (natural x₅) _ h₈) [
                                            | at_value speed e₉ h₉ ↦
                                                elim (bound (c.datetime_field "timestamp" o) _ h₉) [
                                                  | at_value x₆ e₁₀ h₁₀ ↦
                                                      elim (bound (timezone_aware x₆) _ h₁₀) [
                                                        | at_value at e₁₁ h₁₁ ↦
                                                            let (t, l, q₆, q₇) =
                                                            aware_of x₆ at e₁₁ in
                                                            let q₅ = natural-pos x₅ speed e₉ in
                                                            let high : pos speed ≤ℤ pos max_speed =
                                                            subst (λ z. z ≤ℤ pos max_speed) q₅
                                                            speed_high in
                                                            subst (IsRead o) (some_inj h₁₁) (
                                                            e₁ ∙ ap some q₁,
                                                            id_positive,
                                                            e₃ ∙ ap some q₂,
                                                            lat_low,
                                                            lat_high,
                                                            e₅ ∙ ap some q₃,
                                                            lng_low,
                                                            lng_high,
                                                            e₇ ∙ ap some (q₄ ∙ q₅),
                                                            pos-le speed max_speed high,
                                                            e₁₀ ∙ ap some (q₆ ∙ sym q₇),
                                                            (t, l, q₇),
                                                            )
                                                      ]
                                                ]
                                          ]
                                    ]
                              ]
                        ]
                  ]
            ]
          ]
    ]
  ]

  IsRead-model_validate : (o : c.Object) (m : GpsMessage) → IsRead o m → model_validate c o ≡ some m
  unfolding model_validate timezone_aware natural
  IsRead-model_validate o m (a, b, e, f, g, h, i, j, k, l, n, (t, z, q)) =
      rw
        (
          a,
          positive-of m.vehicle_id b,
          e,
          within-of (negsuc 89_999_999) (pos max_lat) m.lat f g,
          h,
          within-of (negsuc 179_999_999) (pos max_lng) m.lng i j,
          k,
          within-of (pos 0) (pos max_speed) (pos m.speed) (omega arith) (omega (arith, l)),
          n,
          ap timezone_aware q,
        )
        (ap (λ z. some (record m { timestamp = z })) (sym q))

  -- What a payload holds that the parser turns into a message.
  abbrev pub HoldsFix : List ℕ → GpsMessage → Type 0
  HoldsFix payload m =
      (j : c.Json) × (o : c.Object) × (c.loads payload ≡ loaded j)
      × (c.as_object j ≡ some o)
      × IsRead o m

  holds_of :
      (payload : List ℕ) (m : GpsMessage) (l : Loaded c.Json)
      → c.loads payload ≡ l
      → validate_loaded c l ≡ ok (some m)
      → HoldsFix payload m
  unfolding validate_loaded validate_object
  holds_of payload m (loaded j) e h = object (c.as_object j) refl h
    where
      object :
          (x : Option c.Object)
          → c.as_object j ≡ x
          → ok (validate_object c x) ≡ ok (some m)
          → HoldsFix payload m
      object none f k = cc
      object (some o) f k =
          let read : model_validate c o ≡ some m = ok_inj k in
          (j, o, e, f, model_validate-IsRead o m read)
  holds_of payload m decode_error e h = cc
  holds_of payload m other_error e h = cc

  -- A payload becomes a message exactly if it is the JSON text of an object whose five fields convert,
  -- with a number from 1 up, a latitude within 90 degrees, a longitude within 180 degrees, a speed
  -- from 0 to 300 km/h and a time stamp with a time zone; the message then has these values.
  pub parse_payload_accepts :
      (payload : List ℕ) (m : GpsMessage)
      → (parse_payload c payload ≡ ok (some m)) ↔ HoldsFix payload m
  unfolding parse_payload validate_loaded validate_object
  parse_payload_accepts payload m = (
    (λ h. holds_of payload m (c.loads payload) refl h),
    (λ h. let (j, o, e, f, r) = h in rw (e, f, IsRead-model_validate o m r)),
  )
