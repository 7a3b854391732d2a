-- ===== src/Simulator/Runner/Ticks.antt =====
-- What the ticks of the simulator keep of its buses, and what they publish.
use fleet_tracking_backend.Prelude.{ℕ, ◌≡◌, refl, List, [], ◌∷◌, ◌++◌, All, All-append}
use fleet_tracking_backend.Errors.{Result, ok}
use fleet_tracking_backend.Store.{Waypoint}
use fleet_tracking_backend.Mqtt.Payload.{GpsMessage}
use fleet_tracking_backend.Simulator.Runner.{Rounding, Draw, Bus, tick, run_ticks}
use fleet_tracking_backend.Simulator.Runner.Fixes.{IsSound, IsDrawn, IsBus, drive_lem}

module _ (haversine : Waypoint → Waypoint → ℕ) (rounding : Rounding) (interval : ℕ) where
  -- A bus, and a fix, of a vehicle with the property.
  abbrev pub IsBusOf : (ℕ → Type 0) → Bus → Type 0
  IsBusOf P bus = IsBus rounding haversine bus × P bus.vehicle_id

  abbrev pub IsFixOf : (ℕ → Type 0) → GpsMessage → Type 0
  IsFixOf P m = IsSound m × P m.vehicle_id

  abbrev pub Runs : (ℕ → Type 0) → Result (List Bus × List GpsMessage) → Type 0
  Runs P result =
      (buses : List Bus) × (fixes : List GpsMessage) × (result ≡ ok (buses, fixes))
      × All (IsBusOf P) buses
      × All (IsFixOf P) fixes

  tick_lem :
      (P : ℕ → Type 0) (now : ℕ) (draws : ℕ → Draw)
      → ((id : ℕ) → IsDrawn (draws id))
      → (buses : List Bus) → All (IsBusOf P) buses
      → Runs P (tick rounding interval now draws buses)
  unfolding tick
  tick_lem P now draws h [] b = ([], [], refl, tt, tt)
  tick_lem P now draws h (bus ∷ buses) b =
      let (bus', fix, e, good, sound, same, own) =
        drive_lem rounding haversine interval now bus (draws bus.vehicle_id) b.0.0
          (h bus.vehicle_id) in
      let (buses', fixes, f, goods, sounds) = tick_lem P now draws h buses b.1 in
      (
        bus' ∷ buses',
        fix ∷ fixes,
        rw (e, f) refl,
        ((good, rw same b.0.1), goods),
        ((sound, rw own b.0.1), sounds),
      )

  pub run_ticks_lem :
      (P : ℕ → Type 0) (ticks : List (ℕ × (ℕ → Draw)))
      → All (λ t. (id : ℕ) → IsDrawn (t.1 id)) ticks
      → (buses : List Bus) → All (IsBusOf P) buses
      → Runs P (run_ticks rounding interval ticks buses)
  unfolding run_ticks
  run_ticks_lem P [] h buses b = (buses, [], refl, b, tt)
  run_ticks_lem P ((now, draws) ∷ ticks) h buses b =
      let (buses', fixes, e, goods, sounds) = tick_lem P now draws h.0 buses b in
      let (buses'', more, f, goods', sounds') = run_ticks_lem P ticks h.1 buses' goods in
      (
        buses'',
        fixes ++ more,
        rw (e, f) refl,
        goods',
        All-append (IsFixOf P) fixes more sounds sounds',
      )
