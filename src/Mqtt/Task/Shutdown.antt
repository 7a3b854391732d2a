-- ===== src/Mqtt/Task/Shutdown.antt =====
-- What the subscriber's task stores over all its connections, and when it ends.
use fleet_tracking_backend.Prelude.{
  ℕ, zero, suc, ◌≡◌, refl, sym, ap, ◌∙◌, ◌⊎◌, inl, inr, some, Bool, true, false, List, [], ◌∷◌,
  ◌++◌, All,
}
use fleet_tracking_backend.Store.{Database}
use fleet_tracking_backend.Store.Session.{Session}
use fleet_tracking_backend.Mqtt.Topic.{Text}
use fleet_tracking_backend.Mqtt.Payload.{Decoder}
use fleet_tracking_backend.Mqtt.Client.{Delivery, survive, process_message, consume}
use fleet_tracking_backend.Mqtt.Task.{
  Phase, connected, backing_off, cancelled, crashed, Event, delivered, interrupted, connection_lost,
  slept, cancel, failed, Task, dispatch, next, and_then, run,
}

module _ (s : Session) (c : Decoder) (prefix : Text) where
  some_task : {t u : Task} → some t ≡ some u → t ≡ u
  some_task e = cc

  -- What ends the sleep after a lost connection: its time, or a cancellation, which is suppressed.
  abbrev waking : Bool → Event
  waking true = cancel
  waking false = slept

  -- A connection's messages, all handled, and then its loss and the sleep.
  abbrev outage_after : List Delivery → Bool → List Event → List Event
  outage_after [] cancelled_asleep es = connection_lost ∷ waking cancelled_asleep ∷ es
  outage_after (x ∷ xs) cancelled_asleep es = delivered x ∷ outage_after xs cancelled_asleep es

  -- One connection after the other.
  abbrev pub connections : List (List Delivery × Bool) → List Event
  connections [] = []
  connections ((xs, cancelled_asleep) ∷ rest) = outage_after xs cancelled_asleep (connections rest)

  -- The messages of all the connections, in order.
  abbrev pub all_messages : List (List Delivery × Bool) → List Delivery
  all_messages [] = []
  all_messages ((xs, cancelled_asleep) ∷ rest) = xs ++ all_messages rest

  reconnects :
      (xs : List Delivery) (cancelled_asleep : Bool) (es : List Event) (d : Database)
      → run s c prefix
          (record { phase = connected; database = d })
          (outage_after xs cancelled_asleep es)
        ≡ run s c prefix (record { phase = connected; database = consume s c prefix d xs }) es
  unfolding run next dispatch and_then consume survive
  reconnects [] true es d = refl
  reconnects [] false es d = refl
  reconnects (x ∷ xs) w es d = reconnects xs w es (survive d (process_message s c prefix d x))

  consume-append :
      (d : Database) (xs ys : List Delivery)
      → consume s c prefix d (xs ++ ys) ≡ consume s c prefix (consume s c prefix d xs) ys
  unfolding consume survive
  consume-append d [] ys = refl
  consume-append d (x ∷ xs) ys = consume-append (survive d (process_message s c prefix d x)) xs ys

  -- However often the connection is lost, after any number of messages each time, and whether the
  -- sleep that follows runs its time or is cut short by a cancellation, the task is connected again
  -- in the end, and has stored what one loop over all the messages stores.
  pub run-consume :
      (d : Database) (cs : List (List Delivery × Bool))
      → run s c prefix (record { phase = connected; database = d }) (connections cs)
        ≡ some (record { phase = connected; database = consume s c prefix d (all_messages cs) })
  unfolding run consume
  run-consume d [] = refl
  run-consume d ((xs, w) ∷ rest) =
      reconnects xs w (connections rest) d
      ∙ run-consume (consume s c prefix d xs) rest
      ∙ ap (λ z. some (record { phase = connected; database = z }))
          (sym (consume-append d xs (all_messages rest)))

  -- The task goes on.
  abbrev pub IsAlive : Phase → Type 0
  IsAlive connected = Unit
  IsAlive backing_off = Unit
  IsAlive cancelled = ⊥
  IsAlive crashed = ⊥

  -- An event that is neither a cancellation nor an unforeseen exception.
  abbrev pub IsOrdinary : Event → Type 0
  IsOrdinary (delivered x) = Unit
  IsOrdinary connection_lost = Unit
  IsOrdinary slept = Unit
  IsOrdinary cancel = ⊥
  IsOrdinary (interrupted committed x) = ⊥
  IsOrdinary failed = ⊥

  -- Only a cancellation or an unforeseen exception ends the task.
  stays-IsAlive :
      (p : Phase) (d : Database) (es : List Event) (t : Task)
      → IsAlive p
      → All IsOrdinary es
      → run s c prefix (record { phase = p; database = d }) es ≡ some t
      → IsAlive t.phase
  unfolding run next dispatch and_then
  stays-IsAlive p d [] t a o e = rw (← some_task e) a
  stays-IsAlive connected d (delivered x ∷ es) t a o e =
      stays-IsAlive connected (survive d (process_message s c prefix d x)) es t tt o.1 e
  stays-IsAlive connected d (connection_lost ∷ es) t a o e =
      stays-IsAlive backing_off d es t tt o.1 e
  stays-IsAlive connected d (cancel ∷ es) t a o e = absurd o.0
  stays-IsAlive connected d (interrupted committed x ∷ es) t a o e = absurd o.0
  stays-IsAlive connected d (failed ∷ es) t a o e = absurd o.0
  stays-IsAlive connected d (slept ∷ es) t a o e = cc
  stays-IsAlive backing_off d (slept ∷ es) t a o e = stays-IsAlive connected d es t tt o.1 e
  stays-IsAlive backing_off d (cancel ∷ es) t a o e = absurd o.0
  stays-IsAlive backing_off d (interrupted committed x ∷ es) t a o e = absurd o.0
  stays-IsAlive backing_off d (delivered x ∷ es) t a o e = cc
  stays-IsAlive backing_off d (connection_lost ∷ es) t a o e = cc
  stays-IsAlive backing_off d (failed ∷ es) t a o e = cc
  stays-IsAlive cancelled d (x ∷ es) t a o e = absurd a
  stays-IsAlive crashed d (x ∷ es) t a o e = absurd a

  -- A number of events of an outage: the connection is lost, the sleep ends, and so on.
  abbrev pub outages : Phase → ℕ → List Event
  outages p zero = []
  outages connected (suc n) = connection_lost ∷ outages backing_off n
  outages backing_off (suc n) = slept ∷ outages connected n
  outages cancelled (suc n) = []
  outages crashed (suc n) = []

  -- The task can meet any number of them, and is alive after each.
  abbrev pub GoesOn : Task → Type 0
  GoesOn t =
      (n : ℕ) → (u : Task) × (run s c prefix t (outages t.phase n) ≡ some u) × IsAlive u.phase

  goes_on : (p : Phase) (d : Database) → IsAlive p → GoesOn (record { phase = p; database = d })
  unfolding run next dispatch and_then
  goes_on connected d a zero = (_, refl, tt)
  goes_on connected d a (suc n) = goes_on backing_off d tt n
  goes_on backing_off d a zero = (_, refl, tt)
  goes_on backing_off d a (suc n) = goes_on connected d tt n
  goes_on cancelled d a n = absurd a
  goes_on crashed d a n = absurd a

  -- What becomes of the one `task.cancel()` of the lifespan, with the events that follow it.
  abbrev pub CancelEnds : Phase → List Event → Task → Type 0
  CancelEnds p es t =
      ((p ≡ connected) × (es ≡ []) × (t.phase ≡ cancelled))
      ⊎ ((p ≡ backing_off) × IsAlive t.phase × GoesOn t)

  -- A cancellation in a connection ends the task at once. One that arrives in the sleep after a lost
  -- connection is lost: whatever ordinary events follow, the task is still alive after them, and goes
  -- on for as many further losses of the connection as the broker is unreachable, so that a shutdown
  -- that cancels it once and waits for it does not end.
  pub cancel_once :
      (p : Phase) (d : Database) (es : List Event) (t : Task)
      → IsAlive p
      → All IsOrdinary es
      → run s c prefix (record { phase = p; database = d }) (cancel ∷ es) ≡ some t
      → CancelEnds p es t
  unfolding run next dispatch and_then
  cancel_once connected d [] t a o e =
      inl (refl, refl, sym (ap (λ (u : Task). u.phase) (some_task e)))
  cancel_once connected d (x ∷ es) t a o e = cc
  cancel_once backing_off d es t a o e =
      let alive = stays-IsAlive connected d es t tt o e in
      inr (refl, alive, goes_on t.phase t.database alive)
  cancel_once cancelled d es t a o e = absurd a
  cancel_once crashed d es t a o e = absurd a
