-- ===== src/Tracking/Me/Window.antt =====
-- The window of the history that the parameters ask for.
use fleet_tracking_backend.Prelude.{
  ℕ, ◌+◌, ◌≡◌, refl, sym, ap, ◌∙◌, ◌⊎◌, inl, inr, ◌||◌, Option, none, some, Bool-cases, ltb, arith,
}
use fleet_tracking_backend.Errors.{Result, ok, err, ◌>>=◌}
use fleet_tracking_backend.Tracking.Status.{Datetime, aware, naive, utc, as_utc}
use fleet_tracking_backend.Tracking.Me.{
  HistoryParams, default_history_window, window_start, end_of, start_of, window,
}

-- Up to the given end or now, and from the given start or 24 hours before the end.
abbrev EndsAt : ℕ → HistoryParams → ℕ → Type 0
EndsAt now params to =
    ((params.date_to ≡ none) × (to ≡ now))
    ⊎ ((t : Datetime) × (params.date_to ≡ some t) × (to ≡ as_utc t))

abbrev StartsAt : HistoryParams → ℕ → ℕ → Type 0
StartsAt params from to =
    ((params.date_from ≡ none) × (from + 86_400_000_000 ≡ to))
    ⊎ ((t : Datetime) × (params.date_from ≡ some t) × (from ≡ as_utc t))

abbrev pub IsWindow : ℕ → HistoryParams → ℕ → ℕ → Type 0
IsWindow now params from to = EndsAt now params to × StartsAt params from to

before_day :
    (to start : Datetime) → window_start to ≡ ok start → as_utc start + 86_400_000_000 ≡ as_utc to
unfolding window_start as_utc
before_day (aware instant clock) start e =
    elim (Bool-cases (ltb clock default_history_window || ltb instant default_history_window)) [
      | inl early ↦ ground arith
      | inr late ↦ ground arith
    ]
before_day (naive t) start e = elim (Bool-cases (ltb t default_history_window)) [
  | inl early ↦ ground arith
  | inr late ↦ ground arith
]

abbrev between : Datetime → Result Datetime → Result (ℕ × ℕ)
between to start = start >>= λ t. ok (as_utc t, as_utc to)

between_lem :
    (to : Datetime) (start : Result Datetime) (from end : ℕ)
    → between to start ≡ ok (from, end)
    → (t : Datetime) × (start ≡ ok t) × (from ≡ as_utc t) × (end ≡ as_utc to)
between_lem to (err e) from end q = cc
between_lem to (ok t) from end q =
    let same : ◌≡◌ {A = ℕ × ℕ} (as_utc t, as_utc to) (from, end) = cc in
    (t, refl, sym (ap (λ x. x.0) same), sym (ap (λ x. x.1) same))

-- The window of a request is the one that it asks for.
pub window-IsWindow :
    (now : ℕ) (params : HistoryParams) (from to : ℕ)
    → window now params ≡ ok (from, to)
    → IsWindow now params from to
unfolding window start_of end_of as_utc
window-IsWindow now params from to e = go params.date_to refl params.date_from refl e
  where
    start :
        (end : Datetime) (a : Option Datetime)
        → params.date_from ≡ a
        → between end (start_of end a) ≡ ok (from, to)
        → StartsAt params from to × (to ≡ as_utc end)
    start end none g q =
        let (t, made, low, high) = between_lem end (window_start end) from to q in
        (inl (g, rw (low, high) (before_day end t made)), high)
    start end (some t) g q =
        let (u, made, low, high) = between_lem end (ok t) from to q in
        let same : t ≡ u = cc in (inr (t, g, low ∙ ap as_utc (sym same)), high)

    go :
        (b : Option Datetime)
        → params.date_to ≡ b
        → (a : Option Datetime) → params.date_from ≡ a
        → between (end_of now b) (start_of (end_of now b) a) ≡ ok (from, to)
        → IsWindow now params from to
    go none f a g q = let (x, y) = start (utc now) a g q in (inl (f, y), x)
    go (some t) f a g q = let (x, y) = start t a g q in (inr (t, f, y), x)
