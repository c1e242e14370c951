-- ===== src/Cloud/Console/Gate.antt =====
-- The bounds of the authentication gate and of the metrics.
use iot_cloud_commissioning.Prelude.{
  ℕ, suc, ◌-◌, ◌≤◌, ◌≡◌, true, List, [], ◌∷◌, ◌++◌, arith, leb, length, length-append, length-drop,
  Bool-cases, inl, inr,
}
use iot_cloud_commissioning.Cloud.Console.{
  try_acquire, release, TunnelAuthGate, Turn, asks, leaves, granted, without, holds_place, turn,
  turns, append_bounded, TunnelMetrics, Record, auth_attempt, auth_duration, db_checkout_wait,
  duplicate_replacement, reset, record_metric, record_metrics,
}

-- The count is the number of callers that hold a place, and within the limit.
pub record IsBalanced (limit : ℕ) (g : TunnelAuthGate) : Type 0 where
  pub counted : g.in_use ≡ length g.holders
  pub bounded : g.in_use ≤ limit

length-without :
    (w : ℕ) (ws : List ℕ) → holds_place w ws ≡ true → length ws ≡ suc (length (without w ws))
length-without w [] h = cc
length-without w (v ∷ vs) h = ground (arith, length-without w vs)

turn-IsBalanced :
    (limit : ℕ) (g : TunnelAuthGate) (t : Turn)
    → IsBalanced limit g
    → IsBalanced limit (turn limit g t)
unfolding turn granted try_acquire release
turn-IsBalanced limit g (asks w) h = elim (Bool-cases (leb limit g.in_use)) [
  | inl e ↦ rw e (record { counted = h.counted; bounded = h.bounded })
  | inr e ↦ rw e (record { counted = omega (arith, h.counted); bounded = ground arith })
]
turn-IsBalanced limit g (leaves w) h = elim (Bool-cases (holds_place w g.holders)) [
  | inl e ↦ rw e (record {
    counted = omega (arith, h.counted, length-without w g.holders e);
    bounded = omega (arith, h.bounded);
  })
  | inr e ↦ rw e h
]

-- However authentications come and go, the gate counts exactly those that hold a place, and never
-- admits more than the limit, if it starts so.
pub turns-IsBalanced :
    (limit : ℕ) (g : TunnelAuthGate) (ts : List Turn)
    → IsBalanced limit g
    → IsBalanced limit (turns limit g ts)
unfolding turns
turns-IsBalanced limit g [] h = h
turns-IsBalanced limit g (t ∷ ts) h =
    turns-IsBalanced limit (turn limit g t) ts (turn-IsBalanced limit g t h)

length-append_bounded-le : (n : ℕ) (xs : List ℕ) (x : ℕ) → length (append_bounded n xs x) ≤ n
length-append_bounded-le n xs x =
    omega (arith, length-drop (length (xs ++ x ∷ []) - n) (xs ++ x ∷ []))

-- The windows of the metrics.
pub record IsBounded (m : TunnelMetrics) : Type 0 where
  pub durations : length m.auth_durations_ms ≤ 200
  pub waits : length m.db_checkout_wait_ms ≤ 200
  pub attempts : length m.auth_attempt_monotonic ≤ 500
  pub recent : length m.auth_attempt_monotonic ≤ m.auth_attempts

record_metric-IsBounded :
    (m : TunnelMetrics) (r : Record) → IsBounded m → IsBounded (record_metric m r)
unfolding record_metric
record_metric-IsBounded m (auth_attempt at) h = record {
  durations = h.durations;
  waits = h.waits;
  attempts = length-append_bounded-le 500 m.auth_attempt_monotonic at;
  recent = omega (
    arith,
    h.recent,
    length-drop (length (m.auth_attempt_monotonic ++ at ∷ []) - 500)
        (m.auth_attempt_monotonic ++ at ∷ []),
    length-append m.auth_attempt_monotonic (at ∷ []),
  );
}
record_metric-IsBounded m (auth_duration d) h = record {
  durations = length-append_bounded-le 200 m.auth_durations_ms d;
  waits = h.waits;
  attempts = h.attempts;
  recent = h.recent;
}
record_metric-IsBounded m (db_checkout_wait d) h = record {
  durations = h.durations;
  waits = length-append_bounded-le 200 m.db_checkout_wait_ms d;
  attempts = h.attempts;
  recent = h.recent;
}
record_metric-IsBounded m Record.accepted h = record {
  durations = h.durations;
  waits = h.waits;
  attempts = h.attempts;
  recent = h.recent;
}
record_metric-IsBounded m Record.rejected h = record {
  durations = h.durations;
  waits = h.waits;
  attempts = h.attempts;
  recent = h.recent;
}
record_metric-IsBounded m duplicate_replacement h = record {
  durations = h.durations;
  waits = h.waits;
  attempts = h.attempts;
  recent = h.recent;
}
record_metric-IsBounded m reset h = record {
  durations = omega arith;
  waits = omega arith;
  attempts = omega arith;
  recent = omega arith;
}

-- Whatever is recorded, the windows of durations keep at most 200 entries and the window of
-- attempts at most 500, and no more than the attempts counted, if they start so.
pub record_metrics-IsBounded :
    (m : TunnelMetrics) (rs : List Record) → IsBounded m → IsBounded (record_metrics m rs)
unfolding record_metrics
record_metrics-IsBounded m [] h = h
record_metrics-IsBounded m (r ∷ rs) h =
    record_metrics-IsBounded (record_metric m r) rs (record_metric-IsBounded m r h)
