-- ===== src/Cloud/Console.antt =====
-- `TunnelSessionManager`, `TunnelAuthGate` and `TunnelMetrics` of cloud-api/app/tunnel.py. The
-- clock, whole seconds, and the random session id are arguments; a measured duration is a number.
pub mod Sessions
pub mod Gate
mod Tests
use iot_cloud_commissioning.Prelude.{
  ℕ, suc, ◌+◌, ◌-◌, Bool, true, false, not, ◌&&◌, ◌||◌, Option, none, some, List, [], ◌∷◌, ◌++◌,
  String, leb, nat_beq, if◌then◌else◌, length, drop, keep, min, max, string_eq, ◌==◌,
}
use iot_cloud_commissioning.Dict.{Dict, get, put, remove}
use iot_cloud_commissioning.Dict.Purge.{purge}

pub record TunnelConsoleSession : Type 0 where
  pub session_id : String
  pub gateway_id : String
  pub subject : String
  pub expires_at : ℕ

pub record TunnelSessionManager : Type 0 where
  pub ttl_seconds : ℕ
  pub sessions : Dict String TunnelConsoleSession

unfoldable pub expire_old : TunnelSessionManager → ℕ → TunnelSessionManager
expire_old m now = record m {
  sessions = purge (λ (_ : String) (s : TunnelConsoleSession). leb s.expires_at now) m.sessions;
}

abbrev pub session_ttl : TunnelSessionManager → Option ℕ → ℕ
session_ttl m none = m.ttl_seconds
session_ttl m (some ttl) = max 300 (min 3600 ttl)

-- `first` is the clock at `_expire_old` and `now` when the session is made.
unfoldable pub create :
    TunnelSessionManager
    → String
    → String
    → Option ℕ
    → String
    → ℕ
    → ℕ
    → TunnelSessionManager × TunnelConsoleSession
unfolding expire_old
create m gateway subject ttl session_id first now =
    let session : TunnelConsoleSession = record {
      session_id = session_id;
      gateway_id = gateway;
      subject = subject;
      expires_at = now + session_ttl m ttl;
    } in
    let current = expire_old m first in
    (record current { sessions = put current.sessions session_id session }, session)

get_found :
    TunnelSessionManager
    → String
    → String
    → ℕ
    → Option TunnelConsoleSession
    → TunnelSessionManager × Option TunnelConsoleSession
get_found m gateway session_id now none = (m, none)
get_found m gateway session_id now (some session) =
    if not (session.gateway_id == gateway)
    then (m, none)
    else if leb session.expires_at now
    then (record m { sessions = remove m.sessions session_id }, none)
    else (m, some session)

-- `none` is TunnelUnavailable.
unfoldable pub get_session :
    TunnelSessionManager
    → String
    → String
    → ℕ
    → ℕ
    → TunnelSessionManager × Option TunnelConsoleSession
unfolding expire_old get_found
get_session m gateway session_id first now =
    let current = expire_old m first in
    get_found current gateway session_id now (get current.sessions session_id)

unfoldable pub revoke_gateway : TunnelSessionManager → String → TunnelSessionManager
revoke_gateway m gateway = record m {
  sessions = purge (λ (_ : String) (s : TunnelConsoleSession). s.gateway_id == gateway) m.sessions;
}

-- `TunnelAuthGate`: the number of authentications that run now.
unfoldable pub try_acquire : ℕ → ℕ → ℕ × Bool
try_acquire in_use limit = if leb limit in_use then (in_use, false) else (suc in_use, true)

unfoldable pub release : ℕ → ℕ
release in_use = in_use - 1

-- `deque(maxlen=n).append(x)`.
abbrev pub append_bounded {ℓ} : {A : Type ℓ} → ℕ → List A → A → List A
append_bounded maxlen xs x = let ys = xs ++ x ∷ [] in drop (length ys - maxlen) ys

pub record TunnelMetrics : Type 0 where
  pub auth_attempts : ℕ
  pub accepted : ℕ
  pub rejected : ℕ
  pub duplicate_replacements : ℕ
  pub auth_durations_ms : List ℕ
  pub db_checkout_wait_ms : List ℕ
  pub auth_attempt_monotonic : List ℕ

pub data Record : Type 0 where
  auth_attempt : ℕ → Record
  auth_duration : ℕ → Record
  db_checkout_wait : ℕ → Record
  accepted rejected duplicate_replacement reset : Record

abbrev pub no_metrics : TunnelMetrics
no_metrics = record {
  auth_attempts = 0;
  accepted = 0;
  rejected = 0;
  duplicate_replacements = 0;
  auth_durations_ms = [];
  db_checkout_wait_ms = [];
  auth_attempt_monotonic = [];
}

-- The `record_...` methods and `reset`, each under the lock.
unfoldable pub record_metric : TunnelMetrics → Record → TunnelMetrics
record_metric m (auth_attempt at) = record m {
  auth_attempts = suc m.auth_attempts;
  auth_attempt_monotonic = append_bounded 500 m.auth_attempt_monotonic at;
}
record_metric m (auth_duration d) = record m {
  auth_durations_ms = append_bounded 200 m.auth_durations_ms d;
}
record_metric m (db_checkout_wait d) = record m {
  db_checkout_wait_ms = append_bounded 200 m.db_checkout_wait_ms d;
}
record_metric m Record.accepted = record m { accepted = suc m.accepted }
record_metric m Record.rejected = record m { rejected = suc m.rejected }
record_metric m duplicate_replacement = record m {
  duplicate_replacements = suc m.duplicate_replacements;
}
record_metric m reset = no_metrics

-- The methods in a sequence.
unfoldable pub record_metrics : TunnelMetrics → List Record → TunnelMetrics
unfolding record_metric
record_metrics m [] = m
record_metrics m (r ∷ rs) = record_metrics (record_metric m r) rs

-- An authentication that asks for a place, and that gives back a place which it has.
pub data Turn : Type 0 where
  asks : ℕ → Turn
  leaves : ℕ → Turn

pub record TunnelAuthGate : Type 0 where
  pub in_use : ℕ
  pub holders : List ℕ

granted : TunnelAuthGate → ℕ → ℕ × Bool → TunnelAuthGate
granted g w (n, true) = record { in_use = n; holders = w ∷ g.holders }
granted g w (n, false) = record { in_use = n; holders = g.holders }

abbrev pub without : ℕ → List ℕ → List ℕ
without w [] = []
without w (v ∷ vs) = let rest = without w vs in if nat_beq v w then vs else v ∷ rest

abbrev pub holds_place : ℕ → List ℕ → Bool
holds_place w [] = false
holds_place w (v ∷ vs) = nat_beq v w || holds_place w vs

-- Only a caller to which `try_acquire` was true calls `release`.
unfoldable pub turn : ℕ → TunnelAuthGate → Turn → TunnelAuthGate
unfolding granted try_acquire release
turn limit g (asks w) = granted g w (try_acquire g.in_use limit)
turn limit g (leaves w) =
    if holds_place w g.holders
    then record { in_use = release g.in_use; holders = without w g.holders }
    else g

unfoldable pub turns : ℕ → TunnelAuthGate → List Turn → TunnelAuthGate
unfolding turn
turns limit g [] = g
turns limit g (t ∷ ts) = turns limit (turn limit g t) ts
