-- ===== src/Cloud/Status.antt =====
-- The effective status of a gateway, cloud-api/app/main.py, from the age of its last heartbeat.
-- Times are whole seconds, so `int(total_seconds())` is the difference.
mod Tests
use iot_cloud_commissioning.Prelude.{
  ℕ, ◌+◌, ◌-◌, ◌≤◌, ◌≡◌, ◌⊎◌, Bool, true, false, not, ◌&&◌, ◌||◌, Option, none, some, String, arith,
  ltb, if◌then◌else◌, refl, is_none,
}

pub data GatewayStatus : Type 0 where
  offline stale online : GatewayStatus

pub record StatusSettings : Type 0 where
  pub gateway_stale_after_seconds : ℕ
  pub gateway_offline_after_seconds : ℕ

-- `max(0, int((now - heartbeat_at).total_seconds()))`: a heartbeat from the future has age 0.
unfoldable pub heartbeat_age_seconds : Option ℕ → ℕ → Option ℕ
heartbeat_age_seconds none now = none
heartbeat_age_seconds (some at) now = some (now - at)

age_status : StatusSettings → Option ℕ → GatewayStatus
age_status settings none = offline
age_status settings (some age) =
    if ltb settings.gateway_offline_after_seconds age
    then offline
    else if ltb settings.gateway_stale_after_seconds age
    then stale
    else online

unfoldable pub effective_status : StatusSettings → Option ℕ → ℕ → GatewayStatus
unfolding age_status heartbeat_age_seconds
effective_status settings latest_heartbeat_at now =
    age_status settings (heartbeat_age_seconds latest_heartbeat_at now)

abbrev pub is_offline : GatewayStatus → Bool
is_offline offline = true
is_offline _ = false

abbrev pub is_online : GatewayStatus → Bool
is_online online = true
is_online _ = false

-- How far a status is from healthy.
abbrev pub decay : GatewayStatus → ℕ
decay online = 0
decay stale = 1
decay offline = 2

-- Without a new heartbeat a gateway only decays: online, stale, offline.
pub effective_status-decays :
    (settings : StatusSettings) (heartbeat : Option ℕ) (now later : ℕ)
    → now ≤ later
    → decay (effective_status settings heartbeat now)
      ≤ decay (effective_status settings heartbeat later)
unfolding effective_status
effective_status-decays settings none now later h = ground arith
effective_status-decays settings (some at) now later h = ground arith

-- A heartbeat at `now` brings the gateway online, whatever its status was.
pub effective_status-heartbeat :
    (settings : StatusSettings) (now : ℕ) → effective_status settings (some now) now ≡ online
unfolding effective_status
effective_status-heartbeat settings now = ground arith
