-- ===== src/Cloud/Allowlist.antt =====
-- `TunnelAllowlist` of cloud-api/app/tunnel.py: the in-memory admission leases of tunnels.
-- Each method holds the lock throughout, so it is one step. `now` is what the clock returns at
-- that step; times are whole numbers. A method returns the new leases and its result.
pub mod View
pub mod Capacity
pub mod Removal
mod Tests
use iot_cloud_commissioning.Prelude.{
  ℕ, Bool, true, false, not, ◌&&◌, ◌||◌, Option, none, some, List, [], ◌∷◌, String, leb, ltb,
  nat_beq, if◌then◌else◌, length, string_eq,
}
use iot_cloud_commissioning.Dict.{Dict, get, put, remove, has}
use iot_cloud_commissioning.Dict.Purge.{purge}

-- `_expires`: the expiry time of each gateway's lease.
abbrev pub Leases : Type 0
Leases = Dict String ℕ

unfoldable pub expire_locked : Leases → ℕ → Leases
expire_locked leases now = purge (λ _ expires_at. leb expires_at now) leases

unfoldable pub reserve : Leases → String → ℕ → ℕ → ℕ → Leases × Bool
reserve leases gateway_id expires_at maximum now =
    let current = expire_locked leases now in
    if not (has current gateway_id) && (leb maximum 0 || leb maximum (length current))
    then (current, false)
    else (put current gateway_id expires_at, true)

unfoldable pub allow : Leases → String → ℕ → Leases
allow leases gateway_id expires_at = put leases gateway_id expires_at

allows_found : Leases → String → ℕ → Option ℕ → Leases × Bool
allows_found leases gateway_id now none = (remove leases gateway_id, false)
allows_found leases gateway_id now (some expires_at) =
    if leb expires_at now then (remove leases gateway_id, false) else (leases, true)

unfoldable pub allows : Leases → String → ℕ → Leases × Bool
unfolding allows_found
allows leases gateway_id now = allows_found leases gateway_id now (get leases gateway_id)

unfoldable pub remove_lease : Leases → String → Leases
remove_lease leases gateway_id = remove leases gateway_id

same_expiry : Option ℕ → ℕ → Bool
same_expiry none expires_at = false
same_expiry (some t) expires_at = nat_beq t expires_at

unfoldable pub remove_if_current : Leases → String → ℕ → Leases × Bool
unfolding same_expiry
remove_if_current leases gateway_id expires_at =
    if same_expiry (get leases gateway_id) expires_at
    then (remove leases gateway_id, true)
    else (leases, false)

unfoldable pub expires_at : Leases → String → ℕ → Leases × Option ℕ
expires_at leases gateway_id now =
    let current = expire_locked leases now in (current, get current gateway_id)

unfoldable pub active_count : Leases → ℕ → Leases × ℕ
active_count leases now = let current = expire_locked leases now in (current, length current)

unfoldable pub clear : Leases → Leases
clear leases = []

-- A call of a method, with the arguments that it brings. `allow` is left out: it writes a lease
-- whatever the capacity is, and only the tests of the service call it; each route uses `reserve`.
pub data Call : Type 0 where
  reserves : String → ℕ → Call
  checks : String → Call
  removes : String → Call
  removes_if_current : String → ℕ → Call
  reads : String → Call
  counts : Call
  clears : Call

-- One call at time `now`, under the capacity that the settings give.
unfoldable pub step : ℕ → Leases → ℕ × Call → Leases
step maximum leases (now, reserves g t) = (reserve leases g t maximum now).0
step maximum leases (now, checks g) = (allows leases g now).0
step maximum leases (now, removes g) = remove_lease leases g
step maximum leases (now, removes_if_current g t) = (remove_if_current leases g t).0
step maximum leases (now, reads g) = (expires_at leases g now).0
step maximum leases (now, counts) = (active_count leases now).0
step maximum leases (now, clears) = clear leases

unfoldable pub run : ℕ → Leases → List (ℕ × Call) → Leases
run maximum leases [] = leases
run maximum leases (c ∷ cs) = run maximum (step maximum leases c) cs
