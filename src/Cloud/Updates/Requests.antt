-- ===== src/Cloud/Updates/Requests.antt =====
-- How gateway updates are requested: `ui_request_gateway_updates` of cloud-api/app/main.py.
use iot_cloud_commissioning.Prelude.{
  ℕ, suc, Bool, true, false, not, ◌&&◌, Option, none, some, List, [], ◌∷◌, ◌++◌, map, String, ltb,
  if◌then◌else◌, keep, or_else, ◌==◌, string_eq,
}
use iot_cloud_commissioning.Cloud.Http.{Response, ok, refuse_if, ◌>>=◌, ◌>>◌}
use iot_cloud_commissioning.Cloud.Access.{AdminAuthContext, Tables}
use iot_cloud_commissioning.Cloud.Updates.{
  UpdateScope, queued, GatewayUpdateRequest, UpdateDb, is_live, updates_agent, updates_ui,
  stored_gateway_update_scope, ReleaseTargets, require_gateway_site_access,
}

unfoldable pub from_keys : List String → List String
from_keys [] = []
from_keys (x ∷ xs) = x ∷ keep (λ y. not (y == x)) (from_keys xs)

abbrev pub is_live_of : String → GatewayUpdateRequest → Bool
is_live_of gateway u = u.gateway_id == gateway && is_live u.status

abbrev newer : GatewayUpdateRequest → Option GatewayUpdateRequest → GatewayUpdateRequest
newer u none = u
newer u (some v) = if ltb u.requested_at v.requested_at then v else u

-- The newest live request of the gateway.
unfoldable pub live_update : String → List GatewayUpdateRequest → Option GatewayUpdateRequest
live_update gateway [] = none
live_update gateway (u ∷ us) =
    let rest = live_update gateway us in if is_live_of gateway u then some (newer u rest) else rest

abbrev when {ℓ} : {A : Type ℓ} → Bool → A → Option A
when true a = some a
when false a = none

unfoldable pub new_update :
    ℕ → String → String → UpdateScope → ReleaseTargets → ℕ → GatewayUpdateRequest
unfolding stored_gateway_update_scope
new_update id gateway actor scope targets now = record {
  id = id;
  gateway_id = gateway;
  requested_by = actor;
  update_scope = stored_gateway_update_scope scope;
  target_agent_version = when (updates_agent scope) targets.version;
  target_ui_version = when (updates_ui scope) targets.version;
  target_agent_commit = when (updates_agent scope) targets.agent_commit;
  target_ui_commit = when (updates_ui scope) targets.ui_commit;
  status = queued;
  requested_at = now;
  started_at = none;
  completed_at = none;
  error_message = none;
}

-- The rows of the table, and the ids of the requests that are returned.
pub record Requested : Type 0 where
  pub updates : List GatewayUpdateRequest
  pub next_id : ℕ
  pub ids : List ℕ

-- One gateway of the request: its live request, or a new row, which is flushed.
unfoldable pub request_gateway :
    String → UpdateScope → ReleaseTargets → ℕ → String → Requested → Requested
unfolding live_update new_update
request_gateway actor scope targets now gateway r = elim (live_update gateway r.updates) [
  | some u ↦ record r { ids = r.ids ++ u.id ∷ [] }
  | none ↦ record {
    updates = r.updates ++ new_update r.next_id gateway actor scope targets now ∷ [];
    next_id = suc r.next_id;
    ids = r.ids ++ r.next_id ∷ [];
  }
]

unfoldable pub request_gateways :
    (String → Response (Unit {0}))
    → String
    → UpdateScope
    → ReleaseTargets
    → ℕ
    → List String
    → Requested
    → Response Requested
unfolding request_gateway
request_gateways access actor scope targets now [] r = ok r
request_gateways access actor scope targets now (g ∷ gs) r =
    access g
    >> request_gateways access actor scope targets now gs
        (request_gateway actor scope targets now g r)

abbrev pub is_nil {ℓ} : {A : Type ℓ} → List A → Bool
is_nil [] = true
is_nil (x ∷ xs) = false

-- The loop, with the tables and the ids that it ends with.
unfoldable pub request_chosen :
    (String → Response (Unit {0}))
    → String
    → UpdateScope
    → ReleaseTargets
    → ℕ
    → List String
    → ℕ
    → UpdateDb
    → Response (UpdateDb × List ℕ)
unfolding request_gateways
request_chosen access actor scope targets now ids next_id db =
    request_gateways access actor scope targets now ids
      (record { updates = db.updates; next_id = next_id; ids = [] })
    >>= λ r. ok (record db { updates = r.updates }, r.ids)

abbrev pub chosen_gateways : (String → String) → List String → List String
chosen_gateways strip gateway_ids = from_keys (keep (λ g. not (g == "")) (map strip gateway_ids))

unfoldable pub ui_request_gateway_updates :
    (String → String)
    → Tables
    → Bool
    → Response ReleaseTargets
    → AdminAuthContext
    → List String
    → UpdateScope
    → ℕ
    → ℕ
    → UpdateDb
    → Response (UpdateDb × List ℕ)
unfolding require_gateway_site_access request_chosen from_keys
ui_request_gateway_updates strip tables explicit approved auth gateway_ids scope now next_id db = do
  let ids = chosen_gateways strip gateway_ids
  refuse_if (is_nil ids) 400 "Select at least one gateway to update"
  targets ← approved
  request_chosen (require_gateway_site_access tables explicit auth db.gateways)
      (or_else auth.email "admin-token") scope targets now ids next_id db
