-- ===== src/Cloud/Updates.antt =====
-- Gateway updates of cloud-api/app/main.py: the rows, their scopes and targets, and the approved
-- release. The request is in Updates/Requests, the claim and the completion in Updates/Closing. A
-- handler that raises leaves the tables, since it commits at its end. `strip`, `lower` and the two
-- matches of `re.fullmatch` are Python's, and are arguments.
pub mod Requests
pub mod Closing
mod Rows
pub mod Live
pub mod Flow
mod Tests
use iot_cloud_commissioning.Prelude.{
  ℕ, suc, Bool, true, false, not, ◌&&◌, ◌||◌, Option, none, some, List, [], ◌∷◌, ◌++◌, map, String,
  ltb, nat_beq, if◌then◌else◌, keep, or_else, ◌==◌, string_eq,
}
use iot_cloud_commissioning.Cloud.Http.{Response, ok, http_error, refuse_if, or_refuse, ◌>>=◌, ◌>>◌}
use iot_cloud_commissioning.Cloud.Db.{first_where, change_first}
use iot_cloud_commissioning.Cloud.Access.{
  AdminAuthContext, Site, Tables, require_site_access, require_admin_or_admin_token_auth,
}

-- The values that the request model admits, which are the texts in the column.
pub data UpdateScope : Type 0 where
  ui_only agent edge_release full_non_provisioning : UpdateScope

pub data UpdateStatus : Type 0 where
  queued running completed failed : UpdateStatus

pub record GatewayUpdateRequest : Type 0 where
  pub id : ℕ
  pub gateway_id : String
  pub requested_by : String
  pub update_scope : UpdateScope
  pub target_agent_version : Option String
  pub target_ui_version : Option String
  pub target_agent_commit : Option String
  pub target_ui_commit : Option String
  pub status : UpdateStatus
  pub requested_at : ℕ
  pub started_at : Option ℕ
  pub completed_at : Option ℕ
  pub error_message : Option String

-- A gateway with the site that it is joined with.
pub record GatewayRow : Type 0 where
  pub gateway_id : String
  pub site : Site
  pub agent_version : String
  pub ui_version : String

pub record UpdateDb : Type 0 where
  pub updates : List GatewayUpdateRequest
  pub gateways : List GatewayRow

-- `status.in_(["queued", "running"])`
abbrev pub is_live : UpdateStatus → Bool
is_live queued = true
is_live running = true
is_live completed = false
is_live failed = false

abbrev pub is_queued : UpdateStatus → Bool
is_queued queued = true
is_queued _ = false

-- `scope in {"agent", "edge_release", "full_non_provisioning"}`, and the same for the UI.
abbrev pub updates_agent : UpdateScope → Bool
updates_agent ui_only = false
updates_agent _ = true

abbrev pub updates_ui : UpdateScope → Bool
updates_ui agent = false
updates_ui _ = true

unfoldable pub stored_gateway_update_scope : UpdateScope → UpdateScope
stored_gateway_update_scope full_non_provisioning = edge_release
stored_gateway_update_scope scope = scope

unfoldable pub gateway_update_public_scope : GatewayUpdateRequest → UpdateScope
gateway_update_public_scope update = elim update.update_scope [
  | edge_release ↦ full_non_provisioning
  | ui_only ↦ ui_only
  | agent ↦ agent
  | full_non_provisioning ↦ full_non_provisioning
]

abbrev pub is_full : UpdateScope → Bool
is_full full_non_provisioning = true
is_full _ = false

-- A version that is not the empty text, or the approved one for a full update.
abbrev pub target_or_approved : Option String → Bool → String → Option String
target_or_approved none full approved = if full then some approved else none
target_or_approved (some version) full approved =
    if version == "" then (if full then some approved else none) else some version

unfoldable pub gateway_update_target_agent_version : String → GatewayUpdateRequest → Option String
unfolding gateway_update_public_scope
gateway_update_target_agent_version approved update =
    target_or_approved update.target_agent_version (is_full (gateway_update_public_scope update))
      approved

unfoldable pub gateway_update_target_ui_version : String → GatewayUpdateRequest → Option String
unfolding gateway_update_public_scope
gateway_update_target_ui_version approved update =
    target_or_approved update.target_ui_version (is_full (gateway_update_public_scope update))
      approved

pub record ReleaseTargets : Type 0 where
  pub version : String
  pub ui_commit : String
  pub agent_commit : String

-- The release settings are read anew; an unset one counts as the empty text.
unfoldable pub approved_release_targets :
    (String → String)
    → (String → String)
    → (String → Bool)
    → (String → Bool)
    → Option String
    → Option String
    → Option String
    → Response ReleaseTargets
approved_release_targets strip lower is_version is_commit release ui_release agent_release = do
  let version = strip (or_else release "")
  let ui_commit = lower (strip (or_else ui_release ""))
  let agent_commit = lower (strip (or_else agent_release ""))
  refuse_if (not (is_version version)) 503 "Approved release version configuration is unavailable"
  refuse_if (not (is_commit ui_commit) || not (is_commit agent_commit)) 503
      "Approved release commit configuration is unavailable"
  ok (record { version = version; ui_commit = ui_commit; agent_commit = agent_commit })

unfoldable pub get_gateway_with_site_or_404 : List GatewayRow → String → Response GatewayRow
get_gateway_with_site_or_404 gateways id =
    or_refuse (first_where (λ g. g.gateway_id == id) gateways) 404 "Gateway not found"

unfoldable pub require_gateway_site_access :
    Tables → Bool → AdminAuthContext → List GatewayRow → String → Response (Unit {0})
unfolding get_gateway_with_site_or_404
require_gateway_site_access tables explicit auth gateways id = do
  gateway ← get_gateway_with_site_or_404 gateways id
  require_site_access tables explicit auth gateway.site

-- `dict.fromkeys`: the first occurrence of each text, in order.
