-- ===== src/Cloud/Updates/Closing.antt =====
-- How a gateway update is claimed and completed: `admin_claim_gateway_update` and
-- `admin_complete_gateway_update` of cloud-api/app/main.py.
use iot_cloud_commissioning.Prelude.{
  ℕ, Bool, true, false, not, ◌&&◌, Option, none, some, List, String, nat_beq, or_else, ◌==◌,
  string_eq,
}
use iot_cloud_commissioning.Cloud.Http.{Response, ok, http_error, refuse_if, ◌>>=◌, ◌>>◌}
use iot_cloud_commissioning.Cloud.Db.{first_where, change_first}
use iot_cloud_commissioning.Cloud.Access.{AdminAuthContext, require_admin_or_admin_token_auth}
use iot_cloud_commissioning.Cloud.Updates.{
  UpdateScope, UpdateStatus, GatewayUpdateRequest, GatewayRow, UpdateDb, is_live, is_queued,
  gateway_update_public_scope, is_full, gateway_update_target_agent_version,
  gateway_update_target_ui_version, get_gateway_with_site_or_404, ui_only, running,
}

abbrev pub claimed : ℕ → GatewayUpdateRequest → GatewayUpdateRequest
claimed now u = record u { status = running; started_at = some now }

unfoldable pub claim_found : ℕ → ℕ → UpdateDb → Option GatewayUpdateRequest → Response UpdateDb
claim_found request_id now db none = http_error 404 "Gateway update request not found"
claim_found request_id now db (some update) =
    refuse_if (not (is_queued update.status)) 409 "Gateway update request is already"
    >> ok (record db {
      updates = change_first (λ u. nat_beq u.id request_id) (claimed now) db.updates;
    })

abbrev pub update_by_id : ℕ → UpdateDb → Option GatewayUpdateRequest
update_by_id id db = first_where (λ u. nat_beq u.id id) db.updates

-- The gateway that the answer looks up is there by the foreign key.
unfoldable pub admin_claim_gateway_update : AdminAuthContext → ℕ → ℕ → UpdateDb → Response UpdateDb
unfolding claim_found
admin_claim_gateway_update auth request_id now db = require_admin_or_admin_token_auth auth >>= λ _.
    claim_found request_id now db (update_by_id request_id db)

pub data Ending : Type 0 where
  completed failed : Ending

abbrev pub status_of : Ending → UpdateStatus
status_of Ending.completed = UpdateStatus.completed
status_of Ending.failed = UpdateStatus.failed

abbrev pub is_completed : Ending → Bool
is_completed Ending.completed = true
is_completed Ending.failed = false

abbrev pub ended : Ending → Option String → ℕ → GatewayUpdateRequest → GatewayUpdateRequest
ended ending error now u = record u {
  status = status_of ending;
  error_message = error;
  completed_at = some now;
}

abbrev is_ui_only : UpdateScope → Bool
is_ui_only ui_only = true
is_ui_only _ = false

-- `update.target_ui_version` is a text that is not empty.
abbrev pub set_text : Option String → Bool
set_text none = false
set_text (some text) = not (text == "")

abbrev pub change_gateway :
    (GatewayRow → GatewayRow) → String → List GatewayRow → Response (List GatewayRow)
change_gateway f id gateways = do
  _ ← get_gateway_with_site_or_404 gateways id
  ok (change_first (λ g. g.gateway_id == id) f gateways)

abbrev pub mark_ui : GatewayUpdateRequest → GatewayRow → GatewayRow
mark_ui u g = record g { ui_version = or_else u.target_ui_version g.ui_version }

abbrev pub mark_both : String → GatewayUpdateRequest → GatewayRow → GatewayRow
mark_both approved u g = record g {
  agent_version = or_else (gateway_update_target_agent_version approved u) approved;
  ui_version = or_else (gateway_update_target_ui_version approved u) approved;
}

unfoldable pub change_if :
    Bool → (GatewayRow → GatewayRow) → String → List GatewayRow → Response (List GatewayRow)
unfolding get_gateway_with_site_or_404
change_if true f id gateways = change_gateway f id gateways
change_if false f id gateways = ok gateways

-- The release markers of the gateway after a completion.
unfoldable pub marked_gateways :
    String → Ending → GatewayUpdateRequest → List GatewayRow → Response (List GatewayRow)
unfolding change_if
marked_gateways approved ending u gateways =
    change_if (is_completed ending && (is_ui_only u.update_scope && set_text u.target_ui_version))
      (mark_ui u) u.gateway_id gateways
    >>= change_if (is_completed ending && is_full (gateway_update_public_scope u))
        (mark_both approved u) u.gateway_id

unfoldable pub complete_found :
    String
    → ℕ
    → Ending
    → Option String
    → ℕ
    → UpdateDb
    → Option GatewayUpdateRequest
    → Response UpdateDb
unfolding marked_gateways
complete_found approved request_id ending error now db none =
    http_error 404 "Gateway update request not found"
complete_found approved request_id ending error now db (some update) =
    refuse_if (not (is_live update.status)) 409 "Gateway update request is already"
    >> (marked_gateways approved ending update db.gateways >>= λ gateways. ok (record {
      updates = change_first (λ u. nat_beq u.id request_id) (ended ending error now) db.updates;
      gateways = gateways;
    }))

unfoldable pub admin_complete_gateway_update :
    String → AdminAuthContext → ℕ → Ending → Option String → ℕ → UpdateDb → Response UpdateDb
unfolding complete_found
admin_complete_gateway_update approved auth request_id ending error now db =
    require_admin_or_admin_token_auth auth >>= λ _.
    complete_found approved request_id ending error now db (update_by_id request_id db)
