-- ===== src/Cloud/Updates/Tests.antt =====
-- One gateway: a request is queued, claimed and completed.
use iot_cloud_commissioning.Prelude.{
  ℕ, ◌≡◌, refl, Bool, false, none, some, List, [], ◌∷◌, map, String, string_eq, ◌==◌,
}
use iot_cloud_commissioning.Cloud.Http.{Response, ok, http_error}
use iot_cloud_commissioning.Cloud.Access.{
  AdminAuthContext, require_site_access, require_admin_or_admin_token_auth,
}
use iot_cloud_commissioning.Cloud.Updates.{
  UpdateScope, full_non_provisioning, UpdateStatus, GatewayUpdateRequest, GatewayRow, UpdateDb,
  ReleaseTargets, approved_release_targets, gateway_update_public_scope,
  gateway_update_target_agent_version,
}
use iot_cloud_commissioning.Cloud.Updates.Requests.{ui_request_gateway_updates}
use iot_cloud_commissioning.Cloud.Updates.Closing.{
  Ending, admin_claim_gateway_update, admin_complete_gateway_update,
}
use iot_cloud_commissioning.Cloud.Updates.Rows.{IsSingle}
use iot_cloud_commissioning.Cloud.Updates.Live.{
  Operation, request, claim, complete, Call, serve_all, serve_all-IsSingle,
}
use iot_cloud_commissioning.Cloud.Updates.Flow.{admin_complete_gateway_update_once}

abbrev token : AdminAuthContext
token = record { auth_type = "admin_token"; email = none; role = "admin"; operator_user_id = none }

abbrev gateway : GatewayRow
gateway = record {
  gateway_id = "gw-1";
  site = record { id = "site"; organization_id = none };
  agent_version = "0.1.9";
  ui_version = "0.1.9";
}

abbrev no_updates : UpdateDb
no_updates = record { updates = []; gateways = gateway ∷ [] }

abbrev same : String → String
same s = s

-- The tests of the two regular expressions, on the texts that are used here.
abbrev is_version : String → Bool
is_version s = s == "0.2.4"

abbrev is_commit : String → Bool
is_commit s = s == "c0ffee"

abbrev targets : Response ReleaseTargets
targets =
    approved_release_targets same same is_version is_commit (some "0.2.4") (some "c0ffee")
      (some "c0ffee")

abbrev call : ℕ → Operation → Call
call now operation = record {
  auth = token;
  tables = record { site_memberships = []; organization_memberships = []; sites = [] };
  explicit = false;
  targets = targets;
  approved = "0.2.4";
  now = now;
  operation = operation;
}

abbrev asked : Call
asked = call 10 (request ("gw-1" ∷ "gw-1" ∷ []) full_non_provisioning 1)

abbrev all_calls : List Call
all_calls =
    asked ∷ call 20 (claim 1) ∷ call 25 (claim 1) ∷ call 30 (complete 1 Ending.completed none) ∷ []

abbrev queued_update : GatewayUpdateRequest
queued_update = record {
  id = 1;
  gateway_id = "gw-1";
  requested_by = "admin-token";
  update_scope = UpdateScope.edge_release;
  target_agent_version = some "0.2.4";
  target_ui_version = some "0.2.4";
  target_agent_commit = some "c0ffee";
  target_ui_commit = some "c0ffee";
  status = UpdateStatus.queued;
  requested_at = 10;
  started_at = none;
  completed_at = none;
  error_message = none;
}

abbrev queued_db : UpdateDb
queued_db = record no_updates { updates = queued_update ∷ [] }

-- The two ids are one gateway, so one row is made.
one_request : serve_all same (asked ∷ []) no_updates ≡ queued_db
unfolding serve_all ui_request_gateway_updates approved_release_targets require_site_access
one_request = refl

-- The gateway is marked with the approved release.
marked_release :
    map (λ g. g.agent_version) (serve_all same all_calls no_updates).gateways ≡ "0.2.4" ∷ []
unfolding serve_all ui_request_gateway_updates admin_claim_gateway_update
    admin_complete_gateway_update approved_release_targets require_admin_or_admin_token_auth
    require_site_access gateway_update_public_scope gateway_update_target_agent_version
marked_release = refl

serve_all-IsSingle_example : IsSingle (serve_all same all_calls no_updates).updates
serve_all-IsSingle_example = serve_all-IsSingle same all_calls no_updates tt

abbrev running_db : UpdateDb
running_db = record no_updates {
  updates = record queued_update { status = UpdateStatus.running; started_at = some 20 } ∷ [];
}

may_claim : require_admin_or_admin_token_auth token ≡ ok token
unfolding require_admin_or_admin_token_auth
may_claim = refl

claimed_once : admin_claim_gateway_update token 1 20 queued_db ≡ ok running_db
unfolding admin_claim_gateway_update require_admin_or_admin_token_auth
claimed_once = refl

abbrev failed_db : UpdateDb
failed_db = record no_updates {
  updates =
      record queued_update {
        status = UpdateStatus.failed;
        started_at = some 20;
        completed_at = some 30;
        error_message = some "no space";
      }
      ∷ [];
}

completed_once :
    admin_complete_gateway_update "0.2.4" token 1 Ending.failed (some "no space") 30 running_db
    ≡ ok failed_db
unfolding admin_complete_gateway_update require_admin_or_admin_token_auth
completed_once = refl

admin_complete_gateway_update_once_example :
    (admin_claim_gateway_update token 1 40 failed_db
      ≡ http_error 409 "Gateway update request is already")
    × (admin_complete_gateway_update "0.2.4" token 1 Ending.completed none 40 failed_db
        ≡ http_error 409 "Gateway update request is already")
admin_complete_gateway_update_once_example =
    admin_complete_gateway_update_once "0.2.4" token 1 30 40 Ending.failed Ending.completed
      (some "no space") none running_db failed_db may_claim completed_once
