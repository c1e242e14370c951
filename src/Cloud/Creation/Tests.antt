-- ===== src/Cloud/Creation/Tests.antt =====
-- A read job for a known gateway, and the theorem at a concrete input.
use iot_cloud_commissioning.Prelude.{◌≡◌, refl, true, String, none, some, [], ◌∷◌, string_eq}
use iot_cloud_commissioning.Dict.{Dict, get}
use iot_cloud_commissioning.Json.{pos, Fields, int, text, end, field, get_field}
use iot_cloud_commissioning.Cloud.Access.{
  AdminAuthContext, Site, Tables, is_platform_admin, visible_site_ids, in_scope,
  require_site_access, require_job_operator_auth,
}
use iot_cloud_commissioning.Cloud.Db.{Db}
use iot_cloud_commissioning.Cloud.Http.{ok}
use iot_cloud_commissioning.Cloud.Creation.{
  JobCreateIn, read_required_int, normalize_bacnet_read_request, normalized,
  validate_known_job_payloads, may_create, new_job, create_job,
}
use iot_cloud_commissioning.Cloud.Creation.Scope.{IsCreated, create_job-IsCreated}

abbrev nobody : Tables
nobody = record { site_memberships = []; organization_memberships = []; sites = [] }

abbrev admin : AdminAuthContext
admin = record {
  auth_type = "operator";
  email = some "ann";
  role = "admin";
  operator_user_id = some "1";
}

abbrev known_gateways : Dict String Site
known_gateways = ("GW001", record { id = "s1"; organization_id = none }) ∷ []

abbrev a_request : Fields
a_request = field "device_instance" (int (pos 12)) (
    field "object_type" (text "analog-value")
      (field "object_instance" (int (pos 3)) (field "property" (text "present-value") end)))

abbrev a_payload : JobCreateIn
a_payload = record { gateway_id = "GW001"; job_type = "bacnet_read"; request = a_request }

abbrev a_db : Db
a_db = record { jobs = []; commands = []; batches = []; points = []; devices = [] }

abbrev after : Db
after = record a_db { jobs = new_job a_payload a_request 1 "J1" 10 ∷ [] }

creates :
    create_job nobody true a_db admin known_gateways a_payload 1 "J1" 10
    ≡ ok (after, new_job a_payload a_request 1 "J1" 10)
unfolding create_job validate_known_job_payloads normalized normalize_bacnet_read_request
    read_required_int get_field may_create require_site_access visible_site_ids is_platform_admin
    in_scope get require_job_operator_auth
creates = refl

create_job-IsCreated_example :
    IsCreated nobody true a_db admin known_gateways a_payload after
      (new_job a_payload a_request 1 "J1" 10)
create_job-IsCreated_example =
    create_job-IsCreated nobody true a_db admin known_gateways a_payload 1 "J1" 10 after
      (new_job a_payload a_request 1 "J1" 10) creates
