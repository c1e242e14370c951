-- ===== src/Cloud/Creation.antt =====
-- `create_job` of cloud-api/app/main.py with the payload checks of cloud-api/app/schemas.py. A
-- failed check of the payload is status 422; the edge node is the row of the payload's gateway,
-- with its site; `access` decides about a site, and fresh ids are arguments.
pub mod Scope
mod Tests
use iot_cloud_commissioning.Prelude.{
  ℕ, Bool, true, false, not, ◌&&◌, ◌||◌, Option, none, some, List, [], ◌∷◌, ◌++◌, String, leb, min,
  if◌then◌else◌, any, ◌==◌, string_eq,
}
use iot_cloud_commissioning.Dict.{Dict, get}
use iot_cloud_commissioning.Json.{
  ℤ, pos, Value, bool, int, text, list, Items, nil, cons, Fields, end, field, get_field, as_int,
  as_text,
}
use iot_cloud_commissioning.Cloud.Access.{
  AdminAuthContext, Site, Tables, is_platform_admin, require_site_access, require_job_operator_auth,
}
use iot_cloud_commissioning.Cloud.Db.{Db, EdgeJob, JobStatus}
use iot_cloud_commissioning.Cloud.Http.{Response, ok, http_error, refuse_if, or_refuse, ◌>>=◌, ◌>>◌}
use iot_cloud_commissioning.Cloud.Jobs.{write_batch}

pub record JobCreateIn : Type 0 where
  pub gateway_id : String
  pub job_type : String
  pub request : Fields

abbrev pub read_object_types : List String
read_object_types =
    "analog-input" ∷ "analog-output" ∷ "analog-value" ∷ "binary-input" ∷ "binary-output"
    ∷ "binary-value" ∷ "multi-state-input" ∷ "multi-state-output" ∷ "multi-state-value" ∷ "schedule"
    ∷ []

abbrev pub is_listed : List String → String → Bool
is_listed names s = any (λ t. t == s) names

-- `request.get("property", "present-value") == "present-value"`.
abbrev pub is_present_value : Option Value → Bool
is_present_value none = true
is_present_value (some (text s)) = s == "present-value"
is_present_value _ = false

unfoldable pub read_required_int : Fields → String → Response ℤ
read_required_int request name =
    or_refuse (as_int (get_field request name)) 422 "must be an integer"

unfoldable pub normalize_bacnet_read_request : Fields → Response Fields
unfolding read_required_int
normalize_bacnet_read_request request = do
  device ← read_required_int request "device_instance"
  object ← read_required_int request "object_instance"
  kind ← or_refuse (as_text (get_field request "object_type")) 422 "object_type"
  refuse_if (not (is_listed read_object_types kind)) 422 "object_type"
  refuse_if (not (is_present_value (get_field request "property"))) 422
      "property must be present-value"
  ok (
      field "device_instance" (int device) (
        field "object_type" (text kind)
          (field "object_instance" (int object) (field "property" (text "present-value") end))))

-- `limit` and the `name_limit` that goes with it.
abbrev pub limits_of : Option Value → Option (ℕ × ℕ)
limits_of none = some (250, 40)
limits_of (some (int (pos n))) = if leb 1 n && leb n 1000 then some (n, min 40 n) else none
limits_of _ = none

abbrev pub name_limit_of : ℕ × ℕ → Option Value → Option ℕ
name_limit_of (limit, standard) none = some standard
name_limit_of (limit, standard) (some (int (pos n))) = if leb n limit then some n else none
name_limit_of _ _ = none

abbrev pub include_of : Option Value → Option Bool
include_of none = some true
include_of (some (bool b)) = some b
include_of _ = none

-- Every item is a text of the list.
unfoldable pub are_listed : List String → Items → Bool
are_listed names nil = true
are_listed names (cons (text s) items) = is_listed names s && are_listed names items
are_listed names (cons _ items) = false

-- The `object_types` of the request as the last part of the normal form.
abbrev pub types_of : List String → Option Value → Option Fields
types_of names none = some end
types_of names (some (list items)) =
    if are_listed names items then some (field "object_types" (list items) end) else none
types_of names _ = none

-- `BACNET_LOAD_POINT_OBJECT_TYPES`.
abbrev pub load_point_object_types : List String
load_point_object_types =
    "analog-input" ∷ "analog-output" ∷ "analog-value" ∷ "binary-input" ∷ "binary-output"
    ∷ "binary-value" ∷ "calendar" ∷ "command" ∷ "event-enrollment" ∷ "file" ∷ "loop"
    ∷ "multi-state-input" ∷ "multi-state-output" ∷ "multi-state-value" ∷ "notification-class"
    ∷ "program" ∷ "schedule" ∷ "trend-log" ∷ []

unfoldable pub normalize_bacnet_load_points_request : Fields → Response Fields
unfolding read_required_int
normalize_bacnet_load_points_request request = do
  device ← read_required_int request "device_instance"
  limits ← or_refuse (limits_of (get_field request "limit")) 422 "limit"
  name_limit ← or_refuse (name_limit_of limits (get_field request "name_limit")) 422 "name_limit"
  names ←
      or_refuse (include_of (get_field request "include_object_names")) 422
        "include_object_names must be a boolean"
  types ←
      or_refuse (types_of load_point_object_types (get_field request "object_types")) 422
        "object_types"
  ok (
      field "device_instance" (int device) (
        field "bacnet_port" (int (pos 47814)) (
          field "limit" (int (pos limits.0)) (
            field "name_limit" (int (pos name_limit))
              (field "include_object_names" (bool names) types)))))

normalized : JobCreateIn → Response Fields
unfolding normalize_bacnet_read_request normalize_bacnet_load_points_request
normalized payload =
    if payload.job_type == "bacnet_read"
    then normalize_bacnet_read_request payload.request
    else if payload.job_type == "bacnet_load_points"
    then normalize_bacnet_load_points_request payload.request
    else ok payload.request

unfoldable pub validate_known_job_payloads : JobCreateIn → Response Fields
unfolding normalized
validate_known_job_payloads payload = do
  refuse_if (payload.job_type == write_batch) 422
      "bacnet_write_batch jobs must be queued through the admin point-write endpoint"
  normalized payload

-- The site of the edge node, or the pre-provisioning rule for a gateway without one.
unfoldable pub may_create : Tables → Bool → AdminAuthContext → Option Site → Response (Unit {0})
may_create tables require_explicit auth (some site) =
    require_site_access tables require_explicit auth site
may_create tables require_explicit auth none =
    refuse_if (not (is_platform_admin auth)) 404 "Gateway not found"

abbrev pub new_job : JobCreateIn → Fields → ℕ → String → ℕ → EdgeJob
new_job payload request id job_id now = record {
  id = id;
  job_id = job_id;
  gateway_id = payload.gateway_id;
  job_type = payload.job_type;
  status = JobStatus.queued;
  request_json = request;
  result_json = none;
  error_message = none;
  created_at = now;
  claimed_at = none;
  completed_at = none;
}

-- `gateways` is the site of each row of `EdgeNode`, under its gateway_id, which is unique.
unfoldable pub create_job :
    Tables
    → Bool
    → Db
    → AdminAuthContext
    → Dict String Site
    → JobCreateIn
    → ℕ
    → String
    → ℕ
    → Response (Db × EdgeJob)
unfolding validate_known_job_payloads may_create
create_job tables require_explicit db auth gateways payload id job_id now = do
  _ ← require_job_operator_auth auth
  request ← validate_known_job_payloads payload
  may_create tables require_explicit auth (get gateways payload.gateway_id)
  let job = new_job payload request id job_id now
  ok (record db { jobs = db.jobs ++ job ∷ [] }, job)
