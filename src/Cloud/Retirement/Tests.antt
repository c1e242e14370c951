-- ===== src/Cloud/Retirement/Tests.antt =====
-- Two points that a gateway samples, of which one is removed, together with an id of no point.
use iot_cloud_commissioning.Prelude.{
  ◌≡◌, refl, true, not, none, some, List, [], ◌∷◌, map, String, keep, string_eq,
}
use iot_cloud_commissioning.Json.{pos}
use iot_cloud_commissioning.Cloud.Http.{Response, ok}
use iot_cloud_commissioning.Cloud.Db.{SavedBacnetPoint}
use iot_cloud_commissioning.Cloud.Access.{is_in}
use iot_cloud_commissioning.Cloud.Retirement.{
  PointTrendConfig, TrendTables, Removal, normal_ids, disable_trend_configs_for_points,
  retire_points, check_each, remove_found, ui_bulk_remove_points, edge_list_trend_configs,
}
use iot_cloud_commissioning.Cloud.Retirement.Workload.{edge_list_trend_configs-removed}

abbrev a_point : SavedBacnetPoint
a_point = record {
  id = "P1";
  gateway_id = "GW001";
  saved_device_id = "D1";
  device_instance = pos 12;
  object_type = "analog-input";
  object_instance = pos 3;
  object_name = none;
  property_name = "present-value";
  present_value = none;
  writable = none;
  active_priority = none;
  priority_array = none;
  relinquish_default = none;
  state_text = none;
  latest_read_at = none;
  first_seen_at = none;
  last_seen_at = none;
  lifecycle_state = "active";
  retired_at = none;
  enabled = true;
  updated_at = 0;
}

abbrev config : String → PointTrendConfig
config id = record {
  point_id = id;
  gateway_id = "GW001";
  enabled = true;
  interval_sec = 300;
  updated_at = 0;
}

abbrev tables : TrendTables
tables = record {
  points = a_point ∷ record a_point { id = "P2" } ∷ [];
  configs = config "P1" ∷ config "P2" ∷ [];
}

abbrev access : String → Response (Unit {0})
access gateway = ok tt

abbrev asked : List (String × String)
asked = ("P1", "P1") ∷ ("P9", "P9") ∷ []

asked_ids : normal_ids some ("P1" ∷ "P9" ∷ []) ≡ ok asked
unfolding normal_ids
asked_ids = refl

abbrev removal : Removal
removal = remove_found asked 50 tables

removed : ui_bulk_remove_points some access ("P1" ∷ "P9" ∷ []) 50 tables ≡ ok removal
unfolding ui_bulk_remove_points normal_ids check_each
removed = refl

counts :
    (removal.requested_count ≡ 2) × (removal.removed_count ≡ 1) × (removal.missing_ids ≡ "P9" ∷ [])
unfolding remove_found retire_points disable_trend_configs_for_points
counts = (refl, refl, refl)

edge_list_trend_configs-removed_example :
    (before : List PointTrendConfig) × (edge_list_trend_configs "GW001" "GW001" tables ≡ ok before)
    × (edge_list_trend_configs "GW001" "GW001" removal.tables
        ≡ ok (keep (λ c. not (is_in c.point_id (map (λ (q : String × String). q.1) asked))) before))
edge_list_trend_configs-removed_example =
    edge_list_trend_configs-removed some access ("P1" ∷ "P9" ∷ []) 50 "GW001" tables removal asked
      asked_ids removed
