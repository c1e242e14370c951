-- ===== src/Cloud/Retirement.antt =====
-- The retirement of points, `ui_bulk_remove_points` and `_disable_trend_configs_for_points` of
-- cloud-api/app/main.py, and what a gateway is told to sample, `edge_list_trend_configs`. `access`
-- is the site check of a gateway, and `tree_id` the normal form of a UUID text, if it is one.
pub mod Workload
mod Tests
use iot_cloud_commissioning.Prelude.{
  ℕ, Bool, true, false, not, ◌&&◌, Option, none, some, List, [], ◌∷◌, map, String, length, keep,
  any, ◌==◌, string_eq, if◌then◌else◌,
}
use iot_cloud_commissioning.Cloud.Http.{Response, ok, http_error, refuse_if, or_refuse, ◌>>=◌, ◌>>◌}
use iot_cloud_commissioning.Cloud.Db.{SavedBacnetPoint, update_where}
use iot_cloud_commissioning.Cloud.Access.{is_in}

pub record PointTrendConfig : Type 0 where
  pub point_id : String
  pub gateway_id : String
  pub enabled : Bool
  pub interval_sec : ℕ
  pub updated_at : ℕ

pub record TrendTables : Type 0 where
  pub points : List SavedBacnetPoint
  pub configs : List PointTrendConfig

-- Each text with its normal form.
unfoldable pub normal_ids :
    (String → Option String) → List String → Response (List (String × String))
normal_ids tree_id [] = ok []
normal_ids tree_id (x ∷ xs) = or_refuse (tree_id x) 404 "Record not found" >>= λ id.
    normal_ids tree_id xs >>= λ rest. ok ((x, id) ∷ rest)

abbrev pub disabled : ℕ → PointTrendConfig → PointTrendConfig
disabled now c = record c { enabled = false; updated_at = now }

unfoldable pub disable_trend_configs_for_points :
    List String → ℕ → List PointTrendConfig → List PointTrendConfig
disable_trend_configs_for_points point_ids now =
    update_where (λ c. is_in c.point_id point_ids && c.enabled) (disabled now)

abbrev pub retired : ℕ → SavedBacnetPoint → SavedBacnetPoint
retired now p = record p {
  enabled = false;
  updated_at = now;
  lifecycle_state = "retired";
  retired_at = some now;
}

unfoldable pub retire_points : List String → ℕ → List SavedBacnetPoint → List SavedBacnetPoint
retire_points ids now = update_where (λ p. is_in p.id ids && p.enabled) (retired now)

unfoldable pub check_each :
    (String → Response (Unit {0})) → List SavedBacnetPoint → Response (Unit {0})
check_each access [] = ok tt
check_each access (p ∷ ps) = access p.gateway_id >> check_each access ps

-- The answer, with the tables.
pub record Removal : Type 0 where
  pub tables : TrendTables
  pub requested_count : ℕ
  pub removed_count : ℕ
  pub missing_ids : List String

abbrev pub ids_of : List SavedBacnetPoint → List String
ids_of = map (λ p. p.id)

unfoldable pub remove_found : List (String × String) → ℕ → TrendTables → Removal
unfolding retire_points disable_trend_configs_for_points
remove_found requested now t =
    let ids = map (λ (r : String × String). r.1) requested in
    let found = keep (λ p. is_in p.id ids) t.points in
    record {
      tables = record {
        points = retire_points ids now t.points;
        configs = disable_trend_configs_for_points (ids_of found) now t.configs;
      };
      requested_count = length requested;
      removed_count = length (keep (λ p. p.enabled) found);
      missing_ids =
          map (λ (r : String × String). r.0)
            (keep (λ (r : String × String). not (is_in r.1 (ids_of found))) requested);
    }

unfoldable pub ui_bulk_remove_points :
    (String → Option String)
    → (String → Response (Unit {0}))
    → List String
    → ℕ
    → TrendTables
    → Response Removal
unfolding normal_ids check_each remove_found
ui_bulk_remove_points tree_id access point_ids now t = normal_ids tree_id point_ids >>= λ requested.
    check_each access
      (keep (λ p. is_in p.id (map (λ (r : String × String). r.1) requested)) t.points)
    >> ok (remove_found requested now t)

abbrev pub is_sampled : List SavedBacnetPoint → String → Bool
is_sampled points id = any (λ p. p.id == id && p.enabled) points

abbrev pub is_listed : List SavedBacnetPoint → String → PointTrendConfig → Bool
is_listed points gateway c = (c.gateway_id == gateway && c.enabled) && is_sampled points c.point_id

unfoldable pub edge_list_trend_configs :
    String → String → TrendTables → Response (List PointTrendConfig)
edge_list_trend_configs credential gateway t =
    refuse_if (not (credential == gateway)) 403
      "Gateway credential does not match requested gateway_id"
    >> ok (keep (is_listed t.points gateway) t.configs)
