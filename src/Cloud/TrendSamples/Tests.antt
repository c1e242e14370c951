-- ===== src/Cloud/TrendSamples/Tests.antt =====
-- Samples that a gateway uploads: for its own point, twice over, and for a point of another.
use iot_cloud_commissioning.Prelude.{◌≡◌, refl, true, none, some, List, [], ◌∷◌, string_eq}
use iot_cloud_commissioning.Json.{pos}
use iot_cloud_commissioning.Cloud.Http.{Response, ok, http_error}
use iot_cloud_commissioning.Cloud.Db.{SavedBacnetPoint}
use iot_cloud_commissioning.Cloud.TrendSamples.{
  SampleIn, PointTrendSample, normal_samples, keys_repeat, find_sample, store_samples, store_all,
  new_sample, edge_upload_trend_samples,
}
use iot_cloud_commissioning.Cloud.TrendSamples.Again.{edge_upload_trend_samples_twice}

abbrev a_point : SavedBacnetPoint
a_point = record {
  id = "P1";
  gateway_id = "GW001";
  saved_device_id = "D1";
  device_instance = pos 12;
  object_type = "analog-input";
  object_instance = pos 3;
  object_name = none;
  property_name = "present-value";
  present_value = none;
  writable = none;
  active_priority = none;
  priority_array = none;
  relinquish_default = none;
  state_text = none;
  latest_read_at = none;
  first_seen_at = none;
  last_seen_at = none;
  lifecycle_state = "active";
  retired_at = none;
  enabled = true;
  updated_at = 0;
}

abbrev a_sample : SampleIn
a_sample = record { point_id = "P1"; sampled_at = 100; value = some "20.5"; quality = "good" }

abbrev later_sample : SampleIn
later_sample = record a_sample { sampled_at = 200 }

abbrev a_row : PointTrendSample
a_row = new_sample "GW001" a_sample

abbrev later_row : PointTrendSample
later_row = new_sample "GW001" later_sample

-- The table has the first sample already.
abbrev upload : Response (List PointTrendSample × List PointTrendSample)
upload =
    edge_upload_trend_samples some "GW001" "GW001" (a_point ∷ []) (a_sample ∷ later_sample ∷ [])
      (a_row ∷ [])

stored : upload ≡ ok (a_row ∷ later_row ∷ [], a_row ∷ later_row ∷ [])
unfolding edge_upload_trend_samples normal_samples store_all store_samples keys_repeat find_sample
stored = refl

foreign_point :
    edge_upload_trend_samples some "GW002" "GW002" (a_point ∷ []) (a_sample ∷ []) []
    ≡ http_error 403 "Trend sample point does not belong to gateway"
unfolding edge_upload_trend_samples normal_samples store_all store_samples keys_repeat find_sample
foreign_point = refl

edge_upload_trend_samples_twice_example :
    edge_upload_trend_samples some "GW001" "GW001"
      (a_point ∷ [])
      (a_sample ∷ later_sample ∷ [])
      (a_row ∷ later_row ∷ [])
    ≡ ok (a_row ∷ later_row ∷ [], a_row ∷ later_row ∷ [])
edge_upload_trend_samples_twice_example =
    edge_upload_trend_samples_twice some "GW001" "GW001" (a_point ∷ [])
      (a_sample ∷ later_sample ∷ []) (a_row ∷ []) (a_row ∷ later_row ∷ [], a_row ∷ later_row ∷ [])
      stored
