-- ===== src/Cloud/Writes/Tests.antt =====
-- A write of one point from request to approval, and the theorems at concrete inputs.
use iot_cloud_commissioning.Prelude.{◌≡◌, refl, true, none, some, [], ◌∷◌, string_eq}
use iot_cloud_commissioning.Dict.Group.{group_by}
use iot_cloud_commissioning.Json.{pos, int_eq, int}
use iot_cloud_commissioning.Cloud.Db.{Db, SavedBacnetPoint}
use iot_cloud_commissioning.Cloud.Http.{Response, ok}
use iot_cloud_commissioning.Cloud.Writes.{
  WriteItem, has_repeats, normalize, enabled_points, point_by_id, is_rejected, with_points,
  pending_commands, pending_batch, write_saved_points, batch_by_id, queue_groups, batch_commands,
  approved_batch, approve_write,
}
use iot_cloud_commissioning.Cloud.Writes.Request.{IsRecorded, write_saved_points-IsRecorded}
use iot_cloud_commissioning.Cloud.Writes.Approval.{IsApproved, approve_write-IsApproved}

abbrev a_point : SavedBacnetPoint
a_point = record {
  id = "P1";
  gateway_id = "GW001";
  saved_device_id = "D1";
  device_instance = pos 12;
  object_type = "analog-value";
  object_instance = pos 3;
  object_name = none;
  property_name = "present-value";
  present_value = none;
  writable = none;
  active_priority = none;
  priority_array = none;
  relinquish_default = none;
  state_text = none;
  latest_read_at = none;
  first_seen_at = none;
  last_seen_at = none;
  lifecycle_state = "active";
  retired_at = none;
  enabled = true;
  updated_at = 0;
}

abbrev a_db : Db
a_db = record { jobs = []; commands = []; batches = []; points = a_point ∷ []; devices = [] }

abbrev a_write : WriteItem
a_write = record { point_id = "P1"; action = "write"; value = some (int (pos 21)); priority = 8 }

abbrev a_request : Response Db
a_request = write_saved_points some a_db (ok tt) true "GW001" (a_write ∷ []) "ann" 7 40 100

abbrev recorded : Db
recorded = record {
  jobs = [];
  commands = pending_commands 7 "GW001" 40 100 ((a_point, a_write) ∷ []);
  batches = pending_batch 7 "GW001" "ann" 1 100 ∷ [];
  points = a_point ∷ [];
  devices = [];
}

a_request-recorded : a_request ≡ ok recorded
unfolding write_saved_points normalize with_points point_by_id enabled_points has_repeats
    is_rejected
a_request-recorded = refl

write_saved_points-IsRecorded_example : IsRecorded a_db "GW001" "ann" 1 7 recorded
write_saved_points-IsRecorded_example =
    write_saved_points-IsRecorded some a_db (ok tt) true "GW001" (a_write ∷ []) "ann" 7 40 100
      recorded a_request-recorded

abbrev approved : Db
approved =
    queue_groups
      (record recorded {
        batches = approved_batch "bob" 120 (pending_batch 7 "GW001" "ann" 1 100) ∷ [];
      })
      7 "GW001" 1 120 (λ _. "J1") (group_by (λ c. c.device_instance) (batch_commands recorded 7))

an_approval : approve_write recorded (ok tt) "GW001" 7 "bob" 1 120 (λ _. "J1") ≡ ok approved
unfolding approve_write batch_by_id
an_approval = refl

approve_write-IsApproved_example : IsApproved recorded 7 "GW001" "bob" (λ _. "J1") 120 approved
approve_write-IsApproved_example =
    approve_write-IsApproved recorded (ok tt) "GW001" 7 "bob" 1 120 (λ _. "J1") approved an_approval
