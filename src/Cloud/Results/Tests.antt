-- ===== src/Cloud/Results/Tests.antt =====
-- Results of a discovery and of a write, and the theorems at concrete inputs.
use iot_cloud_commissioning.Prelude.{
  ◌≡◌, refl, true, none, some, [], ◌∷◌, String, Pointwise, string_eq,
}
use iot_cloud_commissioning.Json.{
  pos, int_eq, Value, text, int, bool, list, dict, nil, cons, end, field, get_field, members,
}
use iot_cloud_commissioning.Cloud.Db.{
  Db, EdgeJob, JobStatus, CommandStatus, BacnetWriteCommand, SavedBacnetDevice,
}
use iot_cloud_commissioning.Cloud.Http.{ok}
use iot_cloud_commissioning.Cloud.Readings.{save_bulk}
use iot_cloud_commissioning.Cloud.Reconcile.{
  ResultStatus, JobResultIn, reconcile_bacnet_write_result,
}
use iot_cloud_commissioning.Cloud.Reconcile.Commands.{
  IsSettled, reconcile_bacnet_write_result-IsSettled,
}
use iot_cloud_commissioning.Cloud.Results.{
  finished_job, save_discovery, load_result, read_result, bulk_result, apply_result,
  receive_job_result,
}
use iot_cloud_commissioning.Cloud.Results.Received.{IsReceived, receive_job_result-IsReceived}

abbrev a_job : String → EdgeJob
a_job job_type = record {
  id = 1;
  job_id = "J1";
  gateway_id = "GW001";
  job_type = job_type;
  status = JobStatus.claimed;
  request_json = end;
  result_json = none;
  error_message = none;
  created_at = 10;
  claimed_at = some 20;
  completed_at = none;
}

abbrev other_device : SavedBacnetDevice
other_device = record {
  id = "D9";
  gateway_id = "GW002";
  device_instance = pos 12;
  network_number = none;
  mac_address = none;
  latest_discovered_at = none;
  first_seen_at = none;
  last_seen_at = none;
  lifecycle_state = "active";
  retired_at = none;
  enabled = true;
  updated_at = 5;
}

abbrev a_db : Db
a_db = record {
  jobs = a_job "bacnet_discover" ∷ [];
  commands = [];
  batches = [];
  points = [];
  devices = other_device ∷ [];
}

abbrev found_item : Value
found_item = dict (field "device_id" (int (pos 12)) (field "network" (int (pos 3)) end))

abbrev discovery : JobResultIn
discovery = record {
  status = ResultStatus.completed;
  result = some (field "devices" (list (cons found_item nil)) end);
  error_message = none;
}

abbrev str : Value → String
str v = "value"

abbrev truncate : String → String
truncate s = s

abbrev started : Db
started = record a_db { jobs = finished_job discovery 90 (a_job "bacnet_discover") ∷ [] }

abbrev discovered : Db
discovered = save_discovery "GW001" 90 (λ _. "D1") started (some (cons found_item nil))

receives_discovery :
    receive_job_result some str truncate (λ _. "D1") a_db "GW001" "J1" discovery 90 ≡ ok discovered
unfolding receive_job_result apply_result load_result read_result bulk_result save_bulk get_field
    save_discovery members
receives_discovery = refl

receive_job_result-IsReceived_example : IsReceived "GW001" "J1" discovery 90 a_db discovered
receive_job_result-IsReceived_example =
    receive_job_result-IsReceived some str truncate (λ _. "D1") a_db "GW001" "J1" discovery 90
      discovered (tt, tt) receives_discovery

abbrev a_command : BacnetWriteCommand
a_command = record {
  id = 4;
  batch_id = 7;
  edge_job_id = "J1";
  gateway_id = "GW001";
  saved_point_id = "P1";
  device_instance = pos 12;
  object_type = "analog-value";
  object_instance = pos 3;
  property_name = "present-value";
  action = "write";
  requested_value = some (int (pos 21));
  priority = 8;
  status = CommandStatus.claimed;
  result_json = none;
  error_message = none;
  created_at = 10;
  completed_at = none;
}

abbrev writing : Db
writing = record {
  jobs = a_job "bacnet_write_batch" ∷ [];
  commands = a_command ∷ record a_command { id = 5; edge_job_id = "J2" } ∷ [];
  batches = [];
  points = [];
  devices = [];
}

abbrev written : JobResultIn
written = record {
  status = ResultStatus.completed;
  result = some (
      field "results"
        (list (cons (dict (field "saved_point_id" (text "P1") (field "ok" (bool true) end))) nil))
        end);
  error_message = none;
}

reconcile_bacnet_write_result-IsSettled_example :
    Pointwise
      (IsSettled "J1" written 90)
      writing.commands
      (reconcile_bacnet_write_result str truncate writing
        (a_job "bacnet_write_batch")
        written
        90).commands
reconcile_bacnet_write_result-IsSettled_example =
    reconcile_bacnet_write_result-IsSettled str truncate writing (a_job "bacnet_write_batch")
      written 90
