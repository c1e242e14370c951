-- ===== src/Cloud/Results.antt =====
-- `receive_job_result` of cloud-api/app/main.py. The times that one request reads from the clock
-- are one argument, as are the functions that give the ids of added rows.
pub mod Isolation
pub mod Received
mod Tests
use iot_cloud_commissioning.Prelude.{
  ℕ, Bool, true, false, not, ◌&&◌, ◌||◌, Option, none, some, List, [], ◌∷◌, ◌++◌, map, String, ltb,
  nat_beq, if◌then◌else◌, keep, any, ◌==◌, string_eq,
}
use iot_cloud_commissioning.Dict.{Dict, get, put, has}
use iot_cloud_commissioning.Json.{
  ℤ, int_eq, Value, Items, Fields, get_field, as_dict, as_list, as_text, is_true, members,
}
use iot_cloud_commissioning.Cloud.Db.{
  Db, EdgeJob, JobStatus, CommandStatus, BacnetWriteCommand, SavedBacnetPoint, SavedBacnetDevice,
  Session, update_where, first_where, change_first,
}
use iot_cloud_commissioning.Cloud.Http.{Response, ok, http_error, refuse_if, or_refuse, ◌>>=◌, ◌>>◌}
use iot_cloud_commissioning.Cloud.Batches.{refresh_each}
use iot_cloud_commissioning.Cloud.Jobs.{write_batch}
use iot_cloud_commissioning.Cloud.Tree.{discover, load_points, mark_device_seen, is_point}
use iot_cloud_commissioning.Cloud.Readings.{
  has_id, present, save_read, save_bulk, apply_write_readback,
}
use iot_cloud_commissioning.Cloud.Reconcile.{
  JobResultIn, ResultStatus, is_completed, items_of, reconcile_bacnet_write_result,
}

abbrev pub job_status : ResultStatus → JobStatus
job_status ResultStatus.completed = JobStatus.completed
job_status ResultStatus.failed = JobStatus.failed
job_status ResultStatus.deferred = JobStatus.deferred

abbrev pub finished_job : JobResultIn → ℕ → EdgeJob → EdgeJob
finished_job payload now job = record job {
  status = job_status payload.status;
  result_json = payload.result;
  error_message = payload.error_message;
  completed_at = some now;
}

-- The result, if the job is of that type and was completed.
abbrev pub completed_result : String → EdgeJob → JobResultIn → Option Fields
completed_result job_type job payload =
    if job.job_type == job_type && is_completed payload.status then payload.result else none

abbrev pub list_in : Option Fields → String → Option Items
list_in none name = none
list_in (some result) name = as_list (get_field result name)

-- The `bacnet_discover` part.
unfoldable pub save_discovery : String → ℕ → (ℕ → String) → Db → Option Items → Db
save_discovery gateway now fresh db none = db
save_discovery gateway now fresh db (some items) =
    let s =
      discover gateway now fresh (record { stored = db.devices; added = [] }) (members items) in
    record db { devices = s.stored ++ s.added }

abbrev pub same_point : SavedBacnetPoint → SavedBacnetPoint → Bool
same_point p q = is_point q.saved_device_id q.object_type q.object_instance p

-- The unique constraint of the points table, on the rows that the session adds.
unfoldable pub clashes : List SavedBacnetPoint → Bool
clashes [] = false
clashes (p ∷ ps) = any (same_point p) ps || clashes ps

-- A violation at commit is an unhandled error, which ends the request with status 500.
unfoldable pub load_device_points :
    String → ℕ → (ℕ → String) → Db → Option SavedBacnetDevice → Option Items → Response Db
unfolding clashes
load_device_points gateway now fresh db none items = ok db
load_device_points gateway now fresh db (some device) none = ok db
load_device_points gateway now fresh db (some device) (some items) =
    if device.gateway_id == gateway
    then (let s =
          load_points gateway now fresh device (record { stored = db.points; added = [] })
            (members items) in
        refuse_if (clashes s.added) 500 "Internal Server Error"
        >> ok (record db {
          devices = change_first (λ d. d.id == device.id) (mark_device_seen now) db.devices;
          points = s.stored ++ s.added;
        }))
    else ok db

-- The `bacnet_load_points` part.
unfoldable pub save_loaded_points :
    (String → Option String)
    → String
    → ℕ
    → (ℕ → String)
    → Db
    → Option String
    → Option Items
    → Response Db
unfolding load_device_points
save_loaded_points tree_id gateway now fresh db none items = ok db
save_loaded_points tree_id gateway now fresh db (some id) items = do
  device_id ← or_refuse (tree_id id) 404 "Record not found"
  load_device_points gateway now fresh db (first_where (λ d. d.id == device_id) db.devices) items

load_result :
    (String → Option String) → EdgeJob → ℕ → (ℕ → String) → Db → Option Fields → Response Db
unfolding save_loaded_points
load_result tree_id job now fresh db none = ok db
load_result tree_id job now fresh db (some result) =
    save_loaded_points tree_id job.gateway_id now fresh db
      (as_text (get_field job.request_json "saved_device_id")) (as_list (get_field result "points"))

-- The `bacnet_read` part.
read_result :
    (String → Option String)
    → (Value → String)
    → EdgeJob
    → ℕ
    → List SavedBacnetPoint
    → Option Fields
    → Response (List SavedBacnetPoint)
read_result tree_id str job now points none = ok points
read_result tree_id str job now points (some result) =
    save_read tree_id str job.gateway_id now points job.request_json result

-- The `bacnet_read_bulk` part.
bulk_result :
    (String → Option String)
    → (Value → String)
    → EdgeJob
    → ℕ
    → List SavedBacnetPoint
    → Option Fields
    → Response (List SavedBacnetPoint)
bulk_result tree_id str job now points result =
    save_bulk tree_id str job.gateway_id now points (items_of (list_in result "values"))

-- All parts, on the job as it is after its own update.
unfoldable pub apply_result :
    (String → Option String)
    → (Value → String)
    → (String → String)
    → (ℕ → String)
    → Db
    → EdgeJob
    → JobResultIn
    → ℕ
    → Response Db
unfolding save_discovery load_result read_result bulk_result
apply_result tree_id str truncate fresh db job payload now = do
  let discovered =
      save_discovery job.gateway_id now fresh db
        (list_in (completed_result "bacnet_discover" job payload) "devices")
  loaded ←
      load_result tree_id job now fresh discovered
        (completed_result "bacnet_load_points" job payload)
  read ← read_result tree_id str job now loaded.points (completed_result "bacnet_read" job payload)
  bulk ← bulk_result tree_id str job now read (completed_result "bacnet_read_bulk" job payload)
  ok (
      if job.job_type == write_batch
      then reconcile_bacnet_write_result str truncate (record loaded { points = bulk }) job payload
          now
      else record loaded { points = bulk })

-- `caller` is the gateway of the credential.
unfoldable pub receive_job_result :
    (String → Option String)
    → (Value → String)
    → (String → String)
    → (ℕ → String)
    → Db
    → String
    → String
    → JobResultIn
    → ℕ
    → Response Db
unfolding apply_result
receive_job_result tree_id str truncate fresh db caller job_id payload now = do
  job ← or_refuse (first_where (λ j. j.job_id == job_id) db.jobs) 404 "Job not found"
  refuse_if (not (job.gateway_id == caller)) 403 "Gateway credential does not own this job"
  apply_result tree_id str truncate fresh
      (record db {
        jobs = change_first (λ j. j.job_id == job_id) (finished_job payload now) db.jobs;
      })
      (finished_job payload now job) payload now
