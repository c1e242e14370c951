-- ===== src/Cloud/Reconcile.antt =====
-- `_reconcile_bacnet_write_result` of cloud-api/app/main.py: what the result of a write job does
-- to the job's commands, their points and their batches. `truncate` is the slice of a text to
-- 1000 characters, `str` is Python's str on a JSON value.
pub mod Commands
use iot_cloud_commissioning.Prelude.{
  ℕ, Bool, true, false, not, ◌&&◌, ◌||◌, Option, none, some, List, [], ◌∷◌, ◌++◌, map, String, ltb,
  nat_beq, if◌then◌else◌, keep, any, ◌==◌, string_eq,
}
use iot_cloud_commissioning.Dict.{Dict, get, put, has}
use iot_cloud_commissioning.Json.{
  ℤ, int_eq, Value, Items, Fields, get_field, as_dict, as_list, as_text, is_true, members,
}
use iot_cloud_commissioning.Cloud.Db.{
  Db, EdgeJob, JobStatus, CommandStatus, BacnetWriteCommand, SavedBacnetPoint, SavedBacnetDevice,
  Session, update_where, first_where, change_first,
}
use iot_cloud_commissioning.Cloud.Http.{Response, ok, http_error, refuse_if, or_refuse, ◌>>=◌, ◌>>◌}
use iot_cloud_commissioning.Cloud.Batches.{refresh_each}
use iot_cloud_commissioning.Cloud.Jobs.{write_batch}
use iot_cloud_commissioning.Cloud.Tree.{discover, load_points, mark_device_seen, is_point}
use iot_cloud_commissioning.Cloud.Readings.{
  has_id, present, save_read, save_bulk, apply_write_readback,
}

-- The pattern of the payload's status.
pub data ResultStatus : Type 0 where
  completed failed deferred : ResultStatus

pub record JobResultIn : Type 0 where
  pub status : ResultStatus
  pub result : Option Fields
  pub error_message : Option String

abbrev pub is_completed : ResultStatus → Bool
is_completed completed = true
is_completed _ = false

abbrev pub job_status : ResultStatus → JobStatus
job_status completed = JobStatus.completed
job_status failed = JobStatus.failed
job_status deferred = JobStatus.deferred

-- The first entry for each point counts.
add_result : Dict String Fields → Fields → Option String → Dict String Fields
add_result results entry none = results
add_result results entry (some id) = if has results id then results else put results id entry

add_item : Dict String Fields → Option Fields → Dict String Fields
unfolding add_result
add_item results none = results
add_item results (some entry) =
    add_result results entry (as_text (get_field entry "saved_point_id"))

unfoldable pub collect : Dict String Fields → List Value → Dict String Fields
unfolding add_item
collect results [] = results
collect results (v ∷ vs) = collect (add_item results (as_dict (some v))) vs

abbrev pub items_of : Option Items → List Value
items_of none = []
items_of (some items) = members items

results_in : Option Fields → Dict String Fields
unfolding collect
results_in none = []
results_in (some result) = collect [] (items_of (as_list (get_field result "results")))

unfoldable pub results_by_point_id : JobResultIn → Dict String Fields
unfolding results_in
results_by_point_id payload = if is_completed payload.status then results_in payload.result else []

-- `payload.error_message or ...`: an empty text is falsy too.
unfoldable pub error_or : Option String → String → String
error_or none other = other
error_or (some s) other = if s == "" then other else s

message_of : (Value → String) → (String → String) → Option Value → String
message_of str truncate none = "BACnet write failed"
message_of str truncate (some v) = truncate (str v)

unfoldable pub settle :
    (Value → String)
    → (String → String)
    → JobResultIn
    → ℕ
    → Option Fields
    → BacnetWriteCommand
    → BacnetWriteCommand
unfolding error_or message_of
settle str truncate payload now none c = record c {
  completed_at = some now;
  status = elim payload.status [ deferred ↦ CommandStatus.deferred | _ ↦ CommandStatus.failed ];
  error_message = some (error_or payload.error_message "Edge response omitted the command result");
}
settle str truncate payload now (some result) c = record c {
  completed_at = some now;
  result_json = some result;
  status =
      if is_true (get_field result "ok") then CommandStatus.succeeded else CommandStatus.failed;
  error_message =
      if is_true (get_field result "ok")
      then none
      else some (message_of str truncate (present (get_field result "message")));
}

-- `ORDER BY created_at, id`.
abbrev pub before : BacnetWriteCommand → BacnetWriteCommand → Bool
before a b = ltb a.created_at b.created_at || (nat_beq a.created_at b.created_at && ltb a.id b.id)

insert : BacnetWriteCommand → List BacnetWriteCommand → List BacnetWriteCommand
insert c [] = c ∷ []
insert c (d ∷ ds) = let rest = insert c ds in if before d c then d ∷ rest else c ∷ d ∷ ds

unfoldable pub in_order : List BacnetWriteCommand → List BacnetWriteCommand
unfolding insert
in_order [] = []
in_order (c ∷ cs) = insert c (in_order cs)

-- The point is the gateway's and still has the address that the command was recorded with.
unfoldable pub is_target : String → BacnetWriteCommand → SavedBacnetPoint → Bool
is_target gateway c p =
    p.gateway_id == gateway
    && p.device_instance == c.device_instance
    && p.object_type == c.object_type
    && p.object_instance == c.object_instance

unfoldable pub read_back :
    (Value → String)
    → String
    → ℕ
    → BacnetWriteCommand
    → Option Fields
    → List SavedBacnetPoint
    → List SavedBacnetPoint
unfolding is_target
read_back str gateway now c none points = points
read_back str gateway now c (some result) points =
    change_first (has_id c.saved_point_id)
      (λ p. if is_target gateway c p then apply_write_readback str now result p else p) points

unfoldable pub read_back_each :
    (Value → String)
    → String
    → ℕ
    → Dict String Fields
    → List BacnetWriteCommand
    → List SavedBacnetPoint
    → List SavedBacnetPoint
unfolding read_back
read_back_each str gateway now results [] points = points
read_back_each str gateway now results (c ∷ cs) points =
    read_back_each str gateway now results cs
      (read_back str gateway now c (get results c.saved_point_id) points)

abbrev pub is_command_of : String → BacnetWriteCommand → Bool
is_command_of job_id c = c.edge_job_id == job_id

-- Without commands of the job, nothing changes.
unfoldable pub reconcile_bacnet_write_result :
    (Value → String) → (String → String) → Db → EdgeJob → JobResultIn → ℕ → Db
unfolding settle results_by_point_id read_back_each in_order
reconcile_bacnet_write_result str truncate db job payload now =
    let results = results_by_point_id payload in
    let commands = in_order (keep (is_command_of job.job_id) db.commands) in
    refresh_each
      (record db {
        commands =
            update_where (is_command_of job.job_id)
              (λ c. settle str truncate payload now (get results c.saved_point_id) c) db.commands;
        points = read_back_each str job.gateway_id now results commands db.points;
      })
      (map (λ c. c.batch_id) commands) now
