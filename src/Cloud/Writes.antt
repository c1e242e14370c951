-- ===== src/Cloud/Writes.antt =====
-- The two-step write of BACnet points, cloud-api/app/main.py: `ui_write_saved_points` records a
-- batch that awaits approval, and `ui_approve_saved_point_write` turns it into edge jobs.
-- `access` is the result of the gateway's site check, `tree_id` the normal form of a UUID text
-- (Python's `uuid`), and fresh ids are arguments. A refused request has not written anything.
pub mod Request
pub mod Entries
pub mod Devices
pub mod Queued
pub mod Approval
mod Tests
use iot_cloud_commissioning.Prelude.{
  ℕ, suc, ◌+◌, Bool, true, false, not, ◌&&◌, ◌||◌, Option, none, some, List, [], ◌∷◌, ◌++◌, map,
  String, nat_beq, if◌then◌else◌, keep, any, length, ◌==◌, string_eq, is_none,
}
use iot_cloud_commissioning.Dict.{Dict}
use iot_cloud_commissioning.Dict.Group.{group_by}
use iot_cloud_commissioning.Json.{
  ℤ, pos, int_eq, Value, Items, Fields, null, int, text, list, dict, nil, cons, end, field,
}
use iot_cloud_commissioning.Cloud.Db.{
  Db, EdgeJob, JobStatus, CommandStatus, BatchStatus, BacnetWriteCommand, BacnetWriteBatch,
  SavedBacnetPoint, update_where,
}
use iot_cloud_commissioning.Cloud.Http.{Response, ok, http_error, refuse_if, or_refuse, ◌>>=◌, ◌>>◌}
use iot_cloud_commissioning.Cloud.Jobs.{write_batch}

pub record WriteItem : Type 0 where
  pub point_id : String
  pub action : String
  pub value : Option Value
  pub priority : ℕ

abbrev pub write_object_types : List String
write_object_types =
    "analog-output" ∷ "analog-value" ∷ "binary-output" ∷ "binary-value" ∷ "multi-state-output"
    ∷ "multi-state-value" ∷ []

abbrev pub has : List String → String → Bool
has xs s = any (λ t. t == s) xs

-- `len(set(ids)) != len(ids)`
unfoldable pub has_repeats : List String → Bool
has_repeats [] = false
has_repeats (s ∷ xs) = has xs s || has_repeats xs

-- `[(_tree_id(item.point_id), item) for item in payload.writes]`
unfoldable pub normalize :
    (String → Option String) → List WriteItem → Response (List (String × WriteItem))
normalize tree_id [] = ok []
normalize tree_id (item ∷ items) = do
  point_id ← or_refuse (tree_id item.point_id) 404 "Record not found"
  rest ← normalize tree_id items
  ok ((point_id, item) ∷ rest)

unfoldable pub enabled_points : Db → String → List String → List SavedBacnetPoint
enabled_points db gateway point_ids =
    keep (λ p. has point_ids p.id && p.gateway_id == gateway && p.enabled) db.points

unfoldable pub point_by_id : List SavedBacnetPoint → String → Option SavedBacnetPoint
point_by_id [] id = none
point_by_id (p ∷ ps) id = if p.id == id then some p else point_by_id ps id

abbrev pub is_false : Option Bool → Bool
is_false (some false) = true
is_false _ = false

-- A reason to reject the point: its type, its property, or its read-only mark.
unfoldable pub is_rejected : SavedBacnetPoint → Bool
is_rejected p =
    not (has write_object_types p.object_type)
    || not (p.property_name == "present-value")
    || is_false p.writable

-- Each write with the point that it names, or 404 for the first that is missing.
unfoldable pub with_points :
    List SavedBacnetPoint
    → List (String × WriteItem)
    → Response (List (SavedBacnetPoint × WriteItem))
unfolding point_by_id
with_points points [] = ok []
with_points points ((id, item) ∷ writes) = do
  point ← or_refuse (point_by_id points id) 404 "Saved point was not found or is disabled"
  rest ← with_points points writes
  ok ((point, item) ∷ rest)

unfoldable pub pending_command :
    ℕ → String → ℕ → ℕ → SavedBacnetPoint → WriteItem → BacnetWriteCommand
pending_command batch gateway id now point item = record {
  id = id;
  batch_id = batch;
  edge_job_id = "";
  gateway_id = gateway;
  saved_point_id = point.id;
  device_instance = point.device_instance;
  object_type = point.object_type;
  object_instance = point.object_instance;
  property_name = point.property_name;
  action = item.action;
  requested_value = item.value;
  priority = item.priority;
  status = CommandStatus.pending_approval;
  result_json = none;
  error_message = none;
  created_at = now;
  completed_at = none;
}

unfoldable pub pending_commands :
    ℕ → String → ℕ → ℕ → List (SavedBacnetPoint × WriteItem) → List BacnetWriteCommand
unfolding pending_command
pending_commands batch gateway id now [] = []
pending_commands batch gateway id now ((point, item) ∷ writes) =
    pending_command batch gateway id now point item
    ∷ pending_commands batch gateway (suc id) now writes

abbrev pub pending_batch : ℕ → String → String → ℕ → ℕ → BacnetWriteBatch
pending_batch batch gateway actor count now = record {
  id = batch;
  gateway_id = gateway;
  requested_by = actor;
  approved_by = none;
  status = BatchStatus.pending_approval;
  write_count = count;
  requested_at = now;
  approved_at = none;
  completed_at = none;
}

-- `batch` and `first_command` are the fresh ids of the new rows.
unfoldable pub write_saved_points :
    (String → Option String)
    → Db
    → Response (Unit {0})
    → Bool
    → String
    → List WriteItem
    → String
    → ℕ
    → ℕ
    → ℕ
    → Response Db
unfolding normalize with_points enabled_points has_repeats is_rejected pending_commands
write_saved_points tree_id db access online gateway writes actor batch first_command now = do
  access
  refuse_if (not online) 409 "Gateway is not online"
  normalized ← normalize tree_id writes
  let point_ids = map (λ (w : String × WriteItem). w.0) normalized
  refuse_if (has_repeats point_ids) 422 "writes must not contain duplicate point_id values"
  targets ← with_points (enabled_points db gateway point_ids) normalized
  refuse_if (any (λ (t : SavedBacnetPoint × WriteItem). is_rejected t.0) targets) 422
      "One or more points cannot be written"
  ok (record db {
    batches = db.batches ++ pending_batch batch gateway actor (length normalized) now ∷ [];
    commands = db.commands ++ pending_commands batch gateway first_command now targets;
  })

unfoldable pub batch_by_id : List BacnetWriteBatch → ℕ → Option BacnetWriteBatch
batch_by_id [] id = none
batch_by_id (b ∷ bs) id = if nat_beq b.id id then some b else batch_by_id bs id

abbrev pub is_pending : BatchStatus → Bool
is_pending BatchStatus.pending_approval = true
is_pending _ = false

-- The entry of the job request for one command; a relinquish carries no value.
unfoldable pub write_entry : BacnetWriteCommand → Value
write_entry c =
    let value = if c.action == "relinquish" then end else elim c.requested_value [
      | none ↦ field "value" null end
      | some v ↦ field "value" v end
    ] in
    dict (
      field "saved_point_id" (text c.saved_point_id) (
        field "object_type" (text c.object_type) (
          field "object_instance" (int c.object_instance)
            (field "action" (text c.action) (field "priority" (int (pos c.priority)) value)))))

unfoldable pub entries : List BacnetWriteCommand → Items
unfolding write_entry
entries [] = nil
entries (c ∷ cs) = cons (write_entry c) (entries cs)

unfoldable pub device_job : String → ℕ → ℕ → (ℤ → String) → ℤ → List BacnetWriteCommand → EdgeJob
unfolding entries
device_job gateway id now job_id device commands = record {
  id = id;
  job_id = job_id device;
  gateway_id = gateway;
  job_type = write_batch;
  status = JobStatus.queued;
  request_json =
      field "device_instance" (int device) (field "writes" (list (entries commands)) end);
  result_json = none;
  error_message = none;
  created_at = now;
  claimed_at = none;
  completed_at = none;
}

abbrev pub is_of : ℕ → ℤ → BacnetWriteCommand → Bool
is_of batch device c = nat_beq c.batch_id batch && c.device_instance == device

abbrev pub assigned : String → BacnetWriteCommand → BacnetWriteCommand
assigned job c = record c { edge_job_id = job; status = CommandStatus.queued }

-- One job for each device; the rows of the group are the batch's commands on that device.
unfoldable pub queue_groups :
    Db → ℕ → String → ℕ → ℕ → (ℤ → String) → Dict ℤ (List BacnetWriteCommand) → Db
unfolding device_job
queue_groups db batch gateway id now job_id [] = db
queue_groups db batch gateway id now job_id ((device, commands) ∷ groups) =
    queue_groups
      (record db {
        commands = update_where (is_of batch device) (assigned (job_id device)) db.commands;
        jobs = db.jobs ++ device_job gateway id now job_id device commands ∷ [];
      })
      batch gateway (suc id) now job_id groups

unfoldable pub batch_commands : Db → ℕ → List BacnetWriteCommand
batch_commands db batch = keep (λ c. nat_beq c.batch_id batch) db.commands

abbrev pub approved_batch : String → ℕ → BacnetWriteBatch → BacnetWriteBatch
approved_batch actor now b = record b {
  approved_by = some actor;
  approved_at = some now;
  status = BatchStatus.queued;
}

unfoldable pub approve_write :
    Db → Response (Unit {0}) → String → ℕ → String → ℕ → ℕ → (ℤ → String) → Response Db
unfolding queue_groups batch_by_id batch_commands group_by
approve_write db access gateway batch actor first_job now job_id = do
  access
  found ← or_refuse (batch_by_id db.batches batch) 404 "Write batch not found"
  refuse_if (not (found.gateway_id == gateway)) 404 "Write batch not found"
  refuse_if (not (is_pending found.status)) 409 "Write batch is not awaiting approval"
  ok (
      queue_groups
        (record db {
          batches = update_where (λ b. nat_beq b.id batch) (approved_batch actor now) db.batches;
        })
        batch gateway first_job now job_id
        (group_by (λ c. c.device_instance) (batch_commands db batch)))
