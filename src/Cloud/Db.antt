-- ===== src/Cloud/Db.antt =====
-- The rows of cloud-api/app/models.py that the job queue and the write batches work on. A table
-- is a list of rows; times are whole numbers; a UUID is a number or a text, as it is compared.
-- Columns that no modelled handler reads or writes, such as display labels, are left out.
pub mod Owned
use iot_cloud_commissioning.Prelude.{
  ℕ, Bool, true, false, Option, none, some, List, [], ◌∷◌, String, map, if◌then◌else◌,
}
use iot_cloud_commissioning.Json.{ℤ, Value, Fields}

pub data JobStatus : Type 0 where
  queued claimed completed failed deferred : JobStatus

pub record EdgeJob : Type 0 where
  pub id : ℕ
  pub job_id : String
  pub gateway_id : String
  pub job_type : String
  pub status : JobStatus
  pub request_json : Fields
  pub result_json : Option Fields
  pub error_message : Option String
  pub created_at : ℕ
  pub claimed_at : Option ℕ
  pub completed_at : Option ℕ

pub data CommandStatus : Type 0 where
  pending_approval queued claimed succeeded failed deferred : CommandStatus

pub record BacnetWriteCommand : Type 0 where
  pub id : ℕ
  pub batch_id : ℕ
  pub edge_job_id : String
  pub gateway_id : String
  pub saved_point_id : String
  pub device_instance : ℤ
  pub object_type : String
  pub object_instance : ℤ
  pub property_name : String
  pub action : String
  pub requested_value : Option Value
  pub priority : ℕ
  pub status : CommandStatus
  pub result_json : Option Fields
  pub error_message : Option String
  pub created_at : ℕ
  pub completed_at : Option ℕ

pub data BatchStatus : Type 0 where
  pending_approval queued claimed completed failed deferred partial : BatchStatus

pub record BacnetWriteBatch : Type 0 where
  pub id : ℕ
  pub gateway_id : String
  pub requested_by : String
  pub approved_by : Option String
  pub status : BatchStatus
  pub write_count : ℕ
  pub requested_at : ℕ
  pub approved_at : Option ℕ
  pub completed_at : Option ℕ

pub record SavedBacnetPoint : Type 0 where
  pub id : String
  pub gateway_id : String
  pub saved_device_id : String
  pub device_instance : ℤ
  pub object_type : String
  pub object_instance : ℤ
  pub object_name : Option String
  pub property_name : String
  pub present_value : Option String
  pub writable : Option Bool
  pub active_priority : Option ℤ
  pub priority_array : Option String
  pub relinquish_default : Option String
  pub state_text : Option String
  pub latest_read_at : Option ℕ
  pub first_seen_at : Option ℕ
  pub last_seen_at : Option ℕ
  pub lifecycle_state : String
  pub retired_at : Option ℕ
  pub enabled : Bool
  pub updated_at : ℕ

pub record SavedBacnetDevice : Type 0 where
  pub id : String
  pub gateway_id : String
  pub device_instance : ℤ
  pub network_number : Option ℤ
  pub mac_address : Option String
  pub latest_discovered_at : Option ℕ
  pub first_seen_at : Option ℕ
  pub last_seen_at : Option ℕ
  pub lifecycle_state : String
  pub retired_at : Option ℕ
  pub enabled : Bool
  pub updated_at : ℕ

pub record Db : Type 0 where
  pub jobs : List EdgeJob
  pub commands : List BacnetWriteCommand
  pub batches : List BacnetWriteBatch
  pub points : List SavedBacnetPoint
  pub devices : List SavedBacnetDevice

-- The statuses are texts in the source and are compared as such.
abbrev pub is_job_queued : JobStatus → Bool
is_job_queued JobStatus.queued = true
is_job_queued _ = false

abbrev pub is_job_claimed : JobStatus → Bool
is_job_claimed JobStatus.claimed = true
is_job_claimed _ = false

abbrev pub is_command_queued : CommandStatus → Bool
is_command_queued CommandStatus.queued = true
is_command_queued _ = false

abbrev pub is_command_claimed : CommandStatus → Bool
is_command_claimed CommandStatus.claimed = true
is_command_claimed _ = false

abbrev pub is_command_succeeded : CommandStatus → Bool
is_command_succeeded CommandStatus.succeeded = true
is_command_succeeded _ = false

abbrev pub is_command_failed : CommandStatus → Bool
is_command_failed CommandStatus.failed = true
is_command_failed _ = false

abbrev pub is_command_deferred : CommandStatus → Bool
is_command_deferred CommandStatus.deferred = true
is_command_deferred _ = false

-- `UPDATE ... SET f WHERE p`, and a loop that assigns to the rows which it selected.
abbrev pub update_where {ℓ} : {A : Type ℓ} → (A → Bool) → (A → A) → List A → List A
update_where p f = map (λ r. if p r then f r else r)

-- `db.scalar(select(...).where(p))`: the first row, or None.
abbrev pub first_where {ℓ} : {A : Type ℓ} → (A → Bool) → List A → Option A
first_where p [] = none
first_where p (r ∷ rs) = if p r then some r else first_where p rs

-- A change of that row.
abbrev pub change_first {ℓ} : {A : Type ℓ} → (A → Bool) → (A → A) → List A → List A
change_first p f [] = []
change_first p f (r ∷ rs) = let rest = change_first p f rs in if p r then f r ∷ rs else r ∷ rest

-- The rows of a table in a session without autoflush: queries see `stored`, with the changes of
-- the session, and not what it has added.
pub record Session {ℓ} (A : Type ℓ) : Type ℓ where
  pub stored : List A
  pub added : List A
