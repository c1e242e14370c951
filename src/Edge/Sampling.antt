-- ===== src/Edge/Sampling.antt =====
-- The sampling of local trend groups, edge-agent/iot_cx_agent/trends.py:
-- `_sample_local_group` and `sample_local_edge_trends` with their helpers, on the tables of the
-- trend database that the Edge UI owns. `Runtime` is what the BACnet runtime answers, question
-- after question: whether its lock is held, and what a bulk read ends with. A point's id is the
-- number that its text writes, and the event ids of the outbox, durations and logging are left
-- out. The rows are typed, so the handler for a malformed group has no counterpart.
pub mod Reads
pub mod Text
pub mod Cycle
mod Accounts
mod Batches
pub mod Group
pub mod Budget
pub mod Rounds
mod Tests
use iot_cloud_commissioning.Prelude.{
  ℕ, zero, suc, ◌+◌, ◌-◌, Bool, true, false, not, ◌&&◌, Option, none, some, List, [], ◌∷◌, ◌++◌,
  map, String, leb, ltb, nat_beq, nat_eq, max, if◌then◌else◌, length, take, drop, keep, or_else,
  string_eq, ◌==◌,
}
use iot_cloud_commissioning.Dict.{Dict, get, put}
use iot_cloud_commissioning.Dict.Group.{group_by}
use iot_cloud_commissioning.Json.{ℤ, int_eq}
use iot_cloud_commissioning.Cloud.Db.{update_where}
use iot_cloud_commissioning.Edge.Sampling.Text.{safe_error}

pub record TrendPoint : Type 0 where
  pub id : ℕ
  pub group_id : ℕ
  pub device_instance : ℤ
  pub object_type : String
  pub object_instance : ℤ

pub record TrendGroup : Type 0 where
  pub id : ℕ
  pub enabled : Bool
  pub interval_sec : ℕ

-- `error_text` is kept as its parts, each under the device that it names.
pub record TrendRun : Type 0 where
  pub id : ℕ
  pub group_id : ℕ
  pub started_at : ℕ
  pub requested_count : ℕ
  pub completed_at : Option ℕ
  pub returned_count : ℕ
  pub deferred_count : ℕ
  pub errors : List (ℤ × String)

pub record TrendSample : Type 0 where
  pub id : ℕ
  pub trend_point_id : ℕ
  pub sampled_at : ℕ
  pub value_text : Option String
  pub status : String
  pub read_source : Option String
  pub error_text : Option String

pub record OutboxEntry : Type 0 where
  pub trend_sample_id : ℕ
  pub created_at : ℕ

-- The next ids are those that SQLite gives out.
pub record TrendDb : Type 0 where
  pub groups : List TrendGroup
  pub points : List TrendPoint
  pub runs : List TrendRun
  pub samples : List TrendSample
  pub outbox : List OutboxEntry
  pub next_run : ℕ
  pub next_sample : ℕ

-- One value of a bulk read: the keys of its dict that are looked at.
pub record PointReading : Type 0 where
  pub saved_point_id : Option ℕ
  pub status : Option String
  pub raw_value : Option String
  pub value : Option String
  pub read_source : Option String
  pub error : Option String

-- `run_bacnet_read_bulk` returns values and an error text, or raises.
pub data BulkRead : Type 0 where
  answered : List PointReading → Option String → BulkRead
  raised : String → BulkRead

pub record Runtime : Type 0 where
  pub lock_held : ℕ → Bool
  pub read_bulk : ℕ → ℤ → List TrendPoint → BulkRead

pub record SamplingConfig : Type 0 where
  pub local_edge_trends_enabled : Bool
  pub trend_read_batch_size : ℕ
  pub trend_max_points_per_cycle : ℕ

-- The counters of `_sample_local_group`, and the questions put to the runtime so far.
pub record Tally : Type 0 where
  pub stored : ℕ
  pub attempted : ℕ
  pub returned_count : ℕ
  pub missing_count : ℕ
  pub error_count : ℕ
  pub deferred_count : ℕ
  pub errors : List (ℤ × String)
  pub yielded : Bool
  pub asked : ℕ
  pub db : TrendDb

abbrev pub values_of : BulkRead → List PointReading
values_of (answered values error) = values
values_of (raised text) = []

abbrev pub error_of : BulkRead → Option String
error_of (answered values error) = error
error_of (raised text) = some text

abbrev pub is_busy : Option String → Bool
is_busy none = false
is_busy (some error) = error == "bacnet_runtime_busy"

abbrev pub key_or : Option String → Option String → Option String
key_or none other = other
key_or (some text) other = some text
