-- ===== src/Edge/Queue.antt =====
-- The agent's local queue of trend samples, edge-agent/iot_cx_agent/db.py: `sync_queue` and the
-- rows `trend-last:<point>` of `agent_state`, which are kept under the point's id. Each function
-- is one transaction. Times are whole numbers, ordered as their ISO texts are.
pub mod Backlog
mod Tests
use iot_cloud_commissioning.Prelude.{
  ℕ, zero, suc, ◌+◌, Bool, true, false, not, ◌&&◌, ◌||◌, Option, none, some, List, [], ◌∷◌, ◌++◌,
  map, String, leb, ltb, nat_beq, if◌then◌else◌, length, take, keep, any, min, max, string_eq,
}
use iot_cloud_commissioning.Dict.{Dict, get, put}
use iot_cloud_commissioning.Json.{Fields}
use iot_cloud_commissioning.Cloud.Db.{update_where}

pub data ItemStatus : Type 0 where
  pending uploaded : ItemStatus

pub record QueueRow : Type 0 where
  pub id : ℕ
  pub is_trend_sample : Bool
  pub payload : Fields
  pub status : ItemStatus
  pub attempt_count : ℕ
  pub last_error : Option String
  pub next_attempt_at : Option ℕ
  pub created_at : ℕ
  pub updated_at : ℕ

pub record AgentDb : Type 0 where
  pub sync_queue : List QueueRow
  pub next_id : ℕ
  pub trend_last : Dict String ℕ

abbrev pub is_pending : ItemStatus → Bool
is_pending pending = true
is_pending uploaded = false

-- `status = 'pending' AND item_type = 'trend_sample'`
abbrev pub is_backlog : QueueRow → Bool
is_backlog r = is_pending r.status && r.is_trend_sample

unfoldable pub queued_upload_count : AgentDb → ℕ
queued_upload_count db = length (keep (λ r. is_pending r.status) db.sync_queue)

unfoldable pub backlog : AgentDb → ℕ
backlog db = length (keep is_backlog db.sync_queue)

pub record TrendQueueStatus : Type 0 where
  pub pending_count : ℕ
  pub deferred_count : ℕ
  pub oldest_pending_at : Option ℕ
  pub max_attempt_count : ℕ

abbrev pub is_after : ℕ → Option ℕ → Bool
is_after now none = false
is_after now (some t) = ltb now t

-- SQL's MIN: NULL for no row.
abbrev pub oldest : List QueueRow → Option ℕ
oldest [] = none
oldest (r ∷ rs) = elim (oldest rs) [ none ↦ some r.created_at | some t ↦ some (min r.created_at t) ]

abbrev pub most_attempts : List QueueRow → ℕ
most_attempts [] = 0
most_attempts (r ∷ rs) = max r.attempt_count (most_attempts rs)

unfoldable pub trend_queue_status : AgentDb → ℕ → TrendQueueStatus
trend_queue_status db now =
    let rows = keep is_backlog db.sync_queue in
    record {
      pending_count = length rows;
      deferred_count = length (keep (λ r. is_after now r.next_attempt_at) rows);
      oldest_pending_at = oldest rows;
      max_attempt_count = most_attempts rows;
    }

unfoldable pub trend_last_sample_at : AgentDb → String → Option ℕ
trend_last_sample_at db point = get db.trend_last point

unfoldable pub new_row : ℕ → Fields → ℕ → QueueRow
new_row id sample now = record {
  id = id;
  is_trend_sample = true;
  payload = sample;
  status = pending;
  attempt_count = 0;
  last_error = none;
  next_attempt_at = none;
  created_at = now;
  updated_at = now;
}

-- `none` is the ValueError for a capacity below 1.
unfoldable pub queue_trend_sample : AgentDb → String → Fields → ℕ → ℕ → Option (AgentDb × Bool)
unfolding backlog new_row
queue_trend_sample db point sample now max_pending =
    if ltb max_pending 1
    then none
    else if leb max_pending (backlog db)
    then some (db, false)
    else some (
      record db {
        sync_queue = db.sync_queue ++ new_row db.next_id sample now ∷ [];
        next_id = suc db.next_id;
        trend_last = put db.trend_last point now;
      },
      true,
    )

-- `next_attempt_at IS NULL OR next_attempt_at <= now`
abbrev pub is_due : ℕ → Option ℕ → Bool
is_due now none = true
is_due now (some t) = leb t now

-- The ids ascend in the table, so that its order is `ORDER BY id`.
unfoldable pub pending_trend_samples : AgentDb → ℕ → ℕ → List QueueRow
pending_trend_samples db limit now =
    take limit (keep (λ r. is_backlog r && is_due now r.next_attempt_at) db.sync_queue)

abbrev pub is_listed : List ℕ → QueueRow → Bool
is_listed ids r = any (λ i. nat_beq i r.id) ids

abbrev pub row_uploaded : ℕ → QueueRow → QueueRow
row_uploaded now r = record r {
  status = uploaded;
  updated_at = now;
  last_error = none;
  next_attempt_at = none;
}

unfoldable pub mark_trend_samples_uploaded : AgentDb → List ℕ → ℕ → AgentDb
mark_trend_samples_uploaded db ids now = record db {
  sync_queue = update_where (is_listed ids) (row_uploaded now) db.sync_queue;
}

unfoldable pub trend_upload_attempt_count : AgentDb → List ℕ → ℕ
trend_upload_attempt_count db ids = most_attempts (keep (is_listed ids) db.sync_queue)

abbrev pub row_failed : String → ℕ → ℕ → QueueRow → QueueRow
row_failed error retry_at now r = record r {
  attempt_count = suc r.attempt_count;
  last_error = some error;
  next_attempt_at = some retry_at;
  updated_at = now;
}

-- `error` is already cut to 1000 characters.
unfoldable pub record_trend_upload_failure : AgentDb → List ℕ → String → ℕ → ℕ → AgentDb
record_trend_upload_failure db ids error retry_at now = record db {
  sync_queue =
      update_where (λ r. is_listed ids r && is_pending r.status) (row_failed error retry_at now)
        db.sync_queue;
}

-- A transaction on the queue, with what it brings.
pub data Work : Type 0 where
  samples : String → Fields → ℕ → Work
  uploads : List ℕ → ℕ → Work
  fails : List ℕ → String → ℕ → ℕ → Work

-- A sample that the capacity refuses, or a capacity that is refused, changes nothing.
kept_or_new : AgentDb → Option (AgentDb × Bool) → AgentDb
kept_or_new db none = db
kept_or_new db (some (next, stored)) = next

unfoldable pub work : ℕ → AgentDb → Work → AgentDb
unfolding kept_or_new
work max_pending db (samples point sample now) =
    kept_or_new db (queue_trend_sample db point sample now max_pending)
work max_pending db (uploads ids now) = mark_trend_samples_uploaded db ids now
work max_pending db (fails ids error retry_at now) =
    record_trend_upload_failure db ids error retry_at now

unfoldable pub work_each : ℕ → AgentDb → List Work → AgentDb
unfolding work
work_each max_pending db [] = db
work_each max_pending db (w ∷ ws) = work_each max_pending (work max_pending db w) ws
