-- ===== src/Edge/State.antt =====
-- The agent's other tables, edge-agent/iot_cx_agent/db.py: `agent_state`, `heartbeat_log`, `jobs`
-- under its unique job id, and the traffic counters in buckets of five minutes. A JSON text is
-- the value that it holds. Times are whole seconds; a bucket is named by its first minute.
pub mod Jobs
pub mod Traffic
mod Tests
use iot_cloud_commissioning.Prelude.{
  ℕ, suc, ◌+◌, ◌-◌, ◌*◌, ◌/◌, ◌%◌, Bool, true, false, not, ◌&&◌, Option, none, some, List, [], ◌∷◌,
  ◌++◌, String, ltb, nat_beq, nat_eq, string_eq, if◌then◌else◌, is_none, or_else, ◌==◌,
}
use iot_cloud_commissioning.Dict.{Dict, get, put}
use iot_cloud_commissioning.Dict.Purge.{purge}
use iot_cloud_commissioning.Json.{Fields, end, get_field, as_dict}

unfoldable pub get_agent_state : Dict String (String × ℕ) → String → Option String
get_agent_state state key = elim (get state key) [ none ↦ none | some row ↦ some row.0 ]

unfoldable pub set_agent_state :
    Dict String (String × ℕ) → String → String → ℕ → Dict String (String × ℕ)
set_agent_state state key value updated_at = put state key (value, updated_at)

pub record Heartbeat : Type 0 where
  pub attempted_at : ℕ
  pub success : Bool
  pub status_code : Option ℕ
  pub error : Option String
  pub response_body : Option String

pub record HeartbeatDb : Type 0 where
  pub heartbeat_log : List Heartbeat
  pub agent_state : Dict String (String × ℕ)

unfoldable pub record_heartbeat_attempt : HeartbeatDb → Heartbeat → HeartbeatDb
unfolding set_agent_state
record_heartbeat_attempt db h = record {
  heartbeat_log = db.heartbeat_log ++ h ∷ [];
  agent_state =
      set_agent_state db.agent_state "last_heartbeat_success"
        (if h.success then "true" else "false") h.attempted_at;
}

pub record LocalJob : Type 0 where
  pub job_type : String
  pub status : String
  pub request_json : Option Fields
  pub payload_json : Option Fields
  pub result_json : Option Fields
  pub error_message : Option String
  pub created_at : ℕ
  pub claimed_at : Option ℕ
  pub completed_at : Option ℕ
  pub updated_at : ℕ

abbrev pub LocalJobs : Type 0
LocalJobs = Dict String LocalJob

unfoldable pub claimed_row : Option LocalJob → String → Fields → ℕ → LocalJob
claimed_row none job_type request claimed_at = record {
  job_type = job_type;
  status = "claimed";
  request_json = some request;
  payload_json = some request;
  result_json = none;
  error_message = none;
  created_at = claimed_at;
  claimed_at = some claimed_at;
  completed_at = none;
  updated_at = claimed_at;
}
claimed_row (some row) job_type request claimed_at = record row {
  job_type = job_type;
  status = "claimed";
  request_json = some request;
  payload_json = some request;
  claimed_at = some claimed_at;
  updated_at = claimed_at;
}

-- `INSERT ... ON CONFLICT(job_id) DO UPDATE`.
unfoldable pub record_claimed_job : LocalJobs → String → String → Fields → ℕ → LocalJobs
unfolding claimed_row
record_claimed_job jobs job_id job_type request claimed_at =
    put jobs job_id (claimed_row (get jobs job_id) job_type request claimed_at)

unfoldable pub finished_row : String → ℕ → Option Fields → Option String → LocalJob → LocalJob
finished_row status completed_at result error row = record row {
  status = status;
  result_json = result;
  error_message = error;
  completed_at = some completed_at;
  updated_at = completed_at;
}

-- `UPDATE ... WHERE job_id = ?`.
unfoldable pub record_job_result :
    LocalJobs → String → String → ℕ → Option Fields → Option String → LocalJobs
unfolding finished_row
record_job_result jobs job_id status completed_at result error = elim (get jobs job_id) [
  | none ↦ jobs
  | some row ↦ put jobs job_id (finished_row status completed_at result error row)
]

unfoldable pub local_job : LocalJobs → String → Option LocalJob
local_job jobs job_id = get jobs job_id

pub data Category : Type 0 where
  heartbeat jobs_poll trend_poll trend_upload job_result : Category
  tunnel_lease tunnel_handshake tunnel_payload other_agent : Category

abbrev pub category_number : Category → ℕ
category_number heartbeat = 0
category_number jobs_poll = 1
category_number trend_poll = 2
category_number trend_upload = 3
category_number job_result = 4
category_number tunnel_lease = 5
category_number tunnel_handshake = 6
category_number tunnel_payload = 7
category_number other_agent = 8

pub record Counters : Type 0 where
  pub tx : ℕ
  pub rx : ℕ
  pub requests : ℕ
  pub successes : ℕ
  pub failures : ℕ

pub record Bucket : Type 0 where
  pub counters : Category → Counters
  pub tunnel_attempt_count : ℕ

abbrev pub empty_bucket : Bucket
empty_bucket = record {
  counters = λ _. record { tx = 0; rx = 0; requests = 0; successes = 0; failures = 0 };
  tunnel_attempt_count = 0;
}

abbrev pub one_if : Bool → ℕ
one_if true = 1
one_if false = 0

-- `success is True` and `success is False`; None is neither.
abbrev pub is_success : Option Bool → Bool
is_success (some b) = b
is_success none = false

abbrev pub is_failure : Option Bool → Bool
is_failure (some b) = not b
is_failure none = false

unfoldable pub counted : ℕ → ℕ → Option Bool → Counters → Counters
counted tx_bytes rx_bytes success c = record {
  tx = c.tx + tx_bytes;
  rx = c.rx + rx_bytes;
  requests = suc c.requests;
  successes = c.successes + one_if (is_success success);
  failures = c.failures + one_if (is_failure success);
}

unfoldable pub add_traffic : Category → ℕ → ℕ → Option Bool → Bool → Bucket → Bucket
unfolding counted
add_traffic category tx_bytes rx_bytes success tunnel_attempt b = record {
  counters = λ c.
      if nat_beq (category_number c) (category_number category)
      then counted tx_bytes rx_bytes success (b.counters c)
      else b.counters c;
  tunnel_attempt_count = b.tunnel_attempt_count + one_if tunnel_attempt;
}

-- The minute of the clock, down to a multiple of five; an hour has a multiple of five minutes.
abbrev pub minute_of : ℕ → ℕ
minute_of now = now / 60

abbrev pub bucket_of : ℕ → ℕ
bucket_of now = minute_of now - minute_of now % 5

abbrev pub thirty_days : ℕ
thirty_days = 43200

unfoldable pub record_network_traffic :
    Dict ℕ Bucket → Category → ℕ → ℕ → Option Bool → Bool → ℕ → Dict ℕ Bucket
unfolding add_traffic
record_network_traffic buckets category tx_bytes rx_bytes success tunnel_attempt now =
    purge (λ start (_ : Bucket). ltb (start + thirty_days) (minute_of now))
      (put buckets (bucket_of now) (
        add_traffic category tx_bytes rx_bytes success tunnel_attempt
          (or_else (get buckets (bucket_of now)) empty_bucket)))
