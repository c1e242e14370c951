-- ===== src/Cloud/Jobs/Tests.antt =====
-- Polls of a small queue, and the theorems at concrete inputs.
use iot_cloud_commissioning.Prelude.{
  ℕ, ◌≡◌, refl, true, Option, none, some, List, [], ◌∷◌, String, In, NoRepeats, Pointwise, arith,
  string_eq,
}
use iot_cloud_commissioning.Json.{end}
use iot_cloud_commissioning.Cloud.Db.{Db, EdgeJob, JobStatus}
use iot_cloud_commissioning.Cloud.Jobs.{
  is_stale, requeue_stale, is_waiting, earlier, first_of_two, next_waiting, rows_claimed,
  exactly_one, claim_selected, claim_next_job_once,
}
use iot_cloud_commissioning.Cloud.Jobs.Oldest.{IsFirst}
use iot_cloud_commissioning.Cloud.Jobs.Claim.{
  RowKept, claim_next_job_once-RowKept, claim_next_job_once_hands_out,
}
use iot_cloud_commissioning.Cloud.Jobs.Total.{Served, ids, claim_next_job_once-Served}
use iot_cloud_commissioning.Cloud.Jobs.Race.{
  Event, selects, updates, interleave, interleave-NoRepeats,
}

abbrev a_job : ℕ → String → String → JobStatus → ℕ → Option ℕ → EdgeJob
a_job id job_id job_type status created claimed = record {
  id = id;
  job_id = job_id;
  gateway_id = "GW001";
  job_type = job_type;
  status = status;
  request_json = end;
  result_json = none;
  error_message = none;
  created_at = created;
  claimed_at = claimed;
  completed_at = none;
}

-- A claimed write, a read whose claim is stale at time 500, and a newer read that waits.
abbrev a_queue : List EdgeJob
a_queue =
    a_job 1 "J1" "bacnet_write_batch" JobStatus.claimed 10 (some 20)
    ∷ a_job 2 "J2" "read_bacnet_point" JobStatus.claimed 15 (some 20)
    ∷ a_job 3 "J3" "read_bacnet_point" JobStatus.queued 30 none
    ∷ []

abbrev a_db : Db
a_db = record { jobs = a_queue; commands = []; batches = []; points = []; devices = [] }

abbrev stale_read : EdgeJob
stale_read = a_job 2 "J2" "read_bacnet_point" JobStatus.queued 15 none

-- The stale read goes first, the stale write is left alone.
hands_out_stale_read : (claim_next_job_once a_db "GW001" 300 500).1 ≡ some stale_read
unfolding claim_next_job_once claim_selected requeue_stale is_stale next_waiting is_waiting
    first_of_two earlier rows_claimed exactly_one
hands_out_stale_read = refl

claim_next_job_once-RowKept_example :
    Pointwise (RowKept "GW001") a_queue (claim_next_job_once a_db "GW001" 300 500).0.jobs
claim_next_job_once-RowKept_example = claim_next_job_once-RowKept a_db "GW001" 300 500

claim_next_job_once_hands_out_example :
    In stale_read (requeue_stale "GW001" 300 500 a_queue)
    × (is_waiting "GW001" stale_read ≡ true)
    × IsFirst "GW001" stale_read (requeue_stale "GW001" 300 500 a_queue)
claim_next_job_once_hands_out_example =
    claim_next_job_once_hands_out a_db "GW001" 300 500 stale_read hands_out_stale_read

a_queue-NoRepeats : NoRepeats (ids a_queue)
a_queue-NoRepeats = ground arith

claim_next_job_once-Served_example :
    Served "GW001" 500
      (requeue_stale "GW001" 300 500 a_queue)
      (claim_next_job_once a_db "GW001" 300 500)
claim_next_job_once-Served_example =
    claim_next_job_once-Served a_db "GW001" 300 500 a_queue-NoRepeats

-- Two workers select the same row before either updates it.
abbrev two_workers : List Event
two_workers = selects 0 "GW001" ∷ selects 1 "GW001" ∷ updates 1 500 ∷ updates 0 501 ∷ []

interleave-NoRepeats_example :
    NoRepeats
      (interleave (record { jobs = a_queue; selected = λ _. none; handed = [] }) two_workers).handed
interleave-NoRepeats_example = interleave-NoRepeats a_queue two_workers
