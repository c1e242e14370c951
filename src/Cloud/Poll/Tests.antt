-- ===== src/Cloud/Poll/Tests.antt =====
-- A long poll on an empty queue: a first wait runs out, then a job is queued with a notification.
use iot_cloud_commissioning.Prelude.{
  ℕ, ◌+◌, ◌≤◌, ◌≡◌, refl, Bool, true, false, none, some, List, [], ◌∷◌, arith, All, string_eq,
  nat_eq, length, keep,
}
use iot_cloud_commissioning.Dict.{get, put, remove}
use iot_cloud_commissioning.Json.{end}
use iot_cloud_commissioning.Cloud.Http.{ok}
use iot_cloud_commissioning.Cloud.Db.{Db, EdgeJob, JobStatus}
use iot_cloud_commissioning.Cloud.Jobs.{
  is_stale, requeue_stale, is_waiting, first_of_two, earlier, next_waiting, claimed_job, claim_row,
  rows_claimed, exactly_one, claim_selected, finish_claim, claim_next_job_once,
}
use iot_cloud_commissioning.Cloud.Notifier.{
  CommandWaitNotifier, generation, wake, notify, start_wait, end_wait, notifies, happens, run,
}
use iot_cloud_commissioning.Cloud.Poll.{
  Turn, Poll, Answer, finish_wait, wait_after, wait_turn, poll_loop, claim_next_job,
}
use iot_cloud_commissioning.Cloud.Poll.Turns.{is_quiet}
use iot_cloud_commissioning.Cloud.Poll.Notices.{wait_turn_notified}
use iot_cloud_commissioning.Cloud.Poll.Deadline.{claim_next_job-is_some}
use iot_cloud_commissioning.Cloud.Poll.Answers.{KeepsKeys, IsServed, claim_next_job-IsServed}

abbrev idle : CommandWaitNotifier
idle = record {
  generations = [];
  next_waiter_id = 1;
  waiters = [];
  active_waits = 0;
  max_active_waits = 0;
  wake_count = 0;
  timeout_count = 0;
}

abbrev a_job : EdgeJob
a_job = record {
  id = 5;
  job_id = "J5";
  gateway_id = "GW001";
  job_type = "read_bacnet_point";
  status = JobStatus.queued;
  request_json = end;
  result_json = none;
  error_message = none;
  created_at = 112;
  claimed_at = none;
  completed_at = none;
}

abbrev db_with : List EdgeJob → Db
db_with jobs = record { jobs = jobs; commands = []; batches = []; points = []; devices = [] }

-- The canary looks again after ten seconds; the notification comes three seconds later.
abbrev silent : Turn
silent = record { before = []; during = []; elapsed = 0; outside = λ db. db }

abbrev queued : Turn
queued = record {
  before = [];
  during = notifies "GW001" ∷ [];
  elapsed = 3;
  outside = λ db. record db { jobs = a_job ∷ [] };
}

abbrev turns : List Turn
turns = silent ∷ queued ∷ []

abbrev instructed : ℕ → Bool
instructed time = false

abbrev reply : Answer
reply = record { db = db_with (claimed_job 113 a_job ∷ []); job = some a_job; at = 113 }

handed_out :
    claim_next_job instructed true "GW001" 300 "GW001" 60 turns (db_with []) idle 100
    ≡ ok (some reply)
unfolding claim_next_job poll_loop wait_turn wait_after finish_wait start_wait end_wait run happens
    notify wake generation get put remove claim_next_job_once claim_selected requeue_stale is_stale
    next_waiting is_waiting first_of_two earlier rows_claimed exactly_one claim_row finish_claim
handed_out = refl

keep_keys : All KeepsKeys turns
keep_keys = (λ db h. h, (λ db h. ((λ m. m), tt), tt))

claim_next_job-IsServed_example : IsServed instructed true "GW001" 300 160 reply
claim_next_job-IsServed_example =
    claim_next_job-IsServed instructed true "GW001" 300 60 turns (db_with []) idle 100 "GW001" reply
      tt keep_keys handed_out

claim_next_job-is_some_example :
    (a : Answer) × (claim_next_job instructed false "GW001" 300 "GW001" 1 turns
        (db_with [])
        idle
        100
      ≡ ok (some a))
    × (a.at ≤ 100 + 1)
claim_next_job-is_some_example =
    claim_next_job-is_some instructed false "GW001" 300 1 turns (db_with []) idle 100 one_silent
  where
    one_silent : 1 ≤ length (keep (is_quiet "GW001") turns)
    one_silent = omega arith

-- The poll after its first pass, at time 100.
abbrev polling : Poll
polling = record { db = db_with []; notifier = idle; now = 100; seen = 0 }

wait_turn_notified_example : (wait_turn false "GW001" 160 queued polling).now ≤ 100 + 3
wait_turn_notified_example =
    wait_turn_notified false "GW001" 160 queued polling never_notified refl refl
  where
    never_notified : 0 ≡ generation idle "GW001"
    never_notified = unfold generation get in refl
