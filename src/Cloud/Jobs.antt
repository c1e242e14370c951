-- ===== src/Cloud/Jobs.antt =====
-- The durable job queue of cloud-api/app/main.py: `create_job` and `_claim_next_job_once`.
-- A database pass is one transaction: it returns the tables as committed and what it hands out.
-- `now` is the clock at the pass; uuid4 values are arguments.
pub mod Oldest
pub mod Claim
pub mod Total
pub mod Race
mod Tests
use iot_cloud_commissioning.Prelude.{
  ℕ, ◌+◌, Bool, true, false, not, ◌&&◌, ◌||◌, Option, none, some, List, [], ◌∷◌, ◌++◌, String, ltb,
  nat_beq, if◌then◌else◌, keep, map, ◌==◌, string_eq,
}
use iot_cloud_commissioning.Json.{Fields}
use iot_cloud_commissioning.Cloud.Db.{
  Db, EdgeJob, JobStatus, CommandStatus, BacnetWriteCommand, is_job_queued, is_job_claimed,
  is_command_queued, update_where,
}
use iot_cloud_commissioning.Cloud.Batches.{refresh_each}

abbrev pub write_batch : String
write_batch = "bacnet_write_batch"

-- `EdgeJob.claimed_at < utc_now() - timedelta(seconds=timeout)`; a NULL is never less.
abbrev pub claimed_before : ℕ → ℕ → Option ℕ → Bool
claimed_before timeout now none = false
claimed_before timeout now (some t) = ltb (t + timeout) now

unfoldable pub is_stale : String → ℕ → ℕ → EdgeJob → Bool
is_stale gateway timeout now job =
    job.gateway_id == gateway
    && is_job_claimed job.status
    && claimed_before timeout now job.claimed_at
    && not (job.job_type == write_batch)

abbrev pub requeued : EdgeJob → EdgeJob
requeued job = record job { status = JobStatus.queued; claimed_at = none }

unfoldable pub requeue_stale : String → ℕ → ℕ → List EdgeJob → List EdgeJob
unfolding is_stale
requeue_stale gateway timeout now = update_where (is_stale gateway timeout now) requeued

unfoldable pub is_waiting : String → EdgeJob → Bool
is_waiting gateway job = job.gateway_id == gateway && is_job_queued job.status

-- `ORDER BY created_at, id`.
unfoldable pub earlier : EdgeJob → EdgeJob → Bool
earlier a b = ltb a.created_at b.created_at || (nat_beq a.created_at b.created_at && ltb a.id b.id)

unfoldable pub first_of_two : EdgeJob → Option EdgeJob → EdgeJob
first_of_two job none = job
first_of_two job (some other) = if earlier other job then other else job

-- The first row in that order among those that wait for the gateway (`LIMIT 1`).
unfoldable pub next_waiting : String → List EdgeJob → Option EdgeJob
unfolding is_waiting first_of_two earlier
next_waiting gateway [] = none
next_waiting gateway (job ∷ jobs) =
    let rest = next_waiting gateway jobs in
    if is_waiting gateway job then some (first_of_two job rest) else rest

abbrev pub claimed_job : ℕ → EdgeJob → EdgeJob
claimed_job now job = record job { status = JobStatus.claimed; claimed_at = some now }

-- `UPDATE edge_jobs SET status='claimed' WHERE id=... AND status='queued'`, and its row count.
unfoldable pub claim_row : List EdgeJob → ℕ → ℕ → List EdgeJob
claim_row jobs id now =
    update_where (λ j. nat_beq j.id id && is_job_queued j.status) (claimed_job now) jobs

unfoldable pub rows_claimed : List EdgeJob → ℕ → List EdgeJob
rows_claimed jobs id = keep (λ j. nat_beq j.id id && is_job_queued j.status) jobs

unfoldable pub exactly_one {ℓ} : {A : Type ℓ} → List A → Bool
exactly_one (x ∷ []) = true
exactly_one _ = false

-- The commands of a claimed write job follow it, and their batches are refreshed.
unfoldable pub claim_commands : Db → String → ℕ → Db
claim_commands db job_id now =
    let ours = λ (c : BacnetWriteCommand). c.edge_job_id == job_id in
    refresh_each
      (record db {
        commands =
            update_where (λ c. ours c && is_command_queued c.status)
              (λ c. record c { status = CommandStatus.claimed }) db.commands;
      })
      (map (λ c. c.batch_id) (keep ours db.commands)) now

unfoldable pub finish_claim : Db → EdgeJob → ℕ → Db
unfolding claim_commands
finish_claim db job now =
    if job.job_type == write_batch then claim_commands db job.job_id now else db

unfoldable pub claim_selected : Db → Option EdgeJob → ℕ → Db × Option EdgeJob
unfolding finish_claim claim_row rows_claimed exactly_one
claim_selected db none now = (db, none)
claim_selected db (some job) now =
    if exactly_one (rows_claimed db.jobs job.id)
    then (finish_claim (record db { jobs = claim_row db.jobs job.id now }) job now, some job)
    else (db, none)

-- What a pass hands out is the selected row: job_id, gateway_id, job_type and request_json.
unfoldable pub claim_next_job_once : Db → String → ℕ → ℕ → Db × Option EdgeJob
unfolding claim_selected requeue_stale next_waiting
claim_next_job_once db gateway timeout now =
    let db' = record db { jobs = requeue_stale gateway timeout now db.jobs } in
    claim_selected db' (next_waiting gateway db'.jobs) now
