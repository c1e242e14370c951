-- ===== src/Edge/State/Jobs.antt =====
-- The local jobs table gives each job a life of its own.
use iot_cloud_commissioning.Prelude.{
  ℕ, ◌≡◌, refl, ap, ◌∙◌, Bool, true, false, Option, none, some, List, [], ◌∷◌, String, arith,
  string_eq, ◌==◌, eq_iff, if◌then◌else◌,
}
use iot_cloud_commissioning.Dict.{get, put, get-put}
use iot_cloud_commissioning.Json.{Fields}
use iot_cloud_commissioning.Edge.State.{
  LocalJob, LocalJobs, claimed_row, record_claimed_job, finished_row, record_job_result, local_job,
}

-- What the agent records about jobs.
pub data Entry : Type 0 where
  claims : String → String → Fields → ℕ → Entry
  finishes : String → String → ℕ → Option Fields → Option String → Entry

abbrev pub job_of : Entry → String
job_of (claims job_id _ _ _) = job_id
job_of (finishes job_id _ _ _ _) = job_id

unfoldable pub record_entry : LocalJobs → Entry → LocalJobs
record_entry jobs (claims job_id job_type request at) =
    record_claimed_job jobs job_id job_type request at
record_entry jobs (finishes job_id status at result error) =
    record_job_result jobs job_id status at result error

unfoldable pub record_entries : LocalJobs → List Entry → LocalJobs
unfolding record_entry
record_entries jobs [] = jobs
record_entries jobs (e ∷ es) = record_entries (record_entry jobs e) es

-- The same entry on the row of one job alone: a first claim makes a row without a result, a later one
-- claims the row again and keeps when it was made and what it held; a result is stored as it came,
-- and one for a job that was never claimed is dropped.
abbrev pub row_entry : Option LocalJob → Entry → Option LocalJob
row_entry none (claims _ job_type request at) = some (record {
  job_type = job_type;
  status = "claimed";
  request_json = some request;
  payload_json = some request;
  result_json = none;
  error_message = none;
  created_at = at;
  claimed_at = some at;
  completed_at = none;
  updated_at = at;
})
row_entry (some row) (claims _ job_type request at) = some (record {
  job_type = job_type;
  status = "claimed";
  request_json = some request;
  payload_json = some request;
  result_json = row.result_json;
  error_message = row.error_message;
  created_at = row.created_at;
  claimed_at = some at;
  completed_at = row.completed_at;
  updated_at = at;
})
row_entry none (finishes _ status at result error) = none
row_entry (some row) (finishes _ status at result error) = some (record {
  job_type = row.job_type;
  status = status;
  request_json = row.request_json;
  payload_json = row.payload_json;
  result_json = result;
  error_message = error;
  created_at = row.created_at;
  claimed_at = row.claimed_at;
  completed_at = some at;
  updated_at = at;
})

claimed_row-row_entry :
    (row : Option LocalJob) (id job_type : String) (request : Fields) (at : ℕ)
    → some (claimed_row row job_type request at) ≡ row_entry row (claims id job_type request at)
unfolding claimed_row
claimed_row-row_entry none id job_type request at = refl
claimed_row-row_entry (some row) id job_type request at = refl

abbrev pub row_entries : String → Option LocalJob → List Entry → Option LocalJob
row_entries job_id row [] = row
row_entries job_id row (e ∷ es) =
    row_entries job_id (if job_of e == job_id then row_entry row e else row) es

local_job-record_entry :
    (jobs : LocalJobs) (e : Entry) (job_id : String)
    → local_job (record_entry jobs e) job_id
      ≡ (if job_of e == job_id then row_entry (local_job jobs job_id) e else local_job jobs job_id)
unfolding local_job record_entry record_claimed_job record_job_result finished_row
local_job-record_entry jobs (claims other job_type request at) job_id =
    get-put jobs other job_id (claimed_row (get jobs other) job_type request at)
    ∙ by_id (other == job_id) (eq_iff other job_id).0
  where
    by_id :
        (b : Bool)
        → (b ≡ true → other ≡ job_id)
        → (if b then some (claimed_row (get jobs other) job_type request at) else get jobs job_id)
          ≡ (if b
              then row_entry (get jobs job_id) (claims other job_type request at)
              else get jobs job_id)
    by_id false same = refl
    by_id true same =
        ap (λ i. some (claimed_row (get jobs i) job_type request at)) (same refl)
        ∙ claimed_row-row_entry (get jobs job_id) other job_type request at
local_job-record_entry jobs (finishes other status at result error) job_id =
    by_row (get jobs other) refl
  where
    by_row :
        (o : Option LocalJob)
        → get jobs other ≡ o
        → get
            (elim o as (λ _. LocalJobs) [
              | none ↦ jobs
              | some row ↦ put jobs other (finished_row status at result error row)
            ])
            job_id
          ≡ (if other == job_id
              then row_entry (get jobs job_id) (finishes other status at result error)
              else get jobs job_id)
    by_row none e = ground (arith, e, eq_iff other job_id)
    by_row (some row) e = ground (
      arith,
      e,
      eq_iff other job_id,
      get-put jobs other job_id (finished_row status at result error row),
    )

-- Whatever is recorded about whichever jobs, the row of a job is what its own entries make of it,
-- in their order: claims and results of other jobs never touch it.
pub local_job-record_entries :
    (es : List Entry) (jobs : LocalJobs) (job_id : String)
    → local_job (record_entries jobs es) job_id ≡ row_entries job_id (local_job jobs job_id) es
unfolding record_entries
local_job-record_entries [] jobs job_id = refl
local_job-record_entries (e ∷ es) jobs job_id =
    local_job-record_entries es (record_entry jobs e) job_id
    ∙ ap (λ row. row_entries job_id row es) (local_job-record_entry jobs e job_id)
