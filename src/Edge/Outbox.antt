-- ===== src/Edge/Outbox.antt =====
-- The upload of local trend samples with bisection, edge-agent/iot_cx_agent/trends.py: `deliver`
-- of `upload_pending_local_trend_samples`, and the updates of the outbox that it makes. `post`
-- is what the cloud answers to a batch: in one delivery no batch is posted twice. `safe_error`
-- is the clean-up of `_safe_error`. The diagnostics of the transport are left out. The agent keeps
-- all transport of samples switched off by the constant TREND_CLOUD_UPLOAD_ENABLED; the model is
-- of the delivery behind that switch.
pub mod Bisection
mod Tests
use iot_cloud_commissioning.Prelude.{
  ℕ, zero, suc, ◌+◌, ◌/◌, ◌*◌, ◌^◌, Bool, true, false, ◌||◌, Option, none, some, List, [], ◌∷◌,
  String, leb, nat_beq, nat_eq, min, max, if◌then◌else◌, length, take, drop, map,
}
use iot_cloud_commissioning.Dict.{Dict, put}
use iot_cloud_commissioning.Json.{Fields}

pub data OutboxState : Type 0 where
  pending uploaded : OutboxState

-- A row of `trend_upload_outbox`.
pub record OutboxRow : Type 0 where
  pub id : ℕ
  pub state : OutboxState
  pub attempt_count : ℕ
  pub next_attempt_at : Option ℕ
  pub last_error : Option String
  pub uploaded_at : Option ℕ
  pub updated_at : ℕ

-- A row of `trend_upload_quarantine`, under its outbox id.
pub record Quarantined : Type 0 where
  pub event_id : String
  pub http_status : Option ℕ
  pub error_text : String
  pub quarantined_at : ℕ
  pub attempt_count : ℕ

-- A row that the query joins: the outbox row with its sample.
pub record QueuedRow : Type 0 where
  pub outbox_id : ℕ
  pub event_id : String
  pub attempt_count : ℕ
  pub sample : Fields

pub record AgentConfig : Type 0 where
  pub trend_upload_retry_base_sec : ℕ
  pub trend_upload_retry_max_sec : ℕ

-- What `requests.post` and `raise_for_status` end with: a status, or an exception with the
-- status of its response, if it has one, and its text.
pub data Answer : Type 0 where
  accepted : ℕ → Answer
  refused : Option ℕ → String → Answer

pub record Delivery : Type 0 where
  pub outbox : List OutboxRow
  pub quarantine : Dict ℕ Quarantined
  pub uploaded : ℕ
  pub raised : Bool

unfoldable pub is_retryable_upload_error : Option ℕ → Bool
is_retryable_upload_error none = true
is_retryable_upload_error (some status) = nat_beq status 408 || nat_beq status 429 || leb 500 status

-- `UPDATE trend_upload_outbox SET ... WHERE id = ?`
abbrev pub update_row : (OutboxRow → OutboxRow) → ℕ → List OutboxRow → List OutboxRow
update_row f id = map (λ r. if nat_beq r.id id then f r else r)

abbrev pub acknowledged : ℕ → OutboxRow → OutboxRow
acknowledged now r = record r {
  state = OutboxState.uploaded;
  uploaded_at = some now;
  updated_at = now;
  last_error = none;
  next_attempt_at = none;
}

-- `conn.executemany(...)` over the rows of the batch.
unfoldable pub acknowledge_each : ℕ → List QueuedRow → List OutboxRow → List OutboxRow
acknowledge_each now [] outbox = outbox
acknowledge_each now (r ∷ rs) outbox =
    acknowledge_each now rs (update_row (acknowledged now) r.outbox_id outbox)

unfoldable pub delivered : ℕ → List QueuedRow → Delivery → Delivery
unfolding acknowledge_each
delivered now batch d = record d {
  outbox = acknowledge_each now batch d.outbox;
  uploaded = d.uploaded + length batch;
}

unfoldable pub prior_attempts : List QueuedRow → ℕ
prior_attempts [] = 0
prior_attempts (r ∷ rs) = max r.attempt_count (prior_attempts rs)

unfoldable pub retry_seconds : AgentConfig → ℕ → ℕ
retry_seconds config attempts =
    min config.trend_upload_retry_max_sec (config.trend_upload_retry_base_sec * 2 ^ min 6 attempts)

unfoldable pub fail_each : ℕ → ℕ → String → List QueuedRow → List OutboxRow → List OutboxRow
fail_each retry_at now error [] outbox = outbox
fail_each retry_at now error (r ∷ rs) outbox = fail_each retry_at now error rs (
    update_row
      (λ o. record o {
        attempt_count = suc o.attempt_count;
        next_attempt_at = some retry_at;
        last_error = some error;
        updated_at = now;
      })
      r.outbox_id outbox)

-- A retryable failure: the rows are put off and the exception goes on.
unfoldable pub record_upload_failure :
    (String → String) → AgentConfig → ℕ → String → List QueuedRow → Delivery → Delivery
unfolding fail_each retry_seconds prior_attempts
record_upload_failure safe_error config now error batch d = record d {
  outbox =
      fail_each (now + retry_seconds config (prior_attempts batch)) now (safe_error error) batch
        d.outbox;
  raised = true;
}

unfoldable pub quarantine_row :
    (String → String) → ℕ → Option ℕ → String → QueuedRow → Delivery → Delivery
quarantine_row safe_error now status error r d = record d {
  quarantine = put d.quarantine r.outbox_id (record {
    event_id = r.event_id;
    http_status = status;
    error_text = safe_error error;
    quarantined_at = now;
    attempt_count = suc r.attempt_count;
  });
  outbox =
      update_row
        (λ o. record o {
          attempt_count = suc o.attempt_count;
          last_error = some (safe_error error);
          updated_at = now;
        })
        r.outbox_id d.outbox;
}

-- The exception of the first half leaves out the second.
unless_raised : Option Delivery → (Delivery → Option Delivery) → Option Delivery
unless_raised none next = none
unless_raised (some d) next = if d.raised then some d else next d

-- Both halves, each by `go`.
unfoldable pub both_halves :
    (List QueuedRow → Delivery → Option Delivery) → List QueuedRow → Delivery → Option Delivery
unfolding unless_raised
both_halves go batch d =
    let midpoint = length batch / 2 in
    unless_raised (go (take midpoint batch) d) (go (drop midpoint batch))

-- What follows a permanent refusal of the batch.
isolate :
    (String → String)
    → ℕ
    → (List QueuedRow → Delivery → Option Delivery)
    → List QueuedRow
    → Option ℕ
    → String
    → Delivery
    → Option Delivery
unfolding both_halves quarantine_row
isolate safe_error now go (r ∷ []) status error d =
    some (quarantine_row safe_error now status error r d)
isolate safe_error now go [] status error d = both_halves go [] d
isolate safe_error now go (r ∷ s ∷ rs) status error d = both_halves go (r ∷ s ∷ rs) d

answered :
    (String → String)
    → AgentConfig
    → ℕ
    → (List QueuedRow → Delivery → Option Delivery)
    → List QueuedRow
    → Answer
    → Delivery
    → Option Delivery
unfolding delivered record_upload_failure isolate is_retryable_upload_error
answered safe_error config now go batch (accepted status) d = some (delivered now batch d)
answered safe_error config now go batch (refused status error) d =
    if is_retryable_upload_error status
    then some (record_upload_failure safe_error config now error batch d)
    else isolate safe_error now go batch status error d

-- `deliver(batch)`; `none` stands for more nested calls than the fuel allows.
unfoldable pub deliver :
    (List QueuedRow → Answer)
    → (String → String)
    → AgentConfig
    → ℕ
    → ℕ
    → List QueuedRow
    → Delivery
    → Option Delivery
unfolding answered
deliver post safe_error config now zero batch d = none
deliver post safe_error config now (suc fuel) batch d =
    answered safe_error config now (deliver post safe_error config now fuel) batch (post batch) d
