-- ===== src/Cloud/Batches.antt =====
-- `_refresh_write_batch_status` of cloud-api/app/main.py: a batch's status from its commands'.
pub mod Outcome
mod Tests
use iot_cloud_commissioning.Prelude.{
  ℕ, Bool, true, false, ◌&&◌, ◌||◌, Option, none, some, List, [], ◌∷◌, map, nat_beq, if◌then◌else◌,
  keep, any, all,
}
use iot_cloud_commissioning.Cloud.Db.{
  Db, CommandStatus, BatchStatus, BacnetWriteCommand, BacnetWriteBatch, is_command_queued,
  is_command_claimed, is_command_succeeded, is_command_failed, is_command_deferred, update_where,
}

-- The status and the completion time that the commands' statuses give; `none` if there are none.
-- The source collects them in a set, of which it tests members and equality with a singleton.
unfoldable pub batch_outcome : List CommandStatus → ℕ → Option (BatchStatus × Option ℕ)
batch_outcome [] now = none
batch_outcome (s ∷ ss) now =
    let statuses = s ∷ ss in
    if any is_command_queued statuses || any is_command_claimed statuses
    then some
        (if any is_command_claimed statuses then BatchStatus.claimed else BatchStatus.queued, none)
    else if all is_command_succeeded statuses
    then some (BatchStatus.completed, some now)
    else if all is_command_failed statuses
    then some (BatchStatus.failed, some now)
    else if all is_command_deferred statuses
    then some (BatchStatus.deferred, some now)
    else some (BatchStatus.partial, some now)

unfoldable pub statuses_of : Db → ℕ → List CommandStatus
statuses_of db batch = map (λ c. c.status) (keep (λ c. nat_beq c.batch_id batch) db.commands)

with_outcome : Option (BatchStatus × Option ℕ) → BacnetWriteBatch → BacnetWriteBatch
with_outcome none b = b
with_outcome (some (s, t)) b = record b { status = s; completed_at = t }

unfoldable pub refresh_write_batch_status : Db → ℕ → ℕ → Db
unfolding with_outcome batch_outcome statuses_of
refresh_write_batch_status db batch now = record db {
  batches =
      update_where (λ b. nat_beq b.id batch)
        (with_outcome (batch_outcome (statuses_of db batch) now)) db.batches;
}

-- `for batch_id in affected_batch_ids: ...`
unfoldable pub refresh_each : Db → List ℕ → ℕ → Db
unfolding refresh_write_batch_status
refresh_each db [] now = db
refresh_each db (b ∷ bs) now = refresh_each (refresh_write_batch_status db b now) bs now
