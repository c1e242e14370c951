-- ===== src/Cloud/Batches/Tests.antt =====
-- Batches of commands at work, and the theorems at concrete inputs.
use iot_cloud_commissioning.Prelude.{
  ℕ, ◌≡◌, ◌↔◌, refl, Option, some, List, [], ◌∷◌, any, All, is_none,
}
use iot_cloud_commissioning.Cloud.Db.{CommandStatus, BatchStatus}
use iot_cloud_commissioning.Cloud.Batches.{batch_outcome}
use iot_cloud_commissioning.Cloud.Batches.Outcome.{is_open, Means, batch_outcome_exact}

-- One command was deferred and the others succeeded.
abbrev mixed : List CommandStatus
mixed = CommandStatus.succeeded ∷ CommandStatus.deferred ∷ CommandStatus.succeeded ∷ []

batch_outcome_exact_example :
    (b : BatchStatus) × (t : Option ℕ) × (batch_outcome mixed 70 ≡ some (b, t))
    × Means mixed 70 b t
    × ((b ≡ BatchStatus.completed) ↔ All (λ c. c ≡ CommandStatus.succeeded) mixed)
    × (is_none t ≡ any is_open mixed)
batch_outcome_exact_example =
    batch_outcome_exact CommandStatus.succeeded
      (CommandStatus.deferred ∷ CommandStatus.succeeded ∷ []) 70

mixed_outcome : batch_outcome mixed 70 ≡ some (BatchStatus.partial, some 70)
unfolding batch_outcome
mixed_outcome = refl
