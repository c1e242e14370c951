-- ===== src/Edge/Outbox/Tests.antt =====
-- Deliveries of three rows, of which one is bad, and the theorems at concrete inputs.
use iot_cloud_commissioning.Prelude.{
  ℕ, ◌≡◌, refl, Bool, true, false, some, List, [], ◌∷◌, String, arith, if◌then◌else◌, any, nat_beq,
  is_some,
}
use iot_cloud_commissioning.Json.{end}
use iot_cloud_commissioning.Edge.Outbox.{
  QueuedRow, AgentConfig, Answer, accepted, refused, Delivery, is_retryable_upload_error, deliver,
}
use iot_cloud_commissioning.Edge.Outbox.Bisection.{row_by_row, deliver-is_some, deliver-row_by_row}

abbrev a_row : ℕ → QueuedRow
a_row id = record { outbox_id = id; event_id = "event"; attempt_count = 0; sample = end }

abbrev three_rows : List QueuedRow
three_rows = a_row 1 ∷ a_row 2 ∷ a_row 3 ∷ []

abbrev is_bad : QueuedRow → Bool
is_bad r = nat_beq r.outbox_id 2

abbrev cloud : List QueuedRow → Answer
cloud rows = if any is_bad rows then refused (some 422) "invalid" else accepted 200

abbrev config : AgentConfig
config = record { trend_upload_retry_base_sec = 30; trend_upload_retry_max_sec = 900 }

abbrev nothing_sent : Delivery
nothing_sent = record { outbox = []; quarantine = []; uploaded = 0; raised = false }

abbrev clean : String → String
clean s = s

deliver-is_some_example : is_some (deliver cloud clean config 50 3 three_rows nothing_sent) ≡ true
deliver-is_some_example =
    deliver-is_some cloud clean config 50 3 three_rows nothing_sent (omega arith) (omega arith)

deliver-row_by_row_example :
    deliver cloud clean config 50 3 three_rows nothing_sent
    ≡ some (row_by_row is_bad clean 50 (some 422) "invalid" three_rows nothing_sent)
unfolding is_retryable_upload_error
deliver-row_by_row_example =
    deliver-row_by_row is_bad clean 50 (some 422) "invalid" cloud 200 config (refl, λ rows. refl) 3
      three_rows nothing_sent refl (omega arith) (omega arith)
