-- ===== src/Edge/Queue/Tests.antt =====
-- A queue of two samples with room for one more, and the theorems at concrete inputs.
use iot_cloud_commissioning.Prelude.{◌≤◌, ◌≡◌, refl, false, some, [], ◌∷◌, All, arith, string_eq}
use iot_cloud_commissioning.Json.{end}
use iot_cloud_commissioning.Edge.Queue.{
  AgentDb, backlog, new_row, queue_trend_sample, pending_trend_samples, is_listed,
  mark_trend_samples_uploaded, record_trend_upload_failure, samples, uploads, fails, work_each,
}
use iot_cloud_commissioning.Edge.Queue.Backlog.{work_each-backlog-le, pending_trend_samples-retry}

abbrev two_samples : AgentDb
two_samples = record {
  sync_queue = new_row 1 end 10 ∷ new_row 2 end 20 ∷ [];
  next_id = 3;
  trend_last = ("P1", 20) ∷ [];
}

-- With a capacity of 2 a third sample is refused.
full : queue_trend_sample two_samples "P1" end 30 2 ≡ some (two_samples, false)
unfolding queue_trend_sample backlog new_row
full = refl

two_pending : backlog two_samples ≡ 2
unfolding backlog new_row
two_pending = refl

work_each-backlog-le_example :
    backlog (
      work_each 2 two_samples (
        samples "P1" end 30
        ∷ fails (1 ∷ []) "timeout" 90 31
        ∷ uploads (2 ∷ []) 40
        ∷ samples "P2" end 50
        ∷ []))
    ≤ 2
work_each-backlog-le_example =
    work_each-backlog-le 2 two_samples
      (samples "P1" end 30
        ∷ fails (1 ∷ []) "timeout" 90 31
        ∷ uploads (2 ∷ []) 40
        ∷ samples "P2" end 50
        ∷ [])
      (omega (arith, two_pending))

pending_trend_samples-retry_example :
    All
      (λ r. is_listed (1 ∷ []) r ≡ false)
      (pending_trend_samples
        (record_trend_upload_failure two_samples (1 ∷ []) "timeout" 90 31)
        100
        60)
    × All
        (λ r. is_listed (1 ∷ []) r ≡ false)
        (pending_trend_samples (mark_trend_samples_uploaded two_samples (1 ∷ []) 31) 100 200)
pending_trend_samples-retry_example =
    pending_trend_samples-retry two_samples (1 ∷ []) "timeout" 90 31 100 60 200 (omega arith)
