-- ===== src/Edge/Sampling/Tests.antt =====
-- A group of three points on two devices, with a runtime that is busy at its third question.
use iot_cloud_commissioning.Prelude.{
  ℕ, ◌≡◌, refl, true, none, some, List, [], ◌∷◌, map, nat_beq, arith,
}
use iot_cloud_commissioning.Dict.{get, put}
use iot_cloud_commissioning.Dict.Group.{group_by}
use iot_cloud_commissioning.Json.{pos, int_eq}
use iot_cloud_commissioning.Edge.Sampling.{
  TrendPoint, TrendGroup, TrendDb, Runtime, BulkRead, answered, raised, SamplingConfig,
}
use iot_cloud_commissioning.Edge.Sampling.Text.{safe_error}
use iot_cloud_commissioning.Edge.Sampling.Cycle.{sample_local_group, sample_local_edge_trends}
use iot_cloud_commissioning.Edge.Sampling.Group.{IsSampledGroup, sample_local_group-IsSampledGroup}
use iot_cloud_commissioning.Edge.Sampling.Rounds.{IsBudgeted, sample_local_edge_trends-IsBudgeted}

abbrev point : ℕ → ℕ → TrendPoint
point id device = record {
  id = id;
  group_id = 1;
  device_instance = pos device;
  object_type = "analog-input";
  object_instance = pos id;
}

abbrev three_points : List TrendPoint
three_points = point 1 10 ∷ point 2 20 ∷ point 3 10 ∷ []

abbrev group : TrendGroup
group = record { id = 1; enabled = true; interval_sec = 60 }

abbrev db : TrendDb
db = record {
  groups = group ∷ [];
  points = three_points;
  runs = [];
  samples = [];
  outbox = [];
  next_run = 1;
  next_sample = 1;
}

abbrev reading : List TrendPoint → BulkRead
reading [] = raised "empty"
reading (p ∷ ps) =
    answered
      (record {
        saved_point_id = some p.id;
        status = some "ok";
        raw_value = some "21.5";
        value = none;
        read_source = some "rpm-bulk";
        error = none;
      }
        ∷ [])
      none

abbrev runtime : Runtime
runtime = record {
  lock_held = λ question. nat_beq question 2;
  read_bulk = λ question device points. reading points;
}

abbrev config : SamplingConfig
config = record {
  local_edge_trends_enabled = true;
  trend_read_batch_size = 1;
  trend_max_points_per_cycle = 2;
}

-- The second batch of the first device finds the lock held.
first_device_only :
    map
      (λ s. s.trend_point_id)
      (sample_local_group runtime config 50 200 group three_points 0 db).db.samples
    ≡ 1 ∷ []
unfolding sample_local_group group_by get put safe_error
first_device_only = refl

sample_local_group-IsSampledGroup_example :
    IsSampledGroup 200 three_points db
      (sample_local_group runtime config 50 200 group three_points 0 db)
sample_local_group-IsSampledGroup_example =
    sample_local_group-IsSampledGroup runtime config 50 200 group three_points 0 db (omega arith)
      refl

sample_local_edge_trends-IsBudgeted_example :
    IsBudgeted 2 db (sample_local_edge_trends runtime config true 50 db)
sample_local_edge_trends-IsBudgeted_example =
    sample_local_edge_trends-IsBudgeted runtime config true 50 db (omega arith)
