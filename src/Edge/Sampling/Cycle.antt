-- ===== src/Edge/Sampling/Cycle.antt =====
-- The loops over devices and over groups: `_sample_local_group`, `_chunked`, `_local_due`,
-- `_load_enabled_local_groups` and `sample_local_edge_trends` of
-- edge-agent/iot_cx_agent/trends.py. The check that the data directory is there is
-- `has_database`. A started run has no ISO text that fails to parse: times are whole numbers.
use iot_cloud_commissioning.Prelude.{
  ℕ, zero, suc, ◌+◌, ◌-◌, Bool, true, false, not, ◌&&◌, Option, none, some, List, [], ◌∷◌, ◌++◌,
  leb, ltb, nat_beq, max, if◌then◌else◌, length, take, drop, keep,
}
use iot_cloud_commissioning.Dict.{Dict}
use iot_cloud_commissioning.Dict.Group.{group_by}
use iot_cloud_commissioning.Json.{ℤ, int_eq}
use iot_cloud_commissioning.Cloud.Db.{update_where}
use iot_cloud_commissioning.Edge.Sampling.{
  TrendPoint, TrendGroup, TrendRun, TrendDb, Runtime, SamplingConfig, Tally,
}
use iot_cloud_commissioning.Edge.Sampling.Reads.{read_batches}

module _ {ℓ} {A : Type ℓ} where
  -- The rounds of `range(0, len(items), max(1, size))`: each takes a slice of `size` items.
  unfoldable pub chunks : ℕ → ℕ → List A → List (List A)
  chunks size fuel [] = []
  chunks size zero (x ∷ xs) = []
  chunks size (suc fuel) (x ∷ xs) =
      take size (x ∷ xs) ∷ chunks size fuel (drop (max 1 size) (x ∷ xs))

  unfoldable pub chunked : ℕ → List A → List (List A)
  unfolding chunks
  chunked size items = chunks size (length items) items

module _ (runtime : Runtime) (config : SamplingConfig) (now : ℕ) (point_budget : ℕ) where
  -- Once the runtime was given back, devices are put off unread.
  unfoldable pub read_device : ℤ → List TrendPoint → Tally → Tally
  unfolding read_batches chunked
  read_device device points t = elim t.yielded [
    | true ↦ record t { deferred_count = t.deferred_count + length points }
    | false ↦
        read_batches runtime now point_budget device false
          (chunked config.trend_read_batch_size points) t
  ]

  unfoldable pub read_devices : Dict ℤ (List TrendPoint) → Tally → Tally
  unfolding read_device
  read_devices [] t = t
  read_devices ((device, points) ∷ rest) t = read_devices rest (read_device device points t)

abbrev pub started_run : ℕ → ℕ → ℕ → List TrendPoint → TrendRun
started_run id group now points = record {
  id = id;
  group_id = group;
  started_at = now;
  requested_count = length points;
  completed_at = none;
  returned_count = 0;
  deferred_count = 0;
  errors = [];
}

-- The counters at the start, and the row of the run.
abbrev pub start_tally : ℕ → TrendGroup → List TrendPoint → ℕ → TrendDb → Tally
start_tally now group points asked db = record {
  stored = 0;
  attempted = 0;
  returned_count = 0;
  missing_count = 0;
  error_count = 0;
  deferred_count = 0;
  errors = [];
  yielded = false;
  asked = asked;
  db = record db {
    runs = db.runs ++ started_run db.next_run group.id now points ∷ [];
    next_run = suc db.next_run;
  };
}

-- `UPDATE trend_runs SET ... WHERE id = ?`
abbrev pub completed : ℕ → Tally → TrendRun → TrendRun
completed now t run = record run {
  completed_at = some now;
  returned_count = t.returned_count;
  deferred_count = t.deferred_count;
  errors = t.errors;
}

unfoldable pub complete_run : ℕ → ℕ → Tally → Tally
complete_run now run_id t =
    let db = t.db in
    record t {
      db = record db { runs = update_where (λ r. nat_beq r.id run_id) (completed now t) db.runs };
    }

-- Samples written, points attempted, questions put to the runtime, and the tables.
pub record Sampled : Type 0 where
  pub stored : ℕ
  pub attempted : ℕ
  pub asked : ℕ
  pub db : TrendDb

abbrev pub sampled_of : Tally → Sampled
sampled_of t = record { stored = t.stored; attempted = t.attempted; asked = t.asked; db = t.db }

unfoldable pub sample_local_group :
    Runtime → SamplingConfig → ℕ → ℕ → TrendGroup → List TrendPoint → ℕ → TrendDb → Sampled
unfolding read_devices complete_run
sample_local_group runtime config now point_budget group points asked db =
    elim (runtime.lock_held asked) [
      | true ↦ record { stored = 0; attempted = 0; asked = suc asked; db = db }
      | false ↦ sampled_of (
          complete_run now db.next_run (
            read_devices runtime config now point_budget (group_by (λ p. p.device_instance) points)
              (start_tally now group points (suc asked) db)))
    ]

-- `(SELECT MAX(started_at) FROM trend_runs r WHERE r.group_id = g.id)`
unfoldable pub last_started_at : ℕ → List TrendRun → Option ℕ
last_started_at group [] = none
last_started_at group (r ∷ rs) =
    let later = last_started_at group rs in
    if nat_beq r.group_id group
    then elim later [ none ↦ some r.started_at | some t ↦ some (max r.started_at t) ]
    else later

unfoldable pub is_local_due : Option ℕ → ℕ → ℕ → Bool
is_local_due none interval_sec now = true
is_local_due (some last) interval_sec now = leb (last + interval_sec) now

-- The enabled groups that have points, with the start of their last run. Both tables are kept in
-- the order of the query.
unfoldable pub load_enabled_local_groups :
    TrendDb → List TrendGroup → List (TrendGroup × Option ℕ × List TrendPoint)
unfolding last_started_at
load_enabled_local_groups db [] = []
load_enabled_local_groups db (g ∷ gs) =
    let rest = load_enabled_local_groups db gs in
    let points = keep (λ p. nat_beq p.group_id g.id) db.points in
    if g.enabled && not (nat_beq (length points) 0)
    then (g, last_started_at g.id db.runs, points) ∷ rest
    else rest

-- The state of a cycle: samples stored, what is left of the budget, questions put, the tables.
pub record Cycle : Type 0 where
  pub stored : ℕ
  pub remaining_budget : ℕ
  pub asked : ℕ
  pub db : TrendDb

-- The budget is a count that a group never overruns, so the subtraction is exact.
abbrev pub after_group : Cycle → Sampled → Cycle
after_group c s = record {
  stored = c.stored + s.stored;
  remaining_budget = c.remaining_budget - s.attempted;
  asked = s.asked;
  db = s.db;
}

unfoldable pub sample_group :
    Runtime → SamplingConfig → ℕ → TrendGroup × Option ℕ × List TrendPoint → Cycle → Cycle
unfolding sample_local_group is_local_due
sample_group runtime config now (group, last, points) c =
    elim (is_local_due last group.interval_sec now && ltb 0 c.remaining_budget) [
      | true ↦
          after_group c
            (sample_local_group runtime config now c.remaining_budget group points c.asked c.db)
      | false ↦ c
    ]

unfoldable pub sample_groups :
    Runtime → SamplingConfig → ℕ → List (TrendGroup × Option ℕ × List TrendPoint) → Cycle → Cycle
unfolding sample_group
sample_groups runtime config now [] c = c
sample_groups runtime config now (g ∷ gs) c =
    sample_groups runtime config now gs (sample_group runtime config now g c)

unfoldable pub sample_local_edge_trends : Runtime → SamplingConfig → Bool → ℕ → TrendDb → Cycle
unfolding sample_groups load_enabled_local_groups
sample_local_edge_trends runtime config has_database now db =
    let start : Cycle = record {
      stored = 0;
      remaining_budget = config.trend_max_points_per_cycle;
      asked = 0;
      db = db;
    } in
    elim (config.local_edge_trends_enabled && has_database) [
      | true ↦ sample_groups runtime config now (load_enabled_local_groups db db.groups) start
      | false ↦ start
    ]
