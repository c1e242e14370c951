-- ===== src/Edge/Sampling/Rounds.antt =====
-- A whole cycle of `sample_local_edge_trends`: the budget is shared by the groups.
use iot_cloud_commissioning.Prelude.{
  ℕ, suc, ◌+◌, ◌<◌, ◌≡◌, refl, sym, ap, Bool, true, false, ◌&&◌, Option, List, [], ◌∷◌, ◌++◌, map,
  arith, length, length-append, length-map, length-take, ltb, take,
}
use mathlib.Core.List.{append-nil}
use iot_cloud_commissioning.Dict.Group.{group_by}
use iot_cloud_commissioning.Json.{int_eq}
use iot_cloud_commissioning.Edge.Sampling.{
  TrendPoint, TrendGroup, TrendSample, TrendDb, Runtime, SamplingConfig,
}
use iot_cloud_commissioning.Edge.Sampling.Cycle.{
  Cycle, Sampled, after_group, sample_local_group, is_local_due, sample_group, sample_groups,
  load_enabled_local_groups, sample_local_edge_trends,
}
use iot_cloud_commissioning.Edge.Sampling.Accounts.{entry_ids, appended_twice, mapped_twice}
use iot_cloud_commissioning.Edge.Sampling.Group.{
  in_device_order, length-in_device_order, IsSampledGroup, sample_local_group-IsSampledGroup,
}

-- What the cycle has stored is what it has added, and it is what the budget has lost.
pub record IsBudgeted (budget : ℕ) (db : TrendDb) (c : Cycle) : Type 0 where
  pub new : List TrendSample
  pub samples : c.db.samples ≡ db.samples ++ new
  pub queued : entry_ids c.db.outbox ≡ entry_ids db.outbox ++ map (λ a. a.id) new
  pub stored : length new ≡ c.stored
  pub spent : c.stored + c.remaining_budget ≡ budget

-- The samples of a group are as many as it counts.
length-new :
    (budget : ℕ) (points : List TrendPoint) (db : TrendDb) (s : Sampled)
    (h : IsSampledGroup budget points db s)
    → length h.new ≡ s.stored
length-new budget points db s h =
    let taken = in_device_order (group_by (λ p. p.device_instance) points) in
    omega (
      arith,
      sym (length-map (λ a. a.trend_point_id) h.new),
      ap length h.in_order,
      length-map (λ p. p.id) (take s.attempted taken),
      length-take s.attempted taken,
      length-in_device_order points,
      h.split,
      h.stored,
    )

module _ (runtime : Runtime) (config : SamplingConfig) (now : ℕ) where
  after_group-IsBudgeted :
      (budget : ℕ) (points : List TrendPoint) (db : TrendDb) (c : Cycle) (s : Sampled)
      → IsBudgeted budget db c
      → IsSampledGroup c.remaining_budget points c.db s
      → IsBudgeted budget db (after_group c s)
  after_group-IsBudgeted budget points db c s h g = record {
    new = h.new ++ g.new;
    samples = appended_twice db.samples h.new g.new h.samples g.samples;
    queued = mapped_twice _ (entry_ids db.outbox) h.new g.new h.queued g.queued;
    stored =
        omega (
          arith,
          length-append h.new g.new,
          h.stored,
          length-new c.remaining_budget points c.db s g,
        );
    spent = omega (arith, h.spent, g.stored, g.within);
  }

  -- A group that finds the runtime busy leaves the tables.
  busy_group :
      (budget : ℕ) (group : TrendGroup) (points : List TrendPoint) (asked : ℕ) (db : TrendDb)
      → runtime.lock_held asked ≡ true
      → sample_local_group runtime config now budget group points asked db
        ≡ record { stored = 0; attempted = 0; asked = suc asked; db = db }
  unfolding sample_local_group
  busy_group budget group points asked db held = rw (sample_local_group, held) refl

  sample_group-IsBudgeted :
      (budget : ℕ) (db : TrendDb) (g : TrendGroup × Option ℕ × List TrendPoint) (c : Cycle)
      → 0 < config.trend_read_batch_size
      → IsBudgeted budget db c
      → IsBudgeted budget db (sample_group runtime config now g c)
  unfolding sample_group
  sample_group-IsBudgeted budget db (group, last, points) c positive h =
      by_test (is_local_due last group.interval_sec now && ltb 0 c.remaining_budget)
        (by_lock (runtime.lock_held c.asked) refl)
    where
      sampled : Sampled
      sampled = sample_local_group runtime config now c.remaining_budget group points c.asked c.db

      by_lock :
          (held : Bool)
          → runtime.lock_held c.asked ≡ held
          → IsBudgeted budget db (after_group c sampled)
      by_lock true e = rw (busy_group c.remaining_budget group points c.asked c.db e) (record {
        new = h.new;
        samples = h.samples;
        queued = h.queued;
        stored = omega (arith, h.stored);
        spent = omega (arith, h.spent);
      })
      by_lock false e = after_group-IsBudgeted budget points db c sampled h (
          sample_local_group-IsSampledGroup runtime config now c.remaining_budget group points
            c.asked c.db positive e)

      by_test :
          (due : Bool)
          → {c' : Cycle} → IsBudgeted budget db c'
          → IsBudgeted budget db (elim due [ true ↦ c' | false ↦ c ])
      by_test true h' = h'
      by_test false h' = h

  sample_groups-IsBudgeted :
      (budget : ℕ) (db : TrendDb) (gs : List (TrendGroup × Option ℕ × List TrendPoint)) (c : Cycle)
      → 0 < config.trend_read_batch_size
      → IsBudgeted budget db c
      → IsBudgeted budget db (sample_groups runtime config now gs c)
  unfolding sample_groups
  sample_groups-IsBudgeted budget db [] c positive h = h
  sample_groups-IsBudgeted budget db (g ∷ gs) c positive h =
      sample_groups-IsBudgeted budget db gs (sample_group runtime config now g c) positive
        (sample_group-IsBudgeted budget db g c positive h)

-- Whatever the runtime answers, a cycle over all groups with a positive batch size adds exactly as
-- many samples as it reports, each with its row of the outbox, and these and what is left of the
-- budget make up `trend_max_points_per_cycle`, so the groups together never exceed it.
pub sample_local_edge_trends-IsBudgeted :
    (runtime : Runtime) (config : SamplingConfig) (has_database : Bool) (now : ℕ) (db : TrendDb)
    → 0 < config.trend_read_batch_size
    → IsBudgeted config.trend_max_points_per_cycle db
        (sample_local_edge_trends runtime config has_database now db)
unfolding sample_local_edge_trends
sample_local_edge_trends-IsBudgeted runtime config has_database now db positive =
    by_test (config.local_edge_trends_enabled && has_database)
  where
    start : Cycle
    start = record {
      stored = 0;
      remaining_budget = config.trend_max_points_per_cycle;
      asked = 0;
      db = db;
    }

    at_start : IsBudgeted config.trend_max_points_per_cycle db start
    at_start = record {
      new = [];
      samples = sym (append-nil _);
      queued = sym (append-nil _);
      stored = refl;
      spent = omega arith;
    }

    by_test :
        (runs : Bool)
        → IsBudgeted config.trend_max_points_per_cycle db (elim runs [
          | true ↦ sample_groups runtime config now (load_enabled_local_groups db db.groups) start
          | false ↦ start
        ])
    by_test true =
        sample_groups-IsBudgeted runtime config now config.trend_max_points_per_cycle db
          (load_enabled_local_groups db db.groups) start positive at_start
    by_test false = at_start
