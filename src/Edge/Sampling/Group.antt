-- ===== src/Edge/Sampling/Group.antt =====
-- `_sample_local_group` accounts for every point of its group.
use iot_cloud_commissioning.Prelude.{
  ℕ, zero, suc, ◌+◌, ◌≤◌, ◌<◌, ◌≡◌, refl, sym, ap, ◌∙◌, subst, Bool, true, false, List, [], ◌∷◌,
  ◌++◌, map, arith, length, length-append, take, drop, max, take-append-drop, length-drop, nat_beq,
  if◌then◌else◌, ◌==◌, or_else, In, In-map, eq_self, nat_eq, inl, inr, Bool-cases,
}
use mathlib.Core.List.{append-nil, append_assoc}
use iot_cloud_commissioning.Dict.{Dict, get, put}
use iot_cloud_commissioning.Dict.Group.{group_by, group_onto, add_to_group}
use iot_cloud_commissioning.Json.{ℤ, int_eq}
use iot_cloud_commissioning.Edge.Sampling.{
  TrendPoint, TrendGroup, TrendRun, TrendSample, TrendDb, Runtime, SamplingConfig, Tally,
}
use iot_cloud_commissioning.Edge.Sampling.Reads.{concat, read_batches}
use iot_cloud_commissioning.Edge.Sampling.Cycle.{
  chunks, chunked, read_device, read_devices, started_run, start_tally, complete_run, completed,
  Sampled, sampled_of, sample_local_group,
}
use iot_cloud_commissioning.Edge.Sampling.Accounts.{IsAccounted, entry_ids}
use iot_cloud_commissioning.Edge.Sampling.Batches.{
  IsAccounted-trans, nothing_left, read_batches-IsAccounted,
}
use iot_cloud_commissioning.Edge.Sampling.Budget.{read_devices-IsWithin}

module _ {A : Type 0} where
  -- Slices of a positive size, put together again.
  concat-chunks :
      (size fuel : ℕ) (xs : List A)
      → 0 < size
      → length xs ≤ fuel
      → concat (chunks size fuel xs) ≡ xs
  unfolding chunks
  concat-chunks size fuel [] h enough = refl
  concat-chunks size zero (x ∷ xs) h enough = absurd (omega (arith, enough))
  concat-chunks size (suc fuel) (x ∷ xs) h enough =
      let exact : max 1 size ≡ size = omega (arith, h) in
      let fewer : length (drop size (x ∷ xs)) ≤ fuel =
        omega (arith, h, enough, length-drop size (x ∷ xs)) in
      rw exact (
        ap (λ l. take size (x ∷ xs) ++ l) (concat-chunks size fuel (drop size (x ∷ xs)) h fewer)
        ∙ take-append-drop size (x ∷ xs))

  pub concat-chunked : (size : ℕ) (xs : List A) → 0 < size → concat (chunked size xs) ≡ xs
  unfolding chunked
  concat-chunked size xs h = concat-chunks size (length xs) xs h (omega arith)

-- The points of the groups, device by device.
abbrev pub in_device_order : Dict ℤ (List TrendPoint) → List TrendPoint
in_device_order [] = []
in_device_order ((device, points) ∷ rest) = points ++ in_device_order rest

length-put :
    (d : Dict ℤ (List TrendPoint)) (k : ℤ) (p : TrendPoint)
    → length (in_device_order (put d k (or_else (get d k) [] ++ p ∷ [])))
      ≡ suc (length (in_device_order d))
unfolding put get
length-put [] k p = refl
length-put ((j, ps) ∷ d) k p = elim (Bool-cases (j == k)) [
  | inl e ↦ rw e (
      omega (
        arith,
        length-append ps (p ∷ []),
        length-append (ps ++ p ∷ []) (in_device_order d),
        length-append ps (in_device_order d),
      ))
  | inr e ↦ rw e (
      omega (
        arith,
        length-put d k p,
        length-append ps (in_device_order d),
        length-append ps (in_device_order (put d k (or_else (get d k) [] ++ p ∷ []))),
      ))
]

length-group_onto :
    (d : Dict ℤ (List TrendPoint)) (ps : List TrendPoint)
    → length (in_device_order (group_onto (λ p. p.device_instance) d ps))
      ≡ length (in_device_order d) + length ps
unfolding group_onto add_to_group
length-group_onto d [] = omega arith
length-group_onto d (p ∷ ps) = omega (
  arith,
  length-group_onto (add_to_group (λ q. q.device_instance) d p) ps,
  length-put d p.device_instance p,
)

pub length-in_device_order :
    (ps : List TrendPoint)
    → length (in_device_order (group_by (λ p. p.device_instance) ps)) ≡ length ps
unfolding group_by
length-in_device_order ps = omega (arith, length-group_onto [] ps)

-- More points that are put off.
defer_more :
    (ps qs : List TrendPoint) (t t' : Tally)
    → IsAccounted ps t t'
    → t'.yielded ≡ true
    → IsAccounted (ps ++ qs) t (record t' { deferred_count = t'.deferred_count + length qs })
defer_more ps qs t t' h stopped = record {
  done = h.done;
  rest = h.rest ++ qs;
  new = h.new;
  split = ap (λ l. l ++ qs) h.split ∙ append_assoc h.done h.rest qs;
  samples = h.samples;
  sampled = h.sampled;
  queued = h.queued;
  runs = h.runs;
  attempted = h.attempted;
  stored = h.stored;
  deferred = omega (arith, h.deferred, length-append h.rest qs);
  counted = h.counted;
  ended = λ e. cc (e, stopped);
}

module _ (runtime : Runtime) (config : SamplingConfig) (now budget : ℕ) where
  read_device-IsAccounted :
      0 < config.trend_read_batch_size
      → (device : ℤ) (points ps : List TrendPoint) (t t' : Tally) → IsAccounted ps t t'
      → IsAccounted (ps ++ points) t (read_device runtime config now budget device points t')
  unfolding read_device
  read_device-IsAccounted positive device points ps t t' h = by_test t'.yielded refl
    where
      by_test :
          (yielded : Bool)
          → t'.yielded ≡ yielded
          → IsAccounted (ps ++ points) t (elim yielded [
            | true ↦ record t' { deferred_count = t'.deferred_count + length points }
            | false ↦
                read_batches runtime now budget device false
                  (chunked config.trend_read_batch_size points)
                  t'
          ])
      by_test true e = defer_more ps points t t' h e
      by_test false e =
          let reads =
            read_batches-IsAccounted runtime now budget device false
              (chunked config.trend_read_batch_size points) t' e in
          IsAccounted-trans ps points t t' _ h e (
            subst
              (λ l. IsAccounted l t' (
                read_batches runtime now budget device false
                  (chunked config.trend_read_batch_size points) t'))
              (concat-chunked config.trend_read_batch_size points positive) reads)

  read_devices-IsAccounted :
      0 < config.trend_read_batch_size
      → (ds : Dict ℤ (List TrendPoint)) (ps : List TrendPoint) (t t' : Tally) → IsAccounted ps t t'
      → IsAccounted (ps ++ in_device_order ds) t (read_devices runtime config now budget ds t')
  unfolding read_devices
  read_devices-IsAccounted positive [] ps t t' h =
      subst (λ l. IsAccounted l t t') (sym (append-nil ps)) h
  read_devices-IsAccounted positive ((device, points) ∷ ds) ps t t' h =
      subst
        (λ l. IsAccounted l t (
          read_devices runtime config now budget ds
            (read_device runtime config now budget device points t')))
        (append_assoc ps points (in_device_order ds))
        (read_devices-IsAccounted positive ds (ps ++ points) t
          (read_device runtime config now budget device points t')
          (read_device-IsAccounted positive device points ps t t' h))

-- What is left of the points when `n` of them are done.
take-done : {A : Type 0} (done rest : List A) → take (length done) (done ++ rest) ≡ done
take-done [] rest = refl
take-done (x ∷ done) rest = ap (◌∷◌ x) (take-done done rest)

In-append : {A : Type 0} (x : A) (xs ys : List A) → In x (xs ++ x ∷ ys)
In-append x [] ys = inl refl
In-append x (y ∷ xs) ys = inr (In-append x xs ys)

-- The row of the run is the one that is completed.
completed-In :
    (now : ℕ) (t : Tally) (runs : List TrendRun) (run : TrendRun)
    → t.db.runs ≡ runs ++ run ∷ []
    → In (completed now t run) (complete_run now run.id t).db.runs
unfolding complete_run
completed-In now t runs run e =
    subst (λ r. In r (complete_run now run.id t).db.runs) (rw (eq_self run.id) refl)
      (In-map (λ r. if nat_beq r.id run.id then completed now t r else r) run t.db.runs
        (subst (λ l. In run l) (sym e) (In-append run runs [])))

-- The run of the group as it ends: its row, and the samples with their outbox rows.
pub record IsSampledGroup (budget : ℕ) (points : List TrendPoint) (db : TrendDb) (s : Sampled)
    : Type 0 where
  pub run : TrendRun
  pub new : List TrendSample
  pub samples : s.db.samples ≡ db.samples ++ new
  pub queued : entry_ids s.db.outbox ≡ entry_ids db.outbox ++ map (λ a. a.id) new
  pub in_order :
      map (λ a. a.trend_point_id) new
      ≡ map
          (λ p. p.id)
          (take s.attempted (in_device_order (group_by (λ p. p.device_instance) points)))
  pub stored : s.stored ≡ s.attempted
  pub within : s.attempted ≤ budget
  pub ran : In run s.db.runs
  pub of_run : run.id ≡ db.next_run
  pub requested : run.requested_count ≡ length points
  pub split : s.attempted + run.deferred_count ≡ length points
  pub returned : run.returned_count ≤ s.stored

-- When the BACnet runtime is free at the start, whatever it answers after that, a run over a
-- group with a positive batch size samples an initial part of the group's points, taken device by
-- device, once each and within the budget, adds a row of the outbox for each sample, and completes
-- a row in `trend_runs` whose count of deferred points is exactly the points not sampled.
pub sample_local_group-IsSampledGroup :
    (runtime : Runtime) (config : SamplingConfig) (now budget : ℕ) (group : TrendGroup)
    (points : List TrendPoint) (asked : ℕ) (db : TrendDb)
    → 0 < config.trend_read_batch_size
    → runtime.lock_held asked ≡ false
    → IsSampledGroup budget points db
        (sample_local_group runtime config now budget group points asked db)
unfolding sample_local_group complete_run
sample_local_group-IsSampledGroup runtime config now budget group points asked db positive free =
    by_test (runtime.lock_held asked) free (
      of_tally
        (read_devices-IsAccounted runtime config now budget positive devices [] start start
          (nothing_left start))
        (read_devices-IsWithin runtime now budget config devices start (omega arith)))
  where
    devices : Dict ℤ (List TrendPoint)
    devices = group_by (λ p. p.device_instance) points

    start : Tally
    start = start_tally now group points (suc asked) db

    by_test :
        (held : Bool)
        → held ≡ false
        → {s : Sampled} → IsSampledGroup budget points db s
        → IsSampledGroup budget points db (elim held [
          | true ↦ record { stored = 0; attempted = 0; asked = suc asked; db = db }
          | false ↦ s
        ])
    by_test true e h = cc
    by_test false e h = h

    of_tally :
        {t : Tally}
        → IsAccounted (in_device_order devices) start t
        → t.attempted ≤ budget
        → IsSampledGroup budget points db (sampled_of (complete_run now db.next_run t))
    of_tally {t} h within =
        let exact : t.attempted ≡ length h.done = omega (arith, h.attempted) in
        record {
          run = completed now t (started_run db.next_run group.id now points);
          new = h.new;
          samples = h.samples;
          queued = h.queued;
          in_order =
              h.sampled
              ∙ ap (map (λ p. p.id)) (sym (take-done h.done h.rest) ∙ cc (h.split, exact));
          stored = h.stored ∙ sym h.attempted;
          within = within;
          ran = completed-In now t db.runs _ h.runs;
          of_run = refl;
          requested = refl;
          split = omega (
            arith,
            h.attempted,
            h.deferred,
            ap length h.split,
            length-append h.done h.rest,
            length-in_device_order points,
          );
          returned = omega (arith, h.counted, h.stored);
        }
