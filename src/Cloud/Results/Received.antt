-- ===== src/Cloud/Results/Received.antt =====
-- A reported job result, from the lookup of the job to the commit.
use iot_cloud_commissioning.Prelude.{
  ℕ, ◌≡◌, refl, sym, ◌∙◌, subst, false, not, Option, none, some, List, String, arith, Bool-cases,
  inl, inr, keep, if◌then◌else◌, ◌==◌, string_eq, eq_iff,
}
use iot_cloud_commissioning.Json.{Value, Items, Fields}
use iot_cloud_commissioning.Cloud.Db.{
  Db, EdgeJob, SavedBacnetPoint, SavedBacnetDevice, first_where, change_first,
}
use iot_cloud_commissioning.Cloud.Db.Owned.{
  first_where-eq-some, Pointwise-Foreign-refl, Pointwise-Foreign-trans,
}
use iot_cloud_commissioning.Cloud.Http.{
  ok, ok-injective, refuse_if, refuse_if-eq-ok, or_refuse, or_refuse-eq-ok, >>=-eq-ok,
}
use iot_cloud_commissioning.Cloud.Batches.{refresh_each}
use iot_cloud_commissioning.Cloud.Jobs.{write_batch}
use iot_cloud_commissioning.Cloud.Readings.Owner.{
  SameOwners, save_read-SameOwners, save_bulk-SameOwners,
}
use iot_cloud_commissioning.Cloud.Reconcile.{
  JobResultIn, results_by_point_id, in_order, is_command_of, reconcile_bacnet_write_result,
}
use iot_cloud_commissioning.Cloud.Reconcile.Commands.{refresh_each-rest, read_back_each-SameOwners}
use iot_cloud_commissioning.Cloud.Tree.Isolation.{point_owner, device_owner}
use iot_cloud_commissioning.Cloud.Results.{
  finished_job, completed_result, list_in, save_discovery, save_loaded_points, load_result,
  read_result, bulk_result, apply_result, receive_job_result,
}
use iot_cloud_commissioning.Cloud.Results.Isolation.{
  OnlyOwn, OnlyOwn-refl, OnlyOwn-Pointwise, OnlyTree, OnlyTree-refl, OnlyTree-trans,
  OnlyTree-points, save_discovery-OnlyTree, AllPlaced, load_device_points-OnlyTree,
}

module _ (tree_id : String → Option String) (now : ℕ) (fresh : ℕ → String) (job : EdgeJob) where
  save_loaded_points-OnlyTree :
      (db : Db) (id : Option String) (items : Option Items) (after : Db)
      → AllPlaced db
      → save_loaded_points tree_id job.gateway_id now fresh db id items ≡ ok after
      → OnlyTree job.gateway_id db after
  unfolding save_loaded_points
  save_loaded_points-OnlyTree db none items after placed h =
      subst (OnlyTree job.gateway_id db) (ok-injective h) (OnlyTree-refl job.gateway_id db)
  save_loaded_points-OnlyTree db (some id) items after placed h =
      let (device_id, _, k) = >>=-eq-ok (or_refuse (tree_id id) 404 "Record not found") _ h in
      load_device_points-OnlyTree job.gateway_id now fresh db
        (first_where (λ d. d.id == device_id) db.devices) items after (again device_id) placed k
    where
      again :
          (x : String) (device : SavedBacnetDevice)
          → first_where (λ d. d.id == x) db.devices ≡ some device
          → first_where (λ d. d.id == device.id) db.devices ≡ some device
      again x device e =
          let (_, t) = first_where-eq-some (λ d. d.id == x) db.devices device e in
          subst (λ y. first_where (λ d. d.id == y) db.devices ≡ some device)
            (sym ((eq_iff device.id x).0 t)) e

  load_result-OnlyTree :
      (db : Db) (o : Option Fields) (after : Db)
      → ((r : Fields) → o ≡ some r → AllPlaced db)
      → load_result tree_id job now fresh db o ≡ ok after
      → OnlyTree job.gateway_id db after
  unfolding load_result
  load_result-OnlyTree db none after placed h =
      subst (OnlyTree job.gateway_id db) (ok-injective h) (OnlyTree-refl job.gateway_id db)
  load_result-OnlyTree db (some result) after placed h =
      save_loaded_points-OnlyTree db _ _ after (placed result refl) h

read_result-SameOwners :
    (tree_id : String → Option String) (str : Value → String) (job : EdgeJob) (now : ℕ)
    (points : List SavedBacnetPoint) (o : Option Fields) (after : List SavedBacnetPoint)
    → read_result tree_id str job now points o ≡ ok after
    → SameOwners job.gateway_id points after
unfolding read_result
read_result-SameOwners tree_id str job now points none after h =
    subst (SameOwners job.gateway_id points) (ok-injective h)
      (Pointwise-Foreign-refl point_owner job.gateway_id points)
read_result-SameOwners tree_id str job now points (some result) after h =
    save_read-SameOwners tree_id str job.gateway_id now points job.request_json result after h

-- A job has one type, so a result that loads points discovers no devices.
one_type :
    (job : EdgeJob) (payload : JobResultIn) (r : Fields)
    → completed_result "bacnet_load_points" job payload ≡ some r
    → completed_result "bacnet_discover" job payload ≡ none
one_type job payload r h = elim (Bool-cases (job.job_type == "bacnet_discover")) [
  | inl e ↦
      let load : (job.job_type == "bacnet_load_points") ≡ false =
        subst (λ s. (s == "bacnet_load_points") ≡ false)
          (sym ((eq_iff job.job_type "bacnet_discover").0 e)) refl in
      absurd (none_some load)
  | inr e ↦ rw e refl
]
  where
    none_some : (job.job_type == "bacnet_load_points") ≡ false → ⊥
    none_some f = ground arith

refresh_each-OnlyTree :
    (gateway : String) (db start : Db) (bs : List ℕ) (now : ℕ)
    → OnlyTree gateway db start
    → OnlyTree gateway db (refresh_each start bs now)
refresh_each-OnlyTree gateway db start bs now h =
    let (_, points, jobs, devices) = refresh_each-rest start bs now in
    record {
      jobs = jobs ∙ h.jobs;
      devices = subst (OnlyOwn device_owner gateway db.devices) (sym devices) h.devices;
      points = subst (OnlyOwn point_owner gateway db.points) (sym points) h.points;
    }

reconcile-OnlyTree :
    (str : Value → String) (truncate : String → String) (db : Db) (job : EdgeJob)
    (payload : JobResultIn) (now : ℕ)
    → OnlyTree job.gateway_id db (reconcile_bacnet_write_result str truncate db job payload now)
unfolding reconcile_bacnet_write_result
reconcile-OnlyTree str truncate db job payload now =
    refresh_each-OnlyTree job.gateway_id db _ _ now (record {
      jobs = refl;
      devices = OnlyOwn-refl device_owner job.gateway_id db.devices;
      points = OnlyOwn-Pointwise point_owner job.gateway_id db.points _ (
          read_back_each-SameOwners str job.gateway_id now (results_by_point_id payload)
            (in_order (keep (is_command_of job.job_id) db.commands)) db.points);
    })

apply_result-OnlyTree :
    (tree_id : String → Option String) (str : Value → String) (truncate : String → String)
    (fresh : ℕ → String) (db : Db) (job : EdgeJob) (payload : JobResultIn) (now : ℕ) (after : Db)
    → AllPlaced db
    → apply_result tree_id str truncate fresh db job payload now ≡ ok after
    → OnlyTree job.gateway_id db after
unfolding apply_result
apply_result-OnlyTree tree_id str truncate fresh db job payload now after placed h =
    let (loaded, e, h1) =
      >>=-eq-ok
        (load_result tree_id job now fresh discovered
          (completed_result "bacnet_load_points" job payload))
        _ h in
    let (read, f, h2) =
      >>=-eq-ok
        (read_result tree_id str job now loaded.points (completed_result "bacnet_read" job payload))
        _ h1 in
    let (bulk, g, h3) =
      >>=-eq-ok
        (bulk_result tree_id str job now read (completed_result "bacnet_read_bulk" job payload)) _
        h2 in
    subst (OnlyTree job.gateway_id db) (ok-injective h3) (
      OnlyTree-trans job.gateway_id db (record loaded { points = bulk }) _
        (OnlyTree-trans job.gateway_id db loaded (record loaded { points = bulk })
          (OnlyTree-trans job.gateway_id db discovered loaded
            (save_discovery-OnlyTree job.gateway_id now fresh db _)
            (load_result-OnlyTree tree_id now fresh job discovered _ loaded discovered_placed e))
          (OnlyTree-points job.gateway_id loaded bulk (
            Pointwise-Foreign-trans point_owner job.gateway_id loaded.points read bulk
              (read_result-SameOwners tree_id str job now loaded.points _ read f)
              (unfold bulk_result in
                save_bulk-SameOwners tree_id str job.gateway_id now _ read bulk g))))
        (written (record loaded { points = bulk })))
  where
    discovered : Db
    discovered =
        save_discovery job.gateway_id now fresh db
          (list_in (completed_result "bacnet_discover" job payload) "devices")

    discovered_placed :
        (r : Fields)
        → completed_result "bacnet_load_points" job payload ≡ some r
        → AllPlaced discovered
    discovered_placed r e =
        subst
          (λ (o : Option Fields).
            AllPlaced (save_discovery job.gateway_id now fresh db (list_in o "devices")))
          (sym (one_type job payload r e)) (unfold save_discovery in placed)

    written :
        (start : Db)
        → OnlyTree job.gateway_id start (
            if job.job_type == write_batch
            then reconcile_bacnet_write_result str truncate start job payload now
            else start)
    written start = elim (Bool-cases (job.job_type == write_batch)) [
      | inl e ↦ rw e (reconcile-OnlyTree str truncate start job payload now)
      | inr e ↦ rw e (OnlyTree-refl job.gateway_id start)
    ]

-- What holds after an accepted result of `caller` for `job_id`.
pub record IsReceived (caller job_id : String) (payload : JobResultIn) (now : ℕ) (db after : Db)
    : Type 0 where
  pub job : EdgeJob
  pub found : (first_where (λ j. j.job_id == job_id) db.jobs ≡ some job) × (job.gateway_id ≡ caller)
  pub jobs : after.jobs ≡ change_first (λ j. j.job_id == job_id) (finished_job payload now) db.jobs
  pub devices : OnlyOwn device_owner caller db.devices after.devices
  pub points : OnlyOwn point_owner caller db.points after.points

-- If every device's points belong to the device's gateway, an accepted result changes one job,
-- which is the caller's, and no device and no point of any other gateway, whatever the payload
-- names; each device or point that it adds is the caller's.
pub receive_job_result-IsReceived :
    (tree_id : String → Option String) (str : Value → String) (truncate : String → String)
    (fresh : ℕ → String) (db : Db) (caller job_id : String) (payload : JobResultIn) (now : ℕ)
    (after : Db)
    → AllPlaced db
    → receive_job_result tree_id str truncate fresh db caller job_id payload now ≡ ok after
    → IsReceived caller job_id payload now db after
unfolding receive_job_result
receive_job_result-IsReceived tree_id str truncate fresh db caller job_id payload now after placed
      h =
    let (job, e, h1) =
      >>=-eq-ok
        (or_refuse (first_where (λ (j : EdgeJob). j.job_id == job_id) db.jobs) 404 "Job not found")
        _ h in
    let (_, f, h2) =
      >>=-eq-ok
        (refuse_if (not (job.gateway_id == caller)) 403 "Gateway credential does not own this job")
        _ h1 in
    let own : job.gateway_id ≡ caller =
      caller_owns job (refuse_if-eq-ok _ 403 "Gateway credential does not own this job" f) in
    let tree =
      subst (λ g. OnlyTree g started after) own
        (apply_result-OnlyTree tree_id str truncate fresh started (finished_job payload now job)
          payload now after placed h2) in
    record {
      job = job;
      found = (or_refuse-eq-ok _ 404 "Job not found" e, own);
      jobs = tree.jobs;
      devices = tree.devices;
      points = tree.points;
    }
  where
    started : Db
    started = record db {
      jobs = change_first (λ j. j.job_id == job_id) (finished_job payload now) db.jobs;
    }

    caller_owns : (job : EdgeJob) → not (job.gateway_id == caller) ≡ false → job.gateway_id ≡ caller
    caller_owns job k = ground (arith, eq_iff job.gateway_id caller)
