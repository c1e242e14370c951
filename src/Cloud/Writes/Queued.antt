-- ===== src/Cloud/Writes/Queued.antt =====
-- What the queueing of the jobs of an approval does to the tables.
use iot_cloud_commissioning.Prelude.{
  ℕ, suc, ◌≡◌, refl, ◌∙◌, sym, ◌&&◌, List, [], ◌∷◌, ◌++◌, map, arith, String, nat_beq,
  if◌then◌else◌, map-map_eq, map_same, string_eq, is_some,
}
use mathlib.Core.List.{append-nil, append_assoc}
use iot_cloud_commissioning.Dict.{Dict, get}
use iot_cloud_commissioning.Json.{ℤ, int_eq, int_beq_iff}
use iot_cloud_commissioning.Cloud.Db.{Db, EdgeJob, BacnetWriteCommand}
use iot_cloud_commissioning.Cloud.Writes.{device_job, is_of, assigned, queue_groups}

module _ (batch : ℕ) (gateway : String) (now : ℕ) (job_id : ℤ → String) where
  -- A command after the jobs of `groups` are made.
  abbrev pub in_groups : Dict ℤ (List BacnetWriteCommand) → BacnetWriteCommand → BacnetWriteCommand
  in_groups groups c =
      if nat_beq c.batch_id batch && is_some (get groups c.device_instance)
      then assigned (job_id c.device_instance) c
      else c

  pub queue_groups-commands :
      (id : ℕ) (groups : Dict ℤ (List BacnetWriteCommand)) (db : Db)
      → (queue_groups db batch gateway id now job_id groups).commands
        ≡ map (in_groups groups) db.commands
  unfolding queue_groups get
  queue_groups-commands id [] db = sym (map_same (in_groups []) db.commands (λ c. ground arith))
  queue_groups-commands id ((device, commands) ∷ groups) db =
      queue_groups-commands (suc id) groups _
      ∙ map-map_eq _ (in_groups groups) (in_groups ((device, commands) ∷ groups)) db.commands
          one_more
    where
      one_more :
          (c : BacnetWriteCommand)
          → in_groups groups (if is_of batch device c then assigned (job_id device) c else c)
            ≡ in_groups ((device, commands) ∷ groups) c
      one_more c =
          ground (arith, int_beq_iff c.device_instance device, int_beq_iff device c.device_instance)

  pub queue_groups-batches :
      (id : ℕ) (groups : Dict ℤ (List BacnetWriteCommand)) (db : Db)
      → (queue_groups db batch gateway id now job_id groups).batches ≡ db.batches
  unfolding queue_groups
  queue_groups-batches id [] db = refl
  queue_groups-batches id ((device, commands) ∷ groups) db = queue_groups-batches (suc id) groups _

  -- The jobs of the groups, in their order.
  unfoldable pub jobs_of : ℕ → Dict ℤ (List BacnetWriteCommand) → List EdgeJob
  jobs_of id [] = []
  jobs_of id ((device, commands) ∷ groups) =
      device_job gateway id now job_id device commands ∷ jobs_of (suc id) groups

  pub queue_groups-jobs :
      (id : ℕ) (groups : Dict ℤ (List BacnetWriteCommand)) (db : Db)
      → (queue_groups db batch gateway id now job_id groups).jobs ≡ db.jobs ++ jobs_of id groups
  unfolding queue_groups jobs_of
  queue_groups-jobs id [] db = sym (append-nil db.jobs)
  queue_groups-jobs id ((device, commands) ∷ groups) db =
      queue_groups-jobs (suc id) groups _ ∙ append_assoc db.jobs _ _
