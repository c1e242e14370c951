-- ===== src/Cloud/Writes/Approval.antt =====
-- What an approval does: one write job for each device, and every command of the batch in it.
use iot_cloud_commissioning.Prelude.{
  ℕ, suc, ◌≡◌, refl, ◌∙◌, sym, ap, subst, true, not, ◌&&◌, none, some, List, [], ◌∷◌, ◌++◌, map,
  any, NoRepeats, All-intro, String, nat_beq, if◌then◌else◌, keep, All, In, In-keep, map-cong_In,
  ◌==◌, string_eq, eq_self, Bool-cases, inl, inr, is_some,
}
use iot_cloud_commissioning.Dict.{Dict, get}
use iot_cloud_commissioning.Dict.Group.{group_by, nonempty, get-group_by, group_by-Distinct, get-In}
use iot_cloud_commissioning.Dict.Purge.{Distinct}
use iot_cloud_commissioning.Json.{ℤ, Items, int_eq, int, list, end, field}
use iot_cloud_commissioning.Cloud.Db.{
  Db, EdgeJob, JobStatus, CommandStatus, BatchStatus, BacnetWriteCommand, update_where,
}
use iot_cloud_commissioning.Cloud.Http.{Response, ok, ok-injective, refuse_if, or_refuse, >>=-eq-ok}
use iot_cloud_commissioning.Cloud.Jobs.{write_batch}
use iot_cloud_commissioning.Cloud.Writes.{
  batch_by_id, is_pending, entries, device_job, assigned, batch_commands, approved_batch,
  approve_write,
}
use iot_cloud_commissioning.Cloud.Writes.Entries.{AreEntries, entries_lem}
use iot_cloud_commissioning.Cloud.Writes.Devices.{
  AreJobs, devices_of, In-devices_of, devices_of-NoRepeats, keep-batch_commands, any-keep,
}
use iot_cloud_commissioning.Cloud.Writes.Queued.{
  in_groups, queue_groups-commands, queue_groups-batches, jobs_of, queue_groups-jobs,
}

module _ (batch : ℕ) (gateway : String) (now : ℕ) (job_id : ℤ → String) where
  -- What the write job of one device is: queued, with the entries of the commands of the batch on
  -- that device, of which there is at least one.
  pub record IsDeviceJob (db : Db) (device : ℤ) (job : EdgeJob) : Type 0 where
    pub name : job.job_id ≡ job_id device
    pub owner : job.gateway_id ≡ gateway
    pub kind : (job.job_type ≡ write_batch) × (job.status ≡ JobStatus.queued)
    pub rest :
        (job.result_json ≡ none)
        × (job.claimed_at ≡ none)
        × (job.completed_at ≡ none)
        × (job.created_at ≡ now)
    pub writes : Items
    pub request :
        job.request_json ≡ field "device_instance" (int device) (field "writes" (list writes) end)
    pub are_entries :
        AreEntries
          (keep (λ c. nat_beq c.batch_id batch && c.device_instance == device) db.commands)
          writes

  jobs_of-IsDeviceJob :
      (db : Db) (id : ℕ) (groups : Dict ℤ (List BacnetWriteCommand))
      → ((d : ℤ) (cs : List BacnetWriteCommand)
          → In (d, cs) groups
          → cs ≡ keep (λ c. nat_beq c.batch_id batch && c.device_instance == d) db.commands)
      → AreJobs (IsDeviceJob db) (devices_of groups) (jobs_of batch gateway now job_id id groups)
  unfolding jobs_of device_job
  jobs_of-IsDeviceJob db id [] h = tt
  jobs_of-IsDeviceJob db id ((d, cs) ∷ groups) h = (
    record {
      name = refl;
      owner = refl;
      kind = (refl, refl);
      rest = (refl, refl, refl, refl);
      writes = entries cs;
      request = refl;
      are_entries = subst (λ x. AreEntries x (entries cs)) (h d cs (inl refl)) (entries_lem cs);
    },
    jobs_of-IsDeviceJob db (suc id) groups (λ e es m. h e es (inr m)),
  )

some-nonempty : (xs ys : List BacnetWriteCommand) → nonempty xs ≡ some ys → ys ≡ xs
some-nonempty [] ys h = cc
some-nonempty (x ∷ xs) ys h = cc

nonempty-In :
    (c : BacnetWriteCommand) (xs : List BacnetWriteCommand) → In c xs → is_some (nonempty xs) ≡ true
nonempty-In c [] m = elim m [ ]
nonempty-In c (x ∷ xs) m = refl

-- The tables after an approval: the batch names who approved it and when, and is queued; each of
-- its commands is queued under its device's job; other batches and commands are as before; and the
-- new jobs are one for each device on which the batch has a command.
pub record IsApproved (db : Db) (batch : ℕ) (gateway actor : String) (job_id : ℤ → String) (now : ℕ)
    (after : Db) : Type 0 where
  pub batches :
      after.batches
      ≡ map
          (λ b.
            if nat_beq b.id batch
            then record b {
              approved_by = some actor;
              approved_at = some now;
              status = BatchStatus.queued;
            }
            else b)
          db.batches
  pub commands :
      after.commands
      ≡ map
          (λ c.
            if nat_beq c.batch_id batch
            then record c { edge_job_id = job_id c.device_instance; status = CommandStatus.queued }
            else c)
          db.commands
  pub added : List EdgeJob
  pub jobs : after.jobs ≡ db.jobs ++ added
  pub devices : List ℤ
  pub device_jobs : AreJobs (IsDeviceJob batch gateway now job_id db) devices added
  pub once : NoRepeats devices
  pub covered :
      All (λ c. (nat_beq c.batch_id batch ≡ true) → In c.device_instance devices) db.commands
  pub needed :
      All
        (λ d. (any (λ c. nat_beq c.batch_id batch && c.device_instance == d) db.commands) ≡ true)
        devices

-- An approval that is accepted queues the batch and every command of it, under the job of its
-- device, and leaves all other batches and commands alone; what it adds to the queue is one BACnet
-- write job of the gateway for each device on which the batch has a command, with one entry for each
-- of these commands, which says its point, object, action, priority and, unless it is a relinquish,
-- its value.
pub approve_write-IsApproved :
    (db : Db) (access : Response (Unit {0})) (gateway : String) (batch : ℕ) (actor : String)
    (first_job now : ℕ) (job_id : ℤ → String) (after : Db)
    → approve_write db access gateway batch actor first_job now job_id ≡ ok after
    → IsApproved db batch gateway actor job_id now after
unfolding approve_write
approve_write-IsApproved db access gateway batch actor first_job now job_id after h =
    let (_, _, h1) = >>=-eq-ok access _ h in
    let (found, _, h2) =
      >>=-eq-ok (or_refuse (batch_by_id db.batches batch) 404 "Write batch not found") _ h1 in
    let (_, _, h3) =
      >>=-eq-ok (refuse_if (not (found.gateway_id == gateway)) 404 "Write batch not found") _ h2 in
    let (_, _, h4) =
      >>=-eq-ok
        (refuse_if (not (is_pending found.status)) 409 "Write batch is not awaiting approval") _
        h3 in
    subst (IsApproved db batch gateway actor job_id now) (ok-injective h4) (record {
      batches = queue_groups-batches batch gateway now job_id first_job groups start;
      commands =
          queue_groups-commands batch gateway now job_id first_job groups start
          ∙ map-cong_In (in_groups batch gateway now job_id groups) _ db.commands covered;
      added = jobs_of batch gateway now job_id first_job groups;
      jobs = queue_groups-jobs batch gateway now job_id first_job groups start;
      device_jobs = jobs_of-IsDeviceJob batch gateway now job_id db first_job groups entry;
      devices = devices_of groups;
      once = devices_of-NoRepeats groups distinct;
      covered =
          All-intro _ db.commands
            (λ c m t. (In-devices_of groups c.device_instance).1 (present c m t));
      needed = All-intro _ (devices_of groups) needs;
    })
  where
    groups : Dict ℤ (List BacnetWriteCommand)
    groups = group_by (λ c. c.device_instance) (batch_commands db batch)

    distinct : Distinct groups
    distinct = group_by-Distinct (λ c. c.device_instance) (batch_commands db batch)

    -- What the batch has on a device is its group.
    group_of :
        (d : ℤ)
        → nonempty (keep (λ c. nat_beq c.batch_id batch && c.device_instance == d) db.commands)
          ≡ get groups d
    group_of d =
        ap nonempty (sym (unfold batch_commands in keep-batch_commands batch d db.commands))
        ∙ sym (get-group_by (λ c. c.device_instance) (batch_commands db batch) d)

    start : Db
    start = record db {
      batches = update_where (λ b. nat_beq b.id batch) (approved_batch actor now) db.batches;
    }

    entry :
        (d : ℤ) (cs : List BacnetWriteCommand)
        → In (d, cs) groups
        → cs ≡ keep (λ c. nat_beq c.batch_id batch && c.device_instance == d) db.commands
    entry d cs m = some-nonempty _ cs (group_of d ∙ get-In groups d cs distinct m)

    needs :
        (d : ℤ)
        → In d (devices_of groups)
        → any (λ c. nat_beq c.batch_id batch && c.device_instance == d) db.commands ≡ true
    needs d m = any-keep _ db.commands (ap is_some (group_of d) ∙ (In-devices_of groups d).0 m)

    present :
        (c : BacnetWriteCommand)
        → In c db.commands
        → nat_beq c.batch_id batch ≡ true
        → is_some (get groups c.device_instance) ≡ true
    present c m t = rw (get-group_by) (
        nonempty-In c _ (
          In-keep (λ x. x.device_instance == c.device_instance) c (batch_commands db batch)
            (unfold batch_commands in In-keep (λ x. nat_beq x.batch_id batch) c db.commands m t)
            (eq_self c.device_instance)))

    covered :
        (c : BacnetWriteCommand)
        → In c db.commands
        → in_groups batch gateway now job_id groups c
          ≡ (if nat_beq c.batch_id batch then assigned (job_id c.device_instance) c else c)
    covered c m = elim (Bool-cases (nat_beq c.batch_id batch)) [
      | inl t ↦ rw (t, present c m t) refl
      | inr t ↦ rw t refl
    ]
