-- ===== src/Cloud/Writes/Request.antt =====
-- What a recorded batch is known to hold, before anyone approves it.
use iot_cloud_commissioning.Prelude.{
  ℕ, suc, ◌≡◌, refl, sym, ap, ◌∙◌, subst, Bool, true, false, not, Option, none, some, length, List,
  [], ◌∷◌, ◌++◌, map, arith, String, any, All, In, In-keep_inv, ◌==◌, string_eq, eq_iff, Bool-cases,
  inl, inr,
}
use iot_cloud_commissioning.Cloud.Db.{
  Db, BatchStatus, CommandStatus, BacnetWriteBatch, BacnetWriteCommand, SavedBacnetPoint,
}
use iot_cloud_commissioning.Cloud.Http.{
  Response, ok, ok-injective, refuse_if, or_refuse, >>=-eq-ok, refuse_if-eq-ok, or_refuse-eq-ok,
}
use iot_cloud_commissioning.Cloud.Writes.{
  WriteItem, write_object_types, has, has_repeats, normalize, enabled_points, point_by_id, is_false,
  is_rejected, with_points, pending_commands, pending_batch, write_saved_points,
}

-- The command addresses an enabled point of the gateway that may be written, copies the point's
-- address, is of the batch, awaits approval and has no job.
abbrev pub IsVetted : Db → String → ℕ → BacnetWriteCommand → Type 0
IsVetted db gateway batch c =
    (p : SavedBacnetPoint) × In p db.points
    × ((p.gateway_id ≡ gateway) × (p.enabled ≡ true))
    × ((has write_object_types p.object_type ≡ true)
        × (p.property_name ≡ "present-value")
        × (is_false p.writable ≡ false))
    × ((c.saved_point_id ≡ p.id)
        × (c.device_instance ≡ p.device_instance)
        × (c.object_type ≡ p.object_type)
        × (c.object_instance ≡ p.object_instance))
    × ((c.batch_id ≡ batch)
        × (c.gateway_id ≡ gateway)
        × (c.status ≡ CommandStatus.pending_approval)
        × (c.edge_job_id ≡ ""))

point_by_id-In :
    (ps : List SavedBacnetPoint) (id : String) (p : SavedBacnetPoint)
    → point_by_id ps id ≡ some p
    → In p ps
unfolding point_by_id
point_by_id-In [] id p h = cc
point_by_id-In (q ∷ ps) id p h = elim (Bool-cases (q.id == id)) [
  | inl e ↦ inl (ground arith)
  | inr e ↦ inr (point_by_id-In ps id p (ground arith))
]

with_points-In :
    (ps : List SavedBacnetPoint) (ws : List (String × WriteItem))
    (ts : List (SavedBacnetPoint × WriteItem))
    → with_points ps ws ≡ ok ts
    → All (λ t. In t.0 ps) ts
unfolding with_points
with_points-In ps [] ts h = subst (All (λ t. In t.0 ps)) (ok-injective h) tt
with_points-In ps ((id, item) ∷ ws) ts h =
    let (p, e, k) =
      >>=-eq-ok (or_refuse (point_by_id ps id) 404 "Saved point was not found or is disabled") _
        h in
    let (rest, f, l) = >>=-eq-ok (with_points ps ws) _ k in
    subst (All (λ t. In t.0 ps)) (ok-injective l) (
      point_by_id-In ps id p (or_refuse-eq-ok (point_by_id ps id) 404 _ e),
      with_points-In ps ws rest f,
    )

pending_commands-IsVetted :
    (db : Db) (batch : ℕ) (gateway : String) (id now : ℕ) (points : List SavedBacnetPoint)
    → ((p : SavedBacnetPoint)
        → In p points
        → In p db.points × (p.gateway_id ≡ gateway) × (p.enabled ≡ true))
    → (ts : List (SavedBacnetPoint × WriteItem)) → All (λ t. In t.0 points) ts
    → any (λ t. is_rejected t.0) ts ≡ false
    → All (IsVetted db gateway batch) (pending_commands batch gateway id now ts)
unfolding pending_commands
pending_commands-IsVetted db batch gateway id now points known [] placed fit = tt
pending_commands-IsVetted db batch gateway id now points known ((p, item) ∷ ts) (m, placed) fit =
    let (here, mine, on) = known p m in
    let fits : is_rejected p ≡ false = ground arith in
    (
      (p, here, (mine, on), vetted fits, (refl, refl, refl, refl), (refl, refl, refl, refl)),
      pending_commands-IsVetted db batch gateway (suc id) now points known ts placed (ground arith),
    )
  where
    vetted :
        is_rejected p ≡ false
        → (has write_object_types p.object_type ≡ true)
          × (p.property_name ≡ "present-value")
          × (is_false p.writable ≡ false)
    vetted fits = unfold is_rejected in ground (arith, eq_iff p.property_name "present-value")

-- What holds of the tables after an accepted request: one batch more, which awaits approval, with one
-- vetted command for each write, and nothing queued.
pub record IsRecorded (db : Db) (gateway : String) (actor : String) (count : ℕ) (batch : ℕ)
    (after : Db) : Type 0 where
  pub awaiting : BacnetWriteBatch
  pub batches : after.batches ≡ db.batches ++ awaiting ∷ []
  pub awaits :
      (awaiting.id ≡ batch)
      × (awaiting.gateway_id ≡ gateway)
      × (awaiting.requested_by ≡ actor)
      × (awaiting.approved_by ≡ none)
      × (awaiting.status ≡ BatchStatus.pending_approval)
      × (awaiting.write_count ≡ count)
  pub added : List BacnetWriteCommand
  pub commands : after.commands ≡ db.commands ++ added
  pub one_each : length added ≡ count
  pub vetted : All (IsVetted db gateway batch) added
  pub no_job : after.jobs ≡ db.jobs
  pub points : after.points ≡ db.points

length-normalize :
    (tree_id : String → Option String) (writes : List WriteItem) (ws : List (String × WriteItem))
    → normalize tree_id writes ≡ ok ws
    → length ws ≡ length writes
unfolding normalize
length-normalize tree_id [] ws h = ap length (sym (ok-injective h))
length-normalize tree_id (item ∷ items) ws h =
    let (id, _, h1) = >>=-eq-ok (or_refuse (tree_id item.point_id) 404 "Record not found") _ h in
    let (rest, e, h2) = >>=-eq-ok (normalize tree_id items) _ h1 in
    ap length (sym (ok-injective h2)) ∙ ap suc (length-normalize tree_id items rest e)

length-with_points :
    (ps : List SavedBacnetPoint) (ws : List (String × WriteItem))
    (ts : List (SavedBacnetPoint × WriteItem))
    → with_points ps ws ≡ ok ts
    → length ts ≡ length ws
unfolding with_points
length-with_points ps [] ts h = ap length (sym (ok-injective h))
length-with_points ps ((id, item) ∷ ws) ts h =
    let (p, _, h1) =
      >>=-eq-ok (or_refuse (point_by_id ps id) 404 "Saved point was not found or is disabled") _
        h in
    let (rest, e, h2) = >>=-eq-ok (with_points ps ws) _ h1 in
    ap length (sym (ok-injective h2)) ∙ ap suc (length-with_points ps ws rest e)

length-pending_commands :
    (batch : ℕ) (gateway : String) (id now : ℕ) (ts : List (SavedBacnetPoint × WriteItem))
    → length (pending_commands batch gateway id now ts) ≡ length ts
unfolding pending_commands
length-pending_commands batch gateway id now [] = refl
length-pending_commands batch gateway id now ((p, item) ∷ ts) =
    ap suc (length-pending_commands batch gateway (suc id) now ts)

-- An accepted write request only records: it adds one batch, which awaits approval, and one command
-- for each write; every new command is of that batch, addresses an enabled, writable point of that
-- gateway under the point's own address and awaits approval; no job is queued.
pub write_saved_points-IsRecorded :
    (tree_id : String → Option String) (db : Db) (access : Response (Unit {0})) (online : Bool)
    (gateway : String) (writes : List WriteItem) (actor : String) (batch first_command now : ℕ)
    (after : Db)
    → write_saved_points tree_id db access online gateway writes actor batch first_command now
      ≡ ok after
    → IsRecorded db gateway actor (length writes) batch after
unfolding write_saved_points enabled_points
write_saved_points-IsRecorded tree_id db access online gateway writes actor batch first_command now
      after h =
    let (_, _, h1) = >>=-eq-ok access _ h in
    let (_, _, h2) = >>=-eq-ok (refuse_if (not online) 409 "Gateway is not online") _ h1 in
    let (normalized, named, h3) = >>=-eq-ok (normalize tree_id writes) _ h2 in
    let (_, _, h4) =
      >>=-eq-ok
        (refuse_if (has_repeats (ids normalized)) 422
          "writes must not contain duplicate point_id values")
        _ h3 in
    let (targets, placed, h5) = >>=-eq-ok (with_points (chosen normalized) normalized) _ h4 in
    let (_, fit, h6) =
      >>=-eq-ok
        (refuse_if (any (λ (t : SavedBacnetPoint × WriteItem). is_rejected t.0) targets) 422
          "One or more points cannot be written")
        _ h5 in
    let count = length-normalize tree_id writes normalized named in
    subst (IsRecorded db gateway actor (length writes) batch) (ok-injective h6) (record {
      awaiting = pending_batch batch gateway actor (length normalized) now;
      batches = refl;
      awaits = (refl, refl, refl, refl, refl, count);
      added = pending_commands batch gateway first_command now targets;
      commands = refl;
      one_each =
          length-pending_commands batch gateway first_command now targets
          ∙ length-with_points (chosen normalized) normalized targets placed
          ∙ count;
      vetted =
          pending_commands-IsVetted db batch gateway first_command now (chosen normalized)
            (known normalized) targets
            (with_points-In (chosen normalized) normalized targets placed)
            (refuse_if-eq-ok _ 422 "One or more points cannot be written" fit);
      no_job = refl;
      points = refl;
    })
  where
    ids : List (String × WriteItem) → List String
    ids = map (λ w. w.0)

    chosen : List (String × WriteItem) → List SavedBacnetPoint
    chosen normalized = enabled_points db gateway (ids normalized)

    known :
        (normalized : List (String × WriteItem)) (p : SavedBacnetPoint)
        → In p (chosen normalized)
        → In p db.points × (p.gateway_id ≡ gateway) × (p.enabled ≡ true)
    known normalized p m =
        let (here, t) = In-keep_inv _ p db.points m in
        (here, ground (arith, eq_iff p.gateway_id gateway), ground arith)
