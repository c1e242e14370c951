-- ===== src/Cloud/Reconcile/Commands.antt =====
-- What the result of a write job settles, and what it leaves alone.
use iot_cloud_commissioning.Prelude.{
  ℕ, ◌≡◌, ◌≢◌, ◌↔◌, refl, sym, ap, ◌∙◌, subst, Bool, true, false, Option, none, some, List, [], ◌∷◌,
  String, arith, Pointwise, In, Pointwise-map, All-intro, Bool-cases, inl, inr, if◌then◌else◌, ◌==◌,
  string_eq, eq_iff,
}
use iot_cloud_commissioning.Dict.{Dict, get, has, get-put}
use iot_cloud_commissioning.Json.{Value, Fields, get_field, as_dict, as_list, as_text, is_true}
use iot_cloud_commissioning.Cloud.Db.{
  Db, EdgeJob, CommandStatus, BacnetWriteCommand, SavedBacnetPoint,
}
use iot_cloud_commissioning.Cloud.Db.Owned.{
  Foreign, Foreign-own, Foreign-refl, Pointwise-Foreign-refl, Pointwise-Foreign-trans,
  change_first-Foreign,
}
use iot_cloud_commissioning.Cloud.Batches.{refresh_each, refresh_write_batch_status}
use iot_cloud_commissioning.Cloud.Batches.Outcome.{is_open}
use iot_cloud_commissioning.Cloud.Tree.Isolation.{point_owner}
use iot_cloud_commissioning.Cloud.Readings.{has_id, apply_write_readback}
use iot_cloud_commissioning.Cloud.Readings.Owner.{SameOwners}
use iot_cloud_commissioning.Cloud.Reconcile.{
  ResultStatus, JobResultIn, is_completed, add_result, add_item, collect, items_of, results_in,
  results_by_point_id, settle, is_target, read_back, read_back_each, is_command_of,
  reconcile_bacnet_write_result,
}

-- The tables that a refresh of batches leaves alone.
pub refresh_each-rest :
    (db : Db) (bs : List ℕ) (now : ℕ)
    → ((refresh_each db bs now).commands ≡ db.commands)
      × ((refresh_each db bs now).points ≡ db.points)
      × ((refresh_each db bs now).jobs ≡ db.jobs)
      × ((refresh_each db bs now).devices ≡ db.devices)
unfolding refresh_each
refresh_each-rest db [] now = (refl, refl, refl, refl)
refresh_each-rest db (b ∷ bs) now = refresh_each-rest (refresh_write_batch_status db b now) bs now

-- The entry reports on the point.
abbrev pub reports_on : String → Fields → Option String → Bool
reports_on id entry none = false
reports_on id entry (some s) = s == id

abbrev pub entry_on : String → Option Fields → Option Fields
entry_on id none = none
entry_on id (some entry) =
    if reports_on id entry (as_text (get_field entry "saved_point_id")) then some entry else none

abbrev pub first_of : Option Fields → Option Fields → Option Fields
first_of none other = other
first_of (some entry) other = some entry

-- The first entry of the list that reports on the point.
abbrev pub first_entry : List Value → String → Option Fields
first_entry [] id = none
first_entry (v ∷ vs) id = first_of (entry_on id (as_dict (some v))) (first_entry vs id)

get-add_result :
    (d : Dict String Fields) (entry : Fields) (o : Option String) (id : String)
    → get (add_result d entry o) id
      ≡ first_of (get d id) (if reports_on id entry o then some entry else none)
unfolding add_result has
get-add_result d entry none id = ground arith
get-add_result d entry (some s) id = ground (arith, get-put d s id entry, eq_iff s id)

get-add_item :
    (d : Dict String Fields) (o : Option Fields) (id : String)
    → get (add_item d o) id ≡ first_of (get d id) (entry_on id o)
unfolding add_item
get-add_item d none id = ground arith
get-add_item d (some entry) id = get-add_result d entry _ id

first_of_assoc : (a b c : Option Fields) → first_of (first_of a b) c ≡ first_of a (first_of b c)
first_of_assoc none b c = refl
first_of_assoc (some a) b c = refl

get-collect :
    (vs : List Value) (d : Dict String Fields) (id : String)
    → get (collect d vs) id ≡ first_of (get d id) (first_entry vs id)
unfolding collect
get-collect [] d id = ground arith
get-collect (v ∷ vs) d id =
    get-collect vs (add_item d (as_dict (some v))) id
    ∙ ap (λ o. first_of o (first_entry vs id)) (get-add_item d (as_dict (some v)) id)
    ∙ first_of_assoc (get d id) (entry_on id (as_dict (some v))) (first_entry vs id)

-- The entry of the payload that decides about the point's command, if there is one.
abbrev pub entry_for : JobResultIn → String → Option Fields
entry_for payload id =
    if is_completed payload.status
    then elim payload.result [
      | none ↦ none
      | some result ↦ first_entry (items_of (as_list (get_field result "results"))) id
    ]
    else none

get-results_by_point_id :
    (payload : JobResultIn) (id : String)
    → get (results_by_point_id payload) id ≡ entry_for payload id
unfolding results_by_point_id results_in get
get-results_by_point_id payload id = elim (Bool-cases (is_completed payload.status)) [
  | inl e ↦ rw e (found payload.result)
  | inr e ↦ rw e refl
]
  where
    found :
        (o : Option Fields)
        → get (results_in o) id ≡ elim o as (λ x. Option Fields) [
          | none ↦ none
          | some result ↦ first_entry (items_of (as_list (get_field result "results"))) id
        ]
    found none = refl
    found (some result) = get-collect (items_of (as_list (get_field result "results"))) [] id

abbrev pub says_ok : Option Fields → Bool
says_ok none = false
says_ok (some entry) = is_true (get_field entry "ok")

-- How the result changes a command: one of the job is closed now, and has succeeded exactly if
-- the deciding entry says so; every other command is as it was.
pub record IsSettled (job_id : String) (payload : JobResultIn) (now : ℕ) (a b : BacnetWriteCommand)
    : Type 0 where
  pub others : a.edge_job_id ≢ job_id → b ≡ a
  pub closed : a.edge_job_id ≡ job_id → (is_open b.status ≡ false) × (b.completed_at ≡ some now)
  pub succeeds :
      a.edge_job_id ≡ job_id
      → (b.status ≡ CommandStatus.succeeded) ↔ (says_ok (entry_for payload a.saved_point_id) ≡ true)
  pub deferred_only :
      b.status ≡ CommandStatus.deferred
      → a.edge_job_id ≡ job_id
      → payload.status ≡ ResultStatus.deferred
  pub request :
      (b.id ≡ a.id)
      × (b.batch_id ≡ a.batch_id)
      × (b.edge_job_id ≡ a.edge_job_id)
      × (b.saved_point_id ≡ a.saved_point_id)
      × (b.requested_value ≡ a.requested_value)
      × (b.priority ≡ a.priority)
      × (b.action ≡ a.action)

settle-IsSettled :
    (str : Value → String) (truncate : String → String) (job_id : String) (payload : JobResultIn)
    (now : ℕ) (o : Option Fields) (a : BacnetWriteCommand)
    → o ≡ entry_for payload a.saved_point_id
    → a.edge_job_id ≡ job_id
    → IsSettled job_id payload now a (settle str truncate payload now o a)
unfolding settle
settle-IsSettled str truncate job_id payload now none a e h = record {
  others = λ n. absurd (n h);
  closed = λ _. ground arith;
  succeeds = λ _. ground arith;
  deferred_only = λ k _. ground arith;
  request = ground arith;
}
settle-IsSettled str truncate job_id payload now (some entry) a e h = record {
  others = λ n. absurd (n h);
  closed = λ _. ground arith;
  succeeds = λ _. ground arith;
  deferred_only = λ k _. ground arith;
  request = ground arith;
}

untouched-IsSettled :
    (job_id : String) (payload : JobResultIn) (now : ℕ) (a : BacnetWriteCommand)
    → a.edge_job_id ≢ job_id
    → IsSettled job_id payload now a a
untouched-IsSettled job_id payload now a n = record {
  others = λ _. refl;
  closed = λ h. absurd (n h);
  succeeds = λ h. absurd (n h);
  deferred_only = λ k h. absurd (n h);
  request = ground arith;
}

-- A reported result of a write job closes every command of the job now, as succeeded exactly if
-- the job completed and the first entry for the command's point says `ok`, as deferred only if
-- the job was; commands of other jobs, and what was requested, stay.
pub reconcile_bacnet_write_result-IsSettled :
    (str : Value → String) (truncate : String → String) (db : Db) (job : EdgeJob)
    (payload : JobResultIn) (now : ℕ)
    → Pointwise
        (IsSettled job.job_id payload now)
        db.commands
        (reconcile_bacnet_write_result str truncate db job payload now).commands
unfolding reconcile_bacnet_write_result
reconcile_bacnet_write_result-IsSettled str truncate db job payload now =
    subst (Pointwise (IsSettled job.job_id payload now) db.commands)
      (sym (refresh_each-rest _ _ now).0)
      (Pointwise-map (IsSettled job.job_id payload now) _ db.commands
        (All-intro _ db.commands settled))
  where
    settled :
        (a : BacnetWriteCommand)
        → In a db.commands
        → IsSettled job.job_id payload now a (
            if is_command_of job.job_id a
            then settle str truncate payload now
                (get (results_by_point_id payload) a.saved_point_id)
                a
            else a)
    settled a m = elim (Bool-cases (a.edge_job_id == job.job_id)) [
      | inl e ↦ rw e (
          settle-IsSettled str truncate job.job_id payload now _ a
            (get-results_by_point_id payload a.saved_point_id)
            (ground (arith, eq_iff a.edge_job_id job.job_id)))
      | inr e ↦ rw e (
          untouched-IsSettled job.job_id payload now a
            (ground (arith, eq_iff a.edge_job_id job.job_id)))
    ]

read_back-SameOwners :
    (str : Value → String) (gateway : String) (now : ℕ) (c : BacnetWriteCommand) (o : Option Fields)
    (points : List SavedBacnetPoint)
    → SameOwners gateway points (read_back str gateway now c o points)
unfolding read_back
read_back-SameOwners str gateway now c none points =
    Pointwise-Foreign-refl point_owner gateway points
read_back-SameOwners str gateway now c (some result) points =
    change_first-Foreign point_owner gateway (has_id c.saved_point_id) _ (λ p _. own p) points
  where
    kept :
        (p : SavedBacnetPoint) → (apply_write_readback str now result p).gateway_id ≡ p.gateway_id
    kept p = unfold apply_write_readback in ground arith

    own :
        (p : SavedBacnetPoint)
        → Foreign point_owner gateway p
            (if is_target gateway c p then apply_write_readback str now result p else p)
    own p = elim (Bool-cases (is_target gateway c p)) [
      | inl e ↦ rw e (
          Foreign-own point_owner gateway p (apply_write_readback str now result p) (kept p)
            (unfold is_target in ground (arith, eq_iff p.gateway_id gateway)))
      | inr e ↦ rw e (Foreign-refl point_owner gateway p)
    ]

pub read_back_each-SameOwners :
    (str : Value → String) (gateway : String) (now : ℕ) (results : Dict String Fields)
    (cs : List BacnetWriteCommand) (points : List SavedBacnetPoint)
    → SameOwners gateway points (read_back_each str gateway now results cs points)
unfolding read_back_each
read_back_each-SameOwners str gateway now results [] points =
    Pointwise-Foreign-refl point_owner gateway points
read_back_each-SameOwners str gateway now results (c ∷ cs) points =
    let read = read_back str gateway now c (get results c.saved_point_id) points in
    Pointwise-Foreign-trans point_owner gateway points read
      (read_back_each str gateway now results cs read)
      (read_back-SameOwners str gateway now c (get results c.saved_point_id) points)
      (read_back_each-SameOwners str gateway now results cs read)
