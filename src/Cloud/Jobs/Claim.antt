-- ===== src/Cloud/Jobs/Claim.antt =====
-- What one database pass of the job poll does to the rows, and what it hands out.
use iot_cloud_commissioning.Prelude.{
  ℕ, ◌≡◌, ◌≢◌, refl, sym, subst, ◌∙◌, inl, inr, Bool, true, false, ◌&&◌, Option, none, some, List,
  [], ◌∷◌, String, arith, nat_beq, if◌then◌else◌, All, All-intro, All-map_imp, In, In-keep,
  Pointwise, Pointwise-map, Pointwise-map_after, Bool-cases, keep, keep-eq-one, ◌==◌, string_eq,
  eq_iff,
}
use iot_cloud_commissioning.Cloud.Db.{Db, EdgeJob, is_job_queued, is_job_claimed}
use iot_cloud_commissioning.Cloud.Batches.{refresh_each, refresh_write_batch_status}
use iot_cloud_commissioning.Cloud.Jobs.{
  write_batch, is_stale, requeued, requeue_stale, is_waiting, next_waiting, claimed_job, claim_row,
  rows_claimed, exactly_one, claim_commands, finish_claim, claim_selected, claim_next_job_once,
}
use iot_cloud_commissioning.Cloud.Jobs.Oldest.{next_waiting-some, IsFirst}

-- Refreshing batches leaves the jobs alone.
pub jobs-refresh_each : (db : Db) (bs : List ℕ) (now : ℕ) → (refresh_each db bs now).jobs ≡ db.jobs
unfolding refresh_each
jobs-refresh_each db [] now = refl
jobs-refresh_each db (b ∷ bs) now = jobs-refresh_each (refresh_write_batch_status db b now) bs now

pub jobs-finish_claim :
    (db : Db) (job : EdgeJob) (now : ℕ) → (finish_claim db job now).jobs ≡ db.jobs
unfolding finish_claim
jobs-finish_claim db job now = elim (Bool-cases (job.job_type == write_batch)) [
  | inl e ↦ rw e (unfold claim_commands in jobs-refresh_each _ _ now)
  | inr e ↦ rw e refl
]

-- How a pass for `gateway` may change a row.
pub record RowKept (gateway : String) (a b : EdgeJob) : Type 0 where
  pub identity :
      (b.id ≡ a.id)
      × (b.job_id ≡ a.job_id)
      × (b.gateway_id ≡ a.gateway_id)
      × (b.job_type ≡ a.job_type)
  pub content :
      (b.request_json ≡ a.request_json)
      × (b.result_json ≡ a.result_json)
      × (b.created_at ≡ a.created_at)
  pub others : a.gateway_id ≢ gateway → b ≡ a
  pub finished : is_job_queued a.status ≡ false → is_job_claimed a.status ≡ false → b ≡ a
  pub writes : a.job_type ≡ write_batch → is_job_claimed a.status ≡ true → b ≡ a

abbrev requeue_row : String → ℕ → ℕ → EdgeJob → EdgeJob
requeue_row gateway timeout now a = if is_stale gateway timeout now a then requeued a else a

requeue-RowKept :
    (gateway : String) (timeout now : ℕ) (a : EdgeJob)
    → RowKept gateway a (requeue_row gateway timeout now a)
unfolding is_stale
requeue-RowKept gateway timeout now a = record {
  identity = ground arith;
  content = ground arith;
  others = λ h. ground (arith, eq_iff a.gateway_id gateway);
  finished = λ h k. ground arith;
  writes = λ h k. ground (arith, eq_iff a.job_type write_batch);
}

pub RowKept-trans :
    {gateway : String} {a b c : EdgeJob}
    → RowKept gateway a b
    → RowKept gateway b c
    → RowKept gateway a c
RowKept-trans {gateway} {a} {b} {c} h k = record {
  identity = ground arith;
  content = ground arith;
  others = λ n. let e = h.others n in k.others (λ g. n (cc (g, e))) ∙ e;
  finished = λ q d. let e = h.finished q d in k.finished (cc (q, e)) (cc (d, e)) ∙ e;
  writes = λ w d. let e = h.writes w d in k.writes (cc (w, e)) (cc (d, e)) ∙ e;
}

RowKept-refl : (gateway : String) (a : EdgeJob) → RowKept gateway a a
RowKept-refl gateway a = record {
  identity = ground arith;
  content = ground arith;
  others = λ n. refl;
  finished = λ q d. refl;
  writes = λ w d. refl;
}

claim-RowKept :
    (gateway : String) (now : ℕ) (a : EdgeJob)
    → is_waiting gateway a ≡ true
    → RowKept gateway a (claimed_job now a)
unfolding is_waiting
claim-RowKept gateway now a w = record {
  identity = ground arith;
  content = ground arith;
  others = λ h. ground (arith, eq_iff a.gateway_id gateway);
  finished = λ h k. ground arith;
  writes = λ h k. ground arith;
}

exactly_one_lem : (xs : List EdgeJob) → exactly_one xs ≡ true → (x : EdgeJob) × (xs ≡ x ∷ [])
unfolding exactly_one
exactly_one_lem [] h = cc
exactly_one_lem (x ∷ []) h = (x, refl)
exactly_one_lem (x ∷ y ∷ xs) h = cc

In-one : {a x : EdgeJob} → In a (x ∷ []) → a ≡ x
In-one (inl e) = e
In-one (inr m) = elim m [ ]

-- A selected row that the guarded update reaches is the only one that it reaches.
pub claimed_only :
    (gateway : String) (jobs : List EdgeJob) (job : EdgeJob)
    → next_waiting gateway jobs ≡ some job
    → exactly_one (rows_claimed jobs job.id) ≡ true
    → All (λ j. nat_beq j.id job.id && is_job_queued j.status ≡ true → j ≡ job) jobs
unfolding rows_claimed
claimed_only gateway jobs job e one =
    let (placed, waits, first) = next_waiting-some gateway jobs job e in
    let (x, single) = exactly_one_lem (keep hit jobs) one in
    let same : job ≡ x =
      In-one (subst (In job) single (In-keep hit job jobs placed (hits waits))) in
    All-map_imp _ _ (λ j k t. k t ∙ sym same) jobs (keep-eq-one hit x jobs single)
  where
    hit : EdgeJob → Bool
    hit j = nat_beq j.id job.id && is_job_queued j.status

    hits : is_waiting gateway job ≡ true → hit job ≡ true
    hits w = unfold is_waiting in ground arith

claim_row-RowKept :
    (gateway : String) (now : ℕ) (jobs : List EdgeJob) (job : EdgeJob)
    → next_waiting gateway jobs ≡ some job
    → exactly_one (rows_claimed jobs job.id) ≡ true
    → All
        (λ a.
          RowKept gateway a
            (if nat_beq a.id job.id && is_job_queued a.status then claimed_job now a else a))
        jobs
claim_row-RowKept gateway now jobs job e one =
    All-map_imp _ _ kept jobs (claimed_only gateway jobs job e one)
  where
    kept :
        (a : EdgeJob)
        → (nat_beq a.id job.id && is_job_queued a.status ≡ true → a ≡ job)
        → RowKept gateway a
            (if nat_beq a.id job.id && is_job_queued a.status then claimed_job now a else a)
    kept a k = elim (Bool-cases (nat_beq a.id job.id && is_job_queued a.status)) [
      | inl t ↦
          rw t (claim-RowKept gateway now a (rw (k t) (next_waiting-some gateway jobs job e).1))
      | inr f ↦ rw f (RowKept-refl gateway a)
    ]

requeue_stale-RowKept :
    (gateway : String) (timeout now : ℕ) (jobs : List EdgeJob)
    → Pointwise (RowKept gateway) jobs (requeue_stale gateway timeout now jobs)
unfolding requeue_stale
requeue_stale-RowKept gateway timeout now jobs =
    Pointwise-map (RowKept gateway) (requeue_row gateway timeout now) jobs
      (All-intro _ jobs (λ a m. requeue-RowKept gateway timeout now a))

claim_selected-RowKept :
    (gateway : String) (before : List EdgeJob) (db : Db) (now : ℕ) (o : Option EdgeJob)
    → next_waiting gateway db.jobs ≡ o
    → Pointwise (RowKept gateway) before db.jobs
    → Pointwise (RowKept gateway) before (claim_selected db o now).0.jobs
unfolding claim_selected
claim_selected-RowKept gateway before db now none e h = h
claim_selected-RowKept gateway before db now (some job) e h =
    elim (Bool-cases (exactly_one (rows_claimed db.jobs job.id))) [
      | inl one ↦ rw one (
          subst (Pointwise (RowKept gateway) before) (sym (jobs-finish_claim _ job now)) (
            unfold claim_row in
            Pointwise-map_after (RowKept gateway) _ (λ a b c. RowKept-trans) before db.jobs h
              (claim_row-RowKept gateway now db.jobs job e one)))
      | inr two ↦ rw two h
    ]

-- A poll keeps the identity and the content of every row, and every row whole that is another
-- gateway's, that is finished, or that is a claimed BACnet write.
pub claim_next_job_once-RowKept :
    (db : Db) (gateway : String) (timeout now : ℕ)
    → Pointwise (RowKept gateway) db.jobs (claim_next_job_once db gateway timeout now).0.jobs
unfolding claim_next_job_once
claim_next_job_once-RowKept db gateway timeout now =
    claim_selected-RowKept gateway db.jobs
      (record db { jobs = requeue_stale gateway timeout now db.jobs }) now _ refl
      (requeue_stale-RowKept gateway timeout now db.jobs)

-- What a poll hands out stands in the queue once the stale claims are put back, waits for that
-- gateway, and no other waiting job of the gateway is before it.
pub claim_next_job_once_hands_out :
    (db : Db) (gateway : String) (timeout now : ℕ) (job : EdgeJob)
    → (claim_next_job_once db gateway timeout now).1 ≡ some job
    → In job (requeue_stale gateway timeout now db.jobs)
      × (is_waiting gateway job ≡ true)
      × IsFirst gateway job (requeue_stale gateway timeout now db.jobs)
unfolding claim_next_job_once
claim_next_job_once_hands_out db gateway timeout now job h =
    next_waiting-some gateway (requeue_stale gateway timeout now db.jobs) job
      (handed (next_waiting gateway (requeue_stale gateway timeout now db.jobs)) h)
  where
    handed :
        (o : Option EdgeJob)
        → (claim_selected (record db { jobs = requeue_stale gateway timeout now db.jobs }) o now).1
          ≡ some job
        → o ≡ some job
    handed none k = k
    handed (some x) k = unfold claim_selected in ground arith
