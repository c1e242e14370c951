-- ===== src/Cloud/Jobs/Total.antt =====
-- A poll never leaves a waiting job behind: the guarded update reaches the row that it selected.
use iot_cloud_commissioning.Prelude.{
  ℕ, ◌≡◌, ◌≢◌, refl, sym, ap, subst, ◌∙◌, inl, inr, true, false, ◌&&◌, Option, none, some, List, [],
  ◌∷◌, map, String, arith, nat_beq, nat_beq_iff, if◌then◌else◌, All, All-intro, In, In-map,
  NoRepeats, Bool-cases, keep-nil, Pointwise,
}
use iot_cloud_commissioning.Cloud.Db.{Db, EdgeJob, JobStatus, is_job_queued}
use iot_cloud_commissioning.Cloud.Jobs.{
  requeue_stale, is_waiting, next_waiting, claimed_job, claim_row, rows_claimed, exactly_one,
  claim_selected, claim_next_job_once,
}
use iot_cloud_commissioning.Cloud.Jobs.Oldest.{next_waiting-some, next_waiting-none}
use iot_cloud_commissioning.Cloud.Jobs.Claim.{
  jobs-finish_claim, RowKept, claim_next_job_once-RowKept,
}

-- The ids of the rows, which the primary key keeps apart.
abbrev pub ids : List EdgeJob → List ℕ
ids = map (λ j. j.id)

ids-requeue_stale :
    (gateway : String) (timeout now : ℕ) (jobs : List EdgeJob)
    → ids (requeue_stale gateway timeout now jobs) ≡ ids jobs
unfolding requeue_stale
ids-requeue_stale gateway timeout now [] = refl
ids-requeue_stale gateway timeout now (j ∷ jobs) =
    ground (arith, ids-requeue_stale gateway timeout now jobs)

rows_claimed-absent :
    (jobs : List EdgeJob) (id : ℕ) → ¬ In id (ids jobs) → rows_claimed jobs id ≡ []
unfolding rows_claimed
rows_claimed-absent jobs id out = keep-nil _ jobs (All-intro _ jobs miss)
  where
    miss : (a : EdgeJob) → In a jobs → nat_beq a.id id && is_job_queued a.status ≡ false
    miss a m = elim (Bool-cases (nat_beq a.id id)) [
      | inl e ↦ absurd (
          out (
            subst (λ k. In k (ids jobs)) ((nat_beq_iff a.id id).0 e) (In-map (λ j. j.id) _ jobs m)))
      | inr e ↦ rw e refl
    ]

rows_claimed-head :
    (j : EdgeJob) (jobs : List EdgeJob)
    → ¬ In j.id (ids jobs)
    → is_job_queued j.status ≡ true
    → rows_claimed (j ∷ jobs) j.id ≡ j ∷ []
unfolding rows_claimed
rows_claimed-head j jobs out q =
    let hit : nat_beq j.id j.id && is_job_queued j.status ≡ true = ground arith in
    rw hit (ap (◌∷◌ j) (rows_claimed-absent jobs j.id out))

rows_claimed-tail :
    (j : EdgeJob) (jobs : List EdgeJob) (id : ℕ)
    → j.id ≢ id
    → rows_claimed (j ∷ jobs) id ≡ rows_claimed jobs id
unfolding rows_claimed
rows_claimed-tail j jobs id n =
    let miss : nat_beq j.id id && is_job_queued j.status ≡ false = ground arith in rw miss refl

-- The id of a queued row finds that row and no other.
pub rows_claimed-one :
    (jobs : List EdgeJob) (job : EdgeJob)
    → NoRepeats (ids jobs)
    → In job jobs
    → is_job_queued job.status ≡ true
    → rows_claimed jobs job.id ≡ job ∷ []
rows_claimed-one [] job u m q = elim m [ ]
rows_claimed-one (j ∷ jobs) job u (inl e) q =
    subst (λ (a : EdgeJob). rows_claimed (j ∷ jobs) a.id ≡ a ∷ []) (sym e)
      (rows_claimed-head j jobs u.0 (subst (λ (a : EdgeJob). is_job_queued a.status ≡ true) e q))
rows_claimed-one (j ∷ jobs) job u (inr m) q =
    rows_claimed-tail j jobs job.id
      (λ e. u.0 (subst (λ k. In k (ids jobs)) (sym e) (In-map (λ j. j.id) job jobs m)))
    ∙ rows_claimed-one jobs job u.1 m q

In-claim_row :
    (jobs : List EdgeJob) (job : EdgeJob) (now : ℕ)
    → In job jobs
    → is_job_queued job.status ≡ true
    → In (claimed_job now job) (claim_row jobs job.id now)
unfolding claim_row
In-claim_row jobs job now m q =
    subst (λ a. In a (claim_row jobs job.id now)) (ground arith)
      (In-map (λ a. if nat_beq a.id job.id && is_job_queued a.status then claimed_job now a else a)
        job jobs m)

-- What a pass leaves: either the rows after the stale claims were put back, of which none waits for
-- the gateway, or the job handed out as a claimed row with the time of the claim.
abbrev pub Served : String → ℕ → List EdgeJob → Db × Option EdgeJob → Type 0
Served gateway now waiting (db, none) =
    (db.jobs ≡ waiting) × All (λ j. is_waiting gateway j ≡ false) db.jobs
Served gateway now waiting (db, some job) =
    In (record job { status = JobStatus.claimed; claimed_at = some now }) db.jobs

claim_selected-Served :
    (gateway : String) (db : Db) (now : ℕ) (o : Option EdgeJob)
    → NoRepeats (ids db.jobs)
    → next_waiting gateway db.jobs ≡ o
    → Served gateway now db.jobs (claim_selected db o now)
unfolding claim_selected
claim_selected-Served gateway db now none u e = (refl, next_waiting-none gateway db.jobs e)
claim_selected-Served gateway db now (some job) u e =
    let (placed, waits, _) = next_waiting-some gateway db.jobs job e in
    let one : exactly_one (rows_claimed db.jobs job.id) ≡ true = reached placed waits in
    rw one (
      subst (In (claimed_job now job)) (sym (jobs-finish_claim _ job now))
        (In-claim_row db.jobs job now placed (queued_of_waiting waits)))
  where
    queued_of_waiting : is_waiting gateway job ≡ true → is_job_queued job.status ≡ true
    queued_of_waiting w = unfold is_waiting in ground arith

    reached :
        In job db.jobs
        → is_waiting gateway job ≡ true
        → exactly_one (rows_claimed db.jobs job.id) ≡ true
    reached m w =
        rw (rows_claimed-one db.jobs job u m (queued_of_waiting w)) (unfold exactly_one in refl)

-- With distinct ids, a poll that hands out nothing changes no job but for the stale claims that it
-- puts back, and leaves none waiting for the gateway; one that hands out a job has claimed its row.
pub claim_next_job_once-Served :
    (db : Db) (gateway : String) (timeout now : ℕ)
    → NoRepeats (ids db.jobs)
    → Served gateway now
        (requeue_stale gateway timeout now db.jobs)
        (claim_next_job_once db gateway timeout now)
unfolding claim_next_job_once
claim_next_job_once-Served db gateway timeout now u =
    claim_selected-Served gateway (record db { jobs = requeue_stale gateway timeout now db.jobs })
      now _ (subst NoRepeats (sym (ids-requeue_stale gateway timeout now db.jobs)) u) refl

-- A pass keeps the ids of the rows.
pub ids-claim_next_job_once :
    (db : Db) (gateway : String) (timeout now : ℕ)
    → ids (claim_next_job_once db gateway timeout now).0.jobs ≡ ids db.jobs
ids-claim_next_job_once db gateway timeout now =
    same db.jobs (claim_next_job_once db gateway timeout now).0.jobs
      (claim_next_job_once-RowKept db gateway timeout now)
  where
    same :
        (before after : List EdgeJob)
        → Pointwise (RowKept gateway) before after
        → ids after ≡ ids before
    same [] [] h = refl
    same (x ∷ xs) (y ∷ ys) (h, hs) = rw (h.identity.0, same xs ys hs) refl
    same [] (y ∷ ys) h = elim h [ ]
    same (x ∷ xs) [] h = elim h [ ]
