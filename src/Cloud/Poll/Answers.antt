-- ===== src/Cloud/Poll/Answers.antt =====
-- What a long poll is answered with.
use iot_cloud_commissioning.Prelude.{
  ℕ, ◌+◌, ◌≤◌, ◌≡◌, refl, sym, ap, subst, ◌∙◌, ◌⊎◌, inl, inr, Bool, true, false, not, ◌&&◌, ◌||◌,
  Option, none, some, List, [], ◌∷◌, String, arith, leb, leb→le, nat_beq, nat_beq_iff,
  if◌then◌else◌, is_some, All, NoRepeats, ◌==◌, string_eq,
}
use iot_cloud_commissioning.Cloud.Http.{ok, refuse_if, >>=-eq-ok, ok-injective}
use iot_cloud_commissioning.Cloud.Db.{Db, EdgeJob}
use iot_cloud_commissioning.Cloud.Jobs.{requeue_stale, claim_next_job_once}
use iot_cloud_commissioning.Cloud.Jobs.Total.{
  ids, Served, claim_next_job_once-Served, ids-claim_next_job_once,
}
use iot_cloud_commissioning.Cloud.Notifier.{CommandWaitNotifier, generation}
use iot_cloud_commissioning.Cloud.Poll.{
  Turn, Poll, Answer, wait_turn, answer, pass, poll_loop, claim_next_job,
}

some-injective : {A : Type 0} {a b : A} → some a ≡ some b → a ≡ b
some-injective e = ground arith

-- What others do to the database keeps the primary keys apart.
abbrev pub KeepsKeys : Turn → Type 0
KeepsKeys turn = (db : Db) → NoRepeats (ids db.jobs) → NoRepeats (ids (turn.outside db).jobs)

module _ (instructed : ℕ → Bool) (canary : Bool) (gateway : String) (claim_timeout : ℕ) where
  -- The answer is that of a pass at its time, which left nothing waiting or claimed the job that
  -- it hands out; without a job the poll is over, or the gateway is told to open a tunnel.
  abbrev pub IsServed : ℕ → Answer → Type 0
  IsServed deadline a =
      (db : Db) × (claim_next_job_once db gateway claim_timeout a.at ≡ (a.db, a.job))
      × Served gateway a.at (requeue_stale gateway claim_timeout a.at db.jobs) (a.db, a.job)
      × ((is_some a.job ≡ true) ⊎ ((deadline ≤ a.at) ⊎ (canary && instructed a.at ≡ true)))

  served :
      (deadline now : ℕ) (db after : Db) (job : Option EdgeJob)
      → NoRepeats (ids db.jobs)
      → claim_next_job_once db gateway claim_timeout now ≡ (after, job)
      → ((is_some job ≡ true) ⊎ ((deadline ≤ now) ⊎ (canary && instructed now ≡ true)))
      → IsServed deadline (answer now (after, job))
  served deadline now db after job keys made why = (
    db,
    made,
    subst (Served gateway now (requeue_stale gateway claim_timeout now db.jobs)) made
        (claim_next_job_once-Served db gateway claim_timeout now keys),
    why,
  )

  -- The loop, from the pass that came before it.
  poll_loop-IsServed :
      (deadline : ℕ) (turns : List Turn) (p : Poll) (job : Option EdgeJob) (db : Db) (a : Answer)
      → NoRepeats (ids db.jobs)
      → claim_next_job_once db gateway claim_timeout p.now ≡ (p.db, job)
      → All KeepsKeys turns
      → poll_loop instructed canary gateway claim_timeout deadline turns p job ≡ some a
      → IsServed deadline a
  unfolding poll_loop
  poll_loop-IsServed deadline turns p (some job) db a keys made keep_keys e =
      subst (IsServed deadline) (some-injective e)
        (served deadline p.now db p.db (some job) keys made (inl refl))
  poll_loop-IsServed deadline [] p none db a keys made keep_keys e =
      by_time (leb deadline p.now) refl e
    where
      by_time :
          (c : Bool)
          → leb deadline p.now ≡ c
          → (if c then some (answer p.now (p.db, none)) else none) ≡ some a
          → IsServed deadline a
      by_time true t e =
          subst (IsServed deadline) (some-injective e)
            (served deadline p.now db p.db none keys made (inr (inl (leb→le deadline p.now t))))
      by_time false t e = cc e
  poll_loop-IsServed deadline (turn ∷ turns) p none db a keys made (keeps, keep_keys) e =
      by_time (leb deadline p.now) refl (canary && instructed q.now) refl e (
        poll_loop-IsServed deadline turns (record q { db = done.0 }) done.1 q.db a fresh refl
          keep_keys)
    where
      q : Poll
      q = wait_turn canary gateway deadline turn p

      done : Db × Option EdgeJob
      done = pass instructed canary gateway claim_timeout q.db q.now

      rest : Option Answer
      rest =
          poll_loop instructed canary gateway claim_timeout deadline turns
            (record q { db = done.0 }) done.1

      kept : NoRepeats (ids p.db.jobs)
      kept =
          subst NoRepeats
            (sym (ids-claim_next_job_once db gateway claim_timeout p.now)
              ∙ ap (λ (r : Db × Option EdgeJob). ids r.0.jobs) made)
            keys

      fresh : NoRepeats (ids q.db.jobs)
      fresh = unfold wait_turn in keeps p.db kept

      by_time :
          (c : Bool)
          → leb deadline p.now ≡ c
          → (i : Bool) → (canary && instructed q.now) ≡ i
          → (if c
              then some (answer p.now (p.db, none))
              else if i
              then some (answer q.now done)
              else rest)
            ≡ some a
          → (rest ≡ some a → IsServed deadline a)
          → IsServed deadline a
      by_time true t i told e ih =
          subst (IsServed deadline) (some-injective e)
            (served deadline p.now db p.db none keys made (inr (inl (leb→le deadline p.now t))))
      by_time false t true told e ih =
          subst (IsServed deadline) (some-injective e)
            (served deadline q.now q.db done.0 done.1 fresh refl (inr (inr told)))
      by_time false t false told e ih = ih e

-- What a long poll answers is what its last pass found: without a job, nothing waited for the
-- gateway in the database of that pass, and either the time of the poll was over or the gateway is
-- in the canary and told to open a tunnel; with a job, its row is claimed. It holds when primary
-- keys are distinct, and stay so whatever others commit.
pub claim_next_job-IsServed :
    (instructed : ℕ → Bool) (canary : Bool) (gateway : String) (claim_timeout wait_seconds : ℕ)
    (turns : List Turn) (db : Db) (n : CommandWaitNotifier) (now : ℕ) (caller : String) (a : Answer)
    → NoRepeats (ids db.jobs)
    → All KeepsKeys turns
    → claim_next_job instructed canary gateway claim_timeout caller wait_seconds turns db n now
      ≡ ok (some a)
    → IsServed instructed canary gateway claim_timeout (now + wait_seconds) a
unfolding claim_next_job
claim_next_job-IsServed instructed canary gateway claim_timeout wait_seconds turns db n now caller a
      keys keep_keys e =
    let (_, mine, e1) =
      >>=-eq-ok (refuse_if (not (caller == gateway)) 403 mismatch)
        (λ _.
          ok (if is_some done.1 || nat_beq wait_seconds 0 then some (answer now done) else looped))
        e in
    at_once (is_some done.1 || nat_beq wait_seconds 0) refl (ok-injective e1)
  where
    mismatch : String
    mismatch = "Gateway credential does not match requested gateway_id"

    done : Db × Option EdgeJob
    done = claim_next_job_once db gateway claim_timeout now

    p : Poll
    p = record { db = done.0; notifier = n; now = now; seen = generation n gateway }

    looped : Option Answer
    looped = poll_loop instructed canary gateway claim_timeout (now + wait_seconds) turns p done.1

    reason :
        (b : Bool)
        → (b || nat_beq wait_seconds 0) ≡ true
        → (b ≡ true) ⊎ ((now + wait_seconds ≤ now) ⊎ (canary && instructed now ≡ true))
    reason true h = inl refl
    reason false h = inr (inl (ground (arith, nat_beq_iff wait_seconds 0)))

    at_once :
        (b : Bool)
        → (is_some done.1 || nat_beq wait_seconds 0) ≡ b
        → (if b then some (answer now done) else looped) ≡ some a
        → IsServed instructed canary gateway claim_timeout (now + wait_seconds) a
    at_once true h e =
        subst (IsServed instructed canary gateway claim_timeout (now + wait_seconds))
          (some-injective e)
          (served instructed canary gateway claim_timeout (now + wait_seconds) now db done.0 done.1
            keys refl (reason (is_some done.1) h))
    at_once false h e =
        poll_loop-IsServed instructed canary gateway claim_timeout (now + wait_seconds) turns p
          done.1 db a keys refl keep_keys e
