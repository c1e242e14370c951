-- ===== src/Cloud/Poll/Deadline.antt =====
-- A long poll is answered in time.
use iot_cloud_commissioning.Prelude.{
  ℕ, ◌+◌, ◌≤◌, ◌≡◌, refl, ap, Bool, true, false, ◌&&◌, ◌||◌, Option, none, some, List, [], ◌∷◌,
  String, arith, leb, le→leb, nat_beq, if◌then◌else◌, is_some, keep, length, string_eq, eq_self,
}
use iot_cloud_commissioning.Cloud.Http.{ok}
use iot_cloud_commissioning.Cloud.Db.{Db, EdgeJob}
use iot_cloud_commissioning.Cloud.Jobs.{claim_next_job_once}
use iot_cloud_commissioning.Cloud.Notifier.{CommandWaitNotifier, generation}
use iot_cloud_commissioning.Cloud.Poll.{
  Turn, Poll, Answer, wait_turn, answer, pass, poll_loop, claim_next_job,
}
use iot_cloud_commissioning.Cloud.Poll.Turns.{is_quiet, wait_turn_time}

module _ (instructed : ℕ → Bool) (canary : Bool) (gateway : String) (claim_timeout : ℕ) where
  seen_after :
      (deadline : ℕ) (turn : Turn) (p : Poll)
      → (wait_turn canary gateway deadline turn p).seen
        ≡ generation (wait_turn canary gateway deadline turn p).notifier gateway
  unfolding wait_turn
  seen_after deadline turn p = refl

  abbrev IsTimely : ℕ → Option Answer → Type 0
  IsTimely deadline o = (a : Answer) × (o ≡ some a) × (a.at ≤ deadline)

  poll_loop-is_some :
      (deadline : ℕ) (turns : List Turn) (p : Poll) (job : Option EdgeJob)
      → p.seen ≡ generation p.notifier gateway
      → p.now ≤ deadline
      → deadline ≤ p.now + length (keep (is_quiet gateway) turns)
      → IsTimely deadline (poll_loop instructed canary gateway claim_timeout deadline turns p job)
  unfolding poll_loop
  poll_loop-is_some deadline turns p (some job) seen low enough = (_, refl, low)
  poll_loop-is_some deadline [] p none seen low enough =
      (answer p.now (p.db, none), rw (le→leb deadline p.now (omega (arith, enough))) refl, low)
  poll_loop-is_some deadline (turn ∷ turns) p none seen low enough =
      by_time (leb deadline p.now) refl (canary && instructed q.now) (
        poll_loop-is_some deadline turns (record q { db = done.0 }) done.1
          (seen_after deadline turn p))
    where
      q : Poll
      q = wait_turn canary gateway deadline turn p

      done : Db × Option EdgeJob
      done = pass instructed canary gateway claim_timeout q.db q.now

      rest : Option Answer
      rest =
          poll_loop instructed canary gateway claim_timeout deadline turns
            (record q { db = done.0 }) done.1

      room :
          (b : Bool)
          → deadline
            ≤ p.now
              + length (
                  if b then turn ∷ keep (is_quiet gateway) turns else keep (is_quiet gateway) turns)
          → p.now + (if b then 1 else 0) ≤ q.now
          → deadline ≤ q.now + length (keep (is_quiet gateway) turns)
      room true e t = omega (arith, e, t)
      room false e t = omega (arith, e, t)

      by_time :
          (c : Bool)
          → leb deadline p.now ≡ c
          → (i : Bool)
          → (q.now ≤ deadline
              → deadline ≤ q.now + length (keep (is_quiet gateway) turns)
              → IsTimely deadline rest)
          → IsTimely deadline (
              if c
              then some (answer p.now (p.db, none))
              else if i
              then some (answer q.now done)
              else rest)
      by_time true e i ih = (_, refl, low)
      by_time false e true ih = (_, refl, (wait_turn_time canary gateway deadline turn p e seen).0)
      by_time false e false ih =
          let (most, least) = wait_turn_time canary gateway deadline turn p e seen in
          ih most (room (is_quiet gateway turn) enough least)

-- A long poll of a gateway with its own credential ends: once there have been as many turns without a
-- notification of the gateway as the poll may wait seconds, or more, the poll is answered, with a
-- last pass at the latest when that time is over.
pub claim_next_job-is_some :
    (instructed : ℕ → Bool) (canary : Bool) (gateway : String) (claim_timeout wait_seconds : ℕ)
    (turns : List Turn) (db : Db) (n : CommandWaitNotifier) (now : ℕ)
    → wait_seconds ≤ length (keep (is_quiet gateway) turns)
    → (a : Answer) × (claim_next_job instructed canary gateway claim_timeout gateway wait_seconds
          turns db n now
        ≡ ok (some a))
      × (a.at ≤ now + wait_seconds)
unfolding claim_next_job
claim_next_job-is_some instructed canary gateway claim_timeout wait_seconds turns db n now enough =
    let done = claim_next_job_once db gateway claim_timeout now in
    let p : Poll = record { db = done.0; notifier = n; now = now; seen = generation n gateway } in
    let (a, answered, timely) =
      poll_loop-is_some instructed canary gateway claim_timeout (now + wait_seconds) turns p done.1
        refl (omega arith) (omega (arith, enough)) in
    rw (eq_self gateway) (
      at_once (is_some done.1 || nat_beq wait_seconds 0) (answer now done)
        (poll_loop instructed canary gateway claim_timeout (now + wait_seconds) turns p done.1)
        (omega arith) (a, answered, timely))
  where
    at_once :
        (b : Bool) (first : Answer) (o : Option Answer)
        → first.at ≤ now + wait_seconds
        → (x : Answer) × (o ≡ some x) × (x.at ≤ now + wait_seconds)
        → (x : Answer) × (ok (if b then some first else o) ≡ ok (some x))
          × (x.at ≤ now + wait_seconds)
    at_once true first o low later = (first, refl, low)
    at_once false first o low (x, e, timely) = (x, ap ok e, timely)
