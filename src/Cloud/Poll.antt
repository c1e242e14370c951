-- ===== src/Cloud/Poll.antt =====
-- The long poll of a gateway, `claim_next_job` of cloud-api/app/main.py, with
-- `CommandWaitNotifier.wait_after`. One turn of its loop is a wait and a pass over the database. What
-- the rest of the service does meanwhile is given with the turn: the calls of the notifier before the
-- wait begins and while it lasts, how long the wait takes if it is woken, and what others commit to
-- the database before the pass. Times are whole seconds; a pass takes none.
pub mod Turns
pub mod Notices
pub mod Deadline
pub mod Answers
mod Tests
use iot_cloud_commissioning.Prelude.{
  ℕ, ◌+◌, ◌-◌, min, Bool, true, false, not, ◌&&◌, ◌||◌, Option, none, some, List, [], ◌∷◌, String,
  leb, nat_beq, nat_eq, is_some, if◌then◌else◌, ◌==◌, string_eq,
}
use iot_cloud_commissioning.Dict.{get}
use iot_cloud_commissioning.Cloud.Http.{Response, ok, refuse_if, ◌>>=◌, ◌>>◌}
use iot_cloud_commissioning.Cloud.Db.{Db, EdgeJob}
use iot_cloud_commissioning.Cloud.Jobs.{claim_next_job_once}
use iot_cloud_commissioning.Cloud.Notifier.{
  Waiter, CommandWaitNotifier, generation, start_wait, end_wait, Event, run,
}

pub record Turn : Type 0 where
  pub before : List Event
  pub during : List Event
  pub elapsed : ℕ
  pub outside : Db → Db

-- The local variables of the handler, with the shared notifier and the database.
pub record Poll : Type 0 where
  pub db : Db
  pub notifier : CommandWaitNotifier
  pub now : ℕ
  pub seen : ℕ

-- What the handler answers, and the time of its last pass.
pub record Answer : Type 0 where
  pub db : Db
  pub job : Option EdgeJob
  pub at : ℕ

abbrev pub recheck_seconds : ℕ
recheck_seconds = 10

abbrev pub is_set : Option Waiter → Bool
is_set none = false
is_set (some w) = w.event_set

-- `wait_after` from where it has looked at the generation.
unfoldable pub finish_wait :
    List Event → CommandWaitNotifier × Option ℕ → CommandWaitNotifier × Bool
finish_wait during (n, none) = (n, true)
finish_wait during (n, some waiter_id) =
    let n' = run n during in
    let woken = is_set (get n'.waiters waiter_id) in (end_wait n' waiter_id woken, woken)

unfoldable pub wait_after :
    CommandWaitNotifier → String → ℕ → List Event → CommandWaitNotifier × Bool
unfolding finish_wait
wait_after n gateway seen during = finish_wait during (start_wait n gateway seen)

abbrev pub limit_of : Bool → ℕ → ℕ
limit_of canary_relay remaining = if canary_relay then min remaining recheck_seconds else remaining

abbrev pub duration : ℕ → ℕ → Bool → ℕ
duration limit elapsed woken = if woken then min elapsed limit else limit

abbrev pub answer : ℕ → Db × Option EdgeJob → Answer
answer now (db, job) = record { db = db; job = job; at = now }

module _ (canary_relay : Bool) (gateway : String) where
  -- The wait of a turn, with the generation that is read after it.
  abbrev pub waited : ℕ → Turn → Poll → CommandWaitNotifier × Bool → Poll
  waited deadline turn p (n, woken) = record {
    db = turn.outside p.db;
    notifier = n;
    now = p.now + duration (limit_of canary_relay (deadline - p.now)) turn.elapsed woken;
    seen = generation n gateway;
  }

  unfoldable pub wait_turn : ℕ → Turn → Poll → Poll
  unfolding wait_after
  wait_turn deadline turn p =
      waited deadline turn p (wait_after (run p.notifier turn.before) gateway p.seen turn.during)

module _ (instructed : ℕ → Bool) (canary_relay : Bool) (gateway : String) (claim_timeout : ℕ) where
  abbrev pub pass : Db → ℕ → Db × Option EdgeJob
  pass db now = claim_next_job_once db gateway claim_timeout now

  -- The loop after a pass. The script of turns may end before the loop does: then it is `none`.
  unfoldable pub poll_loop : ℕ → List Turn → Poll → Option EdgeJob → Option Answer
  unfolding wait_turn
  poll_loop deadline turns p (some job) = some (answer p.now (p.db, some job))
  poll_loop deadline [] p none =
      if leb deadline p.now then some (answer p.now (p.db, none)) else none
  poll_loop deadline (turn ∷ turns) p none =
      let q = wait_turn canary_relay gateway deadline turn p in
      let (db, job) = pass q.db q.now in
      let rest = poll_loop deadline turns (record q { db = db }) job in
      if leb deadline p.now
      then some (answer p.now (p.db, none))
      else if canary_relay && instructed q.now
      then some (answer q.now (db, job))
      else rest

  -- The handler, up to the `deadline` that `wait_seconds` gives; `instructed` tells at which times the
  -- header `X-IOT-Tunnel-Requested` of a pass is "true".
  unfoldable pub claim_next_job :
      String → ℕ → List Turn → Db → CommandWaitNotifier → ℕ → Response (Option Answer)
  unfolding poll_loop
  claim_next_job caller wait_seconds turns db n now =
      refuse_if (not (caller == gateway)) 403
        "Gateway credential does not match requested gateway_id"
      >> (let (db', job) = pass db now in
          let p : Poll = record {
            db = db';
            notifier = n;
            now = now;
            seen = generation n gateway;
          } in
          ok (
            if is_some job || nat_beq wait_seconds 0
            then some (answer now (db', job))
            else poll_loop (now + wait_seconds) turns p job))
