-- ===== src/Cloud/Notifier.antt =====
-- `CommandWaitNotifier` of cloud-api/app/main.py, which wakes the long polls of a gateway. What
-- the lock covers is one step. A waiter is its id with its gateway and whether its event is set;
-- `call_soon_threadsafe(event.set)` counts as the setting of the event.
pub mod Wakeups
mod Tests
use iot_cloud_commissioning.Prelude.{
  ℕ, zero, suc, ◌+◌, ◌-◌, Bool, true, false, not, ◌||◌, Option, none, some, List, [], ◌∷◌, String,
  map, max, nat_beq, nat_eq, string_eq, ◌==◌, if◌then◌else◌, or_else,
}
use iot_cloud_commissioning.Dict.{Dict, get, put, remove}

pub record Waiter : Type 0 where
  pub gateway_id : String
  pub event_set : Bool

pub record CommandWaitNotifier : Type 0 where
  pub generations : Dict String ℕ
  pub next_waiter_id : ℕ
  pub waiters : Dict ℕ Waiter
  pub active_waits : ℕ
  pub max_active_waits : ℕ
  pub wake_count : ℕ
  pub timeout_count : ℕ

unfoldable pub generation : CommandWaitNotifier → String → ℕ
generation n gateway = or_else (get n.generations gateway) 0

-- `event.set` for the waiters of the gateway.
unfoldable pub wake : String → Dict ℕ Waiter → Dict ℕ Waiter
wake gateway [] = []
wake gateway ((i, w) ∷ ws) =
    (i, (if w.gateway_id == gateway then record w { event_set = true } else w)) ∷ wake gateway ws

unfoldable pub notify : CommandWaitNotifier → String → CommandWaitNotifier
unfolding generation wake
notify n gateway = record n {
  generations = put n.generations gateway (suc (generation n gateway));
  waiters = wake gateway n.waiters;
}

-- `wait_after` up to its await: `none` is the return for a generation that has passed.
unfoldable pub start_wait : CommandWaitNotifier → String → ℕ → CommandWaitNotifier × Option ℕ
unfolding generation
start_wait n gateway seen = if not (nat_beq (generation n gateway) seen) then (n, none) else (
  record n {
    waiters = put n.waiters n.next_waiter_id (record { gateway_id = gateway; event_set = false });
    next_waiter_id = suc n.next_waiter_id;
    active_waits = suc n.active_waits;
    max_active_waits = max n.max_active_waits (suc n.active_waits);
  },
  some n.next_waiter_id,
)

-- The end of the await, by the event or by the time-out, and the `finally`.
unfoldable pub end_wait : CommandWaitNotifier → ℕ → Bool → CommandWaitNotifier
end_wait n waiter_id woken = record n {
  waiters = remove n.waiters waiter_id;
  active_waits = n.active_waits - 1;
  wake_count = if woken then suc n.wake_count else n.wake_count;
  timeout_count = if woken then n.timeout_count else suc n.timeout_count;
}

pub data Event : Type 0 where
  notifies : String → Event
  starts : String → ℕ → Event
  ends : ℕ → Bool → Event

unfoldable pub happens : CommandWaitNotifier → Event → CommandWaitNotifier
unfolding notify start_wait end_wait
happens n (notifies gateway) = notify n gateway
happens n (starts gateway seen) = (start_wait n gateway seen).0
happens n (ends waiter_id woken) = end_wait n waiter_id woken

unfoldable pub run : CommandWaitNotifier → List Event → CommandWaitNotifier
unfolding happens
run n [] = n
run n (e ∷ es) = run (happens n e) es
