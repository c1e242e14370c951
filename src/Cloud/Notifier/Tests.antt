-- ===== src/Cloud/Notifier/Tests.antt =====
-- A poll that is notified while it looks at the queue, and one that is notified while it waits.
use iot_cloud_commissioning.Prelude.{◌≡◌, refl, true, none, some, List, [], ◌∷◌, nat_eq, string_eq}
use iot_cloud_commissioning.Dict.{get, put}
use iot_cloud_commissioning.Cloud.Notifier.{
  CommandWaitNotifier, generation, start_wait, Event, notifies, starts, run, happens, notify, wake,
}

abbrev idle : CommandWaitNotifier
idle = record {
  generations = ("GW001", 4) ∷ [];
  next_waiter_id = 9;
  waiters = [];
  active_waits = 0;
  max_active_waits = 2;
  wake_count = 6;
  timeout_count = 1;
}

abbrev between : List Event
between = starts "GW002" 0 ∷ notifies "GW001" ∷ []

abbrev later : List Event
later = notifies "GW001" ∷ []

at_once : (start_wait (run idle between) "GW001" (generation idle "GW001")).1 ≡ none
unfolding start_wait run happens notify wake generation get put
at_once = refl

woken :
    get (run (start_wait idle "GW001" 4).0 later).waiters 9
    ≡ some (record { gateway_id = "GW001"; event_set = true })
unfolding start_wait run happens notify wake generation get put
woken = refl
