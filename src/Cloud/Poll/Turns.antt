-- ===== src/Cloud/Poll/Turns.antt =====
-- A wait that is not notified takes its whole time, and no wait goes beyond the deadline.
use iot_cloud_commissioning.Prelude.{
  ℕ, suc, ◌+◌, ◌-◌, ◌≤◌, ◌<◌, max, ◌≡◌, refl, sym, ap, subst, ◌∙◌, ◌⊎◌, inl, inr, Bool, true, false,
  not, ◌||◌, Option, none, some, List, [], ◌∷◌, String, arith, leb, nat_eq, nat_beq_iff,
  if◌then◌else◌, any, ◌==◌, string_eq, eq_iff,
}
use iot_cloud_commissioning.Dict.{get, put, remove, get-put, get-remove}
use iot_cloud_commissioning.Cloud.Notifier.{
  Waiter, CommandWaitNotifier, generation, wake, notify, start_wait, end_wait, Event, notifies,
  starts, ends, happens, run,
}
use iot_cloud_commissioning.Cloud.Notifier.Wakeups.{is_notice, woken, get-wake}
use iot_cloud_commissioning.Cloud.Poll.{
  Turn, Poll, is_set, finish_wait, wait_after, limit_of, duration, wait_turn,
}

generation-happens :
    (n : CommandWaitNotifier) (e : Event) (gateway : String)
    → is_notice gateway e ≡ false
    → generation (happens n e) gateway ≡ generation n gateway
unfolding happens notify start_wait end_wait generation
generation-happens n (notifies g) gateway h =
    let at = get-put n.generations g gateway (suc (generation n g)) in ground (arith, at)
generation-happens n (starts g seen) gateway h = ground arith
generation-happens n (ends i by_event) gateway h = refl

either_false : (a b : Bool) → (a || b) ≡ false → (a ≡ false) × (b ≡ false)
either_false true b h = cc h
either_false false b h = (refl, h)

pub generation-run :
    (es : List Event) (n : CommandWaitNotifier) (gateway : String)
    → any (is_notice gateway) es ≡ false
    → generation (run n es) gateway ≡ generation n gateway
unfolding run
generation-run [] n gateway h = refl
generation-run (e ∷ es) n gateway h =
    let (here, rest) = either_false (is_notice gateway e) (any (is_notice gateway) es) h in
    generation-run es (happens n e) gateway rest ∙ generation-happens n e gateway here

-- A waiter of the gateway that is not set, or is gone.
abbrev Sleeps : String → Option Waiter → Type 0
Sleeps gateway o = (o ≡ none) ⊎ (o ≡ some (record { gateway_id = gateway; event_set = false }))

is_set-Sleeps : (gateway : String) (o : Option Waiter) → Sleeps gateway o → is_set o ≡ false
is_set-Sleeps gateway o (inl e) = rw e refl
is_set-Sleeps gateway o (inr e) = rw e refl

happens-Sleeps :
    (n : CommandWaitNotifier) (e : Event) (i : ℕ) (gateway : String)
    → Sleeps gateway (get n.waiters i)
    → i < n.next_waiter_id
    → is_notice gateway e ≡ false
    → Sleeps gateway (get (happens n e).waiters i) × (i < (happens n e).next_waiter_id)
unfolding happens notify start_wait end_wait
happens-Sleeps n (notifies g) i gateway sleeps low h = (by_waiter sleeps, low)
  where
    by_waiter : Sleeps gateway (get n.waiters i) → Sleeps gateway (get (wake g n.waiters) i)
    by_waiter (inl e) = inl (get-wake g n.waiters i ∙ ap (woken g) e)
    by_waiter (inr e) = inr (
        get-wake g n.waiters i
        ∙ ap (woken g) e
        ∙ ground (arith, eq_iff g gateway, eq_iff gateway g))
happens-Sleeps n (starts g seen) i gateway (inl e) low h =
    let at = get-put n.waiters n.next_waiter_id i (record { gateway_id = g; event_set = false }) in
    (inl (ground (arith, at, e, nat_beq_iff n.next_waiter_id i)), ground arith)
happens-Sleeps n (starts g seen) i gateway (inr e) low h =
    let at = get-put n.waiters n.next_waiter_id i (record { gateway_id = g; event_set = false }) in
    (inr (ground (arith, at, e, nat_beq_iff n.next_waiter_id i)), ground arith)
happens-Sleeps n (ends j by_event) i gateway sleeps low h = (by_waiter sleeps, low)
  where
    gone :
        (b : Bool) (o : Option Waiter) → Sleeps gateway o → Sleeps gateway (if b then none else o)
    gone true o s = inl refl
    gone false o s = s

    by_waiter : Sleeps gateway (get n.waiters i) → Sleeps gateway (get (remove n.waiters j) i)
    by_waiter s =
        subst (Sleeps gateway) (sym (get-remove n.waiters j i)) (gone (j == i) (get n.waiters i) s)

run-Sleeps :
    (es : List Event) (n : CommandWaitNotifier) (i : ℕ) (gateway : String)
    → Sleeps gateway (get n.waiters i)
    → i < n.next_waiter_id
    → any (is_notice gateway) es ≡ false
    → Sleeps gateway (get (run n es).waiters i)
unfolding run
run-Sleeps [] n i gateway sleeps low h = sleeps
run-Sleeps (e ∷ es) n i gateway sleeps low h =
    let (here, rest) = either_false (is_notice gateway e) (any (is_notice gateway) es) h in
    let (sleeps', low') = happens-Sleeps n e i gateway sleeps low here in
    run-Sleeps es (happens n e) i gateway sleeps' low' rest

-- No notification of the gateway reaches the turn.
abbrev pub is_quiet : String → Turn → Bool
is_quiet gateway turn =
    not (any (is_notice gateway) turn.before || any (is_notice gateway) turn.during)

-- A wait that begins: its waiter is registered.
abbrev pub started : CommandWaitNotifier → String → CommandWaitNotifier
started n gateway = record n {
  waiters = put n.waiters n.next_waiter_id (record { gateway_id = gateway; event_set = false });
  next_waiter_id = suc n.next_waiter_id;
  active_waits = suc n.active_waits;
  max_active_waits = max n.max_active_waits (suc n.active_waits);
}

pub start_wait-started :
    (n : CommandWaitNotifier) (gateway : String)
    → start_wait n gateway (generation n gateway) ≡ (started n gateway, some n.next_waiter_id)
unfolding start_wait
start_wait-started n gateway =
    let same = (nat_beq_iff (generation n gateway) (generation n gateway)).1 refl in rw same refl

started-Sleeps :
    (n : CommandWaitNotifier) (gateway : String)
    → Sleeps gateway (get (started n gateway).waiters n.next_waiter_id)
started-Sleeps n gateway = inr (
    get-put n.waiters n.next_waiter_id n.next_waiter_id
      (record { gateway_id = gateway; event_set = false })
    ∙ ground (arith, nat_beq_iff n.next_waiter_id n.next_waiter_id))

-- A wait in a quiet turn is not woken.
wait_after_quiet :
    (n : CommandWaitNotifier) (gateway : String) (turn : Turn)
    → is_quiet gateway turn ≡ true
    → (wait_after (run n turn.before) gateway (generation n gateway) turn.during).1 ≡ false
unfolding wait_after
wait_after_quiet n gateway turn h =
    let m = run n turn.before in
    let (quiet_before, quiet_during) =
      either_false (any (is_notice gateway) turn.before) (any (is_notice gateway) turn.during)
        (ground (arith, h)) in
    let same = generation-run turn.before n gateway quiet_before in
    ap (λ seen. (wait_after m gateway seen turn.during).1) (sym same)
    ∙ ap (λ r. (finish_wait turn.during r).1) (start_wait-started m gateway)
    ∙ is_set-Sleeps gateway _ (
        run-Sleeps turn.during (started m gateway) m.next_waiter_id gateway
          (started-Sleeps m gateway) (omega arith) quiet_during)

-- How a turn moves the clock before the deadline.
pub wait_turn_time :
    (canary : Bool) (gateway : String) (deadline : ℕ) (turn : Turn) (p : Poll)
    → leb deadline p.now ≡ false
    → p.seen ≡ generation p.notifier gateway
    → ((wait_turn canary gateway deadline turn p).now ≤ deadline)
      × (p.now + (if is_quiet gateway turn then 1 else 0)
          ≤ (wait_turn canary gateway deadline turn p).now)
unfolding wait_turn
wait_turn_time canary gateway deadline turn p open_still seen =
    let woken' = (wait_after (run p.notifier turn.before) gateway p.seen turn.during).1 in
    by_quiet (is_quiet gateway turn) refl woken' refl
  where
    left : ℕ
    left = deadline - p.now

    limits : (c : Bool) → (limit_of c left ≤ left) × (1 ≤ limit_of c left)
    limits true = (ground (arith, open_still), ground (arith, open_still))
    limits false = (ground (arith, open_still), ground (arith, open_still))

    by_quiet :
        (quiet : Bool)
        → is_quiet gateway turn ≡ quiet
        → (w : Bool) → (wait_after (run p.notifier turn.before) gateway p.seen turn.during).1 ≡ w
        → (p.now + duration (limit_of canary left) turn.elapsed w ≤ deadline)
          × (p.now + (if quiet then 1 else 0)
              ≤ p.now + duration (limit_of canary left) turn.elapsed w)
    by_quiet q e false f =
        let (most, least) = limits canary in
        (ground (arith, open_still, most, least), ground (arith, open_still, most, least))
    by_quiet false e true f =
        let (most, least) = limits canary in (ground (arith, open_still, most, least), omega arith)
    by_quiet true e true f = absurd (
        never (
          sym f
          ∙ ap (λ s. (wait_after (run p.notifier turn.before) gateway s turn.during).1) seen
          ∙ wait_after_quiet p.notifier gateway turn e))
      where
        never : true ≡ false → ⊥
        never h = cc h
