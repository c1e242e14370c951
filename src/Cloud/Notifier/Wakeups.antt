-- ===== src/Cloud/Notifier/Wakeups.antt =====
-- No wake-up is lost between the look at the queue and the wait.
use iot_cloud_commissioning.Prelude.{
  ℕ, suc, ◌≤◌, ◌<◌, ◌≡◌, refl, ap, ◌∙◌, Bool, true, false, ◌||◌, Option, none, some, List, [], ◌∷◌,
  String, arith, any, nat_beq, nat_eq, nat_beq_iff, string_eq, ◌==◌, eq_iff, if◌then◌else◌,
  Bool-cases, inl, inr,
}
use iot_cloud_commissioning.Dict.{Dict, get, get-put, get-remove}
use iot_cloud_commissioning.Cloud.Notifier.{
  Waiter, CommandWaitNotifier, generation, wake, notify, start_wait, end_wait, Event, notifies,
  starts, ends, happens, run,
}

-- The event notifies the gateway.
abbrev pub is_notice : String → Event → Bool
is_notice gateway (notifies g) = g == gateway
is_notice gateway _ = false

abbrev pub ends_wait : ℕ → Event → Bool
ends_wait i (ends j woken) = nat_beq j i
ends_wait i _ = false

happens-generation-le :
    (n : CommandWaitNotifier) (e : Event) (gateway : String)
    → (generation n gateway ≤ generation (happens n e) gateway)
      × (is_notice gateway e ≡ true → generation n gateway < generation (happens n e) gateway)
unfolding happens notify start_wait end_wait generation
happens-generation-le n (notifies g) gateway =
    let at = get-put n.generations g gateway (suc (generation n g)) in
    (ground (arith, at, eq_iff g gateway), λ h. ground (arith, at, eq_iff g gateway))
happens-generation-le n (starts g seen) gateway = (ground arith, λ h. ground arith)
happens-generation-le n (ends i woken) gateway = (ground arith, λ h. ground arith)

run-generation-le :
    (es : List Event) (n : CommandWaitNotifier) (gateway : String)
    → (generation n gateway ≤ generation (run n es) gateway)
      × (any (is_notice gateway) es ≡ true → generation n gateway < generation (run n es) gateway)
unfolding run
run-generation-le [] n gateway = (ground arith, λ h. cc)
run-generation-le (e ∷ es) n gateway =
    let (here, strict) = happens-generation-le n e gateway in
    let (later, strictly) = run-generation-le es (happens n e) gateway in
    (omega (arith, here, later), λ h. either here strict later strictly h)
  where
    either :
        generation n gateway ≤ generation (happens n e) gateway
        → (is_notice gateway e ≡ true → generation n gateway < generation (happens n e) gateway)
        → generation (happens n e) gateway ≤ generation (run (happens n e) es) gateway
        → (any (is_notice gateway) es ≡ true
            → generation (happens n e) gateway < generation (run (happens n e) es) gateway)
        → is_notice gateway e || any (is_notice gateway) es ≡ true
        → generation n gateway < generation (run (happens n e) es) gateway
    either here strict later strictly h = elim (Bool-cases (is_notice gateway e)) [
      | inl t ↦ omega (arith, strict t, later)
      | inr f ↦ omega (arith, here, strictly (ground arith))
    ]

abbrev pub woken : String → Option Waiter → Option Waiter
woken gateway none = none
woken gateway (some w) = some (if w.gateway_id == gateway then record w { event_set = true } else w)

pub get-wake :
    (gateway : String) (ws : Dict ℕ Waiter) (i : ℕ)
    → get (wake gateway ws) i ≡ woken gateway (get ws i)
unfolding wake get
get-wake gateway [] i = refl
get-wake gateway ((j, w) ∷ ws) i = ground (arith, get-wake gateway ws i)

abbrev waiter_of : String → Bool → Option Waiter
waiter_of gateway b = some (record { gateway_id = gateway; event_set = b })

happens-waiter :
    (n : CommandWaitNotifier) (e : Event) (i : ℕ) (gateway : String) (b : Bool)
    → get n.waiters i ≡ waiter_of gateway b
    → i < n.next_waiter_id
    → ends_wait i e ≡ false
    → (get (happens n e).waiters i ≡ waiter_of gateway (b || is_notice gateway e))
      × (i < (happens n e).next_waiter_id)
unfolding happens notify start_wait end_wait
happens-waiter n (notifies g) i gateway b h l k = (
  get-wake g n.waiters i ∙ ap (woken g) h ∙ ground (arith, eq_iff g gateway, eq_iff gateway g),
  l,
)
happens-waiter n (starts g seen) i gateway b h l k =
    let at = get-put n.waiters n.next_waiter_id i (record { gateway_id = g; event_set = false }) in
    (ground (arith, at, h, nat_beq_iff n.next_waiter_id i), ground arith)
happens-waiter n (ends j by_event) i gateway b h l k = (get-remove n.waiters j i ∙ ground arith, l)

run-waiter :
    (es : List Event) (n : CommandWaitNotifier) (i : ℕ) (gateway : String) (b : Bool)
    → get n.waiters i ≡ waiter_of gateway b
    → i < n.next_waiter_id
    → any (ends_wait i) es ≡ false
    → get (run n es).waiters i ≡ waiter_of gateway (b || any (is_notice gateway) es)
unfolding run
run-waiter [] n i gateway b h l k = h ∙ ap (waiter_of gateway) (ground arith)
run-waiter (e ∷ es) n i gateway b h l k =
    let (here, later) = happens-waiter n e i gateway b h l (ground arith) in
    run-waiter es (happens n e) i gateway (b || is_notice gateway e) here later (ground arith)
    ∙ ap (waiter_of gateway) (ground arith)

-- If the gateway was notified after a poll read its generation, the wait returns at once.
pub start_wait-at_once :
    (n : CommandWaitNotifier) (gateway : String) (before : List Event)
    → any (is_notice gateway) before ≡ true
    → start_wait (run n before) gateway (generation n gateway) ≡ (run n before, none)
start_wait-at_once n gateway before h =
    passed (run n before) (generation n gateway) ((run-generation-le before n gateway).1 h)
  where
    passed :
        (m : CommandWaitNotifier) (seen : ℕ)
        → seen < generation m gateway
        → start_wait m gateway seen ≡ (m, none)
    passed m seen l = unfold start_wait in ground arith

-- If a poll waits, any notification of its gateway before the wait ends sets the poll's event,
-- whatever else happens.
pub start_wait-woken :
    (n : CommandWaitNotifier) (gateway : String) (seen i : ℕ) (after : List Event)
    → (start_wait n gateway seen).1 ≡ some i
    → any (is_notice gateway) after ≡ true
    → any (ends_wait i) after ≡ false
    → get (run (start_wait n gateway seen).0 after).waiters i
      ≡ some (record { gateway_id = gateway; event_set = true })
start_wait-woken n gateway seen i after e h k =
    let (new, low) = registered in
    run-waiter after (start_wait n gateway seen).0 i gateway false new low k
    ∙ ap (waiter_of gateway) h
  where
    registered :
        (get (start_wait n gateway seen).0.waiters i ≡ waiter_of gateway false)
        × (i < (start_wait n gateway seen).0.next_waiter_id)
    registered =
        unfold start_wait in
        (
          ground (
            arith,
            get-put n.waiters n.next_waiter_id i
                (record { gateway_id = gateway; event_set = false }),
            nat_beq_iff n.next_waiter_id i,
          ),
          ground arith,
        )
