-- ===== src/Cloud/Poll/Notices.antt =====
-- A notification of the gateway ends the wait of its poll, also when it comes before the wait.
use iot_cloud_commissioning.Prelude.{
  ℕ, ◌+◌, ◌-◌, ◌≤◌, ◌≡◌, sym, ap, ◌∙◌, inl, inr, Bool, true, false, ◌||◌, String, arith, any,
  Bool-cases, nat_eq,
}
use iot_cloud_commissioning.Dict.{get}
use iot_cloud_commissioning.Cloud.Notifier.{CommandWaitNotifier, generation, run}
use iot_cloud_commissioning.Cloud.Notifier.Wakeups.{
  is_notice, ends_wait, start_wait-at_once, start_wait-woken,
}
use iot_cloud_commissioning.Cloud.Poll.{
  Turn, Poll, is_set, finish_wait, wait_after, duration, limit_of, wait_turn,
}
use iot_cloud_commissioning.Cloud.Poll.Turns.{start_wait-started, generation-run}

abbrev pub is_notified : String → Turn → Bool
is_notified gateway turn =
    any (is_notice gateway) turn.before || any (is_notice gateway) turn.during

wait_after_notified :
    (n : CommandWaitNotifier) (gateway : String) (turn : Turn)
    → is_notified gateway turn ≡ true
    → any (ends_wait (run n turn.before).next_waiter_id) turn.during ≡ false
    → (wait_after (run n turn.before) gateway (generation n gateway) turn.during).1 ≡ true
unfolding wait_after finish_wait
wait_after_notified n gateway turn h own = elim (Bool-cases (any (is_notice gateway) turn.before)) [
  | inl early ↦
      ap (λ r. (finish_wait turn.during r).1) (start_wait-at_once n gateway turn.before early)
  | inr late ↦
      let m = run n turn.before in
      let begun = start_wait-started m gateway in
      ap (λ seen. (wait_after m gateway seen turn.during).1)
        (sym (generation-run turn.before n gateway late))
      ∙ ap (λ r. (finish_wait turn.during r).1) begun
      ∙ ap (λ (z : CommandWaitNotifier). is_set (get (run z turn.during).waiters m.next_waiter_id))
          (sym (ap (λ r. r.0) begun))
      ∙ ap is_set (
          start_wait-woken m gateway (generation m gateway) m.next_waiter_id turn.during
            (ap (λ r. r.1) begun) (ground (arith, h, late)) own)
]

-- No wake-up of a long poll is lost: if the gateway is notified after the poll read its generation,
-- before its wait or while that lasts, and nobody else ends the wait, then the next pass comes as
-- soon as the poll is woken, and not when the wait has run out.
pub wait_turn_notified :
    (canary : Bool) (gateway : String) (deadline : ℕ) (turn : Turn) (p : Poll)
    → p.seen ≡ generation p.notifier gateway
    → is_notified gateway turn ≡ true
    → any (ends_wait (run p.notifier turn.before).next_waiter_id) turn.during ≡ false
    → (wait_turn canary gateway deadline turn p).now ≤ p.now + turn.elapsed
unfolding wait_turn
wait_turn_notified canary gateway deadline turn p seen notified own =
    by_wait (wait_after (run p.notifier turn.before) gateway p.seen turn.during).1 (
      ap (λ s. (wait_after (run p.notifier turn.before) gateway s turn.during).1) seen
      ∙ wait_after_notified p.notifier gateway turn notified own)
  where
    by_wait :
        (w : Bool)
        → w ≡ true
        → p.now + duration (limit_of canary (deadline - p.now)) turn.elapsed w
          ≤ p.now + turn.elapsed
    by_wait true e = omega arith
    by_wait false e = cc e
