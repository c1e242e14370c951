-- ===== src/Cloud/Alerts/Deliveries.antt =====
-- The deliveries of an evaluation.
use iot_cloud_commissioning.Prelude.{
  ℕ, suc, ◌+◌, ◌≤◌, ◌≡◌, refl, Bool, true, false, List, [], ◌∷◌, ◌++◌, String, arith, ltb, is_some,
  or_else, if◌then◌else◌,
}
use iot_cloud_commissioning.Dict.{Dict, get}
use iot_cloud_commissioning.Cloud.Alerts.{
  gateway_offline, trend_backlog, AlertKey, key_eq, GatewayAlertState, EdgeNode, AlertSettings,
  AlertEvent, Evaluation, new_state, transition, nothing_pending, keep_state, acknowledge,
  hold_back, delivery, event_of, notify_pending, process_state, process, key_of, process_gateway,
  process_eligible, evaluate_alerts,
}

abbrev pub delivered_events : List AlertEvent → ℕ
delivered_events [] = 0
delivered_events (v ∷ vs) = (if v.delivered then 1 else 0) + delivered_events vs

-- Attempts within the limit, each a delivered event or a failure.
pub record IsLimited (settings : AlertSettings) (e : Evaluation) : Type 0 where
  pub within : e.deliveries_attempted ≤ settings.alert_max_deliveries_per_run
  pub accounted : delivered_events e.events + e.delivery_failures ≡ e.deliveries_attempted

delivered_events-append :
    (vs : List AlertEvent) (v : AlertEvent)
    → delivered_events (vs ++ v ∷ []) ≡ delivered_events vs + (if v.delivered then 1 else 0)
delivered_events-append [] v = omega arith
delivered_events-append (w ∷ vs) v = omega (arith, delivered_events-append vs v)

module _ (settings : AlertSettings) (webhook : ℕ → Bool) (now : ℕ) where
  notify_pending-IsLimited :
      (key : AlertKey) (site : String) (s : GatewayAlertState) (e : Evaluation)
      → IsLimited settings e
      → IsLimited settings (notify_pending settings webhook now key site s e)
  unfolding notify_pending
  notify_pending-IsLimited key site s e h = by_config settings.webhook_configured
    where
      unattempted : IsLimited settings (hold_back key site s e)
      unattempted = record {
        within = h.within;
        accounted =
            omega
              (arith, h.accounted, delivered_events-append e.events (event_of key site s false));
      }

      attempted :
          (delivered : Bool)
          → suc e.deliveries_attempted ≤ settings.alert_max_deliveries_per_run
          → IsLimited settings (delivery key site now s delivered e)
      attempted true below = record {
        within = below;
        accounted =
            omega (arith, h.accounted, delivered_events-append e.events (event_of key site s true));
      }
      attempted false below = record {
        within = below;
        accounted =
            omega
              (arith, h.accounted, delivered_events-append e.events (event_of key site s false));
      }

      by_limit :
          (below : Bool)
          → ltb e.deliveries_attempted settings.alert_max_deliveries_per_run ≡ below
          → IsLimited settings (elim below [
            | true ↦ delivery key site now s (webhook e.deliveries_attempted) e
            | false ↦ hold_back key site s e
          ])
      by_limit true t = attempted (webhook e.deliveries_attempted) (ground arith)
      by_limit false t = unattempted

      by_config :
          (configured : Bool)
          → IsLimited settings (elim configured [
            | false ↦ acknowledge key site now s e
            | true ↦ elim (ltb e.deliveries_attempted settings.alert_max_deliveries_per_run) [
              | true ↦ delivery key site now s (webhook e.deliveries_attempted) e
              | false ↦ hold_back key site s e
            ]
          ])
      by_config false = record { within = unattempted.within; accounted = unattempted.accounted }
      by_config true =
          by_limit (ltb e.deliveries_attempted settings.alert_max_deliveries_per_run) refl

  process-IsLimited :
      (key : AlertKey) (site : String) (condition : Bool) (e : Evaluation)
      → IsLimited settings e
      → IsLimited settings (process settings webhook now key site condition e)
  unfolding process process_state
  process-IsLimited key site condition e h =
      by_test (nothing_pending s) (notify_pending-IsLimited key site s e h)
    where
      s : GatewayAlertState
      s = transition condition now (or_else (get e.states key) new_state)

      by_test :
          (idle : Bool)
          → IsLimited settings (notify_pending settings webhook now key site s e)
          → IsLimited settings (elim idle [
            | true ↦ keep_state key s e
            | false ↦ notify_pending settings webhook now key site s e
          ])
      by_test true going = record { within = h.within; accounted = h.accounted }
      by_test false going = going

  process_eligible-IsLimited :
      (ns : List EdgeNode) (e : Evaluation)
      → IsLimited settings e
      → IsLimited settings (process_eligible settings webhook now ns e)
  unfolding process_eligible process_gateway
  process_eligible-IsLimited [] e h = h
  process_eligible-IsLimited (n ∷ ns) e h =
      by_test (is_some n.latest_heartbeat_at)
        (process_eligible-IsLimited ns (process_gateway settings webhook now n e) (
          process-IsLimited (key_of n trend_backlog) n.site_id _ _
            (process-IsLimited (key_of n gateway_offline) n.site_id _ e h)))
        (process_eligible-IsLimited ns e h)
    where
      by_test :
          (eligible : Bool)
          → IsLimited settings
              (process_eligible settings webhook now ns (process_gateway settings webhook now n e))
          → IsLimited settings (process_eligible settings webhook now ns e)
          → IsLimited settings (elim eligible [
            | true ↦
                process_eligible settings webhook now ns (process_gateway settings webhook now n e)
            | false ↦ process_eligible settings webhook now ns e
          ])
      by_test true a b = a
      by_test false a b = b

-- For any gateways, rows and answers of the webhook, an evaluation attempts at most
-- `alert_max_deliveries_per_run` deliveries, and each attempt is an event that is marked as
-- delivered or a counted failure.
pub evaluate_alerts-IsLimited :
    (settings : AlertSettings) (webhook : ℕ → Bool) (now : ℕ) (nodes : List EdgeNode)
    (states : Dict AlertKey GatewayAlertState)
    → IsLimited settings (evaluate_alerts settings webhook now nodes states)
unfolding evaluate_alerts
evaluate_alerts-IsLimited settings webhook now nodes states =
    process_eligible-IsLimited settings webhook now nodes _
      (record { within = omega arith; accounted = refl })
