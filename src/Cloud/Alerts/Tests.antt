-- ===== src/Cloud/Alerts/Tests.antt =====
-- Two gateways, of which one fell silent and one never spoke, and the theorems on them.
use iot_cloud_commissioning.Prelude.{
  ℕ, ◌≡◌, refl, Bool, true, false, none, some, List, [], ◌∷◌, map, String, arith, is_some, In,
  or_else, not, NoRepeats, inl, inr, length, eq_iff, string_eq,
}
use iot_cloud_commissioning.Dict.{get, put}
use iot_cloud_commissioning.Cloud.Http.{ok}
use iot_cloud_commissioning.Cloud.Access.{AdminAuthContext, require_admin_or_admin_token_auth}
use iot_cloud_commissioning.Cloud.Status.{StatusSettings, effective_status}
use iot_cloud_commissioning.Cloud.Alerts.{
  AlertType, gateway_offline, trend_backlog, AlertKey, key_eq, EdgeNode, AlertSettings, Evaluation,
  new_state, condition_of, key_of, evaluate_alerts, admin_evaluate_alerts,
}
use iot_cloud_commissioning.Cloud.Alerts.Pending.{IsUpdated, admin_evaluate_alerts-IsUpdated}
use iot_cloud_commissioning.Cloud.Alerts.Reports.{reports}
use iot_cloud_commissioning.Cloud.Alerts.Again.{evaluate_alerts_twice}
use iot_cloud_commissioning.Cloud.Alerts.Deliveries.{IsLimited, evaluate_alerts-IsLimited}

abbrev statuses : StatusSettings
statuses = record { gateway_stale_after_seconds = 120; gateway_offline_after_seconds = 300 }

abbrev settings : Bool → AlertSettings
settings configured = record {
  status = statuses;
  webhook_configured = configured;
  alert_max_deliveries_per_run = 1;
  alert_trend_backlog_age_hours = 6;
}

abbrev fell_silent : EdgeNode
fell_silent = record {
  gateway_id = "gw-1";
  site_id = "site";
  latest_heartbeat_at = some 100;
  trend_oldest_pending_at = some 50;
}

abbrev never_spoke : EdgeNode
never_spoke = record fell_silent { gateway_id = "gw-2"; latest_heartbeat_at = none }

abbrev nodes : List EdgeNode
nodes = fell_silent ∷ never_spoke ∷ []

abbrev webhook : ℕ → Bool
webhook n = true

abbrev token : AdminAuthContext
token = record { auth_type = "admin_token"; email = none; role = "admin"; operator_user_id = none }

unique_nodes : NoRepeats (map (λ n. n.gateway_id) nodes)
unique_nodes = (
  λ m. elim m [ inl e ↦ ground (arith, eq_iff {A = String} "gw-1" "gw-2") | inr n ↦ elim n [ ] ],
  (λ m. m, tt),
)

one_event : length (evaluate_alerts (settings true) webhook 1000 nodes []).events ≡ 1
unfolding evaluate_alerts effective_status get put
one_event = refl

may_evaluate : require_admin_or_admin_token_auth token ≡ ok token
unfolding require_admin_or_admin_token_auth
may_evaluate = refl

admin_evaluate_alerts-IsUpdated_example :
    (e : Evaluation) × (admin_evaluate_alerts (settings false) webhook 1000 token nodes [] ≡ ok e)
    × ((n : EdgeNode) (t : AlertType)
        → In n nodes
        → is_some n.latest_heartbeat_at ≡ true
        → IsUpdated
            (settings false)
            1000
            (condition_of (settings false) 1000 n t)
            (get [] (key_of n t))
            (get e.states (key_of n t)))
    × ((n : EdgeNode) (t : AlertType)
        → In n nodes
        → is_some n.latest_heartbeat_at ≡ false
        → get e.states (key_of n t) ≡ get [] (key_of n t))
admin_evaluate_alerts-IsUpdated_example =
    admin_evaluate_alerts-IsUpdated (settings false) webhook 1000 token nodes [] unique_nodes
      may_evaluate

same_conditions :
    (n : EdgeNode) (t : AlertType)
    → In n nodes
    → condition_of (settings false) 1100 n t ≡ condition_of (settings false) 1000 n t
unfolding effective_status
same_conditions n gateway_offline (inl e) = rw e refl
same_conditions n trend_backlog (inl e) = rw e refl
same_conditions n gateway_offline (inr (inl e)) = rw e refl
same_conditions n trend_backlog (inr (inl e)) = rw e refl
same_conditions n t (inr (inr m)) = elim m [ ]

evaluate_alerts_twice_example :
    let first = evaluate_alerts (settings false) webhook 1000 nodes [] in
    let second = evaluate_alerts (settings false) webhook 1100 nodes first.states in
    ((n : EdgeNode) (t : AlertType)
      → In n nodes
      → is_some n.latest_heartbeat_at ≡ true
      → (or_else (get [] (key_of n t)) new_state).active
        ≡ not (condition_of (settings false) 1000 n t)
      → reports (key_of n t) first.events ≡ 1)
    × (second.events ≡ [])
    × ((j : AlertKey) → get second.states j ≡ get first.states j)
evaluate_alerts_twice_example =
    evaluate_alerts_twice (settings false) webhook 1000 1100 nodes [] refl unique_nodes
      same_conditions

evaluate_alerts-IsLimited_example :
    IsLimited (settings true) (evaluate_alerts (settings true) webhook 1000 nodes [])
evaluate_alerts-IsLimited_example = evaluate_alerts-IsLimited (settings true) webhook 1000 nodes []
