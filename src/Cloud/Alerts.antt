-- ===== src/Cloud/Alerts.antt =====
-- Fleet alerts, `admin_evaluate_alerts` of cloud-api/app/main.py, on the rows of
-- gateway_alert_states. A gateway and an alert type are unique in that table, so it is a
-- dictionary under the two. `webhook` is what the n-th delivery of a run ends with, so a run asks
-- it only for deliveries that it makes. The texts of messages and the column `updated_at` are left
-- out. Gateways come in the order of the query.
mod Rows
pub mod Pending
pub mod Reports
pub mod Again
pub mod Deliveries
mod Tests
use iot_cloud_commissioning.Prelude.{
  ℕ, suc, ◌+◌, ◌*◌, Bool, true, false, not, ◌&&◌, ◌||◌, Option, none, some, List, [], ◌∷◌, ◌++◌,
  String, ltb, if◌then◌else◌, is_none, is_some, or_else, Eq, ◌==◌, string_eq, ◌↔◌, ◌≡◌, arith,
  eq_iff,
}
use iot_cloud_commissioning.Dict.{Dict, get, put}
use iot_cloud_commissioning.Cloud.Http.{Response, ok, ◌>>=◌}
use iot_cloud_commissioning.Cloud.Access.{AdminAuthContext, require_admin_or_admin_token_auth}
use iot_cloud_commissioning.Cloud.Status.{StatusSettings, effective_status, is_offline}

pub data AlertType : Type 0 where
  gateway_offline trend_backlog : AlertType

pub record AlertKey : Type 0 where
  pub gateway_id : String
  pub alert_type : AlertType

abbrev pub same_type : AlertType → AlertType → Bool
same_type gateway_offline gateway_offline = true
same_type trend_backlog trend_backlog = true
same_type _ _ = false

same_type_iff : (a b : AlertType) → (same_type a b ≡ true) ↔ (a ≡ b)
same_type_iff gateway_offline gateway_offline = ground arith
same_type_iff gateway_offline trend_backlog = ground arith
same_type_iff trend_backlog gateway_offline = ground arith
same_type_iff trend_backlog trend_backlog = ground arith

abbrev pub same_key : AlertKey → AlertKey → Bool
same_key a b = a.gateway_id == b.gateway_id && same_type a.alert_type b.alert_type

pub same_key_iff : (a b : AlertKey) → (same_key a b ≡ true) ↔ (a ≡ b)
same_key_iff a b =
    ground (arith, eq_iff a.gateway_id b.gateway_id, same_type_iff a.alert_type b.alert_type)

instance abbrev pub key_eq : Eq AlertKey
key_eq = record { eqb = same_key; eqb_iff = same_key_iff }

pub record GatewayAlertState : Type 0 where
  pub active : Bool
  pub last_transition_at : Option ℕ
  pub last_notified_at : Option ℕ

-- The columns of `EdgeNode` that are looked at.
pub record EdgeNode : Type 0 where
  pub gateway_id : String
  pub site_id : String
  pub latest_heartbeat_at : Option ℕ
  pub trend_oldest_pending_at : Option ℕ

pub record AlertSettings : Type 0 where
  pub status : StatusSettings
  pub webhook_configured : Bool
  pub alert_max_deliveries_per_run : ℕ
  pub alert_trend_backlog_age_hours : ℕ

-- An entry of `events`; the type of the event is the alert type, with `_recovered` when the
-- condition is over.
pub record AlertEvent : Type 0 where
  pub key : AlertKey
  pub recovered : Bool
  pub site_id : String
  pub occurred_at : Option ℕ
  pub delivered : Bool

-- The variables that `process` changes.
pub record Evaluation : Type 0 where
  pub states : Dict AlertKey GatewayAlertState
  pub events : List AlertEvent
  pub delivery_failures : ℕ
  pub deliveries_attempted : ℕ

abbrev pub new_state : GatewayAlertState
new_state = record { active = false; last_transition_at = none; last_notified_at = none }

abbrev pub differs : Bool → Bool → Bool
differs true b = not b
differs false b = b

unfoldable pub transition : Bool → ℕ → GatewayAlertState → GatewayAlertState
transition condition now s =
    if differs condition s.active
    then record { active = condition; last_transition_at = some now; last_notified_at = none }
    else s

abbrev pub nothing_pending : GatewayAlertState → Bool
nothing_pending s = is_none s.last_transition_at || is_some s.last_notified_at

abbrev pub notified : ℕ → GatewayAlertState → GatewayAlertState
notified now s = record s { last_notified_at = some now }

abbrev pub event_of : AlertKey → String → GatewayAlertState → Bool → AlertEvent
event_of key site s delivered = record {
  key = key;
  recovered = not s.active;
  site_id = site;
  occurred_at = s.last_transition_at;
  delivered = delivered;
}

-- The row is in the session from the moment that it is looked up.
abbrev pub keep_state : AlertKey → GatewayAlertState → Evaluation → Evaluation
keep_state key s e = record e { states = put e.states key s }

-- No webhook: the transition is acknowledged silently.
unfoldable pub acknowledge : AlertKey → String → ℕ → GatewayAlertState → Evaluation → Evaluation
acknowledge key site now s e = record e {
  states = put e.states key (notified now s);
  events = e.events ++ event_of key site s false ∷ [];
}

-- Over the limit: the transition stays pending and is reported only.
unfoldable pub hold_back : AlertKey → String → GatewayAlertState → Evaluation → Evaluation
hold_back key site s e = record e {
  states = put e.states key s;
  events = e.events ++ event_of key site s false ∷ [];
}

unfoldable pub delivery : AlertKey → String → ℕ → GatewayAlertState → Bool → Evaluation → Evaluation
delivery key site now s true e = record e {
  deliveries_attempted = suc e.deliveries_attempted;
  states = put e.states key (notified now s);
  events = e.events ++ event_of key site s true ∷ [];
}
delivery key site now s false e = record e {
  deliveries_attempted = suc e.deliveries_attempted;
  delivery_failures = suc e.delivery_failures;
  states = put e.states key s;
  events = e.events ++ event_of key site s false ∷ [];
}

module _ (settings : AlertSettings) (now : ℕ) where
  abbrev pub is_offline_now : EdgeNode → Bool
  is_offline_now node = is_offline (effective_status settings.status node.latest_heartbeat_at now)

  -- `oldest_pending < now - timedelta(hours=...)`
  abbrev pub is_overdue : Option ℕ → Bool
  is_overdue none = false
  is_overdue (some oldest) = ltb (oldest + 3600 * settings.alert_trend_backlog_age_hours) now

  abbrev pub condition_of : EdgeNode → AlertType → Bool
  condition_of node gateway_offline = is_offline_now node
  condition_of node trend_backlog =
      not (is_offline_now node) && is_overdue node.trend_oldest_pending_at

abbrev pub key_of : EdgeNode → AlertType → AlertKey
key_of node type = record { gateway_id = node.gateway_id; alert_type = type }

module _ (settings : AlertSettings) (webhook : ℕ → Bool) (now : ℕ) where
  unfoldable pub notify_pending : AlertKey → String → GatewayAlertState → Evaluation → Evaluation
  unfolding acknowledge hold_back delivery
  notify_pending key site s e = elim settings.webhook_configured [
    | false ↦ acknowledge key site now s e
    | true ↦ elim (ltb e.deliveries_attempted settings.alert_max_deliveries_per_run) [
      | true ↦ delivery key site now s (webhook e.deliveries_attempted) e
      | false ↦ hold_back key site s e
    ]
  ]

  unfoldable pub process_state : AlertKey → String → GatewayAlertState → Evaluation → Evaluation
  unfolding notify_pending
  process_state key site s e = elim (nothing_pending s) [
    | true ↦ keep_state key s e
    | false ↦ notify_pending key site s e
  ]

  unfoldable pub process : AlertKey → String → Bool → Evaluation → Evaluation
  unfolding process_state transition
  process key site condition e =
      process_state key site (transition condition now (or_else (get e.states key) new_state)) e

  unfoldable pub process_gateway : EdgeNode → Evaluation → Evaluation
  unfolding process
  process_gateway node e =
      process (key_of node trend_backlog) node.site_id
        (condition_of settings now node trend_backlog)
        (process (key_of node gateway_offline) node.site_id
          (condition_of settings now node gateway_offline) e)

  -- Gateways that never sent a heartbeat are not eligible.
  unfoldable pub process_eligible : List EdgeNode → Evaluation → Evaluation
  unfolding process_gateway
  process_eligible [] e = e
  process_eligible (n ∷ ns) e = elim (is_some n.latest_heartbeat_at) [
    | true ↦ process_eligible ns (process_gateway n e)
    | false ↦ process_eligible ns e
  ]

  unfoldable pub evaluate_alerts : List EdgeNode → Dict AlertKey GatewayAlertState → Evaluation
  unfolding process_eligible
  evaluate_alerts nodes states =
      process_eligible nodes
        (record { states = states; events = []; delivery_failures = 0; deliveries_attempted = 0 })

  unfoldable pub admin_evaluate_alerts :
      AdminAuthContext → List EdgeNode → Dict AlertKey GatewayAlertState → Response Evaluation
  unfolding evaluate_alerts
  admin_evaluate_alerts auth nodes states =
      require_admin_or_admin_token_auth auth >>= λ _. ok (evaluate_alerts nodes states)
