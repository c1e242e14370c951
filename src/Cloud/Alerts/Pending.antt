-- ===== src/Cloud/Alerts/Pending.antt =====
-- The rows of gateway_alert_states after an evaluation.
use iot_cloud_commissioning.Prelude.{
  ℕ, ◌≡◌, refl, sym, ap, ◌∙◌, subst, ◌≢◌, Bool, true, false, Option, some, List, [], ◌∷◌, map,
  String, if◌then◌else◌, is_some, or_else, eq_self, eq_false_of_ne, In, In-map, In-unique,
  NoRepeats, All, All-intro, Bool-cases, inl, inr,
}
use iot_cloud_commissioning.Dict.{Dict, get, get-put}
use iot_cloud_commissioning.Cloud.Http.{Response, ok, ◌>>=◌}
use iot_cloud_commissioning.Cloud.Access.{AdminAuthContext, require_admin_or_admin_token_auth}
use iot_cloud_commissioning.Cloud.Alerts.{
  AlertType, gateway_offline, trend_backlog, AlertKey, key_eq, GatewayAlertState, EdgeNode,
  AlertSettings, Evaluation, new_state, process, condition_of, key_of, process_gateway,
  process_eligible, evaluate_alerts, admin_evaluate_alerts,
}
use iot_cloud_commissioning.Cloud.Alerts.Rows.{IsProcessed, process-put}

-- The row of a key before and after.
abbrev pub IsUpdated :
    AlertSettings → ℕ → Bool → Option GatewayAlertState → Option GatewayAlertState → Type 0
IsUpdated settings now condition before after =
    (s : GatewayAlertState) × (after ≡ some s)
    × IsProcessed settings now condition (or_else before new_state) s

module _ (settings : AlertSettings) (webhook : ℕ → Bool) (now : ℕ) where
  process-IsUpdated :
      (key : AlertKey) (site : String) (condition : Bool) (e : Evaluation)
      → IsUpdated settings now condition
          (get e.states key)
          (get (process settings webhook now key site condition e).states key)
  process-IsUpdated key site condition e =
      let (s, written, h) = process-put settings webhook now key site condition e in
      (s, rw (written, get-put, eq_self key) refl, h)

  pub process_others :
      (key j : AlertKey) (site : String) (condition : Bool) (e : Evaluation)
      → key ≢ j
      → get (process settings webhook now key site condition e).states j ≡ get e.states j
  process_others key j site condition e apart =
      let (s, written, h) = process-put settings webhook now key site condition e in
      rw (written, get-put, eq_false_of_ne apart) refl

  pub process_gateway_others :
      (n : EdgeNode) (j : AlertKey) (e : Evaluation)
      → n.gateway_id ≢ j.gateway_id
      → get (process_gateway settings webhook now n e).states j ≡ get e.states j
  unfolding process_gateway
  process_gateway_others n j e apart =
      let differ : (t : AlertType) → record { gateway_id = n.gateway_id; alert_type = t } ≢ j =
        λ t same. apart (ap (λ k. k.gateway_id) same) in
      process_others (key_of n trend_backlog) j n.site_id _ _ (differ trend_backlog)
      ∙ process_others (key_of n gateway_offline) j n.site_id _ e (differ gateway_offline)

  process_gateway-IsUpdated :
      (n : EdgeNode) (t : AlertType) (e : Evaluation)
      → IsUpdated settings now
          (condition_of settings now n t)
          (get e.states (key_of n t))
          (get (process_gateway settings webhook now n e).states (key_of n t))
  unfolding process_gateway
  process_gateway-IsUpdated n gateway_offline e =
      let c = condition_of settings now n gateway_offline in
      let (s, found, h) = process-IsUpdated (key_of n gateway_offline) n.site_id c e in
      (
        s,
        process_others (key_of n trend_backlog) (key_of n gateway_offline) n.site_id _ _ differ
            ∙ found,
        h,
      )
    where
      differ : key_of n trend_backlog ≢ key_of n gateway_offline
      differ same = cc (ap (λ k. k.alert_type) same)
  process_gateway-IsUpdated n trend_backlog e =
      let c = condition_of settings now n gateway_offline in
      let first = process settings webhook now (key_of n gateway_offline) n.site_id c e in
      let (s, found, h) =
        process-IsUpdated (key_of n trend_backlog) n.site_id
          (condition_of settings now n trend_backlog) first in
      (
        s,
        found,
        subst
            (λ o.
              IsProcessed settings now (condition_of settings now n trend_backlog)
                (or_else o new_state) s)
            (process_others (key_of n gateway_offline) (key_of n trend_backlog) n.site_id c e
              differ)
            h,
      )
    where
      differ : key_of n gateway_offline ≢ key_of n trend_backlog
      differ same = cc (ap (λ k. k.alert_type) same)

  -- What the loop makes of its first gateway.
  abbrev pub first_step : EdgeNode → Evaluation → Bool → Evaluation
  first_step n e eligible = if eligible then process_gateway settings webhook now n e else e

  pub process_eligible-cons :
      (n : EdgeNode) (ns : List EdgeNode) (e : Evaluation) (eligible : Bool)
      → is_some n.latest_heartbeat_at ≡ eligible
      → process_eligible settings webhook now (n ∷ ns) e
        ≡ process_eligible settings webhook now ns (first_step n e eligible)
  unfolding process_eligible
  process_eligible-cons n ns e true h = rw (process_eligible, h) refl
  process_eligible-cons n ns e false h = rw (process_eligible, h) refl

  -- A gateway that is not among the eligible ones keeps its rows.
  process_eligible_others :
      (ns : List EdgeNode) (j : AlertKey) (e : Evaluation)
      → All (λ n. is_some n.latest_heartbeat_at ≡ true → n.gateway_id ≢ j.gateway_id) ns
      → get (process_eligible settings webhook now ns e).states j ≡ get e.states j
  unfolding process_eligible
  process_eligible_others [] j e h = refl
  process_eligible_others (n ∷ ns) j e h = elim (Bool-cases (is_some n.latest_heartbeat_at)) [
    | inl t ↦
        ap (λ (r : Evaluation). get r.states j) (process_eligible-cons n ns e true t)
        ∙ process_eligible_others ns j (process_gateway settings webhook now n e) h.1
        ∙ process_gateway_others n j e (h.0 t)
    | inr t ↦
        ap (λ (r : Evaluation). get r.states j) (process_eligible-cons n ns e false t)
        ∙ process_eligible_others ns j e h.1
  ]

  -- The condition of an eligible gateway is recorded, whatever the other gateways do.
  pub process_eligible-IsUpdated :
      (ns : List EdgeNode) (n : EdgeNode) (t : AlertType) (e : Evaluation)
      → NoRepeats (map (λ m. m.gateway_id) ns)
      → In n ns
      → is_some n.latest_heartbeat_at ≡ true
      → IsUpdated settings now
          (condition_of settings now n t)
          (get e.states (key_of n t))
          (get (process_eligible settings webhook now ns e).states (key_of n t))
  process_eligible-IsUpdated [] n t e unique member eligible = elim member [ ]
  process_eligible-IsUpdated (m ∷ ns) n t e unique (inl same) eligible =
      let (s, found, h) = process_gateway-IsUpdated n t e in
      (
        s,
        ap (λ (r : Evaluation). get r.states (key_of n t))
              (process_eligible-cons m ns e true
                (subst (λ o. is_some o.latest_heartbeat_at ≡ true) same eligible))
            ∙ process_eligible_others ns (key_of n t) (process_gateway settings webhook now m e) (
                All-intro _ ns (λ o mem q same'. unique.0 (
                  subst (λ g. In g (map (λ m. m.gateway_id) ns))
                    (same' ∙ ap (λ o. o.gateway_id) same) (In-map (λ m. m.gateway_id) o ns mem))))
            ∙ ap (λ o. get (process_gateway settings webhook now o e).states (key_of n t))
                (sym same)
            ∙ found,
        h,
      )
  process_eligible-IsUpdated (m ∷ ns) n t e unique (inr member) eligible =
      let apart : m.gateway_id ≢ n.gateway_id = λ same. unique.0 (
        subst (λ g. In g (map (λ m. m.gateway_id) ns)) (sym same)
          (In-map (λ m. m.gateway_id) n ns member)) in
      let e' = first_step m e (is_some m.latest_heartbeat_at) in
      let (s, found, h) = process_eligible-IsUpdated ns n t e' unique.1 member eligible in
      (
        s,
        ap (λ (r : Evaluation). get r.states (key_of n t)) (process_eligible-cons m ns e _ refl)
            ∙ found,
        subst
            (λ o. IsProcessed settings now (condition_of settings now n t) (or_else o new_state) s)
            (kept (is_some m.latest_heartbeat_at) apart) h,
      )
    where
      kept :
          (b : Bool)
          → m.gateway_id ≢ n.gateway_id
          → get (first_step m e b).states (key_of n t) ≡ get e.states (key_of n t)
      kept true apart = process_gateway_others m (key_of n t) e apart
      kept false apart = refl

true-ne-false : true ≡ false → ⊥
true-ne-false h = cc h

-- For gateways with different ids and a caller that may evaluate, the evaluation ends well, and
-- each gateway that has sent a heartbeat has, for each alert type, a row: it is active exactly
-- when the condition holds, it keeps the date of its last transition unless the condition
-- changed, when it is dated now, a row with nothing pending and the same condition is as it was,
-- and without a webhook nothing is pending after. Rows of gateways that never sent a heartbeat
-- are as they were.
pub admin_evaluate_alerts-IsUpdated :
    (settings : AlertSettings) (webhook : ℕ → Bool) (now : ℕ) (auth : AdminAuthContext)
    (nodes : List EdgeNode) (states : Dict AlertKey GatewayAlertState)
    → NoRepeats (map (λ n. n.gateway_id) nodes)
    → require_admin_or_admin_token_auth auth ≡ ok auth
    → (e : Evaluation) × (admin_evaluate_alerts settings webhook now auth nodes states ≡ ok e)
      × ((n : EdgeNode) (t : AlertType)
          → In n nodes
          → is_some n.latest_heartbeat_at ≡ true
          → IsUpdated settings now
              (condition_of settings now n t)
              (get states (key_of n t))
              (get e.states (key_of n t)))
      × ((n : EdgeNode) (t : AlertType)
          → In n nodes
          → is_some n.latest_heartbeat_at ≡ false
          → get e.states (key_of n t) ≡ get states (key_of n t))
unfolding admin_evaluate_alerts evaluate_alerts
admin_evaluate_alerts-IsUpdated settings webhook now auth nodes states unique may = (
  evaluate_alerts settings webhook now nodes states,
  ap
      (λ (r : Response AdminAuthContext).
        r >>= λ _. ok (evaluate_alerts settings webhook now nodes states))
      may,
  λ n t member eligible.
      process_eligible-IsUpdated settings webhook now nodes n t _ unique member eligible,
  λ n t member silent. process_eligible_others settings webhook now nodes (key_of n t) _ (
      All-intro _ nodes (λ o mem eligible same. true-ne-false (
        sym eligible
        ∙ ap (λ m. is_some m.latest_heartbeat_at)
            (In-unique (λ m. m.gateway_id) o n nodes unique mem member same)
        ∙ silent))),
)
