-- ===== src/Cloud/Alerts/Again.antt =====
-- Two evaluations of the alerts after each other, of which the second finds nothing new.
use iot_cloud_commissioning.Prelude.{
  ℕ, ◌≡◌, refl, sym, ap, ◌∙◌, subst, Bool, true, false, not, Option, some, List, [], ◌∷◌, map,
  String, arith, is_some, or_else, ◌==◌, eq_iff, In, NoRepeats, Bool-cases, inl, inr,
}
use iot_cloud_commissioning.Dict.{Dict, get, get-put}
use iot_cloud_commissioning.Cloud.Alerts.{
  AlertType, gateway_offline, trend_backlog, AlertKey, key_eq, GatewayAlertState, EdgeNode,
  AlertSettings, Evaluation, new_state, transition, nothing_pending, keep_state, process_state,
  process, condition_of, key_of, process_gateway, process_eligible, evaluate_alerts,
}
use iot_cloud_commissioning.Cloud.Alerts.Reports.{reports, reports-process_eligible}
use iot_cloud_commissioning.Cloud.Alerts.Pending.{process_eligible-cons, process_eligible-IsUpdated}

-- A row that an evaluation of the condition leaves alone.
abbrev IsIdle : Bool → Option GatewayAlertState → Type 0
IsIdle condition row =
    (s : GatewayAlertState) × (row ≡ some s) × (s.active ≡ condition) × (nothing_pending s ≡ true)

-- Two evaluations with the same rows and the same events.
abbrev IsAlike : Evaluation → Evaluation → Type 0
IsAlike e e' = (e'.events ≡ e.events) × ((j : AlertKey) → get e'.states j ≡ get e.states j)

module _ (settings : AlertSettings) (webhook : ℕ → Bool) (now : ℕ) where
  transition_idle :
      (condition : Bool) (s : GatewayAlertState)
      → s.active ≡ condition
      → transition condition now s ≡ s
  unfolding transition
  transition_idle condition s h = ground (arith, h)

  process_state_idle :
      (key : AlertKey) (site : String) (s : GatewayAlertState) (e : Evaluation)
      → nothing_pending s ≡ true
      → process_state settings webhook now key site s e ≡ keep_state key s e
  unfolding process_state
  process_state_idle key site s e idle = rw (process_state, idle) refl

  -- Writing back the row that was found changes no lookup.
  keep_state_alike :
      (key j : AlertKey) (s : GatewayAlertState) (e : Evaluation)
      → get e.states key ≡ some s
      → get (keep_state key s e).states j ≡ get e.states j
  keep_state_alike key j s e found = rw get-put (elim (Bool-cases (key == j)) [
    | inl same ↦ rw same (sym found ∙ ap (get e.states) ((eq_iff key j).0 same))
    | inr apart ↦ rw apart refl
  ])

  process_idle :
      (key : AlertKey) (site : String) (condition : Bool) (e : Evaluation)
      → IsIdle condition (get e.states key)
      → IsAlike e (process settings webhook now key site condition e)
  unfolding process
  process_idle key site condition e (s, found, active, idle) =
      let kept : process settings webhook now key site condition e ≡ keep_state key s e =
        ap
          (λ o.
            process_state settings webhook now key site
              (transition condition now (or_else o new_state)) e)
          found
        ∙ ap (λ t. process_state settings webhook now key site t e)
            (transition_idle condition s active)
        ∙ process_state_idle key site s e idle in
      (
        ap (λ r. r.events) kept,
        λ j. ap (λ (r : Evaluation). get r.states j) kept ∙ keep_state_alike key j s e found,
      )

  IsIdle-alike :
      (condition : Bool) (j : AlertKey) (e e' : Evaluation)
      → IsAlike e e'
      → IsIdle condition (get e.states j)
      → IsIdle condition (get e'.states j)
  IsIdle-alike condition j e e' h (s, found, active, idle) = (s, h.1 j ∙ found, active, idle)

  process_gateway_idle :
      (n : EdgeNode) (e : Evaluation)
      → ((t : AlertType) → IsIdle (condition_of settings now n t) (get e.states (key_of n t)))
      → IsAlike e (process_gateway settings webhook now n e)
  unfolding process_gateway
  process_gateway_idle n e h =
      let c = condition_of settings now n in
      let e' =
        process settings webhook now (key_of n gateway_offline) n.site_id (c gateway_offline) e in
      let first =
        process_idle (key_of n gateway_offline) n.site_id (c gateway_offline) e
          (h gateway_offline) in
      let second =
        process_idle (key_of n trend_backlog) n.site_id (c trend_backlog) e'
          (IsIdle-alike (c trend_backlog) (key_of n trend_backlog) e e' first (h trend_backlog)) in
      (second.0 ∙ first.0, λ j. second.1 j ∙ first.1 j)

  process_eligible_idle :
      (ns : List EdgeNode) (e : Evaluation)
      → ((n : EdgeNode) (t : AlertType)
          → In n ns
          → is_some n.latest_heartbeat_at ≡ true
          → IsIdle (condition_of settings now n t) (get e.states (key_of n t)))
      → IsAlike e (process_eligible settings webhook now ns e)
  unfolding process_eligible
  process_eligible_idle [] e h = (refl, λ j. refl)
  process_eligible_idle (n ∷ ns) e h = elim (Bool-cases (is_some n.latest_heartbeat_at)) [
    | inl t ↦
        let first = process_gateway_idle n e (λ type. h n type (inl refl) t) in
        let rest =
          process_eligible_idle ns (process_gateway settings webhook now n e)
            (λ m type member eligible.
              IsIdle-alike (condition_of settings now m type) (key_of m type) e
                (process_gateway settings webhook now n e) first
                (h m type (inr member) eligible)) in
        subst (IsAlike e) (sym (process_eligible-cons settings webhook now n ns e true t))
          (rest.0 ∙ first.0, λ j. rest.1 j ∙ first.1 j)
    | inr t ↦
        subst (IsAlike e) (sym (process_eligible-cons settings webhook now n ns e false t))
          (process_eligible_idle ns e (λ m type member eligible. h m type (inr member) eligible))
  ]

-- Without a webhook and for gateways with different ids, an evaluation reports each gateway that has
-- sent a heartbeat exactly once for each alert type whose condition is other than its row has it, a
-- missing row being inactive; and a second evaluation at a later time at which every condition is as
-- it was reports no event and changes no row.
pub evaluate_alerts_twice :
    (settings : AlertSettings) (webhook : ℕ → Bool) (now later : ℕ) (nodes : List EdgeNode)
    (states : Dict AlertKey GatewayAlertState)
    → settings.webhook_configured ≡ false
    → NoRepeats (map (λ n. n.gateway_id) nodes)
    → ((n : EdgeNode) (t : AlertType)
        → In n nodes
        → condition_of settings later n t ≡ condition_of settings now n t)
    → let first = evaluate_alerts settings webhook now nodes states in
      let second = evaluate_alerts settings webhook later nodes first.states in
      ((n : EdgeNode) (t : AlertType)
        → In n nodes
        → is_some n.latest_heartbeat_at ≡ true
        → (or_else (get states (key_of n t)) new_state).active ≡ not (condition_of settings now n t)
        → reports (key_of n t) first.events ≡ 1)
      × (second.events ≡ [])
      × ((j : AlertKey) → get second.states j ≡ get first.states j)
unfolding evaluate_alerts
evaluate_alerts_twice settings webhook now later nodes states silent unique same =
    let idle = process_eligible_idle settings webhook later nodes _ (λ n t member eligible.
      let (s, found, h) =
        process_eligible-IsUpdated settings webhook now nodes n t _ unique member eligible in
      (s, found, h.active ∙ sym (same n t member), h.settled silent)) in
    (
      λ n t member eligible changed.
          reports-process_eligible settings webhook now nodes n t _ unique member eligible changed,
      idle.0,
      idle.1,
    )
