-- ===== src/Cloud/Alerts/Reports.antt =====
-- How many events of a row an evaluation reports.
use iot_cloud_commissioning.Prelude.{
  ℕ, suc, ◌+◌, ◌≡◌, refl, sym, ap, ◌∙◌, subst, ◌≢◌, Bool, true, false, not, List, [], ◌∷◌, ◌++◌,
  map, String, if◌then◌else◌, is_some, or_else, some, none, eq_self, eq_false_of_ne, In, In-map,
  NoRepeats, All, All-intro, Bool-cases, inl, inr, arith, ◌==◌, ltb,
}
use iot_cloud_commissioning.Dict.{get}
use iot_cloud_commissioning.Cloud.Alerts.{
  AlertType, gateway_offline, trend_backlog, AlertKey, key_eq, GatewayAlertState, EdgeNode,
  AlertSettings, AlertEvent, Evaluation, new_state, transition, differs, nothing_pending,
  acknowledge, hold_back, delivery, notify_pending, process_state, process, condition_of, key_of,
  process_gateway, process_eligible, event_of,
}
use iot_cloud_commissioning.Cloud.Alerts.Pending.{
  first_step, process_eligible-cons, process_others, process_gateway_others,
}

abbrev pub tally : Bool → ℕ
tally true = 1
tally false = 0

-- The events of a gateway and an alert type.
abbrev pub reports : AlertKey → List AlertEvent → ℕ
reports j [] = 0
reports j (event ∷ events) = tally (event.key == j) + reports j events

reports-snoc :
    (j : AlertKey) (events : List AlertEvent) (event : AlertEvent)
    → reports j (events ++ event ∷ []) ≡ reports j events + tally (event.key == j)
reports-snoc j [] event = omega arith
reports-snoc j (e ∷ events) event = omega (arith, reports-snoc j events event)

module _ (settings : AlertSettings) (webhook : ℕ → Bool) (now : ℕ) where
  reports-notify_pending :
      (key j : AlertKey) (site : String) (s : GatewayAlertState) (e : Evaluation)
      → reports j (notify_pending settings webhook now key site s e).events
        ≡ reports j e.events + tally (key == j)
  unfolding notify_pending acknowledge hold_back delivery
  reports-notify_pending key j site s e =
      by_branch settings.webhook_configured
        (ltb e.deliveries_attempted settings.alert_max_deliveries_per_run)
        (webhook e.deliveries_attempted)
    where
      by_branch :
          (configured within sent : Bool)
          → reports j
              (elim configured as (λ _. Evaluation) [
                | false ↦ acknowledge key site now s e
                | true ↦ elim within as (λ _. Evaluation) [
                  | true ↦ delivery key site now s sent e
                  | false ↦ hold_back key site s e
                ]
              ]).events
            ≡ reports j e.events + tally (key == j)
      by_branch false within sent = reports-snoc j e.events (event_of key site s false)
      by_branch true false sent = reports-snoc j e.events (event_of key site s false)
      by_branch true true true = reports-snoc j e.events (event_of key site s true)
      by_branch true true false = reports-snoc j e.events (event_of key site s false)

  reports-process_state :
      (key j : AlertKey) (site : String) (s : GatewayAlertState) (e : Evaluation)
      → reports j (process_state settings webhook now key site s e).events
        ≡ reports j e.events + (if nothing_pending s then 0 else tally (key == j))
  unfolding process_state
  reports-process_state key j site s e = elim (Bool-cases (nothing_pending s)) [
    | inl idle ↦ rw (process_state, idle) (omega arith)
    | inr due ↦ rw (process_state, due) (reports-notify_pending key j site s e)
  ]

  -- A condition other than the row's makes one event of the row.
  reports-process_changed :
      (key : AlertKey) (site : String) (condition : Bool) (e : Evaluation)
      → (or_else (get e.states key) new_state).active ≡ not condition
      → reports key (process settings webhook now key site condition e).events
        ≡ suc (reports key e.events)
  unfolding process transition
  reports-process_changed key site condition e changed =
      let row = or_else (get e.states key) new_state in
      rw (reports-process_state, due condition row changed, eq_self key) (omega arith)
    where
      due :
          (c : Bool) (s : GatewayAlertState)
          → s.active ≡ not c
          → nothing_pending (transition c now s) ≡ false
      due c s h = by_test c s.active h
        where
          by_test :
              (c a : Bool)
              → a ≡ not c
              → nothing_pending (
                  if differs c a
                  then record { active = c; last_transition_at = some now; last_notified_at = none }
                  else s)
                ≡ false
          by_test true true h = cc h
          by_test true false h = refl
          by_test false true h = refl
          by_test false false h = cc h

  reports-process_others :
      (key j : AlertKey) (site : String) (condition : Bool) (e : Evaluation)
      → key ≢ j
      → reports j (process settings webhook now key site condition e).events ≡ reports j e.events
  unfolding process
  reports-process_others key j site condition e apart =
      let row = transition condition now (or_else (get e.states key) new_state) in
      rw (reports-process_state, eq_false_of_ne apart) (none_more (nothing_pending row))
    where
      none_more : (b : Bool) → (reports j e.events + (if b then 0 else 0)) ≡ reports j e.events
      none_more true = omega arith
      none_more false = omega arith

  reports-process_gateway_others :
      (n : EdgeNode) (j : AlertKey) (e : Evaluation)
      → n.gateway_id ≢ j.gateway_id
      → reports j (process_gateway settings webhook now n e).events ≡ reports j e.events
  unfolding process_gateway
  reports-process_gateway_others n j e apart =
      let differ : (t : AlertType) → record { gateway_id = n.gateway_id; alert_type = t } ≢ j =
        λ t same. apart (ap (λ k. k.gateway_id) same) in
      reports-process_others (key_of n trend_backlog) j n.site_id _ _ (differ trend_backlog)
      ∙ reports-process_others (key_of n gateway_offline) j n.site_id _ e (differ gateway_offline)

  -- The condition of the gateway is other than its row has it.
  abbrev pub IsChange : EdgeNode → AlertType → Evaluation → Type 0
  IsChange n t e =
      (or_else (get e.states (key_of n t)) new_state).active ≡ not (condition_of settings now n t)

  reports-process_gateway :
      (n : EdgeNode) (t : AlertType) (e : Evaluation)
      → IsChange n t e
      → reports (key_of n t) (process_gateway settings webhook now n e).events
        ≡ suc (reports (key_of n t) e.events)
  unfolding process_gateway
  reports-process_gateway n gateway_offline e changed =
      reports-process_others (key_of n trend_backlog) (key_of n gateway_offline) n.site_id _ _
        (λ same. cc (ap (λ k. k.alert_type) same))
      ∙ reports-process_changed (key_of n gateway_offline) n.site_id _ e changed
  reports-process_gateway n trend_backlog e changed =
      let c = condition_of settings now n gateway_offline in
      let differ : key_of n gateway_offline ≢ key_of n trend_backlog =
        λ same. cc (ap (λ k. k.alert_type) same) in
      reports-process_changed (key_of n trend_backlog) n.site_id _ _ (
        ap (λ o. (or_else o new_state).active)
          (process_others settings webhook now (key_of n gateway_offline) (key_of n trend_backlog)
            n.site_id c e differ)
        ∙ changed)
      ∙ ap suc (
          reports-process_others (key_of n gateway_offline) (key_of n trend_backlog) n.site_id c e
            differ)

  reports-process_eligible_others :
      (ns : List EdgeNode) (j : AlertKey) (e : Evaluation)
      → All (λ n. n.gateway_id ≢ j.gateway_id) ns
      → reports j (process_eligible settings webhook now ns e).events ≡ reports j e.events
  unfolding process_eligible
  reports-process_eligible_others [] j e h = refl
  reports-process_eligible_others (n ∷ ns) j e h =
      ap (λ (r : Evaluation). reports j r.events)
        (process_eligible-cons settings webhook now n ns e _ refl)
      ∙ reports-process_eligible_others ns j _ h.1
      ∙ first (is_some n.latest_heartbeat_at)
    where
      first :
          (b : Bool) → reports j (first_step settings webhook now n e b).events ≡ reports j e.events
      first true = reports-process_gateway_others n j e h.0
      first false = refl

  -- An eligible gateway whose condition changed is reported once, whatever the other gateways do.
  pub reports-process_eligible :
      (ns : List EdgeNode) (n : EdgeNode) (t : AlertType) (e : Evaluation)
      → NoRepeats (map (λ m. m.gateway_id) ns)
      → In n ns
      → is_some n.latest_heartbeat_at ≡ true
      → IsChange n t e
      → reports (key_of n t) (process_eligible settings webhook now ns e).events
        ≡ suc (reports (key_of n t) e.events)
  reports-process_eligible [] n t e unique member eligible changed = elim member [ ]
  reports-process_eligible (m ∷ ns) n t e unique (inl same) eligible changed =
      ap (λ (r : Evaluation). reports (key_of n t) r.events)
        (process_eligible-cons settings webhook now m ns e true
          (subst (λ o. is_some o.latest_heartbeat_at ≡ true) same eligible))
      ∙ reports-process_eligible_others ns (key_of n t) (process_gateway settings webhook now m e) (
          All-intro _ ns (λ o mem same'. unique.0 (
            subst (λ g. In g (map (λ m. m.gateway_id) ns)) (same' ∙ ap (λ o. o.gateway_id) same)
              (In-map (λ m. m.gateway_id) o ns mem))))
      ∙ ap (λ o. reports (key_of n t) (process_gateway settings webhook now o e).events) (sym same)
      ∙ reports-process_gateway n t e changed
  reports-process_eligible (m ∷ ns) n t e unique (inr member) eligible changed =
      let apart : m.gateway_id ≢ n.gateway_id = λ same. unique.0 (
        subst (λ g. In g (map (λ m. m.gateway_id) ns)) (sym same)
          (In-map (λ m. m.gateway_id) n ns member)) in
      let e' = first_step settings webhook now m e (is_some m.latest_heartbeat_at) in
      ap (λ (r : Evaluation). reports (key_of n t) r.events)
        (process_eligible-cons settings webhook now m ns e _ refl)
      ∙ reports-process_eligible ns n t e' unique.1 member eligible
          (kept (is_some m.latest_heartbeat_at) apart ∙ changed)
      ∙ ap suc (silent (is_some m.latest_heartbeat_at) apart)
    where
      kept :
          (b : Bool)
          → m.gateway_id ≢ n.gateway_id
          → (or_else
              (get (first_step settings webhook now m e b).states (key_of n t))
              new_state).active
            ≡ (or_else (get e.states (key_of n t)) new_state).active
      kept true apart =
          ap (λ o. (or_else o new_state).active)
            (process_gateway_others settings webhook now m (key_of n t) e apart)
      kept false apart = refl

      silent :
          (b : Bool)
          → m.gateway_id ≢ n.gateway_id
          → reports (key_of n t) (first_step settings webhook now m e b).events
            ≡ reports (key_of n t) e.events
      silent true apart = reports-process_gateway_others m (key_of n t) e apart
      silent false apart = refl
