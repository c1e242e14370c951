-- ===== src/Cloud/Alerts/Rows.antt =====
-- What `process` writes to the row of its gateway and alert type.
use iot_cloud_commissioning.Prelude.{
  ℕ, ◌≡◌, refl, ap, ◌∙◌, ◌≢◌, Bool, true, false, ◌||◌, none, some, String, ltb, if◌then◌else◌,
  is_none, or_else,
}
use iot_cloud_commissioning.Dict.{get, put}
use iot_cloud_commissioning.Cloud.Alerts.{
  AlertKey, key_eq, GatewayAlertState, AlertSettings, Evaluation, new_state, differs, transition,
  nothing_pending, notified, keep_state, acknowledge, hold_back, delivery, notify_pending,
  process_state, process,
}

-- A row after the evaluation of its condition: the transition is dated when there is one, and
-- without a webhook nothing is left pending.
pub record IsProcessed (settings : AlertSettings) (now : ℕ) (condition : Bool)
    (before after : GatewayAlertState) : Type 0 where
  pub active : after.active ≡ condition
  pub changed : before.active ≢ condition → after.last_transition_at ≡ some now
  pub unchanged : before.active ≡ condition → after.last_transition_at ≡ before.last_transition_at
  pub quiet : nothing_pending before ≡ true → before.active ≡ condition → after ≡ before
  pub settled : settings.webhook_configured ≡ false → nothing_pending after ≡ true

record IsTransition (condition : Bool) (now : ℕ) (before after : GatewayAlertState) : Type 0 where
  pub active : after.active ≡ condition
  pub changed : before.active ≢ condition → after.last_transition_at ≡ some now
  pub unchanged : before.active ≡ condition → after ≡ before

transition-IsTransition :
    (condition : Bool) (now : ℕ) (s : GatewayAlertState)
    → IsTransition condition now s (transition condition now s)
unfolding transition
transition-IsTransition condition now s = by_tests condition s.active refl
  where
    by_tests :
        (condition active : Bool)
        → s.active ≡ active
        → IsTransition condition now s (
            if differs condition active
            then record {
              active = condition;
              last_transition_at = some now;
              last_notified_at = none;
            }
            else s)
    by_tests true true e = record { active = e; changed = λ h. absurd (h e); unchanged = λ h. refl }
    by_tests false false e = record {
      active = e;
      changed = λ h. absurd (h e);
      unchanged = λ h. refl;
    }
    by_tests true false e = record {
      active = refl;
      changed = λ h. refl;
      unchanged = λ h. cc (h, e);
    }
    by_tests false true e = record {
      active = refl;
      changed = λ h. refl;
      unchanged = λ h. cc (h, e);
    }

-- The row that is written for a row with its transition.
record IsKept (settings : AlertSettings) (s after : GatewayAlertState) : Type 0 where
  pub active : after.active ≡ s.active
  pub dated : after.last_transition_at ≡ s.last_transition_at
  pub quiet : nothing_pending s ≡ true → after ≡ s
  pub settled : settings.webhook_configured ≡ false → nothing_pending after ≡ true

notified_settled : (now : ℕ) (s : GatewayAlertState) → nothing_pending (notified now s) ≡ true
notified_settled now s = or_true (is_none s.last_transition_at)
  where
    or_true : (b : Bool) → (b || true) ≡ true
    or_true true = refl
    or_true false = refl

module _ (settings : AlertSettings) (webhook : ℕ → Bool) (now : ℕ) where
  abbrev IsPut : AlertKey → GatewayAlertState → Evaluation → Evaluation → Type 0
  IsPut key s e e' =
      (after : GatewayAlertState) × (e'.states ≡ put e.states key after) × IsKept settings s after

  notify_pending-IsPut :
      (key : AlertKey) (site : String) (s : GatewayAlertState) (e : Evaluation)
      → nothing_pending s ≡ false
      → IsPut key s e (notify_pending settings webhook now key site s e)
  unfolding notify_pending delivery
  notify_pending-IsPut key site s e pending = by_tests settings.webhook_configured refl
    where
      acknowledged : IsKept settings s (notified now s)
      acknowledged = record {
        active = refl;
        dated = refl;
        quiet = λ h. cc (h, pending);
        settled = λ h. notified_settled now s;
      }

      still : settings.webhook_configured ≡ true → IsKept settings s s
      still c = record { active = refl; dated = refl; quiet = λ h. refl; settled = λ h. cc (h, c) }

      by_delivery :
          settings.webhook_configured ≡ true
          → (delivered : Bool) → IsPut key s e (delivery key site now s delivered e)
      by_delivery c true = (notified now s, refl, acknowledged)
      by_delivery c false = (s, refl, still c)

      by_limit :
          settings.webhook_configured ≡ true
          → (below : Bool)
          → IsPut key s e (elim below [
            | true ↦ delivery key site now s (webhook e.deliveries_attempted) e
            | false ↦ hold_back key site s e
          ])
      by_limit c true = by_delivery c (webhook e.deliveries_attempted)
      by_limit c false = (s, refl, still c)

      by_tests :
          (configured : Bool)
          → settings.webhook_configured ≡ configured
          → IsPut key s e (elim configured [
            | false ↦ acknowledge key site now s e
            | true ↦ elim (ltb e.deliveries_attempted settings.alert_max_deliveries_per_run) [
              | true ↦ delivery key site now s (webhook e.deliveries_attempted) e
              | false ↦ hold_back key site s e
            ]
          ])
      by_tests false c = (notified now s, refl, acknowledged)
      by_tests true c =
          by_limit c (ltb e.deliveries_attempted settings.alert_max_deliveries_per_run)

  process_state-IsPut :
      (key : AlertKey) (site : String) (s : GatewayAlertState) (e : Evaluation)
      → IsPut key s e (process_state settings webhook now key site s e)
  unfolding process_state
  process_state-IsPut key site s e =
      by_test (nothing_pending s) refl (notify_pending-IsPut key site s e)
    where
      by_test :
          (idle : Bool)
          → nothing_pending s ≡ idle
          → (nothing_pending s ≡ false
              → IsPut key s e (notify_pending settings webhook now key site s e))
          → IsPut key s e (elim idle [
            | true ↦ keep_state key s e
            | false ↦ notify_pending settings webhook now key site s e
          ])
      by_test true h going =
          (s, refl, record { active = refl; dated = refl; quiet = λ _. refl; settled = λ _. h })
      by_test false h going = going h

  -- What `process` writes: one row, under its key.
  pub process-put :
      (key : AlertKey) (site : String) (condition : Bool) (e : Evaluation)
      → (s : GatewayAlertState) × ((process settings webhook now key site condition e).states
          ≡ put e.states key s)
        × IsProcessed settings now condition (or_else (get e.states key) new_state) s
  unfolding process
  process-put key site condition e =
      let before = or_else (get e.states key) new_state in
      let t = transition-IsTransition condition now before in
      let (after, written, k) = process_state-IsPut key site (transition condition now before) e in
      (
        after,
        written,
        record {
          active = k.active ∙ t.active;
          changed = λ h. k.dated ∙ t.changed h;
          unchanged = λ h. k.dated ∙ ap (λ s. s.last_transition_at) (t.unchanged h);
          quiet = λ p h. k.quiet (ap nothing_pending (t.unchanged h) ∙ p) ∙ t.unchanged h;
          settled = k.settled;
        },
      )
