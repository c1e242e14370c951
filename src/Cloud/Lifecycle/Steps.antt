-- ===== src/Cloud/Lifecycle/Steps.antt =====
-- Every step keeps the guards.
use iot_cloud_commissioning.Prelude.{
  ℕ, ◌≡◌, refl, sym, ap, ◌∙◌, ◌≢◌, inl, inr, Bool, true, false, not, ◌&&◌, ◌||◌, Option, none, some,
  String, arith, leb, nat_eq, string_eq, if◌then◌else◌, length,
}
use iot_cloud_commissioning.Dict.{Dict, get, put, remove, has}
use iot_cloud_commissioning.Dict.Purge.{Distinct, Distinct-put}
use iot_cloud_commissioning.Dict.Lookup.{
  get-put_at, get-put_off, get-remove_off, get-remove-some, key_cases,
}
use iot_cloud_commissioning.Cloud.Allowlist.{Leases, reserve, remove_if_current, expire_locked}
use iot_cloud_commissioning.Cloud.Allowlist.Removal.{IsWithout, remove_if_current-IsWithout}
use iot_cloud_commissioning.Cloud.Lifecycle.{
  TaskState, waiting, ending, over, ExpiryTask, TunnelService, reserved, shut_gateway, removed,
  expire_active_tunnel, is_task, end_task, on_task,
}
use iot_cloud_commissioning.Cloud.Lifecycle.Guards.{
  IsGuarded, some_injective, none-ne-some, fewer_leases-IsGuarded, Distinct-expire_locked,
  expire_locked-IsPart,
}
use iot_cloud_commissioning.Cloud.Lifecycle.Schedule.{schedule-IsGuarded}

-- Sessions and tunnels have no part in the guards.
pub shut_gateway-IsGuarded :
    (s : TunnelService) (g : String) → IsGuarded s → IsGuarded (shut_gateway s g)
shut_gateway-IsGuarded s g h = record {
  distinct = h.distinct;
  guarded = h.guarded;
  owned = h.owned;
  unused = h.unused;
}

pub reserve-IsGuarded :
    (s : TunnelService) (g : String) (t maximum now : ℕ)
    → IsGuarded s
    → let (leases, admitted) = reserve s.leases g t maximum now in
      IsGuarded (reserved (record s { leases = leases }) g t admitted)
unfolding reserve reserved
reserve-IsGuarded s g t maximum now h =
    by_test (not (has current g) && (leb maximum 0 || leb maximum (length current)))
  where
    current : Leases
    current = expire_locked s.leases now

    current_distinct : Distinct current
    current_distinct = Distinct-expire_locked s.leases now h.distinct

    by_test :
        (full : Bool)
        → let r : Leases × Bool = if full then (current, false) else (put current g t, true) in
          IsGuarded (reserved (record s { leases = r.0 }) g t r.1)
    by_test true =
        fewer_leases-IsGuarded s current h current_distinct
          (expire_locked-IsPart s.leases now h.distinct)
    by_test false =
        schedule-IsGuarded s (put current g t) g t h (Distinct-put current g t current_distinct)
          (get-put_at current g t)
          (λ x u apart e.
            expire_locked-IsPart s.leases now h.distinct x u
              (sym (get-put_off current g x t (λ same. apart (sym same))) ∙ e))

-- The sleep of a waiting task ends: its own lease goes, if it is still that.
pub wakes-IsGuarded :
    (s : TunnelService) (k : ℕ) (task : ExpiryTask)
    → IsGuarded s
    → get s.tasks k ≡ some task
    → IsGuarded (expire_active_tunnel s k task)
unfolding expire_active_tunnel
wakes-IsGuarded s k task h e = by_state task.state refl
  where
    after : TunnelService
    after = record s {
      leases = (remove_if_current s.leases task.gateway_id task.expires_at).0;
      tasks = put s.tasks k (record task { state = ending });
    }

    removal :
        IsWithout task.gateway_id task.expires_at s.leases
          (remove_if_current s.leases task.gateway_id task.expires_at).0
    removal = remove_if_current-IsWithout s.leases task.gateway_id task.expires_at h.distinct

    waits-IsGuarded : IsGuarded after
    waits-IsGuarded = record {
      distinct = removal.distinct;
      guarded = λ x u found.
          let (before, other) = removal.part x u found in
          let (j, registered, waits) = h.guarded x u before in
          (
            j,
            registered,
            get-put_off s.tasks k j _ (λ same.
                  let row = some_injective (sym e ∙ ap (get s.tasks) same ∙ waits) in
                  other (sym (ap (λ r. r.gateway_id) row), sym (ap (λ r. r.expires_at) row)))
                ∙ waits,
          );
      owned = λ x j registered.
          let (row, found, of_x) = h.owned x j registered in
          elim (key_cases k j) [
            | inl same ↦ (
              record task { state = ending },
              ap (get after.tasks) (sym same) ∙ get-put_at s.tasks k _,
              ap (λ r. r.gateway_id) (some_injective (sym e ∙ ap (get s.tasks) same ∙ found))
                  ∙ of_x,
            )
            | inr apart ↦ (row, get-put_off s.tasks k j _ apart ∙ found, of_x)
          ];
      unused = λ j above.
          get-put_off s.tasks k j _
            (λ same. none-ne-some (sym (h.unused j above) ∙ ap (get s.tasks) (sym same) ∙ e))
          ∙ h.unused j above;
    }

    by_removal : (current : Bool) → IsGuarded (removed after task.gateway_id current)
    by_removal true = shut_gateway-IsGuarded after task.gateway_id waits-IsGuarded
    by_removal false = waits-IsGuarded

    by_state :
        (state : TaskState)
        → task.state ≡ state
        → IsGuarded (elim state [
          | waiting ↦
              removed after task.gateway_id
                (remove_if_current s.leases task.gateway_id task.expires_at).1
          | ending ↦ s
          | over ↦ s
        ])
    by_state waiting w = by_removal (remove_if_current s.leases task.gateway_id task.expires_at).1
    by_state ending w = h
    by_state over w = h

registered_task : (k j : ℕ) → is_task k (some j) ≡ true → k ≡ j
registered_task k j t = ground (arith, t)

apart_states : ending ≡ waiting → ⊥
apart_states p = cc p

-- The `finally` of a task that ends: no lease stands on it.
pub ends-IsGuarded :
    (s : TunnelService) (k : ℕ) (task : ExpiryTask)
    → IsGuarded s
    → get s.tasks k ≡ some task
    → IsGuarded (end_task s k task)
unfolding end_task
ends-IsGuarded s k task h e = by_state task.state refl
  where
    popped : Dict String ℕ
    popped =
        if is_task k (get s.expiry_tasks task.gateway_id)
        then remove s.expiry_tasks task.gateway_id
        else s.expiry_tasks

    after : TunnelService
    after = record s { tasks = put s.tasks k (record task { state = over }); expiry_tasks = popped }

    -- A registration that is gone was the one of this task.
    part : (x : String) (j : ℕ) → get popped x ≡ some j → get s.expiry_tasks x ≡ some j
    part x j = by_test (is_task k (get s.expiry_tasks task.gateway_id))
      where
        by_test :
            (current : Bool)
            → get (if current then remove s.expiry_tasks task.gateway_id else s.expiry_tasks) x
              ≡ some j
            → get s.expiry_tasks x ≡ some j
        by_test true found = (get-remove-some s.expiry_tasks task.gateway_id x j found).1
        by_test false found = found

    stays : (x : String) (j : ℕ) → get s.expiry_tasks x ≡ some j → k ≢ j → get popped x ≡ some j
    stays x j found other = by_test (is_task k (get s.expiry_tasks task.gateway_id)) refl
      where
        by_test :
            (current : Bool)
            → is_task k (get s.expiry_tasks task.gateway_id) ≡ current
            → get (if current then remove s.expiry_tasks task.gateway_id else s.expiry_tasks) x
              ≡ some j
        by_test true t =
            get-remove_off s.expiry_tasks task.gateway_id x (λ same. other (
              registered_task k j
                (sym (ap (is_task k) (ap (get s.expiry_tasks) same ∙ found)) ∙ t)))
            ∙ found
        by_test false t = found

    ended-IsGuarded : task.state ≡ ending → IsGuarded after
    ended-IsGuarded w = record {
      distinct = h.distinct;
      guarded = λ x u found.
          let (j, registered, waits) = h.guarded x u found in
          let other : k ≢ j = λ same.
            apart_states (
              sym w ∙ ap (λ r. r.state) (some_injective (sym e ∙ ap (get s.tasks) same ∙ waits))) in
          (j, stays x j registered other, get-put_off s.tasks k j _ other ∙ waits);
      owned = λ x j registered.
          let (row, found, of_x) = h.owned x j (part x j registered) in
          elim (key_cases k j) [
            | inl same ↦ (
              record task { state = over },
              ap (get after.tasks) (sym same) ∙ get-put_at s.tasks k _,
              ap (λ r. r.gateway_id) (some_injective (sym e ∙ ap (get s.tasks) same ∙ found))
                  ∙ of_x,
            )
            | inr apart ↦ (row, get-put_off s.tasks k j _ apart ∙ found, of_x)
          ];
      unused = λ j above.
          get-put_off s.tasks k j _
            (λ same. none-ne-some (sym (h.unused j above) ∙ ap (get s.tasks) (sym same) ∙ e))
          ∙ h.unused j above;
    }

    by_state :
        (state : TaskState)
        → task.state ≡ state
        → IsGuarded (elim state [ ending ↦ after | waiting ↦ s | over ↦ s ])
    by_state waiting w = h
    by_state ending w = ended-IsGuarded w
    by_state over w = h

pub on_task-IsGuarded :
    (f : TunnelService → ℕ → ExpiryTask → TunnelService) (s : TunnelService) (k : ℕ)
    → IsGuarded s
    → ((task : ExpiryTask) → get s.tasks k ≡ some task → IsGuarded (f s k task))
    → IsGuarded (on_task f s k (get s.tasks k))
on_task-IsGuarded f s k h keeps = by_found (get s.tasks k) refl
  where
    by_found : (found : Option ExpiryTask) → get s.tasks k ≡ found → IsGuarded (on_task f s k found)
    by_found none e = h
    by_found (some task) e = keeps task e
