-- ===== src/Cloud/Lifecycle/Schedule.antt =====
-- The guards through the start and the cancelling of an expiry task.
use iot_cloud_commissioning.Prelude.{
  ℕ, ◌≡◌, refl, sym, ap, ◌∙◌, ◌≢◌, ◌⊎◌, inl, inr, some, String, arith, nat_eq, string_eq,
}
use iot_cloud_commissioning.Dict.{Dict, get, put, remove}
use iot_cloud_commissioning.Dict.Purge.{Distinct, Distinct-remove}
use iot_cloud_commissioning.Dict.Lookup.{
  get-put_at, get-put_off, get-remove_off, get-remove-some, key_cases,
}
use iot_cloud_commissioning.Cloud.Allowlist.{Leases}
use iot_cloud_commissioning.Cloud.Lifecycle.{
  ExpiryTask, TunnelService, cancel_task, schedule_tunnel_expiry,
}
use iot_cloud_commissioning.Cloud.Lifecycle.Guards.{
  waiting_task, IsGuarded, some_injective, none-ne-some, cancel_keeps, cancel_frees, cancel_others,
}

-- A new lease of `g` and its task, which takes the place of the one before.
pub schedule-IsGuarded :
    (s : TunnelService) (leases : Leases) (g : String) (t : ℕ)
    → IsGuarded s
    → Distinct leases
    → get leases g ≡ some t
    → ((x : String) (u : ℕ) → x ≢ g → get leases x ≡ some u → get s.leases x ≡ some u)
    → IsGuarded (schedule_tunnel_expiry (record s { leases = leases }) g t)
unfolding schedule_tunnel_expiry
schedule-IsGuarded s leases g t h d admitted part = record {
  distinct = d;
  guarded = λ x u e. guards x u e (key_cases x g);
  owned = λ x k e. owns x k e (key_cases x g);
  unused = λ k above.
      get-put_off cancelled_tasks s.next_task k new (λ same. omega (arith, above, same))
      ∙ cancel_frees s.tasks (get s.expiry_tasks g) k (h.unused k (omega (arith, above)));
}
  where
    cancelled_tasks : Dict ℕ ExpiryTask
    cancelled_tasks = cancel_task s.tasks (get s.expiry_tasks g)

    new : ExpiryTask
    new = waiting_task g t

    taken : (k : ℕ) (task : ExpiryTask) → get s.tasks k ≡ some task → s.next_task ≢ k
    taken k task e same = none-ne-some (sym (h.unused k (omega (arith, same))) ∙ e)

    guards :
        (x : String) (u : ℕ)
        → get leases x ≡ some u
        → (x ≡ g) ⊎ (x ≢ g)
        → (k : ℕ) × (get (put s.expiry_tasks g s.next_task) x ≡ some k)
          × (get (put cancelled_tasks s.next_task new) k ≡ some (waiting_task x u))
    guards x u e (inl same) = (
      s.next_task,
      ap (get (put s.expiry_tasks g s.next_task)) same ∙ get-put_at s.expiry_tasks g s.next_task,
      get-put_at cancelled_tasks s.next_task new
          ∙ ap some (cc (same, some_injective (sym admitted ∙ ap (get leases) (sym same) ∙ e))),
    )
    guards x u e (inr apart) =
        let (k, registered, waits) = h.guarded x u (part x u apart e) in
        (
          k,
          get-put_off s.expiry_tasks g x s.next_task (λ same. apart (sym same)) ∙ registered,
          get-put_off cancelled_tasks s.next_task k new (taken k (waiting_task x u) waits)
              ∙ cancel_others s g x k (waiting_task x u) h apart waits refl,
        )

    owns :
        (x : String) (k : ℕ)
        → get (put s.expiry_tasks g s.next_task) x ≡ some k
        → (x ≡ g) ⊎ (x ≢ g)
        → (task : ExpiryTask) × (get (put cancelled_tasks s.next_task new) k ≡ some task)
          × (task.gateway_id ≡ x)
    owns x k e (inl same) =
        let is_new = some_injective (
          sym (get-put_at s.expiry_tasks g s.next_task)
          ∙ ap (get (put s.expiry_tasks g s.next_task)) (sym same)
          ∙ e) in
        (
          new,
          ap (get (put cancelled_tasks s.next_task new)) (sym is_new)
              ∙ get-put_at cancelled_tasks s.next_task new,
          sym same,
        )
    owns x k e (inr apart) =
        let (task, found, of_x) =
          h.owned x k
            (sym (get-put_off s.expiry_tasks g x s.next_task (λ same. apart (sym same))) ∙ e) in
        let (after, kept, same) = cancel_keeps s.tasks (get s.expiry_tasks g) k task found in
        (
          after,
          get-put_off cancelled_tasks s.next_task k new (taken k task found) ∙ kept,
          same ∙ of_x,
        )

-- The lease of `g` and the registration of its task go together.
pub unschedule-IsGuarded :
    (s : TunnelService) (g : String)
    → IsGuarded s
    → IsGuarded (record s {
      tasks = cancel_task s.tasks (get s.expiry_tasks g);
      expiry_tasks = remove s.expiry_tasks g;
      leases = remove s.leases g;
    })
unschedule-IsGuarded s g h = record {
  distinct = Distinct-remove s.leases g h.distinct;
  guarded = λ x t e.
      let (apart, old) = get-remove-some s.leases g x t e in
      let (k, registered, waits) = h.guarded x t old in
      (
        k,
        get-remove_off s.expiry_tasks g x apart ∙ registered,
        cancel_others s g x k (waiting_task x t) h (λ same. apart (sym same)) waits refl,
      );
  owned = λ x k e.
      let (apart, old) = get-remove-some s.expiry_tasks g x k e in
      let (task, found, of_x) = h.owned x k old in
      let (after, kept, same) = cancel_keeps s.tasks (get s.expiry_tasks g) k task found in
      (after, kept, same ∙ of_x);
  unused = λ k above. cancel_frees s.tasks (get s.expiry_tasks g) k (h.unused k above);
}
