-- ===== src/Cloud/Lifecycle/Guards.antt =====
-- Every lease has a waiting expiry task of its own.
use iot_cloud_commissioning.Prelude.{
  ℕ, ◌≤◌, ◌≡◌, refl, sym, ap, ◌∙◌, ◌≢◌, ◌⊎◌, inl, inr, Option, none, some, String, arith, leb,
  nat_eq, string_eq,
}
use iot_cloud_commissioning.Dict.{Dict, get}
use iot_cloud_commissioning.Dict.Purge.{Distinct, unless, get-purge, Distinct-purge}
use iot_cloud_commissioning.Dict.Lookup.{get-put_at, get-put_off, key_cases}
use iot_cloud_commissioning.Cloud.Allowlist.{Leases, expire_locked}
use iot_cloud_commissioning.Cloud.Lifecycle.{
  waiting, ExpiryTask, TunnelService, cancelled, cancel_found, cancel_task,
}

abbrev pub waiting_task : String → ℕ → ExpiryTask
waiting_task g t = record { gateway_id = g; expires_at = t; state = waiting }

-- The task of a gateway is registered and waits for the end of its lease; a registered task is of
-- its gateway; task numbers that were not given out are free.
pub record IsGuarded (s : TunnelService) : Type 0 where
  pub distinct : Distinct s.leases
  pub guarded :
      (g : String) (t : ℕ)
      → get s.leases g ≡ some t
      → (k : ℕ) × (get s.expiry_tasks g ≡ some k) × (get s.tasks k ≡ some (waiting_task g t))
  pub owned :
      (g : String) (k : ℕ)
      → get s.expiry_tasks g ≡ some k
      → (task : ExpiryTask) × (get s.tasks k ≡ some task) × (task.gateway_id ≡ g)
  pub unused : (k : ℕ) → s.next_task ≤ k → get s.tasks k ≡ none

pub some_injective : {A : Type 0} {a b : A} → some a ≡ some b → a ≡ b
some_injective h = cc h

pub none-ne-some : {A : Type 0} {a : A} → none ≡ some a → ⊥
none-ne-some h = cc h

-- Leases that are a part of those of `s`.
abbrev pub IsPart : Leases → Leases → Type 0
IsPart part whole = (g : String) (t : ℕ) → get part g ≡ some t → get whole g ≡ some t

pub fewer_leases-IsGuarded :
    (s : TunnelService) (leases : Leases)
    → IsGuarded s
    → Distinct leases
    → IsPart leases s.leases
    → IsGuarded (record s { leases = leases })
fewer_leases-IsGuarded s leases h d part = record {
  distinct = d;
  guarded = λ g t e. h.guarded g t (part g t e);
  owned = h.owned;
  unused = h.unused;
}

pub expire_locked-IsPart :
    (leases : Leases) (now : ℕ) → Distinct leases → IsPart (expire_locked leases now) leases
unfolding expire_locked
expire_locked-IsPart leases now d g t e =
    kept (get leases g) (sym (get-purge (λ _ u. leb u now) leases g d) ∙ e)
  where
    kept : (o : Option ℕ) → unless (λ u. leb u now) o ≡ some t → o ≡ some t
    kept none h = h
    kept (some u) h = ground (arith, h)

-- What cancelling makes of a row.
abbrev cancelled_row : Option ExpiryTask → Option ExpiryTask
cancelled_row none = none
cancelled_row (some task) = some (record task { state = cancelled task.state })

get-cancel_at :
    (tasks : Dict ℕ ExpiryTask) (k : ℕ)
    → get (cancel_task tasks (some k)) k ≡ cancelled_row (get tasks k)
unfolding cancel_task
get-cancel_at tasks k = by_found (get tasks k) refl
  where
    by_found :
        (found : Option ExpiryTask)
        → get tasks k ≡ found
        → get (cancel_found tasks k found) k ≡ cancelled_row found
    by_found none e = e
    by_found (some task) e = get-put_at tasks k _

get-cancel_off :
    (tasks : Dict ℕ ExpiryTask) (o : Option ℕ) (k : ℕ)
    → o ≢ some k
    → get (cancel_task tasks o) k ≡ get tasks k
unfolding cancel_task
get-cancel_off tasks none k h = refl
get-cancel_off tasks (some j) k h = by_found (get tasks j)
  where
    by_found : (found : Option ExpiryTask) → get (cancel_found tasks j found) k ≡ get tasks k
    by_found none = refl
    by_found (some task) = get-put_off tasks j k _ (λ same. h (ap some same))

option_cases : (o : Option ℕ) (k : ℕ) → (o ≡ some k) ⊎ (o ≢ some k)
option_cases none k = inr (λ e. cc e)
option_cases (some j) k = elim (key_cases j k) [
  | inl same ↦ inl (ap some same)
  | inr apart ↦ inr (λ e. apart (some_injective e))
]

-- A row keeps its gateway when a task is cancelled, and a free number stays free.
pub cancel_keeps :
    (tasks : Dict ℕ ExpiryTask) (o : Option ℕ) (k : ℕ) (task : ExpiryTask)
    → get tasks k ≡ some task
    → (after : ExpiryTask) × (get (cancel_task tasks o) k ≡ some after)
      × (after.gateway_id ≡ task.gateway_id)
cancel_keeps tasks o k task e = elim (option_cases o k) [
  | inl same ↦ (
    record task { state = cancelled task.state },
    ap (λ p. get (cancel_task tasks p) k) same ∙ get-cancel_at tasks k ∙ ap cancelled_row e,
    refl,
  )
  | inr apart ↦ (task, get-cancel_off tasks o k apart ∙ e, refl)
]

pub cancel_frees :
    (tasks : Dict ℕ ExpiryTask) (o : Option ℕ) (k : ℕ)
    → get tasks k ≡ none
    → get (cancel_task tasks o) k ≡ none
cancel_frees tasks o k e = elim (option_cases o k) [
  | inl same ↦
      ap (λ p. get (cancel_task tasks p) k) same ∙ get-cancel_at tasks k ∙ ap cancelled_row e
  | inr apart ↦ get-cancel_off tasks o k apart ∙ e
]

-- Cancelling the task of `g` leaves the waiting tasks of the other gateways.
pub cancel_others :
    (s : TunnelService) (g x : String) (k : ℕ) (task : ExpiryTask)
    → IsGuarded s
    → x ≢ g
    → get s.tasks k ≡ some task
    → task.gateway_id ≡ x
    → get (cancel_task s.tasks (get s.expiry_tasks g)) k ≡ some task
cancel_others s g x k task h apart e of_x =
    get-cancel_off s.tasks (get s.expiry_tasks g) k (λ registered.
      let (other, found, of_g) = h.owned g k registered in
      apart (sym of_x ∙ ap (λ r. r.gateway_id) (some_injective (sym e ∙ found)) ∙ of_g))
    ∙ e

pub Distinct-expire_locked :
    (leases : Leases) (now : ℕ) → Distinct leases → Distinct (expire_locked leases now)
unfolding expire_locked
Distinct-expire_locked leases now h = Distinct-purge (λ _ u. leb u now) leases h
