-- ===== src/Cloud/Allowlist/Removal.antt =====
-- What `remove_if_current` leaves: never the lease that it was asked to remove.
use iot_cloud_commissioning.Prelude.{
  ℕ, ◌≡◌, refl, sym, ap, ◌∙◌, Bool, true, false, Option, none, some, String, string_eq, leb, arith,
  if◌then◌else◌,
}
use iot_cloud_commissioning.Dict.{get, remove}
use iot_cloud_commissioning.Dict.Purge.{Distinct, Distinct-remove}
use iot_cloud_commissioning.Dict.Lookup.{get-remove-some}
use iot_cloud_commissioning.Cloud.Allowlist.{
  Leases, same_expiry, remove_if_current, allows_found, allows,
}

-- The lease of `g` that ends at `t` is not among the leases.
pub record IsWithout (g : String) (t : ℕ) (before after : Leases) : Type 0 where
  pub distinct : Distinct after
  pub part :
      (x : String) (u : ℕ) → get after x ≡ some u → (get before x ≡ some u) × ¬ ((x ≡ g) × (u ≡ t))

same_expiry_self : (t : ℕ) → same_expiry (some t) t ≡ false → ⊥
unfolding same_expiry
same_expiry_self t h = ground (arith, h)

pub remove_if_current-IsWithout :
    (leases : Leases) (g : String) (t : ℕ)
    → Distinct leases
    → IsWithout g t leases (remove_if_current leases g t).0
unfolding remove_if_current
remove_if_current-IsWithout leases g t d = by_test (same_expiry (get leases g) t) refl
  where
    by_test :
        (current : Bool)
        → same_expiry (get leases g) t ≡ current
        → let r : Leases × Bool = if current then (remove leases g, true) else (leases, false) in
          IsWithout g t leases r.0
    by_test true e = record {
      distinct = Distinct-remove leases g d;
      part = λ x u found.
          let (apart, before) = get-remove-some leases g x u found in
          (before, λ p. apart (sym p.0));
    }
    by_test false e = record {
      distinct = d;
      part = λ x u found. (
        found,
        λ p.
            let here : get leases g ≡ some t = ap (get leases) (sym p.0) ∙ found ∙ ap some p.1 in
            same_expiry_self t (sym (ap (λ o. same_expiry o t) here) ∙ e),
      );
    }

-- `allows` may drop the lease that it looks at, and adds none.
pub record IsFewer (before after : Leases) : Type 0 where
  pub distinct : Distinct after
  pub part : (x : String) (u : ℕ) → get after x ≡ some u → get before x ≡ some u

pub allows-IsFewer :
    (leases : Leases) (g : String) (now : ℕ)
    → Distinct leases
    → IsFewer leases (allows leases g now).0
unfolding allows
allows-IsFewer leases g now d = by_found (get leases g)
  where
    without : IsFewer leases (remove leases g)
    without = record {
      distinct = Distinct-remove leases g d;
      part = λ x u e. (get-remove-some leases g x u e).1;
    }

    by_test :
        (ran_out : Bool)
        → let r : Leases × Bool = if ran_out then (remove leases g, false) else (leases, true) in
          IsFewer leases r.0
    by_test true = without
    by_test false = record { distinct = d; part = λ x u e. e }

    by_found : (found : Option ℕ) → IsFewer leases (allows_found leases g now found).0
    by_found none = without
    by_found (some t) = by_test (leb t now)
