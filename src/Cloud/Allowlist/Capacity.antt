-- ===== src/Cloud/Allowlist/Capacity.antt =====
-- The capacity bound and the well-formedness of the leases, over any history of calls.
use iot_cloud_commissioning.Prelude.{
  ℕ, ◌≤◌, List, [], ◌∷◌, String, leb, arith, Option-cases, inl, inr, length, string_eq,
}
use iot_cloud_commissioning.Dict.{get, has}
use iot_cloud_commissioning.Dict.Size.{length-put_new, length-put_old, length-remove-le}
use iot_cloud_commissioning.Dict.Purge.{
  Distinct, none_yet, Distinct-put, Distinct-remove, Distinct-purge, length-purge-le,
}
use iot_cloud_commissioning.Cloud.Allowlist.{
  Leases, Call, reserves, checks, removes, removes_if_current, reads, counts, clears, step, run,
  expire_locked, reserve, allows, remove_if_current, expires_at, active_count, remove_lease, clear,
}

length-expire_locked-le :
    (leases : Leases) (now : ℕ) → length (expire_locked leases now) ≤ length leases
unfolding expire_locked
length-expire_locked-le leases now = length-purge-le (λ _ t. leb t now) leases

-- Either the entry was there, and the size stays, or the test left room for one more.
reserve-length-le :
    (leases : Leases) (g : String) (t maximum now : ℕ)
    → length leases ≤ maximum
    → length (reserve leases g t maximum now).0 ≤ maximum
unfolding reserve has
reserve-length-le leases g t maximum now h = elim (Option-cases (get current g)) [
  | inl e ↦ ground (arith, bound, length-put_new current g t)
  | inr (u, e) ↦ ground (arith, bound, length-put_old current g t u)
]
  where
    current : Leases
    current = expire_locked leases now

    bound : length current ≤ length leases
    bound = length-expire_locked-le leases now

pub step-length-le :
    (maximum : ℕ) (leases : Leases) (c : ℕ × Call)
    → length leases ≤ maximum
    → length (step maximum leases c) ≤ maximum
unfolding step
step-length-le maximum leases (now, reserves g t) h = reserve-length-le leases g t maximum now h
step-length-le maximum leases (now, checks g) h =
    unfold allows in ground (arith, length-remove-le leases g)
step-length-le maximum leases (now, removes g) h =
    unfold remove_lease in omega (arith, length-remove-le leases g)
step-length-le maximum leases (now, removes_if_current g t) h =
    unfold remove_if_current in ground (arith, length-remove-le leases g)
step-length-le maximum leases (now, reads g) h =
    unfold expires_at in omega (arith, length-expire_locked-le leases now)
step-length-le maximum leases (now, counts) h =
    unfold active_count in omega (arith, length-expire_locked-le leases now)
step-length-le maximum leases (now, clears) h = unfold clear in omega arith

-- Whatever the times and the calls of methods other than `allow`, which takes no account of the
-- capacity and which no route of the service calls, a store that starts within the capacity stays
-- within it.
pub run-length-le :
    (maximum : ℕ) (leases : Leases) (cs : List (ℕ × Call))
    → length leases ≤ maximum
    → length (run maximum leases cs) ≤ maximum
unfolding run
run-length-le maximum leases [] h = h
run-length-le maximum leases (c ∷ cs) h =
    run-length-le maximum (step maximum leases c) cs (step-length-le maximum leases c h)

pub expire_locked-Distinct :
    (leases : Leases) (now : ℕ) → Distinct leases → Distinct (expire_locked leases now)
unfolding expire_locked
expire_locked-Distinct leases now d = Distinct-purge (λ _ t. leb t now) leases d

pub step-Distinct :
    (maximum : ℕ) (leases : Leases) (c : ℕ × Call)
    → Distinct leases
    → Distinct (step maximum leases c)
unfolding step
step-Distinct maximum leases (now, reserves g t) d =
    let e = expire_locked-Distinct leases now d in
    unfold reserve in ground (arith, Distinct-put (expire_locked leases now) g t e)
step-Distinct maximum leases (now, checks g) d =
    unfold allows in ground (arith, Distinct-remove leases g d)
step-Distinct maximum leases (now, removes g) d = unfold remove_lease in Distinct-remove leases g d
step-Distinct maximum leases (now, removes_if_current g t) d =
    unfold remove_if_current in ground (arith, Distinct-remove leases g d)
step-Distinct maximum leases (now, reads g) d =
    unfold expires_at in expire_locked-Distinct leases now d
step-Distinct maximum leases (now, counts) d =
    unfold active_count in expire_locked-Distinct leases now d
step-Distinct maximum leases (now, clears) d = unfold clear in none_yet
