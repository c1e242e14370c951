-- ===== src/Cloud/Allowlist/Tests.antt =====
-- Runs of the lease store, and the theorems at concrete inputs.
use iot_cloud_commissioning.Prelude.{
  String, leb, if◌then◌else◌, ◌==◌, some, ℕ, ◌≤◌, ◌<◌, ◌≡◌, refl, ◌≢◌, ◌↔◌, ◌⊎◌, true, false, none,
  List, [], ◌∷◌, arith, length, string_eq,
}
use iot_cloud_commissioning.Dict.{get, put, remove, has}
use iot_cloud_commissioning.Dict.Purge.{unless, Distinct, none_yet, Distinct-put, purge}
use iot_cloud_commissioning.Cloud.Allowlist.{
  Leases, Call, reserves, checks, counts, run, expire_locked, reserve,
}
use iot_cloud_commissioning.Cloud.Allowlist.View.{live, live_count, reserve-live}
use iot_cloud_commissioning.Cloud.Allowlist.Capacity.{run-length-le}

abbrev two_leases : Leases
two_leases = ("GW001", 100) ∷ ("GW002", 50) ∷ []

two_leases-Distinct : Distinct two_leases
unfolding put
two_leases-Distinct =
    Distinct-put (("GW001", 100) ∷ []) "GW002" 50 (Distinct-put [] "GW001" 100 none_yet)

-- The lease of GW002 runs out at 50, which makes room for GW003.
full_then_expired :
    (reserve two_leases "GW003" 200 2 40 ≡ (two_leases, false))
    × (reserve two_leases "GW003" 200 2 50 ≡ (("GW001", 100) ∷ ("GW003", 200) ∷ [], true))
unfolding reserve expire_locked purge get put remove has
full_then_expired = (refl, refl)

abbrev calls : List (ℕ × Call)
calls =
    (10, reserves "GW003" 90)
    ∷ (60, reserves "GW003" 90)
    ∷ (70, checks "GW001")
    ∷ (100, counts)
    ∷ []

run-length-le_example : length (run 2 two_leases calls) ≤ 2
run-length-le_example = run-length-le 2 two_leases calls (omega arith)

reserve-live_example :
    (((reserve two_leases "GW003" 200 2 50).1 ≡ true)
      ↔ ((live two_leases 50 "GW003" ≢ none) ⊎ (live_count two_leases 50 < 2)))
    × (live (reserve two_leases "GW003" 200 2 50).0 60 "GW001" ≡ (
        if (reserve two_leases "GW003" 200 2 50).1
        then (if ◌==◌ {A = String} "GW003" "GW001"
            then unless (λ u. leb u 60) (some 200)
            else live two_leases 60 "GW001")
        else live two_leases 60 "GW001"))
reserve-live_example =
    reserve-live two_leases "GW003" 200 2 50 60 "GW001" two_leases-Distinct (omega arith)
