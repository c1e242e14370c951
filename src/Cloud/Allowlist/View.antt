-- ===== src/Cloud/Allowlist/View.antt =====
-- What a client can see of the leases: which gateways hold one that has not run out.
use iot_cloud_commissioning.Prelude.{
  ℕ, ◌≤◌, ◌<◌, ◌≡◌, ◌≢◌, ◌↔◌, ◌⊎◌, true, Option, none, some, String, leb, is_some, if◌then◌else◌,
  arith, ◌==◌, eq_iff, inl, length, string_eq,
}
use iot_cloud_commissioning.Dict.{get, put, has, get-put, get-remove}
use iot_cloud_commissioning.Dict.Purge.{unless, get-purge, Distinct}
use iot_cloud_commissioning.Cloud.Allowlist.{
  Leases, expire_locked, reserve, allows, remove_if_current,
}

-- The lease of a gateway, if it runs beyond `now`.
unfoldable pub live : Leases → ℕ → String → Option ℕ
live leases now g = unless (λ t. leb t now) (get leases g)

-- How many gateways hold a lease that runs beyond `now`.
unfoldable pub live_count : Leases → ℕ → ℕ
live_count leases now = length (expire_locked leases now)

live-expire_locked :
    (leases : Leases) (now later : ℕ) (g : String)
    → Distinct leases
    → now ≤ later
    → live (expire_locked leases now) later g ≡ live leases later g
unfolding live expire_locked
live-expire_locked leases now later g d h = ground (arith, get-purge (λ _ t. leb t now) leases g d)

pub get-expire_locked :
    (leases : Leases) (now : ℕ) (g : String)
    → Distinct leases
    → get (expire_locked leases now) g ≡ live leases now g
unfolding live expire_locked
get-expire_locked leases now g d = get-purge (λ _ t. leb t now) leases g d

-- `reserve` admits a gateway exactly when it holds a live lease already or one is free.
reserve_admits :
    (leases : Leases) (g : String) (t maximum now : ℕ)
    → Distinct leases
    → ((reserve leases g t maximum now).1 ≡ true)
      ↔ ((live leases now g ≢ none) ⊎ (live_count leases now < maximum))
unfolding reserve live_count has
reserve_admits leases g t maximum now d =
    reserve_cases (live leases now g) (get-expire_locked leases now g d)
  where
    reserve_cases :
        (o : Option ℕ)
        → get (expire_locked leases now) g ≡ o
        → ((reserve leases g t maximum now).1 ≡ true)
          ↔ ((o ≢ none) ⊎ (live_count leases now < maximum))
    reserve_cases none e = (λ h. ground arith, λ h. ground arith)
    reserve_cases (some u) e = (λ _. inl (λ p. cc), λ h. ground arith)

-- An admitted gateway has the lease asked for; nobody else's changes. A refused call changes
-- no live lease.
live-reserve :
    (leases : Leases) (g : String) (t maximum now later : ℕ) (h : String)
    → Distinct leases
    → now ≤ later
    → live (reserve leases g t maximum now).0 later h ≡ (
        if (reserve leases g t maximum now).1
        then (if g == h then unless (λ u. leb u later) (some t) else live leases later h)
        else live leases later h)
unfolding reserve
live-reserve leases g t maximum now later h d le = ground (
  arith,
  live-expire_locked leases now later h d le,
  live-put (expire_locked leases now) g t later h,
)
  where
    live-put :
        (m : Leases) (g : String) (t later : ℕ) (h : String)
        → live (put m g t) later h
          ≡ (if g == h then unless (λ u. leb u later) (some t) else live m later h)
    live-put m g t later h = unfold live in ground (arith, get-put m g h t)

-- `reserve` as a client sees it: it admits a gateway exactly when that holds a live lease already
-- or one is free; an admitted gateway then has the lease asked for, and nobody else's changes; a
-- refused call changes no live lease.
pub reserve-live :
    (leases : Leases) (g : String) (t maximum now later : ℕ) (h : String)
    → Distinct leases
    → now ≤ later
    → (((reserve leases g t maximum now).1 ≡ true)
        ↔ ((live leases now g ≢ none) ⊎ (live_count leases now < maximum)))
      × (live (reserve leases g t maximum now).0 later h ≡ (
          if (reserve leases g t maximum now).1
          then (if g == h then unless (λ u. leb u later) (some t) else live leases later h)
          else live leases later h))
reserve-live leases g t maximum now later h d le =
    (reserve_admits leases g t maximum now d, live-reserve leases g t maximum now later h d le)

-- `allows` answers whether the gateway holds a live lease, and changes no live lease of anyone.
pub allows-live :
    (leases : Leases) (g : String) (now later : ℕ) (h : String)
    → now ≤ later
    → ((allows leases g now).1 ≡ is_some (live leases now g))
      × (live (allows leases g now).0 later h ≡ live leases later h)
unfolding allows live
allows-live leases g now later h le = ground (arith, get-remove leases g h, eq_iff g h)

-- The expiry task of the current lease ends it, and touches no other gateway.
pub get-remove_if_current :
    (leases : Leases) (g h : String) (t : ℕ)
    → get leases g ≡ some t
    → ((remove_if_current leases g t).1 ≡ true)
      × (get (remove_if_current leases g t).0 h ≡ (if g == h then none else get leases h))
unfolding remove_if_current
get-remove_if_current leases g h t e = ground (arith, get-remove leases g h)
