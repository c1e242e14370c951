-- ===== src/Cloud/Updates/Rows.antt =====
-- The gateways with a queued or running update request, through changes of the rows.
use iot_cloud_commissioning.Prelude.{
  ℕ, suc, ◌≡◌, refl, sym, ap, ◌∙◌, subst, ◌⊎◌, inl, inr, Bool, true, false, Option, none, some,
  List, [], ◌∷◌, ◌++◌, String, arith, if◌then◌else◌, In, NoRepeats, string_eq, eq_self,
}
use iot_cloud_commissioning.Cloud.Http.{Response, ok, >>=-eq-ok, ok-injective}
use iot_cloud_commissioning.Cloud.Db.{first_where, change_first}
use iot_cloud_commissioning.Cloud.Updates.{
  UpdateScope, GatewayUpdateRequest, ReleaseTargets, is_live,
}
use iot_cloud_commissioning.Cloud.Updates.Requests.{
  Requested, is_live_of, live_update, new_update, request_gateway, request_gateways,
}

abbrev pub add_if : Bool → String → List String → List String
add_if true g gs = g ∷ gs
add_if false g gs = gs

-- The gateways of the live requests.
abbrev pub live_gateways : List GatewayUpdateRequest → List String
live_gateways [] = []
live_gateways (u ∷ us) = add_if (is_live u.status) u.gateway_id (live_gateways us)

-- No gateway has two live requests.
abbrev pub IsSingle : List GatewayUpdateRequest → Type 0
IsSingle us = NoRepeats (live_gateways us)

if_none :
    {A : Type 0} (b : Bool) (a : A) (o : Option A)
    → (if b then some a else o) ≡ none
    → (b ≡ false) × (o ≡ none)
if_none true a o h = cc
if_none false a o h = (refl, h)

live_update-none :
    (g : String) (us : List GatewayUpdateRequest)
    → live_update g us ≡ none
    → ¬ In g (live_gateways us)
unfolding live_update
live_update-none g [] h m = m
live_update-none g (u ∷ us) h m =
    let (other, rest) = if_none (is_live_of g u) _ (live_update g us) h in
    by_live (is_live u.status) refl other (live_update-none g us rest) m
  where
    by_live :
        (live : Bool)
        → is_live u.status ≡ live
        → is_live_of g u ≡ false
        → (¬ In g (live_gateways us))
        → In g (add_if live u.gateway_id (live_gateways us))
        → ⊥
    by_live false l other rest m = rest m
    by_live true l other rest (inl e) = ground (arith, eq_self g, e, l, other)
    by_live true l other rest (inr m) = rest m

In-last : {A : Type 0} {y : A} (xs : List A) (x : A) → In y (xs ++ x ∷ []) → In y xs ⊎ (y ≡ x)
In-last [] x (inl e) = inr e
In-last [] x (inr m) = elim m [ ]
In-last (z ∷ xs) x (inl e) = inl (inl e)
In-last (z ∷ xs) x (inr m) = elim (In-last xs x m) [ inl n ↦ inl (inr n) | inr e ↦ inr e ]

NoRepeats-append :
    {A : Type 0} (xs : List A) (x : A) → NoRepeats xs → (¬ In x xs) → NoRepeats (xs ++ x ∷ [])
NoRepeats-append [] x h new = (λ m. m, tt)
NoRepeats-append (y ∷ xs) x h new = (
  λ m. elim (In-last xs x m) [ inl n ↦ h.0 n | inr e ↦ new (inl (sym e)) ],
  NoRepeats-append xs x h.1 (λ m. new (inr m)),
)

live_gateways-append :
    (us : List GatewayUpdateRequest) (u : GatewayUpdateRequest)
    → is_live u.status ≡ true
    → live_gateways (us ++ u ∷ []) ≡ live_gateways us ++ u.gateway_id ∷ []
live_gateways-append [] u h = rw h refl
live_gateways-append (v ∷ us) u h =
    ap (add_if (is_live v.status) v.gateway_id) (live_gateways-append us u h)
    ∙ add_if-append (is_live v.status)
  where
    add_if-append :
        (b : Bool)
        → add_if b v.gateway_id (live_gateways us ++ u.gateway_id ∷ [])
          ≡ add_if b v.gateway_id (live_gateways us) ++ u.gateway_id ∷ []
    add_if-append true = refl
    add_if-append false = refl

request_gateway-IsSingle :
    (actor : String) (scope : UpdateScope) (targets : ReleaseTargets) (now : ℕ) (g : String)
    (r : Requested)
    → IsSingle r.updates
    → IsSingle (request_gateway actor scope targets now g r).updates
unfolding request_gateway new_update
request_gateway-IsSingle actor scope targets now g r h = by_found (live_update g r.updates) refl
  where
    by_found :
        (found : Option GatewayUpdateRequest)
        → live_update g r.updates ≡ found
        → IsSingle
            (elim found as (λ _. Requested) [
              | some u ↦ record r { ids = r.ids ++ u.id ∷ [] }
              | none ↦ record {
                updates = r.updates ++ new_update r.next_id g actor scope targets now ∷ [];
                next_id = suc r.next_id;
                ids = r.ids ++ r.next_id ∷ [];
              }
            ]).updates
    by_found (some u) e = h
    by_found none e =
        subst NoRepeats
          (sym
            (live_gateways-append r.updates (new_update r.next_id g actor scope targets now) refl))
          (NoRepeats-append (live_gateways r.updates) g h (live_update-none g r.updates e))

pub request_gateways-IsSingle :
    (access : String → Response (Unit {0})) (actor : String) (scope : UpdateScope)
    (targets : ReleaseTargets) (now : ℕ) (gs : List String) (r r' : Requested)
    → IsSingle r.updates
    → request_gateways access actor scope targets now gs r ≡ ok r'
    → IsSingle r'.updates
unfolding request_gateways
request_gateways-IsSingle access actor scope targets now [] r r' h e =
    subst (λ (q : Requested). IsSingle q.updates) (ok-injective e) h
request_gateways-IsSingle access actor scope targets now (g ∷ gs) r r' h e =
    let (_, allowed, rest) = >>=-eq-ok (access g) _ e in
    request_gateways-IsSingle access actor scope targets now gs
      (request_gateway actor scope targets now g r) r'
      (request_gateway-IsSingle actor scope targets now g r h) rest

-- The change of the row that was found: its gateway stays live, when it was.
pub change_first-same :
    (p : GatewayUpdateRequest → Bool) (f : GatewayUpdateRequest → GatewayUpdateRequest)
    (us : List GatewayUpdateRequest) (u : GatewayUpdateRequest)
    → first_where p us ≡ some u
    → is_live (f u).status ≡ is_live u.status
    → (f u).gateway_id ≡ u.gateway_id
    → live_gateways (change_first p f us) ≡ live_gateways us
change_first-same p f [] u found live same = refl
change_first-same p f (v ∷ us) u found live same = by_test (p v) found (change_first-same p f us u)
  where
    by_test :
        (b : Bool)
        → (if b then some v else first_where p us) ≡ some u
        → (first_where p us ≡ some u
            → is_live (f u).status ≡ is_live u.status
            → (f u).gateway_id ≡ u.gateway_id
            → live_gateways (change_first p f us) ≡ live_gateways us)
        → live_gateways (if b then f v ∷ us else v ∷ change_first p f us) ≡ live_gateways (v ∷ us)
    by_test true hit rest =
        let e : v ≡ u = cc hit in
        subst
          (λ w.
            add_if (is_live (f w).status) (f w).gateway_id (live_gateways us)
            ≡ add_if (is_live w.status) w.gateway_id (live_gateways us))
          (sym e) (cc (live, same))
    by_test false hit rest = ap (add_if (is_live v.status) v.gateway_id) (rest hit live same)

-- Gateways that are live in `us` are live in `vs`.
abbrev IsSublist : List String → List String → Type 0
IsSublist xs ys = (g : String) → In g xs → In g ys

add_if-IsSublist :
    (b : Bool) (g : String) (xs ys : List String)
    → IsSublist xs ys
    → IsSublist (add_if b g xs) (add_if b g ys)
add_if-IsSublist true g xs ys h k (inl e) = inl e
add_if-IsSublist true g xs ys h k (inr m) = inr (h k m)
add_if-IsSublist false g xs ys h k m = h k m

add_if-NoRepeats :
    (b : Bool) (g : String) (xs ys : List String)
    → IsSublist xs ys
    → NoRepeats xs
    → NoRepeats (add_if b g ys)
    → NoRepeats (add_if b g xs)
add_if-NoRepeats true g xs ys h n m = (λ k. m.0 (h g k), n)
add_if-NoRepeats false g xs ys h n m = n

tail-NoRepeats :
    (b : Bool) (g : String) (xs : List String) → NoRepeats (add_if b g xs) → NoRepeats xs
tail-NoRepeats true g xs h = h.1
tail-NoRepeats false g xs h = h

-- A row that ends leaves the others.
pub change_first-ends :
    (p : GatewayUpdateRequest → Bool) (f : GatewayUpdateRequest → GatewayUpdateRequest)
    → ((u : GatewayUpdateRequest) → is_live (f u).status ≡ false)
    → (us : List GatewayUpdateRequest) → IsSingle us
    → IsSingle (change_first p f us)
      × IsSublist (live_gateways (change_first p f us)) (live_gateways us)
change_first-ends p f over [] h = (h, λ g m. m)
change_first-ends p f over (v ∷ us) h = by_test (p v) (
    change_first-ends p f over us
      (tail-NoRepeats (is_live v.status) v.gateway_id (live_gateways us) h))
  where
    drops : (b : Bool) → IsSublist (live_gateways us) (add_if b v.gateway_id (live_gateways us))
    drops true g m = inr m
    drops false g m = m

    by_test :
        (b : Bool)
        → IsSingle (change_first p f us)
          × IsSublist (live_gateways (change_first p f us)) (live_gateways us)
        → IsSingle (if b then f v ∷ us else v ∷ change_first p f us)
          × IsSublist
              (live_gateways (if b then f v ∷ us else v ∷ change_first p f us))
              (live_gateways (v ∷ us))
    by_test true rest =
        subst
          (λ l.
            NoRepeats (add_if l (f v).gateway_id (live_gateways us))
            × IsSublist (add_if l (f v).gateway_id (live_gateways us)) (live_gateways (v ∷ us)))
          (sym (over v))
          (
            tail-NoRepeats (is_live v.status) v.gateway_id (live_gateways us) h,
            drops (is_live v.status),
          )
    by_test false (single, fewer) = (
      add_if-NoRepeats (is_live v.status) v.gateway_id _ (live_gateways us) fewer single h,
      add_if-IsSublist (is_live v.status) v.gateway_id _ (live_gateways us) fewer,
    )
