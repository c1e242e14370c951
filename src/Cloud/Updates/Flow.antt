-- ===== src/Cloud/Updates/Flow.antt =====
-- A request is claimed once and completed once.
use iot_cloud_commissioning.Prelude.{
  ℕ, ◌≡◌, refl, sym, ap, ◌∙◌, Bool, true, false, not, Option, none, some, List, [], ◌∷◌, String,
  nat_beq, if◌then◌else◌,
}
use iot_cloud_commissioning.Cloud.Http.{
  Response, ok, http_error, refuse_if, ◌>>=◌, >>=-eq-ok, ok-injective,
}
use iot_cloud_commissioning.Cloud.Db.{first_where, change_first}
use iot_cloud_commissioning.Cloud.Access.{AdminAuthContext, require_admin_or_admin_token_auth}
use iot_cloud_commissioning.Cloud.Updates.{
  GatewayUpdateRequest, GatewayRow, UpdateDb, is_live, is_queued,
}
use iot_cloud_commissioning.Cloud.Updates.Closing.{
  Ending, claimed, ended, status_of, update_by_id, claim_found, complete_found, marked_gateways,
  admin_claim_gateway_update, admin_complete_gateway_update,
}

first_where-change_first :
    {A : Type 0} (p : A → Bool) (f : A → A) (xs : List A) (a : A)
    → ((x : A) → p (f x) ≡ p x)
    → first_where p xs ≡ some a
    → first_where p (change_first p f xs) ≡ some (f a)
first_where-change_first p f [] a same h = cc h
first_where-change_first {A} p f (x ∷ xs) a same h =
    by_test (p x) refl h (first_where-change_first p f xs a same)
  where
    by_test :
        (b : Bool)
        → p x ≡ b
        → (if b then some x else first_where p xs) ≡ some a
        → (first_where p xs ≡ some a → first_where p (change_first p f xs) ≡ some (f a))
        → first_where p (if b then f x ∷ xs else x ∷ change_first p f xs) ≡ some (f a)
    by_test true t hit rest = rw (same x, t) (cc hit)
    by_test false t hit rest = rw t (rest hit)

-- A row that is found for a second time, and is over.
claim_refused :
    (id now : ℕ) (db : UpdateDb) (u : GatewayUpdateRequest)
    → is_queued u.status ≡ false
    → claim_found id now db (some u) ≡ http_error 409 "Gateway update request is already"
unfolding claim_found
claim_refused id now db u h = rw h refl

complete_refused :
    (approved : String) (id : ℕ) (ending : Ending) (error : Option String) (now : ℕ) (db : UpdateDb)
    (u : GatewayUpdateRequest)
    → is_live u.status ≡ false
    → complete_found approved id ending error now db (some u)
      ≡ http_error 409 "Gateway update request is already"
unfolding complete_found
complete_refused approved id ending error now db u h = rw h refl

claim_found-updates :
    (id now : ℕ) (db : UpdateDb) (found : Option GatewayUpdateRequest) (after : UpdateDb)
    → update_by_id id db ≡ found
    → claim_found id now db found ≡ ok after
    → (u : GatewayUpdateRequest) × (update_by_id id after ≡ some (claimed now u))
      × (after.gateways ≡ db.gateways)
unfolding claim_found
claim_found-updates id now db none after f e = cc e
claim_found-updates id now db (some u) after f e =
    let (_, waits, e1) =
      >>=-eq-ok (refuse_if (not (is_queued u.status)) 409 "Gateway update request is already")
        (λ _.
          ok (record db { updates = change_first (λ v. nat_beq v.id id) (claimed now) db.updates }))
        e in
    let after_it = ok-injective e1 in
    (
      u,
      ap (update_by_id id) (sym after_it)
          ∙ first_where-change_first (λ v. nat_beq v.id id) (claimed now) db.updates u (λ v. refl)
              f,
      ap (λ (q : UpdateDb). q.gateways) (sym after_it),
    )

complete_found-updates :
    (approved : String) (id : ℕ) (ending : Ending) (error : Option String) (now : ℕ) (db : UpdateDb)
    (found : Option GatewayUpdateRequest) (after : UpdateDb)
    → update_by_id id db ≡ found
    → complete_found approved id ending error now db found ≡ ok after
    → (u : GatewayUpdateRequest) × (update_by_id id after ≡ some (ended ending error now u))
unfolding complete_found
complete_found-updates approved id ending error now db none after f e = cc e
complete_found-updates approved id ending error now db (some u) after f e =
    let end : List GatewayRow → Response UpdateDb = λ gateways. ok (record {
      updates = change_first (λ v. nat_beq v.id id) (ended ending error now) db.updates;
      gateways = gateways;
    }) in
    let (_, live, e1) =
      >>=-eq-ok (refuse_if (not (is_live u.status)) 409 "Gateway update request is already")
        (λ _. marked_gateways approved ending u db.gateways >>= end) e in
    let (_, marked, e2) = >>=-eq-ok (marked_gateways approved ending u db.gateways) end e1 in
    (
      u,
      ap (update_by_id id) (sym (ok-injective e2))
          ∙ first_where-change_first (λ v. nat_beq v.id id) (ended ending error now) db.updates u
              (λ v. refl) f,
    )

module _ (auth : AdminAuthContext) (may : require_admin_or_admin_token_auth auth ≡ ok auth) where
  claims_by_row :
      (id now : ℕ) (db : UpdateDb)
      → admin_claim_gateway_update auth id now db ≡ claim_found id now db (update_by_id id db)
  unfolding admin_claim_gateway_update
  claims_by_row id now db =
      ap (λ (r : Response AdminAuthContext). r >>= λ _. claim_found id now db (update_by_id id db))
        may

  completes_by_row :
      (approved : String) (id : ℕ) (ending : Ending) (error : Option String) (now : ℕ)
      (db : UpdateDb)
      → admin_complete_gateway_update approved auth id ending error now db
        ≡ complete_found approved id ending error now db (update_by_id id db)
  unfolding admin_complete_gateway_update
  completes_by_row approved id ending error now db =
      ap
        (λ (r : Response AdminAuthContext).
          r >>= λ _. complete_found approved id ending error now db (update_by_id id db))
        may

-- For a caller that may claim, a request that was claimed cannot be claimed again: a second claim
-- on the tables after the first ends with 409, at any time.
pub admin_claim_gateway_update_once :
    (auth : AdminAuthContext) (id now later : ℕ) (db after : UpdateDb)
    → require_admin_or_admin_token_auth auth ≡ ok auth
    → admin_claim_gateway_update auth id now db ≡ ok after
    → admin_claim_gateway_update auth id later after
      ≡ http_error 409 "Gateway update request is already"
admin_claim_gateway_update_once auth id now later db after may e =
    let (u, found, _) =
      claim_found-updates id now db (update_by_id id db) after refl
        (sym (claims_by_row auth may id now db) ∙ e) in
    claims_by_row auth may id later after
    ∙ ap (claim_found id later after) found
    ∙ claim_refused id later after (claimed now u) refl

-- For a caller that may complete, a request that was completed, in whichever way, is closed: on the
-- tables after that, a claim and another completion of it end with 409, at any time and with any
-- result.
pub admin_complete_gateway_update_once :
    (approved : String) (auth : AdminAuthContext) (id now later : ℕ) (ending next : Ending)
    (error detail : Option String) (db after : UpdateDb)
    → require_admin_or_admin_token_auth auth ≡ ok auth
    → admin_complete_gateway_update approved auth id ending error now db ≡ ok after
    → (admin_claim_gateway_update auth id later after
        ≡ http_error 409 "Gateway update request is already")
      × (admin_complete_gateway_update approved auth id next detail later after
          ≡ http_error 409 "Gateway update request is already")
admin_complete_gateway_update_once approved auth id now later ending next error detail db after may
      e =
    let (u, found) =
      complete_found-updates approved id ending error now db (update_by_id id db) after refl
        (sym (completes_by_row auth may approved id ending error now db) ∙ e) in
    (
      claims_by_row auth may id later after
          ∙ ap (claim_found id later after) found
          ∙ claim_refused id later after (ended ending error now u) (not_queued ending),
      completes_by_row auth may approved id next detail later after
          ∙ ap (complete_found approved id next detail later after) found
          ∙ complete_refused approved id next detail later after (ended ending error now u)
              (not_live ending),
    )
  where
    not_queued : (ending : Ending) → is_queued (status_of ending) ≡ false
    not_queued Ending.completed = refl
    not_queued Ending.failed = refl

    not_live : (ending : Ending) → is_live (status_of ending) ≡ false
    not_live Ending.completed = refl
    not_live Ending.failed = refl
