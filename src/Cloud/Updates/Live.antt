-- ===== src/Cloud/Updates/Live.antt =====
-- Sequences of update requests, claims and completions: at most one queued or running request for
-- each gateway.
use iot_cloud_commissioning.Prelude.{
  ℕ, ◌≡◌, refl, sym, subst, Bool, true, false, not, Option, none, some, List, [], ◌∷◌, String,
  nat_beq, or_else, NoRepeats,
}
use iot_cloud_commissioning.Cloud.Http.{
  Response, ok, http_error, refuse_if, ◌>>=◌, >>=-eq-ok, refuse_if-eq-ok, ok-injective,
}
use iot_cloud_commissioning.Cloud.Db.{change_first}
use iot_cloud_commissioning.Cloud.Access.{
  AdminAuthContext, Tables, require_admin_or_admin_token_auth,
}
use iot_cloud_commissioning.Cloud.Updates.{
  UpdateScope, UpdateStatus, GatewayUpdateRequest, GatewayRow, UpdateDb, ReleaseTargets, is_live,
  is_queued, require_gateway_site_access,
}
use iot_cloud_commissioning.Cloud.Updates.Requests.{
  Requested, request_gateways, request_chosen, chosen_gateways, is_nil, ui_request_gateway_updates,
}
use iot_cloud_commissioning.Cloud.Updates.Closing.{
  Ending, update_by_id, claim_found, complete_found, marked_gateways, claimed, ended, status_of,
  admin_claim_gateway_update, admin_complete_gateway_update,
}
use iot_cloud_commissioning.Cloud.Updates.Rows.{
  IsSingle, request_gateways-IsSingle, change_first-same, change_first-ends,
}

-- What the three handlers ask for.
pub data Operation : Type 0 where
  request : List String → UpdateScope → ℕ → Operation
  claim : ℕ → Operation
  complete : ℕ → Ending → Option String → Operation

-- The caller, the time and the settings of an operation.
pub record Call : Type 0 where
  pub auth : AdminAuthContext
  pub tables : Tables
  pub explicit : Bool
  pub targets : Response ReleaseTargets
  pub approved : String
  pub now : ℕ
  pub operation : Operation

abbrev pub serve_operation : (String → String) → Call → Operation → UpdateDb → Response UpdateDb
serve_operation strip c (request ids scope next) db =
    ui_request_gateway_updates strip c.tables c.explicit c.targets c.auth ids scope c.now next db
    >>= λ r. ok r.0
serve_operation strip c (claim id) db = admin_claim_gateway_update c.auth id c.now db
serve_operation strip c (complete id ending error) db =
    admin_complete_gateway_update c.approved c.auth id ending error c.now db

-- A call that raises leaves the tables.
abbrev pub committed : Response UpdateDb → UpdateDb → UpdateDb
committed (ok after) db = after
committed (http_error code detail) db = db

-- The tables after the calls, in order.
unfoldable pub serve_all : (String → String) → List Call → UpdateDb → UpdateDb
serve_all strip [] db = db
serve_all strip (c ∷ cs) db =
    serve_all strip cs (committed (serve_operation strip c c.operation db) db)

request-IsSingle :
    (strip : String → String) (c : Call) (ids : List String) (scope : UpdateScope) (next : ℕ)
    (db : UpdateDb) {r : UpdateDb × List ℕ}
    → IsSingle db.updates
    → ui_request_gateway_updates strip c.tables c.explicit c.targets c.auth ids scope c.now next db
      ≡ ok r
    → IsSingle r.0.updates
unfolding ui_request_gateway_updates request_chosen
request-IsSingle strip c ids scope next db h e =
    let access = require_gateway_site_access c.tables c.explicit c.auth db.gateways in
    let actor = or_else c.auth.email "admin-token" in
    let chosen = chosen_gateways strip ids in
    let start : Requested = record { updates = db.updates; next_id = next; ids = [] } in
    let (_, some_chosen, e1) =
      >>=-eq-ok (refuse_if (is_nil chosen) 400 "Select at least one gateway to update")
        (λ _. c.targets >>= λ t. request_chosen access actor scope t c.now chosen next db) e in
    let (targets, approved, e2) =
      >>=-eq-ok c.targets (λ t. request_chosen access actor scope t c.now chosen next db) e1 in
    let (requested, made, e3) =
      >>=-eq-ok (request_gateways access actor scope targets c.now chosen start)
        (λ r. ok (record db { updates = r.updates }, r.ids)) e2 in
    subst (λ (q : UpdateDb × List ℕ). IsSingle q.0.updates) (ok-injective e3)
      (request_gateways-IsSingle access actor scope targets c.now chosen start requested h made)

queued-live : (s : UpdateStatus) → not (is_queued s) ≡ false → is_live s ≡ true
queued-live UpdateStatus.queued h = refl
queued-live UpdateStatus.running h = refl
queued-live UpdateStatus.completed h = cc h
queued-live UpdateStatus.failed h = cc h

claim_found-IsSingle :
    (id now : ℕ) (db : UpdateDb) (found : Option GatewayUpdateRequest) {after : UpdateDb}
    → update_by_id id db ≡ found
    → IsSingle db.updates
    → claim_found id now db found ≡ ok after
    → IsSingle after.updates
unfolding claim_found
claim_found-IsSingle id now db none f h e = cc e
claim_found-IsSingle id now db (some u) {after} f h e =
    let (_, waits, e1) =
      >>=-eq-ok (refuse_if (not (is_queued u.status)) 409 "Gateway update request is already")
        (λ _.
          ok (record db { updates = change_first (λ v. nat_beq v.id id) (claimed now) db.updates }))
        e in
    let queued =
      refuse_if-eq-ok (not (is_queued u.status)) 409 "Gateway update request is already" waits in
    subst (λ (q : UpdateDb). IsSingle q.updates) (ok-injective e1)
      (subst NoRepeats
        (sym (
          change_first-same (λ v. nat_beq v.id id) (claimed now) db.updates u f
            (sym (queued-live u.status queued)) refl))
        h)

complete_found-IsSingle :
    (approved : String) (id : ℕ) (ending : Ending) (error : Option String) (now : ℕ) (db : UpdateDb)
    (found : Option GatewayUpdateRequest) {after : UpdateDb}
    → IsSingle db.updates
    → complete_found approved id ending error now db found ≡ ok after
    → IsSingle after.updates
unfolding complete_found
complete_found-IsSingle approved id ending error now db none h e = cc e
complete_found-IsSingle approved id ending error now db (some u) h e =
    let after : List GatewayRow → Response UpdateDb = λ gateways. ok (record {
      updates = change_first (λ v. nat_beq v.id id) (ended ending error now) db.updates;
      gateways = gateways;
    }) in
    let (_, live, e1) =
      >>=-eq-ok (refuse_if (not (is_live u.status)) 409 "Gateway update request is already")
        (λ _. marked_gateways approved ending u db.gateways >>= after) e in
    let (_, marked, e2) = >>=-eq-ok (marked_gateways approved ending u db.gateways) after e1 in
    subst (λ (q : UpdateDb). IsSingle q.updates) (ok-injective e2)
      (change_first-ends (λ v. nat_beq v.id id) (ended ending error now) (λ v. over ending)
        db.updates h).0
  where
    over : (ending : Ending) → is_live (status_of ending) ≡ false
    over Ending.completed = refl
    over Ending.failed = refl

serve_operation-IsSingle :
    (strip : String → String) (c : Call) (o : Operation) (db after : UpdateDb)
    → IsSingle db.updates
    → serve_operation strip c o db ≡ ok after
    → IsSingle after.updates
unfolding admin_claim_gateway_update admin_complete_gateway_update
serve_operation-IsSingle strip c (request ids scope next) db after h e =
    let (r, made, e1) =
      >>=-eq-ok
        (ui_request_gateway_updates strip c.tables c.explicit c.targets c.auth ids scope c.now next
          db)
        (λ r. ok r.0) e in
    subst (λ (q : UpdateDb). IsSingle q.updates) (ok-injective e1)
      (request-IsSingle strip c ids scope next db h made)
serve_operation-IsSingle strip c (claim id) db after h e =
    let found = update_by_id id db in
    let (_, may, e1) =
      >>=-eq-ok (require_admin_or_admin_token_auth c.auth)
        (λ (_ : AdminAuthContext). claim_found id c.now db found) e in
    claim_found-IsSingle id c.now db found refl h e1
serve_operation-IsSingle strip c (complete id ending error) db after h e =
    let found = update_by_id id db in
    let (_, may, e1) =
      >>=-eq-ok (require_admin_or_admin_token_auth c.auth)
        (λ (_ : AdminAuthContext). complete_found c.approved id ending error c.now db found) e in
    complete_found-IsSingle c.approved id ending error c.now db found h e1

committed-IsSingle :
    (r : Response UpdateDb) (db : UpdateDb)
    → ((after : UpdateDb) → r ≡ ok after → IsSingle after.updates)
    → IsSingle db.updates
    → IsSingle (committed r db).updates
committed-IsSingle (ok after) db h same = h after refl
committed-IsSingle (http_error code detail) db h same = same

-- From tables where no gateway has two queued or running update requests, any sequence of
-- requests, claims and completions, by any callers and with any of them refused, leads to such
-- tables.
pub serve_all-IsSingle :
    (strip : String → String) (cs : List Call) (db : UpdateDb)
    → IsSingle db.updates
    → IsSingle (serve_all strip cs db).updates
unfolding serve_all
serve_all-IsSingle strip [] db h = h
serve_all-IsSingle strip (c ∷ cs) db h = serve_all-IsSingle strip cs _ (
    committed-IsSingle (serve_operation strip c c.operation db) db
      (λ after e. serve_operation-IsSingle strip c c.operation db after h e) h)
