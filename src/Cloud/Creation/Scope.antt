-- ===== src/Cloud/Creation/Scope.antt =====
-- Who may queue which jobs.
use iot_cloud_commissioning.Prelude.{
  ℕ, ◌≡◌, ◌≢◌, ◌⊎◌, inl, inr, refl, subst, Bool, true, false, not, ◌||◌, if◌then◌else◌, Bool-cases,
  Option, none, some, List, [], ◌∷◌, ◌++◌, String, arith, ◌==◌, string_eq, eq_iff,
}
use iot_cloud_commissioning.Dict.{Dict, get}
use iot_cloud_commissioning.Json.{Fields}
use iot_cloud_commissioning.Cloud.Access.{
  AdminAuthContext, Site, Tables, is_platform_admin, in_scope, operator_sites, visible_site_ids,
  require_site_access, require_job_operator_auth,
}
use iot_cloud_commissioning.Cloud.Db.{Db, EdgeJob, JobStatus}
use iot_cloud_commissioning.Cloud.Http.{ok, refuse_if, refuse_if-eq-ok, ok-injective, >>=-eq-ok}
use iot_cloud_commissioning.Cloud.Jobs.{write_batch}
use iot_cloud_commissioning.Cloud.Creation.{
  JobCreateIn, validate_known_job_payloads, may_create, create_job,
}

abbrev pub IsAdmin : AdminAuthContext → Type 0
IsAdmin auth = (auth.auth_type ≡ "admin_token") ⊎ (auth.role ≡ "admin")

-- The gateway of the job stands in a site that the caller may see; a gateway that is not known is
-- for administrators.
abbrev pub Reaches : Tables → Bool → AdminAuthContext → Option Site → Type 0
Reaches tables require_explicit auth none = IsAdmin auth
Reaches tables require_explicit auth (some site) =
    IsAdmin auth
    ⊎ ((operator : String) × (auth.operator_user_id ≡ some operator)
        × (in_scope (operator_sites tables require_explicit operator) site.id ≡ true))

-- Who may create the job, and what is queued.
pub record IsCreated (tables : Tables) (require_explicit : Bool) (db : Db) (auth : AdminAuthContext)
    (gateways : Dict String Site) (payload : JobCreateIn) (after : Db) (job : EdgeJob)
    : Type 0 where
  pub no_write : job.job_type ≢ write_batch
  pub operator : IsAdmin auth ⊎ (auth.role ≡ "operator")
  pub scope : Reaches tables require_explicit auth (get gateways payload.gateway_id)
  pub waits :
      (job.status ≡ JobStatus.queued)
      × (job.gateway_id ≡ payload.gateway_id)
      × (job.job_type ≡ payload.job_type)
      × (job.claimed_at ≡ none)
  pub queued : after.jobs ≡ db.jobs ++ job ∷ []

any_of : (a b c : Bool) → (a || (b || c)) ≡ true → ((a ≡ true) ⊎ (b ≡ true)) ⊎ (c ≡ true)
any_of true b c h = inl (inl refl)
any_of false true c h = inl (inr refl)
any_of false false c h = inr h

is_platform_admin-IsAdmin : (auth : AdminAuthContext) → is_platform_admin auth ≡ true → IsAdmin auth
unfolding is_platform_admin
is_platform_admin-IsAdmin auth h = elim (Bool-cases (auth.auth_type == "admin_token")) [
  | inl t ↦ inl ((eq_iff auth.auth_type "admin_token").0 t)
  | inr f ↦ inr ((eq_iff auth.role "admin").0 (ground (arith, h, f)))
]

role_kept :
    (auth a : AdminAuthContext)
    → require_job_operator_auth auth ≡ ok a
    → IsAdmin auth ⊎ (auth.role ≡ "operator")
unfolding require_job_operator_auth
role_kept auth a h =
    elim (any_of (auth.auth_type == "admin_token") (auth.role == "admin") (auth.role == "operator")
      (ground (arith, h))) [
        | inl (inl t) ↦ inl (inl ((eq_iff auth.auth_type "admin_token").0 t))
        | inl (inr t) ↦ inl (inr ((eq_iff auth.role "admin").0 t))
        | inr t ↦ inr ((eq_iff auth.role "operator").0 t)
      ]

may_create-Reaches :
    (tables : Tables) (require_explicit : Bool) (auth : AdminAuthContext) (site : Option Site)
    (u : Unit {0})
    → may_create tables require_explicit auth site ≡ ok u
    → Reaches tables require_explicit auth site
unfolding may_create require_site_access visible_site_ids
may_create-Reaches tables require_explicit auth none u h =
    is_platform_admin-IsAdmin auth
      (ground (arith, refuse_if-eq-ok (not (is_platform_admin auth)) 404 "Gateway not found" h))
may_create-Reaches tables require_explicit auth (some site) u h =
    by_admin (is_platform_admin auth) refl auth.operator_user_id refl (
      refuse_if-eq-ok (not (in_scope (visible_site_ids tables require_explicit auth) site.id)) 404
        "Site not found" h)
  where
    by_admin :
        (b : Bool)
        → is_platform_admin auth ≡ b
        → (o : Option String) → auth.operator_user_id ≡ o
        → not (
            in_scope
              (if b then none else elim o as (λ _. Option (List String)) [
                | none ↦ some []
                | some operator ↦ operator_sites tables require_explicit operator
              ])
              site.id)
          ≡ false
        → Reaches tables require_explicit auth (some site)
    by_admin true e o known h = inl (is_platform_admin-IsAdmin auth e)
    by_admin false e none known h = unfold in_scope in cc h
    by_admin false e (some operator) known h = inr (operator, known, ground (arith, h))

-- A job that is created is never a BACnet write, is queued for the payload's gateway with the
-- payload's type, and its creator is an operator or an administrator: of a gateway that is known, one
-- in whose scope the gateway's site is, or an administrator; of one that is not, an administrator.
pub create_job-IsCreated :
    (tables : Tables) (require_explicit : Bool) (db : Db) (auth : AdminAuthContext)
    (gateways : Dict String Site) (payload : JobCreateIn) (id : ℕ) (job_id : String) (now : ℕ)
    (after : Db) (job : EdgeJob)
    → create_job tables require_explicit db auth gateways payload id job_id now ≡ ok (after, job)
    → IsCreated tables require_explicit db auth gateways payload after job
unfolding create_job
create_job-IsCreated tables require_explicit db auth gateways payload id job_id now after job h =
    let (a, f, h1) = >>=-eq-ok (require_job_operator_auth auth) _ h in
    let (request, e, h2) = >>=-eq-ok (validate_known_job_payloads payload) _ h1 in
    let (u, g, h3) =
      >>=-eq-ok (may_create tables require_explicit auth (get gateways payload.gateway_id)) _ h2 in
    subst (λ (r : Db × EdgeJob). IsCreated tables require_explicit db auth gateways payload r.0 r.1)
      (ok-injective h3)
      (record {
        no_write = not_write request e;
        operator = role_kept auth a f;
        scope =
            may_create-Reaches tables require_explicit auth (get gateways payload.gateway_id) u g;
        waits = (refl, refl, refl, refl);
        queued = refl;
      })
  where
    not_write :
        (request : Fields)
        → validate_known_job_payloads payload ≡ ok request
        → payload.job_type ≢ write_batch
    not_write request e same =
        unfold validate_known_job_payloads in
        let (_, k, _) =
          >>=-eq-ok
            (refuse_if (payload.job_type == write_batch) 422
              "bacnet_write_batch jobs must be queued through the admin point-write endpoint")
            _ e in
        ground (
          arith,
          eq_iff payload.job_type write_batch,
          same,
          refuse_if-eq-ok (payload.job_type == write_batch) 422
              "bacnet_write_batch jobs must be queued through the admin point-write endpoint" k,
        )
