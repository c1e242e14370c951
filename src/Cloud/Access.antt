-- ===== src/Cloud/Access.antt =====
-- cloud-api/app/access.py and the role checks of cloud-api/app/auth.py: who may see which site.
-- The membership tables and the sites are lists of rows; ids are compared as texts.
pub mod Scope
mod Tests
use iot_cloud_commissioning.Prelude.{
  ℕ, Bool, true, false, not, ◌&&◌, ◌||◌, Option, none, some, List, [], ◌∷◌, ◌++◌, map, String,
  if◌then◌else◌, keep, any, ◌==◌, string_eq,
}
use iot_cloud_commissioning.Cloud.Http.{Response, ok, http_error, refuse_if, ◌>>=◌}

pub record AdminAuthContext : Type 0 where
  pub auth_type : String
  pub email : Option String
  pub role : String
  pub operator_user_id : Option String

pub record SiteMembership : Type 0 where
  pub site_uuid : String
  pub operator_user_id : String

pub record OrganizationMembership : Type 0 where
  pub organization_id : String
  pub operator_user_id : String

pub record Site : Type 0 where
  pub id : String
  pub organization_id : Option String

pub record Tables : Type 0 where
  pub site_memberships : List SiteMembership
  pub organization_memberships : List OrganizationMembership
  pub sites : List Site

unfoldable pub is_platform_admin : AdminAuthContext → Bool
is_platform_admin auth = auth.auth_type == "admin_token" || auth.role == "admin"

abbrev pub is_in : String → List String → Bool
is_in s = any (λ t. t == s)

abbrev pub in_organizations : List String → Option String → Bool
in_organizations organizations none = false
in_organizations organizations (some o) = is_in o organizations

unfoldable pub direct_sites : Tables → String → List String
direct_sites t operator =
    map (λ m. m.site_uuid) (keep (λ m. m.operator_user_id == operator) t.site_memberships)

unfoldable pub organizations_of : Tables → String → List String
organizations_of t operator =
    map (λ m. m.organization_id)
      (keep (λ m. m.operator_user_id == operator) t.organization_memberships)

unfoldable pub organization_sites : Tables → List String → List String
organization_sites t organizations =
    map (λ s. s.id) (keep (λ s. in_organizations organizations s.organization_id) t.sites)

abbrev pub is_empty {ℓ} : {A : Type ℓ} → List A → Bool
is_empty [] = true
is_empty (x ∷ xs) = false

-- The scope of an operator; `none` is the platform scope, every site.
unfoldable pub operator_sites : Tables → Bool → String → Option (List String)
unfolding direct_sites organizations_of organization_sites
operator_sites t require_explicit operator =
    let organizations = organizations_of t operator in
    let found = direct_sites t operator ++ organization_sites t organizations in
    if is_empty found && is_empty organizations
    then (if require_explicit then some [] else none)
    else some found

unfoldable pub visible_site_ids : Tables → Bool → AdminAuthContext → Option (List String)
unfolding is_platform_admin operator_sites
visible_site_ids t require_explicit auth =
    if is_platform_admin auth then none else elim auth.operator_user_id [
      | none ↦ some []
      | some operator ↦ operator_sites t require_explicit operator
    ]

unfoldable pub in_scope : Option (List String) → String → Bool
in_scope none site = true
in_scope (some allowed) site = is_in site allowed

-- 404, so that a scoped operator cannot tell an unrelated site from a missing one.
unfoldable pub require_site_access : Tables → Bool → AdminAuthContext → Site → Response (Unit {0})
unfolding visible_site_ids in_scope
require_site_access t require_explicit auth site =
    refuse_if (not (in_scope (visible_site_ids t require_explicit auth) site.id)) 404
      "Site not found"

unfoldable pub require_admin_or_admin_token_auth : AdminAuthContext → Response AdminAuthContext
require_admin_or_admin_token_auth auth =
    if auth.auth_type == "admin_token" || auth.role == "admin"
    then ok auth
    else http_error 403 "Admin role required"

unfoldable pub require_job_operator_auth : AdminAuthContext → Response AdminAuthContext
require_job_operator_auth auth =
    if auth.auth_type == "admin_token" || (auth.role == "admin" || auth.role == "operator")
    then ok auth
    else http_error 403 "Operator role required"
