-- ===== src/Cloud/Access/Tests.antt =====
-- Scopes of concrete operators.
use iot_cloud_commissioning.Prelude.{
  ◌≡◌, ◌↔◌, ◌⊎◌, refl, true, false, none, some, [], ◌∷◌, String, string_eq,
}
use iot_cloud_commissioning.Cloud.Http.{ok, http_error}
use iot_cloud_commissioning.Cloud.Access.{
  AdminAuthContext, Tables, Site, is_platform_admin, require_site_access,
}
use iot_cloud_commissioning.Cloud.Access.Scope.{
  IsDirect, IsByOrganization, require_site_access_exact,
}

abbrev school : Site
school = record { id = "s1"; organization_id = some "district" }

abbrev lab : Site
lab = record { id = "s2"; organization_id = none }

abbrev tables : Tables
tables = record {
  site_memberships = record { site_uuid = "s2"; operator_user_id = "ann" } ∷ [];
  organization_memberships = record { organization_id = "district"; operator_user_id = "bob" } ∷ [];
  sites = school ∷ lab ∷ [];
}

abbrev operator : String → AdminAuthContext
operator id = record {
  auth_type = "supabase_user";
  email = none;
  role = "operator";
  operator_user_id = some id;
}

ann_and_bob :
    (require_site_access tables true (operator "ann") lab ≡ ok tt)
    × (require_site_access tables true (operator "ann") school ≡ http_error 404 "Site not found")
    × (require_site_access tables true (operator "bob") school ≡ ok tt)
    × (require_site_access tables false (operator "eve") school ≡ ok tt)
    × (require_site_access tables true (operator "eve") school ≡ http_error 404 "Site not found")
unfolding require_site_access
ann_and_bob = (refl, refl, refl, refl, refl)

require_site_access_exact_example :
    ((require_site_access tables true (operator "bob") school ≡ ok tt)
      ↔ (IsDirect tables "bob" "s1" ⊎ IsByOrganization tables "bob" "s1"))
    × ((require_site_access tables true (operator "bob") school ≡ ok tt)
        ⊎ (require_site_access tables true (operator "bob") school
            ≡ http_error 404 "Site not found"))
unfolding is_platform_admin
require_site_access_exact_example =
    require_site_access_exact tables (operator "bob") "bob" school refl refl
