-- ===== src/Cloud/Access/Scope.antt =====
-- Which sites an operator reaches.
use iot_cloud_commissioning.Prelude.{
  not, ◌≡◌, ◌↔◌, ◌⊎◌, inl, inr, refl, Bool, true, false, ◌&&◌, ◌||◌, Option, none, some, List, [],
  ◌∷◌, ◌++◌, map, String, arith, if◌then◌else◌, keep, ◌==◌, string_eq, eq_iff, Bool-cases, In, ap,
  keep-nil, All-intro, subst,
}
use iot_cloud_commissioning.Cloud.Http.{ok, http_error, refuse_if}
use iot_cloud_commissioning.Cloud.Access.{
  AdminAuthContext, Tables, Site, SiteMembership, OrganizationMembership, is_in, is_empty,
  is_platform_admin, direct_sites, organizations_of, organization_sites, operator_sites,
  visible_site_ids, in_scope, require_site_access, in_organizations,
}

-- The operator has a membership of the site itself.
abbrev pub IsDirect : Tables → String → String → Type 0
IsDirect t operator site =
    (m : SiteMembership) × In m t.site_memberships
    × (m.operator_user_id ≡ operator)
    × (m.site_uuid ≡ site)

-- The operator has a membership of the organization that owns the site.
abbrev pub IsByOrganization : Tables → String → String → Type 0
IsByOrganization t operator site =
    (m : OrganizationMembership) × (s : Site) × In m t.organization_memberships
    × In s t.sites
    × (m.operator_user_id ≡ operator)
    × (s.organization_id ≡ some m.organization_id)
    × (s.id ≡ site)

module _ {A : Type 0} (p : A → Bool) (f : A → String) where
  -- A text among the images of the rows that pass.
  is_in-map-keep :
      (xs : List A) (x : String)
      → is_in x (map f (keep p xs)) ≡ true
      → (a : A) × In a xs × (p a ≡ true) × (f a ≡ x)
  is_in-map-keep [] x h = cc
  is_in-map-keep (a ∷ rest) x h = elim (Bool-cases (p a)) [
    | inl e ↦ elim (Bool-cases (f a == x)) [
      | inl k ↦ (a, inl refl, e, (eq_iff (f a) x).0 k)
      | inr k ↦ later (is_in-map-keep rest x (ground arith))
    ]
    | inr e ↦ later (is_in-map-keep rest x (ground arith))
  ]
    where
      later :
          (b : A) × In b rest × (p b ≡ true) × (f b ≡ x)
          → (b : A) × In b (a ∷ rest) × (p b ≡ true) × (f b ≡ x)
      later (b, m, t, e) = (b, inr m, t, e)

  is_in-keep-map :
      (xs : List A) (a : A) → In a xs → p a ≡ true → is_in (f a) (map f (keep p xs)) ≡ true
  is_in-keep-map [] a m t = elim m [ ]
  is_in-keep-map (x ∷ xs) a (inl e) t = rw (← e, t) (ground (arith, eq_iff (f a) (f a)))
  is_in-keep-map (x ∷ xs) a (inr m) t = ground (arith, is_in-keep-map xs a m t)

is_in-append : (xs ys : List String) (x : String) → is_in x (xs ++ ys) ≡ (is_in x xs || is_in x ys)
is_in-append [] ys x = refl
is_in-append (y ∷ xs) ys x = ground (arith, is_in-append xs ys x)

found_sites : Tables → String → List String
found_sites t operator =
    direct_sites t operator ++ organization_sites t (organizations_of t operator)

found_sound :
    (t : Tables) (operator site : String)
    → is_in site (found_sites t operator) ≡ true
    → IsDirect t operator site ⊎ IsByOrganization t operator site
unfolding found_sites direct_sites organization_sites organizations_of
found_sound t operator site h = elim (Bool-cases (is_in site (direct_sites t operator))) [
  | inl d ↦
      let (m, placed, mine, e) = is_in-map-keep _ _ t.site_memberships site d in
      inl (m, placed, (eq_iff m.operator_user_id operator).0 mine, e)
  | inr n ↦ inr (
      by_organization (
        ground (
          arith,
          is_in-append (direct_sites t operator)
              (organization_sites t (organizations_of t operator)) site,
        )))
]
  where
    by_organization :
        is_in site (organization_sites t (organizations_of t operator)) ≡ true
        → IsByOrganization t operator site
    by_organization k =
        let (s, placed, owned, e) = is_in-map-keep _ _ t.sites site k in
        owned_by s placed e s.organization_id refl owned
      where
        owned_by :
            (s : Site)
            → In s t.sites
            → s.id ≡ site
            → (o : Option String) → s.organization_id ≡ o
            → in_organizations (organizations_of t operator) o ≡ true
            → IsByOrganization t operator site
        owned_by s placed e none eo k = cc
        owned_by s placed e (some o) eo k =
            let (m, held, mine, eq) = is_in-map-keep _ _ t.organization_memberships o k in
            (m, s, held, placed, (eq_iff m.operator_user_id operator).0 mine, cc, e)

found_complete :
    (t : Tables) (operator site : String)
    → IsDirect t operator site ⊎ IsByOrganization t operator site
    → is_in site (found_sites t operator) ≡ true
unfolding found_sites
found_complete t operator site (inl (m, placed, mine, e)) =
    let k : is_in m.site_uuid (direct_sites t operator) ≡ true = direct m placed mine in
    rw
      (is_in-append (direct_sites t operator) (organization_sites t (organizations_of t operator))
        site)
      (ground (arith, subst (λ x. is_in x (direct_sites t operator) ≡ true) e k))
  where
    direct :
        (m : SiteMembership)
        → In m t.site_memberships
        → m.operator_user_id ≡ operator
        → is_in m.site_uuid (direct_sites t operator) ≡ true
    direct m placed mine =
        unfold direct_sites in
        is_in-keep-map _ (λ m. m.site_uuid) t.site_memberships m placed ((eq_iff _ _).1 mine)
found_complete t operator site (inr (m, s, held, placed, mine, owned, e)) =
    let k : is_in s.id (organization_sites t (organizations_of t operator)) ≡ true =
      owned_site (in_organization held) in
    rw
      (is_in-append (direct_sites t operator) (organization_sites t (organizations_of t operator))
        site)
      (ground (
        arith,
        subst (λ x. is_in x (organization_sites t (organizations_of t operator)) ≡ true) e k,
      ))
  where
    in_organization :
        In m t.organization_memberships
        → is_in m.organization_id (organizations_of t operator) ≡ true
    in_organization held =
        unfold organizations_of in
        is_in-keep-map _ (λ m. m.organization_id) t.organization_memberships m held
          ((eq_iff _ _).1 mine)

    owned_site :
        is_in m.organization_id (organizations_of t operator) ≡ true
        → is_in s.id (organization_sites t (organizations_of t operator)) ≡ true
    owned_site k =
        unfold organization_sites in is_in-keep-map _ (λ s. s.id) t.sites s placed (rw owned k)

operator_sites_explicit :
    (t : Tables) (operator site : String)
    → in_scope (operator_sites t true operator) site ≡ is_in site (found_sites t operator)
unfolding operator_sites in_scope found_sites
operator_sites_explicit t operator site =
    empty_found (direct_sites t operator ++ organization_sites t (organizations_of t operator))
      (is_empty (organizations_of t operator))
  where
    empty_found :
        (found : List String) (b : Bool)
        → in_scope (if is_empty found && b then some [] else some found) site ≡ is_in site found
    empty_found [] true = refl
    empty_found [] false = refl
    empty_found (x ∷ xs) b = refl

-- Once memberships are required, an operator who is no platform admin gets past the check for
-- exactly the sites of a membership, direct or of the owning organization; all others are 404.
pub require_site_access_exact :
    (t : Tables) (auth : AdminAuthContext) (operator : String) (site : Site)
    → is_platform_admin auth ≡ false
    → auth.operator_user_id ≡ some operator
    → ((require_site_access t true auth site ≡ ok tt)
        ↔ (IsDirect t operator site.id ⊎ IsByOrganization t operator site.id))
      × ((require_site_access t true auth site ≡ ok tt)
          ⊎ (require_site_access t true auth site ≡ http_error 404 "Site not found"))
unfolding require_site_access visible_site_ids
require_site_access_exact t auth operator site plain known =
    ((there, back), answers (in_scope (visible_site_ids t true auth) site.id))
  where
    scope : in_scope (visible_site_ids t true auth) site.id ≡ is_in site.id (found_sites t operator)
    scope = rw (plain, known) (operator_sites_explicit t operator site.id)

    answers :
        (b : Bool)
        → (refuse_if (not b) 404 "Site not found" ≡ ok tt)
          ⊎ (refuse_if (not b) 404 "Site not found" ≡ http_error 404 "Site not found")
    answers true = inl refl
    answers false = inr refl

    there :
        require_site_access t true auth site ≡ ok tt
        → IsDirect t operator site.id ⊎ IsByOrganization t operator site.id
    there h = found_sound t operator site.id (ground (arith, scope))

    back :
        IsDirect t operator site.id ⊎ IsByOrganization t operator site.id
        → require_site_access t true auth site ≡ ok tt
    back m = ground (arith, scope, found_complete t operator site.id m)

organization_sites-nil : (t : Tables) → organization_sites t [] ≡ []
unfolding organization_sites
organization_sites-nil t =
    ap (map (λ s. s.id)) (keep-nil _ t.sites (All-intro _ t.sites none_owned))
  where
    none_owned : (s : Site) → In s t.sites → in_organizations [] s.organization_id ≡ false
    none_owned s m = ground arith

append_empty : (xs ys : List String) → is_empty (xs ++ ys) ≡ true → xs ≡ []
append_empty [] ys h = refl
append_empty (x ∷ xs) ys h = cc

-- The legacy fallback: with memberships not required, the scope is every site for exactly the
-- operators who have no membership at all.
pub operator_sites_legacy :
    (t : Tables) (operator : String)
    → (operator_sites t false operator ≡ none)
      ↔ ((direct_sites t operator ≡ []) × (organizations_of t operator ≡ []))
unfolding operator_sites
operator_sites_legacy t operator = (there, back)
  where
    there :
        operator_sites t false operator ≡ none
        → (direct_sites t operator ≡ []) × (organizations_of t operator ≡ [])
    there h = (
      append_empty (direct_sites t operator) (organization_sites t (organizations_of t operator))
          (ground arith),
      ground arith,
    )

    back :
        (direct_sites t operator ≡ []) × (organizations_of t operator ≡ [])
        → operator_sites t false operator ≡ none
    back (d, o) = rw (d, o, organization_sites-nil t) refl
