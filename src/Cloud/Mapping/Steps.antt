-- ===== src/Cloud/Mapping/Steps.antt =====
-- What each rule of a mapping template does to the points and the counts.
use iot_cloud_commissioning.Prelude.{
  ℕ, suc, ◌+◌, ◌≡◌, refl, ap, ◌∙◌, inl, inr, Bool, true, false, not, ◌&&◌, ◌||◌, Option, none, some,
  List, [], ◌∷◌, ◌++◌, String, if◌then◌else◌, length, keep, any, string_eq, is_some, arith,
  Pointwise, In,
}
use iot_cloud_commissioning.Cloud.Access.{is_in}
use iot_cloud_commissioning.Cloud.Mapping.{
  MappingTemplateRule, MappedPoint, Conflict, matches_many, matches_another, Applied, is_match,
  role_is, has_role, no_match, conflict, retain, bound, labelled, change_match, bind_point,
  apply_matches, apply_rule, apply_rules,
}
use iot_cloud_commissioning.Cloud.Mapping.Counts.{
  IsSingle, IsSingle-labelled, IsSingle-bound, count, count-same, count-more,
}
use iot_cloud_commissioning.Cloud.Mapping.Unique.{keeps_role, any-bears_role}
use iot_cloud_commissioning.Cloud.Mapping.Kept.{
  IsKept, IsKept-refl, IsKept-trans, IsKept-update, IsKept-labelled, any-IsKept,
}

abbrev pub rules_counted : Applied → ℕ
rules_counted a =
    a.matched + a.unmatched_optional + a.missing_required + length a.conflicts + a.retained_existing

abbrev pub is_bound : MappedPoint → Bool
is_bound p = is_some p.logical_role

is_bound-labelled :
    (rule : MappingTemplateRule) (now : ℕ) (p : MappedPoint)
    → is_bound (labelled rule now p) ≡ is_bound p
is_bound-labelled rule now p = by_test (not (is_some p.display_label) && is_some rule.display_label)
  where
    by_test :
        (b : Bool)
        → is_bound
            (if b then record p { display_label = rule.display_label; updated_at = now } else p)
          ≡ is_bound p
    by_test true = refl
    by_test false = refl

module _ (fold : String → String) (device : String) (now : ℕ)
    (rules : List MappingTemplateRule) where
  -- A step of the loop: it counts one rule, keeps the points, binds as many more points as it counts
  -- as matched, and gives no role a second holder, if no disabled point of the device kept `role`.
  abbrev IsStep : String → Applied → Applied → Type 0
  IsStep role s s' =
      (rules_counted s' ≡ suc (rules_counted s))
      × Pointwise (IsKept fold device rules) s.points s'.points
      × (count is_bound s'.points + s.matched ≡ count is_bound s.points + s'.matched)
      × (any (keeps_role device role) s.points ≡ false
          → IsSingle device s.points
          → IsSingle device s'.points)

  length_snoc : {A : Type 0} (xs : List A) (a : A) → length (xs ++ a ∷ []) ≡ suc (length xs)
  length_snoc [] a = omega arith
  length_snoc (x ∷ xs) a = omega (arith, length_snoc xs a)

  conflict-IsStep : (role : String) (c : Conflict) (s : Applied) → IsStep role s (conflict c s)
  conflict-IsStep role c s = (
    omega (arith, length_snoc s.conflicts c),
    IsKept-refl fold device rules s.points,
    omega arith,
    λ k h. h,
  )

  no_match-IsStep : (role : String) (b : Bool) (s : Applied) → IsStep role s (no_match b s)
  no_match-IsStep role true s =
      (omega arith, IsKept-refl fold device rules s.points, omega arith, λ k h. h)
  no_match-IsStep role false s =
      (omega arith, IsKept-refl fold device rules s.points, omega arith, λ k h. h)

  bind_point-IsStep :
      (rule : MappingTemplateRule) (p : MappedPoint) (s : Applied)
      → In rule rules
      → keep (is_match fold device rule) s.points ≡ p ∷ []
      → IsStep rule.logical_role s (bind_point fold device now rule p s)
  unfolding bind_point
  bind_point-IsStep rule p s member one =
      by_role (role_is rule.logical_role p.logical_role) p.logical_role refl
        (any (has_role device rule.logical_role) s.points) refl
    where
      is_one : (q : MappedPoint) → In q (keep (is_match fold device rule) s.points) → q ≡ p
      is_one q m = only (rw one at m)
        where
          only : In q (p ∷ []) → q ≡ p
          only (inl e) = e
          only (inr m) = elim m [ ]

      by_role :
          (mine : Bool) (role : Option String)
          → p.logical_role ≡ role
          → (taken : Bool) → any (has_role device rule.logical_role) s.points ≡ taken
          → IsStep rule.logical_role s (
              if mine
              then retain (change_match fold device now rule (labelled rule now) s)
              else if is_some role || taken
              then retain s
              else record (change_match fold device now rule (bound rule now) s) {
                matched = suc s.matched;
              })
      by_role true role e taken t = (
        omega arith,
        IsKept-update fold device rules rule (labelled rule now) s.points
            (λ q m hit. IsKept-labelled fold device rules now rule q),
        omega (
          arith,
          count-same is_bound (is_match fold device rule) (labelled rule now) s.points
              (is_bound-labelled rule now),
        ),
        λ k. IsSingle-labelled device now rule (is_match fold device rule) s.points,
      )
      by_role false (some r) e taken t =
          (omega arith, IsKept-refl fold device rules s.points, omega arith, λ k h. h)
      by_role false none e true t =
          (omega arith, IsKept-refl fold device rules s.points, omega arith, λ k h. h)
      by_role false none e false t =
          let unbound : (q : MappedPoint)
              → In q (keep (is_match fold device rule) s.points)
              → q.logical_role ≡ none =
            λ q m. ap (λ (z : MappedPoint). z.logical_role) (is_one q m) ∙ e in
          (
            omega arith,
            IsKept-update fold device rules rule (bound rule now) s.points (λ q m hit selected. (
              refl,
              refl,
              refl,
              refl,
              inr (record {
                rule = rule;
                member = member;
                matches = hit;
                free = unbound q m;
                given = refl;
              }),
              inl selected,
            )),
            (let more =
                  count-more is_bound (is_match fold device rule) (bound rule now) s.points
                    (λ q m. ap is_some (unbound q m)) (λ q. refl) in
                let sole : length (keep (is_match fold device rule) s.points) ≡ 1 = ap length one in
                omega (arith, more, sole)),
            λ k.
                IsSingle-bound device now rule (is_match fold device rule) p s.points one
                  (any-bears_role device rule.logical_role s.points t k),
          )

  apply_matches-IsStep :
      (rule : MappingTemplateRule) (matches : List MappedPoint) (s : Applied)
      → In rule rules
      → keep (is_match fold device rule) s.points ≡ matches
      → IsStep rule.logical_role s (apply_matches fold device now rule matches s)
  unfolding apply_matches
  apply_matches-IsStep rule [] s member e = no_match-IsStep rule.logical_role rule.required s
  apply_matches-IsStep rule (p ∷ []) s member e =
      by_claim (is_in p.id s.claimed)
        (bind_point-IsStep rule p (record s { claimed = p.id ∷ s.claimed }) member e)
    where
      by_claim :
          (b : Bool)
          → IsStep rule.logical_role s
              (bind_point fold device now rule p (record s { claimed = p.id ∷ s.claimed }))
          → IsStep rule.logical_role s (
              if b
              then conflict (matches_another rule.logical_role) s
              else bind_point fold device now rule p (record s { claimed = p.id ∷ s.claimed }))
      by_claim true step = conflict-IsStep rule.logical_role (matches_another rule.logical_role) s
      by_claim false step = step
  apply_matches-IsStep rule (p ∷ q ∷ more) s member e =
      conflict-IsStep rule.logical_role (matches_many rule.logical_role (suc (suc (length more)))) s

  pub apply_rules-counts :
      (rs : List MappingTemplateRule) (s : Applied)
      → ((r : MappingTemplateRule) → In r rs → In r rules)
      → let s' = apply_rules fold device now rs s in
        (rules_counted s' ≡ rules_counted s + length rs)
        × Pointwise (IsKept fold device rules) s.points s'.points
        × (count is_bound s'.points + s.matched ≡ count is_bound s.points + s'.matched)
        × (((r : MappingTemplateRule)
              → In r rs
              → any (keeps_role device r.logical_role) s.points ≡ false)
            → IsSingle device s.points
            → IsSingle device s'.points)
  unfolding apply_rules apply_rule
  apply_rules-counts [] s within =
      (omega arith, IsKept-refl fold device rules s.points, omega arith, λ k h. h)
  apply_rules-counts (rule ∷ rs) s within =
      let s' = apply_rule fold device now rule s in
      let (n, kept, bindings, single) =
        apply_matches-IsStep rule (keep (is_match fold device rule) s.points) s
          (within rule (inl refl)) refl in
      let (more, kept', bindings', single') = apply_rules-counts rs s' (λ r m. within r (inr m)) in
      (
        omega (arith, n, more),
        IsKept-trans fold device rules s.points s'.points (apply_rules fold device now rs s').points
            kept kept',
        omega (arith, bindings, bindings'),
        λ free h.
            single'
              (λ r m.
                any-IsKept fold device rules r.logical_role s.points s'.points kept
                ∙ free r (inr m))
              (single (free rule (inl refl)) h),
      )
