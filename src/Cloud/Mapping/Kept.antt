-- ===== src/Cloud/Mapping/Kept.antt =====
-- What a change of points keeps: the ids, the roles and the points that were not selected.
use iot_cloud_commissioning.Prelude.{
  ℕ, ◌≡◌, refl, ap, any, ◌||◌, ◌==◌, sym, ◌∙◌, ◌⊎◌, inl, inr, Bool, true, false, not, ◌&&◌, none,
  some, List, [], ◌∷◌, String, if◌then◌else◌, keep, string_eq, is_some, Pointwise, In,
}
use iot_cloud_commissioning.Cloud.Db.{update_where}
use iot_cloud_commissioning.Cloud.Mapping.Unique.{keeps_role}
use iot_cloud_commissioning.Cloud.Mapping.{
  MappingTemplateRule, MappedPoint, role_is, is_selected, is_match, labelled,
}

-- A point without a role that has got the role of one of the rules, which it matches.
pub record IsGiven (fold : String → String) (device : String) (rules : List MappingTemplateRule)
    (p q : MappedPoint) : Type 0 where
  pub rule : MappingTemplateRule
  pub member : In rule rules
  pub matches : is_match fold device rule p ≡ true
  pub free : p.logical_role ≡ none
  pub given : q.logical_role ≡ some rule.logical_role

-- A point keeps its id, its name, its type and its role, if it has one, gets a role only from a rule
-- that it matches, and is changed only if it is an enabled point of the device.
abbrev pub IsKept :
    (String → String) → String → List MappingTemplateRule → MappedPoint → MappedPoint → Type 0
IsKept fold device rules p q =
    (q.id ≡ p.id)
    × (q.object_name ≡ p.object_name)
    × (q.object_type ≡ p.object_type)
    × (is_selected device q ≡ is_selected device p)
    × ((q.logical_role ≡ p.logical_role) ⊎ IsGiven fold device rules p q)
    × ((is_selected device p ≡ true) ⊎ (q ≡ p))

module _ (fold : String → String) (device : String) (rules : List MappingTemplateRule) where
  pub IsKept-refl : (ps : List MappedPoint) → Pointwise (IsKept fold device rules) ps ps
  IsKept-refl [] = tt
  IsKept-refl (p ∷ ps) = ((refl, refl, refl, refl, inl refl, inr refl), IsKept-refl ps)

  IsKept-one :
      (p q r : MappedPoint)
      → IsKept fold device rules p q
      → IsKept fold device rules q r
      → IsKept fold device rules p r
  IsKept-one p q r (i, n, t, s, role, in_use) (i', n', t', s', role', in_use') =
      (i' ∙ i, n' ∙ n, t' ∙ t, s' ∙ s, roles role role', changes in_use in_use')
    where
      same_match :
          (rule : MappingTemplateRule) → is_match fold device rule q ≡ is_match fold device rule p
      same_match rule = rw (s, n, t) refl

      roles :
          ((q.logical_role ≡ p.logical_role) ⊎ IsGiven fold device rules p q)
          → ((r.logical_role ≡ q.logical_role) ⊎ IsGiven fold device rules q r)
          → (r.logical_role ≡ p.logical_role) ⊎ IsGiven fold device rules p r
      roles (inl e) (inl f) = inl (f ∙ e)
      roles (inl e) (inr g) = inr (record {
        rule = g.rule;
        member = g.member;
        matches = sym (same_match g.rule) ∙ g.matches;
        free = sym e ∙ g.free;
        given = g.given;
      })
      roles (inr g) (inl f) = inr (record {
        rule = g.rule;
        member = g.member;
        matches = g.matches;
        free = g.free;
        given = f ∙ g.given;
      })
      roles (inr g) (inr k) = absurd (none_some (sym k.free ∙ g.given))
        where
          none_some : {a : String} → none ≡ some a → ⊥
          none_some e = cc e

      changes :
          ((is_selected device p ≡ true) ⊎ (q ≡ p))
          → ((is_selected device q ≡ true) ⊎ (r ≡ q))
          → (is_selected device p ≡ true) ⊎ (r ≡ p)
      changes (inl e) b = inl e
      changes (inr e) (inl f) = inl (sym s ∙ f)
      changes (inr e) (inr f) = inr (f ∙ e)

  pub IsKept-trans :
      (ps qs rs : List MappedPoint)
      → Pointwise (IsKept fold device rules) ps qs
      → Pointwise (IsKept fold device rules) qs rs
      → Pointwise (IsKept fold device rules) ps rs
  IsKept-trans [] [] [] h k = tt
  IsKept-trans (p ∷ ps) (q ∷ qs) (r ∷ rs) (h, hs) (k, ks) =
      (IsKept-one p q r h k, IsKept-trans ps qs rs hs ks)
  IsKept-trans (p ∷ ps) (q ∷ qs) [] h k = elim k [ ]
  IsKept-trans (p ∷ ps) [] rs h k = elim h [ ]
  IsKept-trans [] (q ∷ qs) rs h k = elim h [ ]
  IsKept-trans [] [] (r ∷ rs) h k = elim k [ ]

module _ (fold : String → String) (device : String) (rules : List MappingTemplateRule) where
  -- A change of the selected points that match, if it keeps each of them.
  pub IsKept-update :
      (rule : MappingTemplateRule) (change : MappedPoint → MappedPoint) (ps : List MappedPoint)
      → ((p : MappedPoint)
          → In p (keep (is_match fold device rule) ps)
          → is_match fold device rule p ≡ true
          → is_selected device p ≡ true
          → IsKept fold device rules p (change p))
      → Pointwise (IsKept fold device rules) ps (update_where (is_match fold device rule) change ps)
  IsKept-update rule change [] keeps = tt
  IsKept-update rule change (p ∷ ps) keeps =
      by_test (is_match fold device rule p) refl keeps (IsKept-update rule change ps)
    where
      selected : (a b : Bool) → (a && b) ≡ true → a ≡ true
      selected true b h = refl
      selected false b h = h

      kept : List MappedPoint
      kept = keep (is_match fold device rule) ps

      by_test :
          (b : Bool)
          → is_match fold device rule p ≡ b
          → ((q : MappedPoint)
              → In q (if b then p ∷ kept else kept)
              → is_match fold device rule q ≡ true
              → is_selected device q ≡ true
              → IsKept fold device rules q (change q))
          → (((q : MappedPoint)
                → In q kept
                → is_match fold device rule q ≡ true
                → is_selected device q ≡ true
                → IsKept fold device rules q (change q))
              → Pointwise
                  (IsKept fold device rules)
                  ps
                  (update_where (is_match fold device rule) change ps))
          → Pointwise
              (IsKept fold device rules)
              (p ∷ ps)
              ((if b then change p else p) ∷ update_where (is_match fold device rule) change ps)
      by_test true e keeps ih =
          (keeps p (inl refl) e (selected (is_selected device p) _ e), ih (λ q m. keeps q (inr m)))
      by_test false e keeps ih = ((refl, refl, refl, refl, inl refl, inr refl), ih keeps)

module _ (fold : String → String) (device : String) (rules : List MappingTemplateRule)
    (now : ℕ) where
  pub IsKept-labelled :
      (rule : MappingTemplateRule) (p : MappedPoint)
      → is_selected device p ≡ true
      → IsKept fold device rules p (labelled rule now p)
  IsKept-labelled rule p selected =
      by_test (not (is_some p.display_label) && is_some rule.display_label)
    where
      by_test :
          (b : Bool)
          → IsKept fold device rules p
              (if b then record p { display_label = rule.display_label; updated_at = now } else p)
      by_test true = (refl, refl, refl, refl, inl refl, inl selected)
      by_test false = (refl, refl, refl, refl, inl refl, inl selected)

module _ (fold : String → String) (device : String) (rules : List MappingTemplateRule) where
  -- What disabled points hold stays as it is.
  pub any-IsKept :
      (role : String) (ps qs : List MappedPoint)
      → Pointwise (IsKept fold device rules) ps qs
      → any (keeps_role device role) qs ≡ any (keeps_role device role) ps
  any-IsKept role [] [] h = refl
  any-IsKept role (p ∷ ps) (q ∷ qs) ((_, _, _, s, _, in_use), h) =
      ap (λ b. b || any (keeps_role device role) qs) (one in_use)
      ∙ ap (λ b. keeps_role device role p || b) (any-IsKept role ps qs h)
    where
      enabled : (d e r : Bool) → (d && e) ≡ true → (d && (not e && r)) ≡ false
      enabled true true r h = refl
      enabled true false r h = cc h
      enabled false e r h = refl

      one :
          ((is_selected device p ≡ true) ⊎ (q ≡ p))
          → keeps_role device role q ≡ keeps_role device role p
      one (inl e) =
          enabled (q.saved_device_id == device) q.enabled (role_is role q.logical_role) (s ∙ e)
          ∙ sym (enabled (p.saved_device_id == device) p.enabled (role_is role p.logical_role) e)
      one (inr e) = ap (keeps_role device role) e
  any-IsKept role (p ∷ ps) [] h = elim h [ ]
  any-IsKept role [] (q ∷ qs) h = elim h [ ]
