-- ===== src/Cloud/Mapping/Exchange/Exchanged.antt =====
-- The rules of a mapping template as the import gives them back, and that they are still valid.
use iot_cloud_commissioning.Prelude.{
  text_or, text_or_none, ◌≡◌, refl, ap, ◌∙◌, Bool, true, false, not, ◌&&◌, some, List, [], ◌∷◌, map,
  String, All, ◌==◌, string_eq,
}
use iot_cloud_commissioning.Cloud.Http.{
  Response, ok, refuse_if, or_refuse, ◌>>◌, >>=-eq-ok, refuse_if-eq-ok,
}
use iot_cloud_commissioning.Cloud.Access.{is_in}
use iot_cloud_commissioning.Cloud.Writes.{has_repeats}
use iot_cloud_commissioning.Cloud.Mapping.{MappingTemplateRule, MappingTemplate}
use iot_cloud_commissioning.Cloud.Mapping.Exchange.{
  Registry, MappingTemplateIn, template_for, check_rules, roles_of, validate_mapping_template, sort,
  default_display_label,
}
use iot_cloud_commissioning.Cloud.Mapping.Exchange.Sorting.{All-sort, has_repeats-sort}

-- A rule after the round trip: it carries its own label, or the default one of its role where it
-- had none or an empty one, and an empty object type is none.
abbrev pub exchanged : Registry → MappingTemplateRule → MappingTemplateRule
exchanged registry rule = record rule {
  display_label =
      some (text_or rule.display_label (default_display_label registry rule.logical_role));
  object_type = text_or_none (text_or rule.object_type "");
}

abbrev pub payload_of : Registry → MappingTemplate → MappingTemplateIn
payload_of registry t = record {
  name = t.name;
  graphic_template_key = t.graphic_template_key;
  rules = map (exchanged registry) (sort t.rules);
}

-- The check of the rules is a test of each.
abbrev Accepts : List String → MappingTemplateRule → Type 0
Accepts roles rule = (rule.match_field == "object_name") && is_in rule.logical_role roles ≡ true

check_rules-ok :
    (roles : List String) (rules : List MappingTemplateRule) (u : Unit {0})
    → check_rules roles rules ≡ ok u
    → All (Accepts roles) rules
unfolding check_rules
check_rules-ok roles [] u h = tt
check_rules-ok roles (rule ∷ rules) u h =
    by_tests (rule.match_field == "object_name") (is_in rule.logical_role roles) h
      (check_rules-ok roles rules u)
  where
    by_tests :
        (a b : Bool)
        → (refuse_if (not a) 422 "Unsupported match field"
            >> (refuse_if (not b) 422 "Role is not supported" >> check_rules roles rules))
          ≡ ok u
        → (check_rules roles rules ≡ ok u → All (Accepts roles) rules)
        → ((a && b) ≡ true) × All (Accepts roles) rules
    by_tests true true h ih = (refl, ih h)
    by_tests true false h ih = cc h
    by_tests false b h ih = cc h

ok-check_rules :
    (registry : Registry) (roles : List String) (rules : List MappingTemplateRule)
    → All (Accepts roles) rules
    → check_rules roles (map (exchanged registry) rules) ≡ ok tt
unfolding check_rules
ok-check_rules registry roles [] h = refl
ok-check_rules registry roles (rule ∷ rules) h =
    by_tests (rule.match_field == "object_name") (is_in rule.logical_role roles) h.0
      (ok-check_rules registry roles rules h.1)
  where
    rest : Response (Unit {0})
    rest = check_rules roles (map (exchanged registry) rules)

    by_tests :
        (a b : Bool)
        → (a && b) ≡ true
        → rest ≡ ok tt
        → (refuse_if (not a) 422 "Unsupported match field"
            >> (refuse_if (not b) 422 "Role is not supported" >> rest))
          ≡ ok tt
    by_tests true true h e = e
    by_tests true false h e = cc h
    by_tests false b h e = cc h

roles-exchanged :
    (registry : Registry) (rs : List MappingTemplateRule)
    → roles_of (map (exchanged registry) rs) ≡ roles_of rs
roles-exchanged registry [] = refl
roles-exchanged registry (r ∷ rs) = ap (◌∷◌ r.logical_role) (roles-exchanged registry rs)

pub validated :
    (registry : Registry) (t : MappingTemplate)
    → validate_mapping_template registry
        (record { name = t.name; graphic_template_key = t.graphic_template_key; rules = t.rules })
      ≡ ok tt
    → validate_mapping_template registry (payload_of registry t) ≡ ok tt
unfolding validate_mapping_template
validated registry t h =
    let (roles, known, h1) =
      >>=-eq-ok
        (or_refuse (template_for registry (some t.graphic_template_key)) 422
          "Unknown graphic template")
        (λ roles.
          refuse_if (has_repeats (roles_of t.rules)) 422 repeat_text >> check_rules roles t.rules)
        h in
    let (_, unrepeated, h2) =
      >>=-eq-ok (refuse_if (has_repeats (roles_of t.rules)) 422 repeat_text)
        (λ _. check_rules roles t.rules) h1 in
    let single : has_repeats (roles_of (map (exchanged registry) (sort t.rules))) ≡ false =
      ap has_repeats (roles-exchanged registry (sort t.rules))
      ∙ has_repeats-sort t.rules
      ∙ refuse_if-eq-ok (has_repeats (roles_of t.rules)) 422 repeat_text unrepeated in
    rw (known, single)
      (ok-check_rules registry roles (sort t.rules)
        (All-sort (Accepts roles) t.rules (check_rules-ok roles t.rules tt h2)))
  where
    repeat_text : String
    repeat_text = "Duplicate logical role in mapping template"
