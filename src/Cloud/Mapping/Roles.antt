-- ===== src/Cloud/Mapping/Roles.antt =====
-- What an application of a mapping template does to the roles of points, and its counts.
use iot_cloud_commissioning.Prelude.{
  ℕ, ◌+◌, ◌≡◌, refl, true, false, Option, some, List, String, length, any, ◌==◌, string_eq, arith,
  Pointwise, In,
}
use iot_cloud_commissioning.Cloud.Http.{ok}
use iot_cloud_commissioning.Cloud.Db.{first_where}
use iot_cloud_commissioning.Cloud.Mapping.{
  MappingTemplateRule, MappingTemplate, MappedDevice, MappedPoint, Applied, apply_rules, unapplied,
  key_is, ui_apply_mapping_template,
}
use iot_cloud_commissioning.Cloud.Mapping.Counts.{IsSingle, count}
use iot_cloud_commissioning.Cloud.Mapping.Unique.{keeps_role, repeats_role-IsSingle}
use iot_cloud_commissioning.Cloud.Mapping.Kept.{IsKept}
use iot_cloud_commissioning.Cloud.Mapping.Steps.{rules_counted, is_bound, apply_rules-counts}

-- How an application changed the points of a device: each rule is counted once, as matched, missing,
-- in conflict or retained; each point keeps its id, its name, its type and the role that it had, gets
-- a role only from a rule that it matches, and changes only if it is an enabled point of the device;
-- as many more points hold a role as rules are counted as matched; and no two points of the device,
-- enabled or not, share a role.
abbrev pub IsApplied :
    (String → String) → String → List MappingTemplateRule → List MappedPoint → Applied → Type 0
IsApplied fold device rules points a =
    (rules_counted a ≡ length rules)
    × Pointwise (IsKept fold device rules) points a.points
    × (count is_bound a.points ≡ count is_bound points + a.matched)
    × IsSingle device a.points

-- If no two points of the device share a role, as the unique index has it, and no disabled point of
-- the device holds the role of a rule, then a template that is compatible with the device is applied
-- and committed, for each `fold`: the device then names it; each rule is counted once, as matched,
-- missing, in conflict or retained; no point loses or changes the role that it had, and one that got
-- a role is an enabled point of the device that matches a rule with this role; as many more points
-- hold a role as rules are counted as matched; points that are disabled or of other devices are
-- unchanged; and still no two points of the device share a role.
pub ui_apply_mapping_template-IsApplied :
    (tree_id : String → Option String) (fold : String → String) (d : MappedDevice)
    (template_id id : String) (templates : List MappingTemplate) (template : MappingTemplate)
    (now : ℕ) (points : List MappedPoint)
    → tree_id template_id ≡ some id
    → first_where (λ t. t.id == id) templates ≡ some template
    → key_is template.graphic_template_key d.template_key ≡ true
    → IsSingle d.id points
    → ((r : MappingTemplateRule)
        → In r template.rules
        → any (keeps_role d.id r.logical_role) points ≡ false)
    → (a : Applied) × (ui_apply_mapping_template tree_id fold
          (ok d)
          template_id
          templates
          now
          points
        ≡ ok (record d { mapping_template_id = some template.id; updated_at = now }, a))
      × IsApplied fold d.id template.rules points a
unfolding ui_apply_mapping_template
ui_apply_mapping_template-IsApplied tree_id fold d template_id id templates template now points
      known found compatible single free =
    let (n, kept, bindings, still) =
      apply_rules-counts fold d.id now template.rules template.rules (unapplied points)
        (λ r m. m) in
    let last : IsSingle d.id (apply_rules fold d.id now template.rules (unapplied points)).points =
      still free single in
    (
      apply_rules fold d.id now template.rules (unapplied points),
      rw (known, found, compatible, repeats_role-IsSingle d.id _ last) refl,
      (omega (arith, n), kept, omega (arith, bindings), last),
    )
