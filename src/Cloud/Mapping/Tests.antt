-- ===== src/Cloud/Mapping/Tests.antt =====
-- A template with three rules on a device with two points in use, and the role of a retired point.
use iot_cloud_commissioning.Prelude.{
  ◌≡◌, refl, true, false, none, some, List, [], ◌∷◌, String, arith, string_eq, ◌≤◌, ◌==◌, ◌+◌, Bool,
  map,
}
use iot_cloud_commissioning.Cloud.Http.{ok, http_error}
use iot_cloud_commissioning.Cloud.Mapping.{
  MappingTemplateRule, MappingTemplate, MappedDevice, MappedPoint, Applied, unapplied, apply_rules,
  apply_rule, apply_matches, bind_point, ui_apply_mapping_template,
}
use iot_cloud_commissioning.Cloud.Mapping.Counts.{bit, IsSingle}
use iot_cloud_commissioning.Cloud.Mapping.Roles.{IsApplied, ui_apply_mapping_template-IsApplied}

abbrev rule : String → String → MappingTemplateRule
rule role name = record {
  logical_role = role;
  display_label = none;
  match_field = "object_name";
  match_value = name;
  object_type = none;
  required = true;
}

abbrev template : MappingTemplate
template = record {
  id = "T1";
  name = "AHU";
  graphic_template_key = "ahu";
  rules = rule "supply_temp" "SAT" ∷ rule "return_temp" "RAT" ∷ rule "fan" "SF" ∷ [];
}

abbrev device : MappedDevice
device = record { id = "D1"; template_key = some "ahu"; mapping_template_id = none; updated_at = 0 }

abbrev point : String → String → MappedPoint
point id name = record {
  id = id;
  saved_device_id = "D1";
  object_name = some name;
  object_type = "analog-input";
  logical_role = none;
  display_label = none;
  enabled = true;
  updated_at = 0;
}

abbrev fold : String → String
fold s = s

-- The second point has a role of its own.
abbrev points : List MappedPoint
points = point "P1" "SAT" ∷ record (point "P2" "RAT") { logical_role = some "spare" } ∷ []

abbrev applied : Applied
applied = apply_rules fold "D1" 50 template.rules (unapplied points)

counted : (applied.matched ≡ 1) × (applied.retained_existing ≡ 1) × (applied.missing_required ≡ 1)
unfolding apply_rules apply_rule apply_matches bind_point
counted = (refl, refl, refl)

roles :
    map (λ (p : MappedPoint). p.logical_role) applied.points
    ≡ some "supply_temp" ∷ some "spare" ∷ []
unfolding apply_rules apply_rule apply_matches bind_point
roles = refl

-- The role of a retired point of the device would be given to another, so that two rows of the
-- device have it, which the unique index on the device and the role does not allow: the commit fails.
retired_holder :
    ui_apply_mapping_template some fold
      (ok device)
      "T1"
      (record template { rules = rule "supply_temp" "SAT" ∷ [] } ∷ [])
      50
      (point "P1" "SAT"
        ∷ record (point "P0" "SAT") { logical_role = some "supply_temp"; enabled = false }
        ∷ [])
    ≡ http_error 500 "Internal Server Error"
unfolding ui_apply_mapping_template
retired_holder = refl

single : IsSingle "D1" points
single role = by_test ("spare" == role)
  where
    by_test : (b : Bool) → 0 + (bit b + 0) ≤ 1
    by_test true = omega arith
    by_test false = omega arith

ui_apply_mapping_template-IsApplied_example :
    (a : Applied) × (ui_apply_mapping_template some fold (ok device) "T1" (template ∷ []) 50 points
      ≡ ok (record device { mapping_template_id = some "T1"; updated_at = 50 }, a))
    × IsApplied fold "D1" template.rules points a
ui_apply_mapping_template-IsApplied_example =
    ui_apply_mapping_template-IsApplied some fold device "T1" "T1" (template ∷ []) template 50
      points refl refl refl single (λ r m. refl)
