-- ===== src/Cloud/Mapping.antt =====
-- The application of a mapping template to a saved device, `ui_apply_mapping_template` of
-- cloud-api/app/main.py, on the columns that it uses. `fold` is Python's `strip().casefold()`, and
-- `tree_id` the normal form of a UUID text, if it is one. `device` is how the look-up of the device
-- with the site check ends. A conflict is kept as its parts. The
-- clock is read once. The commit checks the unique index on the device and the role of a point
-- (`SavedBacnetPoint` of cloud-api/app/models.py) on all rows, also those that the handler did not
-- select; only rows of the device change, so that its rows are the ones to check.
pub mod Counts
pub mod Unique
pub mod Kept
pub mod Steps
pub mod Roles
pub mod Exchange
mod Tests
use iot_cloud_commissioning.Prelude.{
  ℕ, suc, ◌+◌, Bool, true, false, not, ◌&&◌, ◌||◌, Option, none, some, List, [], ◌∷◌, ◌++◌, String,
  if◌then◌else◌, length, keep, any, ◌==◌, string_eq, is_some, or_else,
}
use iot_cloud_commissioning.Cloud.Http.{Response, ok, refuse_if, or_refuse, ◌>>=◌, ◌>>◌}
use iot_cloud_commissioning.Cloud.Db.{update_where, first_where}
use iot_cloud_commissioning.Cloud.Access.{is_in}

pub record MappingTemplateRule : Type 0 where
  pub logical_role : String
  pub display_label : Option String
  pub match_field : String
  pub match_value : String
  pub object_type : Option String
  pub required : Bool

pub record MappingTemplate : Type 0 where
  pub id : String
  pub name : String
  pub graphic_template_key : String
  pub rules : List MappingTemplateRule

pub record MappedDevice : Type 0 where
  pub id : String
  pub template_key : Option String
  pub mapping_template_id : Option String
  pub updated_at : ℕ

pub record MappedPoint : Type 0 where
  pub id : String
  pub saved_device_id : String
  pub object_name : Option String
  pub object_type : String
  pub logical_role : Option String
  pub display_label : Option String
  pub enabled : Bool
  pub updated_at : ℕ

pub data Conflict : Type 0 where
  matches_many : String → ℕ → Conflict
  matches_another : String → Conflict

-- The table of points and the local variables of the loop.
pub record Applied : Type 0 where
  pub points : List MappedPoint
  pub claimed : List String
  pub matched : ℕ
  pub unmatched_optional : ℕ
  pub missing_required : ℕ
  pub conflicts : List Conflict
  pub retained_existing : ℕ

-- The selection of the handler: enabled points of the device.
abbrev pub is_selected : String → MappedPoint → Bool
is_selected device p = p.saved_device_id == device && p.enabled

-- `not rule.object_type or point.object_type == rule.object_type`
abbrev pub is_of_type : Option String → String → Bool
is_of_type none kind = true
is_of_type (some t) kind = t == "" || kind == t

abbrev pub is_match : (String → String) → String → MappingTemplateRule → MappedPoint → Bool
is_match fold device rule p =
    is_selected device p
    && (fold (or_else p.object_name "") == fold rule.match_value
        && is_of_type rule.object_type p.object_type)

abbrev pub role_is : String → Option String → Bool
role_is role none = false
role_is role (some r) = r == role

abbrev pub has_role : String → String → MappedPoint → Bool
has_role device role p = is_selected device p && role_is role p.logical_role

-- Any row of the device with the role, also one that is not enabled.
abbrev pub bears_role : String → String → MappedPoint → Bool
bears_role device role p = p.saved_device_id == device && role_is role p.logical_role

-- Another row of the device has the role of this one.
abbrev pub has_twin : String → Option String → List MappedPoint → Bool
has_twin device none ps = false
has_twin device (some role) ps = any (bears_role device role) ps

-- Two rows of the device have the same role, which `uq_saved_points_device_logical_role` forbids.
unfoldable pub repeats_role : String → List MappedPoint → Bool
repeats_role device [] = false
repeats_role device (p ∷ ps) =
    p.saved_device_id == device && has_twin device p.logical_role ps || repeats_role device ps

abbrev pub no_match : Bool → Applied → Applied
no_match true s = record s { missing_required = suc s.missing_required }
no_match false s = record s { unmatched_optional = suc s.unmatched_optional }

abbrev pub conflict : Conflict → Applied → Applied
conflict c s = record s { conflicts = s.conflicts ++ c ∷ [] }

abbrev pub retain : Applied → Applied
retain s = record s { retained_existing = suc s.retained_existing }

abbrev pub bound : MappingTemplateRule → ℕ → MappedPoint → MappedPoint
bound rule now p = record p {
  logical_role = some rule.logical_role;
  display_label = rule.display_label;
  updated_at = now;
}

-- `if point.display_label is None and rule.display_label is not None`
abbrev pub labelled : MappingTemplateRule → ℕ → MappedPoint → MappedPoint
labelled rule now p =
    if not (is_some p.display_label) && is_some rule.display_label
    then record p { display_label = rule.display_label; updated_at = now }
    else p

module _ (fold : String → String) (device : String) (now : ℕ) where
  -- A change of the point that matches.
  abbrev pub change_match : MappingTemplateRule → (MappedPoint → MappedPoint) → Applied → Applied
  change_match rule change s = record s {
    points = update_where (is_match fold device rule) change s.points;
  }

  -- The point that matches holds the role of the rule, another role or none.
  unfoldable pub bind_point : MappingTemplateRule → MappedPoint → Applied → Applied
  bind_point rule p s =
      if role_is rule.logical_role p.logical_role
      then retain (change_match rule (labelled rule now) s)
      else if is_some p.logical_role || any (has_role device rule.logical_role) s.points
      then retain s
      else record (change_match rule (bound rule now) s) { matched = suc s.matched }

  unfoldable pub apply_matches : MappingTemplateRule → List MappedPoint → Applied → Applied
  unfolding bind_point
  apply_matches rule [] s = no_match rule.required s
  apply_matches rule (p ∷ []) s =
      if is_in p.id s.claimed
      then conflict (matches_another rule.logical_role) s
      else bind_point rule p (record s { claimed = p.id ∷ s.claimed })
  apply_matches rule (p ∷ q ∷ more) s =
      conflict (matches_many rule.logical_role (suc (suc (length more)))) s

  unfoldable pub apply_rule : MappingTemplateRule → Applied → Applied
  unfolding apply_matches
  apply_rule rule s = apply_matches rule (keep (is_match fold device rule) s.points) s

  -- `for rule in template.rules`
  unfoldable pub apply_rules : List MappingTemplateRule → Applied → Applied
  unfolding apply_rule
  apply_rules [] s = s
  apply_rules (rule ∷ rules) s = apply_rules rules (apply_rule rule s)

abbrev pub unapplied : List MappedPoint → Applied
unapplied points = record {
  points = points;
  claimed = [];
  matched = 0;
  unmatched_optional = 0;
  missing_required = 0;
  conflicts = [];
  retained_existing = 0;
}

abbrev pub key_is : String → Option String → Bool
key_is key none = false
key_is key (some k) = k == key

-- The device and what was applied to its points.
unfoldable pub ui_apply_mapping_template :
    (String → Option String)
    → (String → String)
    → Response MappedDevice
    → String
    → List MappingTemplate
    → ℕ
    → List MappedPoint
    → Response (MappedDevice × Applied)
unfolding apply_rules repeats_role
ui_apply_mapping_template tree_id fold device template_id templates now points = device >>= λ d.
    or_refuse (tree_id template_id) 404 "Record not found" >>= λ id.
    or_refuse (first_where (λ t. t.id == id) templates) 404 "Mapping template not found"
    >>= λ template.
        refuse_if (not (key_is template.graphic_template_key d.template_key)) 422
          "Mapping template is not compatible with the device graphic template"
        >> (let applied = apply_rules fold d.id now template.rules (unapplied points) in
            refuse_if (repeats_role d.id applied.points) 500 "Internal Server Error"
            >> ok (record d { mapping_template_id = some template.id; updated_at = now }, applied))
