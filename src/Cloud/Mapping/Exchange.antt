-- ===== src/Cloud/Mapping/Exchange.antt =====
-- Mapping templates as CSV text: `_validate_mapping_template`, `ui_create_mapping_template`,
-- `ui_export_mapping_template` and `ui_import_mapping_template` of cloud-api/app/main.py, with the
-- look-ups of cloud-api/app/template_registry.py on the tables that it declares. Python's csv module
-- and its operations on texts are arguments. An exception that no handler turns into an answer
-- counts as the status 500 that the framework gives it.
pub mod Import
pub mod Sorting
pub mod Exchanged
pub mod RoundTrip
mod Tests
use Prim.Native.Nat.{Ordering}
use Prim.Native.String.{compare, count}
use iot_cloud_commissioning.Prelude.{
  text_or, text_or_none, ℕ, Bool, true, false, not, ◌&&◌, ◌||◌, Option, none, some, List, [], ◌∷◌,
  ◌++◌, map, String, leb, if◌then◌else◌, length, any, all, ◌==◌, string_eq, or_else,
}
use iot_cloud_commissioning.Dict.{Dict, get}
use iot_cloud_commissioning.Cloud.Http.{Response, ok, http_error, refuse_if, or_refuse, ◌>>=◌, ◌>>◌}
use iot_cloud_commissioning.Cloud.Db.{first_where}
use iot_cloud_commissioning.Cloud.Access.{is_in}
use iot_cloud_commissioning.Cloud.Writes.{has_repeats}
use iot_cloud_commissioning.Cloud.Mapping.{MappingTemplateRule, MappingTemplate}

-- `str.strip` and `str.lower`.
pub record Texts : Type 0 where
  pub strip : String → String
  pub lower : String → String

-- `TEMPLATES` with the roles of each, `ROLE_LABELS`, and `role.replace("_", " ").title()`.
pub record Registry : Type 0 where
  pub templates : Dict String (List String)
  pub role_labels : Dict String String
  pub titled : String → String

pub record MappingTemplateIn : Type 0 where
  pub name : String
  pub graphic_template_key : String
  pub rules : List MappingTemplateRule

-- A row of `csv.DictReader`: a column that the line lacks holds `None`, and what the line has
-- beyond the columns stands under the key `None`.
pub record CsvRow : Type 0 where
  pub cells : Dict String (Option String)
  pub has_more : Bool

unfoldable pub template_for : Registry → Option String → Option (List String)
template_for registry key = get registry.templates (or_else key "")

unfoldable pub default_display_label : Registry → String → String
default_display_label registry role = or_else (get registry.role_labels role) (registry.titled role)

unfoldable pub check_rules : List String → List MappingTemplateRule → Response (Unit {0})
check_rules roles [] = ok tt
check_rules roles (rule ∷ rules) =
    refuse_if (not (rule.match_field == "object_name")) 422 "Unsupported match field"
    >> (refuse_if (not (is_in rule.logical_role roles)) 422 "Role is not supported"
        >> check_rules roles rules)

abbrev pub roles_of : List MappingTemplateRule → List String
roles_of = map (λ r. r.logical_role)

unfoldable pub validate_mapping_template : Registry → MappingTemplateIn → Response (Unit {0})
unfolding template_for check_rules
validate_mapping_template registry payload = do
  roles ←
      or_refuse (template_for registry (some payload.graphic_template_key)) 422
        "Unknown graphic template"
  refuse_if (has_repeats (roles_of payload.rules)) 422 "Duplicate logical role in mapping template"
  check_rules roles payload.rules

abbrev pub stored_rule : Texts → MappingTemplateRule → MappingTemplateRule
stored_rule texts rule = record rule {
  display_label = text_or_none (texts.strip (text_or rule.display_label ""));
}

-- The new template, and the table with it; a name is unique in the table.
unfoldable pub ui_create_mapping_template :
    Texts
    → Registry
    → String
    → MappingTemplateIn
    → List MappingTemplate
    → Response (MappingTemplate × List MappingTemplate)
unfolding validate_mapping_template
ui_create_mapping_template texts registry id payload templates = do
  validate_mapping_template registry payload
  let template : MappingTemplate = record {
    id = id;
    name = texts.strip payload.name;
    graphic_template_key = payload.graphic_template_key;
    rules = map (stored_rule texts) payload.rules;
  }
  refuse_if (any (λ (t : MappingTemplate). t.name == template.name) templates) 409
      "Mapping template name already exists"
  ok (template, templates ++ template ∷ [])

-- `sorted(rules, key=lambda item: item.logical_role)`, which keeps the order of equal keys.
abbrev pub text_leb : String → String → Bool
text_leb a b = elim (compare a b) [ Ordering.gt ↦ false | _ ↦ true ]

unfoldable pub insert : MappingTemplateRule → List MappingTemplateRule → List MappingTemplateRule
insert r [] = r ∷ []
insert r (x ∷ xs) =
    let rest = insert r xs in
    if text_leb r.logical_role x.logical_role then r ∷ x ∷ xs else x ∷ rest

unfoldable pub sort : List MappingTemplateRule → List MappingTemplateRule
unfolding insert
sort [] = []
sort (r ∷ rs) = insert r (sort rs)

-- `str(required).lower()`
abbrev pub required_text : Bool → String
required_text true = "true"
required_text false = "false"

abbrev pub label_of : Registry → MappingTemplateRule → String
label_of registry rule =
    text_or rule.display_label (default_display_label registry rule.logical_role)

abbrev pub csv_columns : List String
csv_columns =
    "template_name" ∷ "graphic_template" ∷ "logical_role" ∷ "display_label" ∷ "match_field"
    ∷ "match_value" ∷ "object_type" ∷ "required" ∷ []

abbrev pub csv_row : Registry → MappingTemplate → MappingTemplateRule → CsvRow
csv_row registry t rule = record {
  cells =
      ("template_name", some t.name)
      ∷ ("graphic_template", some t.graphic_template_key)
      ∷ ("logical_role", some rule.logical_role)
      ∷ ("display_label", some (label_of registry rule))
      ∷ ("match_field", some rule.match_field)
      ∷ ("match_value", some rule.match_value)
      ∷ ("object_type", some (text_or rule.object_type ""))
      ∷ ("required", some (required_text rule.required))
      ∷ [];
  has_more = false;
}

abbrev pub csv_rows : Registry → MappingTemplate → List CsvRow
csv_rows registry t = map (csv_row registry t) (sort t.rules)

-- `write` is what `csv.DictWriter` writes for its columns and rows.
unfoldable pub ui_export_mapping_template :
    Registry
    → (List String → List CsvRow → String)
    → (String → Option String)
    → String
    → List MappingTemplate
    → Response String
ui_export_mapping_template registry write tree_id template_id templates = do
  id ← or_refuse (tree_id template_id) 404 "Record not found"
  t ←
      or_refuse (first_where (λ (t : MappingTemplate). t.id == id) templates) 404
        "Mapping template not found"
  ok (write csv_columns (csv_rows registry t))
