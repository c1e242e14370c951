-- ===== src/Cloud/Mapping/Exchange/Tests.antt =====
-- A template with two rules that is exported and imported elsewhere, and CSV texts that are refused.
use iot_cloud_commissioning.Prelude.{
  ◌≡◌, refl, true, false, Option, none, some, List, [], ◌∷◌, map, String, string_eq,
}
use iot_cloud_commissioning.Dict.{get}
use iot_cloud_commissioning.Cloud.Http.{http_error}
use iot_cloud_commissioning.Cloud.Mapping.{MappingTemplateRule, MappingTemplate}
use iot_cloud_commissioning.Cloud.Mapping.Exchange.{
  Texts, Registry, CsvRow, sort, csv_row, default_display_label,
}
use iot_cloud_commissioning.Cloud.Mapping.Exchange.Import.{
  cell, optional_cell, column, import_rule, import_rules, ui_import_mapping_template,
}

abbrev texts : Texts
texts = record { strip = λ s. s; lower = λ s. s }

abbrev registry : Registry
registry = record {
  templates = ("ahu", "supply_temp" ∷ "fan" ∷ []) ∷ [];
  role_labels = ("fan", "Supply fan") ∷ [];
  titled = λ role. "Supply Temp";
}

abbrev supply : MappingTemplateRule
supply = record {
  logical_role = "supply_temp";
  display_label = some "SAT";
  match_field = "object_name";
  match_value = "SA-T";
  object_type = none;
  required = true;
}

abbrev fan : MappingTemplateRule
fan = record {
  logical_role = "fan";
  display_label = none;
  match_field = "object_name";
  match_value = "SF";
  object_type = some "binary-value";
  required = false;
}

abbrev template : MappingTemplate
template = record {
  id = "T1";
  name = "AHU";
  graphic_template_key = "ahu";
  rules = supply ∷ fan ∷ [];
}

abbrev write : List String → List CsvRow → String
write columns rows = "csv"

abbrev read : List CsvRow → String → Option (List CsvRow)
read rows csv_text = some rows

in_order :
    map (λ (r : MappingTemplateRule). r.logical_role) (sort template.rules)
    ≡ "fan" ∷ "supply_temp" ∷ []
unfolding sort
in_order = refl

-- A line that ends before its last columns.
short_line :
    ui_import_mapping_template texts registry
      (read (
        record {
          cells =
              ("template_name", some "AHU")
              ∷ ("graphic_template", some "ahu")
              ∷ ("logical_role", some "fan")
              ∷ ("match_field", some "object_name")
              ∷ ("match_value", none)
              ∷ ("object_type", none)
              ∷ ("required", none)
              ∷ [];
          has_more = false;
        }
        ∷ []))
      "T2"
      "csv"
      []
    ≡ http_error 500 "Internal Server Error"
unfolding ui_import_mapping_template column import_rules import_rule cell get
short_line = refl

-- A rule without the text to match, which the request model does not take.
no_match_value :
    ui_import_mapping_template texts registry
      (read (csv_row registry template (record fan { match_value = "" }) ∷ []))
      "T2"
      "csv"
      []
    ≡ http_error 500 "Internal Server Error"
unfolding ui_import_mapping_template column import_rules import_rule cell optional_cell get
    default_display_label
no_match_value = refl
