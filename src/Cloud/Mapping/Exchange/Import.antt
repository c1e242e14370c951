-- ===== src/Cloud/Mapping/Exchange/Import.antt =====
-- The import of a mapping template from CSV text, `ui_import_mapping_template` of
-- cloud-api/app/main.py, with the bounds of the request model that it builds.
use Prim.Native.String.{count}
use iot_cloud_commissioning.Prelude.{
  text_or, text_or_none, ℕ, Bool, false, not, ◌&&◌, ◌||◌, Option, none, some, List, [], ◌∷◌, map,
  String, leb, if◌then◌else◌, length, all, ◌==◌, string_eq, or_else,
}
use iot_cloud_commissioning.Dict.{get}
use iot_cloud_commissioning.Cloud.Http.{Response, ok, http_error, refuse_if, or_refuse, ◌>>=◌, ◌>>◌}
use iot_cloud_commissioning.Cloud.Access.{is_in}
use iot_cloud_commissioning.Cloud.Mapping.{MappingTemplateRule, MappingTemplate}
use iot_cloud_commissioning.Cloud.Mapping.Exchange.{
  Texts, Registry, MappingTemplateIn, CsvRow, csv_columns, ui_create_mapping_template,
}

-- `frozenset(row) == columns`
abbrev pub has_columns : List String → CsvRow → Bool
has_columns columns row =
    let names = map (λ (c : String × Option String). c.0) row.cells in
    not row.has_more
    && (all (λ name. is_in name columns) names && all (λ name. is_in name names) columns)

abbrev pub legacy_columns : List String
legacy_columns =
    "template_name" ∷ "graphic_template" ∷ "logical_role" ∷ "match_field" ∷ "match_value"
    ∷ "object_type" ∷ "required" ∷ []

abbrev pub columns_fit : List CsvRow → Bool
columns_fit [] = false
columns_fit (row ∷ rows) = has_columns legacy_columns row || has_columns csv_columns row

-- `row[column]`, of which the text is used: `None` has no `strip`.
unfoldable pub cell : String → CsvRow → Response String
unfolding get
cell column row = elim (get row.cells column) [
  | some (some text) ↦ ok text
  | _ ↦ http_error 500 "Internal Server Error"
]

-- `row.get(column) or ""`
unfoldable pub optional_cell : String → CsvRow → String
unfolding get
optional_cell column row = text_or (or_else (get row.cells column) none) ""

-- The stripped texts of a column, and the one text that they all are.
unfoldable pub column : Texts → String → List CsvRow → Response (List String)
unfolding cell
column texts name [] = ok []
column texts name (row ∷ rows) = do
  text ← cell name row
  rest ← column texts name rows
  ok (texts.strip text ∷ rest)

abbrev pub only_text : List String → Option String
only_text [] = none
only_text (x ∷ xs) = if all (λ y. y == x) xs then some x else none

unfoldable pub import_rule : Texts → CsvRow → Response MappingTemplateRule
unfolding cell optional_cell
import_rule texts row = do
  required ← cell "required" row
  let value = texts.lower (texts.strip required)
  refuse_if (not (value == "true" || value == "false")) 422 "required must be true or false"
  role ← cell "logical_role" row
  match_field ← cell "match_field" row
  match_value ← cell "match_value" row
  object_type ← cell "object_type" row
  ok (record {
    logical_role = texts.strip role;
    display_label = text_or_none (texts.strip (optional_cell "display_label" row));
    match_field = texts.strip match_field;
    match_value = texts.strip match_value;
    object_type = text_or_none (texts.strip object_type);
    required = value == "true";
  })

unfoldable pub import_rules : Texts → List CsvRow → Response (List MappingTemplateRule)
unfolding import_rule
import_rules texts [] = ok []
import_rules texts (row ∷ rows) = do
  rule ← import_rule texts row
  rest ← import_rules texts rows
  ok (rule ∷ rest)

-- The bounds that `MappingTemplateIn` and its rules declare.
abbrev pub is_within : ℕ → ℕ → ℕ → Bool
is_within low high n = leb low n && leb n high

abbrev pub rule_fits : MappingTemplateRule → Bool
rule_fits rule =
    is_within 1 80 (count rule.logical_role)
    && (leb (count (or_else rule.display_label "")) 120
        && (is_within 1 80 (count rule.match_field)
            && (is_within 1 255 (count rule.match_value)
                && leb (count (or_else rule.object_type "")) 80)))

abbrev pub fits : MappingTemplateIn → Bool
fits payload =
    is_within 1 120 (count payload.name)
    && (is_within 1 80 (count payload.graphic_template_key)
        && (is_within 1 100 (length payload.rules) && all rule_fits payload.rules))

-- `read` is what `csv.DictReader` reads, if it does not raise `csv.Error`.
unfoldable pub ui_import_mapping_template :
    Texts
    → Registry
    → (String → Option (List CsvRow))
    → String
    → String
    → List MappingTemplate
    → Response (MappingTemplate × List MappingTemplate)
unfolding column import_rules ui_create_mapping_template
ui_import_mapping_template texts registry read id csv_text templates = do
  rows ← or_refuse (read csv_text) 422 "Malformed CSV"
  refuse_if (not (columns_fit rows)) 422 "CSV columns are invalid"
  names ← column texts "template_name" rows
  graphics ← column texts "graphic_template" rows
  name ← or_refuse (only_text names) 422 "CSV must contain one named mapping template"
  graphic ← or_refuse (only_text graphics) 422 "CSV must contain one named mapping template"
  refuse_if (name == "") 422 "CSV must contain one named mapping template"
  rules ← import_rules texts rows
  let payload : MappingTemplateIn = record {
    name = name;
    graphic_template_key = graphic;
    rules = rules;
  }
  refuse_if (not (fits payload)) 500 "Internal Server Error"
  ui_create_mapping_template texts registry id payload templates
