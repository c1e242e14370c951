-- ===== src/Cloud/Mapping/Exchange/RoundTrip.antt =====
-- What the import makes of an exported mapping template.
use iot_cloud_commissioning.Prelude.{text_or, ◌≡◌, Bool, false, String, ◌==◌, string_eq}
use iot_cloud_commissioning.Cloud.Mapping.{MappingTemplateRule}
use iot_cloud_commissioning.Cloud.Mapping.Exchange.{
  Texts, Registry, required_text, default_display_label,
}

-- The label of a rule, or the default one of its role where it has none or an empty one.
abbrev pub own_label : Registry → MappingTemplateRule → String
own_label registry rule =
    text_or rule.display_label (default_display_label registry rule.logical_role)

-- The texts of a rule have no blanks around them, and its label is not empty.
abbrev pub IsPlain : Texts → Registry → MappingTemplateRule → Type 0
IsPlain texts registry rule =
    (texts.strip rule.logical_role ≡ rule.logical_role)
    × (texts.strip (own_label registry rule) ≡ own_label registry rule)
    × ((own_label registry rule == "") ≡ false)
    × (texts.strip rule.match_field ≡ rule.match_field)
    × (texts.strip rule.match_value ≡ rule.match_value)
    × (texts.strip (text_or rule.object_type "") ≡ text_or rule.object_type "")

-- The words that the export writes for a Boolean read as they are written.
abbrev pub KeepsWords : Texts → Type 0
KeepsWords texts =
    (required : Bool) → texts.lower (texts.strip (required_text required)) ≡ required_text required
