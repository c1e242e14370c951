-- ===== src/Cloud/Writes/Entries.antt =====
-- What the entries of a write job say of the commands: each command's own point and value.
use iot_cloud_commissioning.Prelude.{
  ◌≡◌, refl, Bool, true, false, Option, none, some, List, [], ◌∷◌, or_else, if◌then◌else◌, ◌==◌,
  string_eq,
}
use iot_cloud_commissioning.Json.{
  pos, Value, Items, Fields, null, int, text, dict, nil, cons, end, field, get_field,
}
use iot_cloud_commissioning.Cloud.Db.{BacnetWriteCommand}
use iot_cloud_commissioning.Cloud.Writes.{write_entry, entries}

-- What the entry of one command says; a relinquish carries no value, and a write without a value
-- carries `null`.
abbrev pub IsEntry : BacnetWriteCommand → Fields → Type 0
IsEntry c fs =
    (get_field fs "saved_point_id" ≡ some (text c.saved_point_id))
    × (get_field fs "object_type" ≡ some (text c.object_type))
    × (get_field fs "object_instance" ≡ some (int c.object_instance))
    × (get_field fs "action" ≡ some (text c.action))
    × (get_field fs "priority" ≡ some (int (pos c.priority)))
    × (get_field fs "value"
        ≡ (if c.action == "relinquish" then none else some (or_else c.requested_value null)))

-- One entry for each command, in their order.
abbrev pub AreEntries : List BacnetWriteCommand → Items → Type 0
AreEntries [] nil = Unit
AreEntries (c ∷ cs) (cons (dict fs) vs) = IsEntry c fs × AreEntries cs vs
AreEntries _ _ = ⊥

pub entries_lem : (cs : List BacnetWriteCommand) → AreEntries cs (entries cs)
unfolding entries write_entry get_field
entries_lem [] = tt
entries_lem (c ∷ cs) = (fields (c.action == "relinquish") c.requested_value, entries_lem cs)
  where
    value_of : Bool → Option Value → Fields
    value_of b value =
        if b
        then end
        else elim value [ none ↦ field "value" null end | some v ↦ field "value" v end ]

    written : Fields → Fields
    written value = field "saved_point_id" (text c.saved_point_id) (
        field "object_type" (text c.object_type) (
          field "object_instance" (int c.object_instance)
            (field "action" (text c.action) (field "priority" (int (pos c.priority)) value))))

    fields :
        (b : Bool) (value : Option Value)
        → (get_field (written (value_of b value)) "saved_point_id" ≡ some (text c.saved_point_id))
          × (get_field (written (value_of b value)) "object_type" ≡ some (text c.object_type))
          × (get_field (written (value_of b value)) "object_instance"
              ≡ some (int c.object_instance))
          × (get_field (written (value_of b value)) "action" ≡ some (text c.action))
          × (get_field (written (value_of b value)) "priority" ≡ some (int (pos c.priority)))
          × (get_field (written (value_of b value)) "value"
              ≡ (if b then none else some (or_else value null)))
    fields true value = (refl, refl, refl, refl, refl, refl)
    fields false none = (refl, refl, refl, refl, refl, refl)
    fields false (some v) = (refl, refl, refl, refl, refl, refl)
