-- ===== src/Cloud/Readings.antt =====
-- Values that job results report for saved points, cloud-api/app/main.py: the `bacnet_read` and
-- `bacnet_read_bulk` parts of `receive_job_result`, and `_apply_write_readback`.
-- `str` is Python's str on a JSON value, `tree_id` the normal form of a UUID text.
pub mod Owner
use iot_cloud_commissioning.Prelude.{
  ℕ, Bool, true, false, not, ◌&&◌, ◌||◌, Option, none, some, List, [], ◌∷◌, String, leb, is_some,
  if◌then◌else◌, ◌==◌, string_eq,
}
use iot_cloud_commissioning.Json.{
  ℤ, pos, Value, null, bool, int, float, text, list, dict, Items, Fields, get_field, as_dict,
  as_text,
}
use iot_cloud_commissioning.Cloud.Db.{SavedBacnetPoint, change_first}
use iot_cloud_commissioning.Cloud.Http.{Response, ok, http_error, or_refuse, ◌>>=◌}

-- `payload.get(name, payload.get(other))`: a null under `name` is found.
abbrev pub get_or : Fields → String → String → Option Value
get_or fs name other = elim (get_field fs name) [ none ↦ get_field fs other | some v ↦ some v ]

-- The value, unless it is missing or None.
abbrev pub present : Option Value → Option Value
present none = none
present (some null) = none
present (some v) = some v

-- `point.present_value = None if value is None else str(value)`.
abbrev pub text_or_none : (Value → String) → Value → Option String
text_or_none str null = none
text_or_none str v = some (str v)

-- `priority is None or (not bool, int, 1 <= priority <= 16)`, with the value for the column.
abbrev pub valid_priority : Option Value → Option (Option ℤ)
valid_priority (some null) = some none
valid_priority (some (int (pos n))) = if leb 1 n && leb n 16 then some (some (pos n)) else none
valid_priority _ = none

-- `value is None or isinstance(value, str)`, with the value for the column.
abbrev pub valid_text : Option Value → Option (Option String)
valid_text (some null) = some none
valid_text (some (text s)) = some (some s)
valid_text _ = none

abbrev pub or_old {ℓ} : {A : Type ℓ} → Option A → A → A
or_old none old = old
or_old (some new) old = new

abbrev pub has_id : String → SavedBacnetPoint → Bool
has_id id p = p.id == id

-- `if point is not None and point.gateway_id == job.gateway_id: ...`
abbrev pub if_own :
    String → (SavedBacnetPoint → SavedBacnetPoint) → SavedBacnetPoint → SavedBacnetPoint
if_own gateway f p = if p.gateway_id == gateway then f p else p

-- The `bacnet_read` part: `point.present_value = str(value)`.
abbrev pub reading : (Value → String) → ℕ → Value → SavedBacnetPoint → SavedBacnetPoint
reading str now value p = record p {
  present_value = some (str value);
  latest_read_at = some now;
  updated_at = now;
}

save_reading :
    (String → Option String)
    → (Value → String)
    → String
    → ℕ
    → List SavedBacnetPoint
    → Option String
    → Option Value
    → Response (List SavedBacnetPoint)
save_reading tree_id str gateway now points (some id) (some value) = do
  point_id ← or_refuse (tree_id id) 404 "Record not found"
  ok (change_first (has_id point_id) (if_own gateway (reading str now value)) points)
save_reading tree_id str gateway now points _ _ = ok points

unfoldable pub save_read :
    (String → Option String)
    → (Value → String)
    → String
    → ℕ
    → List SavedBacnetPoint
    → Fields
    → Fields
    → Response (List SavedBacnetPoint)
unfolding save_reading
save_read tree_id str gateway now points request result =
    save_reading tree_id str gateway now points (as_text (get_field request "saved_point_id"))
      (present (get_or result "value" "raw_value"))

-- What one entry of a bulk read sets; nothing is stamped when nothing was set.
unfoldable pub bulk_reading : (Value → String) → ℕ → Fields → SavedBacnetPoint → SavedBacnetPoint
bulk_reading str now entry p =
    let value = present (get_or entry "value" "raw_value") in
    let priority = valid_priority (get_field entry "active_priority") in
    let array = valid_text (get_field entry "priority_array") in
    if is_some value || is_some priority || is_some array
    then record p {
      present_value = elim value [ none ↦ p.present_value | some v ↦ some (str v) ];
      active_priority = or_old priority p.active_priority;
      priority_array = or_old array p.priority_array;
      latest_read_at = some now;
      updated_at = now;
    }
    else p

save_entry :
    (String → Option String)
    → (Value → String)
    → String
    → ℕ
    → List SavedBacnetPoint
    → Fields
    → Option String
    → Response (List SavedBacnetPoint)
unfolding bulk_reading
save_entry tree_id str gateway now points entry none = ok points
save_entry tree_id str gateway now points entry (some id) = do
  point_id ← or_refuse (tree_id id) 404 "Record not found"
  ok (change_first (has_id point_id) (if_own gateway (bulk_reading str now entry)) points)

save_value :
    (String → Option String)
    → (Value → String)
    → String
    → ℕ
    → List SavedBacnetPoint
    → Option Fields
    → Response (List SavedBacnetPoint)
unfolding save_entry
save_value tree_id str gateway now points none = ok points
save_value tree_id str gateway now points (some entry) =
    save_entry tree_id str gateway now points entry (as_text (get_field entry "saved_point_id"))

unfoldable pub save_bulk :
    (String → Option String)
    → (Value → String)
    → String
    → ℕ
    → List SavedBacnetPoint
    → List Value
    → Response (List SavedBacnetPoint)
unfolding save_value
save_bulk tree_id str gateway now points [] = ok points
save_bulk tree_id str gateway now points (v ∷ vs) = do
  rest ← save_value tree_id str gateway now points (as_dict (some v))
  save_bulk tree_id str gateway now rest vs

-- The field of the result, or else of its snapshot.
unfoldable pub readback_value : Fields → String → Option Value
readback_value result name = elim (get_field result name) [
  | some v ↦ some v
  | none ↦ elim (as_dict (get_field result "snapshot")) [
    | none ↦ none
    | some snapshot ↦ get_field snapshot name
  ]
]

unfoldable pub apply_write_readback :
    (Value → String) → ℕ → Fields → SavedBacnetPoint → SavedBacnetPoint
unfolding readback_value
apply_write_readback str now result p =
    let value = readback_value result "present_value" in
    let priority = valid_priority (readback_value result "active_priority") in
    let array = valid_text (readback_value result "priority_array") in
    let relinquish = valid_text (readback_value result "relinquish_default") in
    let states = valid_text (readback_value result "state_text") in
    if is_some value || is_some priority || is_some array || is_some relinquish || is_some states
    then record p {
      present_value = elim value [ none ↦ p.present_value | some v ↦ text_or_none str v ];
      active_priority = or_old priority p.active_priority;
      priority_array = or_old array p.priority_array;
      relinquish_default = or_old relinquish p.relinquish_default;
      state_text = or_old states p.state_text;
      latest_read_at = some now;
      updated_at = now;
    }
    else p
