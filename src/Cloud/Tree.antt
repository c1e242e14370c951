-- ===== src/Cloud/Tree.antt =====
-- The saved device tree of a gateway, as job results extend it: the `bacnet_discover` and
-- `bacnet_load_points` parts of `receive_job_result`, cloud-api/app/main.py. The session does not
-- autoflush, so a lookup sees the stored rows and not those that the same result adds. `fresh`
-- gives the id of the n-th row that is added.
pub mod Isolation
mod Tests
use iot_cloud_commissioning.Prelude.{
  ℕ, Bool, true, false, not, ◌&&◌, ◌||◌, Option, none, some, List, [], ◌∷◌, ◌++◌, String,
  if◌then◌else◌, length, ◌==◌, string_eq,
}
use iot_cloud_commissioning.Json.{
  ℤ, pos, int_eq, Value, bool, int, Items, Fields, nil, cons, get_field, as_dict, as_int, as_text,
}
use iot_cloud_commissioning.Cloud.Db.{
  SavedBacnetDevice, SavedBacnetPoint, Session, first_where, change_first,
}

-- `isinstance(value, int)`, which a bool passes; the column stores it as 1 or 0.
abbrev pub as_integer : Option Value → Option ℤ
as_integer (some (int n)) = some n
as_integer (some (bool b)) = some (if b then pos 1 else pos 0)
as_integer _ = none

-- The new value if there is one, or else the old.
abbrev pub renewed {ℓ} : {A : Type ℓ} → Option A → Option A → Option A
renewed none old = old
renewed (some a) old = some a

abbrev pub or_now : Option ℕ → ℕ → Option ℕ
or_now none now = some now
or_now (some t) now = some t

unfoldable pub mark_device_seen : ℕ → SavedBacnetDevice → SavedBacnetDevice
mark_device_seen now d = record d {
  first_seen_at = or_now d.first_seen_at now;
  last_seen_at = some now;
  latest_discovered_at = some now;
  lifecycle_state = "active";
  retired_at = none;
  enabled = true;
}

unfoldable pub mark_point_seen : ℕ → SavedBacnetPoint → SavedBacnetPoint
mark_point_seen now p = record p {
  first_seen_at = or_now p.first_seen_at now;
  last_seen_at = some now;
  lifecycle_state = "active";
  retired_at = none;
  enabled = true;
}

abbrev pub is_device : String → ℤ → SavedBacnetDevice → Bool
is_device gateway instance_number d =
    d.gateway_id == gateway && d.device_instance == instance_number

unfoldable pub new_device : String → ℕ → Fields → ℤ → String → SavedBacnetDevice
new_device gateway now item instance_number id = record {
  id = id;
  gateway_id = gateway;
  device_instance = instance_number;
  network_number = as_integer (get_field item "network");
  mac_address = as_text (get_field item "mac");
  latest_discovered_at = some now;
  first_seen_at = some now;
  last_seen_at = some now;
  lifecycle_state = "active";
  retired_at = none;
  enabled = true;
  updated_at = now;
}

unfoldable pub seen_again : ℕ → Fields → SavedBacnetDevice → SavedBacnetDevice
unfolding mark_device_seen
seen_again now item d = record (mark_device_seen now d) {
  network_number = renewed (as_integer (get_field item "network")) d.network_number;
  mac_address = renewed (as_text (get_field item "mac")) d.mac_address;
  updated_at = now;
}

-- With the stored row that the lookup finds.
save_found :
    String
    → ℕ
    → (ℕ → String)
    → Session SavedBacnetDevice
    → Fields
    → ℤ
    → Option SavedBacnetDevice
    → Session SavedBacnetDevice
unfolding seen_again new_device
save_found gateway now fresh s item n none = record s {
  added = s.added ++ new_device gateway now item n (fresh (length s.added)) ∷ [];
}
save_found gateway now fresh s item n (some _) = record s {
  stored = change_first (is_device gateway n) (seen_again now item) s.stored;
}

save_device :
    String
    → ℕ
    → (ℕ → String)
    → Session SavedBacnetDevice
    → Fields
    → Option ℤ
    → Session SavedBacnetDevice
unfolding save_found
save_device gateway now fresh s item none = s
save_device gateway now fresh s item (some n) =
    save_found gateway now fresh s item n (first_where (is_device gateway n) s.stored)

discover_item :
    String
    → ℕ
    → (ℕ → String)
    → Session SavedBacnetDevice
    → Option Fields
    → Session SavedBacnetDevice
unfolding save_device
discover_item gateway now fresh s none = s
discover_item gateway now fresh s (some item) =
    save_device gateway now fresh s item (as_int (get_field item "device_id"))

-- An item that is not an object with an integer `device_id` is skipped.
unfoldable pub discover :
    String → ℕ → (ℕ → String) → Session SavedBacnetDevice → List Value → Session SavedBacnetDevice
unfolding discover_item
discover gateway now fresh s [] = s
discover gateway now fresh s (v ∷ vs) =
    discover gateway now fresh (discover_item gateway now fresh s (as_dict (some v))) vs

abbrev pub is_point : String → String → ℤ → SavedBacnetPoint → Bool
is_point device object_type object_instance p =
    p.saved_device_id == device
    && p.object_type == object_type
    && p.object_instance == object_instance
    && p.property_name == "present-value"

unfoldable pub new_point :
    String → ℕ → SavedBacnetDevice → Fields → String → ℤ → String → SavedBacnetPoint
new_point gateway now device item object_type object_instance id = record {
  id = id;
  gateway_id = gateway;
  saved_device_id = device.id;
  device_instance = device.device_instance;
  object_type = object_type;
  object_instance = object_instance;
  object_name = as_text (get_field item "object_name");
  property_name = "present-value";
  present_value = none;
  writable = none;
  active_priority = none;
  priority_array = none;
  relinquish_default = none;
  state_text = none;
  latest_read_at = none;
  first_seen_at = some now;
  last_seen_at = some now;
  lifecycle_state = "active";
  retired_at = none;
  enabled = true;
  updated_at = now;
}

unfoldable pub loaded_again : ℕ → Fields → SavedBacnetPoint → SavedBacnetPoint
unfolding mark_point_seen
loaded_again now item p = record (mark_point_seen now p) {
  object_name = renewed (as_text (get_field item "object_name")) p.object_name;
  updated_at = now;
}

point_found :
    String
    → ℕ
    → (ℕ → String)
    → SavedBacnetDevice
    → Session SavedBacnetPoint
    → Fields
    → String
    → ℤ
    → Option SavedBacnetPoint
    → Session SavedBacnetPoint
unfolding new_point loaded_again
point_found gateway now fresh device s item kind n none = record s {
  added = s.added ++ new_point gateway now device item kind n (fresh (length s.added)) ∷ [];
}
point_found gateway now fresh device s item kind n (some _) = record s {
  stored = change_first (is_point device.id kind n) (loaded_again now item) s.stored;
}

save_point :
    String
    → ℕ
    → (ℕ → String)
    → SavedBacnetDevice
    → Session SavedBacnetPoint
    → Fields
    → Option String
    → Option ℤ
    → Session SavedBacnetPoint
unfolding point_found
save_point gateway now fresh device s item none n = s
save_point gateway now fresh device s item (some kind) none = s
save_point gateway now fresh device s item (some kind) (some n) =
    point_found gateway now fresh device s item kind n
      (first_where (is_point device.id kind n) s.stored)

load_item :
    String
    → ℕ
    → (ℕ → String)
    → SavedBacnetDevice
    → Session SavedBacnetPoint
    → Option Fields
    → Session SavedBacnetPoint
unfolding save_point
load_item gateway now fresh device s none = s
load_item gateway now fresh device s (some item) =
    save_point gateway now fresh device s item (as_text (get_field item "object_type"))
      (as_int (get_field item "object_instance"))

-- An item without a text `object_type` and an integer `object_instance` is skipped.
unfoldable pub load_points :
    String
    → ℕ
    → (ℕ → String)
    → SavedBacnetDevice
    → Session SavedBacnetPoint
    → List Value
    → Session SavedBacnetPoint
unfolding load_item
load_points gateway now fresh device s [] = s
load_points gateway now fresh device s (v ∷ vs) =
    load_points gateway now fresh device (load_item gateway now fresh device s (as_dict (some v)))
      vs
