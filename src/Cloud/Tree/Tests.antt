-- ===== src/Cloud/Tree/Tests.antt =====
-- A discovery that reports one new device twice.
use iot_cloud_commissioning.Prelude.{◌≡◌, refl, [], ◌∷◌, length, string_eq}
use iot_cloud_commissioning.Json.{pos, int_eq, Value, int, dict, end, field, get_field}
use iot_cloud_commissioning.Cloud.Tree.{discover_item, save_device, save_found, discover}

abbrev found_item : Value
found_item = dict (field "device_id" (int (pos 12)) end)

-- It is added twice: the second lookup does not see the row that the first added.
adds_twice :
    length
      (discover "GW001" 90
        (λ _. "D1")
        (record { stored = []; added = [] })
        (found_item ∷ found_item ∷ [])).added
    ≡ 2
unfolding discover discover_item save_device save_found get_field
adds_twice = refl
