-- ===== src/Cloud/Status/Tests.antt =====
-- Statuses at concrete ages.
use iot_cloud_commissioning.Prelude.{◌≡◌, refl, some}
use iot_cloud_commissioning.Cloud.Status.{StatusSettings, offline, stale, online, effective_status}

abbrev settings : StatusSettings
settings = record { gateway_stale_after_seconds = 120; gateway_offline_after_seconds = 300 }

statuses :
    (effective_status settings (some 1000) 1120 ≡ online)
    × (effective_status settings (some 1000) 1121 ≡ stale)
    × (effective_status settings (some 1000) 1301 ≡ offline)
unfolding effective_status
statuses = (refl, refl, refl)
