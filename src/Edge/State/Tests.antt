-- ===== src/Edge/State/Tests.antt =====
-- Entries of two jobs, traffic of one exchange, and the theorems at concrete inputs.
use iot_cloud_commissioning.Prelude.{◌≡◌, true, false, none, some, List, [], ◌∷◌, nat_eq, string_eq}
use iot_cloud_commissioning.Dict.{get}
use iot_cloud_commissioning.Dict.Purge.{none_yet}
use iot_cloud_commissioning.Json.{end}
use iot_cloud_commissioning.Edge.State.{local_job, Category, record_network_traffic}
use iot_cloud_commissioning.Edge.State.Jobs.{
  Entry, claims, finishes, record_entries, row_entries, local_job-record_entries,
}
use iot_cloud_commissioning.Edge.State.Traffic.{AreConsistent, record_network_traffic-AreConsistent}

abbrev entries : List Entry
entries =
    claims "J1" "bacnet_read" end 10
    ∷ claims "J2" "bacnet_discover" end 11
    ∷ finishes "J1" "completed" 12 (some end) none
    ∷ finishes "J3" "failed" 13 none (some "unknown")
    ∷ []

local_job-record_entries_example :
    local_job (record_entries [] entries) "J1" ≡ row_entries "J1" (local_job [] "J1") entries
local_job-record_entries_example = local_job-record_entries entries [] "J1"

no_buckets-AreConsistent : AreConsistent []
unfolding get
no_buckets-AreConsistent = record { distinct = none_yet; each = λ start b e. cc }

record_network_traffic-AreConsistent_example :
    AreConsistent (record_network_traffic [] Category.jobs_poll 120 340 (some true) false 7260)
record_network_traffic-AreConsistent_example =
    record_network_traffic-AreConsistent [] Category.jobs_poll 120 340 (some true) false 7260
      no_buckets-AreConsistent
