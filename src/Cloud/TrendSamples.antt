-- ===== src/Cloud/TrendSamples.antt =====
-- Trend samples that gateways upload, `edge_upload_trend_samples` of cloud-api/app/main.py. Times
-- are whole numbers, so keys are compared as instants. `tree_id` gives the normal form of a UUID text, if it is one.
-- The bounds on the length of a payload are those of the request models.
pub mod Lookup
pub mod Again
mod Tests
use iot_cloud_commissioning.Prelude.{
  ℕ, ◌+◌, Bool, true, false, not, ◌&&◌, ◌||◌, Option, none, some, List, [], ◌∷◌, ◌++◌, map, String,
  nat_beq, if◌then◌else◌, length, keep, any, ◌==◌, string_eq,
}
use iot_cloud_commissioning.Cloud.Http.{Response, ok, http_error, refuse_if, or_refuse, ◌>>=◌, ◌>>◌}
use iot_cloud_commissioning.Cloud.Db.{SavedBacnetPoint, first_where, update_where}

pub record SampleIn : Type 0 where
  pub point_id : String
  pub sampled_at : ℕ
  pub value : Option String
  pub quality : String

pub record PointTrendSample : Type 0 where
  pub point_id : String
  pub gateway_id : String
  pub sampled_at : ℕ
  pub value : Option String
  pub quality : String
  pub source : String

-- `(point_id, sampled_at)`
abbrev pub same_key : String → ℕ → String → ℕ → Bool
same_key p t q u = p == q && nat_beq t u

-- Each sample with the normal form of its point's id.
unfoldable pub normal_samples : (String → Option String) → List SampleIn → Response (List SampleIn)
normal_samples tree_id [] = ok []
normal_samples tree_id (x ∷ xs) = or_refuse (tree_id x.point_id) 404 "Record not found" >>= λ id.
    normal_samples tree_id xs >>= λ rest. ok (record x { point_id = id } ∷ rest)

-- `len(sample_keys) != len(set(sample_keys))`
unfoldable pub keys_repeat : List SampleIn → Bool
keys_repeat [] = false
keys_repeat (x ∷ xs) =
    any (λ y. same_key x.point_id x.sampled_at y.point_id y.sampled_at) xs || keys_repeat xs

-- The row with the key of a sample; the database holds at most one.
unfoldable pub find_sample : List PointTrendSample → SampleIn → Option PointTrendSample
find_sample [] x = none
find_sample (r ∷ rs) x =
    if same_key r.point_id r.sampled_at x.point_id x.sampled_at then some r else find_sample rs x

abbrev pub new_sample : String → SampleIn → PointTrendSample
new_sample gateway x = record {
  point_id = x.point_id;
  gateway_id = gateway;
  sampled_at = x.sampled_at;
  value = x.value;
  quality = x.quality;
  source = "edge-agent";
}

abbrev pub is_owned : List SavedBacnetPoint → String → SampleIn → Bool
is_owned points gateway x = any (λ p. p.id == x.point_id && p.gateway_id == gateway) points

-- The rows that the loop adds, and those that it returns.
pub record Stored : Type 0 where
  pub added : List PointTrendSample
  pub stored : List PointTrendSample

abbrev pub store_one : Option PointTrendSample → PointTrendSample → Stored → Stored
store_one none new r = record { added = new ∷ r.added; stored = new ∷ r.stored }
store_one (some row) new r = record r { stored = row ∷ r.stored }

-- `for sample in payload`; the rows of the table are those before the loop.
unfoldable pub store_samples :
    List PointTrendSample → List SavedBacnetPoint → String → List SampleIn → Response Stored
unfolding find_sample
store_samples table points gateway [] = ok (record { added = []; stored = [] })
store_samples table points gateway (x ∷ xs) =
    refuse_if (not (is_owned points gateway x)) 403 "Trend sample point does not belong to gateway"
    >> (store_samples table points gateway xs >>= λ r.
        ok (store_one (find_sample table x) (new_sample gateway x) r))

-- The table after the upload, and the samples that are returned.
abbrev pub with_added :
    List PointTrendSample → Stored → List PointTrendSample × List PointTrendSample
with_added table r = (table ++ r.added, r.stored)

unfoldable pub store_all :
    List PointTrendSample
    → List SavedBacnetPoint
    → String
    → List SampleIn
    → Response (List PointTrendSample × List PointTrendSample)
unfolding store_samples keys_repeat
store_all table points gateway xs =
    refuse_if (keys_repeat xs) 422
      "Trend sample batch must not contain duplicate point_id and sampled_at pairs"
    >> (store_samples table points gateway xs >>= λ r. ok (with_added table r))

-- `credential` is the gateway that the credential names.
unfoldable pub edge_upload_trend_samples :
    (String → Option String)
    → String
    → String
    → List SavedBacnetPoint
    → List SampleIn
    → List PointTrendSample
    → Response (List PointTrendSample × List PointTrendSample)
unfolding normal_samples store_all
edge_upload_trend_samples tree_id credential gateway points payload table =
    refuse_if (not (credential == gateway)) 403
      "Gateway credential does not match trend sample gateway_id"
    >> (normal_samples tree_id payload >>= store_all table points gateway)
