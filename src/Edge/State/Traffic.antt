-- ===== src/Edge/State/Traffic.antt =====
-- The traffic counters add up.
use iot_cloud_commissioning.Prelude.{
  ℕ, ◌+◌, ◌≤◌, ◌≡◌, refl, sym, ◌∙◌, subst, Bool, Option, none, some, arith, nat_beq, nat_eq,
  or_else, ltb, Bool-cases, inl, inr,
}
use iot_cloud_commissioning.Dict.{Dict, get, put, get-put}
use iot_cloud_commissioning.Dict.Purge.{Distinct, get-purge, unless, Distinct-put, Distinct-purge}
use iot_cloud_commissioning.Edge.State.{
  Category, Bucket, empty_bucket, counted, add_traffic, minute_of, bucket_of, thirty_days,
  record_network_traffic,
}

-- In every category no more requests have an outcome than there are requests.
abbrev pub IsConsistent : Bucket → Type 0
IsConsistent b =
    (c : Category) → (b.counters c).successes + (b.counters c).failures ≤ (b.counters c).requests

pub record AreConsistent (buckets : Dict ℕ Bucket) : Type 0 where
  pub distinct : Distinct buckets
  pub each : (start : ℕ) (b : Bucket) → get buckets start ≡ some b → IsConsistent b

add_traffic-IsConsistent :
    (category : Category) (tx rx : ℕ) (success : Option Bool) (attempt : Bool) (b : Bucket)
    → IsConsistent b
    → IsConsistent (add_traffic category tx rx success attempt b)
unfolding add_traffic counted
add_traffic-IsConsistent category tx rx success attempt b h c = ground (arith, h c)

found_or_empty :
    (buckets : Dict ℕ Bucket) (start : ℕ)
    → AreConsistent buckets
    → IsConsistent (or_else (get buckets start) empty_bucket)
found_or_empty buckets start h = by_bucket (get buckets start) refl
  where
    by_bucket : (o : Option Bucket) → get buckets start ≡ o → IsConsistent (or_else o empty_bucket)
    by_bucket none e = λ c. omega arith
    by_bucket (some b) e = h.each start b e

some-injective : {a b : Bucket} → some a ≡ some b → a ≡ b
some-injective e = ground arith

unless-some :
    {b : Bucket} (p : Bucket → Bool) (o : Option Bucket) → unless p o ≡ some b → o ≡ some b
unless-some p none e = e
unless-some p (some x) e = ground arith

-- A recorded exchange keeps it true, of every bucket that is kept, that no more requests have
-- succeeded or failed than were made.
pub record_network_traffic-AreConsistent :
    (buckets : Dict ℕ Bucket) (category : Category) (tx rx : ℕ) (success : Option Bool)
    (attempt : Bool) (now : ℕ)
    → AreConsistent buckets
    → AreConsistent (record_network_traffic buckets category tx rx success attempt now)
unfolding record_network_traffic
record_network_traffic-AreConsistent buckets category tx rx success attempt now h = record {
  distinct = Distinct-purge is_old written written-Distinct;
  each = λ start b e. in_written start b (
      unless-some (is_old start) (get written start)
        (sym (get-purge is_old written start written-Distinct) ∙ e));
}
  where
    added : Bucket
    added =
        add_traffic category tx rx success attempt
          (or_else (get buckets (bucket_of now)) empty_bucket)

    written : Dict ℕ Bucket
    written = put buckets (bucket_of now) added

    is_old : ℕ → Bucket → Bool
    is_old start _ = ltb (start + thirty_days) (minute_of now)

    written-Distinct : Distinct written
    written-Distinct = Distinct-put buckets (bucket_of now) added h.distinct

    added-IsConsistent : IsConsistent added
    added-IsConsistent =
        add_traffic-IsConsistent category tx rx success attempt
          (or_else (get buckets (bucket_of now)) empty_bucket)
          (found_or_empty buckets (bucket_of now) h)

    in_written : (start : ℕ) (b : Bucket) → get written start ≡ some b → IsConsistent b
    in_written start b e = elim (Bool-cases (nat_beq (bucket_of now) start)) [
      | inl t ↦
          let same : some added ≡ some b =
            sym (get-put buckets (bucket_of now) start added ∙ rw t refl) ∙ e in
          subst IsConsistent (some-injective same) added-IsConsistent
      | inr f ↦ h.each start b (sym (get-put buckets (bucket_of now) start added ∙ rw f refl) ∙ e)
    ]
