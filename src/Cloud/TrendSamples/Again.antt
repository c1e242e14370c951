-- ===== src/Cloud/TrendSamples/Again.antt =====
-- An upload that is repeated, as the edge agent does when it missed the answer.
use iot_cloud_commissioning.Prelude.{
  ◌≡◌, refl, sym, ap, ◌∙◌, subst, Bool, true, false, not, Option, none, some, List, [], ◌∷◌, ◌++◌,
  map, String, ◌==◌, string_eq, or_else, In, inl, inr,
}
use mathlib.Core.List.{append-nil}
use iot_cloud_commissioning.Cloud.Http.{
  Response, ok, refuse_if, ◌>>=◌, ◌>>◌, >>=-eq-ok, refuse_if-eq-ok, ok-injective,
}
use iot_cloud_commissioning.Cloud.Db.{SavedBacnetPoint}
use iot_cloud_commissioning.Cloud.TrendSamples.{
  SampleIn, PointTrendSample, Stored, normal_samples, keys_repeat, find_sample, new_sample,
  is_owned, store_one, store_samples, with_added, store_all, edge_upload_trend_samples,
}
use iot_cloud_commissioning.Cloud.TrendSamples.Lookup.{
  row_of, add_missing, missing, find_sample_after,
}

abbrev refused_text : String
refused_text = "Trend sample point does not belong to gateway"

module _ (points : List SavedBacnetPoint) (gateway : String) where
  -- A loop that ends well found every point, and made one row for each sample.
  store_samples-eq-ok :
      (table : List PointTrendSample) (xs : List SampleIn) (r : Stored)
      → store_samples table points gateway xs ≡ ok r
      → (r ≡ record { added = missing table gateway xs; stored = map (row_of table gateway) xs })
        × ((x : SampleIn) → In x xs → is_owned points gateway x ≡ true)
  unfolding store_samples
  store_samples-eq-ok table [] r e = (sym (ok-injective e), λ x m. elim m [ ])
  store_samples-eq-ok table (y ∷ ys) r e =
      let go_on : Stored → Response Stored =
        λ q. ok (store_one (find_sample table y) (new_sample gateway y) q) in
      let (_, mine, e1) =
        >>=-eq-ok (refuse_if (not (is_owned points gateway y)) 403 refused_text)
          (λ _. store_samples table points gateway ys >>= go_on) e in
      let (rest, made, e2) = >>=-eq-ok (store_samples table points gateway ys) go_on e1 in
      let (shape, others) = store_samples-eq-ok table ys rest made in
      (
        sym (ok-injective e2)
            ∙ ap (store_one (find_sample table y) (new_sample gateway y)) shape
            ∙ one (find_sample table y),
        λ x m. elim m [
          | inl same ↦
              ap (is_owned points gateway) same
              ∙ owned (is_owned points gateway y) (refuse_if-eq-ok _ 403 refused_text mine)
          | inr n ↦ others x n
        ],
      )
    where
      one :
          (found : Option PointTrendSample)
          → store_one found
              (new_sample gateway y)
              (record { added = missing table gateway ys; stored = map (row_of table gateway) ys })
            ≡ record {
              added = add_missing found (new_sample gateway y) (missing table gateway ys);
              stored = or_else found (new_sample gateway y) ∷ map (row_of table gateway) ys;
            }
      one none = refl
      one (some row) = refl

      owned : (b : Bool) → not b ≡ false → b ≡ true
      owned true h = refl
      owned false h = cc h

  -- Samples that are all there are returned, and none is added.
  store_samples_there :
      (table : List PointTrendSample) (row : SampleIn → PointTrendSample) (xs : List SampleIn)
      → ((x : SampleIn) → In x xs → is_owned points gateway x ≡ true)
      → ((x : SampleIn) → In x xs → find_sample table x ≡ some (row x))
      → store_samples table points gateway xs ≡ ok (record { added = []; stored = map row xs })
  unfolding store_samples
  store_samples_there table row [] owned there = refl
  store_samples_there table row (x ∷ xs) owned there =
      rw
        (
          owned x (inl refl),
          there x (inl refl),
          store_samples_there table row xs (λ y m. owned y (inr m)) (λ y m. there y (inr m)),
        )
        refl

  store_all_twice :
      (table : List PointTrendSample) (xs : List SampleIn)
      (r : List PointTrendSample × List PointTrendSample)
      → store_all table points gateway xs ≡ ok r
      → store_all r.0 points gateway xs ≡ ok r
  unfolding store_all
  store_all_twice table xs r e =
      let (_, unrepeated, e1) =
        >>=-eq-ok (refuse_if (keys_repeat xs) 422 repeat_text)
          (λ _. store_samples table points gateway xs >>= λ q. ok (with_added table q)) e in
      let (q, made, e2) =
        >>=-eq-ok (store_samples table points gateway xs) (λ q. ok (with_added table q)) e1 in
      let single = refuse_if-eq-ok (keys_repeat xs) 422 repeat_text unrepeated in
      let (shape, owned) = store_samples-eq-ok table xs q made in
      let same : r ≡ (table ++ missing table gateway xs, map (row_of table gateway) xs) =
        sym (ok-injective e2) ∙ ap (with_added table) shape in
      subst
        (λ (z : List PointTrendSample × List PointTrendSample).
          (refuse_if (keys_repeat xs) 422 repeat_text
            >> (store_samples z.0 points gateway xs >>= λ q. ok (with_added z.0 q)))
          ≡ ok z)
        (sym same)
        (rw
          (
            single,
            store_samples_there (table ++ missing table gateway xs) (row_of table gateway) xs owned
                (λ x m. find_sample_after gateway table xs x single m),
          )
          (ap (λ l. ok (l, map (row_of table gateway) xs)) (append-nil _)))
    where
      repeat_text : String
      repeat_text = "Trend sample batch must not contain duplicate point_id and sampled_at pairs"

-- An upload that was stored can be sent again: on the table that the first one left, for the same
-- points, it ends well, returns the same samples and adds none.
pub edge_upload_trend_samples_twice :
    (tree_id : String → Option String) (credential gateway : String)
    (points : List SavedBacnetPoint) (payload : List SampleIn) (table : List PointTrendSample)
    (r : List PointTrendSample × List PointTrendSample)
    → edge_upload_trend_samples tree_id credential gateway points payload table ≡ ok r
    → edge_upload_trend_samples tree_id credential gateway points payload r.0 ≡ ok r
unfolding edge_upload_trend_samples
edge_upload_trend_samples_twice tree_id credential gateway points payload table r e =
    let (_, mine, e1) =
      >>=-eq-ok (refuse_if (not (credential == gateway)) 403 wrong_text)
        (λ _. normal_samples tree_id payload >>= store_all table points gateway) e in
    let (xs, normal, e2) =
      >>=-eq-ok (normal_samples tree_id payload) (store_all table points gateway) e1 in
    rw (refuse_if-eq-ok (not (credential == gateway)) 403 wrong_text mine, normal)
      (store_all_twice points gateway table xs r e2)
  where
    wrong_text : String
    wrong_text = "Gateway credential does not match trend sample gateway_id"
