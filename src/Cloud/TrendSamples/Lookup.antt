-- ===== src/Cloud/TrendSamples/Lookup.antt =====
-- The row of a sample before and after an upload to the table.
use iot_cloud_commissioning.Prelude.{
  ℕ, ◌≡◌, refl, ◌∙◌, subst, Bool, true, false, ◌||◌, Option, none, some, List, [], ◌∷◌, ◌++◌,
  String, arith, if◌then◌else◌, any, string_eq, eq_self, or_else, In, inl, inr,
}
use iot_cloud_commissioning.Cloud.TrendSamples.{
  SampleIn, PointTrendSample, same_key, keys_repeat, find_sample, new_sample,
}

-- The row that stands for a sample after an upload to the table.
abbrev pub row_of : List PointTrendSample → String → SampleIn → PointTrendSample
row_of table gateway x = or_else (find_sample table x) (new_sample gateway x)

abbrev pub add_missing :
    Option PointTrendSample → PointTrendSample → List PointTrendSample → List PointTrendSample
add_missing none new rows = new ∷ rows
add_missing (some row) new rows = rows

-- The new rows for the samples that the table lacks.
abbrev pub missing : List PointTrendSample → String → List SampleIn → List PointTrendSample
missing table gateway [] = []
missing table gateway (x ∷ xs) =
    add_missing (find_sample table x) (new_sample gateway x) (missing table gateway xs)

same_key_self : (p : String) (t : ℕ) → same_key p t p t ≡ true
same_key_self p t = ground (arith, eq_self p)

none_matches :
    {A : Type 0} (p : A → Bool) (xs : List A) (a : A) → any p xs ≡ false → In a xs → p a ≡ false
none_matches p [] a h m = elim m [ ]
none_matches p (x ∷ xs) a h (inl e) = rw e (ground (arith, h))
none_matches p (x ∷ xs) a h (inr m) = none_matches p xs a (ground (arith, h)) m

find_sample-append :
    (table more : List PointTrendSample) (x : SampleIn) (o : Option PointTrendSample)
    → find_sample table x ≡ o
    → find_sample (table ++ more) x ≡ elim o [ none ↦ find_sample more x | some r ↦ some r ]
unfolding find_sample
find_sample-append [] more x none e = refl
find_sample-append [] more x (some r) e = cc e
find_sample-append (r ∷ rs) more x o e =
    by_test (same_key r.point_id r.sampled_at x.point_id x.sampled_at) o e
      (find_sample-append rs more x o)
  where
    by_test :
        (b : Bool) (o : Option PointTrendSample)
        → (if b then some r else find_sample rs x) ≡ o
        → (find_sample rs x ≡ o
            → find_sample (rs ++ more) x ≡ elim o [ none ↦ find_sample more x | some q ↦ some q ])
        → (if b then some r else find_sample (rs ++ more) x)
          ≡ elim o [ none ↦ find_sample more x | some q ↦ some q ]
    by_test true none e ih = cc e
    by_test true (some q) e ih = e
    by_test false o e ih = ih e

module _ (gateway : String) where
  -- A sample that the table lacks is found among the new rows.
  find_sample-missing :
      (table : List PointTrendSample) (xs : List SampleIn) (x : SampleIn)
      → keys_repeat xs ≡ false
      → In x xs
      → find_sample table x ≡ none
      → find_sample (missing table gateway xs) x ≡ some (new_sample gateway x)
  unfolding find_sample keys_repeat
  find_sample-missing table [] x single m e = elim m [ ]
  find_sample-missing table (y ∷ ys) x single (inl same) e =
      subst
        (λ z.
          find_sample
            (add_missing (find_sample table z) (new_sample gateway z) (missing table gateway ys)) x
          ≡ some (new_sample gateway x))
        same (rw (e, same_key_self x.point_id x.sampled_at) refl)
  find_sample-missing table (y ∷ ys) x single (inr m) e =
      let (unlike, rest) =
        neither (any (λ z. same_key y.point_id y.sampled_at z.point_id z.sampled_at) ys)
          (keys_repeat ys) single in
      passed (find_sample table y)
        (none_matches (λ z. same_key y.point_id y.sampled_at z.point_id z.sampled_at) ys x unlike m)
        (find_sample-missing table ys x rest m e)
    where
      neither : (a b : Bool) → (a || b) ≡ false → (a ≡ false) × (b ≡ false)
      neither true b h = cc h
      neither false b h = (refl, h)

      passed :
          (found : Option PointTrendSample)
          → same_key y.point_id y.sampled_at x.point_id x.sampled_at ≡ false
          → find_sample (missing table gateway ys) x ≡ some (new_sample gateway x)
          → find_sample (add_missing found (new_sample gateway y) (missing table gateway ys)) x
            ≡ some (new_sample gateway x)
      passed none unlike h = rw unlike h
      passed (some r) unlike h = h

  -- After the upload each sample has its row.
  pub find_sample_after :
      (table : List PointTrendSample) (xs : List SampleIn) (x : SampleIn)
      → keys_repeat xs ≡ false
      → In x xs
      → find_sample (table ++ missing table gateway xs) x ≡ some (row_of table gateway x)
  find_sample_after table xs x single m = by_found (find_sample table x) refl
    where
      by_found :
          (found : Option PointTrendSample)
          → find_sample table x ≡ found
          → find_sample (table ++ missing table gateway xs) x
            ≡ some (or_else found (new_sample gateway x))
      by_found none e =
          find_sample-append table (missing table gateway xs) x none e
          ∙ find_sample-missing table xs x single m e
      by_found (some r) e = find_sample-append table (missing table gateway xs) x (some r) e
