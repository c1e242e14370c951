-- ===== src/Edge/Sampling/Accounts.antt =====
-- What a stretch of the loops does to the counters and tables: some points are sampled, in
-- order, and the rest is put off.
use iot_cloud_commissioning.Prelude.{
  text_or, ℕ, suc, ◌+◌, ◌≡◌, refl, sym, ap, ◌∙◌, Bool, true, false, Option, none, some, List, [],
  ◌∷◌, ◌++◌, map, String, arith, length, length-append, if◌then◌else◌, ◌==◌, string_eq, nat_eq,
}
use mathlib.Core.List.{append-nil, append_assoc}
use iot_cloud_commissioning.Dict.{Dict, get}
use iot_cloud_commissioning.Edge.Sampling.{
  TrendPoint, TrendSample, OutboxEntry, PointReading, Tally,
}
use iot_cloud_commissioning.Edge.Sampling.Reads.{
  record_local_sample, record_missing, count_status, record_value, record_point, record_points,
}

abbrev pub point_ids : List TrendPoint → List ℕ
point_ids = map (λ p. p.id)

abbrev pub sample_ids : List TrendSample → List ℕ
sample_ids = map (λ s. s.id)

-- The points that were sampled.
abbrev pub sampled_ids : List TrendSample → List ℕ
sampled_ids = map (λ s. s.trend_point_id)

abbrev pub entry_ids : List OutboxEntry → List ℕ
entry_ids = map (λ e. e.trend_sample_id)

-- The samples of `done` and their outbox rows are added, and `rest` is counted as put off.
pub record IsAccounted (ps : List TrendPoint) (t t' : Tally) : Type 0 where
  pub done : List TrendPoint
  pub rest : List TrendPoint
  pub new : List TrendSample
  pub split : ps ≡ done ++ rest
  pub samples : t'.db.samples ≡ t.db.samples ++ new
  pub sampled : sampled_ids new ≡ point_ids done
  pub queued : entry_ids t'.db.outbox ≡ entry_ids t.db.outbox ++ sample_ids new
  pub runs : t'.db.runs ≡ t.db.runs
  pub attempted : t'.attempted ≡ t.attempted + length done
  pub stored : t'.stored ≡ t.stored + length done
  pub deferred : t'.deferred_count ≡ t.deferred_count + length rest
  pub counted :
      t'.returned_count + t'.missing_count + t'.error_count
      ≡ t.returned_count + t.missing_count + t.error_count + length done
  pub ended : t'.yielded ≡ false → rest ≡ []

-- The part of it that the loop over a batch changes.
pub record AreRecorded (ps : List TrendPoint) (t t' : Tally) : Type 0 where
  pub new : List TrendSample
  pub samples : t'.db.samples ≡ t.db.samples ++ new
  pub sampled : sampled_ids new ≡ point_ids ps
  pub queued : entry_ids t'.db.outbox ≡ entry_ids t.db.outbox ++ sample_ids new
  pub runs : t'.db.runs ≡ t.db.runs
  pub attempted : t'.attempted ≡ t.attempted
  pub stored : t'.stored ≡ t.stored + length ps
  pub deferred : t'.deferred_count ≡ t.deferred_count
  pub counted :
      t'.returned_count + t'.missing_count + t'.error_count
      ≡ t.returned_count + t.missing_count + t.error_count + length ps
  pub yielded : t'.yielded ≡ t.yielded

map-append : {A B : Type 0} (f : A → B) (xs ys : List A) → map f (xs ++ ys) ≡ map f xs ++ map f ys
map-append f [] ys = refl
map-append f (x ∷ xs) ys = ap (◌∷◌ (f x)) (map-append f xs ys)

-- Two appended stretches in a row.
pub appended_twice :
    {A : Type 0} (a x y : List A) {b c : List A} → b ≡ a ++ x → c ≡ b ++ y → c ≡ a ++ (x ++ y)
appended_twice a x y h k = k ∙ ap (λ l. l ++ y) h ∙ append_assoc a x y

-- The same below a map.
pub mapped_twice :
    {A B : Type 0} (f : A → B) (a : List B) (xs ys : List A) {b c : List B}
    → b ≡ a ++ map f xs
    → c ≡ b ++ map f ys
    → c ≡ a ++ map f (xs ++ ys)
mapped_twice f a xs ys h k =
    appended_twice a (map f xs) (map f ys) h k ∙ ap (λ l. a ++ l) (sym (map-append f xs ys))

-- Lists that agree below a map.
pub mapped_same :
    {A B C : Type 0} (f : A → C) (g : B → C) (xs xs' : List A) (ys ys' : List B)
    → map f xs ≡ map g ys
    → map f xs' ≡ map g ys'
    → map f (xs ++ xs') ≡ map g (ys ++ ys')
mapped_same f g xs xs' ys ys' h k = map-append f xs xs' ∙ cc (h, k) ∙ sym (map-append g ys ys')

no_points_recorded : (t : Tally) → AreRecorded [] t t
no_points_recorded t = record {
  new = [];
  samples = sym (append-nil _);
  sampled = refl;
  queued = sym (append-nil _);
  runs = refl;
  attempted = refl;
  stored = omega arith;
  deferred = refl;
  counted = omega arith;
  yielded = refl;
}

AreRecorded-trans :
    (ps qs : List TrendPoint) (t t' t'' : Tally)
    → AreRecorded ps t t'
    → AreRecorded qs t' t''
    → AreRecorded (ps ++ qs) t t''
AreRecorded-trans ps qs t t' t'' h k = record {
  new = h.new ++ k.new;
  samples = appended_twice t.db.samples h.new k.new h.samples k.samples;
  sampled = mapped_same _ _ h.new k.new ps qs h.sampled k.sampled;
  queued = mapped_twice _ (entry_ids t.db.outbox) h.new k.new h.queued k.queued;
  runs = k.runs ∙ h.runs;
  attempted = k.attempted ∙ h.attempted;
  stored = omega (arith, h.stored, k.stored, length-append ps qs);
  deferred = k.deferred ∙ h.deferred;
  counted = omega (arith, h.counted, k.counted, length-append ps qs);
  yielded = k.yielded ∙ h.yielded;
}

-- The status of a value raises one of the three counts.
count_status-AreCounted :
    (status : String) (t : Tally)
    → let c = count_status status t in
      (c.returned_count + c.missing_count + c.error_count
        ≡ suc (t.returned_count + t.missing_count + t.error_count))
      × (c.attempted ≡ t.attempted)
      × (c.deferred_count ≡ t.deferred_count)
      × (c.yielded ≡ t.yielded)
unfolding count_status
count_status-AreCounted status t = by_tests (status == "ok") (status == "missing")
  where
    by_tests :
        (is_ok is_missing : Bool)
        → let c : Tally =
            if is_ok
            then record t { returned_count = suc t.returned_count }
            else if is_missing
            then record t { missing_count = suc t.missing_count }
            else record t { error_count = suc t.error_count } in
          (c.returned_count + c.missing_count + c.error_count
            ≡ suc (t.returned_count + t.missing_count + t.error_count))
          × (c.attempted ≡ t.attempted)
          × (c.deferred_count ≡ t.deferred_count)
          × (c.yielded ≡ t.yielded)
    by_tests true is_missing = (omega arith, refl, refl, refl)
    by_tests false true = (omega arith, refl, refl, refl)
    by_tests false false = (omega arith, refl, refl, refl)

-- One row of the batch.
record_missing-AreRecorded :
    (now : ℕ) (device_error : String) (p : TrendPoint) (t : Tally)
    → AreRecorded (p ∷ []) t (record_missing now device_error p t)
unfolding record_missing record_local_sample
record_missing-AreRecorded now device_error p t = by_test (device_error == "")
  where
    by_test :
        (quiet : Bool)
        → AreRecorded (p ∷ []) t (
            if quiet
            then record t {
              missing_count = suc t.missing_count;
              stored = suc t.stored;
              db =
                  record_local_sample now p none "missing"
                    (some "bulk-missing")
                    "BACnet bulk read returned no result for point"
                    t.db;
            }
            else record t {
              error_count = suc t.error_count;
              stored = suc t.stored;
              db = record_local_sample now p none "error" (some "bulk-missing") device_error t.db;
            })
    by_test true = record {
      new = _ ∷ [];
      samples = refl;
      sampled = refl;
      queued = map-append _ t.db.outbox _;
      runs = refl;
      attempted = refl;
      stored = omega arith;
      deferred = refl;
      counted = omega arith;
      yielded = refl;
    }
    by_test false = record {
      new = _ ∷ [];
      samples = refl;
      sampled = refl;
      queued = map-append _ t.db.outbox _;
      runs = refl;
      attempted = refl;
      stored = omega arith;
      deferred = refl;
      counted = omega arith;
      yielded = refl;
    }

record_point-AreRecorded :
    (now : ℕ) (device_error : String) (p : TrendPoint) (v : Option PointReading) (t : Tally)
    → AreRecorded (p ∷ []) t (record_point now device_error p v t)
unfolding record_point record_value record_local_sample
record_point-AreRecorded now device_error p none t = record_missing-AreRecorded now device_error p t
record_point-AreRecorded now device_error p (some v) t =
    let (counted, attempted, deferred, yielded) =
      count_status-AreCounted (text_or v.status "missing") t in
    record {
      new = _ ∷ [];
      samples = refl;
      sampled = refl;
      queued = map-append _ t.db.outbox _;
      runs = refl;
      attempted = attempted;
      stored = omega arith;
      deferred = deferred;
      counted = omega (arith, counted);
      yielded = yielded;
    }

pub record_points-AreRecorded :
    (now : ℕ) (device_error : String) (d : Dict ℕ PointReading) (ps : List TrendPoint) (t : Tally)
    → AreRecorded ps t (record_points now device_error d ps t)
unfolding record_points
record_points-AreRecorded now device_error d [] t = no_points_recorded t
record_points-AreRecorded now device_error d (p ∷ ps) t =
    let t' = record_point now device_error p (get d p.id) t in
    AreRecorded-trans (p ∷ []) ps t t' _
      (record_point-AreRecorded now device_error p (get d p.id) t)
      (record_points-AreRecorded now device_error d ps t')
