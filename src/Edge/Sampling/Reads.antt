-- ===== src/Edge/Sampling/Reads.antt =====
-- The reads of a group: `_record_local_sample` and the loops of `_sample_local_group` in
-- edge-agent/iot_cx_agent/trends.py.
use iot_cloud_commissioning.Prelude.{
  text_or, text_or_none, ℕ, suc, ◌+◌, Bool, true, false, Option, none, some, List, [], ◌∷◌, ◌++◌,
  String, ltb, nat_eq, if◌then◌else◌, length, string_eq, ◌==◌,
}
use iot_cloud_commissioning.Dict.{Dict, get, put}
use iot_cloud_commissioning.Json.{ℤ, int_eq}
use iot_cloud_commissioning.Edge.Sampling.Text.{safe_error}
use iot_cloud_commissioning.Edge.Sampling.{
  TrendPoint, TrendSample, OutboxEntry, TrendDb, PointReading, BulkRead, answered, raised, Runtime,
  Tally, values_of, error_of, is_busy, key_or,
}

-- `_record_local_sample`: the sample, and its row of the outbox.
unfoldable pub record_local_sample :
    ℕ → TrendPoint → Option String → String → Option String → String → TrendDb → TrendDb
record_local_sample now point value_text status read_source error db =
    let sample : TrendSample = record {
      id = db.next_sample;
      trend_point_id = point.id;
      sampled_at = now;
      value_text = value_text;
      status = status;
      read_source = read_source;
      error_text = text_or_none error;
    } in
    let entry : OutboxEntry = record { trend_sample_id = db.next_sample; created_at = now } in
    record db {
      samples = db.samples ++ sample ∷ [];
      outbox = db.outbox ++ entry ∷ [];
      next_sample = suc db.next_sample;
    }

-- The last value of a point is the one that its key keeps.
unfoldable pub values_by_point : Dict ℕ PointReading → List PointReading → Dict ℕ PointReading
values_by_point d [] = d
values_by_point d (v ∷ vs) =
    values_by_point (elim v.saved_point_id [ none ↦ d | some id ↦ put d id v ]) vs

-- A point that the read has no value for.
unfoldable pub record_missing : ℕ → String → TrendPoint → Tally → Tally
unfolding record_local_sample
record_missing now device_error point t =
    if device_error == ""
    then record t {
      missing_count = suc t.missing_count;
      stored = suc t.stored;
      db =
          record_local_sample now point none "missing" (some "bulk-missing")
            "BACnet bulk read returned no result for point" t.db;
    }
    else record t {
      error_count = suc t.error_count;
      stored = suc t.stored;
      db = record_local_sample now point none "error" (some "bulk-missing") device_error t.db;
    }

unfoldable pub count_status : String → Tally → Tally
count_status status t =
    if status == "ok"
    then record t { returned_count = suc t.returned_count }
    else if status == "missing"
    then record t { missing_count = suc t.missing_count }
    else record t { error_count = suc t.error_count }

unfoldable pub record_value : ℕ → PointReading → TrendPoint → Tally → Tally
unfolding record_local_sample count_status
record_value now v point t =
    let status = text_or v.status "missing" in
    let counted = count_status status t in
    record counted {
      stored = suc t.stored;
      db =
          record_local_sample now point (key_or v.raw_value v.value) status v.read_source
            (safe_error v.error) t.db;
    }

unfoldable pub record_point : ℕ → String → TrendPoint → Option PointReading → Tally → Tally
unfolding record_missing record_value
record_point now device_error point none t = record_missing now device_error point t
record_point now device_error point (some v) t = record_value now v point t

-- `for point in batch`
unfoldable pub record_points : ℕ → String → Dict ℕ PointReading → List TrendPoint → Tally → Tally
unfolding record_point
record_points now device_error values [] t = t
record_points now device_error values (p ∷ ps) t =
    record_points now device_error values ps (record_point now device_error p (get values p.id) t)

abbrev pub note_error : ℤ → String → Tally → Tally
note_error device text t =
    if text == "" then t else record t { errors = t.errors ++ (device, text) ∷ [] }

-- The `except` of a read that raises: it is noted here, and again with the errors of reads.
abbrev pub note_raised : ℤ → BulkRead → Tally → Tally
note_raised device (answered values error) t = t
note_raised device (raised text) t = record t {
  errors = t.errors ++ (device, safe_error (some text)) ∷ [];
}

-- What follows a read that the runtime did not put off.
unfoldable pub take_batch : ℕ → ℤ → List TrendPoint → BulkRead → Tally → Tally
unfolding record_points values_by_point
take_batch now device batch answer t =
    let device_error = safe_error (error_of answer) in
    record_points now device_error (values_by_point [] (values_of answer)) batch
      (note_error device device_error (record t { attempted = t.attempted + length batch }))

abbrev pub concat {ℓ} : {A : Type ℓ} → List (List A) → List A
concat [] = []
concat (xs ∷ xss) = xs ++ concat xss

-- The rest of the device is put off, and so are the devices after it.
unfoldable pub put_off : List TrendPoint → Tally → Tally
put_off rest t = record t { deferred_count = t.deferred_count + length rest; yielded = true }

-- After the read of the first batch, unless the runtime was busy.
unfoldable pub after_read :
    ℕ → ℤ → List TrendPoint → List (List TrendPoint) → BulkRead → (Tally → Tally) → Tally → Tally
unfolding take_batch put_off
after_read now device batch rest answer go_on t = elim (is_busy (error_of answer)) [
  | true ↦ put_off (batch ++ concat rest) t
  | false ↦ go_on (take_batch now device batch answer t)
]

module _ (runtime : Runtime) (now : ℕ) (point_budget : ℕ) where
  -- The read itself is one question.
  unfoldable pub read_batch :
      ℤ → List TrendPoint → List (List TrendPoint) → (Tally → Tally) → Tally → Tally
  unfolding after_read
  read_batch device batch rest go_on t =
      let answer = runtime.read_bulk t.asked device batch in
      after_read now device batch rest answer go_on
        (note_raised device answer (record t { asked = suc t.asked }))

  -- `later` is `batch_index != 0`: only then is the lock asked for.
  unfoldable pub unless_live : Bool → List TrendPoint → (Tally → Tally) → Tally → Tally
  unfolding put_off
  unless_live false remaining go_on t = go_on t
  unless_live true remaining go_on t = elim (runtime.lock_held t.asked) [
    | true ↦ put_off remaining (record t { asked = suc t.asked })
    | false ↦ go_on (record t { asked = suc t.asked })
  ]

  unfoldable pub read_batches : ℤ → Bool → List (List TrendPoint) → Tally → Tally
  unfolding read_batch unless_live put_off
  read_batches device later [] t = t
  read_batches device later (b ∷ bs) t = elim (ltb point_budget (t.attempted + length b)) [
    | true ↦ put_off (b ++ concat bs) t
    | false ↦
        unless_live later (b ++ concat bs) (read_batch device b bs (read_batches device true bs)) t
  ]
