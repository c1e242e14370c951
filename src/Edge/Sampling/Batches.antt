-- ===== src/Edge/Sampling/Batches.antt =====
-- The loop over the batches of a device accounts for every point of it.
use iot_cloud_commissioning.Prelude.{
  ℕ, suc, ◌+◌, ◌≡◌, refl, sym, ap, ◌∙◌, Bool, true, false, some, List, [], ◌∷◌, ◌++◌, map, String,
  arith, length, length-append, ltb, if◌then◌else◌, ◌==◌, string_eq,
}
use mathlib.Core.List.{append-nil, append_assoc}
use iot_cloud_commissioning.Json.{ℤ}
use iot_cloud_commissioning.Edge.Sampling.{
  TrendPoint, Runtime, BulkRead, answered, raised, Tally, values_of, error_of, is_busy,
}
use iot_cloud_commissioning.Edge.Sampling.Reads.{
  concat, values_by_point, note_error, note_raised, take_batch, put_off, after_read, read_batch,
  unless_live, read_batches,
}
use iot_cloud_commissioning.Edge.Sampling.Text.{safe_error}
use iot_cloud_commissioning.Edge.Sampling.Accounts.{
  IsAccounted, record_points-AreRecorded, entry_ids, appended_twice, mapped_twice, mapped_same,
}

-- All counters and tables but the errors and the questions are as they were.
pub record IsSame (t t' : Tally) : Type 0 where
  pub db : t'.db ≡ t.db
  pub attempted : t'.attempted ≡ t.attempted
  pub stored : t'.stored ≡ t.stored
  pub deferred : t'.deferred_count ≡ t.deferred_count
  pub returned : t'.returned_count ≡ t.returned_count
  pub missing : t'.missing_count ≡ t.missing_count
  pub wrong : t'.error_count ≡ t.error_count
  pub yielded : t'.yielded ≡ t.yielded

IsSame-after :
    (ps : List TrendPoint) (t t' t'' : Tally)
    → IsSame t t'
    → IsAccounted ps t' t''
    → IsAccounted ps t t''
IsSame-after ps t t' t'' s h = record {
  done = h.done;
  rest = h.rest;
  new = h.new;
  split = h.split;
  samples = h.samples ∙ ap (λ d. d.samples ++ h.new) s.db;
  sampled = h.sampled;
  queued = h.queued ∙ ap (λ d. entry_ids d.outbox ++ map (λ a. a.id) h.new) s.db;
  runs = h.runs ∙ ap (λ d. d.runs) s.db;
  attempted = omega (arith, h.attempted, s.attempted);
  stored = omega (arith, h.stored, s.stored);
  deferred = omega (arith, h.deferred, s.deferred);
  counted = omega (arith, h.counted, s.returned, s.missing, s.wrong);
  ended = h.ended;
}

pub nothing_left : (t : Tally) → IsAccounted [] t t
nothing_left t = record {
  done = [];
  rest = [];
  new = [];
  split = refl;
  samples = sym (append-nil _);
  sampled = refl;
  queued = sym (append-nil _);
  runs = refl;
  attempted = omega arith;
  stored = omega arith;
  deferred = omega arith;
  counted = omega arith;
  ended = λ _. refl;
}

-- Points that are put off, whatever becomes of the flag.
pub put_off_all :
    (ps : List TrendPoint) (t t' : Tally)
    → t'.db ≡ t.db
    → t'.attempted ≡ t.attempted
    → t'.stored ≡ t.stored
    → t'.deferred_count ≡ t.deferred_count + length ps
    → t'.returned_count + t'.missing_count + t'.error_count
      ≡ t.returned_count + t.missing_count + t.error_count
    → t'.yielded ≡ true
    → IsAccounted ps t t'
put_off_all ps t t' same attempted stored deferred counted yielded = record {
  done = [];
  rest = ps;
  new = [];
  split = refl;
  samples = ap (λ d. d.samples) same ∙ sym (append-nil _);
  sampled = refl;
  queued = ap (λ d. entry_ids d.outbox) same ∙ sym (append-nil _);
  runs = ap (λ d. d.runs) same;
  attempted = omega (arith, attempted);
  stored = omega (arith, stored);
  deferred = deferred;
  counted = omega (arith, counted);
  ended = λ e. cc (e, yielded);
}

put_off-IsAccounted : (ps : List TrendPoint) (t : Tally) → IsAccounted ps t (put_off ps t)
unfolding put_off
put_off-IsAccounted ps t = put_off_all ps t _ refl refl refl refl refl refl

same :
    (t : Tally) (errors : List (ℤ × String)) (asked : ℕ)
    → IsSame t (record t { errors = errors; asked = asked })
same t errors asked = record {
  db = refl;
  attempted = refl;
  stored = refl;
  deferred = refl;
  returned = refl;
  missing = refl;
  wrong = refl;
  yielded = refl;
}

note_error-IsSame : (device : ℤ) (text : String) (t : Tally) → IsSame t (note_error device text t)
note_error-IsSame device text t = by_test (text == "")
  where
    by_test :
        (quiet : Bool)
        → IsSame t (if quiet then t else record t { errors = t.errors ++ (device, text) ∷ [] })
    by_test true = same t t.errors t.asked
    by_test false = same t (t.errors ++ (device, text) ∷ []) t.asked

pub asked_and_noted :
    (device : ℤ) (answer : BulkRead) (t : Tally)
    → IsSame t (note_raised device answer (record t { asked = suc t.asked }))
asked_and_noted device (answered values error) t = same t t.errors (suc t.asked)
asked_and_noted device (raised text) t =
    same t (t.errors ++ (device, safe_error (some text)) ∷ []) (suc t.asked)

-- A batch that was read: every point of it is sampled.
take_batch-IsAccounted :
    (now : ℕ) (device : ℤ) (batch : List TrendPoint) (answer : BulkRead) (t : Tally)
    → t.yielded ≡ false
    → IsAccounted batch t (take_batch now device batch answer t)
      × ((take_batch now device batch answer t).yielded ≡ false)
unfolding take_batch
take_batch-IsAccounted now device batch answer t going =
    let text = safe_error (error_of answer) in
    let start : Tally = record t { attempted = t.attempted + length batch } in
    let s = note_error-IsSame device text start in
    let r =
      record_points-AreRecorded now text (values_by_point [] (values_of answer)) batch
        (note_error device text start) in
    (
      record {
        done = batch;
        rest = [];
        new = r.new;
        split = sym (append-nil batch);
        samples = r.samples ∙ ap (λ d. d.samples ++ r.new) s.db;
        sampled = r.sampled;
        queued = r.queued ∙ ap (λ d. entry_ids d.outbox ++ map (λ a. a.id) r.new) s.db;
        runs = r.runs ∙ ap (λ d. d.runs) s.db;
        attempted = r.attempted ∙ s.attempted;
        stored = omega (arith, r.stored, s.stored);
        deferred = omega (arith, r.deferred, s.deferred);
        counted = omega (arith, r.counted, s.returned, s.missing, s.wrong);
        ended = λ _. refl;
      },
      r.yielded ∙ s.yielded ∙ going,
    )

-- One stretch that left nothing, and another.
pub IsAccounted-trans :
    (ps qs : List TrendPoint) (t t' t'' : Tally)
    → IsAccounted ps t t'
    → t'.yielded ≡ false
    → IsAccounted qs t' t''
    → IsAccounted (ps ++ qs) t t''
IsAccounted-trans ps qs t t' t'' h going k =
    let none_left = h.ended going in
    let all_done : ps ≡ h.done = h.split ∙ ap (λ r. h.done ++ r) none_left ∙ append-nil h.done in
    record {
      done = h.done ++ k.done;
      rest = k.rest;
      new = h.new ++ k.new;
      split = cc (all_done, k.split) ∙ sym (append_assoc h.done k.done k.rest);
      samples = appended_twice t.db.samples h.new k.new h.samples k.samples;
      sampled = mapped_same _ _ h.new k.new h.done k.done h.sampled k.sampled;
      queued = mapped_twice _ (entry_ids t.db.outbox) h.new k.new h.queued k.queued;
      runs = k.runs ∙ h.runs;
      attempted = omega (arith, h.attempted, k.attempted, length-append h.done k.done);
      stored = omega (arith, h.stored, k.stored, length-append h.done k.done);
      deferred = omega (arith, h.deferred, k.deferred, ap length none_left);
      counted = omega (arith, h.counted, k.counted, length-append h.done k.done);
      ended = k.ended;
    }

after_read-IsAccounted :
    (now : ℕ) (device : ℤ) (b : List TrendPoint) (bs : List (List TrendPoint)) (answer : BulkRead)
    (go_on : Tally → Tally)
    → ((t : Tally) → t.yielded ≡ false → IsAccounted (concat bs) t (go_on t))
    → (t : Tally) → t.yielded ≡ false
    → IsAccounted (b ++ concat bs) t (after_read now device b bs answer go_on t)
unfolding after_read
after_read-IsAccounted now device b bs answer go_on goes t going =
    by_test (is_busy (error_of answer))
  where
    by_test :
        (busy : Bool)
        → IsAccounted (b ++ concat bs) t (elim busy [
          | true ↦ put_off (b ++ concat bs) t
          | false ↦ go_on (take_batch now device b answer t)
        ])
    by_test true = put_off-IsAccounted (b ++ concat bs) t
    by_test false =
        let (taken, still) = take_batch-IsAccounted now device b answer t going in
        IsAccounted-trans b (concat bs) t (take_batch now device b answer t) _ taken still
          (goes (take_batch now device b answer t) still)

pub take_batch-attempted :
    (now : ℕ) (device : ℤ) (batch : List TrendPoint) (answer : BulkRead) (t : Tally)
    → (take_batch now device batch answer t).attempted ≡ t.attempted + length batch
unfolding take_batch
take_batch-attempted now device batch answer t =
    let text = safe_error (error_of answer) in
    let start : Tally = record t { attempted = t.attempted + length batch } in
    (record_points-AreRecorded now text (values_by_point [] (values_of answer)) batch
      (note_error device text start)).attempted
    ∙ (note_error-IsSame device text start).attempted

module _ (runtime : Runtime) (now : ℕ) (point_budget : ℕ) where
  read_batch-IsAccounted :
      (device : ℤ) (b : List TrendPoint) (bs : List (List TrendPoint)) (go_on : Tally → Tally)
      → ((t : Tally) → t.yielded ≡ false → IsAccounted (concat bs) t (go_on t))
      → (t : Tally) → t.yielded ≡ false
      → IsAccounted (b ++ concat bs) t (read_batch runtime now point_budget device b bs go_on t)
  unfolding read_batch
  read_batch-IsAccounted device b bs go_on goes t going =
      let answer = runtime.read_bulk t.asked device b in
      let s = asked_and_noted device answer t in
      IsSame-after (b ++ concat bs) t _ _ s
        (after_read-IsAccounted now device b bs answer go_on goes _ (s.yielded ∙ going))

  unless_live-IsAccounted :
      (later : Bool) (ps : List TrendPoint) (go_on : Tally → Tally)
      → ((t : Tally) → t.yielded ≡ false → IsAccounted ps t (go_on t))
      → (t : Tally) → t.yielded ≡ false
      → IsAccounted ps t (unless_live runtime now point_budget later ps go_on t)
  unfolding unless_live
  unless_live-IsAccounted false ps go_on goes t going = goes t going
  unless_live-IsAccounted true ps go_on goes t going = by_test (runtime.lock_held t.asked)
    where
      asked : Tally
      asked = record t { asked = suc t.asked }

      by_test :
          (held : Bool)
          → IsAccounted ps t (elim held [ true ↦ put_off ps asked | false ↦ go_on asked ])
      by_test true =
          IsSame-after ps t asked _ (same t t.errors (suc t.asked)) (put_off-IsAccounted ps asked)
      by_test false = IsSame-after ps t asked _ (same t t.errors (suc t.asked)) (goes asked going)

  pub read_batches-IsAccounted :
      (device : ℤ) (later : Bool) (bs : List (List TrendPoint)) (t : Tally)
      → t.yielded ≡ false
      → IsAccounted (concat bs) t (read_batches runtime now point_budget device later bs t)
  unfolding read_batches
  read_batches-IsAccounted device later [] t going = nothing_left t
  read_batches-IsAccounted device later (b ∷ bs) t going =
      by_test (ltb point_budget (t.attempted + length b)) (
        unless_live-IsAccounted later (b ++ concat bs) _
          (read_batch-IsAccounted device b bs _ (read_batches-IsAccounted device true bs)) t going)
    where
      by_test :
          (over : Bool) {t' : Tally}
          → IsAccounted (b ++ concat bs) t t'
          → IsAccounted
              (b ++ concat bs)
              t
              (elim over [ true ↦ put_off (b ++ concat bs) t | false ↦ t' ])
      by_test true h = put_off-IsAccounted (b ++ concat bs) t
      by_test false h = h
