-- ===== src/Cloud/Jobs/Race.antt =====
-- Two app workers that poll at once: each selects a row, and later runs the guarded update of
-- what it selected. No lock is assumed between the two (SQLite ignores FOR UPDATE), and the
-- updates of one row are serial, as a database gives.
use iot_cloud_commissioning.Prelude.{
  ℕ, ◌≡◌, refl, ap, inl, inr, Bool, true, false, Option, none, some, List, [], ◌∷◌, String, arith,
  nat_beq, if◌then◌else◌, All, All-In, All-map_imp, NoRepeats, Bool-cases,
}
use iot_cloud_commissioning.Cloud.Db.{EdgeJob}
use iot_cloud_commissioning.Cloud.Jobs.{next_waiting, claim_row, rows_claimed, exactly_one}

pub record Workers : Type 0 where
  pub jobs : List EdgeJob
  pub selected : ℕ → Option EdgeJob
  -- The ids that were handed out, the last one first.
  pub handed : List ℕ

pub data Event : Type 0 where
  selects : ℕ → String → Event
  updates : ℕ → ℕ → Event

abbrev hold : (ℕ → Option EdgeJob) → ℕ → Option EdgeJob → ℕ → Option EdgeJob
hold f w o v = if nat_beq v w then o else f v

guarded_update : Workers → Option EdgeJob → ℕ → Workers
guarded_update s none now = s
guarded_update s (some job) now =
    if exactly_one (rows_claimed s.jobs job.id)
    then record s { jobs = claim_row s.jobs job.id now; handed = job.id ∷ s.handed }
    else s

unfoldable pub happens : Workers → Event → Workers
unfolding guarded_update
happens s (selects w gateway) = record s {
  selected = hold s.selected w (next_waiting gateway s.jobs);
}
happens s (updates w now) =
    let t = guarded_update s (s.selected w) now in record t { selected = hold t.selected w none }

unfoldable pub interleave : Workers → List Event → Workers
unfolding happens
interleave s [] = s
interleave s (e ∷ es) = interleave (happens s e) es

-- What was handed out has no queued row any more, and was handed out once.
pub record OnceEach (s : Workers) : Type 0 where
  pub gone : All (λ i. rows_claimed s.jobs i ≡ []) s.handed
  pub once : NoRepeats s.handed

rows_claimed-claim_row :
    (jobs : List EdgeJob) (id i now : ℕ)
    → rows_claimed jobs i ≡ []
    → rows_claimed (claim_row jobs id now) i ≡ []
unfolding rows_claimed claim_row
rows_claimed-claim_row [] id i now h = refl
rows_claimed-claim_row (j ∷ jobs) id i now h = ground (arith, rows_claimed-claim_row jobs id i now)

rows_claimed-claim_row_self :
    (jobs : List EdgeJob) (id now : ℕ) → rows_claimed (claim_row jobs id now) id ≡ []
unfolding rows_claimed claim_row
rows_claimed-claim_row_self [] id now = refl
rows_claimed-claim_row_self (j ∷ jobs) id now =
    ground (arith, rows_claimed-claim_row_self jobs id now)

nil_not_one : {xs : List EdgeJob} → xs ≡ [] → exactly_one xs ≡ true → ⊥
unfolding exactly_one
nil_not_one e h = false_true (ap exactly_one e) h
  where
    false_true : {b : Bool} → b ≡ false → b ≡ true → ⊥
    false_true p q = cc

guarded_update-OnceEach :
    (s : Workers) (o : Option EdgeJob) (now : ℕ) → OnceEach s → OnceEach (guarded_update s o now)
unfolding guarded_update
guarded_update-OnceEach s none now h = h
guarded_update-OnceEach s (some job) now h =
    elim (Bool-cases (exactly_one (rows_claimed s.jobs job.id))) [
      | inl one ↦ rw one (record {
        gone = (
          rows_claimed-claim_row_self s.jobs job.id now,
          All-map_imp _ _ (λ i g. rows_claimed-claim_row s.jobs job.id i now g) s.handed h.gone,
        );
        once = (
          (λ m. nil_not_one (All-In (λ i. rows_claimed s.jobs i ≡ []) s.handed h.gone m) one),
          h.once,
        );
      })
      | inr two ↦ rw two h
    ]

happens-OnceEach : (s : Workers) (e : Event) → OnceEach s → OnceEach (happens s e)
unfolding happens
happens-OnceEach s (selects w gateway) h = record { gone = h.gone; once = h.once }
happens-OnceEach s (updates w now) h =
    let k = guarded_update-OnceEach s (s.selected w) now h in
    record { gone = k.gone; once = k.once }

interleave-OnceEach : (s : Workers) (es : List Event) → OnceEach s → OnceEach (interleave s es)
unfolding interleave
interleave-OnceEach s [] h = h
interleave-OnceEach s (e ∷ es) h = interleave-OnceEach (happens s e) es (happens-OnceEach s e h)

-- However many workers poll, and however their selections and updates interleave, no job is
-- handed out twice, as long as no stale claim is put back in between.
pub interleave-NoRepeats :
    (jobs : List EdgeJob) (es : List Event)
    → NoRepeats (interleave (record { jobs = jobs; selected = λ _. none; handed = [] }) es).handed
interleave-NoRepeats jobs es = (interleave-OnceEach _ es (record { gone = tt; once = tt })).once
