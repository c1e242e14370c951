-- ===== src/Edge/Outbox/Bisection.antt =====
-- Bisection finds exactly the rows that the cloud refuses.
use iot_cloud_commissioning.Prelude.{
  ℕ, zero, suc, ◌/◌, ◌≤◌, ◌≡◌, refl, sym, ap, ◌∙◌, Bool, true, false, Option, none, some, List, [],
  ◌∷◌, ◌++◌, String, map, nat_beq, nat_eq, arith, if◌then◌else◌, length, take, drop, any,
  Bool-cases, inl, inr, length-take, length-drop, take-append-drop, is_some,
}
use iot_cloud_commissioning.Dict.{put}
use iot_cloud_commissioning.Edge.Outbox.{
  OutboxRow, OutboxState, QueuedRow, AgentConfig, Answer, accepted, refused, Delivery,
  is_retryable_upload_error, delivered, acknowledge_each, quarantine_row, both_halves, isolate,
  answered, unless_raised, deliver,
}

half_bounds :
    (r s : QueuedRow) (rs : List QueuedRow) (fuel : ℕ)
    → length (r ∷ s ∷ rs) ≤ suc fuel
    → let n = length (r ∷ s ∷ rs) / 2 in
      ((1 ≤ length (take n (r ∷ s ∷ rs))) × (length (take n (r ∷ s ∷ rs)) ≤ fuel))
      × ((1 ≤ length (drop n (r ∷ s ∷ rs))) × (length (drop n (r ∷ s ∷ rs)) ≤ fuel))
half_bounds r s rs fuel h =
    let n = length (r ∷ s ∷ rs) / 2 in
    (
      (omega (arith, length-take n (r ∷ s ∷ rs), h), omega (arith, length-take n (r ∷ s ∷ rs), h)),
      (omega (arith, length-drop n (r ∷ s ∷ rs), h), omega (arith, length-drop n (r ∷ s ∷ rs), h)),
    )

unless_raised-is_some :
    (o : Option Delivery) (next : Delivery → Option Delivery)
    → is_some o ≡ true
    → ((d : Delivery) → is_some (next d) ≡ true)
    → is_some (unless_raised o next) ≡ true
unfolding unless_raised
unless_raised-is_some none next h k = h
unless_raised-is_some (some d) next h k = either d.raised
  where
    either : (b : Bool) → is_some (if b then some d else next d) ≡ true
    either true = refl
    either false = k d

module _ (post : List QueuedRow → Answer) (safe_error : String → String) (config : AgentConfig)
    (now : ℕ) where
  -- Each nested call ends on a batch that is not empty and within the fuel.
  abbrev Ends : ℕ → (List QueuedRow → Delivery → Option Delivery) → Type 0
  Ends fuel go =
      (rows : List QueuedRow) (d : Delivery)
      → 1 ≤ length rows
      → length rows ≤ fuel
      → is_some (go rows d) ≡ true

  isolate-is_some :
      (fuel : ℕ) (go : List QueuedRow → Delivery → Option Delivery)
      → Ends fuel go
      → (status : Option ℕ) (error : String)
      → Ends (suc fuel) (λ rows d. isolate safe_error now go rows status error d)
  unfolding isolate both_halves
  isolate-is_some fuel go ends status error [] d h k = absurd (omega (arith, h))
  isolate-is_some fuel go ends status error (r ∷ []) d h k = refl
  isolate-is_some fuel go ends status error (r ∷ s ∷ rs) d h k =
      let (first, second) = half_bounds r s rs fuel k in
      unless_raised-is_some (go (take (length (r ∷ s ∷ rs) / 2) (r ∷ s ∷ rs)) d) _
        (ends _ d first.0 first.1) (λ e. ends _ e second.0 second.1)

  answered-is_some :
      (fuel : ℕ) (go : List QueuedRow → Delivery → Option Delivery)
      → Ends fuel go
      → (a : Answer) → Ends (suc fuel) (λ rows d. answered safe_error config now go rows a d)
  unfolding answered
  answered-is_some fuel go ends (accepted status) rows d h k = refl
  answered-is_some fuel go ends (refused status error) rows d h k =
      elim (Bool-cases (is_retryable_upload_error status)) [
        | inl e ↦ rw e refl
        | inr e ↦ rw e (isolate-is_some fuel go ends status error rows d h k)
      ]

  -- Whatever the cloud answers, a delivery of at least one row ends with as many nested calls as
  -- the batch has rows.
  pub deliver-is_some :
      (fuel : ℕ) (batch : List QueuedRow) (d : Delivery)
      → 1 ≤ length batch
      → length batch ≤ fuel
      → is_some (deliver post safe_error config now fuel batch d) ≡ true
  unfolding deliver
  deliver-is_some zero batch d h k = absurd (omega (arith, h, k))
  deliver-is_some (suc fuel) batch d h k =
      answered-is_some fuel (deliver post safe_error config now fuel) (deliver-is_some fuel)
        (post batch) batch d h k

-- What a row of the outbox is to be: uploaded and settled, or refused with the error and one more
-- attempt.
abbrev pub uploaded_row : ℕ → OutboxRow → OutboxRow
uploaded_row now o = record {
  id = o.id;
  state = OutboxState.uploaded;
  attempt_count = o.attempt_count;
  next_attempt_at = none;
  last_error = none;
  uploaded_at = some now;
  updated_at = now;
}

abbrev pub refused_row : ℕ → String → OutboxRow → OutboxRow
refused_row now text o = record {
  id = o.id;
  state = o.state;
  attempt_count = suc o.attempt_count;
  next_attempt_at = o.next_attempt_at;
  last_error = some text;
  uploaded_at = o.uploaded_at;
  updated_at = now;
}

abbrev pub at_row : (OutboxRow → OutboxRow) → ℕ → List OutboxRow → List OutboxRow
at_row f id = map (λ o. if nat_beq o.id id then f o else o)

-- One row for itself: marked as uploaded and counted, or put in quarantine with its error.
abbrev pub one_row :
    (QueuedRow → Bool) → (String → String) → ℕ → Option ℕ → String → QueuedRow → Delivery → Delivery
one_row bad safe_error now status error r d =
    if bad r
    then record {
      outbox = at_row (refused_row now (safe_error error)) r.outbox_id d.outbox;
      quarantine = put d.quarantine r.outbox_id (record {
        event_id = r.event_id;
        http_status = status;
        error_text = safe_error error;
        quarantined_at = now;
        attempt_count = suc r.attempt_count;
      });
      uploaded = d.uploaded;
      raised = d.raised;
    }
    else record {
      outbox = at_row (uploaded_row now) r.outbox_id d.outbox;
      quarantine = d.quarantine;
      uploaded = suc d.uploaded;
      raised = d.raised;
    }

-- Row after row, as if each had been posted alone.
abbrev pub row_by_row :
    (QueuedRow → Bool)
    → (String → String)
    → ℕ
    → Option ℕ
    → String
    → List QueuedRow
    → Delivery
    → Delivery
row_by_row bad safe_error now status error [] d = d
row_by_row bad safe_error now status error (r ∷ rs) d =
    row_by_row bad safe_error now status error rs (one_row bad safe_error now status error r d)

module _ (bad : QueuedRow → Bool) (safe_error : String → String) (now : ℕ) (status : Option ℕ)
    (error : String) where
  row_by_row-append :
      (xs ys : List QueuedRow) (d : Delivery)
      → row_by_row bad safe_error now status error (xs ++ ys) d
        ≡ row_by_row bad safe_error now status error ys
            (row_by_row bad safe_error now status error xs d)
  row_by_row-append [] ys d = refl
  row_by_row-append (x ∷ xs) ys d =
      row_by_row-append xs ys (one_row bad safe_error now status error x d)

  row_by_row-delivered :
      (rows : List QueuedRow) (d : Delivery)
      → any bad rows ≡ false
      → row_by_row bad safe_error now status error rows d ≡ delivered now rows d
  unfolding delivered acknowledge_each
  row_by_row-delivered [] d h = ground arith
  row_by_row-delivered (r ∷ rs) d h =
      ap (row_by_row bad safe_error now status error rs) (alone (ground arith))
      ∙ row_by_row-delivered rs (delivered now (r ∷ []) d) (ground arith)
      ∙ ap (λ n. record d { outbox = acknowledge_each now (r ∷ rs) d.outbox; uploaded = n })
          (omega arith)
    where
      alone : bad r ≡ false → one_row bad safe_error now status error r d ≡ delivered now (r ∷ []) d
      alone good =
          rw good (ap (λ n. record (delivered now (r ∷ []) d) { uploaded = n }) (omega arith))

  row_by_row-raised :
      (rows : List QueuedRow) (d : Delivery)
      → (row_by_row bad safe_error now status error rows d).raised ≡ d.raised
  unfolding delivered quarantine_row
  row_by_row-raised [] d = refl
  row_by_row-raised (r ∷ rs) d =
      row_by_row-raised rs (one_row bad safe_error now status error r d) ∙ ground arith

  -- The cloud refuses a batch for good exactly if it has a bad row.
  abbrev pub RefusesBad : (List QueuedRow → Answer) → ℕ → Type 0
  RefusesBad post accepted_status =
      (is_retryable_upload_error status ≡ false)
      × ((rows : List QueuedRow)
          → post rows ≡ (if any bad rows then refused status error else accepted accepted_status))

  both_halves-row_by_row :
      (go : List QueuedRow → Delivery → Option Delivery) (rows : List QueuedRow) (d : Delivery)
      → d.raised ≡ false
      → let n = length rows / 2 in
        go (take n rows) d ≡ some (row_by_row bad safe_error now status error (take n rows) d)
        → ((e : Delivery)
            → e.raised ≡ false
            → go (drop n rows) e
              ≡ some (row_by_row bad safe_error now status error (drop n rows) e))
        → both_halves go rows d ≡ some (row_by_row bad safe_error now status error rows d)
  unfolding both_halves
  both_halves-row_by_row go rows d quiet h k =
      ap (λ o. unless_raised o (go (drop n rows))) h
      ∙ went_on (row_by_row bad safe_error now status error (take n rows) d)
          (row_by_row-raised (take n rows) d ∙ quiet)
      ∙ ap some (
          sym (row_by_row-append (take n rows) (drop n rows) d)
          ∙ ap (λ xs. row_by_row bad safe_error now status error xs d) (take-append-drop n rows))
    where
      n : ℕ
      n = length rows / 2

      went_on :
          (e : Delivery)
          → e.raised ≡ false
          → unless_raised (some e) (go (drop n rows))
            ≡ some (row_by_row bad safe_error now status error (drop n rows) e)
      went_on e q = unfold unless_raised in go_on e.raised q
        where
          go_on :
              (b : Bool)
              → b ≡ false
              → (if b then some e else go (drop n rows) e)
                ≡ some (row_by_row bad safe_error now status error (drop n rows) e)
          go_on true c = cc
          go_on false c = k e q

  isolate-row_by_row :
      (fuel : ℕ) (go : List QueuedRow → Delivery → Option Delivery)
      → ((rows : List QueuedRow) (e : Delivery)
          → e.raised ≡ false
          → 1 ≤ length rows
          → length rows ≤ fuel
          → go rows e ≡ some (row_by_row bad safe_error now status error rows e))
      → (batch : List QueuedRow) (d : Delivery) → d.raised ≡ false
      → 1 ≤ length batch
      → length batch ≤ suc fuel
      → any bad batch ≡ true
      → isolate safe_error now go batch status error d
        ≡ some (row_by_row bad safe_error now status error batch d)
  unfolding isolate quarantine_row
  isolate-row_by_row fuel go hyp [] d quiet h k b = absurd (omega (arith, h))
  isolate-row_by_row fuel go hyp (r ∷ []) d quiet h k b = ap some (sym (alone (ground arith)))
    where
      alone :
          bad r ≡ true
          → one_row bad safe_error now status error r d
            ≡ quarantine_row safe_error now status error r d
      alone e = rw e refl
  isolate-row_by_row fuel go hyp (r ∷ s ∷ rs) d quiet h k b =
      let (first, second) = half_bounds r s rs fuel k in
      both_halves-row_by_row go (r ∷ s ∷ rs) d quiet (hyp _ d quiet first.0 first.1)
        (λ e q. hyp _ e q second.0 second.1)

  module _ (post : List QueuedRow → Answer) (accepted_status : ℕ) (config : AgentConfig)
      (refuses : RefusesBad post accepted_status) where
    -- If the cloud refuses a batch for good exactly if it has a bad row, a delivery ends and leaves
    -- the outbox, the quarantine and the count as if each row had been sent alone: the good rows
    -- marked as uploaded and counted, the bad ones in quarantine with the status and the error, and no
    -- exception.
    pub deliver-row_by_row :
        (fuel : ℕ) (batch : List QueuedRow) (d : Delivery)
        → d.raised ≡ false
        → 1 ≤ length batch
        → length batch ≤ fuel
        → deliver post safe_error config now fuel batch d
          ≡ some (row_by_row bad safe_error now status error batch d)
    unfolding deliver answered isolate
    deliver-row_by_row zero batch d quiet h k = absurd (omega (arith, h, k))
    deliver-row_by_row (suc fuel) batch d quiet h k =
        ap (λ a. answered safe_error config now (deliver post safe_error config now fuel) batch a d)
          (refuses.1 batch)
        ∙ either (deliver-row_by_row fuel) (any bad batch) refl
      where
        either :
            ((rows : List QueuedRow) (e : Delivery)
              → e.raised ≡ false
              → 1 ≤ length rows
              → length rows ≤ fuel
              → deliver post safe_error config now fuel rows e
                ≡ some (row_by_row bad safe_error now status error rows e))
            → (b : Bool) → any bad batch ≡ b
            → answered safe_error config now
                (deliver post safe_error config now fuel)
                batch
                (if b then refused status error else accepted accepted_status)
                d
              ≡ some (row_by_row bad safe_error now status error batch d)
        either hyp false e = ap some (sym (row_by_row-delivered batch d e))
        either hyp true e = rw (refuses.0) (
            isolate-row_by_row fuel (deliver post safe_error config now fuel) hyp batch d quiet h k
              e)
