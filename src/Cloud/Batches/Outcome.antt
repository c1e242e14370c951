-- ===== src/Cloud/Batches/Outcome.antt =====
-- What the status of a write batch says of its commands.
use iot_cloud_commissioning.Prelude.{
  ℕ, ◌≡◌, ◌≢◌, ◌↔◌, refl, Bool, true, false, ◌||◌, Option, none, some, List, [], ◌∷◌, arith, any,
  all, All, is_none,
}
use iot_cloud_commissioning.Cloud.Db.{
  CommandStatus, BatchStatus, is_command_queued, is_command_claimed, is_command_succeeded,
  is_command_failed, is_command_deferred,
}
use iot_cloud_commissioning.Cloud.Batches.{batch_outcome}

-- A command that the gateway may still act on.
abbrev pub is_open : CommandStatus → Bool
is_open CommandStatus.queued = true
is_open CommandStatus.claimed = true
is_open _ = false

any-is_open :
    (ss : List CommandStatus)
    → any is_open ss ≡ (any is_command_queued ss || any is_command_claimed ss)
any-is_open [] = refl
any-is_open (s ∷ ss) = ground (arith, any-is_open ss)

-- What each status of a batch means, with the completion time that goes with it.
abbrev pub Means : List CommandStatus → ℕ → BatchStatus → Option ℕ → Type 0
Means ss now BatchStatus.claimed t = (any is_command_claimed ss ≡ true) × (t ≡ none)
Means ss now BatchStatus.queued t =
    (any is_command_queued ss ≡ true) × (any is_command_claimed ss ≡ false) × (t ≡ none)
Means ss now BatchStatus.completed t = All (λ s. s ≡ CommandStatus.succeeded) ss × (t ≡ some now)
Means ss now BatchStatus.failed t = All (λ s. s ≡ CommandStatus.failed) ss × (t ≡ some now)
Means ss now BatchStatus.deferred t = All (λ s. s ≡ CommandStatus.deferred) ss × (t ≡ some now)
Means ss now BatchStatus.partial t =
    (any is_open ss ≡ false)
    × (¬ All (λ s. s ≡ CommandStatus.succeeded) ss)
    × (¬ All (λ s. s ≡ CommandStatus.failed) ss)
    × (¬ All (λ s. s ≡ CommandStatus.deferred) ss)
    × (t ≡ some now)
Means ss now BatchStatus.pending_approval t = ⊥

all_succeeded :
    (ss : List CommandStatus)
    → all is_command_succeeded ss ≡ true
    → All (λ s. s ≡ CommandStatus.succeeded) ss
all_succeeded [] h = tt
all_succeeded (s ∷ ss) h = (ground arith, all_succeeded ss (ground arith))

all_failed :
    (ss : List CommandStatus)
    → all is_command_failed ss ≡ true
    → All (λ s. s ≡ CommandStatus.failed) ss
all_failed [] h = tt
all_failed (s ∷ ss) h = (ground arith, all_failed ss (ground arith))

all_deferred :
    (ss : List CommandStatus)
    → all is_command_deferred ss ≡ true
    → All (λ s. s ≡ CommandStatus.deferred) ss
all_deferred [] h = tt
all_deferred (s ∷ ss) h = (ground arith, all_deferred ss (ground arith))

succeeded_all :
    (ss : List CommandStatus)
    → All (λ s. s ≡ CommandStatus.succeeded) ss
    → all is_command_succeeded ss ≡ true
succeeded_all [] h = refl
succeeded_all (s ∷ ss) h = ground (arith, succeeded_all ss h.1)

failed_all :
    (ss : List CommandStatus)
    → All (λ s. s ≡ CommandStatus.failed) ss
    → all is_command_failed ss ≡ true
failed_all [] h = refl
failed_all (s ∷ ss) h = ground (arith, failed_all ss h.1)

deferred_all :
    (ss : List CommandStatus)
    → All (λ s. s ≡ CommandStatus.deferred) ss
    → all is_command_deferred ss ≡ true
deferred_all [] h = refl
deferred_all (s ∷ ss) h = ground (arith, deferred_all ss h.1)

-- Every status that a refresh writes says the truth about the commands.
batch_outcome_sound :
    (ss : List CommandStatus) (now : ℕ) (b : BatchStatus) (t : Option ℕ)
    → batch_outcome ss now ≡ some (b, t)
    → Means ss now b t
unfolding batch_outcome
batch_outcome_sound [] now b t h = cc
batch_outcome_sound (s ∷ ss) now BatchStatus.claimed t h = ground arith
batch_outcome_sound (s ∷ ss) now BatchStatus.queued t h = ground arith
batch_outcome_sound (s ∷ ss) now BatchStatus.completed t h =
    (all_succeeded (s ∷ ss) (ground arith), ground arith)
batch_outcome_sound (s ∷ ss) now BatchStatus.failed t h =
    (all_failed (s ∷ ss) (ground arith), ground arith)
batch_outcome_sound (s ∷ ss) now BatchStatus.deferred t h =
    (all_deferred (s ∷ ss) (ground arith), ground arith)
batch_outcome_sound (s ∷ ss) now BatchStatus.partial t h = (
  ground (arith, any-is_open (s ∷ ss)),
  λ a. ground (arith, succeeded_all (s ∷ ss) a),
  λ a. ground (arith, failed_all (s ∷ ss) a),
  λ a. ground (arith, deferred_all (s ∷ ss) a),
  ground arith,
)
batch_outcome_sound (s ∷ ss) now BatchStatus.pending_approval t h = ground arith

succeeded_not_open :
    (ss : List CommandStatus) → All (λ s. s ≡ CommandStatus.succeeded) ss → any is_open ss ≡ false
succeeded_not_open [] h = refl
succeeded_not_open (s ∷ ss) h = ground (arith, succeeded_not_open ss h.1)

batch_outcome_complete :
    (s : CommandStatus) (ss : List CommandStatus) (now : ℕ)
    → ((batch_outcome (s ∷ ss) now ≡ some (BatchStatus.completed, some now))
        ↔ All (λ c. c ≡ CommandStatus.succeeded) (s ∷ ss))
      × ((b : BatchStatus) (t : Option ℕ)
          → batch_outcome (s ∷ ss) now ≡ some (b, t)
          → is_none t ≡ any is_open (s ∷ ss))
unfolding batch_outcome
batch_outcome_complete s ss now = (
  (
    λ h. all_succeeded (s ∷ ss) (ground arith),
    λ h.
        ground
          (arith, succeeded_all (s ∷ ss) h, succeeded_not_open (s ∷ ss) h, any-is_open (s ∷ ss)),
  ),
  λ b t h. ground (arith, any-is_open (s ∷ ss)),
)

-- The refresh of a batch that has commands gives it a status and a completion time: the status says
-- the truth about the commands (`partial` only if they do not all share one end), it is `completed` exactly when each of them succeeded, and there is
-- a completion time exactly when no command is open.
pub batch_outcome_exact :
    (s : CommandStatus) (ss : List CommandStatus) (now : ℕ)
    → (b : BatchStatus) × (t : Option ℕ) × (batch_outcome (s ∷ ss) now ≡ some (b, t))
      × Means (s ∷ ss) now b t
      × ((b ≡ BatchStatus.completed) ↔ All (λ c. c ≡ CommandStatus.succeeded) (s ∷ ss))
      × (is_none t ≡ any is_open (s ∷ ss))
batch_outcome_exact s ss now = by_outcome (batch_outcome (s ∷ ss) now) refl
  where
    known : batch_outcome (s ∷ ss) now ≢ none
    known = unfold batch_outcome in ground arith

    there :
        (b : BatchStatus) (t : Option ℕ)
        → Means (s ∷ ss) now b t
        → b ≡ BatchStatus.completed
        → All (λ c. c ≡ CommandStatus.succeeded) (s ∷ ss)
    there BatchStatus.completed t (all_done, at_once) h = all_done
    there BatchStatus.claimed t m h = cc h
    there BatchStatus.queued t m h = cc h
    there BatchStatus.failed t m h = cc h
    there BatchStatus.deferred t m h = cc h
    there BatchStatus.partial t m h = cc h
    there BatchStatus.pending_approval t m h = cc h

    by_outcome :
        (o : Option (BatchStatus × Option ℕ))
        → batch_outcome (s ∷ ss) now ≡ o
        → (b : BatchStatus) × (t : Option ℕ) × (batch_outcome (s ∷ ss) now ≡ some (b, t))
          × Means (s ∷ ss) now b t
          × ((b ≡ BatchStatus.completed) ↔ All (λ c. c ≡ CommandStatus.succeeded) (s ∷ ss))
          × (is_none t ≡ any is_open (s ∷ ss))
    by_outcome none e = absurd (known e)
    by_outcome (some (b, t)) e =
        let means = batch_outcome_sound (s ∷ ss) now b t e in
        let (completes, closes) = batch_outcome_complete s ss now in
        (b, t, e, means, (there b t means, λ c. ground (arith, completes.1 c)), closes b t e)
