-- ===== src/Edge/Sampling/Budget.antt =====
-- The points that are read stay within the budget of the group.
use iot_cloud_commissioning.Prelude.{
  ℕ, suc, ◌+◌, ◌≤◌, ◌≡◌, refl, Bool, true, false, List, [], ◌∷◌, ◌++◌, arith, length, ltb,
}
use iot_cloud_commissioning.Dict.{Dict}
use iot_cloud_commissioning.Json.{ℤ}
use iot_cloud_commissioning.Edge.Sampling.{
  TrendPoint, Runtime, SamplingConfig, BulkRead, Tally, error_of, is_busy,
}
use iot_cloud_commissioning.Edge.Sampling.Reads.{
  concat, take_batch, put_off, after_read, read_batch, unless_live, read_batches,
}
use iot_cloud_commissioning.Edge.Sampling.Cycle.{chunked, read_device, read_devices}
use iot_cloud_commissioning.Edge.Sampling.Batches.{take_batch-attempted, asked_and_noted}

module _ (runtime : Runtime) (now : ℕ) (budget : ℕ) where
  abbrev IsWithin : Tally → Type 0
  IsWithin t = t.attempted ≤ budget

  after_read-IsWithin :
      (device : ℤ) (b : List TrendPoint) (bs : List (List TrendPoint)) (answer : BulkRead)
      (go_on : Tally → Tally)
      → ((t : Tally) → IsWithin t → IsWithin (go_on t))
      → (t : Tally) → t.attempted + length b ≤ budget
      → IsWithin (after_read now device b bs answer go_on t)
  unfolding after_read put_off
  after_read-IsWithin device b bs answer go_on goes t h = by_test (is_busy (error_of answer))
    where
      by_test :
          (busy : Bool)
          → IsWithin (elim busy [
            | true ↦ put_off (b ++ concat bs) t
            | false ↦ go_on (take_batch now device b answer t)
          ])
      by_test true = omega (arith, h)
      by_test false =
          goes (take_batch now device b answer t)
            (omega (arith, h, take_batch-attempted now device b answer t))

  unless_live-IsWithin :
      (later : Bool) (ps : List TrendPoint) (go_on : Tally → Tally) (n : ℕ)
      → ((t : Tally) → t.attempted + n ≤ budget → IsWithin (go_on t))
      → (t : Tally) → t.attempted + n ≤ budget
      → IsWithin (unless_live runtime now budget later ps go_on t)
  unfolding unless_live put_off
  unless_live-IsWithin false ps go_on n goes t h = goes t h
  unless_live-IsWithin true ps go_on n goes t h = by_test (runtime.lock_held t.asked)
    where
      asked : Tally
      asked = record t { asked = suc t.asked }

      by_test :
          (held : Bool) → IsWithin (elim held [ true ↦ put_off ps asked | false ↦ go_on asked ])
      by_test true = omega (arith, h)
      by_test false = goes asked h

  read_batches-IsWithin :
      (device : ℤ) (later : Bool) (bs : List (List TrendPoint)) (t : Tally)
      → IsWithin t
      → IsWithin (read_batches runtime now budget device later bs t)
  unfolding read_batches read_batch put_off
  read_batches-IsWithin device later [] t h = h
  read_batches-IsWithin device later (b ∷ bs) t h =
      by_test (ltb budget (t.attempted + length b)) _ (λ fits.
        unless_live-IsWithin later _ (next (read_batches runtime now budget device true bs))
          (length b)
          (reads (read_batches runtime now budget device true bs)
            (read_batches-IsWithin device true bs))
          t (ground arith))
    where
      next : (Tally → Tally) → Tally → Tally
      next = read_batch runtime now budget device b bs

      by_test :
          (over : Bool) (t' : Tally)
          → (over ≡ false → IsWithin t')
          → IsWithin (elim over [ true ↦ put_off (b ++ concat bs) t | false ↦ t' ])
      by_test true t' going = h
      by_test false t' going = going refl

      reads :
          (go_on : Tally → Tally)
          → ((t : Tally) → IsWithin t → IsWithin (go_on t))
          → (t : Tally) → t.attempted + length b ≤ budget
          → IsWithin (next go_on t)
      reads go_on goes t h =
          let answer = runtime.read_bulk t.asked device b in
          let s = asked_and_noted device answer t in
          after_read-IsWithin device b bs answer go_on goes _ (omega (arith, h, s.attempted))

  pub read_devices-IsWithin :
      (config : SamplingConfig) (ds : Dict ℤ (List TrendPoint)) (t : Tally)
      → IsWithin t
      → IsWithin (read_devices runtime config now budget ds t)
  unfolding read_devices read_device
  read_devices-IsWithin config [] t h = h
  read_devices-IsWithin config ((device, points) ∷ ds) t h =
      read_devices-IsWithin config ds (read_device runtime config now budget device points t)
        (by_test t.yielded)
    where
      by_test :
          (yielded : Bool)
          → IsWithin (elim yielded [
            | true ↦ record t { deferred_count = t.deferred_count + length points }
            | false ↦
                read_batches runtime now budget device false
                  (chunked config.trend_read_batch_size points)
                  t
          ])
      by_test true = h
      by_test false = read_batches-IsWithin device false _ t h
