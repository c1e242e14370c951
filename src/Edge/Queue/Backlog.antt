-- ===== src/Edge/Queue/Backlog.antt =====
-- The bound of the backlog, and when a failed sample is offered again.
use iot_cloud_commissioning.Prelude.{
  ℕ, zero, suc, ◌+◌, ◌≤◌, ◌<◌, ◌≡◌, Bool, true, false, ◌&&◌, List, [], ◌∷◌, ◌++◌, map, String,
  arith, if◌then◌else◌, length, take, keep, All, Bool-cases, inl, inr, string_eq,
}
use iot_cloud_commissioning.Json.{Fields}
use iot_cloud_commissioning.Cloud.Db.{update_where}
use iot_cloud_commissioning.Edge.Queue.{
  QueueRow, AgentDb, is_pending, is_backlog, backlog, new_row, queue_trend_sample, is_due,
  pending_trend_samples, is_listed, row_uploaded, row_failed, mark_trend_samples_uploaded,
  record_trend_upload_failure, Work, samples, uploads, fails, kept_or_new, work, work_each,
}

length-keep-append :
    (p : QueueRow → Bool) (xs ys : List QueueRow)
    → length (keep p (xs ++ ys)) ≡ length (keep p xs) + length (keep p ys)
length-keep-append p [] ys = omega arith
length-keep-append p (x ∷ xs) ys = ground (arith, length-keep-append p xs ys)

-- A change that puts no row into the backlog.
backlog-update-le :
    (p : QueueRow → Bool) (f : QueueRow → QueueRow)
    → ((r : QueueRow) → is_backlog (f r) ≡ true → is_backlog r ≡ true)
    → (rows : List QueueRow)
    → length (keep is_backlog (update_where p f rows)) ≤ length (keep is_backlog rows)
backlog-update-le p f h [] = omega arith
backlog-update-le p f h (r ∷ rs) = ground (arith, backlog-update-le p f h rs, h r)

queue_trend_sample-backlog-le :
    (max_pending : ℕ) (db : AgentDb) (point : String) (sample : Fields) (now : ℕ)
    → backlog db ≤ max_pending
    → backlog (kept_or_new db (queue_trend_sample db point sample now max_pending)) ≤ max_pending
unfolding queue_trend_sample kept_or_new
queue_trend_sample-backlog-le max_pending db point sample now h =
    ground (arith, length-keep-append is_backlog db.sync_queue (new_row db.next_id sample now ∷ []))

work-backlog-le :
    (max_pending : ℕ) (db : AgentDb) (w : Work)
    → backlog db ≤ max_pending
    → backlog (work max_pending db w) ≤ max_pending
unfolding work
work-backlog-le max_pending db (samples point sample now) h =
    queue_trend_sample-backlog-le max_pending db point sample now h
work-backlog-le max_pending db (uploads ids now) h =
    unfold mark_trend_samples_uploaded in
    unfold backlog in
    omega (
      arith,
      h,
      backlog-update-le (is_listed ids) (row_uploaded now) (λ r e. ground arith) db.sync_queue,
    )
work-backlog-le max_pending db (fails ids error retry_at now) h =
    unfold record_trend_upload_failure in
    unfold backlog in
    omega (
      arith,
      h,
      backlog-update-le (λ r. is_listed ids r && is_pending r.status)
          (row_failed error retry_at now) (λ r e. ground arith) db.sync_queue,
    )

-- However sampling, uploads and failures follow each other, the backlog of pending trend samples
-- never exceeds the configured capacity, if it starts within it.
pub work_each-backlog-le :
    (max_pending : ℕ) (db : AgentDb) (ws : List Work)
    → backlog db ≤ max_pending
    → backlog (work_each max_pending db ws) ≤ max_pending
unfolding work_each
work_each-backlog-le max_pending db [] h = h
work_each-backlog-le max_pending db (w ∷ ws) h =
    work_each-backlog-le max_pending (work max_pending db w) ws (work-backlog-le max_pending db w h)

All-take : (P : QueueRow → Type 0) (n : ℕ) (rs : List QueueRow) → All P rs → All P (take n rs)
All-take P zero rs h = tt
All-take P (suc n) [] h = tt
All-take P (suc n) (r ∷ rs) h = (h.0, All-take P n rs h.1)

All-keep-map :
    (P : QueueRow → Type 0) (q : QueueRow → Bool) (f : QueueRow → QueueRow)
    → ((r : QueueRow) → q (f r) ≡ true → P (f r))
    → (rs : List QueueRow) → All P (keep q (map f rs))
All-keep-map P q f h [] = tt
All-keep-map P q f h (r ∷ rs) = elim (Bool-cases (q (f r))) [
  | inl e ↦ rw e (h r e, All-keep-map P q f h rs)
  | inr e ↦ rw e (All-keep-map P q f h rs)
]

-- After a failed upload, none of its samples is offered again before the retry time; after an
-- upload, none of its samples is offered again at any time.
pub pending_trend_samples-retry :
    (db : AgentDb) (ids : List ℕ) (error : String) (retry_at failed_at limit now later : ℕ)
    → now < retry_at
    → All
        (λ r. is_listed ids r ≡ false)
        (pending_trend_samples
          (record_trend_upload_failure db ids error retry_at failed_at)
          limit
          now)
      × All
          (λ r. is_listed ids r ≡ false)
          (pending_trend_samples (mark_trend_samples_uploaded db ids failed_at) limit later)
unfolding pending_trend_samples record_trend_upload_failure mark_trend_samples_uploaded
pending_trend_samples-retry db ids error retry_at failed_at limit now later h = (
  All-take _ limit _ (
      All-keep-map (λ r. is_listed ids r ≡ false)
        (λ r. is_backlog r && is_due now r.next_attempt_at)
        (λ r.
          if is_listed ids r && is_pending r.status
          then row_failed error retry_at failed_at r
          else r)
        put_off db.sync_queue),
  All-take _ limit _ (
      All-keep-map (λ r. is_listed ids r ≡ false)
        (λ r. is_backlog r && is_due later r.next_attempt_at)
        (λ r. if is_listed ids r then row_uploaded failed_at r else r) done db.sync_queue),
)
  where
    put_off :
        (r : QueueRow)
        → (let s =
              if is_listed ids r && is_pending r.status
              then row_failed error retry_at failed_at r
              else r in
            (is_backlog s && is_due now s.next_attempt_at ≡ true → is_listed ids s ≡ false))
    put_off r e = ground arith

    done :
        (r : QueueRow)
        → (let s = if is_listed ids r then row_uploaded failed_at r else r in
            (is_backlog s && is_due later s.next_attempt_at ≡ true → is_listed ids s ≡ false))
    done r e = ground arith
