-- ===== src/Redis/Operations.antt =====
-- client.go over a Redis that does what it documents: the job operations keep their promise.
use webtracker.Shared.{
  arith, ℕ, ◌≡◌, ◌∙◌, ap, refl, Option, none, some, List, [], ◌∷◌, String, inl, inr, ◌⊎◌,
}
use webtracker.Shared.Clock.{Instant, Duration}
use webtracker.Shared.Errors.{Error, wrapped, Result, Outcome, ok, err, Result-cases}
use webtracker.Resilience.RedisClient.{Job}
use webtracker.Redis.Store.{
  due, later, snds, Schedules, Enqueues, Dequeues, TakesDue, IsJobStore, IsOrdered,
}
use webtracker.Redis.{
  Commands, Json, client, unmarshal_all, take_due, enqueue, dequeue, decode_reply, unix,
}
use webtracker.Redis.{stamp, get_due_jobs}
use webtracker.Redis
use webtracker.Shared.Effects.{and_then, in_context, context, pure, ◌>>◌}
use webtracker.Redis.Served.{
  Serves, Pops, Pushes, AddsIfDone, Ranges, Removes, kept, decode, decode_entries, decode-append,
  decode-due, decode-IsOrdered, Adds-decode, due-later, queued_jobs, scheduled_jobs,
}

module _ {W B : Type 0} (redis : Commands W B) (json : Json Job B) (clock : W → Instant × W)
    (queue schedule : String) (laws : Serves redis json clock queue schedule) where
  -- Either every value is a job, or there is an error; nothing is called.
  unmarshal_all_lem :
      (l : List B) (w : W)
      → (unmarshal_all redis json clock l w ≡ (ok (decode json l), w))
        ⊎ ((e : Error) × (unmarshal_all redis json clock l w ≡ (err e, w)))
  unfolding unmarshal_all decode kept
  unmarshal_all_lem [] w = inl refl
  unmarshal_all_lem (b ∷ l) w = elim (Result-cases (json.unmarshal b)) [
    | inl (j, f) ↦ elim (unmarshal_all_lem l w) [
      | inl g ↦ inl (rw (f, g) refl)
      | inr (x, g) ↦ inr (x, rw (f, g) refl)
    ]
    | inr (x, f) ↦ inr (wrapped "failed to unmarshal job" x, rw f refl)
  ]

  stamped :
      (now : Instant) (job : Job)
      → record job { created_at = (stamp now job).created_at } ≡ stamp now job
  stamped now job = ground arith

  after_zrem :
      (n : ℕ) (before : List (ℕ × B)) (r : Outcome) (w : W)
      → Removes before (later n before) r (laws.members w)
      → let (r', w') =
          and_then
            (in_context "failed to remove due jobs" r, w)
            (λ _. pure (decode json (snds (due n before)))) in
        TakesDue n (decode_entries json before) r' (decode_entries json (laws.members w'))
        × (w' ≡ w)
  after_zrem n before (ok _) w h =
      (ground (arith, h, decode-due json n before, decode-due json n (due n before)), refl)
  after_zrem n before (err e) w h = (ap (decode_entries json) h, refl)

  after_rpush :
      (now : Instant) (job : Job) (text : String) (b : B) (before after : List B) (r : Outcome)
      → json.unmarshal b ≡ ok (stamp now job)
      → Pushes b before r after
      → Enqueues job (decode json before) (in_context text r) (decode json after)
  after_rpush now job text b before after (ok _) e h =
      ((stamp now job).created_at, rw (h, stamped now job) (decode-append json before b _ e))
  after_rpush now job text b before after (err x) e h = ap (decode json) h

  after_zadd :
      (now : Instant) (job : Job) (text : String) (n : ℕ) (b : B) (before after : List (ℕ × B))
      (r : Outcome)
      → json.unmarshal b ≡ ok (stamp now job)
      → AddsIfDone n b before r after
      → Schedules n job (decode_entries json before) (in_context text r) (decode_entries json after)
  after_zadd now job text n b before after (ok _) e h =
      ((stamp now job).created_at, rw (stamped now job) (Adds-decode json n b _ before after e h))
  after_zadd now job text n b before after (err x) e h = ap (decode_entries json) h

  after_reply :
      (b : B) (l : List B) (r : Result Job)
      → json.unmarshal b ≡ r
      → Dequeues
          (decode json (b ∷ l))
          (and_then (in_context "failed to unmarshal job" r, tt) (λ job s. (ok (some job), s))).0
          (decode json l)
  unfolding decode kept
  after_reply b l (ok job) e = rw e refl
  after_reply b l (err x) e = rw e refl

  schedule_lem :
      (job : Job) (t : Instant) (w : W)
      → let (r, w') = Redis.schedule redis json clock schedule job t w in
        Schedules (unix t) job (scheduled_jobs laws w) r (scheduled_jobs laws w')
        × (queued_jobs laws w' ≡ queued_jobs laws w)
  unfolding Redis.schedule scheduled_jobs queued_jobs
  schedule_lem job t w =
      let (same_items, same_members) = laws.clock_keeps w in
      elim (Result-cases (json.marshal (stamp (clock w).0 job))) [
        | inl (b, f) ↦
            let (h, same) = laws.zadd_effect (unix t) b (clock w).1 in
            rw f (
              rw (scheduled_jobs, ← same_members)
                  (after_zadd (clock w).0 job _ (unix t) b _ _ _ (laws.round_trip _ b f) h),
              ap (decode json) (same ∙ same_items),
            )
        | inr (x, f) ↦ rw f (ap (decode_entries json) same_members, ap (decode json) same_items)
      ]

  enqueue_lem :
      (job : Job) (w : W)
      → let (r, w') = enqueue redis json clock queue job w in
        Enqueues job (queued_jobs laws w) r (queued_jobs laws w')
        × (scheduled_jobs laws w' ≡ scheduled_jobs laws w)
  unfolding enqueue scheduled_jobs queued_jobs
  enqueue_lem job w =
      let (same_items, same_members) = laws.clock_keeps w in
      elim (Result-cases (json.marshal (stamp (clock w).0 job))) [
        | inl (b, f) ↦
            let (h, same) = laws.rpush_effect b (clock w).1 in
            rw f (
              rw (queued_jobs, ← same_items)
                  (after_rpush (clock w).0 job _ b _ _ _ (laws.round_trip _ b f) h),
              ap (decode_entries json) (same ∙ same_members),
            )
        | inr (x, f) ↦ rw f (ap (decode json) same_items, ap (decode_entries json) same_members)
      ]

  decode_reply_lem :
      (reply : Option (List B)) (w : W) → (decode_reply redis json clock reply w).1 ≡ w
  unfolding decode_reply
  decode_reply_lem none w = refl
  decode_reply_lem (some []) w = refl
  decode_reply_lem (some (a ∷ [])) w = refl
  decode_reply_lem (some (a ∷ b ∷ [])) w = ground arith
  decode_reply_lem (some (a ∷ b ∷ c ∷ l)) w = refl

  after_blpop :
      (r : Result (Option (List B))) (before : List B) (w : W)
      → Pops before r (laws.items w)
      → let (r', w') =
          and_then (in_context "failed to dequeue job" r, w) (decode_reply redis json clock) in
        Dequeues (decode json before) r' (decode json (laws.items w'))
        × (laws.members w' ≡ laws.members w)
  unfolding decode_reply decode
  after_blpop (err e) before w h = (ap (decode json) h, refl)
  after_blpop (ok none) before w h = (rw (h.0, h.1) (refl, refl), refl)
  after_blpop (ok (some reply)) before w (name, b, e, f) = rw e (
    ground (arith, f, after_reply b (laws.items w) _ refl),
    ap laws.members (decode_reply_lem (some (name ∷ b ∷ [])) w),
  )

  dequeue_lem :
      (t : Duration) (w : W)
      → let (r, w') = dequeue redis json clock queue t w in
        Dequeues (queued_jobs laws w) r (queued_jobs laws w')
        × (scheduled_jobs laws w' ≡ scheduled_jobs laws w)
  unfolding dequeue scheduled_jobs queued_jobs
  dequeue_lem t w =
      let (h, same) = laws.blpop_effect t w in
      let (done, same') =
        after_blpop (redis.blpop t queue w).0 (laws.items w) (redis.blpop t queue w).1 h in
      (done, ap (decode_entries json) (same' ∙ same))

  no_entries : (l : List (ℕ × B)) → [] ≡ snds l → l ≡ []
  no_entries [] e = refl
  no_entries ((n, b) ∷ l) e = cc

  nothing_left : (n : ℕ) (l : List (ℕ × B)) → IsOrdered l → [] ≡ snds (due n l) → later n l ≡ l
  nothing_left n l h e = ground (arith, due-later n l h, no_entries (due n l) e)

  removed_lem :
      (n : ℕ) (w : W) (members : List B)
      → members ≡ snds (due n (laws.members w))
      → let m =
          context "failed to remove due jobs" (redis.zrem schedule members)
          >> pure (decode json members) in
        TakesDue n (scheduled_jobs laws w) (m w).0 (scheduled_jobs laws (m w).1)
        × (queued_jobs laws (m w).1 ≡ queued_jobs laws w)
  unfolding scheduled_jobs queued_jobs
  removed_lem n w members e =
      let front = due n (laws.members w) in
      let (h, same) =
        laws.zrem_effect w front (later n (laws.members w))
          (due-later n (laws.members w) (laws.ordered w)) in
      let (r, w') = redis.zrem schedule (snds front) w in
      let (done, same') = after_zrem n (laws.members w) r w' h in
      rw e (done, ap (decode json) (ap laws.items same' ∙ same))

  take_lem :
      (n : ℕ) (members : List B) (w : W)
      → members ≡ snds (due n (laws.members w))
      → let (r, w') = take_due redis json clock schedule members w in
        TakesDue n (scheduled_jobs laws w) r (scheduled_jobs laws w')
        × (queued_jobs laws w' ≡ queued_jobs laws w)
  unfolding take_due scheduled_jobs queued_jobs decode
  take_lem n [] w e = ground (
    arith,
    e,
    nothing_left n (laws.members w) (laws.ordered w) e,
    no_entries (due n (laws.members w)) e,
    decode-due json n (laws.members w),
    decode-due json n (due n (laws.members w)),
  )
  take_lem n (b ∷ l) w e = elim (unmarshal_all_lem (b ∷ l) w) [
    | inl g ↦ rw g (removed_lem n w (b ∷ l) e)
    | inr (x, g) ↦ rw g (refl, refl)
  ]

  after_zrange :
      (n : ℕ) (r : Result (List B)) (w : W)
      → Ranges n (laws.members w) r
      → let (r', w') =
          and_then
            (in_context "failed to get due jobs" r, w)
            (take_due redis json clock schedule) in
        TakesDue n (scheduled_jobs laws w) r' (scheduled_jobs laws w')
        × (queued_jobs laws w' ≡ queued_jobs laws w)
  after_zrange n (ok l) w h = take_lem n l w h
  after_zrange n (err e) w h = (refl, refl)

  due_lem :
      (t : Instant) (w : W)
      → let (r, w') = get_due_jobs redis json clock schedule t w in
        TakesDue (unix t) (scheduled_jobs laws w) r (scheduled_jobs laws w')
        × (queued_jobs laws w' ≡ queued_jobs laws w)
  unfolding get_due_jobs scheduled_jobs queued_jobs
  due_lem t w =
      let (h, same, same') = laws.zrange_effect (unix t) w in
      let (r, w') = redis.zrange_by_score schedule (unix t) w in
      rw (← ap (decode_entries json) same, ← ap (decode json) same')
        (after_zrange (unix t) r w' (rw same h))

  -- The job operations of the client, over a Redis at which each command either succeeds or changes
  -- nothing, keep a queue and a schedule of jobs: an operation that returns an error changes
  -- neither, jobs leave the queue in the order in which they entered it, and the jobs whose second
  -- has come are taken from the schedule all at once, in the order of their seconds.
  pub client-IsJobStore :
      (values : Json B B)
      → IsJobStore
          (client redis json clock values)
          queue
          schedule
          (queued_jobs laws)
          (scheduled_jobs laws)
  unfolding scheduled_jobs
  client-IsJobStore values = record {
    ordered = λ w. decode-IsOrdered json (laws.members w) (laws.ordered w);
    schedule_effect = schedule_lem;
    enqueue_effect = enqueue_lem;
    dequeue_effect = dequeue_lem;
    due_effect = due_lem;
  }
