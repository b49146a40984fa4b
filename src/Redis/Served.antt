-- ===== src/Redis/Served.antt =====
-- client.go: what its job operations rely on of Redis and of the codec, and the jobs that the stored
-- values stand for.
use webtracker.Shared.{
  All, tally, ◌<◌, arith, ℕ, ◌≡◌, ◌≤◌, refl, Bool, false, Option, none, some, List, [], ◌∷◌, ◌++◌,
  String, inl, inr,
}
use webtracker.Shared.Clock.{Instant, Duration}
use webtracker.Shared.Errors.{Result, Outcome, ok, err, Result-cases}
use webtracker.Resilience.RedisClient.{Job}
use webtracker.Redis.Store.{due, later, snds, Adds, added, moved, IsOrdered}
use webtracker.Redis.{Commands, Json}

-- The reply to BLPOP, from the list before to the list after.
abbrev pub Pops : {B : Type 0} → List B → Result (Option (List B)) → List B → Type 0
Pops {B} before (ok (some reply)) after =
    (name : B) × (b : B) × (reply ≡ name ∷ b ∷ []) × (before ≡ b ∷ after)
Pops before (ok none) after = (before ≡ []) × (after ≡ [])
Pops before (err e) after = after ≡ before

abbrev pub Pushes : {B : Type 0} → B → List B → Outcome → List B → Type 0
Pushes b before (ok _) after = after ≡ before ++ b ∷ []
Pushes b before (err e) after = after ≡ before

abbrev pub AddsIfDone : {B : Type 0} → ℕ → B → List (ℕ × B) → Outcome → List (ℕ × B) → Type 0
AddsIfDone score b before (ok _) after = Adds score b before after
AddsIfDone score b before (err e) after = after ≡ before

abbrev pub Ranges : {B : Type 0} → ℕ → List (ℕ × B) → Result (List B) → Type 0
Ranges n before (ok l) = l ≡ snds (due n before)
Ranges n before (err e) = Unit

abbrev pub Removes : {B : Type 0} → List (ℕ × B) → List (ℕ × B) → Outcome → List (ℕ × B) → Type 0
Removes before rest (ok _) after = after ≡ rest
Removes before rest (err e) after = after ≡ before

-- Redis at one list and one sorted set, which is ordered by score; a command that fails changes
-- nothing, ZREM removes the members that it names, and the codec reads what it wrote.
pub record Serves {W B : Type 0} (redis : Commands W B) (json : Json Job B)
    (clock : W → Instant × W) (queue schedule : String) : Type 0 where
  pub items : W → List B
  pub members : W → List (ℕ × B)
  pub ordered : (w : W) → IsOrdered (members w)
  pub round_trip : (job : Job) (b : B) → json.marshal job ≡ ok b → json.unmarshal b ≡ ok job
  pub clock_keeps : (w : W) → (items (clock w).1 ≡ items w) × (members (clock w).1 ≡ members w)
  pub rpush_effect :
      (b : B) (w : W)
      → let (r, w') = redis.rpush queue b w in
        Pushes b (items w) r (items w') × (members w' ≡ members w)
  pub blpop_effect :
      (t : Duration) (w : W)
      → let (r, w') = redis.blpop t queue w in
        Pops (items w) r (items w') × (members w' ≡ members w)
  pub zadd_effect :
      (n : ℕ) (b : B) (w : W)
      → let (r, w') = redis.zadd schedule n b w in
        AddsIfDone n b (members w) r (members w') × (items w' ≡ items w)
  pub zrange_effect :
      (n : ℕ) (w : W)
      → let (r, w') = redis.zrange_by_score schedule n w in
        Ranges n (members w) r × (members w' ≡ members w) × (items w' ≡ items w)
  pub zrem_effect :
      (w : W) (front rest : List (ℕ × B))
      → members w ≡ front ++ rest
      → let (r, w') = redis.zrem schedule (snds front) w in
        Removes (members w) rest r (members w') × (items w' ≡ items w)

module _ {ℓ} {A : Type ℓ} where
  nothing_due :
      (n score : ℕ) (l : List (ℕ × A))
      → n < score
      → All (λ (e : ℕ × A). score ≤ e.0) l
      → (due n l ≡ []) × (later n l ≡ l)
  nothing_due n score [] h all = (refl, refl)
  nothing_due n score ((k, a) ∷ l) h all = ground (arith, nothing_due n score l h all.1, all.0)

  -- In an ordered set the entries that are due come first.
  pub due-later : (n : ℕ) (l : List (ℕ × A)) → IsOrdered l → l ≡ due n l ++ later n l
  due-later n [] h = refl
  due-later n ((score, a) ∷ l) h =
      ground (arith, due-later n l h.1, λ (lt : n < score). nothing_due n score l lt h.0)

module _ {B : Type 0} (json : Json Job B) where
  unfoldable pub kept : {A : Type 0} → Result A → List A → List A
  kept (ok a) l = a ∷ l
  kept (err e) l = l

  -- The jobs among the values.
  unfoldable pub decode : List B → List Job
  unfolding kept
  decode [] = []
  decode (b ∷ l) = let rest = decode l in kept (json.unmarshal b) rest

  unfoldable pub scored : ℕ → Result Job → Result (ℕ × Job)
  scored n (ok job) = ok (n, job)
  scored n (err e) = err e

  unfoldable pub decode_entries : List (ℕ × B) → List (ℕ × Job)
  unfolding kept scored
  decode_entries [] = []
  decode_entries ((score, b) ∷ l) =
      let rest = decode_entries l in kept (scored score (json.unmarshal b)) rest

  pub decode-append :
      (l : List B) (b : B) (job : Job)
      → json.unmarshal b ≡ ok job
      → decode (l ++ b ∷ []) ≡ decode l ++ job ∷ []
  unfolding decode kept
  decode-append [] b job e = rw e refl
  decode-append (c ∷ l) b job e = elim (Result-cases (json.unmarshal c)) [
    | inl (j, f) ↦ ground (arith, f, decode-append l b job e)
    | inr (x, f) ↦ ground (arith, f, decode-append l b job e)
  ]

  test : (ℕ × Job → Bool) → ℕ × Result Job → Bool
  test q (n, ok job) = q (n, job)
  test q (n, err e) = false

  tally-decode :
      (q : ℕ × Job → Bool) (l : List (ℕ × B))
      → tally q (decode_entries l) ≡ tally (λ e. test q (e.0, json.unmarshal e.1)) l
  unfolding decode_entries kept scored test
  tally-decode q [] = refl
  tally-decode q ((n, b) ∷ l) = elim (Result-cases (json.unmarshal b)) [
    | inl (j, f) ↦ ground (arith, f, tally-decode q l)
    | inr (x, f) ↦ ground (arith, f, tally-decode q l)
  ]

  pub decode-due :
      (n : ℕ) (l : List (ℕ × B))
      → (decode_entries (due n l) ≡ due n (decode_entries l))
        × (decode_entries (later n l) ≡ later n (decode_entries l))
        × (snds (decode_entries l) ≡ decode (snds l))
  unfolding decode_entries decode kept scored
  decode-due n [] = (refl, refl, refl)
  decode-due n ((score, b) ∷ l) = elim (Result-cases (json.unmarshal b)) [
    | inl (j, f) ↦ ground (arith, f, decode-due n l)
    | inr (x, f) ↦ ground (arith, f, decode-due n l)
  ]

  decode-All :
      (n : ℕ) (l : List (ℕ × B))
      → All (λ (e : ℕ × B). n ≤ e.0) l
      → All (λ (e : ℕ × Job). n ≤ e.0) (decode_entries l)
  unfolding decode_entries kept scored
  decode-All n [] h = tt
  decode-All n ((score, b) ∷ l) h = elim (Result-cases (json.unmarshal b)) [
    | inl (j, f) ↦ rw f (h.0, decode-All n l h.1)
    | inr (x, f) ↦ rw f (decode-All n l h.1)
  ]

  pub decode-IsOrdered : (l : List (ℕ × B)) → IsOrdered l → IsOrdered (decode_entries l)
  unfolding decode_entries kept scored
  decode-IsOrdered [] h = tt
  decode-IsOrdered ((score, b) ∷ l) h = elim (Result-cases (json.unmarshal b)) [
    | inl (j, f) ↦ rw f (decode-All score l h.0, decode-IsOrdered l h.1)
    | inr (x, f) ↦ rw f (decode-IsOrdered l h.1)
  ]

  pub Adds-decode :
      (n : ℕ) (b : B) (job : Job) (before after : List (ℕ × B))
      → json.unmarshal b ≡ ok job
      → Adds n b before after
      → Adds n job (decode_entries before) (decode_entries after)
  unfolding test
  Adds-decode n b job before after e (added h) = added λ q. ground (
    arith,
    e,
    tally-decode q before,
    tally-decode q after,
    h (λ e. test q (e.0, json.unmarshal e.1)),
  )
  Adds-decode n b job before after e (moved old h) = moved old λ q. ground (
    arith,
    e,
    tally-decode q before,
    tally-decode q after,
    h (λ e. test q (e.0, json.unmarshal e.1)),
  )

module _ {W B : Type 0} {redis : Commands W B} {json : Json Job B} {clock : W → Instant × W}
    {queue schedule : String} (laws : Serves redis json clock queue schedule) where
  -- The jobs of the list and of the sorted set.
  unfoldable pub queued_jobs : W → List Job
  queued_jobs w = decode json (laws.items w)

  unfoldable pub scheduled_jobs : W → List (ℕ × Job)
  scheduled_jobs w = decode_entries json (laws.members w)
