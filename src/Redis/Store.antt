-- ===== src/Redis/Store.antt =====
-- client.go: what its job operations promise to the scheduler and the workers, as an interface.
use webtracker.Shared.{
  ◌≤◌, All, ◌+◌, tally, Bool, ℕ, ◌≡◌, Option, none, some, String, List, [], ◌∷◌, ◌++◌,
  if◌then◌else◌, leb,
}
use webtracker.Shared.Clock.{Instant, Duration}
use webtracker.Shared.Errors.{Result, Outcome, ok, err}
use webtracker.Resilience.RedisClient.{Job, Client}
use webtracker.Redis.{unix}

-- The entries with a score up to `n`, and the others.
abbrev pub due {ℓ} : {A : Type ℓ} → ℕ → List (ℕ × A) → List (ℕ × A)
due n [] = []
due n ((score, a) ∷ l) = let rest = due n l in if leb score n then (score, a) ∷ rest else rest

abbrev pub later {ℓ} : {A : Type ℓ} → ℕ → List (ℕ × A) → List (ℕ × A)
later n [] = []
later n ((score, a) ∷ l) = let rest = later n l in if leb score n then rest else (score, a) ∷ rest

abbrev pub snds {ℓ} : {A : Type ℓ} → List (ℕ × A) → List A
snds [] = []
snds ((score, a) ∷ l) = a ∷ snds l

-- A sorted set holds a member once: adding it again changes its score only. Two sets have the
-- same entries when every test passes equally often.
pub data Adds {ℓ} {A : Type ℓ} (score : ℕ) (a : A) (before after : List (ℕ × A)) : Type ℓ where
  added :
      ((q : ℕ × A → Bool) → tally q after ≡ tally q before + tally q ((score, a) ∷ []))
      → Adds score a before after
  moved :
      (old : ℕ)
      → ((q : ℕ × A → Bool)
          → tally q after + tally q ((old, a) ∷ []) ≡ tally q before + tally q ((score, a) ∷ []))
      → Adds score a before after

abbrev pub Schedules : ℕ → Job → List (ℕ × Job) → Outcome → List (ℕ × Job) → Type 0
Schedules score job before (ok _) after =
    (t : Instant) × Adds score (record job { created_at = t }) before after
Schedules score job before (err e) after = after ≡ before

abbrev pub Enqueues : Job → List Job → Outcome → List Job → Type 0
Enqueues job before (ok _) after =
    (t : Instant) × (after ≡ before ++ record job { created_at = t } ∷ [])
Enqueues job before (err e) after = after ≡ before

abbrev pub Dequeues : List Job → Result (Option Job) → List Job → Type 0
Dequeues before (ok none) after = (before ≡ []) × (after ≡ [])
Dequeues before (ok (some job)) after = before ≡ job ∷ after
Dequeues before (err e) after = after ≡ before

abbrev pub TakesDue : ℕ → List (ℕ × Job) → Result (List Job) → List (ℕ × Job) → Type 0
TakesDue n before (ok jobs) after = (jobs ≡ snds (due n before)) × (after ≡ later n before)
TakesDue n before (err e) after = after ≡ before

abbrev pub IsOrdered {ℓ} : {A : Type ℓ} → List (ℕ × A) → Type ℓ
IsOrdered [] = Unit
IsOrdered ((score, a) ∷ l) = All (λ e. score ≤ e.0) l × IsOrdered l

-- A queue and a schedule of jobs, as a state of the server shows them.
pub record IsJobStore {W B : Type 0} (c : Client W B) (queue schedule : String)
    (queued : W → List Job) (scheduled : W → List (ℕ × Job)) : Type 0 where
  pub ordered : (w : W) → IsOrdered (scheduled w)
  pub schedule_effect :
      (job : Job) (t : Instant) (w : W)
      → let (r, w') = c.schedule schedule job t w in
        Schedules (unix t) job (scheduled w) r (scheduled w') × (queued w' ≡ queued w)
  pub enqueue_effect :
      (job : Job) (w : W)
      → let (r, w') = c.enqueue queue job w in
        Enqueues job (queued w) r (queued w') × (scheduled w' ≡ scheduled w)
  pub dequeue_effect :
      (t : Duration) (w : W)
      → let (r, w') = c.dequeue queue t w in
        Dequeues (queued w) r (queued w') × (scheduled w' ≡ scheduled w)
  pub due_effect :
      (t : Instant) (w : W)
      → let (r, w') = c.get_due_jobs schedule t w in
        TakesDue (unix t) (scheduled w) r (scheduled w') × (queued w' ≡ queued w)
