-- ===== src/Jobs/Retry.antt =====
-- What becomes of a job that keeps failing.
use free_fire_room.Prelude.{ℕ, zero, suc, ◌+◌, ◌*◌, ◌≤◌, ◌<◌, ◌≡◌, String, arith}
use free_fire_room.Model.{JobStatus, second, ScheduledJob}
use free_fire_room.Scheduler.{claimed_job}
use free_fire_room.Jobs.{failed_job, pow2}

-- a worker takes the job, and it raises
abbrev pub failed_try : ℕ → String → String → ScheduledJob → ScheduledJob
failed_try now worker error j = failed_job now error (claimed_job now worker j)

-- `n` tries that all raise, at the moments `at n`, …, `at 1`
abbrev pub failed_tries : (ℕ → ℕ) → String → String → ℕ → ScheduledJob → ScheduledJob
failed_tries at worker error zero j = j
failed_tries at worker error (suc n) j =
    failed_tries at worker error n (failed_try (at (suc n)) worker error j)

-- the last try
last_try :
    (now : ℕ) (worker error : String) (j : ScheduledJob)
    → j.attempts + 1 ≡ j.max_attempts
    → ((failed_try now worker error j).status ≡ JobStatus.failed)
      × ((failed_try now worker error j).attempts ≡ j.max_attempts)
last_try now worker error j h = (ground arith, ground arith)

-- a try before the last
early_try :
    (now : ℕ) (worker error : String) (j : ScheduledJob)
    → j.attempts + 1 < j.max_attempts
    → ((failed_try now worker error j).attempts ≡ j.attempts + 1)
      × ((failed_try now worker error j).max_attempts ≡ j.max_attempts)
early_try now worker error j h = (ground arith, ground arith)

pow2-pos : (n : ℕ) → 0 < pow2 n
pow2-pos zero = omega arith
pow2-pos (suc n) = let rest = pow2-pos n in omega arith

-- A job that raises at each try is given up: it is failed after the try that uses up
-- `max_attempts`, and has counted exactly that many.
pub failed_tries_end :
    (at : ℕ → ℕ) (worker error : String) (n : ℕ) (j : ScheduledJob)
    → j.attempts + suc n ≡ j.max_attempts
    → ((failed_tries at worker error (suc n) j).status ≡ JobStatus.failed)
      × ((failed_tries at worker error (suc n) j).attempts ≡ j.max_attempts)
failed_tries_end at worker error zero j h = last_try (at 1) worker error j h
failed_tries_end at worker error (suc n) j h =
    let j' = failed_try (at (suc (suc n))) worker error j in
    let (tried, limit) = early_try (at (suc (suc n))) worker error j (omega arith) in
    let (status, attempts) = failed_tries_end at worker error n j' (omega arith) in
    (status, omega arith)

-- A job that raised with a try left is pending again, for a moment after now and at most five
-- minutes after.
pub failed_try_waits :
    (now : ℕ) (worker error : String) (j : ScheduledJob)
    → j.attempts + 1 < j.max_attempts
    → let j' = failed_try now worker error j in
      (j'.status ≡ JobStatus.pending) × (now < j'.run_at) × (j'.run_at ≤ now + 300 * second)
failed_try_waits now worker error j h =
    let p = pow2-pos (j.attempts + 1) in (ground arith, ground arith, ground arith)
