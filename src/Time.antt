-- ===== src/Time.antt =====
-- Points in time as milliseconds since the epoch. The worker stores `toISOString` texts of one
-- format, which SQLite compares as text; for the years 0 to 9999 that order is the numeric one.
use dsx_control_plane.Base.{ℕ, ◌+◌, ◌*◌, ◌≤◌, arith, Option, none, some, min, max}

-- A text column with a date, by what `new Date(text).getTime()` makes of it.
pub data Stamp : Type 0 where
  at : ℕ → Stamp
  not_a_date : Stamp

-- `Number(env.NAME)`: an unset or empty variable, a finite value with its fraction cut off and
-- negative ones taken as 0 (below the clamps that follow), minus infinity, or NaN and infinity,
-- which no comparison that follows tells apart.
pub data EnvNumber : Type 0 where
  unset : EnvNumber
  finite : ℕ → EnvNumber
  minus_infinity : EnvNumber
  not_finite : EnvNumber

-- `leaseSeconds(env)`
unfoldable pub lease_seconds : EnvNumber → ℕ
lease_seconds unset = max 120 (min 1800 600)
lease_seconds (finite n) = max 120 (min 1800 n)
lease_seconds minus_infinity = 600
lease_seconds not_finite = 600

-- `new Date(Date.now() + leaseSeconds(env) * 1000)`
unfoldable pub lease_end : EnvNumber → ℕ → ℕ
unfolding lease_seconds
lease_end var now = now + lease_seconds var * 1000

-- Whatever the variable says, a lease ends between two and thirty minutes from now.
pub lease_end_bounds :
    (var : EnvNumber) (now : ℕ)
    → (now + 120000 ≤ lease_end var now) × (lease_end var now ≤ now + 1800000)
unfolding lease_end
lease_end_bounds unset now = omega arith
lease_end_bounds (finite n) now = omega arith
lease_end_bounds minus_infinity now = omega arith
lease_end_bounds not_finite now = omega arith

-- `Math.max(120, Number(env.NODE_OFFLINE_SECONDS || 300))`; `none` is NaN or infinity, which
-- no age exceeds. A fraction of a second of the variable is not kept.
unfoldable pub offline_seconds : EnvNumber → Option ℕ
offline_seconds unset = some (max 120 300)
offline_seconds (finite n) = some (max 120 n)
offline_seconds minus_infinity = some (max 120 0)
offline_seconds not_finite = none

-- `TRIAL_DURATION_DAYS` of trials.ts
abbrev pub trial_duration_days : ℕ
trial_duration_days = 3

-- `trialExpiryFrom` at a valid start.
unfoldable pub trial_expiry_from : ℕ → ℕ
trial_expiry_from started_at = started_at + trial_duration_days * 24 * 60 * 60 * 1000
