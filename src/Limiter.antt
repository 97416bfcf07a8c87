-- ===== src/Limiter.antt =====
-- electron/main/callback/limiter.ts: the token bucket of the callback burst limit.
-- Times are whole milliseconds, and tokens are counted in thousandths, so that the refill of one
-- millisecond, `perSecond / 1000` tokens, is a whole number; the rounding of doubles is left out.
pub mod Rate
mod Tests
use agent_cockpit.Base.{ℕ, ◌+◌, ◌-◌, ◌*◌, min, Bool, true, false, List, [], ◌∷◌, ltb, if◌then◌else◌}

pub record TokenBucket : Type 0 where
  pub capacity : ℕ
  pub per_second : ℕ
  pub tokens : ℕ
  pub last : ℕ

-- The constructor; `now` is the clock's first reading.
unfoldable pub create : ℕ → ℕ → ℕ → TokenBucket
create capacity per_second now = record {
  capacity = capacity;
  per_second = per_second;
  tokens = capacity * 1000;
  last = now;
}

-- `Math.max(0, t - last)` is the subtraction of ℕ.
abbrev pub refilled : ℕ → TokenBucket → ℕ
refilled t b = min (b.capacity * 1000) (b.tokens + (t - b.last) * b.per_second)

unfoldable pub try_take : ℕ → TokenBucket → TokenBucket × Bool
try_take t b =
    if ltb (refilled t b) 1000
    then (record b { tokens = refilled t b; last = t }, false)
    else (record b { tokens = refilled t b - 1000; last = t }, true)
