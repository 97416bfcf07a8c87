-- ===== src/Limiter/Rate.antt =====
-- The rates that the token bucket enforces, over every sequence of clock readings.
use agent_cockpit.Base.{ℕ, ◌+◌, ◌-◌, ◌*◌, ◌≤◌, ◌≡◌, true, List, [], ◌∷◌, length, arith}
use agent_cockpit.Base.{if◌then◌else◌}
use agent_cockpit.Limiter.{TokenBucket, create, try_take}

-- The calls of `tryTake` at the given times, and how many of them were granted.
unfoldable pub takes : List ℕ → TokenBucket → TokenBucket × ℕ
takes [] b = (b, 0)
takes (t ∷ ts) b =
    let (b', granted) = try_take t b in
    let (b'', more) = takes ts b' in (b'', (if granted then 1 else 0) + more)

-- The time by which the clock moved forward over the calls.
abbrev pub elapsed : ℕ → List ℕ → ℕ
elapsed last [] = 0
elapsed last (t ∷ ts) = (t - last) + elapsed t ts

pub try_take_budget :
    (t : ℕ) (b : TokenBucket)
    → (if (try_take t b).1 then 1 else 0) * 1000 + (try_take t b).0.tokens
      ≤ b.tokens + (t - b.last) * b.per_second
unfolding try_take
try_take_budget t b = ground arith

pub try_take_keeps :
    (t : ℕ) (b : TokenBucket)
    → ((try_take t b).0.last ≡ t)
      × ((try_take t b).0.per_second ≡ b.per_second)
      × ((try_take t b).0.capacity ≡ b.capacity)
unfolding try_take
try_take_keeps t b = ground arith

takes_budget :
    (ts : List ℕ) (b : TokenBucket)
    → (takes ts b).1 * 1000 + (takes ts b).0.tokens ≤ b.tokens + elapsed b.last ts * b.per_second
unfolding takes
takes_budget [] b = omega arith
takes_budget (t ∷ ts) b =
    let (same_last, same_rate, _) = try_take_keeps t b in
    let rest = takes_budget ts (try_take t b).0 in grind (arith, try_take_budget t b)

-- Over any sequence of calls, at whatever times, a new bucket grants at most its capacity and what
-- the time that passed refills.
pub takes_rate :
    (capacity per_second now : ℕ) (ts : List ℕ)
    → (takes ts (create capacity per_second now)).1 * 1000
      ≤ capacity * 1000 + elapsed now ts * per_second
unfolding create
takes_rate capacity per_second now ts =
    omega (arith, takes_budget ts (create capacity per_second now))

try_take_burst :
    (t n : ℕ) (b : TokenBucket)
    → (n + 1) * 1000 ≤ b.tokens
    → n + 1 ≤ b.capacity
    → ((try_take t b).1 ≡ true)
      × (n * 1000 ≤ (try_take t b).0.tokens)
      × ((try_take t b).0.capacity ≡ b.capacity)
unfolding try_take
try_take_burst t n b h k = ground arith

takes_burst_from :
    (ts : List ℕ) (b : TokenBucket)
    → length ts * 1000 ≤ b.tokens
    → length ts ≤ b.capacity
    → (takes ts b).1 ≡ length ts
unfolding takes
takes_burst_from [] b h k = omega arith
takes_burst_from (t ∷ ts) b h k =
    let (granted, enough, cap) = try_take_burst t (length ts) b (omega arith) (omega arith) in
    rw granted (omega (arith, takes_burst_from ts (try_take t b).0 enough (omega arith)))

-- A new bucket serves a burst of as many calls as its capacity, at whatever times.
pub takes_burst :
    (capacity per_second now : ℕ) (ts : List ℕ)
    → length ts ≤ capacity
    → (takes ts (create capacity per_second now)).1 ≡ length ts
unfolding create
takes_burst capacity per_second now ts h =
    takes_burst_from ts (create capacity per_second now) (omega arith) h

-- Whatever calls were made before, once the clock has moved on by the time that refills a token, a
-- call is granted.
pub try_take_refilled :
    (t : ℕ) (b : TokenBucket)
    → 1 ≤ b.capacity
    → 1000 ≤ (t - b.last) * b.per_second
    → (try_take t b).1 ≡ true
unfolding try_take
try_take_refilled t b cap h = ground arith
