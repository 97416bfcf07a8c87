-- ===== src/Limiter/Tests.antt =====
-- The token bucket at concrete inputs: five tokens, two a second.
use agent_cockpit.Base.{ℕ, ◌≡◌, refl, List, [], ◌∷◌}
use agent_cockpit.Limiter.{TokenBucket, create, try_take}
use agent_cockpit.Limiter.Rate.{takes}

abbrev calls : List ℕ
calls = 10 ∷ 10 ∷ 20 ∷ 20 ∷ 20 ∷ 20 ∷ 600 ∷ []

calls_run : (takes calls (create 5 2 10)).1 ≡ 6
unfolding takes try_take create
calls_run = refl

abbrev empty : TokenBucket
empty = record { capacity = 5; per_second = 2; tokens = 0; last = 100 }
