-- ===== src/RateLimit/Leaky/Tests.antt =====
-- The theorems on the uniform rate limiter, at a bucket of ten requests a second.
use polaris_go.Base.{◌≤◌, false, [], ◌∷◌, All}
use polaris_go.RateLimit.Leaky.{LeakyBucket, grants, Spaced, grants_lem}

abbrev bucket : LeakyBucket
bucket = record {
  last_grant_time = 5000;
  effective_rate = 100;
  max_queuing_duration = 150;
  reject_all = false;
}

-- At 5040 a wait of 60, at 5060 one of 140, at 5065 none: the queue is full.
grants_lem_example :
    Spaced 100 5000 (grants bucket (5040 ∷ 5060 ∷ 5065 ∷ []))
    × All (λ g. g.1 ≤ 150) (grants bucket (5040 ∷ 5060 ∷ 5065 ∷ []))
grants_lem_example = grants_lem bucket (5040 ∷ 5060 ∷ 5065 ∷ [])
