-- ===== src/RateLimit/Qps/Usage.antt =====
-- `GetQuotaUsed` of bucket_qps.go: what the buckets counted since they were last asked, by the
-- duration of each. The map of the buckets is walked in the order of the buckets here; Go leaves
-- the order open, and each duration is met once.
use polaris_go.Base.{ℕ, ◌≡◌, refl, false, List, [], ◌∷◌, if◌then◌else◌, map, All}
use polaris_go.RateLimit.Sliding.{acquire_current_values}
use polaris_go.RateLimit.Sliding.Laws.{IsValid, view, stored, acquire_lem}
use polaris_go.RateLimit.Token.{TokenBucket}
use polaris_go.RateLimit.Qps.{has_duration}

-- `ratelimiter.UsageInfo`, its two maps as lists of pairs.
pub record UsageInfo : Type 0 where
  pub passed : List (ℕ × ℕ)
  pub limited : List (ℕ × ℕ)
  pub cur_time_milli : ℕ

-- The bucket after `AcquireCurrentValues`, and the numbers that passed and were limited.
unfoldable pub acquire_used : TokenBucket → ℕ → TokenBucket × ℕ × ℕ
acquire_used t time =
    let (window, passed, limited, _) = acquire_current_values t.slice_window time in
    (record t { slice_window = window }, passed, limited)

-- The loop: a bucket is in the map if no later one has its duration.
unfoldable pub quota_used_from : List TokenBucket → ℕ → List TokenBucket × UsageInfo
quota_used_from [] time = ([], record { passed = []; limited = []; cur_time_milli = time })
quota_used_from (t ∷ ts) time =
    let (ts', usage) = quota_used_from ts time in
    let (t', passed, limited) = acquire_used t time in
    if has_duration t.valid_duration_milli ts then (t ∷ ts', usage) else (
      t' ∷ ts',
      record {
        passed = (t.valid_duration_milli, passed) ∷ usage.passed;
        limited = (t.valid_duration_milli, limited) ∷ usage.limited;
        cur_time_milli = time;
      },
    )

unfoldable pub get_quota_used : List TokenBucket → ℕ → List TokenBucket × UsageInfo
unfolding quota_used_from
get_quota_used ts time = quota_used_from ts time

-- No two buckets have one duration.
abbrev DistinctDurations : List TokenBucket → Type 0
DistinctDurations [] = Unit
DistinctDurations (t ∷ ts) = (has_duration t.valid_duration_milli ts ≡ false) × DistinctDurations ts

-- The bucket with nothing counted in the period of `time`.
abbrev cleared : ℕ → TokenBucket → TokenBucket
cleared time t = record t {
  slice_window =
      stored t.slice_window time
        (record (view t.slice_window time) { passed_value = 0; limited_value = 0 });
}

abbrev usage_of : List TokenBucket → ℕ → UsageInfo
usage_of ts time = record {
  passed = map (λ t. (t.valid_duration_milli, (view t.slice_window time).passed_value)) ts;
  limited = map (λ t. (t.valid_duration_milli, (view t.slice_window time).limited_value)) ts;
  cur_time_milli = time;
}

acquire_used_lem :
    (t : TokenBucket) (time : ℕ)
    → IsValid t.slice_window
    → acquire_used t time ≡ (
      cleared time t,
      (view t.slice_window time).passed_value,
      (view t.slice_window time).limited_value,
    )
unfolding acquire_used
acquire_used_lem t time v = rw (acquire_lem v time) refl

-- Buckets of different durations, whose windows are valid, report for each duration what was counted
-- in the period of the time asked for, and forget it.
get_quota_used_lem :
    (ts : List TokenBucket) (time : ℕ)
    → DistinctDurations ts
    → All (λ t. IsValid t.slice_window) ts
    → get_quota_used ts time ≡ (map (cleared time) ts, usage_of ts time)
unfolding get_quota_used quota_used_from
get_quota_used_lem [] time d vs = refl
get_quota_used_lem (t ∷ ts) time d vs =
    rw (d.0, get_quota_used_lem ts time d.1 vs.1, acquire_used_lem t time vs.0) refl
