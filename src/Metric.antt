-- ===== src/Metric.antt =====
-- pkg/metric/bucket.go and window.go: the sliced window of statistics. Times are milliseconds since
-- the epoch, those of the last update and the last read nanoseconds, and never negative. A metric is
-- an int64 by its bit pattern, a number below 2^64, so that its sums wrap as Go's do. A method that
-- goes through `*Bucket` returns the window with that bucket replaced; the locks make each call one
-- step. A bucket interval of 0 divides by zero in Go, and an index out of range panics; `IsValid` of
-- `Metric.Laws` rules both out.
pub mod Laws
pub mod Turn
pub mod Init
pub mod Log
pub mod Many
mod Tests
use polaris_go.Base.{
  ℕ, zero, suc, ◌+◌, ◌-◌, ◌*◌, ◌/◌, ◌%◌, Bool, true, false, ◌&&◌, Option, none, some, List, [], ◌∷◌,
  ltb, leb, ◌==◌, if◌then◌else◌, get_or, set, replicate, map,
}
use polaris_go.Base.Int.{i64_mod}

-- `TimeRange.Type`
pub data IntervalType : Type 0 where
  include_start include_end include_both : IntervalType

pub record Bucket : Type 0 where
  pub start_time : ℕ
  pub metrics : List ℕ

abbrev pub no_bucket : Bucket
no_bucket = record { start_time = 0; metrics = [] }

-- The name and the locks of the window are left out.
pub record SliceWindow : Type 0 where
  pub bucket_interval_milli : ℕ
  pub bucket_count : ℕ
  pub metric_size : ℕ
  pub window_start_time_milli : ℕ
  pub last_update_time : ℕ
  pub last_read_time : ℕ
  pub period_start_time : ℕ
  pub buckets : Option (List Bucket)

-- `NewResMetricArray`
unfoldable pub new_res_metric_array : ℕ → List ℕ
new_res_metric_array size = replicate size 0

unfoldable pub get_metric : List ℕ → ℕ → ℕ
get_metric metrics dimension = get_or metrics dimension 0

-- `atomic.AddInt64(&r.metrics[dimension], value)`
unfoldable pub add_metric : List ℕ → ℕ → ℕ → List ℕ
unfolding get_metric
add_metric metrics dimension value =
    set metrics dimension ((get_metric metrics dimension + value) % i64_mod)

-- `NewSliceWindow`; the interval is given in milliseconds and the time in nanoseconds.
unfoldable pub new_slice_window : ℕ → ℕ → ℕ → ℕ → SliceWindow
new_slice_window count interval size now = record {
  bucket_interval_milli = interval;
  bucket_count = count;
  metric_size = size;
  window_start_time_milli = 0;
  last_update_time = now;
  last_read_time = now - 1;
  period_start_time = 0;
  buckets = none;
}

unfoldable pub calc_bucket_index : SliceWindow → ℕ → ℕ
calc_bucket_index s time =
    ((time - s.window_start_time_milli) / s.bucket_interval_milli) % s.bucket_count

unfoldable pub calc_start_time : SliceWindow → ℕ → ℕ
calc_start_time s time =
    let offset = time - s.window_start_time_milli in
    s.window_start_time_milli + (offset - offset % s.bucket_interval_milli)

-- The loop of `initBucket`, over the rounds left.
unfoldable pub init_from : SliceWindow → ℕ → ℕ → List Bucket → List Bucket
init_from s zero time buckets = buckets
init_from s (suc n) time buckets = init_from s n (time + s.bucket_interval_milli) (
    set buckets (calc_bucket_index s time)
      (record { start_time = time; metrics = new_res_metric_array s.metric_size }))

unfoldable pub init_bucket : SliceWindow → ℕ → List Bucket
unfolding init_from
init_bucket s now =
    init_from s s.bucket_count (calc_start_time s now) (replicate s.bucket_count no_bucket)

-- `getBucket` makes the buckets when it first runs, at the time `now` of the system clock.
unfoldable pub get_buckets : SliceWindow → ℕ → List Bucket
get_buckets s now = elim s.buckets [ some bs ↦ bs | none ↦ init_bucket s now ]

-- `lookupAndCreateBucketByMillTime`, then a write through the bucket that it returns.
unfoldable pub lookup_and_create : SliceWindow → ℕ → ℕ → (Bucket → Bucket) → SliceWindow
lookup_and_create s now time write =
    let idx = calc_bucket_index s time in
    let start = calc_start_time s time in
    let bs = get_buckets s now in
    let bucket = get_or bs idx no_bucket in
    let reset : Bucket = record {
      start_time = start;
      metrics = new_res_metric_array s.metric_size;
    } in
    record s {
      buckets = some (set bs idx (write (if bucket.start_time == start then bucket else reset)));
    }

-- `lookupBucketByMillTime`: the bucket of the time, if it still holds that period. Looking it up
-- makes the buckets too.
unfoldable pub lookup_bucket : SliceWindow → ℕ → ℕ → Option Bucket
lookup_bucket s now time =
    let bucket = get_or (get_buckets s now) (calc_bucket_index s time) no_bucket in
    if bucket.start_time == calc_start_time s time then some bucket else none

-- `AddHistoryMetricByMillTime`
unfoldable pub add_history_metric : SliceWindow → ℕ → ℕ → (Bucket → Bucket) → SliceWindow × Bool
add_history_metric s now time write =
    let bs = get_buckets s now in
    elim (lookup_bucket s now time) [
      | none ↦ (record s { buckets = some bs }, false)
      | some bucket ↦
          (record s { buckets = some (set bs (calc_bucket_index s time) (write bucket)) }, true)
    ]

abbrev pub on_metrics : (List ℕ → List ℕ) → Bucket → Bucket
on_metrics f b = record b { metrics = f b.metrics }

-- `AddGaugeByValueByMillTime`
unfoldable pub add_gauge_by_value : SliceWindow → ℕ → ℕ → ℕ → SliceWindow
add_gauge_by_value s now time value =
    lookup_and_create s now time (on_metrics (λ m. add_metric m 0 value))

unfoldable pub in_range : SliceWindow → ℕ → ℕ → ℕ → IntervalType → Bool
in_range s start end_time bucket_start include_start =
    let bucket_end = bucket_start + s.bucket_interval_milli in
    ltb start bucket_end && leb bucket_end end_time
in_range s start end_time bucket_start include_end =
    leb start bucket_start && ltb bucket_start end_time
in_range s start end_time bucket_start include_both =
    let bucket_end = bucket_start + s.bucket_interval_milli in
    ltb start bucket_end && ltb bucket_start end_time

-- `CalcBucketMetrics`: a value for each dimension, or nil.
unfoldable pub calc_bucket_metrics : SliceWindow → Bucket → List ℕ → ℕ → ℕ → IntervalType → List ℕ
calc_bucket_metrics s b dimensions start end_time kind =
    if in_range s start end_time b.start_time kind
    then map (get_metric b.metrics) dimensions
    else []

-- The loop of `CalcMetrics`.
unfoldable pub sum_metrics : SliceWindow → List Bucket → ℕ → ℕ → ℕ → IntervalType → ℕ → ℕ
sum_metrics s [] dimension start end_time kind total = total
sum_metrics s (b ∷ bs) dimension start end_time kind total =
    sum_metrics s bs dimension start end_time kind
      (elim (calc_bucket_metrics s b (dimension ∷ []) start end_time kind) [
        | [] ↦ total
        | v ∷ _ ↦ (total + v) % i64_mod
      ])

unfoldable pub calc_metrics : SliceWindow → ℕ → ℕ → ℕ → IntervalType → ℕ
calc_metrics s dimension start end_time kind = elim s.buckets [
  | none ↦ 0
  | some bs ↦ sum_metrics s bs dimension start end_time kind 0
]

-- Nanoseconds in a millisecond.
abbrev pub milli_divide : ℕ
milli_divide = 1000 * 1000

-- `GetCurrentMilliseconds`, of a time in nanoseconds.
unfoldable pub get_current_milliseconds : ℕ → ℕ
get_current_milliseconds time = time / milli_divide

-- `AddGaugeAdvance` at a time in nanoseconds; `now` is the clock of `initBucket`, in milliseconds.
unfoldable pub add_gauge : SliceWindow → ℕ → ℕ → (Bucket → Bucket) → SliceWindow
add_gauge s now time operation =
    lookup_and_create (record s { last_update_time = time }) now (get_current_milliseconds time)
      operation

-- `AddGaugeByValue`, likewise.
unfoldable pub add_gauge_by_value_at : SliceWindow → ℕ → ℕ → ℕ → SliceWindow
add_gauge_by_value_at s now time value =
    add_gauge_by_value (record s { last_update_time = time }) now (get_current_milliseconds time)
      value

-- `SetLastReadTime` at the clock's time in nanoseconds.
unfoldable pub set_last_read_time : SliceWindow → ℕ → SliceWindow
set_last_read_time s time = record s { last_read_time = time }

unfoldable pub is_metric_update : SliceWindow → Bool
is_metric_update s = ltb s.last_read_time s.last_update_time

unfoldable pub set_period_start : SliceWindow → ℕ → SliceWindow
set_period_start s now = record s { period_start_time = calc_start_time s now }
