-- ===== src/Breaker/Trigger.antt =====
-- The trigger counters of plugin/circuitbreaker/composite/trigger: consecutive errors and the error
-- rate. `handler.CloseToOpen` and the delayed callback are results of a report, which the
-- resource's counters act on. Nothing in the source calls `resume`.
use polaris_go.Base.{ℕ, ◌+◌, ◌-◌, ◌*◌, ◌/◌, ◌%◌, Bool, true, false, not, ◌&&◌, ◌==◌, if◌then◌else◌}
use polaris_go.Base.Int.{ℤ, ltb_ℤ, of_bits32, of_bits64, u32_mod, i64_mod}
use polaris_go.Metric.{
  SliceWindow, Bucket, include_start, new_slice_window, add_metric, on_metrics, add_gauge,
  calc_metrics,
}

pub record ConsecutiveCounter : Type 0 where
  pub max_count : ℕ  -- int64 of the rule's uint32
  pub consecutive_errors : ℕ  -- an int32, by its bit pattern
  pub suspended : Bool

unfoldable pub new_consecutive_counter : ℕ → ConsecutiveCounter
new_consecutive_counter error_count = record {
  max_count = error_count;
  consecutive_errors = 0;
  suspended = false;
}

-- The new counter, and whether it calls `CloseToOpen`. Two int32 values are equal if their bit
-- patterns are.
unfoldable pub report_consecutive : ConsecutiveCounter → Bool → ConsecutiveCounter × Bool
report_consecutive c success =
    let current_sum = (c.consecutive_errors + 1) % u32_mod in
    if c.suspended
    then (c, false)
    else if not success
    then (if current_sum == c.max_count % u32_mod
        then (record c { suspended = true; consecutive_errors = 0 }, true)
        else (record c { consecutive_errors = current_sum }, false))
    else (record c { consecutive_errors = 0 }, false)

-- float64, for the ratio of errors.
pub record Float64 : Type 1 where
  pub Carrier : Type 0
  pub of_int : ℤ → Carrier
  pub div : Carrier → Carrier → Carrier
  pub mul : Carrier → Carrier → Carrier
  pub geb : Carrier → Carrier → Bool

pub record ErrRateCounter : Type 0 where
  pub slice_window : SliceWindow
  pub metric_window : ℕ  -- in milliseconds
  pub minimum_request : ℤ  -- int32
  pub error_percent : ℕ
  pub scheduled : Bool
  pub suspended : Bool

abbrev pub bucket_count : ℕ
bucket_count = 10

-- The dimensions of the window.
abbrev pub key_request_count : ℕ
key_request_count = 0

abbrev pub key_fail_count : ℕ
key_fail_count = 1

abbrev pub max_dimension : ℕ
max_dimension = 2

-- A rule's interval of seconds is a window of as many thousand milliseconds; ten buckets divide it
-- with no rest, so `getBucketInterval` rounds nothing.
unfoldable pub new_err_rate_counter : ℕ → ℕ → ℕ → ℕ → ErrRateCounter
new_err_rate_counter interval error_percent minimum_request now = record {
  slice_window = new_slice_window bucket_count (interval * 1000 / bucket_count) max_dimension now;
  metric_window = interval * 1000;
  minimum_request = of_bits32 (minimum_request % u32_mod);
  error_percent = error_percent;
  scheduled = false;
  suspended = false;
}

-- The gauge operation: a failure counts as one, every request as one.
unfoldable pub count_request : Bool → Bucket → Bucket
count_request success b =
    let counted = if not success then on_metrics (λ m. add_metric m key_fail_count 1) b else b in
    on_metrics (λ m. add_metric m key_request_count 1) counted

-- The new counter, and whether it hands its callback to `delayExecutor`. `now` is the time of the
-- system clock in milliseconds, and `time` that of the cached clock in nanoseconds.
unfoldable pub report_err_rate : ErrRateCounter → Bool → ℕ → ℕ → ErrRateCounter × Bool
report_err_rate c success now time =
    let counted = record c {
      slice_window = add_gauge c.slice_window now time (count_request success);
    } in
    if c.suspended
    then (c, false)
    else if not success && not c.scheduled
    then (record counted { scheduled = true }, true)
    else (counted, false)

-- A count of the window, as int64.
unfoldable pub window_count : ErrRateCounter → ℕ → ℕ → ℤ
window_count c dimension now =
    of_bits64
      (calc_metrics c.slice_window dimension (now - c.metric_window) now include_start % i64_mod)

-- The callback: the new counter, and whether it calls `CloseToOpen`. It holds no lock, and the
-- three queries read one state here.
unfoldable pub check_err_rate : Float64 → ErrRateCounter → ℕ → ErrRateCounter × Bool
check_err_rate F c now =
    let req_count = window_count c key_request_count now in
    let fail_count = window_count c key_fail_count now in
    let fail_ratio =
      F.mul (F.div (F.of_int fail_count) (F.of_int req_count)) (F.of_int (ℤ.pos 100)) in
    let idle = record c { scheduled = false } in
    if ltb_ℤ req_count c.minimum_request
    then (idle, false)
    else if F.geb fail_ratio (F.of_int (ℤ.pos c.error_percent))
    then (record idle { suspended = true }, true)
    else (idle, false)
