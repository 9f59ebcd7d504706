-- ===== src/RateLimit/Sliding.antt =====
-- plugin/ratelimiter/common/ratelimit_slice_window.go: the sliding window that counts the passed
-- and the limited requests for the next report. Times are int64 milliseconds since the epoch, so
-- they are never negative and are plain numbers. A method that goes through `*Window` returns the
-- window array with that window replaced. A window length of 0 divides by zero in Go; `IsValid`
-- rules it out.
pub mod Laws
pub mod Reports
mod Tests
use polaris_go.Base.{
  ℕ, ◌+◌, ◌-◌, ◌/◌, ◌%◌, Bool, true, false, not, Option, none, some, List, ◌==◌, if◌then◌else◌,
  get_or, set, replicate,
}
use polaris_go.Base.Int.{u32_mod}

pub record Window : Type 0 where
  pub window_start : ℕ
  pub passed_value : ℕ  -- uint32
  pub limited_value : ℕ  -- uint32

abbrev pub zero_window : Window
zero_window = record { window_start = 0; passed_value = 0; limited_value = 0 }

pub record SlidingWindow : Type 0 where
  pub window_length_ms : ℕ
  pub interval_ms : ℕ
  pub slide_count : ℕ
  pub window_array : List Window

unfoldable pub new_sliding_window : ℕ → ℕ → SlidingWindow
new_sliding_window slides interval = record {
  window_length_ms = interval / slides;
  interval_ms = interval;
  slide_count = slides;
  window_array = replicate slides zero_window;
}

unfoldable pub calculate_start_time_milli : ℕ → ℕ → ℕ
calculate_start_time_milli time interval = time - time % interval

unfoldable pub calculate_window_start : SlidingWindow → ℕ → ℕ
unfolding calculate_start_time_milli
calculate_window_start s time = calculate_start_time_milli time s.window_length_ms

unfoldable pub calculate_time_idx : SlidingWindow → ℕ → ℕ
calculate_time_idx s time = (time / s.window_length_ms) % s.slide_count

-- `CompareAndSwapInt64(&w.WindowStart, old, start)`, and what it guards.
unfoldable pub reset : Window → ℕ → ℕ → Window × Option Window
reset w old start =
    if w.window_start == old
    then (
      record { window_start = start; passed_value = 0; limited_value = 0 },
      some (record {
        window_start = old;
        passed_value = w.passed_value;
        limited_value = w.limited_value;
      }),
    )
    else (w, none)

-- The window array after the call, the index of the window returned (`none` is nil), and the
-- expired window.
unfoldable pub current_window : SlidingWindow → ℕ → Bool → SlidingWindow × Option ℕ × Option Window
unfolding reset
current_window s time do_reset =
    let idx = calculate_time_idx s time in
    let start = calculate_window_start s time in
    let old = get_or s.window_array idx zero_window in
    let (w, expired) = reset old old.window_start start in
    if old.window_start == start
    then (s, some idx, none)
    else if not do_reset
    then (s, none, none)
    else (record s { window_array = set s.window_array idx w }, some idx, expired)

unfoldable pub add_and_get_passed : Window → ℕ → Window × ℕ
add_and_get_passed w value =
    let n = (w.passed_value + value) % u32_mod in (record w { passed_value = n }, n)

unfoldable pub add_and_get_limited : Window → ℕ → Window × ℕ
add_and_get_limited w value =
    let n = (w.limited_value + value) % u32_mod in (record w { limited_value = n }, n)

unfoldable pub swap_passed : Window → Window × ℕ
swap_passed w = (record w { passed_value = 0 }, w.passed_value)

unfoldable pub swap_limited : Window → Window × ℕ
swap_limited w = (record w { limited_value = 0 }, w.limited_value)

-- A method call on the window that `currentWindow` returned. Its callers below ask for a reset, so
-- the window is never nil.
unfoldable pub on_window :
    {A : Type 0} → SlidingWindow → Option ℕ → (Window → Window × A) → A → SlidingWindow × A
on_window s none f nil = (s, nil)
on_window s (some idx) f nil =
    let (w, a) = f (get_or s.window_array idx zero_window) in
    (record s { window_array = set s.window_array idx w }, a)

unfoldable pub add_and_get_current_passed :
    SlidingWindow → ℕ → ℕ → SlidingWindow × ℕ × Option Window
add_and_get_current_passed s time value =
    let (s', window, expired) = current_window s time true in
    let (s'', n) = on_window s' window (λ w. add_and_get_passed w value) 0 in (s'', n, expired)

unfoldable pub add_and_get_current_limited :
    SlidingWindow → ℕ → ℕ → SlidingWindow × ℕ × Option Window
add_and_get_current_limited s time value =
    let (s', window, expired) = current_window s time true in
    let (s'', n) = on_window s' window (λ w. add_and_get_limited w value) 0 in (s'', n, expired)

unfoldable pub acquire_current_values : SlidingWindow → ℕ → SlidingWindow × ℕ × ℕ × Option Window
acquire_current_values s time =
    let (s₁, window, expired) = current_window s time true in
    let (s₂, passed) = on_window s₁ window swap_passed 0 in
    let (s₃, limited) = on_window s₂ window swap_limited 0 in (s₃, passed, limited, expired)

unfoldable pub touch_current_passed : SlidingWindow → ℕ → SlidingWindow × ℕ × Option Window
touch_current_passed s time =
    let (s', window, expired) = current_window s time true in
    let (s'', n) = on_window s' window (λ w. add_and_get_passed w 0) 0 in (s'', n, expired)
