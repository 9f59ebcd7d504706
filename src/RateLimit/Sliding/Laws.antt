-- ===== src/RateLimit/Sliding/Laws.antt =====
-- What the sliding window reports: the counts of the current period, and of that period alone.
use polaris_go.Base.{
  ℕ, ◌+◌, ◌%◌, ◌<◌, ◌≡◌, ◌≢◌, inl, inr, Bool, true, Option, none, some, arith, ◌==◌, ==_iff,
  if◌then◌else◌, length, get_or, set, length-set, set-get_or, set-set, get_or-set_self,
  get_or-set_ne, Bool-cases,
}
use polaris_go.Base.Int.{u32_mod}
use polaris_go.RateLimit.Sliding.{
  on_window, add_and_get_passed, add_and_get_limited, swap_passed, swap_limited, Window,
  zero_window, SlidingWindow, calculate_window_start, calculate_time_idx, current_window,
  add_and_get_current_passed, add_and_get_current_limited, acquire_current_values,
}

pub record IsValid (s : SlidingWindow) : Type 0 where
  pub slides : 0 < s.slide_count
  pub array : length s.window_array ≡ s.slide_count

abbrev slot : SlidingWindow → ℕ → Window
slot s time = get_or s.window_array (calculate_time_idx s time) zero_window

-- Whether the slot of `time` holds the period of `time`.
abbrev is_current : SlidingWindow → ℕ → Bool
is_current s time = (slot s time).window_start == calculate_window_start s time

-- The window that stands for the period of `time`: the stored one, or an empty one if the slot
-- still holds another period.
unfoldable pub view : SlidingWindow → ℕ → Window
view s time = if is_current s time then slot s time else record {
  window_start = calculate_window_start s time;
  passed_value = 0;
  limited_value = 0;
}

-- The window that is handed over as expired.
pub expired : SlidingWindow → ℕ → Option Window
expired s time = if is_current s time then none else some (slot s time)

-- The state with `w` in the slot of `time`.
unfoldable pub stored : SlidingWindow → ℕ → Window → SlidingWindow
stored s time w = record s { window_array = set s.window_array (calculate_time_idx s time) w }

current_window_lem :
    (s : SlidingWindow) (time : ℕ)
    → current_window s time true
      ≡ (stored s time (view s time), some (calculate_time_idx s time), expired s time)
unfolding current_window stored view expired
current_window_lem s time = elim (Bool-cases (is_current s time)) [
  | inl e ↦ rw (e, set-get_or s.window_array (calculate_time_idx s time) zero_window)
  | inr e ↦ ground (arith, ==_iff (slot s time).window_start (slot s time).window_start)
]

module _ {s : SlidingWindow} (v : IsValid s) (time : ℕ) where
  idx_in : calculate_time_idx s time < length s.window_array
  unfolding calculate_time_idx
  idx_in = grind (arith, v.slides, v.array)

  pub stored-IsValid : (w : Window) → IsValid (stored s time w)
  unfolding stored
  stored-IsValid w = ground (arith, v, length-set s.window_array (calculate_time_idx s time) w)

pub view-stored :
    {s : SlidingWindow} (v : IsValid s) (time : ℕ) (w : Window)
    → w.window_start ≡ calculate_window_start s time
    → view (stored s time w) time ≡ w
unfolding view stored calculate_time_idx calculate_window_start
view-stored {s} v time w e = rw (
  get_or-set_self s.window_array (calculate_time_idx s time) w zero_window (idx_in v time),
  (==_iff _ _).1 e,
)

pub view-stored_ne :
    (s : SlidingWindow) (time other : ℕ) (w : Window)
    → calculate_time_idx s time ≢ calculate_time_idx s other
    → view (stored s time w) other ≡ view s other
unfolding view stored calculate_time_idx calculate_window_start
view-stored_ne s time other w ne = rw (get_or-set_ne s.window_array w zero_window ne)

stored-stored :
    (s : SlidingWindow) (time : ℕ) (w w' : Window)
    → stored (stored s time w) time w' ≡ stored s time w'
unfolding stored calculate_time_idx
stored-stored s time w w' = rw (set-set s.window_array (calculate_time_idx s time) w w')

pub window_start-view :
    (s : SlidingWindow) (time : ℕ) → (view s time).window_start ≡ calculate_window_start s time
unfolding view
window_start-view s time = ground arith

module _ {s : SlidingWindow} (v : IsValid s) (time : ℕ) where
  on_view :
      {A : Type 0} (f : Window → Window × A) (nil : A) (w : Window)
      → w.window_start ≡ calculate_window_start s time
      → on_window (stored s time w) (some (calculate_time_idx s time)) f nil
        ≡ (stored s time (f w).0, (f w).1)
  unfolding on_window stored calculate_time_idx
  on_view f nil w e = rw (
    get_or-set_self s.window_array (calculate_time_idx s time) w zero_window (idx_in v time),
    set-set s.window_array (calculate_time_idx s time) w (f w).0,
  )

  pub add_passed_lem :
      (value : ℕ)
      → let n = ((view s time).passed_value + value) % u32_mod in
        add_and_get_current_passed s time value
        ≡ (stored s time (record (view s time) { passed_value = n }), n, expired s time)
  unfolding add_and_get_current_passed add_and_get_passed
  add_passed_lem value = rw (
    current_window_lem s time,
    on_view (λ w. add_and_get_passed w value) 0 (view s time) (window_start-view s time),
  )

  pub add_limited_lem :
      (value : ℕ)
      → let n = ((view s time).limited_value + value) % u32_mod in
        add_and_get_current_limited s time value
        ≡ (stored s time (record (view s time) { limited_value = n }), n, expired s time)
  unfolding add_and_get_current_limited add_and_get_limited
  add_limited_lem value = rw (
    current_window_lem s time,
    on_view (λ w. add_and_get_limited w value) 0 (view s time) (window_start-view s time),
  )

  pub acquire_lem : acquire_current_values s time ≡ (
    stored s time (record (view s time) { passed_value = 0; limited_value = 0 }),
    (view s time).passed_value,
    (view s time).limited_value,
    expired s time,
  )
  unfolding acquire_current_values swap_passed swap_limited
  acquire_lem = rw (
    current_window_lem s time,
    on_view swap_passed 0 (view s time) (window_start-view s time),
    on_view swap_limited 0 (record (view s time) { passed_value = 0 }) (window_start-view s time),
  )
