-- ===== src/RateLimit/Sliding/Tests.antt =====
-- Runs of the sliding window, and its theorem at them.
use polaris_go.Base.{◌+◌, ◌%◌, ◌≡◌, refl, List, [], ◌∷◌, arith}
use polaris_go.Base.Int.{u32_mod}
use polaris_go.RateLimit.Sliding.{
  SlidingWindow, new_sliding_window, current_window, on_window, add_and_get_passed, swap_passed,
  swap_limited, add_and_get_current_passed, acquire_current_values, calculate_time_idx,
  calculate_window_start,
}
use polaris_go.RateLimit.Sliding.Laws.{IsValid, view}
use polaris_go.RateLimit.Sliding.Reports.{
  Count, passed, limited, count, count_all, total_passed, total_limited, acquire-count_all,
}

abbrev second : SlidingWindow
second = record {
  window_length_ms = 1000;
  interval_ms = 1000;
  slide_count = 1;
  window_array = record { window_start = 3000; passed_value = 5; limited_value = 1 } ∷ [];
}

second-IsValid : IsValid second
second-IsValid = omega arith

abbrev requests : List Count
requests = passed 3100 2 ∷ limited 3200 4 ∷ passed 3999 1 ∷ []

fresh_window : (new_sliding_window 1 1000).window_length_ms ≡ 1000
unfolding new_sliding_window
fresh_window = refl

-- The counts of the old period go when the new one begins.
new_period : (acquire_current_values (count_all second (passed 4500 2 ∷ [])) 4600).1 ≡ 2
unfolding count_all count add_and_get_current_passed acquire_current_values current_window on_window
    add_and_get_passed swap_passed swap_limited calculate_time_idx calculate_window_start
new_period = refl

acquire-count_all_example :
    let (s', passed_report, limited_report, _) =
      acquire_current_values (count_all second requests) 3500 in
    (passed_report % u32_mod ≡ ((view second 3500).passed_value + total_passed requests) % u32_mod)
    × (limited_report % u32_mod
        ≡ ((view second 3500).limited_value + total_limited requests) % u32_mod)
    × ((acquire_current_values s' 3500).1 ≡ 0)
    × ((acquire_current_values s' 3500).2 ≡ 0)
acquire-count_all_example = acquire-count_all 3500 requests second-IsValid (omega arith)
