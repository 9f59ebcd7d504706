-- ===== src/RateLimit/Sliding/Reports.antt =====
-- The usage reports of ratelimit_slice_window.go: requests are counted as they pass or are limited,
-- and `AcquireCurrentValues` hands the counts of the current period over, once.
use native.Mathlib.Nat.{div-add-mod}
use polaris_go.Base.{ℕ, ◌+◌, ◌*◌, ◌/◌, ◌%◌, ◌≡◌, refl, ap, ◌∙◌, List, [], ◌∷◌, arith, All}
use polaris_go.Base.Int.{u32_mod}
use polaris_go.RateLimit.Sliding.{
  Window, SlidingWindow, calculate_window_start, calculate_time_idx, add_and_get_current_passed,
  add_and_get_current_limited, acquire_current_values,
}
use polaris_go.RateLimit.Sliding.Laws.{
  IsValid, view, stored, stored-IsValid, view-stored, window_start-view, add_passed_lem,
  add_limited_lem, acquire_lem,
}

-- One request counted: its time, and its weight.
pub data Count : Type 0 where
  passed : ℕ → ℕ → Count
  limited : ℕ → ℕ → Count

unfoldable pub count : SlidingWindow → Count → SlidingWindow
count s (passed time value) = (add_and_get_current_passed s time value).0
count s (limited time value) = (add_and_get_current_limited s time value).0

unfoldable pub count_all : SlidingWindow → List Count → SlidingWindow
count_all s [] = s
count_all s (c ∷ cs) = count_all (count s c) cs

abbrev pub time_of : Count → ℕ
time_of (passed time value) = time
time_of (limited time value) = time

abbrev pub total_passed : List Count → ℕ
total_passed [] = 0
total_passed (passed time value ∷ cs) = value + total_passed cs
total_passed (limited time value ∷ cs) = total_passed cs

abbrev pub total_limited : List Count → ℕ
total_limited [] = 0
total_limited (passed time value ∷ cs) = total_limited cs
total_limited (limited time value ∷ cs) = value + total_limited cs

-- The count falls into the period of `time`.
abbrev pub InPeriod : ℕ → ℕ → Count → Type 0
InPeriod len time c = time_of c / len ≡ time / len

same_period :
    (s : SlidingWindow) (a b : ℕ)
    → a / s.window_length_ms ≡ b / s.window_length_ms
    → (calculate_time_idx s a ≡ calculate_time_idx s b)
      × (calculate_window_start s a ≡ calculate_window_start s b)
unfolding calculate_time_idx calculate_window_start
same_period s a b e = (
  rw e,
  omega (
    arith,
    div-add-mod a s.window_length_ms,
    div-add-mod b s.window_length_ms,
    ap (λ (q : ℕ). s.window_length_ms * q) e,
  ),
)

view-period :
    (s : SlidingWindow) (a b : ℕ)
    → a / s.window_length_ms ≡ b / s.window_length_ms
    → view s a ≡ view s b
unfolding view
view-period s a b e = rw ((same_period s a b e).0, (same_period s a b e).1)

stored-period :
    (s : SlidingWindow) (a b : ℕ) (w : Window)
    → a / s.window_length_ms ≡ b / s.window_length_ms
    → stored s a w ≡ stored s b w
unfolding stored
stored-period s a b w e = rw (same_period s a b e).0

-- What one count does to the window of its period.
abbrev bump : Count → Window → Window
bump (passed time value) w = record w { passed_value = (w.passed_value + value) % u32_mod }
bump (limited time value) w = record w { limited_value = (w.limited_value + value) % u32_mod }

count-stored :
    {s : SlidingWindow} (v : IsValid s) (time : ℕ) (c : Count)
    → InPeriod s.window_length_ms time c
    → count s c ≡ stored s time (bump c (view s time))
unfolding count
count-stored {s} v time (passed t value) p =
    ap (λ r. r.0) (add_passed_lem v t value)
    ∙ rw (view-period s t time p) (stored-period s t time _ p)
count-stored {s} v time (limited t value) p =
    ap (λ r. r.0) (add_limited_lem v t value)
    ∙ rw (view-period s t time p) (stored-period s t time _ p)

-- What remains true of the window of `time` while requests of its period are counted.
record Counted (s : SlidingWindow) (time : ℕ) (cs : List Count) (s' : SlidingWindow) : Type 0 where
  valid : IsValid s'
  len : s'.window_length_ms ≡ s.window_length_ms
  passed_sum :
      (view s' time).passed_value % u32_mod
      ≡ ((view s time).passed_value + total_passed cs) % u32_mod
  limited_sum :
      (view s' time).limited_value % u32_mod
      ≡ ((view s time).limited_value + total_limited cs) % u32_mod

length-stored :
    (s : SlidingWindow) (time : ℕ) (w : Window)
    → (stored s time w).window_length_ms ≡ s.window_length_ms
unfolding stored
length-stored s time w = refl

view-count :
    {s : SlidingWindow} (v : IsValid s) (time : ℕ) (c : Count)
    → InPeriod s.window_length_ms time c
    → IsValid (count s c)
      × ((count s c).window_length_ms ≡ s.window_length_ms)
      × (view (count s c) time ≡ bump c (view s time))
view-count {s} v time (passed t value) p = rw (count-stored v time (passed t value) p) (
  stored-IsValid v time _,
  length-stored s time _,
  view-stored v time _ (window_start-view s time),
)
view-count {s} v time (limited t value) p = rw (count-stored v time (limited t value) p) (
  stored-IsValid v time _,
  length-stored s time _,
  view-stored v time _ (window_start-view s time),
)

Counted-cons :
    (s : SlidingWindow) (time : ℕ) (c : Count) (cs : List Count) {s' : SlidingWindow}
    → view (count s c) time ≡ bump c (view s time)
    → (count s c).window_length_ms ≡ s.window_length_ms
    → Counted (count s c) time cs s'
    → Counted s time (c ∷ cs) s'
Counted-cons s time (passed t value) cs e len h = ground arith
Counted-cons s time (limited t value) cs e len h = ground arith

count_all-Counted :
    (s : SlidingWindow) (time : ℕ) (cs : List Count)
    → IsValid s
    → All (InPeriod s.window_length_ms time) cs
    → Counted s time cs (count_all s cs)
unfolding count_all
count_all-Counted s time [] v p = record {
  valid = v;
  len = refl;
  passed_sum = omega arith;
  limited_sum = omega arith;
}
count_all-Counted s time (c ∷ cs) v (p, ps) =
    let (v', len, e) = view-count v time c p in
    Counted-cons s time c cs e len (count_all-Counted (count s c) time cs v' (rw len ps))

-- What one acquisition hands over, and what it leaves.
acquire_twice :
    {s : SlidingWindow} (time : ℕ)
    → IsValid s
    → let (s', p, l, _) = acquire_current_values s time in
      (p ≡ (view s time).passed_value)
      × (l ≡ (view s time).limited_value)
      × ((acquire_current_values s' time).1 ≡ 0)
      × ((acquire_current_values s' time).2 ≡ 0)
acquire_twice {s} time v =
    let left = record (view s time) { passed_value = 0; limited_value = 0 } in
    let again = acquire_lem (stored-IsValid v time left) time in
    let clean = view-stored v time left (window_start-view s time) in
    rw (acquire_lem v time) (
      refl,
      refl,
      ap (λ r. r.1) again ∙ ap (λ w. w.passed_value) clean,
      ap (λ r. r.2) again ∙ ap (λ w. w.limited_value) clean,
    )

-- In a valid window, counting any requests of one period and then acquiring the values of that
-- period reports, modulo 2^32, what the window held plus the sums of the weights passed and
-- limited; a second acquisition in the same period reports nothing.
pub acquire-count_all :
    {s : SlidingWindow} (time : ℕ) (cs : List Count)
    → IsValid s
    → All (InPeriod s.window_length_ms time) cs
    → let (s', passed_report, limited_report, _) = acquire_current_values (count_all s cs) time in
      (passed_report % u32_mod ≡ ((view s time).passed_value + total_passed cs) % u32_mod)
      × (limited_report % u32_mod ≡ ((view s time).limited_value + total_limited cs) % u32_mod)
      × ((acquire_current_values s' time).1 ≡ 0)
      × ((acquire_current_values s' time).2 ≡ 0)
acquire-count_all {s} time cs v p =
    let c = count_all-Counted s time cs v p in
    (
      rw (acquire_twice time c.valid).0 c.passed_sum,
      rw (acquire_twice time c.valid).1 c.limited_sum,
      (acquire_twice time c.valid).2,
      (acquire_twice time c.valid).3,
    )
