-- ===== src/Metric/Many.antt =====
-- The queries of pkg/metric/bucket.go over several dimensions, and its test of a time.
use polaris_go.Base.{
  ℕ, ◌+◌, ◌%◌, ◌≡◌, refl, ◌∙◌, ap, none, some, List, [], ◌∷◌, map, ltb, ◌==◌, ◌&&◌, ◌||◌,
  if◌then◌else◌, Bool, true, false,
}
use polaris_go.Base.Int.{i64_mod}
use polaris_go.Metric.{
  IntervalType, Bucket, SliceWindow, get_metric, in_range, calc_bucket_metrics, sum_metrics,
  calc_metrics,
}

-- Where a time lies beside a range.
pub data Side : Type 0 where
  before inside after : Side

unfoldable pub is_time_in_bucket : ℕ → ℕ → ℕ → Side
is_time_in_bucket start end_time value =
    if ltb value start
    then before
    else if value == start || ltb start value && ltb value end_time
    then inside
    else after

-- The inner loop of `CalcMetricsInMultiDimensions`, over as many values as totals.
unfoldable pub add_values : List ℕ → List ℕ → List ℕ
add_values [] values = []
add_values (t ∷ totals) [] = t ∷ totals
add_values (t ∷ totals) (v ∷ values) = ((t + v) % i64_mod) ∷ add_values totals values

-- Its outer loop.
unfoldable pub sum_all : SliceWindow → List Bucket → List ℕ → ℕ → ℕ → IntervalType → List ℕ → List ℕ
sum_all s [] dimensions start end_time kind totals = totals
sum_all s (b ∷ bs) dimensions start end_time kind totals =
    sum_all s bs dimensions start end_time kind
      (elim (calc_bucket_metrics s b dimensions start end_time kind) [
        | [] ↦ totals
        | v ∷ values ↦ add_values totals (v ∷ values)
      ])

unfoldable pub calc_metrics_in_multi_dimensions :
    SliceWindow → List ℕ → ℕ → ℕ → IntervalType → List ℕ
calc_metrics_in_multi_dimensions s dimensions start end_time kind =
    let zeros = map (λ _. 0) dimensions in
    elim s.buckets [ none ↦ zeros | some bs ↦ sum_all s bs dimensions start end_time kind zeros ]

add_values-map :
    (f g : ℕ → ℕ) (dimensions : List ℕ)
    → add_values (map f dimensions) (map g dimensions) ≡ map (λ d. (f d + g d) % i64_mod) dimensions
unfolding add_values
add_values-map f g [] = refl
add_values-map f g (d ∷ ds) = ap (λ rest. ((f d + g d) % i64_mod) ∷ rest) (add_values-map f g ds)

-- The total of one dimension, and those of several, after the values of a bucket.
abbrev total_of : List ℕ → ℕ → ℕ
total_of values total = elim values [ [] ↦ total | v ∷ _ ↦ (total + v) % i64_mod ]

abbrev totals_of : List ℕ → List ℕ → List ℕ
totals_of values totals = elim values [ [] ↦ totals | v ∷ vs ↦ add_values totals (v ∷ vs) ]

totals_of-map :
    (covered : Bool) (f g : ℕ → ℕ) (dimensions : List ℕ)
    → totals_of (if covered then map g dimensions else []) (map f dimensions)
      ≡ map (λ d. total_of (if covered then g d ∷ [] else []) (f d)) dimensions
totals_of-map false f g ds = refl
totals_of-map true f g [] = refl
totals_of-map true f g (d ∷ ds) = add_values-map f g (d ∷ ds)

sum_all-map :
    (s : SliceWindow) (bs : List Bucket) (dimensions : List ℕ) (start end_time : ℕ)
    (kind : IntervalType) (f : ℕ → ℕ)
    → sum_all s bs dimensions start end_time kind (map f dimensions)
      ≡ map (λ d. sum_metrics s bs d start end_time kind (f d)) dimensions
unfolding sum_all sum_metrics calc_bucket_metrics
sum_all-map s [] ds start end_time kind f = refl
sum_all-map s (b ∷ bs) ds start end_time kind f =
    let covered = in_range s start end_time b.start_time kind in
    ap (sum_all s bs ds start end_time kind) (totals_of-map covered f (get_metric b.metrics) ds)
    ∙ sum_all-map s bs ds start end_time kind
        (λ d. total_of (if covered then get_metric b.metrics d ∷ [] else []) (f d))

-- The answers over several dimensions are those of CalcMetrics for each of them, in order.
multi-calc_metrics :
    (s : SliceWindow) (dimensions : List ℕ) (start end_time : ℕ) (kind : IntervalType)
    → calc_metrics_in_multi_dimensions s dimensions start end_time kind
      ≡ map (λ d. calc_metrics s d start end_time kind) dimensions
unfolding calc_metrics_in_multi_dimensions calc_metrics
multi-calc_metrics s ds start end_time kind =
    elim s.buckets
      as (λ o.
        (elim o as (λ _. List ℕ) [
          | none ↦ map (λ _. 0) ds
          | some bs ↦ sum_all s bs ds start end_time kind (map (λ _. 0) ds)
        ])
        ≡ map
            (λ d. elim o as (λ _. ℕ) [
              | none ↦ 0
              | some bs ↦ sum_metrics s bs d start end_time kind 0
            ])
            ds) [ none ↦ refl | some bs ↦ sum_all-map s bs ds start end_time kind (λ _. 0) ]
