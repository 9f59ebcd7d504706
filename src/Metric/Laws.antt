-- ===== src/Metric/Laws.antt =====
-- What `CalcMetrics` of pkg/metric/bucket.go sums, and what one update changes of it.
use polaris_go.Base.{
  ℕ, zero, suc, ◌+◌, ◌%◌, ◌<◌, ◌≡◌, ap, ◌∙◌, Bool, Option, none, some, List, [], ◌∷◌, length,
  get_or, set, if◌then◌else◌, Bool-cases, inl, inr, arith,
}
use polaris_go.Base.Int.{i64_mod}
use polaris_go.Metric.{
  IntervalType, Bucket, no_bucket, SliceWindow, get_metric, in_range, calc_bucket_metrics,
  sum_metrics, calc_metrics,
}

-- A window whose buckets, once made, are as many as configured.
pub record IsValid (s : SliceWindow) : Type 0 where
  pub interval_pos : 0 < s.bucket_interval_milli
  pub count_pos : 0 < s.bucket_count
  pub origin : s.window_start_time_milli ≡ 0

-- A query: the dimension, and the range of times.
pub record Query : Type 0 where
  pub dimension : ℕ
  pub start : ℕ
  pub end_time : ℕ
  pub kind : IntervalType

abbrev pub calc : SliceWindow → Query → ℕ
calc s q = calc_metrics s q.dimension q.start q.end_time q.kind

-- Whether the query counts the buckets that start at a time.
abbrev pub covers : SliceWindow → Query → ℕ → Bool
covers s q bucket_start = in_range s q.start q.end_time bucket_start q.kind

-- What a bucket adds to the answer.
unfoldable pub share : SliceWindow → Query → Bucket → ℕ
share s q b = if covers s q b.start_time then get_metric b.metrics q.dimension else 0

unfoldable pub shares : SliceWindow → Query → List Bucket → ℕ
shares s q [] = 0
shares s q (b ∷ bs) = share s q b + shares s q bs

sum-shares :
    (s : SliceWindow) (q : Query) (bs : List Bucket) (total : ℕ)
    → sum_metrics s bs q.dimension q.start q.end_time q.kind total % i64_mod
      ≡ (total + shares s q bs) % i64_mod
unfolding sum_metrics calc_bucket_metrics shares share
sum-shares s q [] total = omega arith
sum-shares s q (b ∷ bs) total = elim (Bool-cases (covers s q b.start_time)) [
  | inl e ↦
      rw e (omega (arith, sum-shares s q bs ((total + get_metric b.metrics q.dimension) % i64_mod)))
  | inr e ↦ rw e (omega (arith, sum-shares s q bs total))
]

pub shares-set :
    (s : SliceWindow) (q : Query) (bs : List Bucket) (i : ℕ) (b : Bucket)
    → i < length bs
    → shares s q (set bs i b) + share s q (get_or bs i no_bucket) ≡ shares s q bs + share s q b
unfolding shares
shares-set s q [] i b h = elim h [ ]
shares-set s q (c ∷ bs) zero b h = omega arith
shares-set s q (c ∷ bs) (suc i) b h = omega (arith, shares-set s q bs i b (omega arith))

pub calc-shares :
    (s : SliceWindow) (q : Query) (bs : List Bucket)
    → s.buckets ≡ some bs
    → calc s q % i64_mod ≡ shares s q bs % i64_mod
unfolding calc_metrics
calc-shares s q bs e =
    ap
      (λ (x : Option (List Bucket)).
        elim x as (λ _. ℕ) [
          | none ↦ 0
          | some b ↦ sum_metrics s b q.dimension q.start q.end_time q.kind 0
        ]
        % i64_mod)
      e
    ∙ omega (arith, sum-shares s q bs 0)
