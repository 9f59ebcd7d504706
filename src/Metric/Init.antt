-- ===== src/Metric/Init.antt =====
-- `initBucket` of pkg/metric/window.go: the buckets of the turn that begins now, all empty.
use mathlib.Core.Path.{subst}
use native.Mathlib.Nat.{mod-lt, mul-div_cancel_left}
use native.Mathlib.Decide.{ℕ_discrete}
use polaris_go.Base.{
  ℕ, zero, suc, ◌+◌, ◌-◌, ◌*◌, ◌/◌, ◌%◌, ◌≤◌, ◌<◌, ◌≡◌, refl, ap, ◌∙◌, sym, List, length, get_or,
  set, replicate, length-set, get_or-set_self, get_or-set_ne, length-replicate, arith,
}
use polaris_go.Metric.{
  Bucket, no_bucket, SliceWindow, new_res_metric_array, get_metric, calc_bucket_index,
  calc_start_time, init_from, init_bucket,
}
use polaris_go.Metric.Laws.{IsValid, Query, share, shares, shares-set}
use polaris_go.Metric.Turn.{IsTurn, index-period, start-period, mod_ne}

-- The buckets that `initBucket` makes, after some of its rounds: those of the periods from `from`
-- up to `upto` are there.
record Made (s : SliceWindow) (from upto : ℕ) (bs : List Bucket) : Type 0 where
  size : length bs ≡ s.bucket_count
  there :
      (p : ℕ)
      → from ≤ p
      → p < upto
      → get_or bs (p % s.bucket_count) no_bucket ≡ record {
        start_time = s.bucket_interval_milli * p;
        metrics = new_res_metric_array s.metric_size;
      }

abbrev made_bucket : SliceWindow → ℕ → Bucket
made_bucket s p = record {
  start_time = s.bucket_interval_milli * p;
  metrics = new_res_metric_array s.metric_size;
}

-- One round.
round-Made :
    {s : SliceWindow} (v : IsValid s) (from p : ℕ) (bs : List Bucket)
    → p < from + s.bucket_count
    → from ≤ p
    → Made s from p bs
    → Made s from (suc p) (set bs (p % s.bucket_count) (made_bucket s p))
round-Made {s} v from p bs small h m = record {
  size = length-set bs (p % s.bucket_count) _ ∙ m.size;
  there = λ p' lo hi. elim (ℕ_discrete p' p) [
    | yes e ↦ rw e (
        get_or-set_self bs (p % s.bucket_count) (made_bucket s p) no_bucket
          (omega (arith, m.size, mod-lt p (v.count_pos))))
    | no ne ↦
        get_or-set_ne bs {i = p % s.bucket_count} {j = p' % s.bucket_count} (made_bucket s p)
          no_bucket (λ e. mod_ne s.bucket_count p' p (omega arith) (omega arith) (sym e))
        ∙ m.there p' lo (omega arith)
  ];
}

init_from-Made :
    {s : SliceWindow} (v : IsValid s) (from n p : ℕ) (bs : List Bucket)
    → p + n ≡ from + s.bucket_count
    → from ≤ p
    → Made s from p bs
    → Made s from (from + s.bucket_count) (init_from s n (s.bucket_interval_milli * p) bs)
unfolding init_from
init_from-Made {s} v from zero p bs e h m = subst (λ n. Made s from n bs) (omega arith) m
init_from-Made {s} v from (suc n) p bs e h m =
    let next : s.bucket_interval_milli * p + s.bucket_interval_milli
        ≡ s.bucket_interval_milli * suc p =
      omega arith in
    let place : calc_bucket_index s (s.bucket_interval_milli * p) ≡ p % s.bucket_count =
      index-period v (s.bucket_interval_milli * p)
      ∙ ap (λ (k : ℕ). k % s.bucket_count) (mul-div_cancel_left p (v.interval_pos)) in
    rw (next, place)
      (init_from-Made v from n (suc p) (set bs (p % s.bucket_count) (made_bucket s p)) (omega arith)
        (omega arith) (round-Made v from p bs (omega arith) h m))

no_metric : (size d : ℕ) → get_metric (new_res_metric_array size) d ≡ 0
unfolding get_metric new_res_metric_array
no_metric zero d = refl
no_metric (suc size) zero = refl
no_metric (suc size) (suc d) = no_metric size d

share-made :
    (s : SliceWindow) (q : Query) (start : ℕ)
    → share s q (record { start_time = start; metrics = new_res_metric_array s.metric_size }) ≡ 0
unfolding share
share-made s q start = ground (arith, no_metric s.metric_size q.dimension)

pub shares-replicate :
    (s : SliceWindow) (q : Query) (n : ℕ) → shares s q (replicate n no_bucket) ≡ 0
unfolding shares share get_metric
shares-replicate s q zero = refl
shares-replicate s q (suc n) = ground (arith, shares-replicate s q n)

pub shares-init_from :
    (s : SliceWindow) (q : Query) (n time : ℕ) (bs : List Bucket)
    → IsValid s
    → length bs ≡ s.bucket_count
    → shares s q bs ≡ 0
    → shares s q (init_from s n time bs) ≡ 0
unfolding init_from
shares-init_from s q zero time bs v len h = h
shares-init_from s q (suc n) time bs v len h =
    let i = calc_bucket_index s time in
    let b : Bucket = record { start_time = time; metrics = new_res_metric_array s.metric_size } in
    shares-init_from s q n (time + s.bucket_interval_milli) (set bs i b) v (length-set bs i b ∙ len)
      (omega (
        arith,
        shares-set s q bs i b (
            unfold calc_bucket_index in
            omega (
              arith,
              len,
              mod-lt ((time - s.window_start_time_milli) / s.bucket_interval_milli) (v.count_pos),
            )),
        share-made s q time,
        h,
      ))

pub init-IsTurn :
    {s : SliceWindow} (v : IsValid s) (now : ℕ)
    → IsTurn s (now / s.bucket_interval_milli) (init_bucket s now)
unfolding init_bucket
init-IsTurn {s} v now =
    let first = now / s.bucket_interval_milli in
    let none_yet : Made s first first (replicate s.bucket_count no_bucket) = record {
      size = length-replicate s.bucket_count no_bucket;
      there = λ p lo hi. absurd (omega arith);
    } in
    let m : Made s first (first + s.bucket_count)
        (init_from s s.bucket_count (calc_start_time s now) (replicate s.bucket_count no_bucket)) =
      rw (start-period v now)
        (init_from-Made v first s.bucket_count first _ refl (omega arith) none_yet) in
    record {
      size = m.size;
      starts = λ p lo hi. ap (λ b. b.start_time) (m.there p lo hi);
      dims = λ p lo hi.
          ap (λ b. length b.metrics) (m.there p lo hi)
          ∙ unfold new_res_metric_array in length-replicate s.metric_size 0;
    }
