-- ===== src/Metric/Log.antt =====
-- The sliced window of pkg/metric against the log of what was added.
use polaris_go.Base.{
  ℕ, ◌+◌, ◌/◌, ◌%◌, ◌≡◌, refl, Option, none, some, List, [], ◌∷◌, replicate, All, length-replicate,
  arith,
}
use polaris_go.Base.Int.{i64_mod}
use polaris_go.Metric.{
  IntervalType, include_start, include_end, include_both, in_range, Bucket, no_bucket, SliceWindow,
  calc_start_time, init_bucket, get_buckets,
}
use polaris_go.Metric.Laws.{IsValid, Query, calc, covers, share, shares, calc-shares}
use polaris_go.Metric.Turn.{
  Entry, add_all, log_sum, InTurn, IsTurn, after, add_entry-after, after-Added,
}
use polaris_go.Metric.Init.{init-IsTurn, shares-init_from, shares-replicate}

-- The queries do not look at the buckets to choose the periods that they cover.
covers-buckets :
    (s : SliceWindow) (x : Option (List Bucket)) (q : Query) (start : ℕ)
    → covers (record s { buckets = x }) q start ≡ covers s q start
unfolding in_range
covers-buckets s x q start = kinds q.kind
  where
    kinds :
        (k : IntervalType)
        → in_range (record s { buckets = x }) q.start q.end_time start k
          ≡ in_range s q.start q.end_time start k
    kinds include_start = refl
    kinds include_end = refl
    kinds include_both = refl

shares-buckets :
    (s : SliceWindow) (x : Option (List Bucket)) (q : Query) (bs : List Bucket)
    → shares (record s { buckets = x }) q bs ≡ shares s q bs
unfolding shares share
shares-buckets s x q [] = refl
shares-buckets s x q (b ∷ bs) = rw (covers-buckets s x q b.start_time, shares-buckets s x q bs)

log_sum-buckets :
    (s : SliceWindow) (x : Option (List Bucket)) (q : Query) (es : List Entry)
    → log_sum (record s { buckets = x }) q es ≡ log_sum s q es
unfolding log_sum calc_start_time
log_sum-buckets s x q [] = refl
log_sum-buckets s x q (e ∷ es) =
    rw (covers-buckets s x q (calc_start_time s e.time), log_sum-buckets s x q es)

add_all-sum :
    (now first : ℕ) (q : Query) (es : List Entry) (s : SliceWindow) (bs : List Bucket)
    → IsValid s
    → s.buckets ≡ some bs
    → IsTurn s first bs
    → All (InTurn s first) es
    → calc (add_all now s es) q % i64_mod ≡ (shares s q bs + log_sum s q es) % i64_mod
unfolding add_all log_sum
add_all-sum now first q [] s bs v made t h = omega (arith, calc-shares s q bs made)
add_all-sum now first q (e ∷ es) s bs v made t (h, hs) =
    let bs' = after s bs e in
    let s' = record s { buckets = some bs' } in
    let added = after-Added s q bs first e v t h in
    let step = add_entry-after now s bs first e v (unfold get_buckets in rw made) t h in
    let rest =
      add_all-sum now first q es s' bs'
        (record { interval_pos = v.interval_pos; count_pos = v.count_pos; origin = v.origin }) refl
        (record { size = added.turn.size; starts = added.turn.starts; dims = added.turn.dims })
        hs in
    rw step (
      omega (
        arith,
        rest,
        added.sum,
        shares-buckets s (some bs') q bs',
        log_sum-buckets s (some bs') q es,
      ))

-- A valid window that is first used at `now`, and then takes values at times within one turn of its
-- buckets: `CalcMetrics` answers, modulo 2^64, the sum of the values of its dimension that were
-- added in the buckets that the query covers. No value is lost or counted twice.
pub calc-add_all :
    (s : SliceWindow) (now : ℕ) (q : Query) (e : Entry) (es : List Entry)
    → IsValid s
    → s.buckets ≡ none
    → All (InTurn s (now / s.bucket_interval_milli)) (e ∷ es)
    → calc (add_all now s (e ∷ es)) q % i64_mod ≡ log_sum s q (e ∷ es) % i64_mod
unfolding add_all log_sum
calc-add_all s now q e es v fresh (h, hs) =
    let bs = init_bucket s now in
    let first = now / s.bucket_interval_milli in
    let t = init-IsTurn v now in
    let bs' = after s bs e in
    let s' = record s { buckets = some bs' } in
    let added = after-Added s q bs first e v t h in
    let step = add_entry-after now s bs first e v (unfold get_buckets in rw fresh) t h in
    let rest =
      add_all-sum now first q es s' bs'
        (record { interval_pos = v.interval_pos; count_pos = v.count_pos; origin = v.origin }) refl
        (record { size = added.turn.size; starts = added.turn.starts; dims = added.turn.dims })
        hs in
    let empty : shares s q bs ≡ 0 =
      unfold init_bucket in
      shares-init_from s q s.bucket_count (calc_start_time s now)
        (replicate s.bucket_count no_bucket) v (length-replicate s.bucket_count no_bucket)
        (shares-replicate s q s.bucket_count) in
    rw step (
      omega (
        arith,
        rest,
        added.sum,
        empty,
        shares-buckets s (some bs') q bs',
        log_sum-buckets s (some bs') q es,
      ))
