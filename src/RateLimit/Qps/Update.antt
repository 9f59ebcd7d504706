-- ===== src/RateLimit/Qps/Update.antt =====
-- `SetRemoteQuota` of bucket_qps.go: what the rate-limit server's answer does to a bucket.
use mathlib.Core.Path.{subst}
use native.Mathlib.Decide.{ℕ_discrete}
use polaris_go.Base.{
  sym, ℕ, ◌+◌, ◌%◌, ◌≡◌, ◌≢◌, ap, Bool, true, false, arith, ==_iff, test_false, ◌⊎◌, inl, inr,
}
use polaris_go.Base.Int.{ℤ, pos, sub64, u32_mod}
use polaris_go.RateLimit.Sliding.{
  SlidingWindow, calculate_start_time_milli, touch_current_passed, add_and_get_current_passed,
}
use polaris_go.RateLimit.Sliding.Laws.{IsValid, view, stored-IsValid, add_passed_lem}
use polaris_go.RateLimit.Token.{
  TokenBucket, RemoteQuotaResult, get_rule_total, update_remote_client_count, update_remote_token,
}
use polaris_go.RateLimit.Qps.{apply_remote_quota}

touch-view :
    {s : SlidingWindow} (v : IsValid s) (time : ℕ)
    → let (s', used, _) = touch_current_passed s time in
      (used ≡ ((view s time).passed_value + 0) % u32_mod) × IsValid s'
unfolding touch_current_passed add_and_get_current_passed
touch-view {s} v time =
    let whole = add_passed_lem v time 0 in
    (ap (λ r. r.1) whole, subst IsValid (sym (ap (λ r. r.0) whole)) (stored-IsValid v time _))

-- A bucket that took the tokens `total` at `time`: the requests already passed in that period, and
-- not yet reported, are subtracted.
pub record Took (t : TokenBucket) (total : ℤ) (time : ℕ) (t' : TokenBucket) : Type 0 where
  pub tokens :
      t'.token_left ≡ sub64 total (pos (((view t.slice_window time).passed_value + 0) % u32_mod))
  pub updated : t'.stamp.last_remote_update_milli ≡ time
  pub window : IsValid t'.slice_window

-- A bucket whose quota was left alone.
pub record Kept (t t' : TokenBucket) : Type 0 where
  pub tokens : t'.token_left ≡ t.token_left
  pub updated : t'.stamp.last_remote_update_milli ≡ t.stamp.last_remote_update_milli
  pub window : t'.slice_window ≡ t.slice_window

update-Took :
    (t : TokenBucket) (q : RemoteQuotaResult) (update_client : Bool)
    → IsValid t.slice_window
    → Took t q.left q.server_time_milli (update_remote_token t q update_client)
unfolding update_remote_token update_remote_client_count
update-Took t q update_client v = ground (arith, touch-view v q.server_time_milli)

counted-Kept : (t : TokenBucket) (q : RemoteQuotaResult) → Kept t (update_remote_client_count t q)
unfolding update_remote_client_count
counted-Kept t q = ground arith

Took-Kept :
    {t t₁ t' : TokenBucket} {total : ℤ} {time : ℕ}
    → Kept t t₁
    → Took t₁ total time t'
    → Took t total time t'
Took-Kept k h = record {
  tokens = rw (← k.window) (h.tokens);
  updated = h.updated;
  window = h.window;
}

abbrev period : RemoteQuotaResult → ℕ → ℕ
period q time = calculate_start_time_milli time q.duration_mill

-- What the server's answer does to a bucket with a valid window, by the period of the request's
-- time and that of the server's. In one period, the bucket takes the tokens left at the server. If
-- the server is one period behind, it takes the whole quota of the rule, for the instance count
-- that the answer brings. Both times the requests already counted in the window are subtracted, and
-- the answer's time is noted. Otherwise tokens, window and time stay as they are.
pub apply_remote_quota_lem :
    (t : TokenBucket) (q : RemoteQuotaResult)
    → IsValid t.slice_window
    → let t' = apply_remote_quota q t in
      let cur = period q q.client_time_milli in
      let sent = period q q.server_time_milli in
      ((cur ≡ sent) × Took t q.left q.server_time_milli t')
      ⊎ ((cur ≢ sent)
          × (sent + q.duration_mill ≡ cur)
          × Took t (get_rule_total (update_remote_client_count t q)) cur t')
      ⊎ ((cur ≢ sent) × (sent + q.duration_mill ≢ cur) × Kept t t')
unfolding apply_remote_quota
apply_remote_quota_lem t q v = elim (ℕ_discrete cur sent) [
  | yes e ↦ inl (e, rw ((==_iff cur sent).1 e) (update-Took t q true v))
  | no ne ↦ inr (elim (ℕ_discrete (sent + q.duration_mill) cur) [
    | yes e ↦ inl (
      ne,
      e,
      rw (test_false cur sent ne, (==_iff (sent + q.duration_mill) cur).1 e)
          (Took-Kept kept (update-Took counted _ false (rw (kept.window) v))),
    )
    | no far ↦
        inr (ne, far, rw (test_false cur sent ne, test_false (sent + q.duration_mill) cur far) kept)
  ])
]
  where
    cur : ℕ
    cur = period q q.client_time_milli

    sent : ℕ
    sent = period q q.server_time_milli

    counted : TokenBucket
    counted = update_remote_client_count t q

    kept : Kept t counted
    kept = counted-Kept t q
