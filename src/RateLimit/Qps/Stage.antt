-- ===== src/RateLimit/Qps/Stage.antt =====
-- A local bucket over a whole stage (bucket_qps.go): however many requests come, it grants no more
-- than the tokens that it offers.
use polaris_go.Base.{
  ℕ, suc, ap, sym, ◌∙◌, ◌+◌, ◌<◌, min, ◌≡◌, true, List, [], ◌∷◌, length, All, if◌then◌else◌, arith,
}
use polaris_go.Base.Int.{pos_part, neg_part, is_neg, i64_half, pred_ℤ, pred_parts, is_neg-pred_pos}
use polaris_go.RateLimit.Token.{
  UpdateIdentifier, TokenBucket, remote_expired, calculate_stage_start, try_allocate_local,
  init_local_stage_on_local_config,
}
use polaris_go.RateLimit.Qps.Local.{IsLocal, available, available-bounds, try_local-Took}

-- The requests granted, of those at the given times.
unfoldable pub granted : UpdateIdentifier → TokenBucket → List ℕ → ℕ
granted identifier t [] = 0
granted identifier t (time ∷ times) =
    let a = try_allocate_local t 1 time identifier in
    let rest = granted identifier a.bucket times in if is_neg a.left then rest else suc rest

-- A time of the stage of `now` at which no remote quota is in force.
abbrev pub InStage : ℕ → TokenBucket → ℕ → Type 0
InStage now t time =
    (calculate_stage_start t time ≡ calculate_stage_start t now) × (remote_expired t time ≡ true)

-- What an allocation leaves alone, and the tokens that it leaves.
record Stepped (now : ℕ) (t t' : TokenBucket) : Type 0 where
  duration : t'.valid_duration_milli ≡ t.valid_duration_milli
  updated : t'.stamp.last_remote_update_milli ≡ t.stamp.last_remote_update_milli
  amount : t'.rule_token_amount ≡ t.rule_token_amount
  local_quota : t'.share_info.local_quota ≡ t.share_info.local_quota
  tokens : t'.token_left ≡ pred_ℤ (available now t)
  level : available now t' ≡ pred_ℤ (available now t)

available-stage :
    (now time : ℕ) (t : TokenBucket)
    → calculate_stage_start t time ≡ calculate_stage_start t now
    → available time t ≡ available now t
unfolding available
available-stage now time t e = ground arith

stage_start-duration :
    (time now : ℕ) (t t' : TokenBucket)
    → t'.valid_duration_milli ≡ t.valid_duration_milli
    → calculate_stage_start t time ≡ calculate_stage_start t now
    → calculate_stage_start t' time ≡ calculate_stage_start t' now
unfolding calculate_stage_start
stage_start-duration time now t t' d e = rw (d) e

expired_same :
    (t t' : TokenBucket) (time : ℕ)
    → t'.stamp.last_remote_update_milli ≡ t.stamp.last_remote_update_milli
    → remote_expired t time ≡ true
    → remote_expired t' time ≡ true
unfolding remote_expired
expired_same t t' time u e = rw u e

module _ (now time : ℕ) (t : TokenBucket) (identifier : UpdateIdentifier) (h : IsLocal now t)
    (p : InStage now t time) where
  IsLocal-stage : IsLocal time t
  IsLocal-stage = record {
    local_quota = h.local_quota;
    expired = p.1;
    amount = h.amount;
    high = h.high;
    low = h.low;
  }

  left-stage : (try_allocate_local t 1 time identifier).left ≡ pred_ℤ (available now t)
  left-stage =
      rw (← available-stage now time t p.0) ((try_local-Took time t identifier IsLocal-stage).left)

  unchanged :
      let t' = (try_allocate_local t 1 time identifier).bucket in
      (t'.valid_duration_milli ≡ t.valid_duration_milli)
      × (t'.stamp.last_remote_update_milli ≡ t.stamp.last_remote_update_milli)
      × (t'.rule_token_amount ≡ t.rule_token_amount)
      × (t'.share_info.local_quota ≡ t.share_info.local_quota)
      × (t'.token_left ≡ (try_allocate_local t 1 time identifier).left)
  unfolding try_allocate_local init_local_stage_on_local_config
  unchanged = ground arith

  step-Stepped : Stepped now t (try_allocate_local t 1 time identifier).bucket
  step-Stepped =
      let t' = (try_allocate_local t 1 time identifier).bucket in
      let took = try_local-Took time t identifier IsLocal-stage in
      let (duration, updated, amount, local_quota, tokens) = unchanged in
      record {
        duration = duration;
        updated = updated;
        amount = amount;
        local_quota = local_quota;
        tokens = tokens ∙ left-stage;
        level =
            sym (available-stage now time t' (stage_start-duration time now t t' duration p.0))
            ∙ took.level
            ∙ ap pred_ℤ (available-stage now time t p.0);
      }

IsLocal-Stepped :
    (now : ℕ) (t t' : TokenBucket)
    → IsLocal now t
    → Stepped now t t'
    → neg_part (available now t) + 1 < i64_half
    → pos_part (available now t) < i64_half
    → IsLocal now t'
unfolding remote_expired
IsLocal-Stepped now t t' h st low high = ground (arith, pred_parts (available now t))

InStage-Stepped :
    (now : ℕ) (t t' : TokenBucket)
    → Stepped now t t'
    → (times : List ℕ) → All (InStage now t) times
    → All (InStage now t') times
InStage-Stepped now t t' st [] h = tt
InStage-Stepped now t t' st (time ∷ times) ((same, expired), hs) = (
  (
    stage_start-duration time now t t' (st.duration) same,
    expired_same t t' time st.updated expired,
  ),
  InStage-Stepped now t t' st times hs,
)

-- A local bucket that offers `n` tokens grants, over any requests of one stage, the smaller of `n`
-- and the number of requests: no request is limited while tokens are left, and none is granted
-- after. The bound on the number of requests keeps the int64 count of tokens from wrapping.
pub granted_lem :
    (now : ℕ) (identifier : UpdateIdentifier) (times : List ℕ) (t : TokenBucket)
    → IsLocal now t
    → All (InStage now t) times
    → neg_part (available now t) + length times < i64_half
    → granted identifier t times ≡ min (pos_part (available now t)) (length times)
unfolding granted
granted_lem now identifier [] t h p b = omega arith
granted_lem now identifier (time ∷ times) t h (p, ps) b =
    let t' = (try_allocate_local t 1 time identifier).bucket in
    let st = step-Stepped now time t identifier h p in
    let parts = pred_parts (available now t) in
    let (high, low) = available-bounds now t h in
    let rest =
      granted_lem now identifier times t' (IsLocal-Stepped now t t' h st (omega arith) high)
        (InStage-Stepped now t t' st times ps) (rw (st.level) (omega arith)) in
    ground (
      arith,
      left-stage now time t identifier h p,
      is_neg-pred_pos (available now t),
      rest,
      st.level,
      parts,
    )
