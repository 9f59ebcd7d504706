-- ===== src/RateLimit/Qps/Remote.antt =====
-- Requests against remote quotas (bucket_qps.go).
use native.Mathlib.Nat.{div-le_of_le-mul}
use polaris_go.Base.{
  ℕ, zero, suc, ◌+◌, ◌-◌, ◌*◌, ◌/◌, ◌<◌, ◌≤◌, ◌≡◌, ◌≢◌, refl, ◌∙◌, Bool, false, List, [], ◌∷◌, map,
  ◌==◌, if◌then◌else◌, All, ◌⊎◌, inl, inr, arith,
}
use polaris_go.Base.Int.{
  ℤ, pos, negsuc, pos_part, neg_part, ◌-ℤ◌, leb_ℤ, add64, i64_half, u32_mod, pred_ℤ, add64_pred,
  is_neg-pred, add64_succ-pred,
}
use polaris_go.RateLimit.Float.{float_high, ceil_div}
use polaris_go.RateLimit.Float.Exact.{ceil_bounds, ceil_pos, ceil_div-exact}
use polaris_go.RateLimit.Token.{
  Mode, unknown, remote, UpdateIdentifier, TokenBucket, Alloc, give_back_token, remote_expired,
  direct_allocate_remote_token, at_least_one, create_remote_to_local_tokens, take_remote_to_local,
  get_rule_total, calculate_stage_start,
}
use polaris_go.RateLimit.Token.Allocate.{
  confirm_passed, confirm_limited, try_allocate_token, try_allocate_remote,
  allocate_remote_read_only,
}
use polaris_go.RateLimit.Qps.{
  Slot, QuotaResult, quota_result_ok, quota_result_limited, try_all, settle_limited, settle_passed,
  settle, allocate,
}

-- A bucket whose remote quota is in force, and whose count is a machine integer.
pub record IsRemote (now : ℕ) (t : TokenBucket) : Type 0 where
  pub not_local : t.share_info.local_quota ≡ false
  pub in_force : remote_expired t now ≡ false
  pub high : pos_part t.token_left < i64_half
  pub low : neg_part t.token_left < i64_half

abbrev pub SlotIsRemote : ℕ → Slot → Type 0
SlotIsRemote now s = IsRemote now s.bucket

abbrev IsRemoteMode : Mode → Type 0
IsRemoteMode mode = (mode ≡ unknown) ⊎ (mode ≡ remote)

-- What an allocation from the remote quota does: it takes a token, and leaves the identifier.
taken : TokenBucket → UpdateIdentifier → Alloc
taken t identifier = record {
  bucket = record t { token_left = pred_ℤ t.token_left };
  identifier = identifier;
  left = pred_ℤ t.token_left;
  mode = remote;
}

try_remote :
    (now : ℕ) (t : TokenBucket) (identifier : UpdateIdentifier) (mode : Mode)
    → IsRemote now t
    → IsRemoteMode mode
    → try_allocate_token t 1 now identifier mode ≡ taken t identifier
unfolding try_allocate_token try_allocate_remote allocate_remote_read_only
    direct_allocate_remote_token taken
try_remote now t identifier mode h m = ground (arith, add64_pred t.token_left)

abbrev pub tokens : List Slot → List ℤ
tokens = map (λ s. s.bucket.token_left)

-- Whether the identifier holds the time of the bucket's last remote update.
unfoldable pub matches : Slot → Bool
matches s = s.bucket.stamp.last_remote_update_milli == s.identifier.last_remote_update_milli

-- A request against remote quotas as numbers of tokens. A limited request gives its token back
-- only to the buckets whose identifier matches: no allocation from a remote quota writes it.
unfoldable pub take_remote : List Slot → List ℤ × QuotaResult
take_remote [] = ([], quota_result_ok)
take_remote (s ∷ slots) =
    let l = s.bucket.token_left in
    let (rest, r) = take_remote slots in
    if leb_ℤ l (pos 0) then (pred_ℤ l ∷ tokens slots, quota_result_limited) else elim r [
      | quota_result_ok ↦ (pred_ℤ l ∷ rest, quota_result_ok)
      | quota_result_limited ↦ ((if matches s then l else pred_ℤ l) ∷ rest, quota_result_limited)
    ]

give_back-taken :
    (now : ℕ) (s : Slot)
    → IsRemote now s.bucket
    → (give_back_token (taken s.bucket s.identifier).bucket s.identifier 1 remote).token_left
      ≡ (if matches s then s.bucket.token_left else pred_ℤ s.bucket.token_left)
unfolding give_back_token taken matches
give_back-taken now s h = ground (arith, add64_succ-pred s.bucket.token_left)

try_all-mode :
    (now : ℕ) (mode : Mode) (slots : List Slot)
    → mode ≡ remote
    → All (SlotIsRemote now) slots
    → (try_all now mode slots).2 ≡ remote
unfolding try_all taken
try_all-mode now mode [] e h = e
try_all-mode now mode (s ∷ slots) e (h, hs) = ground (
  arith,
  try_remote now s.bucket s.identifier mode h (inr e),
  try_all-mode now remote slots refl hs,
)

settle-refines :
    (token now : ℕ) (mode : Mode) (slots : List Slot)
    → IsRemoteMode mode
    → All (SlotIsRemote now) slots
    → let (tried, stop, m) = try_all now mode slots in
      let (slots', r) = settle token now tried stop m in (tokens slots', r) ≡ take_remote slots
unfolding try_all settle settle_limited settle_passed take_remote taken confirm_passed
    confirm_limited
settle-refines token now mode [] m h = refl
settle-refines token now mode (s ∷ slots) m (h, hs) = ground (
  arith,
  try_remote now s.bucket s.identifier mode h m,
  give_back-taken now s h,
  is_neg-pred s.bucket.token_left,
  try_all-mode now remote slots refl hs,
  settle-refines token now remote slots (inr refl) hs,
)

-- `Allocate` over buckets whose remote quotas are in force refines `take_remote`: it grants exactly
-- if every bucket has a token, and then takes one of each. A limited request takes the token of the
-- first bucket that has none, and keeps, of the buckets before it, the tokens of those whose
-- identifier does not match the last remote update.
pub allocate_refines_remote :
    (slots : List Slot) (now token : ℕ)
    → All (SlotIsRemote now) slots
    → let (slots', r) = allocate slots now token in (tokens slots', r) ≡ take_remote slots
unfolding allocate
allocate_refines_remote [] now token h = unfold take_remote in refl
allocate_refines_remote (s ∷ slots) now token h =
    settle-refines token now unknown (s ∷ slots) (inl refl) h

-- Two buckets with remote quotas in force, the first with tokens and the second with none: a
-- request is limited, and still takes a token of the first bucket, if the pooled identifier of that
-- bucket does not hold the time of its last remote update.
pub limited_costs_token :
    (s₁ s₂ : Slot) (now token n : ℕ)
    → IsRemote now s₁.bucket
    → IsRemote now s₂.bucket
    → s₁.bucket.token_left ≡ pos (suc n)
    → s₂.bucket.token_left ≡ pos 0
    → s₁.bucket.stamp.last_remote_update_milli ≢ s₁.identifier.last_remote_update_milli
    → let (slots', r) = allocate (s₁ ∷ s₂ ∷ []) now token in
      (tokens slots' ≡ pos n ∷ negsuc 0 ∷ []) × (r ≡ quota_result_limited)
unfolding take_remote matches pred_ℤ ◌-ℤ◌
limited_costs_token s₁ s₂ now token n h₁ h₂ e₁ e₂ ne =
    ground (arith, allocate_refines_remote (s₁ ∷ s₂ ∷ []) now token (h₁, (h₂, tt)))

add64_pos : (k : ℕ) → 0 < k → k < i64_half → add64 (pos k) (negsuc 0) ≡ pos (k - 1)
unfolding pred_ℤ ◌-ℤ◌
add64_pos k h small = add64_pred (pos k) small (omega arith) ∙ ground arith

add-le-mul : (total count : ℕ) → 0 < total → total + count ≤ suc count * total
add-le-mul total zero h = omega arith
add-le-mul total (suc count) h = omega (arith, add-le-mul total count h)

ceil_le : (total count : ℕ) → 0 < total → 0 < count → (total + count - 1) / count ≤ total
ceil_le total count h k = div-le_of_le-mul count (
    let e : count ≡ suc (count - 1) = omega arith in
    rw e (omega (arith, add-le-mul total (count - 1) h)))

at_least_pos : (k : ℕ) → 0 < k → at_least_one (pos k) ≡ pos k
at_least_pos k h = ground arith

-- The first request of a new fallback stage.
create-fresh :
    (t : TokenBucket) (now : ℕ) (identifier : UpdateIdentifier) (stage_start q : ℕ)
    → at_least_one (ceil_div (get_rule_total t) t.instance_count) ≡ pos q
    → 0 < q
    → q < i64_half
    → stage_start ≢ calculate_stage_start t now
    → let (t', identifier', left) = create_remote_to_local_tokens t now 1 identifier stage_start in
      (left ≡ pos (q - 1))
      × (t'.remote_to_local_token_left ≡ pos (q - 1))
      × (t'.stamp.stage_start_milli ≡ calculate_stage_start t now)
      × (identifier'.stage_start_milli ≡ calculate_stage_start t now)
unfolding create_remote_to_local_tokens take_remote_to_local
create-fresh t now identifier stage_start q e h small ne = ground (arith, add64_pos q h small)

-- The fallback once the remote quota has expired, for a total of the rule from 1 to below 2^53 and
-- an instance count from 1 to below 2^32: the first request of a new stage leaves `k` tokens of the
-- instance's share `k + 1`. The shares of all instances cover the total, and exceed it by less than
-- one token for each instance.
pub fallback_share :
    (t : TokenBucket) (now : ℕ) (identifier : UpdateIdentifier) (stage_start total : ℕ)
    → get_rule_total t ≡ pos total
    → 0 < total
    → total < float_high
    → 0 < t.instance_count
    → t.instance_count < u32_mod
    → stage_start ≢ calculate_stage_start t now
    → let (t', identifier', left) = create_remote_to_local_tokens t now 1 identifier stage_start in
      (k : ℕ) × (left ≡ pos k)
      × (t'.remote_to_local_token_left ≡ pos k)
      × (t'.stamp.stage_start_milli ≡ calculate_stage_start t now)
      × (identifier'.stage_start_milli ≡ calculate_stage_start t now)
      × (total ≤ t.instance_count * (k + 1))
      × (t.instance_count * (k + 1) < total + t.instance_count)
fallback_share t now identifier stage_start total e pos_total small pos_count count ne =
    let q = (total + t.instance_count - 1) / t.instance_count in
    let q_pos = ceil_pos total t.instance_count pos_total pos_count in
    let bounds = ceil_bounds total t.instance_count pos_count in
    let q_le = ceil_le total t.instance_count pos_total pos_count in
    let back : q - 1 + 1 ≡ q = omega arith in
    let fresh =
      create-fresh t now identifier stage_start q
        (rw (e, ceil_div-exact total t.instance_count pos_total small pos_count count)
          (at_least_pos q q_pos))
        q_pos (omega arith) ne in
    (q - 1, fresh.0, fresh.1, fresh.2, fresh.3, rw back (bounds.0), rw back (bounds.1))
