-- ===== src/RateLimit/Token.antt =====
-- The token bucket of plugin/ratelimiter/reject/bucket_qps.go. Each method runs under the bucket's
-- mutex or in single atomic operations; a method returns the new bucket, the new identifier and its
-- results. Times are int64 milliseconds since the epoch, never negative: plain numbers, on which
-- the truncated `nowMilli - last` answers `> 1000` as the signed one does. The counts of tokens go
-- below zero: they are int64 values, whose sums wrap. A period of 0 divides by zero in Go.
pub mod Allocate
use polaris_go.Base.{
  ℕ, suc, ◌+◌, ◌-◌, ◌*◌, ◌/◌, ◌%◌, Bool, true, false, not, ◌||◌, ltb, ◌==◌, if◌then◌else◌,
}
use polaris_go.Base.Int.{ℤ, pos, negsuc, sub_ℕ, add64, sub64, of_bits64, i64_mod, u32_mod}
use polaris_go.RateLimit.Float.{ceil_div}
use polaris_go.RateLimit.Sliding.{
  SlidingWindow, new_sliding_window, touch_current_passed, add_and_get_current_passed,
  add_and_get_current_limited,
}

pub data Mode : Type 0 where
  unknown remote remote_to_local local : Mode

pub record BucketShareInfo : Type 0 where
  pub share_equal : Bool
  pub local_quota : Bool  -- the field `local`
  pub pass_on_remote_fail : Bool

pub record UpdateIdentifier : Type 0 where
  pub stage_start_milli : ℕ
  pub last_remote_client_update_milli : ℕ
  pub last_remote_update_milli : ℕ

-- The embedded `UpdateIdentifier` is the field `stamp`; `windowKey` only names the bucket in logs.
pub record TokenBucket : Type 0 where
  pub stamp : UpdateIdentifier
  pub valid_duration_milli : ℕ
  pub valid_duration_second : ℕ
  pub rule_token_amount : ℕ  -- uint32
  pub token_left : ℤ
  pub remote_to_local_token_left : ℤ
  pub instance_count : ℕ  -- uint32
  pub slice_window : SlidingWindow
  pub share_info : BucketShareInfo

-- `ratelimiter.RemoteQuotaResult`
pub record RemoteQuotaResult : Type 0 where
  pub left : ℤ
  pub client_count : ℕ
  pub client_time_milli : ℕ
  pub server_time_milli : ℕ
  pub duration_mill : ℕ

-- What an allocation returns beside the new bucket and identifier.
pub record Alloc : Type 0 where
  pub bucket : TokenBucket
  pub identifier : UpdateIdentifier
  pub left : ℤ
  pub mode : Mode

abbrev pub zero_identifier : UpdateIdentifier
zero_identifier = record {
  stage_start_milli = 0;
  last_remote_client_update_milli = 0;
  last_remote_update_milli = 0;
}

-- The duration is given in milliseconds, the result of `model.ToMilliSeconds`.
unfoldable pub new_token_bucket : ℕ → ℕ → BucketShareInfo → TokenBucket
new_token_bucket valid_duration token_amount share_info = record {
  stamp = zero_identifier;
  valid_duration_milli = valid_duration;
  valid_duration_second = (valid_duration / 1000) % u32_mod;
  rule_token_amount = token_amount;
  token_left = pos token_amount;
  remote_to_local_token_left = pos 0;
  instance_count = 1;
  slice_window = new_sliding_window 1 valid_duration;
  share_info = share_info;
}

-- The int64 product wraps.
unfoldable pub get_rule_total : TokenBucket → ℤ
get_rule_total t =
    if not t.share_info.share_equal || t.share_info.local_quota
    then pos t.rule_token_amount
    else of_bits64 ((t.rule_token_amount * t.instance_count) % i64_mod)

-- `0 - int64(token)`
abbrev pub minus : ℕ → ℤ
minus token = sub_ℕ 0 token

unfoldable pub give_back_token : TokenBucket → UpdateIdentifier → ℕ → Mode → TokenBucket
give_back_token t identifier token remote =
    if t.stamp.last_remote_update_milli == identifier.last_remote_update_milli
    then record t { token_left = add64 t.token_left (pos token) }
    else t
give_back_token t identifier token local =
    if t.stamp.stage_start_milli == identifier.stage_start_milli
    then record t { token_left = add64 t.token_left (pos token) }
    else t
give_back_token t identifier token remote_to_local =
    if t.stamp.stage_start_milli == identifier.stage_start_milli
    then record t { remote_to_local_token_left = add64 t.remote_to_local_token_left (pos token) }
    else t
give_back_token t identifier token unknown = t

-- `updateRemoteClientCount`, which `UpdateRemoteClientCount` calls under the lock.
unfoldable pub update_remote_client_count : TokenBucket → RemoteQuotaResult → TokenBucket
update_remote_client_count t q =
    if ltb t.stamp.last_remote_client_update_milli q.server_time_milli
    then record t {
      instance_count = if q.client_count == 0 then 1 else q.client_count;
      stamp = record (t.stamp) { last_remote_client_update_milli = q.server_time_milli };
    }
    else t

unfoldable pub update_remote_token : TokenBucket → RemoteQuotaResult → Bool → TokenBucket
update_remote_token t q update_client =
    let t₁ = if update_client then update_remote_client_count t q else t in
    let (window, used, _) = touch_current_passed t₁.slice_window q.server_time_milli in
    record t₁ {
      slice_window = window;
      token_left = sub64 q.left (pos used);
      stamp = record (t₁.stamp) { last_remote_update_milli = q.server_time_milli };
    }

abbrev pub remote_expire_milli : ℕ
remote_expire_milli = 1000

unfoldable pub remote_expired : TokenBucket → ℕ → Bool
remote_expired t now = ltb remote_expire_milli (now - t.stamp.last_remote_update_milli)

unfoldable pub calculate_stage_start : TokenBucket → ℕ → ℕ
calculate_stage_start t now = now - now % t.valid_duration_milli

unfoldable pub init_local_stage_on_local_config : TokenBucket → ℕ → TokenBucket
init_local_stage_on_local_config t now =
    let stage = calculate_stage_start t now in
    if t.stamp.stage_start_milli == stage
    then t
    else if not (remote_expired t now)
    then t
    else if t.stamp.stage_start_milli == stage
    then t
    else record t {
      token_left = pos t.rule_token_amount;
      stamp = record (t.stamp) { stage_start_milli = stage };
    }

unfoldable pub try_allocate_local : TokenBucket → ℕ → ℕ → UpdateIdentifier → Alloc
try_allocate_local t token now identifier =
    let t₁ = init_local_stage_on_local_config t now in
    let left = add64 t₁.token_left (minus token) in
    record {
      bucket = record t₁ { token_left = left };
      identifier = record identifier {
        stage_start_milli = t₁.stamp.stage_start_milli;
        last_remote_update_milli = t₁.stamp.last_remote_update_milli;
      };
      left = left;
      mode = local;
    }

unfoldable pub direct_allocate_remote_token : TokenBucket → ℕ → TokenBucket × ℤ
direct_allocate_remote_token t token =
    let left = add64 t.token_left (minus token) in (record t { token_left = left }, left)

-- The step that both fallback paths share: `AddInt64(&t.remoteToLocalTokenLeft, 0-int64(token))`.
unfoldable pub take_remote_to_local : TokenBucket → ℕ → TokenBucket × ℤ
take_remote_to_local t token =
    let left = add64 t.remote_to_local_token_left (minus token) in
    (record t { remote_to_local_token_left = left }, left)

abbrev pub at_least_one : ℤ → ℤ
at_least_one n = elim n [ pos k ↦ if k == 0 then pos 1 else pos k | negsuc k ↦ negsuc k ]

unfoldable pub create_remote_to_local_tokens :
    TokenBucket → ℕ → ℕ → UpdateIdentifier → ℕ → TokenBucket × UpdateIdentifier × ℤ
create_remote_to_local_tokens t now token identifier stage_start =
    let stage = calculate_stage_start t now in
    let fresh = record t {
      remote_to_local_token_left = at_least_one (ceil_div (get_rule_total t) t.instance_count);
      stamp = record (t.stamp) { stage_start_milli = stage };
    } in
    let (t₁, left₁) = take_remote_to_local t token in
    let (t₂, left₂) = take_remote_to_local fresh token in
    if stage_start == stage
    then (t₁, record identifier { stage_start_milli = stage_start }, left₁)
    else (t₂, record identifier { stage_start_milli = stage }, left₂)
