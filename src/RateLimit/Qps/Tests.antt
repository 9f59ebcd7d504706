-- ===== src/RateLimit/Qps/Tests.antt =====
-- The theorems on rejecting rate limits, at concrete buckets.
use polaris_go.Base.{
  ℕ, ◌+◌, ◌*◌, ◌≤◌, ◌<◌, ◌≡◌, ◌≢◌, ◌⊎◌, refl, Bool, true, false, List, [], ◌∷◌, min, arith,
}
use polaris_go.Base.Int.{ℤ, pos, pos_part}
use polaris_go.RateLimit.Sliding.{SlidingWindow, zero_window}
use polaris_go.RateLimit.Sliding.Laws.{IsValid}
use polaris_go.RateLimit.Float.{ceil_div, to_float, float_div, scale_down, scale_up, round_even}
use polaris_go.RateLimit.Token.{
  TokenBucket, RemoteQuotaResult, zero_identifier, remote_expired, calculate_stage_start,
  get_rule_total, create_remote_to_local_tokens, update_remote_client_count,
}
use polaris_go.RateLimit.Sliding.{calculate_start_time_milli}
use polaris_go.RateLimit.Qps.{Slot, allocate, apply_remote_quota}
use polaris_go.RateLimit.Qps.Local.{IsLocal, available, levels, take_all, allocate_refines}
use polaris_go.RateLimit.Qps.Stage.{granted, granted_lem}
use polaris_go.RateLimit.Qps.Remote.{
  IsRemote, tokens, take_remote, allocate_refines_remote, fallback_share,
}
use polaris_go.RateLimit.Qps.Update.{Took, Kept, apply_remote_quota_lem}
use polaris_go.RateLimit.Qps.Init.{Rule}

abbrev window : SlidingWindow
window = record {
  window_length_ms = 1000;
  interval_ms = 1000;
  slide_count = 1;
  window_array = zero_window ∷ [];
}

abbrev bucket : Bool → ℕ → ℤ → TokenBucket
bucket is_local updated left = record {
  stamp = record {
    stage_start_milli = 5000;
    last_remote_client_update_milli = 0;
    last_remote_update_milli = updated;
  };
  valid_duration_milli = 1000;
  valid_duration_second = 1;
  rule_token_amount = 10;
  token_left = left;
  remote_to_local_token_left = pos 0;
  instance_count = 3;
  slice_window = window;
  share_info = record { share_equal = false; local_quota = is_local; pass_on_remote_fail = false };
}

abbrev slot_of : TokenBucket → Slot
slot_of t = record { bucket = t; identifier = zero_identifier }

abbrev local_slots : List Slot
local_slots = slot_of (bucket true 0 (pos 3)) ∷ slot_of (bucket true 0 (pos 0)) ∷ []

bucket-IsLocal : (left : ℕ) → left < 100 → IsLocal 5500 (bucket true 0 (pos left))
unfolding remote_expired
bucket-IsLocal left h = record {
  local_quota = refl;
  expired = refl;
  amount = omega arith;
  high = omega arith;
  low = omega arith;
}

bucket-IsRemote : (left : ℕ) → left < 100 → IsRemote 5500 (bucket false 5200 (pos left))
unfolding remote_expired
bucket-IsRemote left h = record {
  not_local = refl;
  in_force = refl;
  high = omega arith;
  low = omega arith;
}

window-IsValid : IsValid window
window-IsValid = omega arith

allocate_refines_example :
    let (slots', r) = allocate local_slots 5500 1 in
    (levels 5500 slots', r) ≡ take_all (levels 5500 local_slots)
allocate_refines_example =
    allocate_refines local_slots 5500 1
      (bucket-IsLocal 3 (omega arith), (bucket-IsLocal 0 (omega arith), tt))

granted_lem_example :
    granted zero_identifier (bucket true 0 (pos 3)) (5500 ∷ 5600 ∷ 5700 ∷ 5800 ∷ [])
    ≡ min (pos_part (available 5500 (bucket true 0 (pos 3)))) 4
unfolding available calculate_stage_start remote_expired
granted_lem_example =
    granted_lem 5500 zero_identifier (5500 ∷ 5600 ∷ 5700 ∷ 5800 ∷ []) (bucket true 0 (pos 3))
      (bucket-IsLocal 3 (omega arith))
      ((refl, refl), ((refl, refl), ((refl, refl), ((refl, refl), tt)))) (omega arith)

abbrev remote_slots : List Slot
remote_slots = slot_of (bucket false 5200 (pos 3)) ∷ slot_of (bucket false 5200 (pos 0)) ∷ []

allocate_refines_remote_example :
    let (slots', r) = allocate remote_slots 5500 1 in (tokens slots', r) ≡ take_remote remote_slots
allocate_refines_remote_example =
    allocate_refines_remote remote_slots 5500 1
      (bucket-IsRemote 3 (omega arith), (bucket-IsRemote 0 (omega arith), tt))

-- Ten tokens over three instances: each falls back to four, and the first request leaves three.
fallback_share_example :
    let t = bucket false 0 (pos 0) in
    let (t', identifier', left) = create_remote_to_local_tokens t 7300 1 zero_identifier 5000 in
    (k : ℕ) × (left ≡ pos k)
    × (t'.remote_to_local_token_left ≡ pos k)
    × (t'.stamp.stage_start_milli ≡ calculate_stage_start t 7300)
    × (identifier'.stage_start_milli ≡ calculate_stage_start t 7300)
    × (10 ≤ 3 * (k + 1))
    × (3 * (k + 1) < 10 + 3)
unfolding get_rule_total calculate_stage_start
fallback_share_example =
    fallback_share (bucket false 0 (pos 0)) 7300 zero_identifier 5000 10 refl (omega arith)
      (omega arith) (omega arith) (omega arith) (omega arith)

abbrev answer : RemoteQuotaResult
answer = record {
  left = pos 7;
  client_count = 2;
  client_time_milli = 6100;
  server_time_milli = 5900;
  duration_mill = 1000;
}

apply_remote_quota_lem_example :
    let t = bucket false 5200 (pos 0) in
    let t' = apply_remote_quota answer t in
    let cur = calculate_start_time_milli 6100 1000 in
    let sent = calculate_start_time_milli 5900 1000 in
    ((cur ≡ sent) × Took t (pos 7) 5900 t')
    ⊎ ((cur ≢ sent)
        × (sent + 1000 ≡ cur)
        × Took t (get_rule_total (update_remote_client_count t answer)) cur t')
    ⊎ ((cur ≢ sent) × (sent + 1000 ≢ cur) × Kept t t')
apply_remote_quota_lem_example =
    apply_remote_quota_lem (bucket false 5200 (pos 0)) answer window-IsValid

abbrev rule : Rule
rule = record {
  share_equally = false;
  is_local = true;
  failover_pass = false;
  amounts =
      record { valid_duration = 1000; max_amount = 10 }
      ∷ record { valid_duration = 60000; max_amount = 100 }
      ∷ [];
}

-- From 2^53 on the rounding shows: for this total each instance takes one token more than its share.
rounded_share : ceil_div (pos (3049232685 * 205756230)) 205756230 ≡ pos 3049232686
unfolding ceil_div to_float float_div scale_down scale_up round_even
rounded_share = refl
