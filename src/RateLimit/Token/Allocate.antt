-- ===== src/RateLimit/Token/Allocate.antt =====
-- The allocation of tokens in plugin/ratelimiter/reject/bucket_qps.go: from the remote quota, from
-- the fallback quota once the remote one has expired, and from the local quota.
use polaris_go.Base.{ℕ, not, Option, none, some, ◌==◌, if◌then◌else◌}
use polaris_go.Base.Int.{ℤ, pos}
use polaris_go.RateLimit.Sliding.{add_and_get_current_passed, add_and_get_current_limited}
use polaris_go.RateLimit.Token.{
  Mode, unknown, remote, remote_to_local, local, UpdateIdentifier, TokenBucket, Alloc,
  remote_expired, calculate_stage_start, try_allocate_local, direct_allocate_remote_token,
  take_remote_to_local, create_remote_to_local_tokens,
}

-- The identifier of an allocation that reads the bucket's stamp under a known stage.
abbrev pub stamped : TokenBucket → UpdateIdentifier → ℕ → UpdateIdentifier
stamped t identifier stage_start = record identifier {
  stage_start_milli = stage_start;
  last_remote_update_milli = t.stamp.last_remote_update_milli;
}

-- `none` is the result `false`: the window has to be built anew.
unfoldable pub allocate_remote_read_only : TokenBucket → ℕ → ℕ → UpdateIdentifier → Option Alloc
allocate_remote_read_only t token now identifier =
    let (t₁, left₁) = direct_allocate_remote_token t token in
    let (t₂, left₂) = take_remote_to_local t token in
    let stage_start = t.stamp.stage_start_milli in
    if not (remote_expired t now)
    then some (record { bucket = t₁; identifier = identifier; left = left₁; mode = remote })
    else if t.share_info.pass_on_remote_fail
    then some (record { bucket = t; identifier = identifier; left = pos 0; mode = remote_to_local })
    else if stage_start == calculate_stage_start t now
    then some (record {
      bucket = t₂;
      identifier = stamped t identifier stage_start;
      left = left₂;
      mode = remote_to_local;
    })
    else none

unfoldable pub allocate_remote_to_local :
    TokenBucket → ℕ → ℕ → UpdateIdentifier → TokenBucket × UpdateIdentifier × ℤ
allocate_remote_to_local t token now identifier =
    let stage_start = t.stamp.stage_start_milli in
    let (t₁, left₁) = take_remote_to_local t token in
    if t.share_info.pass_on_remote_fail
    then (t, identifier, pos 0)
    else if stage_start == calculate_stage_start t now
    then (t₁, stamped t identifier stage_start, left₁)
    else create_remote_to_local_tokens t now token identifier stage_start

unfoldable pub try_allocate_remote : TokenBucket → ℕ → ℕ → UpdateIdentifier → Alloc
try_allocate_remote t token now identifier =
    let stage_start = t.stamp.stage_start_milli in
    let noted = record identifier { last_remote_update_milli = t.stamp.last_remote_update_milli } in
    let (t₁, left₁) = direct_allocate_remote_token t token in
    let (t₂, identifier₂, left₂) = create_remote_to_local_tokens t now token noted stage_start in
    elim (allocate_remote_read_only t token now identifier) [
      | some a ↦ a
      | none ↦
          if not (remote_expired t now)
          then record {
            bucket = t₁;
            identifier = stamped t identifier stage_start;
            left = left₁;
            mode = remote;
          }
          else record {
            bucket = t₂;
            identifier = identifier₂;
            left = left₂;
            mode = remote_to_local;
          }
    ]

unfoldable pub try_allocate_token : TokenBucket → ℕ → ℕ → UpdateIdentifier → Mode → Alloc
try_allocate_token t token now identifier local = try_allocate_local t token now identifier
try_allocate_token t token now identifier remote =
    let (t', left) = direct_allocate_remote_token t token in
    record { bucket = t'; identifier = identifier; left = left; mode = remote }
try_allocate_token t token now identifier remote_to_local =
    let (t', identifier', left) = allocate_remote_to_local t token now identifier in
    record { bucket = t'; identifier = identifier'; left = left; mode = remote_to_local }
try_allocate_token t token now identifier unknown =
    if t.share_info.local_quota
    then try_allocate_local t token now identifier
    else try_allocate_remote t token now identifier

unfoldable pub confirm_passed : TokenBucket → ℕ → ℕ → TokenBucket
confirm_passed t passed now = record t {
  slice_window = (add_and_get_current_passed t.slice_window now passed).0;
}

unfoldable pub confirm_limited : TokenBucket → ℕ → ℕ → TokenBucket
confirm_limited t limited now = record t {
  slice_window = (add_and_get_current_limited t.slice_window now limited).0;
}
