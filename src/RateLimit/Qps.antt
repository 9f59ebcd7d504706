-- ===== src/RateLimit/Qps.antt =====
-- `RemoteAwareQpsBucket` of plugin/ratelimiter/reject/bucket_qps.go: one request takes a token from
-- every bucket of the rule, or is limited and gives the tokens back. The identifiers of a request
-- are an array out of a `sync.Pool`, which may hold what earlier requests left in it: it is an
-- argument of `allocate`, as long as the buckets, and here each entry stands beside its bucket.
pub mod Local
pub mod Stage
pub mod Remote
pub mod Update
pub mod Init
pub mod Usage
mod Tests
use mathlib.Core.Option
use polaris_go.Base.{
  ℕ, zero, suc, ◌+◌, ◌-◌, ◌%◌, Bool, true, false, not, Option, none, some, List, [], ◌∷◌, map, ltb,
  ◌==◌, ◌||◌, if◌then◌else◌,
}
use polaris_go.Base.Int.{ℤ, is_neg}
use polaris_go.RateLimit.Sliding.{calculate_start_time_milli, acquire_current_values}
use polaris_go.RateLimit.Token.{
  Mode, unknown, remote, UpdateIdentifier, TokenBucket, RemoteQuotaResult, Alloc, BucketShareInfo,
  zero_identifier, new_token_bucket, get_rule_total, give_back_token, update_remote_client_count,
  update_remote_token,
}
use polaris_go.RateLimit.Token.Allocate.{try_allocate_token, confirm_passed, confirm_limited}

-- A bucket and the entry of the identifier array at its index.
pub record Slot : Type 0 where
  pub bucket : TokenBucket
  pub identifier : UpdateIdentifier

pub data QuotaResult : Type 0 where
  quota_result_ok quota_result_limited : QuotaResult

-- A new array has a zero identifier for each bucket.
unfoldable pub pool_get_identifier :
    Option (List UpdateIdentifier) → List TokenBucket → List UpdateIdentifier
pool_get_identifier (some ids) buckets = ids
pool_get_identifier none buckets = map (λ _. zero_identifier) buckets

abbrev pub token_per_alloc : ℕ
token_per_alloc = 1

-- The first loop of `Allocate`: the slots, the index at which it broke off, and the last mode.
unfoldable pub try_all : ℕ → Mode → List Slot → List Slot × Option ℕ × Mode
try_all now mode [] = ([], none, mode)
try_all now mode (s ∷ slots) =
    let a = try_allocate_token s.bucket token_per_alloc now s.identifier mode in
    let s' : Slot = record { bucket = a.bucket; identifier = a.identifier } in
    let rest = try_all now a.mode slots in
    elim (is_neg a.left) [
      | true ↦ (s' ∷ slots, some 0, a.mode)
      | false ↦ (s' ∷ rest.0, Option.map suc rest.1, rest.2)
    ]

abbrev pub on_bucket : (TokenBucket → TokenBucket) → Slot → Slot
on_bucket f s = record s { bucket = f s.bucket }

-- `ConfirmLimited` on the bucket at `stop`, if the quota was remote, and `GiveBackToken` on those
-- before it.
unfoldable pub settle_limited : ℕ → ℕ → Mode → Bool → ℕ → List Slot → List Slot
settle_limited token now mode used_remote stop [] = []
settle_limited token now mode used_remote zero (s ∷ slots) =
    (if used_remote then on_bucket (λ t. confirm_limited t token now) s else s) ∷ slots
settle_limited token now mode used_remote (suc stop) (s ∷ slots) =
    on_bucket (λ t. give_back_token t s.identifier token_per_alloc mode) s
    ∷ settle_limited token now mode used_remote stop slots

unfoldable pub settle_passed : ℕ → ℕ → Bool → List Slot → List Slot
settle_passed token now used_remote [] = []
settle_passed token now used_remote (s ∷ slots) =
    (if used_remote then on_bucket (λ t. confirm_passed t token now) s else s)
    ∷ settle_passed token now used_remote slots

abbrev pub is_remote : Mode → Bool
is_remote remote = true
is_remote _ = false

-- The rest of `Allocate`, after the first loop.
unfoldable pub settle : ℕ → ℕ → List Slot → Option ℕ → Mode → List Slot × QuotaResult
settle token now tried none mode = (settle_passed token now (is_remote mode) tried, quota_result_ok)
settle token now tried (some stop) mode =
    (settle_limited token now mode (is_remote mode) stop tried, quota_result_limited)

unfoldable pub allocate : List Slot → ℕ → ℕ → List Slot × QuotaResult
allocate [] now token = ([], quota_result_ok)
allocate (s ∷ slots) now token =
    let (tried, stop_index, mode) = try_all now unknown (s ∷ slots) in
    settle token now tried stop_index mode

-- `tokenBucketMap[duration]`, and a method call through it. `NewRemoteAwareQpsBucket` fills the map
-- in the order of the buckets, so the last bucket of a duration is the one that it holds.
unfoldable pub has_duration : ℕ → List TokenBucket → Bool
has_duration duration [] = false
has_duration duration (t ∷ ts) =
    if t.valid_duration_milli == duration then true else has_duration duration ts

unfoldable pub at_duration : ℕ → (TokenBucket → TokenBucket) → List TokenBucket → List TokenBucket
at_duration duration f [] = []
at_duration duration f (t ∷ ts) =
    let rest = at_duration duration f ts in
    if not (t.valid_duration_milli == duration) || has_duration duration ts
    then t ∷ rest
    else f t ∷ rest

-- What `SetRemoteQuota` does to the bucket of the quota's duration.
unfoldable pub apply_remote_quota : RemoteQuotaResult → TokenBucket → TokenBucket
apply_remote_quota q t =
    let cur_start = calculate_start_time_milli q.client_time_milli q.duration_mill in
    let remote_start = calculate_start_time_milli q.server_time_milli q.duration_mill in
    let counted = update_remote_client_count t q in
    let renewed = record q { server_time_milli = cur_start; left = get_rule_total counted } in
    if not (cur_start == remote_start)
    then (if remote_start + q.duration_mill == cur_start
        then update_remote_token counted renewed false
        else counted)
    else update_remote_token t q true

unfoldable pub set_remote_quota : List TokenBucket → RemoteQuotaResult → List TokenBucket
set_remote_quota ts q = at_duration q.duration_mill (apply_remote_quota q) ts
