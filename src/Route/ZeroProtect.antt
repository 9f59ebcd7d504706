-- ===== src/Route/ZeroProtect.antt =====
-- The router that keeps some instances when none is healthy: plugin/servicerouter/zeroprotect.
pub mod Stale
use polaris_go.Base.{
  ℕ, ◌+◌, ◌-◌, ◌*◌, Bool, true, false, not, ◌&&◌, Option, none, some, List, [], ◌∷◌, ◌==◌, ltb, leb,
  if◌then◌else◌, length, get_elem?,
}
use polaris_go.Base.Int.{ℤ, pos, negsuc, leb_ℤ, ltb_ℤ, sub64, wrap64, sub_ℕ, i64_half, i64_mod}
use polaris_go.Base.Text.{Str, str_eq}
use polaris_go.Balance.Cluster.{
  Instance, WeightedIndex, InstanceSet, Cluster, lookup, get_instances_set,
}
use polaris_go.Balance.Cluster.Metadata.{new_cluster, clear_cluster_value}
use polaris_go.Balance.Cluster.Values.{get_cluster_value}
use polaris_go.Route.{
  RouteInfo, set_ignore_filter_only_on_end_chain, normal, Owned, Answer, routed, Service, Router,
  count,
}

-- "internal-lastheartbeat"
abbrev pub last_heartbeat_key : Str
last_heartbeat_key =
    b'i' ∷ b'n' ∷ b't' ∷ b'e' ∷ b'r' ∷ b'n' ∷ b'a' ∷ b'l' ∷ b'-' ∷ b'l' ∷ b'a' ∷ b's' ∷ b't' ∷ b'h'
    ∷ b'e' ∷ b'a' ∷ b'r' ∷ b't' ∷ b'b' ∷ b'e' ∷ b'a' ∷ b't' ∷ []

-- `InstanceSet.GetRealInstances`
unfoldable pub get_real_instances : List WeightedIndex → List Instance → List Instance
get_real_instances [] xs = []
get_real_instances (w ∷ ws) xs =
    let rest = get_real_instances ws xs in
    elim (get_elem? xs w.index) [ none ↦ rest | some x ↦ x ∷ rest ]

-- 3 * t on int64.
abbrev pub triple : ℤ → ℤ
triple (pos n) = wrap64 (pos (3 * n))
triple (negsuc n) = wrap64 (negsuc (3 * n + 2))

-- `NeedZeroProtect`
unfoldable pub need_zero_protect : ℤ → ℤ → ℤ → Bool
need_zero_protect last_beat beat_time ttl = ltb_ℤ beat_time (sub64 last_beat (triple ttl))

-- The value that `strconv.ParseInt` answers beside its error, which the code drops: 0 for a text that
-- is no number, and the nearest int64 for one out of range. The digits are first read as a uint64.
abbrev digits_nearest : ℕ → Str → Option ℕ
digits_nearest acc [] = some acc
digits_nearest acc (c ∷ s) =
    let n = acc * 10 + (c - b'0') in
    let rest = digits_nearest n s in
    if not (leb b'0' c && leb c b'9')
    then none
    else if leb i64_mod n
    then some (i64_mod - 1)
    else rest

abbrev nearest_positive : Option ℕ → ℤ
nearest_positive none = pos 0
nearest_positive (some n) = if ltb n i64_half then pos n else pos (i64_half - 1)

abbrev nearest_negative : Option ℕ → ℤ
nearest_negative none = pos 0
nearest_negative (some n) = if ltb i64_half n then negsuc (i64_half - 1) else sub_ℕ 0 n

abbrev digits_or_none : Str → Option ℕ
digits_or_none [] = none
digits_or_none (c ∷ s) = digits_nearest 0 (c ∷ s)

unfoldable pub parse_nearest : Str → ℤ
parse_nearest [] = pos 0
parse_nearest (c ∷ s) =
    if c == b'-'
    then nearest_negative (digits_or_none s)
    else if c == b'+'
    then nearest_positive (digits_or_none s)
    else nearest_positive (digits_or_none (c ∷ s))

-- The time in an instance's metadata.
abbrev pub beat_time : Instance → Option ℤ
beat_time x = if length x.metadata == 0 then none else elim (lookup x.metadata last_heartbeat_key) [
  | none ↦ none
  | some text ↦ some (parse_nearest text)
]

-- A write into the map of the times by instance.
abbrev pub put_time : List (Str × ℤ) → Str → ℤ → List (Str × ℤ)
put_time [] id t = (id, t) ∷ []
put_time ((i, u) ∷ ts) id t = if str_eq i id then (id, t) ∷ ts else (i, u) ∷ put_time ts id t

abbrev pub time_of : List (Str × ℤ) → Str → Option ℤ
time_of [] id = none
time_of ((i, u) ∷ ts) id = if str_eq i id then some u else time_of ts id

-- The first loop of `doZeroProtect`: the latest time and all times.
unfoldable pub collect_times : List Instance → ℤ → List (Str × ℤ) → ℤ × List (Str × ℤ)
collect_times [] last ts = (last, ts)
collect_times (x ∷ xs) last ts = elim (beat_time x) [
  | none ↦ collect_times xs last ts
  | some t ↦ collect_times xs (if leb_ℤ last t then t else last) (put_time ts x.id t)
]

-- The second loop.
unfoldable pub protected : List Instance → ℤ → List (Str × ℤ) → List Instance
protected [] last ts = []
protected (x ∷ xs) last ts =
    let rest = protected xs last ts in
    elim (time_of ts x.id) [
      | none ↦ rest
      | some t ↦ if not (need_zero_protect last t x.ttl) then rest else x ∷ rest
    ]

abbrev pub is_minus_one : ℤ → Bool
is_minus_one (pos n) = false
is_minus_one (negsuc n) = n == 0

-- The instances of the cluster in, those of the new service out; none if the cluster is kept.
unfoldable pub protected_instances : List Instance → Option (List Instance)
protected_instances xs =
    let (last, ts) = collect_times xs (negsuc 0) [] in
    if is_minus_one last then none else some (protected xs last ts)

module _ (pooled : Bool) where
  unfoldable pub do_zero_protect : Owned → Cluster → Owned
  unfolding protected_instances get_real_instances
  do_zero_protect (cur, owner) within =
      let (cur', v) = get_cluster_value owner cur in
      elim (protected_instances (get_real_instances v.all_instances.weighted_indexes owner)) [
        | none ↦ (cur', owner)
        | some ys ↦ (new_cluster pooled within, ys)
      ]

  unfoldable pub protected_cluster : Service → Cluster → Owned
  unfolding do_zero_protect
  protected_cluster s within =
      let (out, v) = get_cluster_value s.instances (new_cluster pooled within) in
      let (c, owner) = do_zero_protect (out, s.instances) within in
      let (c', v') =
        get_cluster_value owner (record (clear_cluster_value c) { has_limited_instances = true }) in
      if count (get_instances_set v false false) == 0 then (c', owner) else (out, s.instances)

  unfoldable pub get_filtered_instances : RouteInfo → Service → Owned → RouteInfo × Service × Answer
  unfolding protected_cluster
  get_filtered_instances r s (within, owner) = (
    set_ignore_filter_only_on_end_chain r true,
    s,
    routed (record {
      redirect_dest_service = none;
      output_cluster = protected_cluster s within;
      status = normal;
    }),
  )

  abbrev pub zero_protect : ℕ → Router
  zero_protect id = record {
    id = id;
    enable = λ r s. true;
    get_filtered_instances = get_filtered_instances;
  }
