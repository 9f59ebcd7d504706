-- ===== src/Route/Nearby/Filter.antt =====
-- `GetFilteredInstances` and `GetLevel` of plugin/servicerouter/nearbybase/nearby.go, with the cluster
-- that a service keeps for the client's location (pkg/model/cluster.go).
use polaris_go.Base.{
  ℕ, Bool, true, false, not, ◌&&◌, ◌||◌, Option, none, some, [], ◌∷◌, ◌==◌, leb, if◌then◌else◌,
  length, get_or,
}
use polaris_go.Base.Int.{ℤ, pos, negsuc}
use polaris_go.Base.Text.{Str, str_eq}
use polaris_go.Balance.Cluster.{Location, Cluster}
use polaris_go.Balance.Cluster.Metadata.{new_cluster}
use polaris_go.Balance.Cluster.Values.{get_cluster_value}
use polaris_go.Balance.Cluster.Service.{same_location}
use polaris_go.Route.{
  RouteInfo, set_ignore_filter_only_on_end_chain, RouteStatus, normal, degrade_to_city,
  degrade_to_region, degrade_to_all, location_mismatch, Owned, Answer, failed, answer_cluster,
  Service, Router,
}
use polaris_go.Route.Nearby.{
  level_all, level_region, level_zone, level_campus, check_all_level_inst_counts,
  modify_out_cluster_level, zero_count, final_level, NearbyFilter,
}

abbrev pub to_int : Option ℕ → ℤ
to_int none = negsuc 0
to_int (some l) = pos l

abbrev is_level : ℤ → ℕ → Bool
is_level (pos l) level = l == level
is_level (negsuc n) level = false

unfoldable pub check_nearby_status : ℕ → ℤ → RouteStatus
check_nearby_status match_level final =
    if is_level final match_level
    then normal
    else if is_level final level_zone
    then degrade_to_city
    else if is_level final level_region
    then degrade_to_region
    else if is_level final level_all
    then degrade_to_all
    else normal

abbrev is_prefix : Str → Str → Bool
is_prefix [] s = true
is_prefix (c ∷ p) [] = false
is_prefix (c ∷ p) (d ∷ s) = c == d && is_prefix p s

-- `strings.Contains`
abbrev contains_text : Str → Str → Bool
contains_text [] p = is_prefix p []
contains_text (c ∷ s) p = is_prefix p (c ∷ s) || contains_text s p

-- "Polaris" and "polaris.metric"
abbrev pub server_namespace : Str
server_namespace = b'P' ∷ b'o' ∷ b'l' ∷ b'a' ∷ b'r' ∷ b'i' ∷ b's' ∷ []

abbrev pub metric_service : Str
metric_service =
    b'p' ∷ b'o' ∷ b'l' ∷ b'a' ∷ b'r' ∷ b'i' ∷ b's' ∷ b'.' ∷ b'm' ∷ b'e' ∷ b't' ∷ b'r' ∷ b'i' ∷ b'c'
    ∷ []

-- `nearbyLevels`: a name that it lacks reads as 0.
abbrev pub level_of : Str → ℕ
level_of name =
    if str_eq name (b'r' ∷ b'e' ∷ b'g' ∷ b'i' ∷ b'o' ∷ b'n' ∷ [])
    then level_region
    else if str_eq name (b'z' ∷ b'o' ∷ b'n' ∷ b'e' ∷ [])
    then level_zone
    else if str_eq name (b'c' ∷ b'a' ∷ b'm' ∷ b'p' ∷ b'u' ∷ b's' ∷ [])
    then level_campus
    else level_all

-- `specific` is the configuration of this service: its level names. The level of the plugin
-- is written, not the one that is returned.
unfoldable pub get_level : NearbyFilter → Service → Option (Str × Str) → NearbyFilter × ℕ × ℕ
get_level g s specific =
    if str_eq s.namespace server_namespace && not (contains_text s.service metric_service)
    then (g, level_region, level_all)
    else elim specific [
      | none ↦ (g, g.match_level, g.max_match_level)
      | some (match_name, max_name) ↦
          let nearest =
            if not (length match_name == 0) then level_of match_name else g.match_level in
          let farthest = level_of max_name in
          if not (length max_name == 0) && leb farthest nearest
          then (record g { max_match_level = farthest }, nearest, g.max_match_level)
          else (g, nearest, g.max_match_level)
    ]

-- `GetNearbyCluster`
unfoldable pub get_nearby_cluster : Service → Location → Option (Cluster × ℤ)
get_nearby_cluster s l = elim s.nearby_cluster [
  | none ↦ none
  | some k ↦ if same_location k.location l then some (k.cluster, k.match_level) else none
]

-- `SetNearbyCluster`: the cluster computes its value, which the kept one shares.
unfoldable pub set_nearby_cluster : Bool → Service → Location → Cluster → ℤ → Cluster × Service
set_nearby_cluster pooled s l c level =
    let (c', v) = get_cluster_value s.instances c in
    let kept = record (new_cluster pooled c') {
      value = some v;
      has_limited_instances = c.has_limited_instances;
      miss_location_instances = c.miss_location_instances;
    } in
    (
      c',
      record s {
        nearby_cluster = some (record { location = l; cluster = kept; match_level = level });
      },
    )

module _ (pooled : Bool) (is_tolerable : ℕ → ℕ → Bool) where
  -- What is done when no cluster is kept for the location: the cluster and its level.
  unfoldable pub find_nearby : NearbyFilter → Service → Location → Cluster → ℕ → ℕ → Cluster × ℤ
  unfolding final_level check_all_level_inst_counts
  find_nearby g s l within nearest farthest =
      let (c, counts) = check_all_level_inst_counts s.instances (new_cluster pooled within) l in
      if (get_or counts level_all zero_count).all_count == 0
      then (record c { miss_location_instances = true }, pos 0)
      else elim (final_level is_tolerable g counts nearest farthest) [
        | none ↦ (record c { miss_location_instances = true }, negsuc 0)
        | some level ↦ (modify_out_cluster_level c level, pos level)
      ]

  -- From the label `finally` on.
  abbrev finish :
      NearbyFilter
      → RouteInfo
      → Service
      → ℕ
      → Cluster × ℤ
      → NearbyFilter × RouteInfo × Service × Answer
  finish g r s nearest (c, final) =
      let r' = set_ignore_filter_only_on_end_chain r (not g.recover_all) in
      if c.miss_location_instances
      then (g, r', s, failed location_mismatch)
      else (g, r', s, answer_cluster (check_nearby_status nearest final) s c)

  -- The cluster that the search found is kept if the whole service was searched.
  unfoldable pub get_filtered_instances :
      Location
      → Option (Str × Str)
      → NearbyFilter
      → RouteInfo
      → Service
      → Owned
      → NearbyFilter × RouteInfo × Service × Answer
  unfolding find_nearby get_nearby_cluster set_nearby_cluster get_level
  get_filtered_instances l specific g r s (within, owner) =
      let (g', nearest, farthest) = get_level g s specific in
      let whole = length within.compose_meta_value == 0 in
      let (c, final) = find_nearby g' s l within nearest farthest in
      elim (if whole then get_nearby_cluster s l else none) [
        | some kept ↦ finish g' r s nearest kept
        | none ↦
            let (c', s') = if whole then set_nearby_cluster pooled s l c final else (c, s) in
            finish g' r s' nearest (c', final)
      ]

  unfoldable pub enable : Option Location → RouteInfo → Service → Bool
  enable none r s = false
  enable (some l) r s = s.enabled_nearby

  -- The plugin within one chain; what it writes into its own state is for later calls.
  abbrev pub nearby : ℕ → Location → Option (Str × Str) → NearbyFilter → Router
  nearby id l specific g = record {
    id = id;
    enable = enable (some l);
    get_filtered_instances =
        λ r s c. let (g', r', s', a) = get_filtered_instances l specific g r s c in (r', s', a);
  }
