-- ===== src/Route/Nearby.antt =====
-- The levels of the router that keeps the instances near the client, their counts and the search for
-- one: plugin/servicerouter/nearbybase/nearby.go.
pub mod Levels
pub mod Nested
pub mod Filter
use polaris_go.Base.{
  ℕ, zero, suc, ◌-◌, Bool, true, false, not, ◌&&◌, ◌||◌, Option, none, some, List, [], ◌∷◌, ◌==◌,
  ltb, leb, if◌then◌else◌, length, get_or,
}
use polaris_go.Base.Int.{ℤ, pos, negsuc}
use polaris_go.Base.Text.{Str, str_eq}
use polaris_go.Balance.Cluster.{
  Location, Instance, Cluster, ClusterValue, get_instances_set,
  get_instances_set_when_skip_route_filter,
}
use polaris_go.Balance.Cluster.Metadata.{new_cluster, clear_cluster_value}
use polaris_go.Balance.Cluster.Values.{get_cluster_value}
use polaris_go.Balance.Cluster.Service.{same_location}
use polaris_go.Route.{
  RouteInfo, set_ignore_filter_only_on_end_chain, RouteStatus, normal, degrade_to_city,
  degrade_to_region, degrade_to_all, location_mismatch, Owned, Answer, failed, answer_cluster,
  ClientLocationCluster, Service, Router, count,
}

-- The levels: 0 for all, 1 for a region, 2 for a zone, 3 for a campus.
abbrev pub level_all : ℕ
level_all = 0

abbrev pub level_region : ℕ
level_region = 1

abbrev pub level_zone : ℕ
level_zone = 2

abbrev pub level_campus : ℕ
level_campus = 3

-- `nearbyLevelInstanceCount`
pub record LevelCount : Type 0 where
  pub health_count : ℕ
  pub un_health_count : ℕ
  pub all_count : ℕ

-- The state of the plugin that calls read or write.
pub record NearbyFilter : Type 0 where
  pub match_level : ℕ
  pub max_match_level : ℕ
  pub enable_degrade_by_unhealthy_percent : Bool
  pub recover_all : Bool

unfoldable pub get_cluster_instance_count : List Instance → Cluster → Bool → Cluster × LevelCount
get_cluster_instance_count xs c clear =
    let (c', v) = get_cluster_value xs (if clear then clear_cluster_value c else c) in
    let all = count (get_instances_set_when_skip_route_filter v true true) in
    let healthy = count (get_instances_set v false false) in
    (c', record { health_count = healthy; un_health_count = all - healthy; all_count = all })

unfoldable pub check_all_level_inst_counts :
    List Instance → Cluster → Location → Cluster × List LevelCount
unfolding get_cluster_instance_count
check_all_level_inst_counts xs c l =
    let (c₀, n₀) = get_cluster_instance_count xs c false in
    let l₁ = record c₀.location { region = l.region } in
    let (c₁, n₁) = get_cluster_instance_count xs (record c₀ { location = l₁ }) true in
    let l₂ = record c₁.location { zone = l.zone } in
    let (c₂, n₂) = get_cluster_instance_count xs (record c₁ { location = l₂ }) true in
    let l₃ = record c₂.location { campus = l.campus } in
    let (c₃, n₃) = get_cluster_instance_count xs (record c₂ { location = l₃ }) true in
    (c₃, n₀ ∷ n₁ ∷ n₂ ∷ n₃ ∷ [])

unfoldable pub location_at : Location → ℕ → Location
location_at l level =
    if level == level_zone
    then record l { campus = [] }
    else if level == level_region
    then record l { campus = []; zone = [] }
    else if level == level_all
    then record { campus = []; zone = []; region = [] }
    else l

unfoldable pub modify_out_cluster_level : Cluster → ℕ → Cluster
unfolding location_at
modify_out_cluster_level c level =
    if not (level == level_campus)
    then clear_cluster_value (record c { location = location_at c.location level })
    else c

abbrev pub zero_count : LevelCount
zero_count = record { health_count = 0; un_health_count = 0; all_count = 0 }

-- `is_tolerable` tells whether the share of the unhealthy ones among all is below the configured
-- one, which the code computes in floating point.
module _ (is_tolerable : ℕ → ℕ → Bool) where
  -- Whether a level is satisfied, and whether it has instances.
  unfoldable pub check_level_count : NearbyFilter → List LevelCount → ℕ → Bool × Bool
  check_level_count g counts level =
      let n = get_or counts level zero_count in
      let not_zero = ltb 0 n.all_count in
      (
        if g.enable_degrade_by_unhealthy_percent
            then not_zero && is_tolerable n.un_health_count n.all_count
            else not_zero,
        not_zero,
      )

  abbrev note_level : Option ℕ → ℕ → Bool → Option ℕ
  note_level (some l) level not_zero = some l
  note_level none level not_zero = if not_zero then some level else none

  -- The loop from the closest level to the farthest: the first that is satisfied, and the first
  -- that has instances.
  unfoldable pub search_levels :
      NearbyFilter → List LevelCount → ℕ → ℕ → Option ℕ → Option ℕ × Option ℕ
  unfolding check_level_count
  search_levels g counts farthest zero found =
      let (satisfied, not_zero) = check_level_count g counts zero in
      let found' = note_level found zero not_zero in
      if ltb 0 farthest
      then (none, found)
      else if satisfied
      then (some zero, found')
      else (none, found')
  search_levels g counts farthest (suc l) found =
      let (satisfied, not_zero) = check_level_count g counts (suc l) in
      let found' = note_level found (suc l) not_zero in
      let rest = search_levels g counts farthest l found' in
      if ltb (suc l) farthest
      then (none, found)
      else if satisfied
      then (some (suc l), found')
      else rest

  abbrev level_or : Option ℕ × Option ℕ → Option ℕ
  level_or (some l, found) = some l
  level_or (none, found) = found

  -- The level that is used in the end.
  unfoldable pub final_level : NearbyFilter → List LevelCount → ℕ → ℕ → Option ℕ
  unfolding search_levels
  final_level g counts nearest farthest = level_or (search_levels g counts farthest nearest none)
