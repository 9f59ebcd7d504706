-- ===== src/Route/Canary.antt =====
-- The canary router: plugin/servicerouter/canary/canary_router.go. It prefers the instances of the
-- canary that is asked for, or those of none.
pub mod Keyed
pub mod Statuses
use polaris_go.Base.{
  ℕ, Bool, true, false, Option, none, some, List, [], ◌∷◌, ◌==◌, if◌then◌else◌, length,
}
use polaris_go.Base.Text.{Str}
use polaris_go.Balance.Cluster.{
  Instance, Cluster, get_instances_set, get_instances_set_when_skip_route_filter,
}
use polaris_go.Balance.Cluster.Metadata.{new_cluster, add_metadata, reload_compose_meta_value}
use polaris_go.Balance.Cluster.Values.{
  get_cluster_value, get_contain_not_match_meta_key_cluster_value,
  get_not_contain_meta_key_cluster_value, get_contain_meta_key_cluster_value,
}
use polaris_go.Route.{
  RouteInfo, set_ignore_filter_only_on_end_chain, RouteStatus, normal, degrade_to_not_match_canary,
  degrade_to_not_canary, degrade_to_canary, limited_canary, limited_no_canary,
  degrade_to_filter_only, Owned, Answer, answer_cluster, Service, Router, has_some,
}

-- "canary"
abbrev pub canary_meta_key : Str
canary_meta_key = b'c' ∷ b'a' ∷ b'n' ∷ b'a' ∷ b'r' ∷ b'y' ∷ []

module _ (pooled : Bool) where
  -- The cluster within another one with the canary key and a value.
  unfoldable pub keyed_cluster : Cluster → Str → Cluster
  keyed_cluster within value =
      let (c, added) = add_metadata (new_cluster pooled within) canary_meta_key value in
      reload_compose_meta_value c

  unfoldable pub canary_available_filter :
      Str → List Instance → Cluster → Option (Cluster × RouteStatus)
  canary_available_filter value xs within =
      let (target, v) = get_cluster_value xs (keyed_cluster within value) in
      let (without, w) = get_not_contain_meta_key_cluster_value xs (keyed_cluster within []) in
      let (other, u) =
        get_contain_not_match_meta_key_cluster_value xs (keyed_cluster within value) in
      if has_some (get_instances_set v false true)
      then some (target, normal)
      else if has_some (get_instances_set w false true)
      then some (without, degrade_to_not_canary)
      else if has_some (get_instances_set u false true)
      then some (other, degrade_to_not_match_canary)
      else none

  unfoldable pub canary_limited_filter : Str → List Instance → Cluster → Option Cluster
  canary_limited_filter value xs within =
      let (target, v) = get_cluster_value xs (keyed_cluster within value) in
      if has_some (get_instances_set_when_skip_route_filter v true true)
      then some (record target { has_limited_instances = true })
      else none

  -- The end of both filters: the available instances, then the limited ones, then an error.
  abbrev pub choose_of :
      RouteStatus → Option (Cluster × RouteStatus) → Option Cluster → Option (Cluster × RouteStatus)
  choose_of limited (some (c, status)) rest = some (c, status)
  choose_of limited none (some c) = some (c, limited)
  choose_of limited none none = none

  unfoldable pub canary_filter : Str → List Instance → Cluster → Option (Cluster × RouteStatus)
  canary_filter value xs within =
      choose_of limited_canary (canary_available_filter value xs within)
        (canary_limited_filter value xs within)

  unfoldable pub no_canary_available_filter :
      List Instance → Cluster → Option (Cluster × RouteStatus)
  no_canary_available_filter xs within =
      let (without, w) = get_not_contain_meta_key_cluster_value xs (keyed_cluster within []) in
      let (with_key, v) = get_contain_meta_key_cluster_value xs (keyed_cluster within []) in
      if has_some (get_instances_set w false true)
      then some (without, normal)
      else if has_some (get_instances_set v false true)
      then some (with_key, degrade_to_canary)
      else none

  unfoldable pub no_canary_limited_filter : List Instance → Cluster → Option Cluster
  no_canary_limited_filter xs within =
      let (target, v) = get_not_contain_meta_key_cluster_value xs (keyed_cluster within []) in
      if has_some (get_instances_set_when_skip_route_filter v true true)
      then some (record target { has_limited_instances = true })
      else none

  unfoldable pub no_canary_filter : List Instance → Cluster → Option (Cluster × RouteStatus)
  no_canary_filter xs within =
      choose_of limited_no_canary (no_canary_available_filter xs within)
        (no_canary_limited_filter xs within)

  -- If nothing is found the cluster in is handed out with all its instances, for the router that
  -- ends the chain.
  abbrev pub answer_of :
      RouteInfo → Service → Cluster → Option (Cluster × RouteStatus) → RouteInfo × Service × Answer
  answer_of r s within (some (c, status)) =
      (set_ignore_filter_only_on_end_chain r true, s, answer_cluster status s c)
  answer_of r s within none = (
    r,
    s,
    answer_cluster degrade_to_filter_only s
        (record (new_cluster pooled within) { has_limited_instances = true }),
  )

  unfoldable pub get_filtered_instances : RouteInfo → Service → Owned → RouteInfo × Service × Answer
  get_filtered_instances r s (within, owner) = answer_of r s within (
      if length r.canary == 0
      then no_canary_filter s.instances within
      else canary_filter r.canary s.instances within)

  abbrev pub canary_router : ℕ → Router
  canary_router id = record {
    id = id;
    enable = λ r s. s.enabled_canary;
    get_filtered_instances = get_filtered_instances;
  }
