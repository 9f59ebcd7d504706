-- ===== src/Route/DstMeta.antt =====
-- The router by the metadata of the destination: plugin/servicerouter/dstmeta/router.go.
pub mod Exact
pub mod Answers
use polaris_go.Base.{
  ℕ, Bool, true, false, not, ◌||◌, Option, none, some, List, [], ◌∷◌, ◌==◌, ltb, if◌then◌else◌,
  length,
}
use polaris_go.Base.Text.{Str}
use polaris_go.Balance.Cluster.{
  StrMap, Instance, InstanceSet, Cluster, ClusterValue, get_instances_set,
}
use polaris_go.Balance.Cluster.Metadata.{new_cluster, add_metadata, reload_compose_meta_value}
use polaris_go.Balance.Cluster.Values.{get_cluster_value, get_not_contain_meta_key_cluster_value}
use polaris_go.Route.{
  RouteInfo, set_ignore_filter_only_on_end_chain, FailOverHandler, get_one_health,
  not_contain_meta_key, custom_meta, other_handler, normal, ErrCode, api_invalid_argument,
  dst_meta_mismatch, Owned, Answer, failed, answer_cluster, Service, Router, count,
}

-- The loop that adds all pairs.
unfoldable pub add_all : Cluster → StrMap → Cluster
add_all c [] = c
add_all c ((key, value) ∷ m) = let (c', added) = add_metadata c key value in add_all c' m

unfoldable pub get_inst_set : ClusterValue → InstanceSet
get_inst_set v =
    if count (get_instances_set v false true) == 0
    then get_instances_set v true true
    else get_instances_set v false true

abbrev has_empty_key : StrMap → Bool
has_empty_key [] = false
has_empty_key ((k, v) ∷ m) = length k == 0 || has_empty_key m

-- Whether the metadata are refused.
unfoldable pub validate_empty_key : StrMap → Bool
validate_empty_key m = length m == 0 || has_empty_key m

-- A cluster, or an error.
pub data Found : Type 0 where
  error : ErrCode → Found
  found : Cluster → Found

-- `validateInstSet`
unfoldable pub validate_inst_set : InstanceSet → Cluster → Found
validate_inst_set s c = if count s == 0 then error dst_meta_mismatch else found c

-- The metadata of the destination service; without one the code panics, but the chain refuses that.
abbrev pub dest_metadata : RouteInfo → StrMap
dest_metadata r = elim r.dest_service [ none ↦ [] | some m ↦ m ]

module _ (pooled : Bool) where
  unfoldable pub get_target_cluster : Cluster → StrMap → Cluster
  unfolding add_all
  get_target_cluster within m =
      if ltb 0 (length m)
      then reload_compose_meta_value (add_all (new_cluster pooled within) m)
      else new_cluster pooled within

  unfoldable pub get_one_health_handler : List Instance → Cluster → Found
  unfolding get_target_cluster get_inst_set validate_inst_set
  get_one_health_handler xs within =
      let (c, v) = get_cluster_value xs (get_target_cluster within []) in
      validate_inst_set (get_inst_set v) c

  unfoldable pub not_contain_meta_key_handler : List Instance → Cluster → StrMap → Found
  unfolding get_target_cluster get_inst_set validate_inst_set
  not_contain_meta_key_handler xs within m =
      let (c, v) = get_not_contain_meta_key_cluster_value xs (get_target_cluster within m) in
      validate_inst_set (get_inst_set v) c

  unfoldable pub custom_meta_handler : List Instance → Cluster → StrMap → Found
  unfolding get_target_cluster get_inst_set validate_inst_set validate_empty_key
  custom_meta_handler xs within m =
      let (c, v) = get_cluster_value xs (get_target_cluster within m) in
      if validate_empty_key m
      then error api_invalid_argument
      else validate_inst_set (get_inst_set v) c

  unfoldable pub fail_over_default_meta_handler : List Instance → Cluster → RouteInfo → Found
  unfolding get_one_health_handler not_contain_meta_key_handler custom_meta_handler
  fail_over_default_meta_handler xs within r = elim r.fail_over_default_meta.type [
    | get_one_health ↦ get_one_health_handler xs within
    | not_contain_meta_key ↦ not_contain_meta_key_handler xs within (dest_metadata r)
    | custom_meta ↦ custom_meta_handler xs within r.fail_over_default_meta.meta
    | other_handler ↦ error api_invalid_argument
  ]

  abbrev of_found : RouteInfo → Service → Found → RouteInfo × Service × Answer
  of_found r s (error e) = (r, s, failed e)
  of_found r s (found c) =
      (set_ignore_filter_only_on_end_chain r true, s, answer_cluster normal s c)

  unfoldable pub get_filtered_instances : RouteInfo → Service → Owned → RouteInfo × Service × Answer
  get_filtered_instances r s (within, owner) =
      let target = get_target_cluster within (dest_metadata r) in
      let (c, v) = get_cluster_value s.instances target in
      if not (ltb 0 (length (dest_metadata r)))
      then (r, s, answer_cluster normal s target)
      else if ltb 0 (count (get_instances_set v true true))
      then (r, s, answer_cluster normal s c)
      else if r.enable_fail_over_default_meta
      then of_found r s (fail_over_default_meta_handler s.instances within r)
      else (r, s, failed dst_meta_mismatch)

  abbrev pub dst_meta : ℕ → Router
  dst_meta id = record {
    id = id;
    enable = λ r s. not (length (dest_metadata r) == 0);
    get_filtered_instances = get_filtered_instances;
  }
