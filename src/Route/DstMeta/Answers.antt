-- ===== src/Route/DstMeta/Answers.antt =====
-- When the router by metadata answers a cluster and when an error:
-- plugin/servicerouter/dstmeta/router.go.
use polaris_go.Base.{
  ◌≡◌, refl, Bool, true, false, not, none, List, ◌==◌, ltb, if◌then◌else◌, length, Bool-cases, inl,
  inr, arith,
}
use polaris_go.Balance.Cluster.{StrMap, Instance, Cluster, match_metadata}
use polaris_go.Balance.Cluster.Metadata.{
  new_cluster, reload_compose_meta_value, clear_cluster_value,
}
use polaris_go.Balance.Cluster.Values.{get_cluster_value}
use polaris_go.Balance.Sets.{is_selectable}
use polaris_go.Balance.Counts.{any, is_chosen, build_from-counts}
use polaris_go.Route.{RouteInfo, Service, failed, answer_cluster, normal, dst_meta_mismatch}
use polaris_go.Route.Given.{get_cluster_value-new, new_cluster-value, given}
use polaris_go.Route.DstMeta.{add_all, dest_metadata, get_target_cluster, get_filtered_instances}

reload-value : (c : Cluster) → (reload_compose_meta_value c).value ≡ none
unfolding reload_compose_meta_value clear_cluster_value
reload-value c = refl

target-value :
    (b : Bool) (within : Cluster) (m : StrMap) → (get_target_cluster b within m).value ≡ none
unfolding get_target_cluster
target-value b within m = elim (Bool-cases (ltb 0 (length m))) [
  | inl e ↦ rw e (reload-value (add_all (new_cluster b within) m))
  | inr e ↦ rw e (new_cluster-value b within)
]

-- Whether some instance of a service is accepted by a cluster and may be chosen at all.
abbrev pub has_selectable : Cluster → List Instance → Bool
has_selectable c xs = any (is_chosen (match_metadata c) c.location is_selectable) xs

-- The sets that the router looks at, of the value of a cluster that has none yet.
given_count :
    (c : Cluster) (xs : List Instance)
    → c.value ≡ none
    → (given (get_cluster_value xs c).1 true true == 0) ≡ not (has_selectable c xs)
given_count c xs e =
    let n = build_from-counts (match_metadata c) c.location xs in
    rw (get_cluster_value-new xs c e) n.4

-- When the destination has metadata and there is no fallback: the router answers the cluster of
-- these metadata if some instance of the service that it accepts is selectable, and the error of a
-- mismatch otherwise.
pub answer_lem :
    (b : Bool) (r : RouteInfo) (s : Service) (within : Cluster) (owner : List Instance)
    → ltb 0 (length (dest_metadata r)) ≡ true
    → r.enable_fail_over_default_meta ≡ false
    → let target = get_target_cluster b within (dest_metadata r) in
      get_filtered_instances b r s (within, owner) ≡ (
        r,
        s,
        if has_selectable target s.instances
            then answer_cluster normal s (get_cluster_value s.instances target).0
            else failed dst_meta_mismatch,
      )
unfolding get_filtered_instances
answer_lem b r s within owner e f =
    let target = get_target_cluster b within (dest_metadata r) in
    let n = given_count target s.instances (target-value b within (dest_metadata r)) in
    elim (Bool-cases (has_selectable target s.instances)) [
      | inl g ↦
          (let k : ltb 0 (given (get_cluster_value s.instances target).1 true true) ≡ true =
              ground (arith, n, g) in
            rw (e, k, g) refl)
      | inr g ↦
          (let k : ltb 0 (given (get_cluster_value s.instances target).1 true true) ≡ false =
              ground (arith, n, g) in
            rw (e, k, f, g) refl)
    ]
