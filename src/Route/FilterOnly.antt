-- ===== src/Route/FilterOnly.antt =====
-- The router that ends a chain: plugin/servicerouter/filteronly/router.go. If too few instances are
-- healthy it hands out unhealthy ones too.
pub mod Recover
use polaris_go.Base.{ℕ, Bool, true, false, not, ◌&&◌, ltb, leb, if◌then◌else◌}
use polaris_go.Balance.Cluster.{Cluster, get_instances_set}
use polaris_go.Balance.Cluster.Metadata.{new_cluster}
use polaris_go.Balance.Cluster.Values.{get_cluster_value}
use polaris_go.Route.{
  RouteInfo, set_ignore_filter_only_on_end_chain, normal, Owned, Answer, answer_cluster, Service,
  Router, count,
}

-- Whether to hand out all instances: of `n`, `healthy` are healthy and `least` have to be.
unfoldable pub is_limited : Bool → ℕ → ℕ → ℕ → Bool
is_limited recover_all n healthy least = recover_all && ltb 0 n && leb healthy least

-- `min_instances` is the product of the configured share with a number of instances, which the code
-- computes in floating point.
module _ (pooled : Bool) (min_instances : ℕ → ℕ) (recover_all : Bool) where
  unfoldable pub filtered_cluster : RouteInfo → Service → Owned → Cluster
  filtered_cluster r s (within, owner) =
      let (out, v) = get_cluster_value s.instances (new_cluster pooled within) in
      let all = count v.selectable_instances in
      let healthy = count (
        if r.include_circuit_break_instances
        then get_instances_set v false true
        else get_instances_set v false false) in
      record out { has_limited_instances = is_limited recover_all all healthy (min_instances all) }

  unfoldable pub get_filtered_instances : RouteInfo → Service → Owned → RouteInfo × Service × Answer
  unfolding filtered_cluster
  get_filtered_instances r s c = (
    set_ignore_filter_only_on_end_chain r true,
    s,
    answer_cluster normal s (filtered_cluster r s c),
  )

  abbrev pub filter_only : ℕ → Router
  filter_only id = record {
    id = id;
    enable = λ r s. true;
    get_filtered_instances = get_filtered_instances;
  }
