-- ===== src/Route/Given.antt =====
-- The value of a cluster that has none yet, and how many instances it gives a load balancer:
-- pkg/model/cluster.go, as the routers of plugin/servicerouter use it.
use polaris_go.Base.{ℕ, ◌≡◌, refl, Bool, none, List, ◌==◌, length, Bool-cases, inl, inr}
use polaris_go.Balance.Cluster.{
  Instance, Cluster, ClusterValue, new_cluster_value, build_from, build_cluster, match_metadata,
  get_instances_set,
}
use polaris_go.Balance.Cluster.Metadata.{reset, new_cluster}
use polaris_go.Balance.Cluster.Values.{get_cluster_value}
use polaris_go.Route.{count}

-- A new cluster has no value yet.
pub new_cluster-value : (b : Bool) (c : Cluster) → (new_cluster b c).value ≡ none
unfolding new_cluster reset
new_cluster-value b c = elim (Bool-cases (length c.metadata == 0)) [
  | inr e ↦ rw e refl
  | inl e ↦ elim (Bool-cases (c.meta_count == 0)) [
    | inl f ↦ rw (e, f) refl
    | inr f ↦ rw (e, f) refl
  ]
]

-- The value of the cluster that is handed out.
abbrev pub built_value : Cluster → List Instance → ClusterValue
built_value c xs = build_from (match_metadata c) c.location new_cluster_value 0 xs

pub get_cluster_value-new :
    (xs : List Instance) (c : Cluster)
    → c.value ≡ none
    → (get_cluster_value xs c).1 ≡ built_value c xs
unfolding get_cluster_value build_cluster
get_cluster_value-new xs c e = rw e refl

-- The instances that a load balancer is given.
abbrev pub given : ClusterValue → Bool → Bool → ℕ
given v limited half_open = count (get_instances_set v limited half_open)
