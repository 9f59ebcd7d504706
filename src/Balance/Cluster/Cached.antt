-- ===== src/Balance/Cluster/Cached.antt =====
-- The values that a service keeps by cluster key, pkg/model/cluster.go: the four getters of a cluster's
-- value look into a map of the service before they build one, and store what they built.
use polaris_go.Base.{◌≡◌, Bool, true, ◌&&◌, Option, none, some, List, [], ◌∷◌, if◌then◌else◌}
use polaris_go.Base.Text.{Str, str_eq}
use polaris_go.Balance.Cluster.{
  Location, Instance, Cluster, ClusterValue, build_cluster,
  build_contain_not_match_meta_key_cluster, build_not_contain_meta_key_cluster,
  build_contain_meta_key_cluster,
}
use polaris_go.Balance.Cluster.Values.{keep_value}
use polaris_go.Balance.Cluster.Service.{same_location}

-- `ClusterKey`
pub record ClusterKey : Type 0 where
  pub compose_meta_value : Str
  pub location : Location

abbrev pub key_of : Cluster → ClusterKey
key_of c = record { compose_meta_value = c.compose_meta_value; location = c.location }

abbrev pub equal_keys : ClusterKey → ClusterKey → Bool
equal_keys k l =
    str_eq k.compose_meta_value l.compose_meta_value && same_location k.location l.location

-- A `sync.Map` of the service.
abbrev pub CacheValues : Type 0
CacheValues = List (ClusterKey × ClusterValue)

-- `GetClusterInstances`, and the same of the three other maps.
unfoldable pub get_cluster_instances : CacheValues → ClusterKey → Option ClusterValue
get_cluster_instances [] k = none
get_cluster_instances ((l, v) ∷ cache) k =
    if equal_keys l k then some v else get_cluster_instances cache k

-- The end of `buildCluster`: `LoadOrStore` of what was built.
unfoldable pub store_cluster : CacheValues → ClusterKey → ClusterValue → CacheValues × ClusterValue
store_cluster cache k built = elim (get_cluster_instances cache k) [
  | some v ↦ (cache, v)
  | none ↦ ((k, built) ∷ cache, built)
]

-- The value that is kept, or else one that is built.
unfoldable pub kept_or_built : CacheValues → ClusterKey → ClusterValue → CacheValues × ClusterValue
unfolding store_cluster
kept_or_built cache k built = elim (get_cluster_instances cache k) [
  | some v ↦ (cache, v)
  | none ↦ store_cluster cache k built
]

-- The getters, for what `build` builds.
module _ (build : Cluster → ClusterValue) where
  unfoldable pub cached_value : CacheValues → Cluster → CacheValues × Cluster × ClusterValue
  unfolding kept_or_built
  cached_value cache c = elim c.value [
    | some v ↦ (cache, c, v)
    | none ↦
        let (cache', v) = kept_or_built cache (key_of c) (build c) in
        (cache', record c { value = some v }, v)
  ]

  -- Calls of a getter, one after the other.
  unfoldable pub cached_values : CacheValues → List Cluster → List (Cluster × ClusterValue)
  cached_values cache [] = []
  cached_values cache (c ∷ cs) =
      let (cache', c', v) = cached_value cache c in (c', v) ∷ cached_values cache' cs

-- `GetClusterValue` and its three variants, with the map that each looks into.
unfoldable pub get_cluster_value_cached :
    List Instance → CacheValues → Cluster → CacheValues × Cluster × ClusterValue
unfolding cached_value
get_cluster_value_cached xs = cached_value (λ c. build_cluster c xs)

unfoldable pub get_contain_not_match_cached :
    List Instance → CacheValues → Cluster → CacheValues × Cluster × ClusterValue
unfolding cached_value
get_contain_not_match_cached xs = cached_value (λ c. build_contain_not_match_meta_key_cluster c xs)

unfoldable pub get_not_contain_cached :
    List Instance → CacheValues → Cluster → CacheValues × Cluster × ClusterValue
unfolding cached_value
get_not_contain_cached xs = cached_value (λ c. build_not_contain_meta_key_cluster c xs)

unfoldable pub get_contain_cached :
    List Instance → CacheValues → Cluster → CacheValues × Cluster × ClusterValue
unfolding cached_value
get_contain_cached xs = cached_value (λ c. build_contain_meta_key_cluster c xs)

module _ (build : Cluster → ClusterValue) (P : Cluster → Type 0)
    (told_apart : (c d : Cluster)
      → P c
      → P d
      → equal_keys (key_of c) (key_of d) ≡ true
      → build c ≡ build d) where
  -- What is kept is what would be built, for the clusters of interest.
  IsCoherent : CacheValues → Type 0
  IsCoherent cache =
      (d : Cluster) (v : ClusterValue)
      → P d
      → get_cluster_instances cache (key_of d) ≡ some v
      → v ≡ build d

  -- One call answers what is built, and keeps the map coherent.
  record Answers (c : Cluster) (r : CacheValues × Cluster × ClusterValue) : Type 0 where
    answer : (r.1, r.2) ≡ keep_value c (build c)
    kept : IsCoherent r.0
