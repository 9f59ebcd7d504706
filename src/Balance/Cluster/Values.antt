-- ===== src/Balance/Cluster/Values.antt =====
-- The value of a cluster, pkg/model/cluster.go: the instance sets that it stands for. Each method
-- answers the value in use, if there is one, and otherwise builds its own, as the code does for a key
-- that the service keeps no value for. `Cached` has the same methods with the values that are kept.
use polaris_go.Base.{none, some, List}
use polaris_go.Balance.Cluster.{
  Instance, ClusterValue, Cluster, build_cluster, build_contain_not_match_meta_key_cluster,
  build_not_contain_meta_key_cluster, build_contain_meta_key_cluster,
}

-- The value in use, or one that is built.
abbrev pub value_or : Cluster → ClusterValue → ClusterValue
value_or c built = elim c.value [ some v ↦ v | none ↦ built ]

abbrev pub keep_value : Cluster → ClusterValue → Cluster × ClusterValue
keep_value c built = let v = value_or c built in (record c { value = some v }, v)

unfoldable pub get_cluster_value : List Instance → Cluster → Cluster × ClusterValue
get_cluster_value xs c = keep_value c (build_cluster c xs)

unfoldable pub get_contain_not_match_meta_key_cluster_value :
    List Instance → Cluster → Cluster × ClusterValue
get_contain_not_match_meta_key_cluster_value xs c =
    keep_value c (build_contain_not_match_meta_key_cluster c xs)

unfoldable pub get_not_contain_meta_key_cluster_value :
    List Instance → Cluster → Cluster × ClusterValue
get_not_contain_meta_key_cluster_value xs c = keep_value c (build_not_contain_meta_key_cluster c xs)

unfoldable pub get_contain_meta_key_cluster_value : List Instance → Cluster → Cluster × ClusterValue
get_contain_meta_key_cluster_value xs c = keep_value c (build_contain_meta_key_cluster c xs)
