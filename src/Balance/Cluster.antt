-- ===== src/Balance/Cluster.antt =====
-- The sets of instances of a cluster: pkg/model/cluster.go, with the set that a load balancer
-- chooses from (plugin/loadbalancer/common/half_open.go). A weight is a uint32 of the registry; the
-- sums are int by their bit pattern. The caches of built values and of instance objects are left
-- out: a value is built anew from the instances of the service.
pub mod Cached
pub mod Metadata
pub mod Values
pub mod Service
pub mod Matching
pub mod Pairs
pub mod Added
pub mod Composed
use polaris_go.Base.{
  ℕ, ◌+◌, ◌%◌, Bool, true, false, not, ◌&&◌, ◌||◌, Option, none, some, List, [], ◌∷◌, ◌++◌, ◌==◌,
  ltb, if◌then◌else◌, length,
}
use polaris_go.Base.Int.{ℤ, pos, ltb_ℤ, of_bits64, i64_mod}
use polaris_go.Base.Text.{Str, str_eq}
use polaris_go.Breaker.HalfOpen.{Status, open_status, close}

-- A Go map of strings, as the list of its entries.
abbrev pub StrMap : Type 0
StrMap = List (Str × Str)

pub record Location : Type 0 where
  pub region : Str
  pub zone : Str
  pub campus : Str

-- What is read of `model.Instance`.
pub record Instance : Type 0 where
  pub id : Str
  pub ttl : ℤ
  pub weight : ℕ
  pub is_isolated : Bool
  pub is_healthy : Bool
  pub circuit_breaker_status : Option Status
  pub metadata : StrMap
  pub location : Location

pub record WeightedIndex : Type 0 where
  pub index : ℕ
  pub accumulate_weight : ℕ

pub record InstanceSet : Type 0 where
  pub weighted_indexes : List WeightedIndex
  pub total_weight : ℕ
  pub max_weight : ℕ

abbrev pub new_instance_set : InstanceSet
new_instance_set = record { weighted_indexes = []; total_weight = 0; max_weight = 0 }

unfoldable pub add_instance : InstanceSet → ℕ → Instance → InstanceSet
add_instance s index x =
    let total = (s.total_weight + x.weight) % i64_mod in
    record {
      weighted_indexes =
          s.weighted_indexes ++ (record { index = index; accumulate_weight = total } ∷ []);
      total_weight = total;
      max_weight = if ltb s.max_weight x.weight then x.weight else s.max_weight;
    }

pub record ClusterValue : Type 0 where
  pub all_instances : InstanceSet
  pub selectable_instances : InstanceSet
  pub selectable_instances_without_unhealthy : InstanceSet
  pub healthy_instances : InstanceSet
  pub available_instances : InstanceSet

abbrev pub new_cluster_value : ClusterValue
new_cluster_value = record {
  all_instances = new_instance_set;
  selectable_instances = new_instance_set;
  selectable_instances_without_unhealthy = new_instance_set;
  healthy_instances = new_instance_set;
  available_instances = new_instance_set;
}

abbrev pub is_open : Option Status → Bool
is_open (some open_status) = true
is_open _ = false

abbrev pub is_not_close : Option Status → Bool
is_not_close none = false
is_not_close (some close) = false
is_not_close (some _) = true

-- `ClusterValue.addInstance`
unfoldable pub add_to_value : ClusterValue → ℕ → Instance → ClusterValue
add_to_value v index x =
    let v₁ = record v { all_instances = add_instance v.all_instances index x } in
    let v₂ = record v₁ { selectable_instances = add_instance v.selectable_instances index x } in
    let v₃ = record v₂ {
      selectable_instances_without_unhealthy =
          add_instance v.selectable_instances_without_unhealthy index x;
    } in
    let v₄ = record v₃ { available_instances = add_instance v.available_instances index x } in
    let v₅ = record v₄ { healthy_instances = add_instance v.healthy_instances index x } in
    if x.is_isolated || (x.weight == 0)
    then v₁
    else if not x.is_healthy
    then v₂
    else if is_open x.circuit_breaker_status
    then v₃
    else if is_not_close x.circuit_breaker_status
    then v₄
    else v₅

-- A read of a map.
abbrev pub lookup : StrMap → Str → Option Str
lookup [] key = none
lookup ((k, v) ∷ m) key = if str_eq k key then some v else lookup m key

-- From a key to its values, and from each value to the composed form of both.
abbrev pub Metadata : Type 0
Metadata = List (Str × StrMap)

abbrev pub has_value : StrMap → Str → Bool
has_value [] value = false
has_value ((v, c) ∷ vs) value = str_eq v value || has_value vs value

-- The fields of `Cluster`, with those of `ClusterKey` and `MetaComposedValue`. `value` is the cluster
-- value in use. The service that a cluster belongs to is an argument of the methods; `reuse` only
-- guides the pool.
pub record Cluster : Type 0 where
  pub compose_meta_value : Str
  pub location : Location
  pub meta_key : Str
  pub meta_value : Str
  pub composed_value : Str
  pub metadata : Metadata
  pub meta_count : ℕ
  pub has_limited_instances : Bool
  pub miss_location_instances : Bool
  pub include_half_open : Bool
  pub value : Option ClusterValue

-- The loop of `matchMetadata`, whose result does not depend on the order of the entries.
unfoldable pub match_all_keys : Metadata → StrMap → Bool
match_all_keys [] inst = true
match_all_keys ((key, values) ∷ ms) inst =
    let rest = match_all_keys ms inst in
    elim (lookup inst key) [
      | none ↦ false
      | some value ↦ if not (has_value values value) then false else rest
    ]

unfoldable pub match_metadata : Cluster → Instance → Bool
match_metadata c x =
    if c.meta_count == 0
    then true
    else if length x.metadata == 0
    then false
    else if c.meta_count == 1
    then elim (lookup x.metadata c.meta_key) [
      | none ↦ false
      | some value ↦ str_eq value c.meta_value
    ]
    else match_all_keys c.metadata x.metadata

-- The loop of `containNotMatchMetadata`.
unfoldable pub differs_at_key : Metadata → StrMap → Bool
differs_at_key [] inst = false
differs_at_key ((key, values) ∷ ms) inst =
    let rest = differs_at_key ms inst in
    elim (lookup inst key) [
      | none ↦ rest
      | some value ↦ if not (has_value values value) then true else rest
    ]

unfoldable pub contain_not_match_metadata : Cluster → Instance → Bool
contain_not_match_metadata c x =
    if c.meta_count == 0
    then false
    else if length x.metadata == 0
    then false
    else if c.meta_count == 1
    then elim (lookup x.metadata c.meta_key) [
      | none ↦ false
      | some value ↦ not (str_eq value c.meta_value)
    ]
    else differs_at_key c.metadata x.metadata

unfoldable pub match_contain_meta_key_data : Cluster → Instance → Bool
match_contain_meta_key_data c x =
    if c.meta_count == 0
    then false
    else if length x.metadata == 0
    then false
    else elim (lookup x.metadata c.meta_key) [ none ↦ false | some value ↦ true ]

-- One of the three tests of `matchLocation`: both names are given, and they differ.
abbrev pub is_elsewhere : Str → Str → Bool
is_elsewhere wanted given =
    ltb 0 (length wanted) && ltb 0 (length given) && not (str_eq wanted given)

unfoldable pub match_location : Instance → Location → Bool
match_location x l =
    if is_elsewhere l.region x.location.region
    then false
    else if is_elsewhere l.zone x.location.zone
    then false
    else if is_elsewhere l.campus x.location.campus
    then false
    else true

-- The loop over the instances that all four builders have.
unfoldable pub build_from :
    (Instance → Bool) → Location → ClusterValue → ℕ → List Instance → ClusterValue
build_from matches location v index [] = v
build_from matches location v index (x ∷ xs) =
    let v' =
      if not (matches x)
      then v
      else if not (match_location x location)
      then v
      else add_to_value v index x in
    build_from matches location v' (index + 1) xs

unfoldable pub build_cluster : Cluster → List Instance → ClusterValue
unfolding build_from
build_cluster c xs = build_from (match_metadata c) c.location new_cluster_value 0 xs

unfoldable pub build_contain_not_match_meta_key_cluster : Cluster → List Instance → ClusterValue
unfolding build_from
build_contain_not_match_meta_key_cluster c xs =
    build_from (contain_not_match_metadata c) c.location new_cluster_value 0 xs

unfoldable pub build_not_contain_meta_key_cluster : Cluster → List Instance → ClusterValue
unfolding build_from
build_not_contain_meta_key_cluster c xs =
    build_from (λ x. not (match_contain_meta_key_data c x)) c.location new_cluster_value 0 xs

unfoldable pub build_contain_meta_key_cluster : Cluster → List Instance → ClusterValue
unfolding build_from
build_contain_meta_key_cluster c xs =
    build_from (match_contain_meta_key_data c) c.location new_cluster_value 0 xs

unfoldable pub get_instances_set : ClusterValue → Bool → Bool → InstanceSet
get_instances_set v has_limited_instances include_half_open =
    if has_limited_instances
    then (if ltb_ℤ (pos 0) (of_bits64 v.selectable_instances_without_unhealthy.total_weight)
        then v.selectable_instances_without_unhealthy
        else v.selectable_instances)
    else if include_half_open
    then v.available_instances
    else v.healthy_instances

unfoldable pub get_instances_set_when_skip_route_filter : ClusterValue → Bool → Bool → InstanceSet
get_instances_set_when_skip_route_filter v has_limited_instances include_half_open =
    if has_limited_instances
    then v.selectable_instances
    else if include_half_open
    then v.available_instances
    else v.healthy_instances
