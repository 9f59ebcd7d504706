-- ===== src/Balance/Tests.antt =====
-- The theorems on the choice of an instance, at a service of two instances.
use polaris_go.Base.{
  ℕ, ◌+◌, ◌*◌, ◌≡◌, ◌⊎◌, refl, Bool, true, false, ◌&&◌, none, some, List, [], ◌∷◌, map, arith,
}
use mathlib.Core.List.{Perm}
use polaris_go.Base.Int.{pos}
use polaris_go.Base.Text.{Str}
use polaris_go.Balance.Cluster.Metadata.{
  build_composed_value, set_compose_meta_value, total_length, reset, add_metadata,
  reload_compose_meta_value,
}
use polaris_go.Balance.Cluster.Composed.{pairs_of, composed_key-read}
use polaris_go.Balance.Search.{SearchableSlice, binary_search, binary_search_lem}
use polaris_go.Balance.Cluster.{
  StrMap, Location, Instance, InstanceSet, Cluster, ClusterValue, build_cluster, new_cluster_value,
  build_from, get_instances_set,
}
use polaris_go.Balance.Sets.{
  Holds, choose_from, is_member, is_selectable, is_usable, is_available, is_normal, build_from_lem,
}
use polaris_go.Balance.Weighted.{chosen, choose_instance, choose_instance_lem}

abbrev anywhere : Location
anywhere = record { region = []; zone = []; campus = [] }

abbrev instance_of : ℕ → Bool → Instance
instance_of weight is_healthy = record {
  id = [];
  ttl = pos 5;
  weight = weight;
  is_isolated = false;
  is_healthy = is_healthy;
  circuit_breaker_status = none;
  metadata = [];
  location = anywhere;
}

-- Values 2 and 5.
abbrev two_values : SearchableSlice
two_values = record { get_value = λ i. 2 + 3 * i; count = 2 }

binary_search_lem_example : binary_search two_values 4 ≡ some 1
binary_search_lem_example =
    binary_search_lem two_values 4 1 (record { monotone = λ i j h b. omega arith })
      (record { inside = omega arith; above = omega arith; below = λ i h. omega arith })
      (omega arith)

abbrev every_instance : Instance → Bool
every_instance x = true

abbrev instances : List Instance
instances = instance_of 2 true ∷ instance_of 3 false ∷ []

build_from_lem_example :
    let v = build_from every_instance anywhere new_cluster_value 0 instances in
    let chosen_by = λ (p : Instance → Bool).
      choose_from (λ x. is_member every_instance anywhere x && p x) 0 instances in
    Holds (choose_from (λ x. is_member every_instance anywhere x) 0 instances) v.all_instances
    × Holds (chosen_by is_selectable) v.selectable_instances
    × Holds (chosen_by is_usable) v.selectable_instances_without_unhealthy
    × Holds (chosen_by is_available) v.available_instances
    × Holds (chosen_by is_normal) v.healthy_instances
build_from_lem_example = build_from_lem every_instance anywhere instances

abbrev letter_pairs : StrMap
letter_pairs = (b'b' ∷ [], b'y' ∷ []) ∷ (b'a' ∷ [], b'x' ∷ []) ∷ []

composed_key-read_example :
    let texts = map (λ (q : Str × Str). build_composed_value q.0 q.1) letter_pairs in
    let key =
      (set_compose_meta_value (reset false) texts (total_length texts)).compose_meta_value in
    Perm letter_pairs (pairs_of key)
composed_key-read_example =
    composed_key-read (reset false) (b'b' ∷ [], b'y' ∷ []) ((b'a' ∷ [], b'x' ∷ []) ∷ [])
      (
        ((omega arith, tt), (omega arith, tt), (omega arith, tt)),
        (((omega arith, tt), (omega arith, tt), (omega arith, tt)), tt),
      )

abbrev two_instances : InstanceSet
two_instances = record {
  weighted_indexes =
      record { index = 0; accumulate_weight = 2 }
      ∷ record { index = 4; accumulate_weight = 5 }
      ∷ [];
  total_weight = 5;
  max_weight = 3;
}

abbrev value : ClusterValue
value = record {
  all_instances = two_instances;
  selectable_instances = two_instances;
  selectable_instances_without_unhealthy = two_instances;
  healthy_instances = two_instances;
  available_instances = two_instances;
}

two_instances-Holds :
    Holds
      ((0, instance_of 2 true) ∷ (4, instance_of 3 true) ∷ [])
      (get_instances_set value false false)
unfolding get_instances_set
two_instances-Holds = record { indexes = refl; total = refl; heaviest = refl }

choose_instance_lem_example : choose_instance value false false 4 ≡ chosen 4
choose_instance_lem_example =
    choose_instance_lem value false false ((0, instance_of 2 true) ∷ []) [] 4 (instance_of 3 true) 4
      two_instances-Holds (omega arith) (omega arith) (omega arith)

-- Two clusters of one service: all of it, and the instances with one pair.
abbrev whole : Cluster
whole = reset false

abbrev narrow : Cluster
narrow = reload_compose_meta_value (add_metadata whole (b'a' ∷ []) (b'x' ∷ [])).0

abbrev IsOne : Cluster → Type 0
IsOne c = (c ≡ whole) ⊎ (c ≡ narrow)

abbrev built : Cluster → ClusterValue
built c = build_cluster c instances
