-- ===== src/Route/SetDivision.antt =====
-- The router by sets: plugin/servicerouter/setdivision/setdivision.go. A name of a set has three parts
-- with dots between them; the code indexes the parts it splits a name into and panics if they lack.
use polaris_go.Base.{
  ℕ, Bool, true, false, not, ◌&&◌, Option, none, some, List, [], ◌∷◌, ◌++◌, ◌==◌, if◌then◌else◌,
}
use polaris_go.Base.Text.{Str, str_eq, split}
use polaris_go.Balance.Cluster.{StrMap, Instance, Cluster, lookup, get_instances_set}
use polaris_go.Balance.Cluster.Metadata.{new_cluster, add_metadata, reload_compose_meta_value}
use polaris_go.Balance.Cluster.Values.{get_cluster_value}
use polaris_go.Route.{
  RouteInfo, set_router_enable, normal, api_instance_not_found, Owned, Answer, failed, panicked,
  answer_cluster, Service, Router, count,
}
use polaris_go.Route.ZeroProtect.{get_real_instances}

-- "internal-enable-set", "internal-set-name", "Y", "*" and ".*"
abbrev pub set_enable_key : Str
set_enable_key =
    b'i' ∷ b'n' ∷ b't' ∷ b'e' ∷ b'r' ∷ b'n' ∷ b'a' ∷ b'l' ∷ b'-' ∷ b'e' ∷ b'n' ∷ b'a' ∷ b'b' ∷ b'l'
    ∷ b'e' ∷ b'-' ∷ b's' ∷ b'e' ∷ b't' ∷ []

abbrev pub set_name_key : Str
set_name_key =
    b'i' ∷ b'n' ∷ b't' ∷ b'e' ∷ b'r' ∷ b'n' ∷ b'a' ∷ b'l' ∷ b'-' ∷ b's' ∷ b'e' ∷ b't' ∷ b'-' ∷ b'n'
    ∷ b'a' ∷ b'm' ∷ b'e' ∷ []

abbrev pub yes : Str
yes = b'Y' ∷ []

abbrev pub any_group : Str
any_group = b'*' ∷ []

-- `c.AddMetadata(key, value)`, whose answer is not used.
abbrev pub add : Cluster → Str → Str → Cluster
add c key value = let (c', added) = add_metadata c key value in c'

abbrev is_yes : Option Str → Bool
is_yes none = false
is_yes (some v) = str_eq v yes

-- The name of the set, if sets are enabled by the metadata.
abbrev pub enabled_set_name : StrMap → Option Str
enabled_set_name m = if is_yes (lookup m set_enable_key) then lookup m set_name_key else none

-- Whether the first two parts are these; none if the second is read and lacks.
abbrev pub matches_area : List Str → Str → Str → Option Bool
matches_area [] set area = none
matches_area (p ∷ []) set area = if str_eq p set then none else some false
matches_area (p ∷ q ∷ ps) set area = some (str_eq p set && str_eq q area)

-- The loop of `getallArea`; none is a panic.
unfoldable pub add_areas : Str → Str → List Instance → Bool → Cluster → Option (Bool × Cluster)
add_areas set area [] flag c = some (flag, c)
add_areas set area (x ∷ xs) flag c =
    if not (is_yes (lookup x.metadata set_enable_key))
    then add_areas set area xs flag c
    else (let c' = add c set_enable_key yes in
        elim (lookup x.metadata set_name_key) [
          | none ↦ add_areas set area xs flag c'
          | some name ↦ elim (matches_area (split b'.' name) set area) [
            | none ↦ none
            | some true ↦ add_areas set area xs true (add c' set_name_key name)
            | some false ↦ add_areas set area xs flag c'
          ]
        ])

-- The loop of `calleeEnableSet`.
abbrev head_is : List Str → Str → Bool
head_is [] set = false
head_is (p ∷ ps) set = str_eq set p

unfoldable pub has_set : Str → List Instance → Bool
has_set set [] = false
has_set set (x ∷ xs) =
    let rest = has_set set xs in
    elim (enabled_set_name x.metadata) [
      | none ↦ rest
      | some name ↦ if head_is (split b'.' name) set then true else rest
    ]

-- The instances of the cluster that both read.
abbrev instances_of : Owned → List Instance
instances_of (within, owner) =
    let (within', v) = get_cluster_value owner within in
    get_real_instances (get_instances_set v true true).weighted_indexes owner

unfoldable pub callee_enable_set : Str → Owned → Bool
unfolding has_set
callee_enable_set set c = has_set set (instances_of c)

-- `nearby_index` is the id of the nearby router.
module _ (pooled : Bool) (nearby_index : ℕ) where
  unfoldable pub get_all_area : Str → Str → Owned → Option (Bool × Cluster)
  unfolding add_areas
  get_all_area set area (within, owner) =
      elim (add_areas set area (instances_of (within, owner)) false (new_cluster pooled within)) [
        | none ↦ none
        | some (flag, c) ↦ some (flag, reload_compose_meta_value c)
      ]

  unfoldable pub destination_set : Str → Service → Cluster → Answer
  destination_set name s within =
      let c = add (add (new_cluster pooled within) set_name_key name) set_enable_key yes in
      answer_cluster normal s (reload_compose_meta_value c)

  abbrev of_areas : Service → Option (Bool × Cluster) → Answer
  of_areas s none = panicked
  of_areas s (some (true, c)) = answer_cluster normal s c
  of_areas s (some (false, c)) = failed api_instance_not_found

  -- The cluster of the instances in a group, or of those in the group that stands for any, if the
  -- first one is empty.
  unfoldable pub group_cluster : Str → Str → Str → Service → Cluster → Cluster
  group_cluster name set area s within =
      let c = reload_compose_meta_value (add (new_cluster pooled within) set_name_key name) in
      let (c', v) = get_cluster_value s.instances c in
      let full = set ++ (b'.' ∷ area ++ (b'.' ∷ any_group)) in
      if count (get_instances_set v true true) == 0
      then reload_compose_meta_value (add (new_cluster pooled within) set_name_key full)
      else c'

  unfoldable pub source_set : RouteInfo → Str → Service → Owned → RouteInfo × Answer
  unfolding callee_enable_set group_cluster get_all_area
  source_set r name s (within, owner) = elim (split b'.' name) [
    | set ∷ area ∷ group ∷ rest ↦
        if not (callee_enable_set set (within, owner))
        then (r, answer_cluster normal s (new_cluster pooled within))
        else if not (str_eq group any_group)
        then (
          set_router_enable r nearby_index false,
          answer_cluster normal s (group_cluster name set area s within),
        )
        else (
          set_router_enable r nearby_index false,
          of_areas s (get_all_area set area (within, owner)),
        )
    | _ ↦ (r, panicked)
  ]

  abbrev set_name_of : Option StrMap → Option Str
  set_name_of none = none
  set_name_of (some m) = enabled_set_name m

  unfoldable pub get_filtered_instances : RouteInfo → Service → Owned → RouteInfo × Service × Answer
  unfolding source_set destination_set
  get_filtered_instances r s (within, owner) = elim (set_name_of r.dest_service) [
    | some name ↦ (set_router_enable r nearby_index false, s, destination_set name s within)
    | none ↦ elim (set_name_of r.source_service) [
      | some name ↦ let (r', a) = source_set r name s (within, owner) in (r', s, a)
      | none ↦ (r, s, answer_cluster normal s (new_cluster pooled within))
    ]
  ]

  abbrev pub set_division : ℕ → Router
  set_division id = record {
    id = id;
    enable = λ r s. true;
    get_filtered_instances = get_filtered_instances;
  }
