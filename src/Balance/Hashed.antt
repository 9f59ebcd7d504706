-- ===== src/Balance/Hashed.antt =====
-- The load balancers that choose by a hash: ChooseInstance of plugin/loadbalancer/ringhash and
-- plugin/loadbalancer/hash, with plugin/loadbalancer/common/hash.go. The ring that an instance set
-- keeps is an argument; an index out of range would panic.
use polaris_go.Base.{
  ℕ, ◌%◌, Bool, Option, none, some, List, [], ◌∷◌, ◌==◌, ltb, if◌then◌else◌, length, get_or,
  get_elem?,
}
use polaris_go.Base.Text.{Str}
use polaris_go.Balance.Cluster.{Instance, InstanceSet, ClusterValue, get_instances_set}
use polaris_go.Balance.Search.{binary_search}
use polaris_go.Balance.Weighted.{slice_of, no_index}
use polaris_go.Balance.Ring.{ReplicateNodes, Ring, select_by_hash_value}
use polaris_go.Balance.Ring.Build.{HashFuncWithSeed, new_continuum}

-- What is read of `loadbalancer.Criteria`, with the two flags of its cluster.
pub record Criteria : Type 0 where
  pub hash_key : Str
  pub hash_value : ℕ
  pub replicate_count : ℕ
  pub has_limited_instances : Bool
  pub include_half_open : Bool

-- `CalcHashValueWithSeed`; `none` is an error of the hash function.
unfoldable pub calc_hash_value_with_seed : Criteria → HashFuncWithSeed → ℕ → Option ℕ
calc_hash_value_with_seed c hash_func seed =
    if ltb 0 (length c.hash_key) then hash_func c.hash_key seed else some c.hash_value

unfoldable pub calc_hash_value : Criteria → HashFuncWithSeed → Option ℕ
unfolding calc_hash_value_with_seed
calc_hash_value c hash_func = calc_hash_value_with_seed c hash_func 0

-- `Select`: an index with the replicates; that there is no point, where the code answers -1; an
-- error; or, in the model only, that the fuel of the search was used up.
pub data Selection : Type 0 where
  selected : ℕ → Option ReplicateNodes → Selection
  no_index_found hash_error no_fuel : Selection

unfoldable pub select : HashFuncWithSeed → Ring → Criteria → Ring × Selection
unfolding calc_hash_value
select hash_func [] c = ([], no_index_found)
select hash_func (p ∷ []) c = (p ∷ [], selected p.index none)
select hash_func (p ∷ q ∷ ps) c =
    let ring = p ∷ q ∷ ps in
    elim (calc_hash_value c hash_func) [
      | none ↦ (ring, hash_error)
      | some v ↦ elim (select_by_hash_value ring v c.replicate_count) [
        | none ↦ (ring, no_fuel)
        | some (index, nodes, ring') ↦ (ring', selected index nodes)
      ]
    ]

pub data ErrCode : Type 0 where
  instance_not_found internal_error : ErrCode

-- An instance and the replicates; an error; a panic; or, in the model only, used up fuel.
pub data Choice : Type 0 where
  chosen : Instance → Option ReplicateNodes → Choice
  failed : ErrCode → Choice
  panicked out_of_fuel : Choice

abbrev instance_at : List Instance → ℕ → Option ReplicateNodes → Choice
instance_at xs i nodes = elim (get_elem? xs i) [ none ↦ panicked | some x ↦ chosen x nodes ]

abbrev choice_of : List Instance → Selection → Choice
choice_of xs (selected i nodes) = instance_at xs i nodes
choice_of xs no_index_found = panicked
choice_of xs hash_error = failed internal_error
choice_of xs no_fuel = out_of_fuel

module _ (hash_func : HashFuncWithSeed) where
  -- `getOrBuildHashRing`: the ring that the set keeps, or a new one, which it then keeps. `none` is
  -- the panic after an error of the hash function: a nil ring is stored by its identifier.
  unfoldable pub get_or_build_hash_ring :
      (ℕ → ℕ → ℕ → ℕ) → List Instance → InstanceSet → ℕ → Option Ring → Option Ring
  get_or_build_hash_ring limit_of xs s vnode_count (some ring) = some ring
  get_or_build_hash_ring limit_of xs s vnode_count none =
      new_continuum hash_func limit_of xs s vnode_count

  -- `KetamaLoadBalancer.ChooseInstance`: the ring that the set keeps afterwards, and the choice.
  unfoldable pub ketama_choose_instance :
      (ℕ → ℕ → ℕ → ℕ)
      → ℕ
      → List Instance
      → ClusterValue
      → Option Ring
      → Criteria
      → Option Ring × Choice
  unfolding get_or_build_hash_ring select
  ketama_choose_instance limit_of vnode_count xs v old c =
      let targets = get_instances_set v c.has_limited_instances c.include_half_open in
      if targets.total_weight == 0
      then (old, failed instance_not_found)
      else elim (get_or_build_hash_ring limit_of xs targets vnode_count old) [
        | none ↦ (none, panicked)
        | some ring ↦
            let (ring', picked) = select hash_func ring c in (some ring', choice_of xs picked)
      ]

  -- `LoadBalancer.ChooseInstance` of plugin/loadbalancer/hash.
  unfoldable pub hash_choose_instance : List Instance → ClusterValue → Criteria → Choice
  unfolding calc_hash_value
  hash_choose_instance xs v c =
      let targets = get_instances_set v c.has_limited_instances c.include_half_open in
      if targets.total_weight == 0
      then failed instance_not_found
      else elim (calc_hash_value c hash_func) [
        | none ↦ failed internal_error
        | some h ↦ elim (binary_search (slice_of targets) (h % targets.total_weight)) [
          | none ↦ out_of_fuel
          | some i ↦ instance_at xs (get_or targets.weighted_indexes i no_index).index none
        ]
      ]
