-- ===== src/Route/RuleBase/Subsets.antt =====
-- The clusters that the destinations of a rule give, by priority, and the choice of one:
-- prioritySubsets, the end of populateSubsetsFromDst and selectCluster,
-- plugin/servicerouter/rulebase/base.go. Weights and priorities are uint32. The random number is
-- what the parameter `intn` gives for a total weight. Pools are left out.
pub mod Picks
pub mod Lowest
pub mod Kept
use polaris_go.Base.{
  ℕ, ◌+◌, ◌%◌, Bool, Option, none, some, List, [], ◌∷◌, ◌++◌, ◌==◌, ltb, if◌then◌else◌, length,
  get_or,
}
use polaris_go.Base.Int.{u32_mod}
use polaris_go.Balance.Cluster.{Cluster}
use polaris_go.Balance.Search.{SearchableSlice, binary_search}

pub record WeightedSubset : Type 0 where
  pub cluster : Cluster
  pub weight : ℕ

pub record PrioritySubsets : Type 0 where
  pub single_subset : WeightedSubset
  pub subsets : List WeightedSubset
  pub total_weight : ℕ

-- The Go map from priorities to subsets, as the list of its entries.
abbrev pub SubsetsMap : Type 0
SubsetsMap = List (ℕ × PrioritySubsets)

abbrev pub find : ℕ → SubsetsMap → Option PrioritySubsets
find p [] = none
find p ((q, s) ∷ m) = if q == p then some s else find p m

-- The first subset of a priority, and a further one.
unfoldable pub new_subsets : ℕ → Cluster → PrioritySubsets
new_subsets weight c = record {
  single_subset = record { cluster = c; weight = weight };
  subsets = [];
  total_weight = weight;
}

unfoldable pub append_subset : PrioritySubsets → ℕ → Cluster → PrioritySubsets
append_subset s weight c =
    let total = (s.total_weight + weight) % u32_mod in
    let before = if length s.subsets == 0 then s.single_subset ∷ [] else s.subsets in
    record s {
      total_weight = total;
      subsets = before ++ (record { cluster = c; weight = total } ∷ []);
    }

-- The end of `populateSubsetsFromDst`.
unfoldable pub add_subset : ℕ → ℕ → Cluster → SubsetsMap → SubsetsMap
unfolding new_subsets append_subset
add_subset p weight c [] = (p, new_subsets weight c) ∷ []
add_subset p weight c ((q, s) ∷ m) =
    if q == p then (q, append_subset s weight c) ∷ m else (q, s) ∷ add_subset p weight c m

-- `sort.Slice` of the priorities.
unfoldable pub insert_priority : ℕ → List ℕ → List ℕ
insert_priority p [] = p ∷ []
insert_priority p (q ∷ qs) = if ltb q p then q ∷ insert_priority p qs else p ∷ q ∷ qs

unfoldable pub sort_priorities : List ℕ → List ℕ
unfolding insert_priority
sort_priorities [] = []
sort_priorities (p ∷ ps) = insert_priority p (sort_priorities ps)

abbrev pub priorities : SubsetsMap → List ℕ
priorities [] = []
priorities ((p, s) ∷ m) = p ∷ priorities m

abbrev pub head : List ℕ → Option ℕ
head [] = none
head (p ∷ ps) = some p

-- The priority that comes first.
unfoldable pub priority_first : SubsetsMap → Option ℕ
unfolding sort_priorities
priority_first m =
    head (if ltb 1 (length (priorities m)) then sort_priorities (priorities m) else priorities m)

-- `Count` and `GetValue`
unfoldable pub slice_of_subsets : PrioritySubsets → SearchableSlice
slice_of_subsets s = record {
  get_value = λ i. (get_or s.subsets i s.single_subset).weight;
  count = length s.subsets;
}

-- A cluster; the panic on an empty map, which the caller rules out; or, in the model only, that the
-- fuel of the search was used up.
pub data Selected : Type 0 where
  selected : Cluster → Selected
  no_subset no_fuel : Selected

abbrev pub subset_at : PrioritySubsets → Option ℕ → Selected
subset_at s none = no_fuel
subset_at s (some i) = selected (get_or s.subsets i s.single_subset).cluster

-- The choice among the subsets of one priority.
unfoldable pub select_subset : (ℕ → ℕ) → PrioritySubsets → Selected
unfolding slice_of_subsets
select_subset intn s =
    if length s.subsets == 0
    then selected s.single_subset.cluster
    else subset_at s (binary_search (slice_of_subsets s) (intn s.total_weight))

unfoldable pub select_cluster : (ℕ → ℕ) → SubsetsMap → Selected
unfolding priority_first select_subset
select_cluster intn m = elim (priority_first m) [
  | none ↦ no_subset
  | some p ↦ elim (find p m) [ none ↦ no_subset | some s ↦ select_subset intn s ]
]
