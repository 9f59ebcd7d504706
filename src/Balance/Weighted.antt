-- ===== src/Balance/Weighted.antt =====
-- The weighted random choice: plugin/loadbalancer/weightedrandom/wr.go by
-- pkg/algorithm/rand/selector.go. The random number, which is below the total weight, is an
-- argument. The search never answers a negative index, so the second choice of the load balancer is
-- never made.
use polaris_go.Base.{
  ℕ, zero, suc, ◌+◌, ◌%◌, ◌≤◌, ◌<◌, ◌≡◌, refl, ap, ◌∙◌, Bool, Option, none, some, List, [], ◌∷◌,
  ◌++◌, length, length-append, get_or, ◌==◌, test_false, if◌then◌else◌, arith,
}
use polaris_go.Base.Int.{i64_mod}
use polaris_go.Balance.Search.{
  SearchableSlice, IsMonotone, IsPlace, binary_search, binary_search_lem, binary_search-zero,
}
use polaris_go.Balance.Cluster.{
  Instance, WeightedIndex, InstanceSet, ClusterValue, get_instances_set,
}
use polaris_go.Balance.Sets.{accumulate, sum_weights, Holds}

abbrev pub no_index : WeightedIndex
no_index = record { index = 0; accumulate_weight = 0 }

-- `InstanceSet.Count` and `InstanceSet.GetValue`.
unfoldable pub slice_of : InstanceSet → SearchableSlice
slice_of s = record {
  get_value = λ i. (get_or s.weighted_indexes i no_index).accumulate_weight;
  count = length s.weighted_indexes;
}

-- `SelectWeightedRandItem`, from the random number on.
unfoldable pub select_weighted_rand_item : InstanceSet → ℕ → Option ℕ
unfolding slice_of
select_weighted_rand_item s selector = binary_search (slice_of s) selector

-- An instance by its index in the service; the error, that no instance has a weight; or, in the
-- model only, that the fuel of the search was used up.
pub data Choice : Type 0 where
  chosen : ℕ → Choice
  all_weight_zero no_fuel : Choice

-- The instance at a place of the set.
abbrev choice_at : InstanceSet → Option ℕ → Choice
choice_at s none = no_fuel
choice_at s (some k) = chosen (get_or s.weighted_indexes k no_index).index

-- `clusterBasedSelectWeightedInstance`
unfoldable pub select_weighted_instance : InstanceSet → ℕ → Choice
unfolding select_weighted_rand_item
select_weighted_instance s selector = choice_at s (select_weighted_rand_item s selector)

-- `clusterBasedChooseInstance`
unfoldable pub choose_instance : ClusterValue → Bool → Bool → ℕ → Choice
choose_instance v has_limited_instances include_half_open selector =
    let targets = get_instances_set v has_limited_instances include_half_open in
    if targets.total_weight == 0 then all_weight_zero else select_weighted_instance targets selector

-- The sum of the weights up to a place, that one included.
abbrev prefix : List (ℕ × Instance) → ℕ → ℕ
prefix [] j = 0
prefix ((i, x) ∷ xs) zero = x.weight
prefix ((i, x) ∷ xs) (suc j) = x.weight + prefix xs j

length-accumulate : (t : ℕ) (xs : List (ℕ × Instance)) → length (accumulate t xs) ≡ length xs
length-accumulate t [] = refl
length-accumulate t ((i, x) ∷ xs) = ap suc (length-accumulate ((t + x.weight) % i64_mod) xs)

get_or-accumulate :
    (t : ℕ) (xs : List (ℕ × Instance)) (j : ℕ)
    → j < length xs
    → t + sum_weights xs < i64_mod
    → (get_or (accumulate t xs) j no_index).accumulate_weight ≡ t + prefix xs j
get_or-accumulate t [] j h b = absurd (omega arith)
get_or-accumulate t ((i, x) ∷ xs) zero h b = omega arith
get_or-accumulate t ((i, x) ∷ xs) (suc j) h b =
    let rest = get_or-accumulate ((t + x.weight) % i64_mod) xs j (omega arith) (omega arith) in
    omega arith

prefix-sum : (xs : List (ℕ × Instance)) (j : ℕ) → prefix xs j ≤ sum_weights xs
prefix-sum [] j = omega arith
prefix-sum ((i, x) ∷ xs) zero = omega arith
prefix-sum ((i, x) ∷ xs) (suc j) = let rest = prefix-sum xs j in omega arith

prefix_mono : (xs : List (ℕ × Instance)) (i j : ℕ) → i ≤ j → prefix xs i ≤ prefix xs j
prefix_mono [] i j h = omega arith
prefix_mono ((k, x) ∷ xs) zero zero h = omega arith
prefix_mono ((k, x) ∷ xs) zero (suc j) h = omega arith
prefix_mono ((k, x) ∷ xs) (suc i) zero h = absurd (omega arith)
prefix_mono ((k, x) ∷ xs) (suc i) (suc j) h =
    let rest = prefix_mono xs i j (omega arith) in omega arith

module _ (i : ℕ) (x : Instance) (after : List (ℕ × Instance)) where
  prefix-at :
      (before : List (ℕ × Instance))
      → prefix (before ++ ((i, x) ∷ after)) (length before) ≡ sum_weights before + x.weight
  prefix-at [] = omega arith
  prefix-at ((k, y) ∷ before) = let rest = prefix-at before in omega arith

  prefix-before :
      (before : List (ℕ × Instance)) (j : ℕ)
      → j < length before
      → prefix (before ++ ((i, x) ∷ after)) j ≤ sum_weights before
  prefix-before [] j h = absurd (omega arith)
  prefix-before ((k, y) ∷ before) zero h = omega arith
  prefix-before ((k, y) ∷ before) (suc j) h =
      let rest = prefix-before before j (omega arith) in omega arith

  index-at :
      (t : ℕ) (before : List (ℕ × Instance))
      → (get_or (accumulate t (before ++ ((i, x) ∷ after))) (length before) no_index).index ≡ i
  index-at t [] = refl
  index-at t ((k, y) ∷ before) = index-at ((t + y.weight) % i64_mod) before

-- The slice of a set that holds some instances, on them.
module _ (xs : List (ℕ × Instance)) (ws : List WeightedIndex) (e : ws ≡ accumulate 0 xs)
    (bound : sum_weights xs < i64_mod) where
  count-held : length ws ≡ length xs
  count-held = ap length e ∙ length-accumulate 0 xs

  value-held : (j : ℕ) → j < length xs → (get_or ws j no_index).accumulate_weight ≡ prefix xs j
  value-held j h =
      let same = ap (λ w. (get_or w j no_index).accumulate_weight) e in
      let value = get_or-accumulate 0 xs j h (omega arith) in omega arith

module _ (s : InstanceSet) (xs : List (ℕ × Instance)) (held : Holds xs s)
    (bound : sum_weights xs < i64_mod) where
  slice-IsMonotone : IsMonotone (slice_of s)
  unfolding slice_of
  slice-IsMonotone = record {
    monotone = λ i j h inside.
        let count = count-held xs s.weighted_indexes held.indexes bound in
        let low = value-held xs s.weighted_indexes held.indexes bound i (omega arith) in
        let high = value-held xs s.weighted_indexes held.indexes bound j (omega arith) in
        let order = prefix_mono xs i j h in omega arith;
  }

module _ (s : InstanceSet) (before after : List (ℕ × Instance)) (i : ℕ) (x : Instance)
    (held : Holds (before ++ ((i, x) ∷ after)) s)
    (bound : sum_weights (before ++ ((i, x) ∷ after)) < i64_mod) where
  slice-IsPlace :
      (selector : ℕ)
      → sum_weights before < selector
      → selector ≤ sum_weights before + x.weight
      → IsPlace (slice_of s) selector (length before)
  unfolding slice_of
  slice-IsPlace selector l h =
      let xs = before ++ ((i, x) ∷ after) in
      let count = count-held xs s.weighted_indexes held.indexes bound in
      let size = length-append before ((i, x) ∷ after) in
      let value = value-held xs s.weighted_indexes held.indexes bound in
      record {
        inside = omega arith;
        above =
            (let v = value (length before) (omega arith) in
              let p = prefix-at i x after before in omega arith);
        below = λ j small.
            let v = value j (omega arith) in
            let p = prefix-before i x after before j small in omega arith;
      }

select_weighted_instance_lem :
    (s : InstanceSet) (before after : List (ℕ × Instance)) (i : ℕ) (x : Instance) (selector : ℕ)
    → Holds (before ++ ((i, x) ∷ after)) s
    → sum_weights (before ++ ((i, x) ∷ after)) < i64_mod
    → sum_weights before < selector
    → selector ≤ sum_weights before + x.weight
    → select_weighted_instance s selector ≡ chosen i
unfolding select_weighted_instance select_weighted_rand_item
select_weighted_instance_lem s before after i x selector held bound l h =
    let found =
      binary_search_lem (slice_of s) selector (length before)
        (slice-IsMonotone s (before ++ ((i, x) ∷ after)) held bound)
        (slice-IsPlace s before after i x held bound selector l h) (omega arith) in
    rw found (
      ap (λ ws. chosen (get_or ws (length before) no_index).index) held.indexes
      ∙ ap chosen (index-at i x after 0 before))

select-first :
    (s : InstanceSet) (after : List (ℕ × Instance)) (i : ℕ) (x : Instance)
    → Holds ((i, x) ∷ after) s
    → select_weighted_instance s 0 ≡ chosen i
unfolding select_weighted_instance select_weighted_rand_item
select-first s after i x held =
    ap (choice_at s) (binary_search-zero (slice_of s))
    ∙ ap (λ ws. chosen (get_or ws 0 no_index).index) held.indexes

sum_weights-prefix :
    (before after : List (ℕ × Instance)) (i : ℕ) (x : Instance)
    → sum_weights before + x.weight ≤ sum_weights (before ++ ((i, x) ∷ after))
sum_weights-prefix before after i x =
    let at_place = prefix-at i x after before in
    let below = prefix-sum (before ++ ((i, x) ∷ after)) (length before) in omega arith

-- When the set that the load balancer takes holds some instances, of a total weight below 2^64, a
-- random number that is above the sum of the weights before an instance, and not above that sum
-- with its own weight, chooses this instance.
pub choose_instance_lem :
    (v : ClusterValue) (limited include_half_open : Bool) (before after : List (ℕ × Instance))
    (i : ℕ) (x : Instance) (selector : ℕ)
    → Holds (before ++ ((i, x) ∷ after)) (get_instances_set v limited include_half_open)
    → sum_weights (before ++ ((i, x) ∷ after)) < i64_mod
    → sum_weights before < selector
    → selector ≤ sum_weights before + x.weight
    → choose_instance v limited include_half_open selector ≡ chosen i
unfolding choose_instance
choose_instance_lem v limited include_half_open before after i x selector held bound l h =
    let s = get_instances_set v limited include_half_open in
    let total = held.total in
    let least = sum_weights-prefix before after i x in
    rw (test_false s.total_weight 0 (omega arith))
      (select_weighted_instance_lem s before after i x selector held bound l h)

-- When the set that the load balancer takes holds some instances, of a total weight above zero and
-- below 2^64, the random number zero chooses the first of them, whatever weight that one has.
pub zero_chooses_first :
    (v : ClusterValue) (limited include_half_open : Bool) (after : List (ℕ × Instance)) (i : ℕ)
    (x : Instance)
    → Holds ((i, x) ∷ after) (get_instances_set v limited include_half_open)
    → sum_weights ((i, x) ∷ after) < i64_mod
    → 0 < sum_weights ((i, x) ∷ after)
    → choose_instance v limited include_half_open 0 ≡ chosen i
unfolding choose_instance
zero_chooses_first v limited include_half_open after i x held bound positive =
    let s = get_instances_set v limited include_half_open in
    let total = held.total in
    rw (test_false s.total_weight 0 (omega arith)) (select-first s after i x held)
