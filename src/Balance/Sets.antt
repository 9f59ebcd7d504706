-- ===== src/Balance/Sets.antt =====
-- What the loop of the cluster builders of pkg/model/cluster.go leaves in each of the five sets of
-- a cluster value: the instances that the set is for, with their accumulated weights.
use mathlib.Core.Path.{subst}
use polaris_go.Base.{
  ℕ, ◌+◌, ◌%◌, ◌<◌, ◌≡◌, refl, sym, ap, ◌∙◌, Bool, true, false, not, ◌&&◌, List, [], ◌∷◌, ◌++◌, max,
  ◌==◌, ltb, if◌then◌else◌, Bool-cases, inl, inr, arith,
}
use polaris_go.Base.Int.{i64_mod}
use polaris_go.Balance.Cluster.{
  Location, Instance, WeightedIndex, InstanceSet, new_instance_set, add_instance, ClusterValue,
  new_cluster_value, is_open, is_not_close, add_to_value, match_location, build_from,
}
use mathlib.Core.List.{append_assoc, append-nil}

-- The accumulated weights of indexed instances, from a sum on.
abbrev pub accumulate : ℕ → List (ℕ × Instance) → List WeightedIndex
accumulate total [] = []
accumulate total ((i, x) ∷ xs) =
    let total' = (total + x.weight) % i64_mod in
    record { index = i; accumulate_weight = total' } ∷ accumulate total' xs

abbrev pub sum_weights : List (ℕ × Instance) → ℕ
sum_weights [] = 0
sum_weights ((i, x) ∷ xs) = x.weight + sum_weights xs

abbrev pub largest : ℕ → List (ℕ × Instance) → ℕ
largest m [] = m
largest m ((i, x) ∷ xs) = largest (max m x.weight) xs

-- A set holds exactly these instances, in this order.
pub record Holds (xs : List (ℕ × Instance)) (s : InstanceSet) : Type 0 where
  pub indexes : s.weighted_indexes ≡ accumulate 0 xs
  pub total : s.total_weight ≡ sum_weights xs % i64_mod
  pub heaviest : s.max_weight ≡ largest 0 xs

-- The instances of a list that pass a test, with their indexes.
abbrev pub choose_from : (Instance → Bool) → ℕ → List Instance → List (ℕ × Instance)
choose_from p i [] = []
choose_from p i (x ∷ xs) =
    if p x then (i, x) ∷ choose_from p (i + 1) xs else choose_from p (i + 1) xs

-- What each set is for.
abbrev pub is_selectable : Instance → Bool
is_selectable x = not x.is_isolated && not (x.weight == 0)

abbrev pub is_usable : Instance → Bool
is_usable x = is_selectable x && x.is_healthy

abbrev pub is_available : Instance → Bool
is_available x = is_usable x && not (is_open x.circuit_breaker_status)

abbrev pub is_normal : Instance → Bool
is_normal x = is_usable x && not (is_not_close x.circuit_breaker_status)

-- What the loop does to one set.
add_chosen : InstanceSet → List (ℕ × Instance) → InstanceSet
add_chosen s [] = s
add_chosen s ((i, x) ∷ xs) = add_chosen (add_instance s i x) xs

record Adds (s : InstanceSet) (xs : List (ℕ × Instance)) (s' : InstanceSet) : Type 0 where
  indexes : s'.weighted_indexes ≡ s.weighted_indexes ++ accumulate s.total_weight xs
  total : s'.total_weight % i64_mod ≡ (s.total_weight + sum_weights xs) % i64_mod
  small : s'.total_weight < i64_mod
  heaviest : s'.max_weight ≡ largest s.max_weight xs

max_test : (m n : ℕ) → (if ltb m n then n else m) ≡ max m n
max_test m n = ground arith

add_chosen-Adds :
    (s : InstanceSet) (xs : List (ℕ × Instance))
    → s.total_weight < i64_mod
    → Adds s xs (add_chosen s xs)
unfolding add_chosen add_instance
add_chosen-Adds s [] small = record {
  indexes = sym (append-nil s.weighted_indexes);
  total = omega arith;
  small = small;
  heaviest = refl;
}
add_chosen-Adds s ((i, x) ∷ xs) small =
    let s' = add_instance s i x in
    let rest = add_chosen-Adds s' xs (omega arith) in
    record {
      indexes = rest.indexes ∙ append_assoc s.weighted_indexes _ _;
      total = (let t = rest.total in omega arith);
      small = rest.small;
      heaviest = rest.heaviest ∙ ap (λ m. largest m xs) (max_test s.max_weight x.weight);
    }

add_chosen-Holds : (xs : List (ℕ × Instance)) → Holds xs (add_chosen new_instance_set xs)
add_chosen-Holds xs =
    let a = add_chosen-Adds new_instance_set xs (omega arith) in
    record {
      indexes = a.indexes;
      total = (let t = a.total in let b = a.small in omega arith);
      heaviest = a.heaviest;
    }

-- Each set of a value, and what it is after one more instance, if that is taken.
record Extended (taken : Bool) (v : ClusterValue) (i : ℕ) (x : Instance) (v' : ClusterValue)
    : Type 0 where
  all_ones :
      v'.all_instances ≡ (if taken then add_instance v.all_instances i x else v.all_instances)
  selectable : v'.selectable_instances ≡ (
      if taken && is_selectable x
      then add_instance v.selectable_instances i x
      else v.selectable_instances)
  usable : v'.selectable_instances_without_unhealthy ≡ (
      if taken && is_usable x
      then add_instance v.selectable_instances_without_unhealthy i x
      else v.selectable_instances_without_unhealthy)
  available : v'.available_instances ≡ (
      if taken && is_available x
      then add_instance v.available_instances i x
      else v.available_instances)
  normal :
      v'.healthy_instances
      ≡ (if taken && is_normal x then add_instance v.healthy_instances i x else v.healthy_instances)

taken-Extended :
    (taken : Bool) (v : ClusterValue) (i : ℕ) (x : Instance)
    → Extended taken v i x (if taken then add_to_value v i x else v)
unfolding add_to_value
taken-Extended true v i x = ground arith
taken-Extended false v i x = record {
  all_ones = refl;
  selectable = refl;
  usable = refl;
  available = refl;
  normal = refl;
}

-- The tests that the loop makes first.
abbrev pub is_member : (Instance → Bool) → Location → Instance → Bool
is_member matches location x = matches x && match_location x location

-- The sets after the loop, by what they are for.
record Built (matches : Instance → Bool) (location : Location) (v : ClusterValue) (i : ℕ)
    (xs : List Instance) (v' : ClusterValue) : Type 0 where
  all_ones :
      v'.all_instances
      ≡ add_chosen v.all_instances (choose_from (λ x. is_member matches location x) i xs)
  selectable :
      v'.selectable_instances
      ≡ add_chosen v.selectable_instances
          (choose_from (λ x. is_member matches location x && is_selectable x) i xs)
  usable :
      v'.selectable_instances_without_unhealthy
      ≡ add_chosen v.selectable_instances_without_unhealthy
          (choose_from (λ x. is_member matches location x && is_usable x) i xs)
  available :
      v'.available_instances
      ≡ add_chosen v.available_instances
          (choose_from (λ x. is_member matches location x && is_available x) i xs)
  normal :
      v'.healthy_instances
      ≡ add_chosen v.healthy_instances
          (choose_from (λ x. is_member matches location x && is_normal x) i xs)

-- One instance more at the front of those chosen.
add_one :
    (s s' : InstanceSet) (p : Bool) (i : ℕ) (x : Instance) (rest : List (ℕ × Instance))
    → s' ≡ (if p then add_instance s i x else s)
    → add_chosen s' rest ≡ add_chosen s (if p then (i, x) ∷ rest else rest)
unfolding add_chosen
add_one s s' true i x rest e = ap (λ t. add_chosen t rest) e
add_one s s' false i x rest e = ap (λ t. add_chosen t rest) e

build_from-step :
    (matches : Instance → Bool) (location : Location) (v : ClusterValue) (i : ℕ) (x : Instance)
    (xs : List Instance)
    → build_from matches location v i (x ∷ xs)
      ≡ build_from matches location
          (if is_member matches location x then add_to_value v i x else v)
          (i + 1)
          xs
unfolding build_from
build_from-step matches location v i x xs = elim (Bool-cases (matches x)) [
  | inr e ↦ rw e refl
  | inl e ↦ elim (Bool-cases (match_location x location)) [
    | inl f ↦ rw (e, f) refl
    | inr f ↦ rw (e, f) refl
  ]
]

build_from-Built :
    (matches : Instance → Bool) (location : Location) (v : ClusterValue) (i : ℕ)
    (xs : List Instance)
    → Built matches location v i xs (build_from matches location v i xs)
build_from-Built matches location v i [] =
    unfold build_from add_chosen in
    record { all_ones = refl; selectable = refl; usable = refl; available = refl; normal = refl }
build_from-Built matches location v i (x ∷ xs) =
    let taken = is_member matches location x in
    let v' = if taken then add_to_value v i x else v in
    let e = taken-Extended taken v i x in
    let rest = build_from-Built matches location v' (i + 1) xs in
    subst (Built matches location v i (x ∷ xs)) (sym (build_from-step matches location v i x xs))
      (record {
        all_ones = rest.all_ones ∙ add_one _ _ taken i x _ e.all_ones;
        selectable = rest.selectable ∙ add_one _ _ (taken && is_selectable x) i x _ e.selectable;
        usable = rest.usable ∙ add_one _ _ (taken && is_usable x) i x _ e.usable;
        available = rest.available ∙ add_one _ _ (taken && is_available x) i x _ e.available;
        normal = rest.normal ∙ add_one _ _ (taken && is_normal x) i x _ e.normal;
      })

-- Whatever the test of the cluster and its location, the loop over the instances leaves in each set
-- exactly the instances that pass both and that the set is for, in order, with their indexes and
-- accumulated weights: all of them; those not isolated and of a weight other than zero; of these
-- the healthy ones; of those the ones whose breaker is not open; and those whose breaker is closed
-- or that have none.
pub build_from_lem :
    (matches : Instance → Bool) (location : Location) (xs : List Instance)
    → let v = build_from matches location new_cluster_value 0 xs in
      let chosen =
        λ (p : Instance → Bool). choose_from (λ x. is_member matches location x && p x) 0 xs in
      Holds (choose_from (λ x. is_member matches location x) 0 xs) v.all_instances
      × Holds (chosen is_selectable) v.selectable_instances
      × Holds (chosen is_usable) v.selectable_instances_without_unhealthy
      × Holds (chosen is_available) v.available_instances
      × Holds (chosen is_normal) v.healthy_instances
build_from_lem matches location xs =
    let b = build_from-Built matches location new_cluster_value 0 xs in
    (
      subst (Holds _) (sym b.all_ones) (add_chosen-Holds _),
      subst (Holds _) (sym b.selectable) (add_chosen-Holds _),
      subst (Holds _) (sym b.usable) (add_chosen-Holds _),
      subst (Holds _) (sym b.available) (add_chosen-Holds _),
      subst (Holds _) (sym b.normal) (add_chosen-Holds _),
    )
