-- ===== src/Route/RuleBase/Subsets/Picks.antt =====
-- Which cluster is chosen among those of a rule: selectCluster,
-- plugin/servicerouter/rulebase/base.go, against a reference choice by priority and weight.
use polaris_go.Base.{
  ℕ, zero, suc, ◌+◌, ◌-◌, ◌≤◌, ◌<◌, ◌≡◌, ◌∙◌, refl, ap, Bool, true, false, List, [], ◌∷◌, ◌++◌,
  ◌==◌, leb, if◌then◌else◌, length, get_or, Bool-cases, inl, inr, arith,
}
use polaris_go.Balance.Cluster.{Cluster}
use polaris_go.Balance.Search.{
  IsMonotone, IsPlace, binary_search, binary_search_lem, binary_search-zero,
}
use polaris_go.Route.RuleBase.Subsets.{
  WeightedSubset, PrioritySubsets, slice_of_subsets, selected, subset_at, select_subset,
}

-- A cluster with its weight.
abbrev pub Weighted : Type 0
Weighted = ℕ × Cluster

abbrev pub sum_weights : List Weighted → ℕ
sum_weights [] = 0
sum_weights ((w, c) ∷ es) = w + sum_weights es

-- The reference: the cluster in whose share of the weights a number falls, and the last one for a
-- number above them all.
abbrev pub pick : ℕ → Cluster → List Weighted → Cluster
pick n c [] = c
pick n c ((w, c') ∷ es) = if leb n w then c' else pick (n - w) c' es

-- The subsets of a list of clusters, with their accumulated weights.
abbrev pub accumulate : ℕ → List Weighted → List WeightedSubset
accumulate t [] = []
accumulate t ((w, c) ∷ es) = record { cluster = c; weight = t + w } ∷ accumulate (t + w) es

abbrev pub is_nil : List Weighted → Bool
is_nil [] = true
is_nil (e ∷ es) = false

-- What stands for a list that is not empty.
abbrev pub subsets_of : ℕ → Cluster → List Weighted → PrioritySubsets
subsets_of w c es = record {
  single_subset = record { cluster = c; weight = w };
  subsets = if is_nil es then [] else accumulate 0 ((w, c) ∷ es);
  total_weight = w + sum_weights es;
}

pub accumulate-append :
    (t : ℕ) (es : List Weighted) (w : ℕ) (c : Cluster)
    → accumulate t (es ++ ((w, c) ∷ []))
      ≡ accumulate t es ++ (record { cluster = c; weight = t + sum_weights es + w } ∷ [])
accumulate-append t [] w c = ground arith
accumulate-append t ((v, d) ∷ es) w c = ground (arith, accumulate-append (t + v) es w c)

pub sum_weights-append :
    (es : List Weighted) (w : ℕ) (c : Cluster)
    → sum_weights (es ++ ((w, c) ∷ [])) ≡ sum_weights es + w
sum_weights-append [] w c = omega arith
sum_weights-append ((v, d) ∷ es) w c = omega (arith, sum_weights-append es w c)

-- The place of the cluster that is picked.
abbrev place : ℕ → List Weighted → ℕ
place n [] = 0
place n ((w, c) ∷ es) = if leb n w then 0 else suc (place (n - w) es)

module _ (d : WeightedSubset) where
  place-inside :
      (t n : ℕ) (es : List Weighted)
      → 0 < n
      → n ≤ sum_weights es
      → place n es < length (accumulate t es)
  place-inside t n [] p h = absurd (omega arith)
  place-inside t n ((w, c) ∷ es) p h = ground (arith, place-inside (t + w) (n - w) es)

  place-above :
      (t n : ℕ) (es : List Weighted)
      → 0 < n
      → n ≤ sum_weights es
      → t + n ≤ (get_or (accumulate t es) (place n es) d).weight
  place-above t n [] p h = absurd (omega arith)
  place-above t n ((w, c) ∷ es) p h = elim (Bool-cases (leb n w)) [
    | inl e ↦ rw e (ground (arith, e))
    | inr e ↦ rw e (
        let rest = place-above (t + w) (n - w) es (ground (arith, e)) (ground (arith, e)) in
        ground (arith, rest, e))
  ]

  place-below :
      (t n i : ℕ) (es : List Weighted)
      → 0 < n
      → n ≤ sum_weights es
      → i < place n es
      → (get_or (accumulate t es) i d).weight < t + n
  place-below t n i [] p h b = absurd (omega arith)
  place-below t n zero ((w, c) ∷ es) p h b = ground (arith, h, b)
  place-below t n (suc i) ((w, c) ∷ es) p h b = elim (Bool-cases (leb n w)) [
    | inl e ↦ absurd (let q = rw e at b in omega arith)
    | inr e ↦
        (let rest =
            place-below (t + w) (n - w) i es (ground (arith, e)) (ground (arith, e))
              (let q = rw e at b in omega arith) in
          ground (arith, rest, e))
  ]

  place-pick :
      (t n : ℕ) (c : Cluster) (es : List Weighted)
      → 0 < n
      → n ≤ sum_weights es
      → (get_or (accumulate t es) (place n es) d).cluster ≡ pick n c es
  place-pick t n c [] p h = absurd (omega arith)
  place-pick t n c ((w, c') ∷ es) p h = elim (Bool-cases (leb n w)) [
    | inl e ↦ rw e refl
    | inr e ↦ rw e (place-pick (t + w) (n - w) c' es (ground (arith, e)) (ground (arith, e)))
  ]

  least :
      (t i : ℕ) (es : List Weighted)
      → i < length (accumulate t es)
      → t ≤ (get_or (accumulate t es) i d).weight
  least t i [] h = absurd (omega arith)
  least t zero ((w, c) ∷ es) h = omega arith
  least t (suc i) ((w, c) ∷ es) h = omega (arith, least (t + w) i es (omega arith))

  accumulate_mono :
      (t i j : ℕ) (es : List Weighted)
      → i ≤ j
      → j < length (accumulate t es)
      → (get_or (accumulate t es) i d).weight ≤ (get_or (accumulate t es) j d).weight
  accumulate_mono t i j [] h b = absurd (omega arith)
  accumulate_mono t zero zero ((w, c) ∷ es) h b = omega arith
  accumulate_mono t zero (suc j) ((w, c) ∷ es) h b = least (t + w) j es (omega arith)
  accumulate_mono t (suc i) zero ((w, c) ∷ es) h b = absurd (omega arith)
  accumulate_mono t (suc i) (suc j) ((w, c) ∷ es) h b =
      accumulate_mono (t + w) i j es (omega arith) (omega arith)

-- The search among the subsets of two clusters or more.
module _ (w : ℕ) (c : Cluster) (e : Weighted) (es : List Weighted) where
  abbrev several : PrioritySubsets
  several = subsets_of w c (e ∷ es)

  several-IsMonotone : IsMonotone (slice_of_subsets several)
  unfolding slice_of_subsets
  several-IsMonotone = record {
    monotone =
        λ i j h inside. accumulate_mono several.single_subset 0 i j ((w, c) ∷ e ∷ es) h inside;
  }

  several-IsPlace :
      (n : ℕ)
      → 0 < n
      → n ≤ w + sum_weights (e ∷ es)
      → IsPlace (slice_of_subsets several) n (place n ((w, c) ∷ e ∷ es))
  unfolding slice_of_subsets
  several-IsPlace n p h =
      let all = (w, c) ∷ e ∷ es in
      let d = several.single_subset in
      record {
        inside = place-inside d 0 n all p h;
        above = (let q = place-above d 0 n all p h in omega arith);
        below = λ i b. (let q = place-below d 0 n i all p h b in omega arith);
      }

  search-pick :
      (n : ℕ)
      → n ≤ w + sum_weights (e ∷ es)
      → subset_at several (binary_search (slice_of_subsets several) n)
        ≡ selected (pick n c ((w, c) ∷ e ∷ es))
  search-pick zero h =
      ap (subset_at several) (binary_search-zero (slice_of_subsets several)) ∙ ground arith
  search-pick (suc m) h =
      let all = (w, c) ∷ e ∷ es in
      let found =
        binary_search_lem (slice_of_subsets several) (suc m) (place (suc m) all) several-IsMonotone
          (several-IsPlace (suc m) (omega arith) h) (omega arith) in
      ap (subset_at several) found
      ∙ ap selected (place-pick several.single_subset 0 (suc m) c all (omega arith) h)

-- The choice among subsets is the reference's.
pub select_subset-pick :
    (intn : ℕ → ℕ) (w : ℕ) (c : Cluster) (es : List Weighted)
    → intn (w + sum_weights es) ≤ w + sum_weights es
    → select_subset intn (subsets_of w c es)
      ≡ selected (pick (intn (w + sum_weights es)) c ((w, c) ∷ es))
unfolding select_subset
select_subset-pick intn w c [] h = ground (arith, h)
select_subset-pick intn w c (e ∷ es) h =
    let full : (length (subsets_of w c (e ∷ es)).subsets == 0) ≡ false = ground arith in
    rw full (search-pick w c e es (intn (w + sum_weights (e ∷ es))) h)
