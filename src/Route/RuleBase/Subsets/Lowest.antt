-- ===== src/Route/RuleBase/Subsets/Lowest.antt =====
-- The choice among the clusters of all destinations of a rule: the map by priority, and
-- selectCluster, plugin/servicerouter/rulebase/base.go.
use polaris_go.Base.{
  ℕ, ◌+◌, ◌-◌, ◌%◌, ◌≤◌, ◌<◌, ◌≡◌, ◌∙◌, refl, sym, ap, true, false, Option, none, some, List, [],
  ◌∷◌, ◌++◌, All, ◌==◌, ltb, leb, if◌then◌else◌, length, Bool-cases, Option-cases, inl, inr, arith,
}
use polaris_go.Base.Int.{u32_mod}
use mathlib.Core.List.{append_assoc, append-nil}
use polaris_go.Balance.Cluster.{Cluster}
use polaris_go.Route.RuleBase.Subsets.{
  WeightedSubset, PrioritySubsets, SubsetsMap, find, new_subsets, append_subset, add_subset,
  insert_priority, sort_priorities, priorities, head, priority_first, selected, select_cluster,
}
use polaris_go.Route.RuleBase.Subsets.Picks.{
  Weighted, sum_weights, pick, accumulate, subsets_of, sum_weights-append, accumulate-append,
  select_subset-pick,
}

-- The clusters of destinations, each with its priority and weight, put into the map in order.
abbrev pub add_each : List (ℕ × ℕ × Cluster) → SubsetsMap → SubsetsMap
add_each [] m = m
add_each ((p, w, c) ∷ ds) m = add_each ds (add_subset p w c m)

-- Those of one priority.
abbrev pub of_priority : ℕ → List (ℕ × ℕ × Cluster) → List Weighted
of_priority p [] = []
of_priority p ((q, w, c) ∷ ds) = if q == p then (w, c) ∷ of_priority p ds else of_priority p ds

abbrev stands : List Weighted → Option PrioritySubsets
stands [] = none
stands ((w, c) ∷ es) = some (subsets_of w c es)

abbrev pushed : Option PrioritySubsets → ℕ → Cluster → PrioritySubsets
pushed none w c = new_subsets w c
pushed (some s) w c = append_subset s w c

subsets_cong :
    (w : ℕ) (c : Cluster) (l l' : List WeightedSubset) (t t' : ℕ)
    → l ≡ l'
    → t ≡ t'
    → ◌≡◌ {A = PrioritySubsets}
        (record {
          single_subset = record { cluster = c; weight = w };
          subsets = l;
          total_weight = t;
        })
        (record {
          single_subset = record { cluster = c; weight = w };
          subsets = l';
          total_weight = t';
        })
subsets_cong w c l l' t t' p q = cc

last_weight :
    (es : List Weighted) (v : ℕ) (d : Cluster)
    → accumulate 0 es ++ (record { cluster = d; weight = sum_weights es + v } ∷ [])
      ≡ accumulate 0 (es ++ ((v, d) ∷ []))
last_weight es v d = ground (arith, accumulate-append 0 es v d)

append-subsets_of :
    (w : ℕ) (c : Cluster) (es : List Weighted) (v : ℕ) (d : Cluster)
    → w + sum_weights es + v < u32_mod
    → append_subset (subsets_of w c es) v d ≡ subsets_of w c (es ++ ((v, d) ∷ []))
unfolding append_subset
append-subsets_of w c [] v d h = ground arith
append-subsets_of w c ((u, e) ∷ es) v d h =
    let all = (w, c) ∷ (u, e) ∷ es in
    let exact : (w + sum_weights ((u, e) ∷ es) + v) % u32_mod ≡ sum_weights all + v = omega arith in
    let full : (length (accumulate 0 all) == 0) ≡ false = ground arith in
    let sums = sum_weights-append ((u, e) ∷ es) v d in
    rw (exact, full) (subsets_cong w c _ _ _ _ (last_weight all v d) (omega arith))

pushed-stands :
    (es : List Weighted) (v : ℕ) (d : Cluster)
    → sum_weights es + v < u32_mod
    → some (pushed (stands es) v d) ≡ stands (es ++ ((v, d) ∷ []))
pushed-stands [] v d h = unfold new_subsets in ground arith
pushed-stands ((w, c) ∷ es) v d h = ap some (append-subsets_of w c es v d h)

find-add :
    (p q v : ℕ) (d : Cluster) (m : SubsetsMap)
    → find p (add_subset q v d m) ≡ (if q == p then some (pushed (find p m) v d) else find p m)
unfolding add_subset
find-add p q v d [] = refl
find-add p q v d ((k, s) ∷ m) = ground (arith, find-add p q v d m)

find-each :
    (p : ℕ) (ds : List (ℕ × ℕ × Cluster)) (m : SubsetsMap) (es : List Weighted)
    → find p m ≡ stands es
    → sum_weights es + sum_weights (of_priority p ds) < u32_mod
    → find p (add_each ds m) ≡ stands (es ++ of_priority p ds)
find-each p [] m es f h = f ∙ ap stands (sym (append-nil es))
find-each p ((q, w, c) ∷ ds) m es f h = elim (Bool-cases (q == p)) [
  | inr e ↦ rw e (find-each p ds _ es (find-add p q w c m ∙ (rw e f)) (let h' = rw e at h in h'))
  | inl e ↦ rw e (
      let h' : sum_weights es + (w + sum_weights (of_priority p ds)) < u32_mod = rw e at h in
      let sums = sum_weights-append es w c in
      let here : find p (add_subset q w c m) ≡ stands (es ++ ((w, c) ∷ [])) =
        find-add p q w c m ∙ rw (e, f) (pushed-stands es w c (omega arith)) in
      find-each p ds _ (es ++ ((w, c) ∷ [])) here (omega arith)
      ∙ ap stands (append_assoc es ((w, c) ∷ []) (of_priority p ds)))
]

-- No priority of the map is below a bound.
abbrev NoneBelow : ℕ → SubsetsMap → Type 0
NoneBelow p [] = Unit
NoneBelow p ((q, s) ∷ m) = (p ≤ q) × NoneBelow p m

add-NoneBelow :
    (p q w : ℕ) (c : Cluster) (m : SubsetsMap)
    → p ≤ q
    → NoneBelow p m
    → NoneBelow p (add_subset q w c m)
unfolding add_subset
add-NoneBelow p q w c [] h n = (h, tt)
add-NoneBelow p q w c ((k, s) ∷ m) h n = elim (Bool-cases (k == q)) [
  | inl e ↦ rw e n
  | inr e ↦ rw e (n.0, add-NoneBelow p q w c m h n.1)
]

each-NoneBelow :
    (p : ℕ) (ds : List (ℕ × ℕ × Cluster)) (m : SubsetsMap)
    → All (λ d. p ≤ d.0) ds
    → NoneBelow p m
    → NoneBelow p (add_each ds m)
each-NoneBelow p [] m a n = n
each-NoneBelow p ((q, w, c) ∷ ds) m a n =
    each-NoneBelow p ds (add_subset q w c m) a.1 (add-NoneBelow p q w c m a.0 n)

-- The head of a sorted list: at least the bound, and the bound itself if that is on the list.
abbrev least_of : List ℕ → Option ℕ
least_of [] = none
least_of (k ∷ ks) = elim (least_of ks) [ none ↦ some k | some m ↦ some (if ltb m k then m else k) ]

head-insert :
    (k : ℕ) (ks : List ℕ)
    → head (insert_priority k ks)
      ≡ (elim (head ks) [ none ↦ some k | some m ↦ some (if ltb m k then m else k) ])
unfolding insert_priority
head-insert k [] = refl
head-insert k (m ∷ ks) = ground arith

head-sort : (ks : List ℕ) → head (sort_priorities ks) ≡ least_of ks
unfolding sort_priorities
head-sort [] = refl
head-sort (k ∷ ks) = head-insert k (sort_priorities ks) ∙ rw (head-sort ks) refl

least_of-ge :
    (p : ℕ) (m : SubsetsMap) (k : ℕ) → NoneBelow p m → least_of (priorities m) ≡ some k → p ≤ k
least_of-ge p [] k n h = cc
least_of-ge p ((q, s) ∷ m) k n h = elim (Option-cases (least_of (priorities m))) [
  | inl e ↦ (let h' = rw e at h in ground (arith, n.0, h'))
  | inr (j, e) ↦ (let h' = rw e at h in ground (arith, n.0, h', least_of-ge p m j n.1 e))
]

least_of-found :
    (p : ℕ) (m : SubsetsMap) (s : PrioritySubsets)
    → NoneBelow p m
    → find p m ≡ some s
    → least_of (priorities m) ≡ some p
least_of-found p [] s n f = cc
least_of-found p ((q, t) ∷ m) s n f = elim (Option-cases (least_of (priorities m))) [
  | inl e ↦ rw e (ground (arith, f, n.0, least_of-found p m s n.1, e))
  | inr (j, e) ↦ rw e (ground (arith, f, n.0, e, least_of-ge p m j n.1 e, least_of-found p m s n.1))
]

priority_first-found :
    (p : ℕ) (m : SubsetsMap) (s : PrioritySubsets)
    → NoneBelow p m
    → find p m ≡ some s
    → priority_first m ≡ some p
unfolding priority_first
priority_first-found p [] s n f = cc
priority_first-found p ((q, t) ∷ []) s n f = ground (arith, f)
priority_first-found p ((q, t) ∷ (k, u) ∷ m) s n f =
    let ks = priorities ((q, t) ∷ (k, u) ∷ m) in
    let more : ltb 1 (length ks) ≡ true = ground arith in
    rw more (head-sort ks ∙ least_of-found p ((q, t) ∷ (k, u) ∷ m) s n f)

-- The clusters of the destinations of a rule, put into the map in order, and a priority that none
-- is below and some have, of weights with a sum below 2^32: for any random number up to this sum,
-- the cluster that is selected is the one of this priority in whose share of the weights, in order,
-- the number falls. Zero falls in the first share.
pub select_cluster-pick :
    (intn : ℕ → ℕ) (p : ℕ) (ds : List (ℕ × ℕ × Cluster)) (w : ℕ) (c : Cluster) (es : List Weighted)
    → of_priority p ds ≡ (w, c) ∷ es
    → All (λ d. p ≤ d.0) ds
    → w + sum_weights es < u32_mod
    → intn (w + sum_weights es) ≤ w + sum_weights es
    → select_cluster intn (add_each ds [])
      ≡ selected (pick (intn (w + sum_weights es)) c ((w, c) ∷ es))
unfolding select_cluster
select_cluster-pick intn p ds w c es e a b h =
    let bound : 0 + sum_weights (of_priority p ds) < u32_mod = rw e (omega arith) in
    let here = find-each p ds [] [] refl bound ∙ ap stands e in
    let first =
      priority_first-found p (add_each ds []) (subsets_of w c es) (each-NoneBelow p ds [] a tt)
        here in
    rw (first, select_cluster, here) (select_subset-pick intn w c es h)

pick-last :
    (n : ℕ) (c : Cluster) (es : List Weighted) (d : Cluster)
    → 0 < n
    → n ≤ sum_weights es
    → pick n c (es ++ ((1, d) ∷ [])) ≡ pick n c es
pick-last n c [] d p h = absurd (omega arith)
pick-last n c ((w, c') ∷ es) d p h = elim (Bool-cases (leb n w)) [
  | inl e ↦ rw e refl
  | inr e ↦ rw e (pick-last (n - w) c' es d (ground (arith, e)) (ground (arith, e, h)))
]

pick-cons :
    (n w : ℕ) (c : Cluster) (es : List Weighted) (d : Cluster)
    → n ≤ w + sum_weights es
    → pick n c ((w, c) ∷ (es ++ ((1, d) ∷ []))) ≡ pick n c ((w, c) ∷ es)
pick-cons n w c es d h = elim (Bool-cases (leb n w)) [
  | inl e ↦ rw e refl
  | inr e ↦ rw e (pick-last (n - w) c es d (ground (arith, e)) (ground (arith, e, h)))
]

-- Of two clusters of the first priority or more, the last one is never selected if its weight is
-- one: whatever number below the sum of the weights is drawn, the choice is that among the others.
pub select_cluster-last :
    (intn : ℕ → ℕ) (p : ℕ) (ds : List (ℕ × ℕ × Cluster)) (w : ℕ) (c : Cluster) (es : List Weighted)
    (d : Cluster)
    → of_priority p ds ≡ (w, c) ∷ (es ++ ((1, d) ∷ []))
    → All (λ d. p ≤ d.0) ds
    → w + sum_weights es + 1 < u32_mod
    → intn (w + sum_weights es + 1) < w + sum_weights es + 1
    → select_cluster intn (add_each ds [])
      ≡ selected (pick (intn (w + sum_weights es + 1)) c ((w, c) ∷ es))
select_cluster-last intn p ds w c es d e a b h =
    let total : w + sum_weights (es ++ ((1, d) ∷ [])) ≡ w + sum_weights es + 1 =
      (let sums = sum_weights-append es 1 d in omega arith) in
    let n = intn (w + sum_weights es + 1) in
    let drawn = ap intn total in
    select_cluster-pick intn p ds w c (es ++ ((1, d) ∷ [])) e a (omega arith) (omega arith)
    ∙ (ap (λ m. selected (pick m c ((w, c) ∷ (es ++ ((1, d) ∷ []))))) drawn
        ∙ ap selected (pick-cons n w c es d (omega arith)))
