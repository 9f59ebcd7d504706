-- ===== src/Route/RuleBase/Subsets/Kept.antt =====
-- That a cluster is selected out of those that were put into the map: selectCluster,
-- plugin/servicerouter/rulebase/base.go.
use polaris_go.Base.{
  ℕ, zero, suc, ◌≡◌, ◌==◌, Option, none, some, List, [], ◌∷◌, ◌++◌, All, length, get_or, Bool-cases,
  Option-cases, inl, inr,
}
use polaris_go.Balance.Cluster.{Cluster}
use polaris_go.Route.RuleBase.Subsets.{
  WeightedSubset, PrioritySubsets, SubsetsMap, find, new_subsets, append_subset, add_subset,
  priority_first, selected, subset_at, select_subset, select_cluster,
}

All-snoc :
    {A : Type 0} (P : A → Type 0) (xs : List A) (y : A) → All P xs → P y → All P (xs ++ (y ∷ []))
All-snoc P [] y a p = (p, tt)
All-snoc P (x ∷ xs) y a p = (a.0, All-snoc P xs y a.1 p)

All-get_or :
    {A : Type 0} (P : A → Type 0) (xs : List A) (i : ℕ) (d : A) → All P xs → P d → P (get_or xs i d)
All-get_or P [] i d a p = p
All-get_or P (x ∷ xs) zero d a p = a.0
All-get_or P (x ∷ xs) (suc i) d a p = All-get_or P xs i d a.1 p

-- What holds of all clusters of a map holds of the one that is selected.
module _ (Q : Cluster → Type 0) where
  abbrev pub AllOf : PrioritySubsets → Type 0
  AllOf s = Q s.single_subset.cluster × All (λ (w : WeightedSubset). Q w.cluster) s.subsets

  abbrev pub AllClusters : SubsetsMap → Type 0
  AllClusters [] = Unit
  AllClusters ((p, s) ∷ m) = AllOf s × AllClusters m

  append-AllOf :
      (s : PrioritySubsets) (w : ℕ) (c : Cluster) → AllOf s → Q c → AllOf (append_subset s w c)
  unfolding append_subset
  append-AllOf s w c a q = elim (Bool-cases (length s.subsets == 0)) [
    | inl e ↦ rw e (a.0, (a.0, (q, tt)))
    | inr e ↦ rw e (a.0, All-snoc _ s.subsets _ a.1 q)
  ]

  pub add-AllClusters :
      (p w : ℕ) (c : Cluster) (m : SubsetsMap)
      → AllClusters m
      → Q c
      → AllClusters (add_subset p w c m)
  unfolding add_subset new_subsets
  add-AllClusters p w c [] a q = ((q, tt), tt)
  add-AllClusters p w c ((k, s) ∷ m) a q = elim (Bool-cases (k == p)) [
    | inl e ↦ rw e (append-AllOf s w c a.0 q, a.1)
    | inr e ↦ rw e (a.0, add-AllClusters p w c m a.1 q)
  ]

  find-AllOf :
      (p : ℕ) (m : SubsetsMap) (s : PrioritySubsets) → AllClusters m → find p m ≡ some s → AllOf s
  find-AllOf p [] s a f = cc
  find-AllOf p ((k, t) ∷ m) s a f = elim (Bool-cases (k == p)) [
    | inl e ↦ (let q : t ≡ s = (let f' = rw e at f in cc) in rw (← q) a.0)
    | inr e ↦ find-AllOf p m s a.1 (rw e at f)
  ]

  subset_at-AllOf :
      (s : PrioritySubsets) (o : Option ℕ) (c : Cluster)
      → AllOf s
      → subset_at s o ≡ selected c
      → Q c
  subset_at-AllOf s none c a h = cc
  subset_at-AllOf s (some i) c a h =
      let q : (get_or s.subsets i s.single_subset).cluster ≡ c = cc in
      rw (← q)
        (All-get_or (λ (w : WeightedSubset). Q w.cluster) s.subsets i s.single_subset a.1 a.0)

  select_subset-AllOf :
      (intn : ℕ → ℕ) (s : PrioritySubsets) (c : Cluster)
      → AllOf s
      → select_subset intn s ≡ selected c
      → Q c
  unfolding select_subset
  select_subset-AllOf intn s c a h = elim (Bool-cases (length s.subsets == 0)) [
    | inl e ↦ (let q : s.single_subset.cluster ≡ c = (let h' = rw e at h in cc) in rw (← q) a.0)
    | inr e ↦ subset_at-AllOf s _ c a (rw e at h)
  ]

  pub select_cluster-AllClusters :
      (intn : ℕ → ℕ) (m : SubsetsMap) (c : Cluster)
      → AllClusters m
      → select_cluster intn m ≡ selected c
      → Q c
  unfolding select_cluster
  select_cluster-AllClusters intn m c a h = elim (Option-cases (priority_first m)) [
    | inl e ↦ (let h' = rw (e, select_cluster) at h in cc)
    | inr (p, e) ↦ elim (Option-cases (find p m)) [
      | inl f ↦ (let h' = rw (e, select_cluster, f) at h in cc)
      | inr (s, f) ↦
          select_subset-AllOf intn s c (find-AllOf p m s a f) (rw (e, select_cluster, f) at h)
    ]
  ]
