-- ===== src/Route/DstMeta/Exact.antt =====
-- What the router by metadata hands out, against the metadata that were asked for:
-- plugin/servicerouter/dstmeta/router.go.
use polaris_go.Base.{
  ◌≡◌, ◌↔◌, refl, sym, ap, ◌∙◌, Bool, true, false, Option, none, some, List, [], ◌∷◌, ◌++◌, ltb,
  length, Bool-cases, inl, inr, arith,
}
use polaris_go.Base.Text.{Str, str_eq}
use polaris_go.Balance.Cluster.{
  StrMap, Instance, Cluster, lookup, match_metadata, get_instances_set,
}
use polaris_go.Balance.Cluster.Metadata.{new_cluster, add_metadata, reset}
use polaris_go.Balance.Cluster.Matching.{accepted, accepted_cong, Accepts, str_eq→≡}
use polaris_go.Balance.Cluster.Added.{
  named, paired, Means, rule_add-Means, reset-Means, new_cluster-Means, reload-Means, moved-Means,
  Means-match,
}
use polaris_go.Balance.Cluster.Values.{get_cluster_value}
use mathlib.Core.List.{append-nil}
use polaris_go.Route.{RouteInfo, Answer, failed, routed, panicked, count, RouteResult, Service}
use polaris_go.Route.DstMeta.{add_all, dest_metadata, get_target_cluster, get_filtered_instances}

add_all-Means : (c : Cluster) (m ps : StrMap) → Means c ps → Means (add_all c m) (m ++ ps)
unfolding add_all add_metadata
add_all-Means c [] ps h = h
add_all-Means c ((k, v) ∷ m) ps h =
    moved-Means _ m ps k v
      (add_all-Means (add_metadata c k v).0 m ((k, v) ∷ ps) (rule_add-Means c k v _ ps h))

longer : {A : Type 0} (a : A) (xs : List A) → ltb 0 (length (a ∷ xs)) ≡ true
longer a xs = ground arith

target-Means :
    (b : Bool) (within : Cluster) (m ps : StrMap)
    → Means within ps
    → Means (get_target_cluster b within m) (m ++ ps)
unfolding get_target_cluster
target-Means b within [] ps h = new_cluster-Means b within ps h
target-Means b within (p ∷ m) ps h = rw (longer p m) (
    reload-Means _ _
      (add_all-Means (new_cluster b within) (p ∷ m) ps (new_cluster-Means b within ps h)))

-- When the cluster in stands for a list of pairs, as a new one does for none: the cluster made for
-- metadata accepts an instance exactly if, at every key of the metadata or of these pairs, the
-- instance has one of the values that they give this key.
pub target_cluster_lem :
    (b : Bool) (within : Cluster) (m ps : StrMap) (x : Instance)
    → Means within ps
    → (match_metadata (get_target_cluster b within m) x ≡ true)
      ↔ Accepts (named (m ++ ps)) (paired (m ++ ps)) x.metadata
target_cluster_lem b within m ps x h = Means-match _ (m ++ ps) x (target-Means b within m ps h)

-- Each key once.
abbrev pub IsMap : StrMap → Type 0
IsMap [] = Unit
IsMap ((k, v) ∷ m) = (named m k ≡ false) × IsMap m

lookup-named : (m : StrMap) (k v : Str) → lookup m k ≡ some v → named m k ≡ true
lookup-named [] k v h = cc
lookup-named ((k', v') ∷ m) k v h = elim (Bool-cases (str_eq k' k)) [
  | inl e ↦ rw e refl
  | inr e ↦ rw e (lookup-named m k v (sym (rw e refl) ∙ h))
]

paired-named : (m : StrMap) (k w : Str) → named m k ≡ false → paired m k w ≡ false
paired-named [] k w h = refl
paired-named ((k', v') ∷ m) k w h = ground (arith, h, paired-named m k w)

-- In a map a key is paired with its value only.
paired-lookup :
    (m : StrMap) (k v w : Str) → IsMap m → lookup m k ≡ some v → paired m k w ≡ true → w ≡ v
paired-lookup [] k v w d h p = cc
paired-lookup ((k', v') ∷ m) k v w d h p = elim (Bool-cases (str_eq k' k)) [
  | inl e ↦
      (let e' = str_eq→≡ k' k e in
        let n = paired-named m k w (sym (ap (named m) e') ∙ d.0) in
        let q = str_eq→≡ v' w (ground (arith, p, n)) in
        let r : some v' ≡ some v = sym (rw e refl) ∙ h in cc)
  | inr e ↦ paired-lookup m k v w d.1 (sym (rw e refl) ∙ h) (ground (arith, p, e))
]

accepted_value :
    (o : Option Str) (m : StrMap) (k v : Str)
    → IsMap m
    → lookup m k ≡ some v
    → accepted o (paired m k) ≡ true
    → o ≡ some v
accepted_value none m k v d h a = cc
accepted_value (some w) m k v d h a = ap some (paired-lookup m k v w d h a)

-- The cluster of an answer, or another one.
abbrev cluster_of : Cluster → Answer → Cluster
cluster_of c (failed e) = c
cluster_of c (routed t) = t.output_cluster.0
cluster_of c panicked = c

-- Computing its value leaves what a cluster accepts.
value-match :
    (xs : List Instance) (c : Cluster) (x : Instance)
    → match_metadata (get_cluster_value xs c).0 x ≡ match_metadata c x
unfolding get_cluster_value match_metadata
value-match xs c x = refl

answer-match :
    (b : Bool) (r : RouteInfo) (s : Service) (within : Cluster) (owner : List Instance)
    (x : Instance)
    → r.enable_fail_over_default_meta ≡ false
    → let target = get_target_cluster b within (dest_metadata r) in
      match_metadata (cluster_of target (get_filtered_instances b r s (within, owner)).2) x
      ≡ match_metadata target x
unfolding get_filtered_instances
answer-match b r s within owner x f =
    let target = get_target_cluster b within (dest_metadata r) in
    let set = get_instances_set (get_cluster_value s.instances target).1 true true in
    elim (Bool-cases (ltb 0 (length (dest_metadata r)))) [
      | inr e ↦ rw e refl
      | inl e ↦ elim (Bool-cases (ltb 0 (count set))) [
        | inl g ↦ rw (e, g) (value-match s.instances target x)
        | inr g ↦ rw (e, g, f) refl
      ]
    ]

-- Without a fallback, when the cluster in has no metadata and the metadata of the destination name
-- each key once: if the router answers a cluster, every instance that this cluster accepts has each
-- pair of them.
pub routed_lem :
    (b b' : Bool) (r : RouteInfo) (s : Service) (owner : List Instance) (t : RouteResult)
    (k v : Str) (x : Instance)
    → IsMap (dest_metadata r)
    → r.enable_fail_over_default_meta ≡ false
    → (get_filtered_instances b r s (reset b', owner)).2 ≡ routed t
    → lookup (dest_metadata r) k ≡ some v
    → match_metadata t.output_cluster.0 x ≡ true
    → lookup x.metadata k ≡ some v
routed_lem b b' r s owner t k v x d f e h m =
    let target = get_target_cluster b (reset b') (dest_metadata r) in
    let q = answer-match b r s (reset b') owner x f in
    let matched = sym q ∙ (ap (λ a. match_metadata (cluster_of target a) x) e ∙ m) in
    let accepts =
      (target_cluster_lem b (reset b') (dest_metadata r) [] x (reset-Means b')).0 matched in
    accepted_value (lookup x.metadata k) (dest_metadata r) k v d h (
      sym (
        accepted_cong (lookup x.metadata k) _ _
          (λ w. ap (λ m. paired m k w) (append-nil (dest_metadata r))))
      ∙ accepts k (
          ap (λ m. named m k) (append-nil (dest_metadata r))
          ∙ lookup-named (dest_metadata r) k v h))
