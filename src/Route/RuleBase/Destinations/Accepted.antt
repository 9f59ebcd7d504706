-- ===== src/Route/RuleBase/Destinations/Accepted.antt =====
-- That the cluster of a destination accepts only instances that meet the conditions of the
-- destination: matchDstMetadata, plugin/servicerouter/rulebase/base.go.
use polaris_go.Base.{
  ◌≡◌, ◌≢◌, ◌⊎◌, ◌∙◌, refl, sym, ap, inl, inr, ◌==◌, ◌&&◌, ◌||◌, Bool, true, false, not, none, some,
  List, [], ◌∷◌, All, length, Bool-cases, Option-cases, arith,
}
use polaris_go.Base.Text.{Str, str_eq, str_eq_refl}
use polaris_go.Balance.Cluster.{
  StrMap, Metadata, Location, Instance, Cluster, lookup, match_location,
}
use polaris_go.Balance.Cluster.Metadata.{rule_add_metadata, build_composed_value}
use polaris_go.Balance.Cluster.Service.{MetaDataSet, put, load, collect_unequal}
use polaris_go.Route.Traffic.{Finder}
use polaris_go.Route.RuleBase.Destinations.{
  is_match, Narrowed, add_matching, add_values, validate_regex, validate_value, narrow_exact,
  narrow_regex, narrow_unequal,
}
use polaris_go.Route.RuleBase.Destinations.Passing.{Grown, IsSome, Extended, Grown-by}

-- A key that no value is added at.
ungrown : {P : Str → Type 0} {key : Str} (c : Cluster) → Grown P key c c
ungrown c = record { values = []; passing = tt; means = λ ps m. m }

-- The values with a match.
add_matching-Grown :
    (find : Finder) (key : Str) (vs : StrMap) (c : Cluster) (changed has : Bool)
    → (g : Grown (λ v. is_match (find v) ≡ true) key c (add_matching find key vs c changed has).0)
      × ((add_matching find key vs c changed has).2 ≡ true → (has ≡ true) ⊎ IsSome g.values)
unfolding add_matching
add_matching-Grown find key [] c changed has = (ungrown c, λ h. inl h)
add_matching-Grown find key ((v, d) ∷ vs) c changed has = elim (Bool-cases (is_match (find v))) [
  | inr e ↦ rw e (add_matching-Grown find key vs c changed has)
  | inl e ↦ rw e (
      let rest =
        add_matching-Grown find key vs (rule_add_metadata c key v d).0
          (changed || (rule_add_metadata c key v d).1) true in
      let grown = Grown-by v d e rest.0 in (grown.0, λ h. inr grown.1))
]

add_values-Grown :
    (P : Str → Type 0) (key : Str) (vs : StrMap) (c : Cluster)
    → All (λ e. P e.0) vs
    → Grown P key c (add_values key vs c)
unfolding add_values
add_values-Grown P key [] c p = ungrown c
add_values-Grown P key ((v, d) ∷ vs) c p =
    (Grown-by v d p.0 (add_values-Grown P key vs (rule_add_metadata c key v d).0 p.1)).0

same_cluster :
    (c c' : Cluster) (b b' : Bool) → ◌≡◌ {A = Narrowed} (some (c, b)) (some (c', b')) → c ≡ c'
same_cluster c c' b b' h = cc

IsSome-value : (ws : List Str) → (false ≡ true) ⊎ IsSome ws → IsSome ws
IsSome-value ws (inl e) = cc
IsSome-value ws (inr n) = n

pub narrow_regex-Extended :
    (find : Finder) (inherited : Metadata) (key : Str) (vs : StrMap) (c c' : Cluster)
    (changed changed' : Bool)
    → narrow_regex (some find) inherited key vs c changed ≡ some (c', changed')
    → Extended (λ v. is_match (find v) ≡ true) key c c'
unfolding narrow_regex
narrow_regex-Extended find inherited key vs c c' changed changed' h =
    elim (Bool-cases (validate_regex key inherited find)) [
      | inr e ↦ (let q = rw e at h in cc)
      | inl e ↦ elim (Bool-cases (add_matching find key vs c changed false).2) [
        | inr f ↦ (let q = rw (e, f) at h in cc)
        | inl f ↦
            (let q = same_cluster _ c' _ changed' (rw (e, f) at h) in
              let (g, n) = add_matching-Grown find key vs c changed false in
              rw (← q) (g, IsSome-value _ (n f)))
      ]
    ]

pub narrow_exact-Extended :
    (inherited : Metadata) (key value : Str) (vs : StrMap) (c c' : Cluster)
    (changed changed' : Bool)
    → narrow_exact inherited key value vs c changed ≡ some (c', changed')
    → Extended (λ v. v ≡ value) key c c'
unfolding narrow_exact
narrow_exact-Extended inherited key value vs c c' changed changed' h =
    elim (Bool-cases (validate_value key value inherited)) [
      | inr e ↦ (let q = rw e at h in cc)
      | inl e ↦ elim (Option-cases (lookup vs value)) [
        | inl n ↦ (let q = rw (e, n) at h in cc)
        | inr (d, l) ↦
            (let q = same_cluster _ c' _ changed' (rw (e, l) at h) in
              rw (← q) (Grown-by value d refl (ungrown _)))
      ]
    ]

pub narrow_unequal-Extended :
    (P : Str → Type 0) (key : Str) (vs : StrMap) (c c' : Cluster) (changed' : Bool)
    → All (λ e. P e.0) vs
    → narrow_unequal key vs c ≡ some (c', changed')
    → Extended P key c c'
unfolding narrow_unequal
narrow_unequal-Extended P key [] c c' changed' p h = cc
narrow_unequal-Extended P key ((v, d) ∷ vs) c c' changed' p h =
    let e : (length ((v, d) ∷ vs) == 0) ≡ false = ground arith in
    let q = same_cluster (add_values key ((v, d) ∷ vs) c) c' true changed' (rw e at h) in
    rw (← q) (unfold add_values in Grown-by v d p.0 (add_values-Grown P key vs _ p.1))

differs : (v value : Str) → str_eq v value ≡ false → v ≢ value
differs v value s e = let q = sym (ap (λ t. str_eq t value) e) ∙ s in cc (str_eq_refl value)

-- The values of other instances: none of them is the one that is refused.
abbrev pub AllOther : Str → StrMap → Type 0
AllOther value vs = All (λ e. e.0 ≢ value) vs

put-AllOther :
    (value v d : Str) (vs : StrMap) → v ≢ value → AllOther value vs → AllOther value (put vs v d)
put-AllOther value v d [] n p = (n, tt)
put-AllOther value v d ((k, w) ∷ vs) n p = elim (Bool-cases (str_eq k v)) [
  | inl e ↦ rw e (n, p.1)
  | inr e ↦ rw e (p.0, put-AllOther value v d vs n p.1)
]

pub collect-AllOther :
    (l : Location) (key value : Str) (xs : List Instance) (acc : StrMap)
    → AllOther value acc
    → AllOther value (collect_unequal l key value xs acc)
unfolding collect_unequal
collect-AllOther l key value [] acc p = p
collect-AllOther l key value (x ∷ xs) acc p = elim (Bool-cases (match_location x l)) [
  | inr e ↦ rw e (collect-AllOther l key value xs acc p)
  | inl e ↦ elim (Bool-cases (x.is_isolated || x.weight == 0 || not x.is_healthy)) [
    | inl f ↦ rw (e, f) (collect-AllOther l key value xs acc p)
    | inr f ↦ elim (Bool-cases (length x.metadata == 0)) [
      | inl g ↦ rw (e, f, g) (collect-AllOther l key value xs acc p)
      | inr g ↦ elim (Option-cases (lookup x.metadata key)) [
        | inl n ↦ rw (e, f, g, n) (collect-AllOther l key value xs acc p)
        | inr (v, n) ↦ elim (Bool-cases (str_eq v value)) [
          | inl s ↦ rw (e, f, g, n, s) (collect-AllOther l key value xs acc p)
          | inr s ↦
              rw (e, f, g, n, s)
                (collect-AllOther l key value xs _
                  (put-AllOther value v (build_composed_value key v) acc (differs v value s) p))
        ]
      ]
    ]
  ]
]

-- No values are kept yet for the instances with another value of this key than one asked for.
abbrev pub IsUnasked : MetaDataSet → Str → Type 0
IsUnasked [] key = Unit
IsUnasked ((k, vs) ∷ ms) key =
    ((str_eq k.meta_key key && k.key_type == 1) ≡ false) × IsUnasked ms key

pub unasked-load :
    (ms : MetaDataSet) (l : Location) (key : Str)
    → IsUnasked ms key
    → load ms (record { location = l; meta_key = key; key_type = 1 }) ≡ none
unasked-load [] l key u = refl
unasked-load ((k, vs) ∷ ms) l key u = ground (arith, u.0, unasked-load ms l key u.1)
