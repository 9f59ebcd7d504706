-- ===== src/Route/RuleBase/Destinations/Passing.antt =====
-- What the cluster of a destination accepts, against the conditions of the destination:
-- matchDstMetadata, plugin/servicerouter/rulebase/base.go.
use polaris_go.Base.{
  ◌≡◌, ◌∙◌, refl, sym, ap, inl, inr, Bool, true, false, Option, none, some, List, [], ◌∷◌, All,
  Bool-cases, arith,
}
use polaris_go.Base.Text.{Str, str_eq, str_eq_refl}
use polaris_go.Balance.Cluster.{StrMap, Instance, Cluster, lookup, match_metadata}
use polaris_go.Balance.Cluster.Matching.{str_eq→≡, accepted, accepted_cong, Accepts}
use polaris_go.Balance.Cluster.Metadata.{rule_add_metadata}
use polaris_go.Balance.Cluster.Added.{named, paired, Means, rule_add-Means, Means-match}

-- The values added at one key.
abbrev pub spread : Str → List Str → StrMap → StrMap
spread key [] ps = ps
spread key (w ∷ ws) ps = spread key ws ((key, w) ∷ ps)

spread-named :
    (key : Str) (ws : List Str) (ps : StrMap) (j : Str)
    → named ps j ≡ true
    → named (spread key ws ps) j ≡ true
spread-named key [] ps j h = h
spread-named key (w ∷ ws) ps j h = spread-named key ws ((key, w) ∷ ps) j (ground (arith, h))

spread-named_self :
    (key w : Str) (ws : List Str) (ps : StrMap) → named (spread key (w ∷ ws) ps) key ≡ true
spread-named_self key w ws ps = spread-named key ws ((key, w) ∷ ps) key (rw (str_eq_refl key) refl)

pub spread-named_other :
    (key : Str) (ws : List Str) (ps : StrMap) (j : Str)
    → str_eq key j ≡ false
    → named (spread key ws ps) j ≡ named ps j
spread-named_other key [] ps j e = refl
spread-named_other key (w ∷ ws) ps j e = spread-named_other key ws ((key, w) ∷ ps) j e ∙ rw e refl

spread-paired_other :
    (key : Str) (ws : List Str) (ps : StrMap) (j v : Str)
    → str_eq key j ≡ false
    → paired (spread key ws ps) j v ≡ paired ps j v
spread-paired_other key [] ps j v e = refl
spread-paired_other key (w ∷ ws) ps j v e =
    spread-paired_other key ws ((key, w) ∷ ps) j v e ∙ rw e refl

module _ (P : Str → Type 0) (key : Str) where
  paired-cons :
      (w : Str) (ps : StrMap)
      → P w
      → ((v : Str) → paired ps key v ≡ true → P v)
      → (v : Str) → paired ((key, w) ∷ ps) key v ≡ true
      → P v
  paired-cons w ps p all v h = elim (Bool-cases (str_eq w v)) [
    | inl e ↦ rw (← str_eq→≡ w v e) p
    | inr e ↦ all v (ground (arith, h, e))
  ]

  spread-paired_self :
      (ws : List Str) (ps : StrMap)
      → All P ws
      → ((v : Str) → paired ps key v ≡ true → P v)
      → (v : Str) → paired (spread key ws ps) key v ≡ true
      → P v
  spread-paired_self [] ps p all v h = all v h
  spread-paired_self (w ∷ ws) ps p all v h =
      spread-paired_self ws ((key, w) ∷ ps) p.1 (paired-cons w ps p.0 all) v h

fresh-paired : (ps : StrMap) (k w : Str) → named ps k ≡ false → paired ps k w ≡ true → ⊥
fresh-paired [] k w h p = cc
fresh-paired ((k', v') ∷ ps) k w h p =
    fresh-paired ps k w (ground (arith, h)) (ground (arith, h, p))

accepted-some :
    (o : Option Str) (allowed : Str → Bool)
    → accepted o allowed ≡ true
    → (v : Str) × (o ≡ some v) × (allowed v ≡ true)
accepted-some none allowed h = cc
accepted-some (some v) allowed h = (v, refl, h)

-- A cluster that some values of a key were added to, each of them with a property.
pub record Grown (P : Str → Type 0) (key : Str) (c c' : Cluster) : Type 0 where
  pub values : List Str
  pub passing : All P values
  pub means : (ps : StrMap) → Means c ps → Means c' (spread key values ps)

abbrev pub IsSome : List Str → Type 0
IsSome [] = ⊥
IsSome (w ∷ ws) = Unit

-- At least one value was added.
abbrev pub Extended : (Str → Type 0) → Str → Cluster → Cluster → Type 0
Extended P key c c' = (g : Grown P key c c') × IsSome g.values

pub Grown-by :
    {P : Str → Type 0} {key : Str} {c c' : Cluster} (w d : Str)
    → P w
    → Grown P key (rule_add_metadata c key w d).0 c'
    → Extended P key c c'
Grown-by {key = key} {c = c} w d p g = (
  record {
    values = w ∷ g.values;
    passing = (p, g.passing);
    means = λ ps m. g.means ((key, w) ∷ ps) (rule_add-Means c key w d ps m);
  },
  tt,
)

spread-at_key :
    (key : Str) (ws : List Str) (ps : StrMap) → IsSome ws → named (spread key ws ps) key ≡ true
spread-at_key key [] ps e = absurd e
spread-at_key key (w ∷ ws) ps e = spread-named_self key w ws ps

spread-Accepts :
    (key : Str) (ws : List Str) (ps inst : StrMap)
    → named ps key ≡ false
    → Accepts (named (spread key ws ps)) (paired (spread key ws ps)) inst
    → Accepts (named ps) (paired ps) inst
spread-Accepts key ws ps inst fresh all j e = elim (Bool-cases (str_eq key j)) [
  | inl same ↦ absurd (let q = ap (named ps) (str_eq→≡ key j same) in cc)
  | inr other ↦
      sym (
        accepted_cong (lookup inst j) _ (paired ps j)
          (λ w. spread-paired_other key ws ps j w other))
      ∙ all j (spread-named_other key ws ps j other ∙ e)
]

-- What a cluster accepts after values were added at a fresh key: instances that it accepted
-- before, with a value of the property at this key.
pub Grown-match :
    (P : Str → Type 0) (key : Str) (c c' : Cluster) (ps : StrMap) (x : Instance)
    (g : Grown P key c c')
    → IsSome g.values
    → Means c ps
    → named ps key ≡ false
    → match_metadata c' x ≡ true
    → ((v : Str) × (lookup x.metadata key ≡ some v) × P v) × (match_metadata c x ≡ true)
Grown-match P key c c' ps x g n m fresh h =
    let all = (Means-match c' _ x (g.means ps m)).0 h in
    let here =
      accepted-some (lookup x.metadata key) _ (all key (spread-at_key key g.values ps n)) in
    (
      (
        here.0,
        here.1,
        spread-paired_self P key g.values ps g.passing
            (λ v p. absurd (fresh-paired ps key v fresh p)) here.0 here.2,
      ),
      (Means-match c ps x m).1 (spread-Accepts key g.values ps x.metadata fresh all),
    )
