-- ===== src/Route/RuleBase/Destinations/Met.antt =====
-- The conditions that the instances of a destination's cluster meet: matchDstMetadata,
-- plugin/servicerouter/rulebase/base.go.
use polaris_go.Base.{
  ◌≡◌, ◌≢◌, ◌⊎◌, ◌∙◌, refl, sym, ap, inl, inr, ◌==◌, Bool, true, false, Option, none, some, List,
  [], ◌∷◌, All, Bool-cases, Option-cases,
}
use polaris_go.Base.Text.{Str, str_eq}
use polaris_go.Balance.Cluster.{StrMap, Metadata, Instance, Cluster, lookup, match_metadata}
use polaris_go.Balance.Cluster.Metadata.{
  new_cluster, reset, reload_compose_meta_value, set_compose_meta_value, clear_cluster_value,
  total_length, all_composed,
}
use polaris_go.Balance.Cluster.Service.{MetaDataSet}
use polaris_go.Balance.Cluster.Added.{named, Means, reset-Means, new_cluster-Means}
use polaris_go.Match.{MatchType, not_equals}
use polaris_go.Route.{RouteInfo}
use polaris_go.Route.Traffic.{RuleString, RuleMap, Finder}
use polaris_go.Route.RuleBase.{Notes, get_rule_meta_value_for_dest}
use polaris_go.Route.RuleBase.Destinations.{
  Narrowed, reload, narrow, narrow_all, match_dst_metadata,
}
use polaris_go.Route.RuleBase.Destinations.Passing.{Grown-match, spread, spread-named_other}
use polaris_go.Route.RuleBase.Destinations.Accepted.{IsUnasked}
use polaris_go.Route.RuleBase.Destinations.Steps.{Passes, IsSkipped, narrow-step, narrow-IsUnasked}

module _ (variables : Str → Option Str) (getenv : Str → Str) (matcher : Str → Option Finder)
    (r : RouteInfo) (xs : List Instance) (inherited : Metadata) where
  -- An instance meets a condition that is skipped, or with a value that passes.
  abbrev pub Meets : StrMap → Str × RuleString → Type 0
  Meets inst (key, rule) =
      IsSkipped variables getenv matcher r xs inherited rule
      ⊎ ((value v : Str) × (get_rule_meta_value_for_dest variables getenv r rule ≡ some value)
          × (lookup inst key ≡ some v)
          × Passes matcher rule.kind value v)

  -- The conditions that are left: their keys are new to the cluster and to the service.
  abbrev AllNew : StrMap → MetaDataSet → RuleMap → Type 0
  AllNew ps ms [] = Unit
  AllNew ps ms ((key, rule) ∷ rules) =
      (named ps key ≡ false)
      × (rule.kind ≡ not_equals → IsUnasked ms key)
      × All (λ e. str_eq key e.0 ≡ false) rules
      × AllNew ps ms rules

  moved-AllNew :
      (key : Str) (ps ps' : StrMap) (ms ms' : MetaDataSet) (rules : RuleMap)
      → ((j : Str) → str_eq key j ≡ false → named ps' j ≡ named ps j)
      → ((j : Str) → str_eq key j ≡ false → IsUnasked ms j → IsUnasked ms' j)
      → All (λ e. str_eq key e.0 ≡ false) rules
      → AllNew ps ms rules
      → AllNew ps' ms' rules
  moved-AllNew key ps ps' ms ms' [] f g a n = tt
  moved-AllNew key ps ps' ms ms' ((j, rule) ∷ rules) f g a n =
      (f j a.0 ∙ n.0, (λ k. g j a.0 (n.1 k)), n.2, moved-AllNew key ps ps' ms ms' rules f g a.1 n.3)

  narrow_all-Meets :
      (rules : RuleMap) (notes : Notes) (c c' : Cluster) (changed changed' : Bool) (ps : StrMap)
      (x : Instance)
      → Means c ps
      → AllNew ps notes.meta_data_set rules
      → (narrow_all variables getenv matcher r xs inherited rules notes c changed).1
        ≡ some (c', changed')
      → match_metadata c' x ≡ true
      → All (Meets x.metadata) rules × (match_metadata c x ≡ true)
  unfolding narrow_all
  narrow_all-Meets [] notes c c' changed changed' ps x m new h t =
      (tt, let q : c ≡ c' = cc in rw q t)
  narrow_all-Meets ((key, rule) ∷ rules) notes c c' changed changed' ps x m new h t =
      let step = narrow variables getenv matcher r xs inherited rule notes key c changed in
      let ms = step.0.meta_data_set in
      let unasked = λ (j : Str) (e : str_eq key j ≡ false).
        narrow-IsUnasked variables getenv matcher r xs inherited rule notes key c changed j e in
      elim (Option-cases step.1) [
        | inl n ↦ (let q = rw (n, narrow_all) at h in cc)
        | inr ((c₁, changed₁), n) ↦
            (let h' = rw (n, narrow_all) at h in
              elim (narrow-step variables getenv matcher r xs inherited rule notes key c c₁ changed
                changed₁ new.1 n) [
                  | inl (skipped, q) ↦
                      (let rest =
                          narrow_all-Meets rules step.0 c₁ c' changed₁ changed' ps x (rw (← q) m)
                            (moved-AllNew key ps ps notes.meta_data_set ms rules (λ j e. refl)
                              unasked new.2 new.3)
                            h' t in
                        ((inl skipped, rest.0), rw q rest.1))
                  | inr (value, g, (grown, some_values)) ↦
                      (let ps' = spread key grown.values ps in
                        let rest =
                          narrow_all-Meets rules step.0 c₁ c' changed₁ changed' ps' x
                            (grown.means ps m)
                            (moved-AllNew key ps ps' notes.meta_data_set ms rules
                              (λ j e. spread-named_other key grown.values ps j e) unasked new.2
                              new.3)
                            h' t in
                        let here = Grown-match _ key c c₁ ps x grown some_values m new.0 rest.1 in
                        ((inr (value, here.0.0, g, here.0.1, here.0.2), rest.0), here.1))
                ])
      ]

-- The map of conditions has each key once, and for a `NOT_EQUALS` no values are kept yet for the
-- instances with another value of it.
abbrev pub IsNew : MetaDataSet → RuleMap → Type 0
IsNew ms [] = Unit
IsNew ms ((key, rule) ∷ rules) =
    ((rule.kind ≢ not_equals) ⊎ IsUnasked ms key)
    × All (λ e. str_eq key e.0 ≡ false) rules
    × IsNew ms rules

asked_late :
    (kind : MatchType) (ms : MetaDataSet) (key : Str)
    → (kind ≢ not_equals) ⊎ IsUnasked ms key
    → kind ≡ not_equals
    → IsUnasked ms key
asked_late kind ms key (inl n) e = absurd (n e)
asked_late kind ms key (inr u) e = u

IsNew-AllNew :
    (variables : Str → Option Str) (getenv : Str → Str) (matcher : Str → Option Finder)
    (r : RouteInfo) (xs : List Instance) (inherited : Metadata) (ms : MetaDataSet) (rules : RuleMap)
    → IsNew ms rules
    → AllNew variables getenv matcher r xs inherited [] ms rules
IsNew-AllNew variables getenv matcher r xs inherited ms [] n = tt
IsNew-AllNew variables getenv matcher r xs inherited ms ((key, rule) ∷ rules) n = (
  refl,
  asked_late rule.kind ms key n.0,
  n.1,
  IsNew-AllNew variables getenv matcher r xs inherited ms rules n.2,
)

reload_shape :
    (c : Cluster)
    → (text : Str) × (reload_compose_meta_value c
        ≡ record c { compose_meta_value = text; value = none })
unfolding reload_compose_meta_value set_compose_meta_value clear_cluster_value
reload_shape c = elim (Bool-cases (c.meta_count == 0)) [
  | inl e ↦ rw e (_, refl)
  | inr e ↦ elim (Bool-cases (c.meta_count == 1)) [
    | inl f ↦ rw (e, f) (_, refl)
    | inr f ↦ elim (Bool-cases (total_length (all_composed c.metadata) == 0)) [
      | inl g ↦ rw (e, f, g) (_, refl)
      | inr g ↦ rw (e, f, g) (_, refl)
    ]
  ]
]

reload-match :
    (c : Cluster) (x : Instance)
    → match_metadata (reload_compose_meta_value c) x ≡ match_metadata c x
unfolding match_metadata
reload-match c x = ap (λ k. match_metadata k x) (reload_shape c).1

reloaded :
    (o : Narrowed) (c' : Cluster) (x : Instance)
    → reload o ≡ some c'
    → (c : Cluster) × (changed : Bool) × (o ≡ some (c, changed))
      × (match_metadata c x ≡ match_metadata c' x)
reloaded none c' x h = cc
reloaded (some (c, true)) c' x h =
    let q : reload_compose_meta_value c ≡ c' = cc in
    (c, true, refl, sym (reload-match c x) ∙ ap (λ k. match_metadata k x) q)
reloaded (some (c, false)) c' x h =
    let q : c ≡ c' = cc in (c, false, refl, ap (λ k. match_metadata k x) q)

-- When the cluster in has no metadata, the conditions have each key once, and the service keeps no
-- values yet for a `NOT_EQUALS` on one of these keys: if a destination gets a cluster,
-- every instance that this cluster accepts meets every condition of the destination. A condition
-- whose literal value is `*` is skipped; otherwise its value was found and the instance has a value
-- at its key: one that the expression finds a match in, another value for `NOT_EQUALS`, and this
-- very value for any other kind.
pub match_dst_metadata-Meets :
    (variables : Str → Option Str) (getenv : Str → Str) (matcher : Str → Option Finder)
    (pooled b : Bool) (r : RouteInfo) (xs : List Instance) (rules : RuleMap) (notes : Notes)
    (c : Cluster) (x : Instance)
    → IsNew notes.meta_data_set rules
    → (match_dst_metadata variables getenv matcher pooled r xs (reset b) rules notes).1 ≡ some c
    → match_metadata c x ≡ true
    → All (Meets variables getenv matcher r xs [] x.metadata) rules
unfolding match_dst_metadata reset
match_dst_metadata-Meets variables getenv matcher pooled b r xs rules notes c x new h t =
    let start = new_cluster-Means pooled (reset b) [] (reset-Means b) in
    let (c₀, changed, n, same) = reloaded _ c x h in
    (narrow_all-Meets variables getenv matcher r xs [] rules notes (new_cluster pooled (reset b)) c₀
      false changed [] x start
      (IsNew-AllNew variables getenv matcher r xs [] notes.meta_data_set rules new) n (same ∙ t)).0
