-- ===== src/Route/RuleBase/Destinations/Steps.antt =====
-- One condition of a destination and the cluster that it leaves: the loop body of matchDstMetadata,
-- plugin/servicerouter/rulebase/base.go.
use polaris_go.Base.{
  ◌≡◌, ◌≢◌, ◌⊎◌, ◌∙◌, refl, inl, inr, ◌==◌, ◌&&◌, Bool, true, false, Option, none, some, List, [],
  ◌∷◌, All, length, Bool-cases, Option-cases, arith, if◌then◌else◌,
}
use polaris_go.Base.Text.{Str, str_eq}
use polaris_go.Balance.Cluster.{StrMap, Metadata, Location, Instance, Cluster}
use polaris_go.Balance.Cluster.Matching.{str_eq→≡}
use polaris_go.Balance.Cluster.Service.{
  MetaDataSet, LocationBasedMetaKey, load, load_or_store, collect_unequal, get_instance_meta_values,
  get_instances_with_meta_values_not_equal,
}
use polaris_go.Match.{MatchType, regex, not_equals, exact, in_list, not_in, range, other, match_all}
use polaris_go.Route.{RouteInfo}
use polaris_go.Route.Traffic.{RuleString, Finder}
use polaris_go.Route.RuleBase.{Notes, get_rule_meta_value_for_dest}
use polaris_go.Route.RuleBase.Destinations.{
  is_match, is_text, Narrowed, narrow_by, narrow_exact, narrow_regex, narrow_unequal, narrow,
}
use polaris_go.Route.RuleBase.Destinations.Passing.{Extended}
use polaris_go.Route.RuleBase.Destinations.Accepted.{
  narrow_regex-Extended, narrow_exact-Extended, narrow_unequal-Extended, collect-AllOther,
  IsUnasked, unasked-load,
}

-- What a condition of some kind asks of the value of an instance.
abbrev pub Passes : (Str → Option Finder) → MatchType → Str → Str → Type 0
Passes matcher regex value v =
    (find : Finder) × (matcher value ≡ some find) × (is_match (find v) ≡ true)
Passes matcher not_equals value v = v ≢ value
Passes matcher exact value v = v ≡ value
Passes matcher in_list value v = v ≡ value
Passes matcher not_in value v = v ≡ value
Passes matcher range value v = v ≡ value
Passes matcher other value v = v ≡ value

stored-IsUnasked :
    (ms : MetaDataSet) (k : LocationBasedMetaKey) (vs : StrMap) (j : Str)
    → (str_eq k.meta_key j && k.key_type == 1) ≡ false
    → IsUnasked ms j
    → IsUnasked (load_or_store ms k vs).0 j
stored-IsUnasked ms k vs j e u = elim (Option-cases (load ms k)) [
  | inl n ↦ rw (n, load_or_store) (e, u)
  | inr (w, n) ↦ rw (n, load_or_store) u
]

All-map : {P Q : Str → Type 0} → ((v : Str) → P v → Q v) → (vs : List Str) → All P vs → All Q vs
All-map f [] p = tt
All-map f (v ∷ vs) p = (f v p.0, All-map f vs p.1)

Extended-map :
    {P Q : Str → Type 0} {key : Str} {c c' : Cluster}
    → ((v : Str) → P v → Q v)
    → Extended P key c c'
    → Extended Q key c c'
Extended-map f (g, n) =
    (record { values = g.values; passing = All-map f g.values g.passing; means = g.means }, n)

unequal_values :
    (xs : List Instance) (ms : MetaDataSet) (l : Location) (key value : Str)
    → IsUnasked ms key
    → (get_instances_with_meta_values_not_equal xs ms l key value).1
      ≡ collect_unequal l key value xs []
unfolding get_instances_with_meta_values_not_equal
unequal_values xs ms l key value u = rw (unasked-load ms l key u, load_or_store) refl

module _ (variables : Str → Option Str) (getenv : Str → Str) (matcher : Str → Option Finder)
    (r : RouteInfo) (xs : List Instance) (inherited : Metadata) where
  exact_case :
      (values : StrMap) (key value : Str) (c c' : Cluster) (changed changed' : Bool)
      → (if length values == 0 then none else narrow_exact inherited key value values c changed)
        ≡ some (c', changed')
      → Extended (λ v. v ≡ value) key c c'
  exact_case values key value c c' changed changed' h = elim (Bool-cases (length values == 0)) [
    | inl e ↦ (let q = rw e at h in cc)
    | inr e ↦ narrow_exact-Extended inherited key value values c c' changed changed' (rw e at h)
  ]

  regex_case :
      (values : StrMap) (key value : Str) (c c' : Cluster) (changed changed' : Bool)
      → (if length values == 0
          then none
          else narrow_regex (matcher value) inherited key values c changed)
        ≡ some (c', changed')
      → Extended (Passes matcher regex value) key c c'
  unfolding narrow_regex
  regex_case values key value c c' changed changed' h = elim (Bool-cases (length values == 0)) [
    | inl e ↦ (let q = rw e at h in cc)
    | inr e ↦ elim (Option-cases (matcher value)) [
      | inl n ↦ (let q = rw (e, n) at h in cc)
      | inr (find, n) ↦
          Extended-map (λ v m. (find, n, m))
            (narrow_regex-Extended find inherited key values c c' changed changed' (rw (e, n) at h))
    ]
  ]

  unequal_case :
      (ms : MetaDataSet) (key value : Str) (c c' : Cluster) (changed' : Bool)
      → IsUnasked ms key
      → narrow_unequal key (get_instances_with_meta_values_not_equal xs ms c.location key value).1 c
        ≡ some (c', changed')
      → Extended (λ v. v ≢ value) key c c'
  unequal_case ms key value c c' changed' u h =
      let n = unequal_values xs ms c.location key value u in
      narrow_unequal-Extended (λ v. v ≢ value) key (collect_unequal c.location key value xs []) c c'
        changed' (collect-AllOther c.location key value xs [] tt) (rw n at h)

  narrow_by-Extended :
      (kind : MatchType) (notes : Notes) (key value : Str) (c c' : Cluster)
      (changed changed' : Bool)
      → (kind ≡ not_equals → IsUnasked notes.meta_data_set key)
      → (narrow_by variables getenv matcher r xs inherited kind notes key value c changed).1
        ≡ some (c', changed')
      → Extended (Passes matcher kind value) key c c'
  unfolding narrow_by
  narrow_by-Extended not_equals notes key value c c' changed changed' u h =
      unequal_case notes.meta_data_set key value c c' changed' (u refl) h
  narrow_by-Extended regex notes key value c c' changed changed' u h =
      regex_case _ key value c c' changed changed' h
  narrow_by-Extended exact notes key value c c' changed changed' u h =
      exact_case _ key value c c' changed changed' h
  narrow_by-Extended in_list notes key value c c' changed changed' u h =
      exact_case _ key value c c' changed changed' h
  narrow_by-Extended not_in notes key value c c' changed changed' u h =
      exact_case _ key value c c' changed changed' h
  narrow_by-Extended range notes key value c c' changed changed' u h =
      exact_case _ key value c c' changed changed' h
  narrow_by-Extended other notes key value c c' changed changed' u h =
      exact_case _ key value c c' changed changed' h

  kept-IsUnasked :
      (kind : MatchType) (notes : Notes) (key value : Str) (c : Cluster) (changed : Bool) (j : Str)
      → str_eq key j ≡ false
      → IsUnasked notes.meta_data_set j
      → IsUnasked
          (narrow_by variables getenv matcher r xs inherited kind notes key value c
            changed).0.meta_data_set
          j
  unfolding narrow_by get_instance_meta_values get_instances_with_meta_values_not_equal
  kept-IsUnasked not_equals notes key value c changed j e u =
      stored-IsUnasked notes.meta_data_set _ _ j (rw e refl) u
  kept-IsUnasked regex notes key value c changed j e u =
      stored-IsUnasked notes.meta_data_set _ _ j (rw e refl) u
  kept-IsUnasked kind notes key value c changed j e u =
      stored-IsUnasked notes.meta_data_set _ _ j (rw e refl) u

  -- The value of the condition is `*`, literally.
  abbrev pub IsSkipped : RuleString → Type 0
  IsSkipped rule = (is_text rule.value_type ≡ true) × (rule.value ≡ match_all)

  text_value :
      (rule : RuleString) (value : Str)
      → is_text rule.value_type ≡ true
      → get_rule_meta_value_for_dest variables getenv r rule ≡ some value
      → rule.value ≡ value
  unfolding get_rule_meta_value_for_dest
  text_value rule value e h = ground (arith, e, h)

  pub narrow-step :
      (rule : RuleString) (notes : Notes) (key : Str) (c c' : Cluster) (changed changed' : Bool)
      → (rule.kind ≡ not_equals → IsUnasked notes.meta_data_set key)
      → (narrow variables getenv matcher r xs inherited rule notes key c changed).1
        ≡ some (c', changed')
      → (IsSkipped rule × (c ≡ c'))
        ⊎ ((value : Str) × (get_rule_meta_value_for_dest variables getenv r rule ≡ some value)
            × Extended (Passes matcher rule.kind value) key c c')
  unfolding narrow
  narrow-step rule notes key c c' changed changed' u h =
      elim (Option-cases (get_rule_meta_value_for_dest variables getenv r rule)) [
        | inl n ↦ (let q = rw (n, narrow) at h in cc)
        | inr (value, n) ↦ elim (Bool-cases (str_eq value match_all && is_text rule.value_type)) [
          | inl e ↦
              (let q : ◌≡◌ {A = Narrowed} (some (c, changed)) (some (c', changed')) =
                  rw (n, narrow, e) at h in
                let typed : is_text rule.value_type ≡ true = ground (arith, e) in
                inl (
                  (typed, text_value rule value typed n ∙ str_eq→≡ value _ (ground (arith, e))),
                  cc,
                ))
          | inr e ↦ inr (
            value,
            n,
            narrow_by-Extended rule.kind _ key value c c' changed changed' u
                (rw (n, narrow, e) at h),
          )
        ]
      ]

  pub narrow-IsUnasked :
      (rule : RuleString) (notes : Notes) (key : Str) (c : Cluster) (changed : Bool) (j : Str)
      → str_eq key j ≡ false
      → IsUnasked notes.meta_data_set j
      → IsUnasked
          (narrow variables getenv matcher r xs inherited rule notes key c changed).0.meta_data_set
          j
  unfolding narrow
  narrow-IsUnasked rule notes key c changed j e u =
      elim (Option-cases (get_rule_meta_value_for_dest variables getenv r rule)) [
        | inl n ↦ rw (n, narrow) u
        | inr (value, n) ↦ elim (Bool-cases (str_eq value match_all && is_text rule.value_type)) [
          | inl f ↦ rw (n, narrow, f) u
          | inr f ↦ rw (n, narrow, f) (kept-IsUnasked rule.kind _ key value c changed j e u)
        ]
      ]
