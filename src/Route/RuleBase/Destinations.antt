-- ===== src/Route/RuleBase/Destinations.antt =====
-- The cluster of a destination: matchDstMetadata and validateInMetadata,
-- plugin/servicerouter/rulebase/base.go. That no instance fits and that an expression is invalid are
-- one answer, `none`: only the summary tells them apart.
pub mod Passing
pub mod Accepted
pub mod Steps
pub mod Met
use polaris_go.Base.{
  ℕ, Bool, true, false, not, ◌&&◌, ◌||◌, Option, none, some, List, [], ◌∷◌, ◌==◌, ltb,
  if◌then◌else◌, length,
}
use polaris_go.Base.Text.{Str, str_eq}
use polaris_go.Balance.Cluster.{StrMap, Metadata, Instance, Cluster, lookup, has_value}
use polaris_go.Balance.Cluster.Metadata.{rule_add_metadata, new_cluster, reload_compose_meta_value}
use polaris_go.Balance.Cluster.Service.{
  get_instance_meta_values, get_instances_with_meta_values_not_equal,
}
use polaris_go.Match.{MatchType, regex, not_equals, exact, in_list, not_in, range, other, match_all}
use polaris_go.Route.{RouteInfo, Service}
use polaris_go.Route.Traffic.{
  RuleString, RuleMap, ValueType, text, parameter, variable, other_value, Finder,
}
use polaris_go.Route.RuleBase.{Notes, get_rule_meta_value_for_dest, note_variable}

-- Whether a value has a match that is not empty; an error of the search counts as none.
abbrev pub is_match : Option (Option Str) → Bool
is_match none = false
is_match (some none) = false
is_match (some (some m)) = ltb 0 (length m)

abbrev pub values_at : Metadata → Str → Option StrMap
values_at [] key = none
values_at ((k, values) ∷ ms) key = if str_eq k key then some values else values_at ms key

abbrev all_match : Finder → StrMap → Bool
all_match find [] = true
all_match find ((value, composed) ∷ vs) = is_match (find value) && all_match find vs

-- `validateInMetadata`, for an expression and for a plain value.
unfoldable pub validate_regex : Str → Metadata → Finder → Bool
validate_regex key metadata find = elim (values_at metadata key) [
  | none ↦ true
  | some values ↦ all_match find values
]

unfoldable pub validate_value : Str → Str → Metadata → Bool
validate_value key value metadata = elim (values_at metadata key) [
  | none ↦ true
  | some values ↦ has_value values value
]

-- The loop that adds the values with a match: the cluster, whether it changed, and whether there was
-- a match.
unfoldable pub add_matching : Finder → Str → StrMap → Cluster → Bool → Bool → Cluster × Bool × Bool
add_matching find key [] c changed has_matched = (c, changed, has_matched)
add_matching find key ((value, composed) ∷ vs) c changed has_matched =
    let (c', added) = rule_add_metadata c key value composed in
    let skip = add_matching find key vs c changed has_matched in
    let take = add_matching find key vs c' (changed || added) true in
    if is_match (find value) then take else skip

-- The loop that adds all values.
unfoldable pub add_values : Str → StrMap → Cluster → Cluster
add_values key [] c = c
add_values key ((value, composed) ∷ vs) c =
    add_values key vs (rule_add_metadata c key value composed).0

-- One condition leaves a cluster, with whether it changed, or fails.
abbrev pub Narrowed : Type 0
Narrowed = Option (Cluster × Bool)

unfoldable pub narrow_regex : Option Finder → Metadata → Str → StrMap → Cluster → Bool → Narrowed
unfolding validate_regex add_matching
narrow_regex none inherited key values c changed = none
narrow_regex (some find) inherited key values c changed =
    let (c', changed', has_matched) = add_matching find key values c changed false in
    if not (validate_regex key inherited find)
    then none
    else if not has_matched
    then none
    else some (c', changed')

unfoldable pub narrow_exact : Metadata → Str → Str → StrMap → Cluster → Bool → Narrowed
unfolding validate_value
narrow_exact inherited key value values c changed =
    if not (validate_value key value inherited) then none else elim (lookup values value) [
      | none ↦ none
      | some composed ↦
          let (c', added) = rule_add_metadata c key value composed in some (c', changed || added)
    ]

unfoldable pub narrow_unequal : Str → StrMap → Cluster → Narrowed
unfolding add_values
narrow_unequal key values c =
    if length values == 0 then none else some (add_values key values c, true)

abbrev pub is_text : ValueType → Bool
is_text text = true
is_text parameter = false
is_text variable = false
is_text other_value = false

module _ (variables : Str → Option Str) (getenv : Str → Str) (matcher : Str → Option Finder)
    (r : RouteInfo) (xs : List Instance) (inherited : Metadata) where
  -- The switch on the kind of a condition, with the value that it asks for.
  unfoldable pub narrow_by : MatchType → Notes → Str → Str → Cluster → Bool → Notes × Narrowed
  unfolding narrow_regex narrow_exact narrow_unequal
  narrow_by not_equals notes key value c changed =
      let (ms, values) =
        get_instances_with_meta_values_not_equal xs notes.meta_data_set c.location key value in
      (record notes { meta_data_set = ms }, narrow_unequal key values c)
  narrow_by regex notes key value c changed =
      let (ms, values) = get_instance_meta_values xs notes.meta_data_set c.location key in
      (
        record notes { meta_data_set = ms },
        if length values == 0
            then none
            else narrow_regex (matcher value) inherited key values c changed,
      )
  narrow_by kind notes key value c changed =
      let (ms, values) = get_instance_meta_values xs notes.meta_data_set c.location key in
      (
        record notes { meta_data_set = ms },
        if length values == 0 then none else narrow_exact inherited key value values c changed,
      )

  -- One condition.
  unfoldable pub narrow : RuleString → Notes → Str → Cluster → Bool → Notes × Narrowed
  unfolding narrow_by
  narrow rule notes key c changed =
      let notes' = record notes {
        environment_variables = note_variable variables getenv rule notes.environment_variables;
      } in
      elim (get_rule_meta_value_for_dest variables getenv r rule) [
        | none ↦ (notes', none)
        | some value ↦
            if str_eq value match_all && is_text rule.value_type
            then (notes', some (c, changed))
            else narrow_by rule.kind notes' key value c changed
      ]

  -- The loop over the conditions.
  unfoldable pub narrow_all : RuleMap → Notes → Cluster → Bool → Notes × Narrowed
  unfolding narrow
  narrow_all [] notes c changed = (notes, some (c, changed))
  narrow_all ((key, rule) ∷ rules) notes c changed =
      let (notes', narrowed) = narrow rule notes key c changed in
      elim narrowed [
        | none ↦ (notes', none)
        | some (c', changed') ↦ narrow_all rules notes' c' changed'
      ]

abbrev pub reload : Narrowed → Option Cluster
reload none = none
reload (some (c, changed)) = some (if changed then reload_compose_meta_value c else c)

-- `pooled` is the flag that a cluster of the pool holds.
unfoldable pub match_dst_metadata :
    (Str → Option Str)
    → (Str → Str)
    → (Str → Option Finder)
    → Bool
    → RouteInfo
    → List Instance
    → Cluster
    → RuleMap
    → Notes
    → Notes × Option Cluster
unfolding narrow_all
match_dst_metadata variables getenv matcher pooled r xs within rules notes =
    let (notes', narrowed) =
      narrow_all variables getenv matcher r xs within.metadata rules notes
        (new_cluster pooled within) false in
    (notes', reload narrowed)
