-- ===== src/Route/RuleBase/Sources.antt =====
-- The match of a caller with the sources of a rule: matchSource and matchSourceMetadata,
-- plugin/servicerouter/rulebase/base.go. An expression is compiled by the parameter `compile`.
pub mod First
use polaris_go.Base.{
  ℕ, Bool, true, false, not, ◌&&◌, ◌||◌, Option, none, some, List, [], ◌∷◌, ◌==◌, if◌then◌else◌,
  length,
}
use polaris_go.Base.Text.{Str, str_eq}
use polaris_go.Balance.Cluster.{StrMap, lookup}
use polaris_go.Match.{Pattern, match_all, match_string}
use polaris_go.Route.{RouteInfo}
use polaris_go.Route.Traffic.{RuleString, RuleMap, Source}
use polaris_go.Route.RuleBase.{
  RuleMatch, source_route_rule_match, dst_route_rule_match, source_metadata,
  get_rule_meta_value_for_source, note_variable,
}

-- A rule's name that is not `*` has to be the service's.
abbrev pub is_other : Str → Str → Bool
is_other wanted given = not (str_eq wanted match_all) && not (str_eq wanted given)

-- Whether the service of the caller is refused.
unfoldable pub is_refused : RuleMatch → RouteInfo → Source → Bool
is_refused source_route_rule_match r s = false
is_refused dst_route_rule_match r s = elim r.source_service [
  | none ↦ not (str_eq s.namespace match_all) || not (str_eq s.service match_all)
  | some m ↦ is_other s.namespace r.source_key.namespace || is_other s.service r.source_key.service
]

abbrev pub is_nil : {A : Type 0} → Option A → Bool
is_nil none = true
is_nil (some a) = false

module _ (variables : Str → Option Str) (getenv : Str → Str) (compile : Str → Option Pattern) where
  -- The loop over the conditions.
  unfoldable pub match_keys : StrMap → RuleMap → StrMap → StrMap × Bool
  match_keys source [] env = (env, true)
  match_keys source ((key, rule) ∷ rules) env =
      let env' = note_variable variables getenv rule env in
      let rest = match_keys source rules env in
      let rest' = match_keys source rules env' in
      if str_eq key match_all then rest else elim (lookup source key) [
        | none ↦ (env, false)
        | some value ↦
            if str_eq rule.value match_all
            then rest
            else elim (get_rule_meta_value_for_source variables getenv rule) [
              | none ↦ (env', false)
              | some raw ↦
                  if match_string compile value (record { kind = rule.kind; value = raw })
                  then rest'
                  else (env', false)
            ]
      ]

  unfoldable pub match_source_metadata : RouteInfo → RuleMap → StrMap → StrMap × Bool
  unfolding match_keys
  match_source_metadata r rules env =
      if length (source_metadata r) == 0
      then (env, false)
      else match_keys (source_metadata r) rules env

  -- The loop over the sources: the variables noted, whether one matched, and which one.
  unfoldable pub match_each :
      RuleMatch → RouteInfo → List Source → StrMap → StrMap × Bool × Option Source
  match_each kind r [] env = (env, false, none)
  match_each kind r (s ∷ ss) env =
      let rest = match_each kind r ss env in
      let (env', success) = match_source_metadata r s.metadata env in
      let rest' = match_each kind r ss env' in
      if is_refused kind r s
      then rest
      else if length s.metadata == 0
      then (env, true, some s)
      else if is_nil r.source_service
      then rest
      else if success
      then (env', true, some s)
      else rest'

  unfoldable pub match_source :
      RuleMatch → RouteInfo → List Source → StrMap → StrMap × Bool × Option Source
  unfolding match_each
  match_source kind r ss env =
      if length ss == 0 then (env, true, none) else match_each kind r ss env
