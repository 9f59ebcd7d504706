-- ===== src/Route/RuleBase.antt =====
-- The router by rules: plugin/servicerouter/rulebase. Here is where the value of a condition comes
-- from (base.go); Sources has the match of a caller, Destinations the clusters of a rule, Subsets
-- the choice among them and Filter the router. The system's variables and the environment are the
-- parameters `variables` and `getenv`; the summary of what did not match, which nothing reads, is
-- left out.
pub mod Sources
pub mod Destinations
pub mod Subsets
pub mod Filter
mod Tests
use polaris_go.Base.{Bool, Option, none, some, List, [], ◌∷◌, ◌==◌, if◌then◌else◌, length}
use polaris_go.Base.Text.{Str, str_eq}
use polaris_go.Balance.Cluster.{StrMap, lookup}
use polaris_go.Balance.Cluster.Service.{MetaDataSet, put}
use polaris_go.Route.{RouteInfo}
use polaris_go.Route.Traffic.{RuleString, text, parameter, variable, other_value}

-- Which of the two services the rules are those of.
pub data RuleMatch : Type 0 where
  source_route_rule_match dst_route_rule_match : RuleMatch

-- What the router writes on its way: the variables noted in the information of the call, and the
-- values that the service keeps for metadata keys.
pub record Notes : Type 0 where
  pub environment_variables : StrMap
  pub meta_data_set : MetaDataSet

-- The metadata of the caller, of which there are none without one.
abbrev pub source_metadata : RouteInfo → StrMap
source_metadata r = elim r.source_service [ none ↦ [] | some m ↦ m ]

module _ (variables : Str → Option Str) (getenv : Str → Str) where
  unfoldable pub get_variable : Str → Option Str
  get_variable key = elim (variables key) [
    | some value ↦ some value
    | none ↦ if length (getenv key) == 0 then none else some (getenv key)
  ]

  -- `addRouteInfoVariable`
  abbrev add_route_info_variable : Str → Option Str → StrMap → StrMap
  add_route_info_variable key none env = env
  add_route_info_variable key (some value) env = put env key value

  -- What `getRuleMetaValueStr` answers for a destination and for a source, and what it notes.
  unfoldable pub get_rule_meta_value_for_dest : RouteInfo → RuleString → Option Str
  unfolding get_variable
  get_rule_meta_value_for_dest r rule = elim rule.value_type [
    | text ↦ some rule.value
    | parameter ↦ lookup (source_metadata r) rule.value
    | variable ↦ get_variable rule.value
    | other_value ↦ some rule.value
  ]

  unfoldable pub get_rule_meta_value_for_source : RuleString → Option Str
  unfolding get_variable
  get_rule_meta_value_for_source rule = elim rule.value_type [
    | text ↦ some rule.value
    | parameter ↦ some (b'*' ∷ [])
    | variable ↦ get_variable rule.value
    | other_value ↦ some rule.value
  ]

  unfoldable pub note_variable : RuleString → StrMap → StrMap
  unfolding get_variable
  note_variable rule env = elim rule.value_type [
    | text ↦ env
    | parameter ↦ env
    | variable ↦ add_route_info_variable rule.value (get_variable rule.value) env
    | other_value ↦ env
  ]
