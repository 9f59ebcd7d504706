-- ===== src/Route/RuleBase/Filter.antt =====
-- The router by rules: getRoutesFromRule, getRuleFilteredInstances and populateSubsetsFromDst of
-- plugin/servicerouter/rulebase/base.go, Enable, GetFilteredInstances and the configuration of
-- rule.go.
pub mod Admitted
pub mod Unmatched
use polaris_go.Base.{
  ℕ, Bool, true, false, not, ◌&&◌, ◌||◌, Option, none, some, List, [], ◌∷◌, ◌==◌, ltb,
  if◌then◌else◌, length,
}
use polaris_go.Base.Text.{Str, str_eq}
use polaris_go.Balance.Cluster.{StrMap, Instance, Cluster}
use polaris_go.Balance.Cluster.Metadata.{new_cluster}
use polaris_go.Match.{Pattern, match_all}
use polaris_go.Route.{
  FailOverType, fail_over_all, fail_over_none, dest_rule, src_rule, RouteInfo, normal, ErrCode,
  api_invalid_argument, Owned, Answer, failed, routed, panicked, answer_cluster, Service, Router,
}
use polaris_go.Route.Traffic.{Finder, Source, Destination, Rule, ServiceRule}
use polaris_go.Route.RuleBase.{RuleMatch, source_route_rule_match, dst_route_rule_match, Notes}
use polaris_go.Route.RuleBase.Sources.{is_other, match_source}
use polaris_go.Route.RuleBase.Destinations.{match_dst_metadata}
use polaris_go.Route.RuleBase.Subsets.{
  SubsetsMap, add_subset, Selected, selected, no_subset, no_fuel, select_cluster,
}

-- `ruleEmpty`, and the rules of a `ServiceRule` that is not empty.
unfoldable pub rule_empty : Option ServiceRule → Bool
rule_empty none = true
rule_empty (some rule) = elim rule.value [ none ↦ true | some v ↦ not rule.is_valid ]

abbrev inbounds_of : Option ServiceRule → List Rule
inbounds_of none = []
inbounds_of (some rule) = elim rule.value [ none ↦ [] | some v ↦ v.inbounds ]

abbrev outbounds_of : Option ServiceRule → List Rule
outbounds_of none = []
outbounds_of (some rule) = elim rule.value [ none ↦ [] | some v ↦ v.outbounds ]

abbrev is_nil : {A : Type 0} → Option A → Bool
is_nil none = true
is_nil (some a) = false

unfoldable pub get_routes_from_rule : RouteInfo → RuleMatch → List Rule
unfolding rule_empty
get_routes_from_rule r dst_route_rule_match =
    if rule_empty r.dest_route_rule then [] else inbounds_of r.dest_route_rule
get_routes_from_rule r source_route_rule_match =
    if rule_empty r.source_route_rule
    then []
    else if is_nil r.source_service
    then []
    else outbounds_of r.source_route_rule

-- The compiled expressions of the rule that is used.
abbrev matcher_of : Option ServiceRule → Str → Option Finder
matcher_of none = λ expression. none
matcher_of (some rule) = rule.get_regex_matcher

abbrev pub rule_cache : RouteInfo → RuleMatch → Str → Option Finder
rule_cache r dst_route_rule_match = matcher_of r.dest_route_rule
rule_cache r source_route_rule_match = matcher_of r.source_route_rule

-- A destination of another service, for the rules of the caller.
unfoldable pub is_foreign : RuleMatch → RouteInfo → Destination → Bool
is_foreign dst_route_rule_match r d = false
is_foreign source_route_rule_match r d =
    is_other d.namespace r.dest_key.namespace || is_other d.service r.dest_key.service

-- `RuleRouterConfig`, with the type that `SetDefault` gives it.
pub record RuleRouterConfig : Type 0 where
  pub failover_type : FailOverType
  pub failover_text : Str

unfoldable pub set_default : RuleRouterConfig → RuleRouterConfig
set_default rc =
    if str_eq rc.failover_text (b'n' ∷ b'o' ∷ b'n' ∷ b'e' ∷ [])
    then record rc { failover_type = fail_over_none }
    else record rc { failover_type = fail_over_all }

-- The router is enabled if there are rules.
unfoldable pub enable : RouteInfo → Service → Bool
unfolding get_routes_from_rule
enable r s =
    ltb 0 (length (get_routes_from_rule r dst_route_rule_match))
    || ltb 0 (length (get_routes_from_rule r source_route_rule_match))

abbrev put_found : Destination → SubsetsMap → Notes × Option Cluster → Notes × SubsetsMap
put_found d m (notes, none) = (notes, m)
put_found d m (notes, some c) = (notes, add_subset d.priority d.weight c m)

module _ (variables : Str → Option Str) (getenv : Str → Str) (compile : Str → Option Pattern)
    (intn : ℕ → ℕ) (pooled : Bool) where
  unfoldable pub populate_subsets_from_dst :
      (Str → Option Finder)
      → RouteInfo
      → List Instance
      → Cluster
      → Destination
      → Notes
      → SubsetsMap
      → Notes × SubsetsMap
  populate_subsets_from_dst matcher r xs within d notes m =
      put_found d m
        (match_dst_metadata variables getenv matcher pooled r xs within d.metadata notes)

  -- The loop over the destinations of a rule.
  unfoldable pub match_destinations :
      RuleMatch
      → RouteInfo
      → List Instance
      → Cluster
      → List Destination
      → Notes
      → SubsetsMap
      → Notes × SubsetsMap
  match_destinations kind r xs within [] notes m = (notes, m)
  match_destinations kind r xs within (d ∷ ds) notes m =
      let rest = match_destinations kind r xs within ds notes m in
      let (notes', m') = populate_subsets_from_dst (rule_cache r kind) r xs within d notes m in
      let rest' = match_destinations kind r xs within ds notes' m' in
      if is_foreign kind r d then rest else if d.weight == 0 then rest else rest'

  -- The loop over the rules. `none` is the nil that says that none gives a cluster.
  unfoldable pub get_rule_filtered_instances :
      RuleMatch → RouteInfo → List Instance → Cluster → List Rule → Notes → Notes × Option Selected
  get_rule_filtered_instances kind r xs within [] notes = (notes, none)
  get_rule_filtered_instances kind r xs within (rule ∷ rules) notes =
      let (env, found, source) =
        match_source variables getenv compile kind r rule.sources notes.environment_variables in
      let noted = record notes { environment_variables = env } in
      let (notes', m) = match_destinations kind r xs within rule.destinations noted [] in
      let rest = get_rule_filtered_instances kind r xs within rules noted in
      let rest' = get_rule_filtered_instances kind r xs within rules notes' in
      if not found
      then rest
      else if length m == 0
      then rest'
      else (notes', some (select_cluster intn m))

  -- The target when rules were there and none gave a cluster.
  unfoldable pub fail_over : RuleRouterConfig → RouteInfo → Service → Cluster → Answer
  fail_over config r s within =
      let type : FailOverType = elim r.fail_over_type [
        | none ↦ config.failover_type
        | some given ↦ given
      ] in
      elim type [
        | fail_over_none ↦ routed (record {
          redirect_dest_service = none;
          output_cluster = (new_cluster pooled within, []);
          status = normal;
        })
        | fail_over_all ↦ answer_cluster normal s (new_cluster pooled within)
      ]

  abbrev answer_selected :
      RuleRouterConfig → RouteInfo → Service → Cluster → Option Selected → Answer
  answer_selected config r s within none = fail_over config r s within
  answer_selected config r s within (some (selected c)) = answer_cluster normal s c
  answer_selected config r s within (some no_subset) = panicked
  answer_selected config r s within (some no_fuel) = panicked

  -- What was noted goes into the information of the call and into the service.
  abbrev noted_info : RouteInfo → Notes → RouteInfo
  noted_info r notes = record r { environment_variables = notes.environment_variables }

  abbrev noted_service : Service → Notes → Service
  noted_service s notes = record s { meta_data_set = notes.meta_data_set }

  abbrev pub notes_of : RouteInfo → Service → Notes
  notes_of r s = record {
    environment_variables = r.environment_variables;
    meta_data_set = s.meta_data_set;
  }

  unfoldable pub get_filtered_instances :
      RuleRouterConfig → RouteInfo → Service → Owned → RouteInfo × Service × Answer
  unfolding get_routes_from_rule fail_over
  get_filtered_instances config r s (within, owner) =
      let dst_routes = get_routes_from_rule r dst_route_rule_match in
      let source_routes = get_routes_from_rule r source_route_rule_match in
      let r₁ = record r { match_rule_type = dest_rule } in
      let r₂ = record r { match_rule_type = src_rule } in
      let (notes₁, found₁) =
        get_rule_filtered_instances dst_route_rule_match r s.instances within dst_routes
          (notes_of r s) in
      let (notes₂, found₂) =
        get_rule_filtered_instances source_route_rule_match r s.instances within source_routes
          (notes_of r s) in
      if is_nil r.dest_service
      then (r, s, failed api_invalid_argument)
      else if ltb 0 (length dst_routes)
      then (noted_info r₁ notes₁, noted_service s notes₁, answer_selected config r s within found₁)
      else if ltb 0 (length source_routes)
      then (noted_info r₂ notes₂, noted_service s notes₂, answer_selected config r s within found₂)
      else (r, s, answer_cluster normal s (new_cluster pooled within))

  abbrev pub rule_based : RuleRouterConfig → ℕ → Router
  rule_based config id = record {
    id = id;
    enable = enable;
    get_filtered_instances = get_filtered_instances config;
  }
