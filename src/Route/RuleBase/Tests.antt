-- ===== src/Route/RuleBase/Tests.antt =====
-- The theorems on the router by rules, at a service of two instances: one is for tests, and the
-- callers that are tests go there.
use polaris_go.Base.{ℕ, ◌≡◌, refl, inl, inr, true, false, Option, none, some, List, [], ◌∷◌, arith}
use polaris_go.Base.Int.{pos}
use polaris_go.Base.Text.{Str}
use polaris_go.Balance.Cluster.{StrMap, Location, Instance, Cluster}
use polaris_go.Balance.Cluster.Metadata.{
  reset, new_cluster, rule_add_metadata, reload_compose_meta_value, build_composed_value,
}
use polaris_go.Match.{Pattern, exact}
use polaris_go.Route.{fail_over_none, unknown_rule, custom_meta, RouteInfo, Service}
use polaris_go.Route.Traffic.{RuleMap, text, Source, Destination, Rule, ServiceRule, Finder}
use polaris_go.Route.RuleBase.{dst_route_rule_match, Notes}
use polaris_go.Route.RuleBase.Sources.{match_source}
use polaris_go.Route.RuleBase.Sources.First.{IsFirst, Fits, match_source-IsFirst}
use polaris_go.Route.RuleBase.Subsets.{selected, select_cluster}
use polaris_go.Route.RuleBase.Subsets.Picks.{pick}
use polaris_go.Route.RuleBase.Subsets.Lowest.{add_each, select_cluster-pick, select_cluster-last}
use polaris_go.Route.RuleBase.Filter.{
  RuleRouterConfig, get_routes_from_rule, get_filtered_instances,
}
use polaris_go.Route.RuleBase.Filter.Unmatched.{HandsOut, fail_over_of, unfit_answer}

-- No variables, and no expressions.
abbrev no_variable : Str → Option Str
no_variable key = none

abbrev no_environment : Str → Str
no_environment key = []

abbrev no_pattern : Str → Option Pattern
no_pattern expression = none

abbrev no_finder : Str → Option Finder
no_finder expression = none

-- "env" and "test"
abbrev env : Str
env = b'e' ∷ b'n' ∷ b'v' ∷ []

abbrev test : Str
test = b't' ∷ b'e' ∷ b's' ∷ b't' ∷ []

abbrev any_name : Str
any_name = b'*' ∷ []

abbrev is_test : RuleMap
is_test = (env, record { kind = exact; value_type = text; value = test }) ∷ []

abbrev test_source : Source
test_source = record { namespace = any_name; service = any_name; metadata = is_test }

abbrev test_destination : Destination
test_destination = record {
  namespace = any_name;
  service = any_name;
  metadata = is_test;
  priority = 0;
  weight = 100;
}

abbrev test_rule : Rule
test_rule = record { sources = test_source ∷ []; destinations = test_destination ∷ [] }

abbrev rules_of_service : ServiceRule
rules_of_service = record {
  value = some (record { inbounds = test_rule ∷ []; outbounds = [] });
  is_valid = true;
  get_regex_matcher = no_finder;
}

abbrev info : StrMap → RouteInfo
info source = record {
  source_service = some source;
  dest_service = some [];
  has_filter_only_router = true;
  ignore_filter_only_on_end_chain = false;
  include_circuit_break_instances = false;
  chain_enables = [];
  enable_fail_over_default_meta = false;
  fail_over_default_meta = record { type = custom_meta; meta = [] };
  canary = [];
  match_rule_type = unknown_rule;
  source_key = record { namespace = env; service = env };
  dest_key = record { namespace = env; service = test };
  dest_route_rule = some rules_of_service;
  source_route_rule = none;
  fail_over_type = none;
  environment_variables = [];
}

abbrev caller : RouteInfo
caller = info ((env, test) ∷ [])

match_source-IsFirst_example :
    let result =
      match_source no_variable no_environment no_pattern dst_route_rule_match caller
        (test_source ∷ [])
        [] in
    IsFirst
      (Fits no_variable no_environment no_pattern dst_route_rule_match caller)
      (test_source ∷ [])
      result.1
      result.2
match_source-IsFirst_example =
    match_source-IsFirst no_variable no_environment no_pattern dst_route_rule_match caller
      test_source [] []

abbrev named_cluster : Str → Cluster
named_cluster key = (rule_add_metadata (reset false) key test []).0

-- Two clusters of priority 1, of weights 10 and 20, and one of priority 2.
abbrev clusters : List (ℕ × ℕ × Cluster)
clusters = (2, 5, named_cluster []) ∷ (1, 10, named_cluster env) ∷ (1, 20, named_cluster test) ∷ []

select_cluster-pick_example :
    select_cluster (λ total. 12) (add_each clusters [])
    ≡ selected
        (pick 12 (named_cluster env) ((10, named_cluster env) ∷ (20, named_cluster test) ∷ []))
select_cluster-pick_example =
    select_cluster-pick (λ total. 12) 1 clusters 10 (named_cluster env)
      ((20, named_cluster test) ∷ []) refl (omega arith) (omega arith) (omega arith)

-- Two clusters of weight one: the second is never selected.
abbrev equal_clusters : List (ℕ × ℕ × Cluster)
equal_clusters = (0, 1, named_cluster env) ∷ (0, 1, named_cluster test) ∷ []

select_cluster-last_example :
    select_cluster (λ total. 1) (add_each equal_clusters [])
    ≡ selected (pick 1 (named_cluster env) ((1, named_cluster env) ∷ []))
select_cluster-last_example =
    select_cluster-last (λ total. 1) 0 equal_clusters 1 (named_cluster env) [] (named_cluster test)
      refl (omega arith) (omega arith) (omega arith)

abbrev nowhere : Location
nowhere = record { region = []; zone = []; campus = [] }

abbrev instance_of : StrMap → Instance
instance_of metadata = record {
  id = test;
  ttl = pos 5;
  weight = 100;
  is_isolated = false;
  is_healthy = true;
  circuit_breaker_status = none;
  metadata = metadata;
  location = nowhere;
}

abbrev tested : Instance
tested = instance_of ((env, test) ∷ [])

abbrev instances : List Instance
instances = instance_of [] ∷ tested ∷ []

abbrev no_notes : Notes
no_notes = record { environment_variables = []; meta_data_set = [] }

abbrev test_cluster : Cluster
test_cluster =
    reload_compose_meta_value
      (rule_add_metadata (new_cluster false (reset false)) env test
        (build_composed_value env test)).0

-- A caller without metadata.
abbrev stranger : RouteInfo
stranger = info []

abbrev service : Service
service = record {
  namespace = env;
  service = test;
  instances = instances;
  enabled_nearby = false;
  enabled_canary = false;
  nearby_cluster = none;
  meta_data_set = [];
}

abbrev closed : RuleRouterConfig
closed = record { failover_type = fail_over_none; failover_text = [] }

stranger-Fits :
    ¬ Fits no_variable no_environment no_pattern dst_route_rule_match stranger test_source
stranger-Fits (e, inl f) = cc
stranger-Fits (e, inr (n, a)) = n refl

stranger-rules : get_routes_from_rule stranger dst_route_rule_match ≡ test_rule ∷ []
unfolding get_routes_from_rule
stranger-rules = refl

unfit_answer_example :
    HandsOut service
      (new_cluster false (reset false))
      (fail_over_of closed stranger)
      (get_filtered_instances no_variable no_environment no_pattern
        (λ total. 0)
        false
        closed
        stranger
        service
        (reset false, [])).2
unfit_answer_example =
    unfit_answer no_variable no_environment no_pattern (λ total. 0) false closed stranger service
      (reset false) [] refl (rw stranger-rules (λ e. cc))
      (rw stranger-rules ((λ e. cc, (stranger-Fits, tt)), tt))
