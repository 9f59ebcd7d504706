-- ===== src/Route/RuleBase/Filter/Unmatched.antt =====
-- What the router by rules answers a caller that no rule is for: GetFilteredInstances,
-- plugin/servicerouter/rulebase/rule.go.
use polaris_go.Base.{
  ℕ, ◌≡◌, ◌≢◌, refl, inl, inr, Bool, true, false, Option, none, some, List, [], ◌∷◌, All, ltb,
  length, arith,
}
use polaris_go.Base.Text.{Str}
use polaris_go.Balance.Cluster.{
  StrMap, Instance, Cluster, ClusterValue, new_cluster_value, build_from,
}
use polaris_go.Balance.Cluster.Metadata.{new_cluster}
use polaris_go.Balance.Cluster.Values.{get_cluster_value}
use polaris_go.Match.{Pattern}
use polaris_go.Route.{
  FailOverType, fail_over_all, fail_over_none, RouteInfo, normal, Answer, routed, RouteResult,
  answer_cluster, Service,
}
use polaris_go.Route.Given.{new_cluster-value, get_cluster_value-new}
use polaris_go.Route.Traffic.{Source, Rule}
use polaris_go.Route.RuleBase.{dst_route_rule_match, Notes}
use polaris_go.Route.RuleBase.Sources.{match_source}
use polaris_go.Route.RuleBase.Sources.First.{IsFirst, Fits, match_source-IsFirst}
use polaris_go.Route.RuleBase.Filter.{
  is_nil, RuleRouterConfig, get_routes_from_rule, get_rule_filtered_instances, fail_over,
  get_filtered_instances, notes_of,
}

none-IsFirst :
    {A : Type 0} (P : A → Type 0) (xs : List A) (found : Bool) (first : Option A)
    → All (λ x. ¬ P x) xs
    → IsFirst P xs found first
    → found ≡ false
none-IsFirst P [] found first a f = f.0
none-IsFirst P (x ∷ xs) found first a (inl (p, e, f)) = absurd (a.0 p)
none-IsFirst P (x ∷ xs) found first a (inr (n, rest)) = none-IsFirst P xs found first a.1 rest

-- The type of the call, or else that of the configuration.
abbrev pub fail_over_of : RuleRouterConfig → RouteInfo → FailOverType
fail_over_of config r = elim r.fail_over_type [ none ↦ config.failover_type | some given ↦ given ]

empty_value : (c : Cluster) → c.value ≡ none → (get_cluster_value [] c).1 ≡ new_cluster_value
unfolding build_from
empty_value c e = get_cluster_value-new [] c e

-- The value of the cluster that is handed out.
abbrev pub value_of : RouteResult → ClusterValue
value_of t = (get_cluster_value t.output_cluster.1 t.output_cluster.0).1

-- What is handed out by the type of the failover: no instances at all, or a cluster of the service.
abbrev pub HandsOut : Service → Cluster → FailOverType → Answer → Type 0
HandsOut s c fail_over_none answer =
    (t : RouteResult) × (answer ≡ routed t) × (value_of t ≡ new_cluster_value)
HandsOut s c fail_over_all answer = answer ≡ answer_cluster normal s c

module _ (variables : Str → Option Str) (getenv : Str → Str) (compile : Str → Option Pattern)
    (intn : ℕ → ℕ) (pooled : Bool) where
  -- A rule that lists sources, none of which fits the caller.
  abbrev pub IsUnfit : RouteInfo → Rule → Type 0
  IsUnfit r rule =
      (rule.sources ≢ [])
      × All (λ s. ¬ Fits variables getenv compile dst_route_rule_match r s) rule.sources

  unfit-source :
      (r : RouteInfo) (ss : List Source) (env : StrMap)
      → ss ≢ []
      → All (λ s. ¬ Fits variables getenv compile dst_route_rule_match r s) ss
      → (match_source variables getenv compile dst_route_rule_match r ss env).1 ≡ false
  unfit-source r [] env n a = absurd (n refl)
  unfit-source r (s ∷ ss) env n a =
      none-IsFirst _ (s ∷ ss) _ _ a
        (match_source-IsFirst variables getenv compile dst_route_rule_match r s ss env)

  unfit-none :
      (r : RouteInfo) (xs : List Instance) (within : Cluster) (rules : List Rule) (notes : Notes)
      → All (IsUnfit r) rules
      → (get_rule_filtered_instances variables getenv compile intn pooled dst_route_rule_match r xs
          within rules notes).1
        ≡ none
  unfolding get_rule_filtered_instances
  unfit-none r xs within [] notes a = refl
  unfit-none r xs within (rule ∷ rules) notes a =
      let e = unfit-source r rule.sources notes.environment_variables a.0.0 a.0.1 in
      rw e (unfit-none r xs within rules _ a.1)

  some_rules : (rules : List Rule) → rules ≢ [] → ltb 0 (length rules) ≡ true
  some_rules [] n = absurd (n refl)
  some_rules (rule ∷ rules) n = ground arith

  unfit-fail_over :
      (config : RuleRouterConfig) (r : RouteInfo) (s : Service) (within : Cluster)
      (owner : List Instance)
      → is_nil r.dest_service ≡ false
      → get_routes_from_rule r dst_route_rule_match ≢ []
      → All (IsUnfit r) (get_routes_from_rule r dst_route_rule_match)
      → (get_filtered_instances variables getenv compile intn pooled config r s (within, owner)).2
        ≡ fail_over variables getenv compile intn pooled config r s within
  unfolding get_filtered_instances
  unfit-fail_over config r s within owner d n a =
      let rules = get_routes_from_rule r dst_route_rule_match in
      let e =
        unfit-none r s.instances within rules (notes_of variables getenv compile intn pooled r s)
          a in
      rw (d, some_rules rules n, e) refl

  module _ (config : RuleRouterConfig) (r : RouteInfo) (s : Service) (within : Cluster) where
    handed-HandsOut :
        (type : FailOverType)
        → fail_over_of config r ≡ type
        → HandsOut s
            (new_cluster pooled within)
            type
            (fail_over variables getenv compile intn pooled config r s within)
    unfolding fail_over
    handed-HandsOut fail_over_none h = (
      record {
        redirect_dest_service = none;
        output_cluster = (new_cluster pooled within, []);
        status = normal;
      },
      rw (h, fail_over) refl,
      empty_value (new_cluster pooled within) (new_cluster-value pooled within),
    )
    handed-HandsOut fail_over_all h = rw (h, fail_over) refl

  -- When the destination has rules, and each of them lists sources of which none fits the caller: if
  -- the type of the failover, that of the call or else of the configuration, is none, the cluster
  -- handed out stands for no instances at all; otherwise it is the cluster in, over all instances of
  -- the service.
  pub unfit_answer :
      (config : RuleRouterConfig) (r : RouteInfo) (s : Service) (within : Cluster)
      (owner : List Instance)
      → is_nil r.dest_service ≡ false
      → get_routes_from_rule r dst_route_rule_match ≢ []
      → All (IsUnfit r) (get_routes_from_rule r dst_route_rule_match)
      → HandsOut s
          (new_cluster pooled within)
          (fail_over_of config r)
          (get_filtered_instances variables getenv compile intn pooled config r s (within, owner)).2
  unfit_answer config r s within owner d n a =
      let same = unfit-fail_over config r s within owner d n a in
      rw same (handed-HandsOut config r s within (fail_over_of config r) refl)
