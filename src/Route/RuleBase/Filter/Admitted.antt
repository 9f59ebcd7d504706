-- ===== src/Route/RuleBase/Filter/Admitted.antt =====
-- Which instances the router by rules admits: getRuleFilteredInstances,
-- plugin/servicerouter/rulebase/base.go, against the rules.
use polaris_go.Base.{ℕ, ◌≡◌, ◌≢◌, ◌⊎◌, ◌==◌, Bool, true, false, Option, List, [], ◌∷◌, All}
use polaris_go.Base.Text.{Str, str_eq}
use polaris_go.Balance.Cluster.{Instance, Cluster, match_metadata}
use polaris_go.Match.{Pattern, not_equals}
use polaris_go.Route.{RouteInfo}
use polaris_go.Route.Traffic.{RuleMap, Destination, Rule}
use polaris_go.Route.RuleBase.{RuleMatch}
use polaris_go.Route.RuleBase.Sources.First.{Fits}
use polaris_go.Route.RuleBase.Destinations.Met.{Meets}
use polaris_go.Route.RuleBase.Filter.{rule_cache, is_foreign}

-- Some element of a list has a property.
abbrev pub Any : {A : Type 0} → (A → Type 0) → List A → Type 0
Any P [] = ⊥
Any P (x ∷ xs) = P x ⊎ Any P xs

-- Each key once, and no `NOT_EQUALS`.
abbrev pub IsPlain : RuleMap → Type 0
IsPlain [] = Unit
IsPlain ((key, rule) ∷ rules) =
    (rule.kind ≢ not_equals) × All (λ e. str_eq key e.0 ≡ false) rules × IsPlain rules

module _ (variables : Str → Option Str) (getenv : Str → Str) (compile : Str → Option Pattern)
    (intn : ℕ → ℕ) (pooled b : Bool) (kind : RuleMatch) (r : RouteInfo) (xs : List Instance)
    (x : Instance) where
  -- A destination that is not skipped, and whose conditions an instance meets.
  abbrev pub AdmitsAt : Destination → Type 0
  AdmitsAt d =
      (is_foreign kind r d ≡ false)
      × ((d.weight == 0) ≡ false)
      × All (Meets variables getenv (rule_cache r kind) r xs [] x.metadata) d.metadata

  -- A rule with a source that fits the caller, or with none, and a destination that admits an
  -- instance.
  abbrev pub AdmitsBy : Rule → Type 0
  AdmitsBy rule =
      ((rule.sources ≡ []) ⊎ Any (Fits variables getenv compile kind r) rule.sources)
      × Any AdmitsAt rule.destinations

  abbrev Sound : List Destination → Cluster → Type 0
  Sound ds c = match_metadata c x ≡ true → Any AdmitsAt ds
