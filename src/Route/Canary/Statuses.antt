-- ===== src/Route/Canary/Statuses.antt =====
-- Which instances the canary router hands out: plugin/servicerouter/canary/canary_router.go.
use polaris_go.Base.{Bool, true, Option, none, some}
use polaris_go.Balance.Cluster.{Cluster, ClusterValue}
use polaris_go.Route.{RouteStatus, degrade_to_filter_only, Answer, failed, routed, panicked}

-- What is handed out: the status, whether limited instances are asked for, and the value of the
-- cluster, if it has one by then.
pub record Outcome : Type 0 where
  pub status : RouteStatus
  pub limited : Bool
  pub value : Option ClusterValue

abbrev pub outcome : RouteStatus → Bool → Option ClusterValue → Outcome
outcome status limited value = record { status = status; limited = limited; value = value }

abbrev outcome_by : RouteStatus → Cluster → Outcome
outcome_by status c = outcome status c.has_limited_instances c.value

abbrev pub outcome_of : Answer → Option Outcome
outcome_of (routed t) = some (outcome_by t.status t.output_cluster.0)
outcome_of (failed e) = none
outcome_of panicked = none

-- The cluster in, with all its instances, for the router that ends the chain.
abbrev pub left_over : Outcome
left_over = outcome degrade_to_filter_only true none

-- The outcome of what a filter found.
abbrev or_outcome : Option (Cluster × RouteStatus) → Outcome
or_outcome none = left_over
or_outcome (some (c, status)) = outcome_by status c
