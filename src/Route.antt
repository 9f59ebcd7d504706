-- ===== src/Route.antt =====
-- The service routers: pkg/plugin/servicerouter/servicerouter.go and util.go, with the plugins of
-- plugin/servicerouter. Here are the types they share. A router reads a cluster and answers a
-- narrower one, or an error; it may write into the information of the call and, for the nearby
-- router, into the service. Error texts, logs and pools are left out.
mod Given
pub mod Traffic
pub mod RuleBase
pub mod Chain
pub mod FilterOnly
pub mod ZeroProtect
pub mod Nearby
pub mod SetDivision
pub mod Canary
pub mod DstMeta
mod Tests
use polaris_go.Base.{
  ℕ, Bool, true, false, Option, none, some, List, [], ◌∷◌, ◌==◌, ltb, if◌then◌else◌, length,
}
use polaris_go.Base.Int.{ℤ}
use polaris_go.Base.Text.{Str}
use polaris_go.Balance.Cluster.{StrMap, Location, Instance, InstanceSet, Cluster}
use polaris_go.Balance.Cluster.Service.{MetaDataSet}
use polaris_go.Match.{ServiceKey}
use polaris_go.Route.Traffic.{ServiceRule}

pub data FailOverType : Type 0 where
  fail_over_all fail_over_none : FailOverType

pub data RuleType : Type 0 where
  unknown_rule dest_rule src_rule : RuleType

-- `FailOverHandler`; any other number is `other_handler`.
pub data FailOverHandler : Type 0 where
  get_one_health not_contain_meta_key custom_meta other_handler : FailOverHandler

pub record FailOverDefaultMetaConfig : Type 0 where
  pub type : FailOverHandler
  pub meta : StrMap

-- The fields of `RouteInfo` that routers use. A service is given by its metadata, with its names in
-- a field of their own, which is read only if there is a service. The filter-only router is an
-- argument of the chain, and here only whether there is one.
pub record RouteInfo : Type 0 where
  pub source_service : Option StrMap
  pub dest_service : Option StrMap
  pub has_filter_only_router : Bool
  pub ignore_filter_only_on_end_chain : Bool
  pub include_circuit_break_instances : Bool
  pub chain_enables : List (ℕ × Bool)
  pub enable_fail_over_default_meta : Bool
  pub fail_over_default_meta : FailOverDefaultMetaConfig
  pub canary : Str
  pub match_rule_type : RuleType
  pub source_key : ServiceKey
  pub dest_key : ServiceKey
  pub dest_route_rule : Option ServiceRule
  pub source_route_rule : Option ServiceRule
  pub fail_over_type : Option FailOverType
  pub environment_variables : StrMap

abbrev pub set_ignore_filter_only_on_end_chain : RouteInfo → Bool → RouteInfo
set_ignore_filter_only_on_end_chain r run = record r { ignore_filter_only_on_end_chain = run }

abbrev enabled_in : List (ℕ × Bool) → ℕ → Bool
enabled_in [] router = true
enabled_in ((k, enable) ∷ es) router = if k == router then enable else enabled_in es router

unfoldable pub is_router_enable : RouteInfo → ℕ → Bool
is_router_enable r router = enabled_in r.chain_enables router

abbrev set_enabled : List (ℕ × Bool) → ℕ → Bool → List (ℕ × Bool)
set_enabled [] router enable = (router, enable) ∷ []
set_enabled ((k, old) ∷ es) router enable =
    if k == router then (router, enable) ∷ es else (k, old) ∷ set_enabled es router enable

unfoldable pub set_router_enable : RouteInfo → ℕ → Bool → RouteInfo
set_router_enable r router enable = record r {
  chain_enables = set_enabled r.chain_enables router enable;
}

-- `ClearValue`: all routers are enabled again.
abbrev all_enabled : List (ℕ × Bool) → List (ℕ × Bool)
all_enabled [] = []
all_enabled ((k, enable) ∷ es) = (k, true) ∷ all_enabled es

unfoldable pub clear_value : RouteInfo → RouteInfo
clear_value r = record r {
  source_service = none;
  dest_service = none;
  dest_route_rule = none;
  has_filter_only_router = false;
  match_rule_type = unknown_rule;
  ignore_filter_only_on_end_chain = false;
  chain_enables = all_enabled r.chain_enables;
}

pub data RouteStatus : Type 0 where
  normal recover_all degrade_to_city degrade_to_region degrade_to_all : RouteStatus
  degrade_to_not_match_canary degrade_to_not_canary degrade_to_canary : RouteStatus
  limited_canary limited_no_canary degrade_to_filter_only : RouteStatus

-- The error codes that routers answer.
pub data ErrCode : Type 0 where
  api_invalid_argument api_instance_not_found location_mismatch dst_meta_mismatch : ErrCode

-- A cluster with the instances of the service that it belongs to: its field `clusters`.
abbrev pub Owned : Type 0
Owned = Cluster × List Instance

pub record RouteResult : Type 0 where
  pub redirect_dest_service : Option (Str × Str)
  pub output_cluster : Owned
  pub status : RouteStatus

pub data Answer : Type 0 where
  failed : ErrCode → Answer
  routed : RouteResult → Answer
  panicked : Answer

-- The cluster kept for the location of the client.
pub record ClientLocationCluster : Type 0 where
  pub location : Location
  pub cluster : Cluster
  pub match_level : ℤ

-- What routers read of `ServiceClusters`.
pub record Service : Type 0 where
  pub namespace : Str
  pub service : Str
  pub instances : List Instance
  pub enabled_nearby : Bool
  pub enabled_canary : Bool
  pub nearby_cluster : Option ClientLocationCluster
  pub meta_data_set : MetaDataSet

-- A plugin.
pub record Router : Type 0 where
  pub id : ℕ
  pub enable : RouteInfo → Service → Bool
  pub get_filtered_instances : RouteInfo → Service → Owned → RouteInfo × Service × Answer

abbrev pub answer_cluster : RouteStatus → Service → Cluster → Answer
answer_cluster status s c =
    routed
      (record { redirect_dest_service = none; output_cluster = (c, s.instances); status = status })

-- `InstanceSet.Count`
abbrev pub count : InstanceSet → ℕ
count s = length s.weighted_indexes

abbrev pub has_some : InstanceSet → Bool
has_some s = ltb 0 (count s)
