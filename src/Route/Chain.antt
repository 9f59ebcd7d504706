-- ===== src/Route/Chain.antt =====
-- The chain of routers: processServiceRouters and GetFilterCluster, pkg/plugin/servicerouter/util.go.
-- The subscribers that are told of the outcome are left out.
use polaris_go.Base.{
  Bool, true, false, not, ◌&&◌, ◌||◌, Option, none, some, List, [], ◌∷◌, ◌==◌, if◌then◌else◌,
  length,
}
use polaris_go.Balance.Cluster.{Cluster}
use polaris_go.Balance.Cluster.Metadata.{reset}
use polaris_go.Balance.Cluster.Values.{get_cluster_value}
use polaris_go.Route.{
  RouteInfo, is_router_enable, normal, ErrCode, api_invalid_argument, Owned, RouteResult, Answer,
  failed, routed, panicked, Service, Router,
}

-- How the loop over the routers ends: by an error or a panic, by a redirection, or with the last result and the
-- cluster that is left.
pub data LoopEnd : Type 0 where
  stopped : ErrCode → LoopEnd
  crashed : LoopEnd
  redirected : RouteResult → LoopEnd
  passed : Option RouteResult → Owned → LoopEnd

unfoldable pub run_routers :
    List Router → RouteInfo → Service → Option RouteResult → Owned → RouteInfo × Service × LoopEnd
run_routers [] r s last c = (r, s, passed last c)
run_routers (p ∷ ps) r s last c =
    let skipped = run_routers ps r s last c in
    let (r', s', answer) = p.get_filtered_instances r s c in
    if not (is_router_enable r p.id) || not (p.enable r s) then skipped else elim answer [
      | failed e ↦ (r', s', stopped e)
      | panicked ↦ (r', s', crashed)
      | routed t ↦ elim t.redirect_dest_service [
        | some target ↦ (r', s', redirected t)
        | none ↦ run_routers ps r' s' (some t) t.output_cluster
      ]
    ]

-- What the function returns: an error, or a result that is nil if no router ran.
pub data Outcome : Type 0 where
  error : ErrCode → Outcome
  crash : Outcome
  result : Option RouteResult → Outcome

abbrev of_answer : Answer → Outcome
of_answer (failed e) = error e
of_answer panicked = crash
of_answer (routed t) = result (some t)

abbrev finish : Router → RouteInfo × Service × LoopEnd → RouteInfo × Service × Outcome
finish filter_only (r, s, stopped e) = (r, s, error e)
finish filter_only (r, s, crashed) = (r, s, crash)
finish filter_only (r, s, redirected t) = (r, s, result (some t))
finish filter_only (r, s, passed last c) =
    let (r', s', answer) = filter_only.get_filtered_instances r s c in
    if not r.ignore_filter_only_on_end_chain
    then (r', s', of_answer answer)
    else (r, s, result last)

unfoldable pub process_service_routers :
    Router → List Router → RouteInfo → Service → Owned → RouteInfo × Service × Outcome
unfolding run_routers
process_service_routers filter_only ps r s c = finish filter_only (run_routers ps r s none c)

abbrev has_value : {A : Type 0} → Option A → Bool
has_value none = false
has_value (some a) = true

unfoldable pub validate : RouteInfo → Bool
validate r = has_value r.dest_service && r.has_filter_only_router

-- The cluster value is computed before the result is handed out.
abbrev init_value : RouteResult → RouteResult
init_value t =
    let (c, xs) = t.output_cluster in
    let (c', v) = get_cluster_value xs c in record t { output_cluster = (c', xs) }

abbrev settle : Owned → RouteInfo × Service × Outcome → RouteInfo × Service × Answer
settle c (r, s, error e) = (r, s, failed e)
settle c (r, s, crash) = (r, s, panicked)
settle c (r, s, result none) = (
  r,
  s,
  routed
      (init_value (record { redirect_dest_service = none; output_cluster = c; status = normal })),
)
settle c (r, s, result (some t)) = elim t.redirect_dest_service [
  | some target ↦ (r, s, routed t)
  | none ↦ (r, s, routed (init_value t))
]

-- `pooled` is the flag that a cluster of the pool holds. With no router at all, all instances of the
-- service are handed out.
unfoldable pub get_filter_cluster :
    Bool → Router → List Router → RouteInfo → Service → RouteInfo × Service × Answer
unfolding process_service_routers validate
get_filter_cluster pooled filter_only ps r s =
    let c : Cluster = reset pooled in
    if not (validate r)
    then (r, s, failed api_invalid_argument)
    else if length ps == 0
    then settle (record c { has_limited_instances = true }, s.instances) (r, s, result none)
    else settle (c, s.instances) (process_service_routers filter_only ps r s (c, s.instances))
