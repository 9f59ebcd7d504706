-- ===== src/Route/Tests.antt =====
-- The theorems on the routers, at a service of two instances.
use polaris_go.Base.{
  ℕ, ◌+◌, ◌≡◌, ◌↔◌, refl, ap, true, false, none, some, List, [], ◌∷◌, ◌==◌, ltb, if◌then◌else◌,
  arith,
}
use polaris_go.Base.Int.{pos}
use polaris_go.Base.Text.{Str, str_eq}
use polaris_go.Balance.Cluster.{
  StrMap, Location, Instance, Cluster, lookup, match_metadata, match_location,
}
use polaris_go.Balance.Cluster.Metadata.{
  reset, new_cluster, add_metadata, rule_add_metadata, reload_compose_meta_value,
  clear_cluster_value, build_composed_value,
}
use polaris_go.Balance.Cluster.Values.{get_cluster_value}
use polaris_go.Balance.Cluster.Matching.{Accepts}
use polaris_go.Balance.Cluster.Added.{named, paired, reset-Means}
use polaris_go.Route.{
  RouteInfo, unknown_rule, custom_meta, normal, Answer, routed, failed, dst_meta_mismatch, Service,
  answer_cluster,
}
use polaris_go.Route.Given.{built_value, given}
use polaris_go.Route.FilterOnly.{filtered_cluster}
use polaris_go.Route.FilterOnly.Recover.{never_empty}
use polaris_go.Route.ZeroProtect.{last_heartbeat_key, parse_nearest, protected_instances}
use polaris_go.Route.ZeroProtect.Stale.{IsRecent, fresh_dropped}
use polaris_go.Route.Nearby.{NearbyFilter, LevelCount, final_level}
use polaris_go.Route.Nearby.Levels.{FinalLevel, final_level_lem}
use polaris_go.Route.Canary.{canary_meta_key, get_filtered_instances}
use polaris_go.Route.DstMeta.{dest_metadata, get_target_cluster, add_all}
use polaris_go.Route.DstMeta.Exact.{target_cluster_lem, routed_lem}
use polaris_go.Route.DstMeta.Answers.{has_selectable, answer_lem}
use polaris_go.Route.DstMeta

abbrev nowhere : Location
nowhere = record { region = []; zone = []; campus = [] }

abbrev instance_of : Str → StrMap → Instance
instance_of id metadata = record {
  id = id;
  ttl = pos 5;
  weight = 100;
  is_isolated = false;
  is_healthy = true;
  circuit_breaker_status = none;
  metadata = metadata;
  location = nowhere;
}

-- "env", "test" and "100"
abbrev env : Str
env = b'e' ∷ b'n' ∷ b'v' ∷ []

abbrev test : Str
test = b't' ∷ b'e' ∷ b's' ∷ b't' ∷ []

abbrev beat_text : Str
beat_text = b'1' ∷ b'0' ∷ b'0' ∷ []

abbrev plain : Instance
plain = instance_of (b'a' ∷ []) []

abbrev tested : Instance
tested = instance_of (b'b' ∷ []) ((env, test) ∷ [])

abbrev canary : Instance
canary = instance_of (b'c' ∷ []) ((canary_meta_key, test) ∷ [])

abbrev beating : Instance
beating = instance_of (b'd' ∷ []) ((last_heartbeat_key, beat_text) ∷ [])

abbrev service : List Instance → Service
service xs = record {
  namespace = [];
  service = [];
  instances = xs;
  enabled_nearby = true;
  enabled_canary = true;
  nearby_cluster = none;
  meta_data_set = [];
}

abbrev info : Str → StrMap → RouteInfo
info canary metadata = record {
  source_service = none;
  dest_service = some metadata;
  has_filter_only_router = true;
  ignore_filter_only_on_end_chain = false;
  include_circuit_break_instances = false;
  chain_enables = [];
  enable_fail_over_default_meta = false;
  fail_over_default_meta = record { type = custom_meta; meta = [] };
  canary = canary;
  match_rule_type = unknown_rule;
  source_key = record { namespace = []; service = [] };
  dest_key = record { namespace = []; service = [] };
  dest_route_rule = none;
  source_route_rule = none;
  fail_over_type = none;
  environment_variables = [];
}

target_cluster_lem_example :
    (match_metadata (get_target_cluster false (reset false) ((env, test) ∷ [])) tested ≡ true)
    ↔ Accepts (named ((env, test) ∷ [])) (paired ((env, test) ∷ [])) tested.metadata
target_cluster_lem_example =
    target_cluster_lem false (reset false) ((env, test) ∷ []) [] tested (reset-Means false)

abbrev tests : Service
tests = service (plain ∷ tested ∷ [])

abbrev test_cluster : Cluster
test_cluster = get_target_cluster false (reset false) ((env, test) ∷ [])

answer_lem_example :
    DstMeta.get_filtered_instances false (info [] ((env, test) ∷ [])) tests (reset false, []) ≡ (
      info [] ((env, test) ∷ []),
      tests,
      if has_selectable test_cluster tests.instances
          then answer_cluster normal tests (get_cluster_value tests.instances test_cluster).0
          else failed dst_meta_mismatch,
    )
answer_lem_example = answer_lem false (info [] ((env, test) ∷ [])) tests (reset false) [] refl refl

tests_answer :
    (DstMeta.get_filtered_instances false (info [] ((env, test) ∷ [])) tests (reset false, [])).2
    ≡ routed (record {
      redirect_dest_service = none;
      output_cluster = ((get_cluster_value tests.instances test_cluster).0, tests.instances);
      status = normal;
    })
unfolding get_target_cluster add_all add_metadata rule_add_metadata build_composed_value new_cluster
    reset reload_compose_meta_value clear_cluster_value match_metadata match_location str_eq
tests_answer =
    ap (λ (a : RouteInfo × Service × Answer). a.2)
      (answer_lem false (info [] ((env, test) ∷ [])) tests (reset false) [] refl refl)

routed_lem_example : lookup tested.metadata env ≡ some test
unfolding get_cluster_value get_target_cluster add_all add_metadata rule_add_metadata
    build_composed_value new_cluster reset reload_compose_meta_value clear_cluster_value
    match_metadata str_eq
routed_lem_example =
    routed_lem false false (info [] ((env, test) ∷ [])) tests [] _ env test tested (refl, tt) refl
      tests_answer refl refl

never_empty_example :
    let c = new_cluster false (reset false) in
    let out = filtered_cluster false (λ n. n) true (info [] []) tests (reset false, []) in
    (given (built_value c tests.instances) out.has_limited_instances true == 0) ≡ false
unfolding new_cluster reset match_metadata match_location
never_empty_example = never_empty false (λ n. n) (info [] []) tests (reset false) [] true refl refl

beating-IsRecent : IsRecent 95 110 beating
unfolding parse_nearest str_eq
beating-IsRecent = record {
  beat = pos 100;
  is_beat = refl;
  within = record {
    value = 100;
    is_value = refl;
    not_before = omega arith;
    not_after = omega arith;
  };
  ttl = 5;
  is_ttl = refl;
  close = omega arith;
  small = omega arith;
}

fresh_dropped_example : protected_instances (beating ∷ []) ≡ some []
fresh_dropped_example = fresh_dropped 95 110 (omega arith) beating [] (beating-IsRecent, tt)

abbrev filter : NearbyFilter
filter = record {
  match_level = 3;
  max_match_level = 0;
  enable_degrade_by_unhealthy_percent = true;
  recover_all = true;
}

abbrev level_count : ℕ → ℕ → LevelCount
level_count healthy all = record {
  health_count = healthy;
  un_health_count = all;
  all_count = healthy + all;
}

-- Nothing in the campus, only unhealthy instances in the zone.
abbrev counts : List LevelCount
counts = level_count 5 3 ∷ level_count 2 2 ∷ level_count 0 2 ∷ level_count 0 0 ∷ []

final_level_lem_example :
    FinalLevel
      (λ bad all. ltb bad all)
      filter
      counts
      0
      3
      (final_level (λ bad all. ltb bad all) filter counts 3 0)
final_level_lem_example = final_level_lem (λ bad all. ltb bad all) filter counts 0 3

abbrev far_region : Location
far_region = record { region = env; zone = test; campus = [] }

abbrev canaries : Service
canaries = service (canary ∷ [])
